-- ===== src/Delivery/Evident.antt =====
-- packages/models/src/activity-delivery.ts: what a receipt of a delivery is evidence of.
use drfed.Common.{
  ◌≡◌, ◌⊎◌, inl, inr, refl, sym, ap, ◌∙◌, Bool, true, false, ◌&&◌, Option, none, some, List, [],
  ◌∷◌, arith, find, ◌==◌, ==-refl, if◌then◌else◌, Bool-cases, find-passes,
}
use drfed.Revision.{Uuid, RevisionKind, snapshot}
use drfed.Delivery.{
  Value, Delivery, Receipt, activity_role, object_role, StoredObject, Snapshot, Activity, Store,
}
use drfed.Delivery.Storable.{present}
use drfed.Delivery.Carried.{is_snapshot, object_of, first_snapshot, equals}

-- An element of a list.
abbrev pub Among : {A : Type 0} → A → List A → Type 0
Among x [] = ⊥
Among x (y ∷ ys) = (x ≡ y) ⊎ Among x ys

-- A snapshot that is the first revision of a resource.
pub record IsFirst (s : Store) (r : Uuid) (v : Snapshot) : Type 0 where
  pub stored : Among v s.revisions
  pub own : v.resource_id ≡ r
  pub first : v.sequence ≡ 1
  pub kind : v.kind ≡ snapshot

-- A resource has one first revision, as the unique key of its revisions wants.
abbrev pub OneFirst : Store → Type 0
OneFirst s = (r : Uuid) (v w : Snapshot) → IsFirst s r v → IsFirst s r w → v ≡ w

some-same : {A : Type 0} (x v : A) → some x ≡ some v → x ≡ v
some-same x v h = cc

find-Among : {A : Type 0} (p : A → Bool) (xs : List A) (v : A) → find p xs ≡ some v → Among v xs
find-Among p [] v h = cc
find-Among p (x ∷ xs) v h = elim (Bool-cases (p x)) [
  | inl passes ↦ inl (sym (some-same x v (rw passes at h)))
  | inr fails ↦ inr (find-Among p xs v (rw fails at h))
]

Among-find :
    {A : Type 0} (p : A → Bool) (xs : List A) (v : A)
    → Among v xs
    → p v ≡ true
    → (u : A) × (find p xs ≡ some u)
Among-find p [] v h k = absurd h
Among-find p (x ∷ xs) v (inl e) k = (v, rw (← e, k) refl)
Among-find p (x ∷ xs) v (inr h) k = elim (Bool-cases (p x)) [
  | inl passes ↦ (x, rw passes refl)
  | inr fails ↦ let (u, found) = Among-find p xs v h k in (u, rw fails found)
]

is_snapshot-kind : (k : RevisionKind) → is_snapshot k ≡ true → k ≡ snapshot
is_snapshot-kind k h = ground (arith, h)

pub first_snapshot-IsFirst :
    (s : Store) (r : Uuid) (v : Snapshot) → first_snapshot s r ≡ some v → IsFirst s r v
first_snapshot-IsFirst s r v h =
    let passes =
      find-passes (λ (v : Snapshot). v.resource_id == r && v.sequence == 1 && is_snapshot v.kind)
        s.revisions v h in
    record {
      stored = find-Among _ s.revisions v h;
      own = ground (arith, passes);
      first = ground (arith, passes);
      kind = is_snapshot-kind v.kind (ground (arith, passes));
    }

pub IsFirst-first_snapshot :
    (s : Store) (r : Uuid) (v : Snapshot) → OneFirst s → IsFirst s r v → first_snapshot s r ≡ some v
IsFirst-first_snapshot s r v one h =
    let (u, found) =
      Among-find (λ (v : Snapshot). v.resource_id == r && v.sequence == 1 && is_snapshot v.kind)
        s.revisions v h.stored (rw (h.own, h.first, h.kind, ==-refl r) refl) in
    found ∙ ap some (one r u v (first_snapshot-IsFirst s r u found) h)

pub Among-if :
    {A : Type 0} (b : Bool) (x : A) (xs : List A)
    → Among x (if b then xs else [])
    → (b ≡ true) × Among x xs
Among-if true x xs h = (refl, h)
Among-if false x xs h = absurd h

pub and-cases : (a b : Bool) → (a && b) ≡ true → (a ≡ true) × (b ≡ true)
and-cases true b h = (refl, h)
and-cases false b h = cc

module _ (deep_equal : Value → Value → Bool) where
  -- A value is there and equals another in all its parts.
  pub record Matches (o : Option Value) (w : Value) : Type 0 where
    pub value : Value
    pub there : o ≡ some value
    pub same : deep_equal value w ≡ true

  pub equals-Matches : (o : Option Value) (w : Value) → equals deep_equal o w ≡ true → Matches o w
  equals-Matches none w h = cc
  equals-Matches (some v) w h = record { value = v; there = refl; same = h }

  pub Matches-equals : (o : Option Value) (w : Value) → Matches o w → equals deep_equal o w ≡ true
  Matches-equals o w m = rw m.there m.same

  -- The delivery carried the activity, whose first revision is the stored document.
  pub record CarriedActivity (s : Store) (d : Delivery) (a : Activity) (v : Snapshot) : Type 0 where
    pub first : IsFirst s a.id v
    pub sent : Matches (present d.payload) a.document
    pub kept : Matches v.document a.document

  -- It also brought the object, whose first revision is the stored document.
  pub record CarriedObject (s : Store) (d : Delivery) (a : Activity) (v : Snapshot) : Type 0 where
    pub shown : Snapshot
    pub carried : CarriedActivity s d a shown
    pub object : StoredObject
    pub found : object_of s a.id ≡ some object
    pub first : IsFirst s object.id v
    pub brought : (object.fetched ≡ false) ⊎ Matches (present d.fetched_object) object.document
    pub kept : Matches v.document object.document

  pub data IsEvidence (s : Store) (d : Delivery) (a : Activity) (r : Receipt) : Type 0 where
    of_activity :
        (v : Snapshot)
        → CarriedActivity s d a v
        → r ≡ record { delivery_id = d.id; revision_id = v.id; role = activity_role }
        → IsEvidence s d a r
    of_object :
        (v : Snapshot)
        → CarriedObject s d a v
        → r ≡ record { delivery_id = d.id; revision_id = v.id; role = object_role }
        → IsEvidence s d a r

-- ===== src/Delivery/Linking.antt =====
-- packages/models/src/activity-delivery.ts: what `linkInboundActivity` links, and what it then decides
-- of what the delivery carried.
use drfed.Common.{
  find-passes, ◌≡◌, refl, sym, ap, ◌∙◌, Bool, true, false, Option, none, some, List, [], ◌∷◌, arith,
  any, find, ◌==◌, ==-refl, if◌then◌else◌, Bool-cases, inl, inr,
}
use drfed.Revision.{Uuid}
use drfed.Delivery.{Text, Value, StoredObject, Delivery, Registered, Activity, Store, is_inbound}
use drfed.Delivery.Record.{is_accepted, is_verified}
use drfed.Delivery.Carried.{
  is_inbound_of, is_activity_kind, activity_of, object_of, carries, carries_object, set_carried,
  decide_carried, names, linkable, is_unlinked, may_link, with_link, link_to, link_found,
  link_inbound_activity,
}
use drfed.Delivery.Rows.{lookup, IsKeyed, lookup-updated, find-lookup, some-injective}
use drfed.Delivery.Valid.{IsValid}

pub lookup-find :
    (id : Uuid) (x : Delivery) (ds : List Delivery)
    → is_inbound x.direction ≡ true
    → lookup id ds ≡ some x
    → find (is_inbound_of id) ds ≡ some x
lookup-find id x [] inward h = h
lookup-find id x (y ∷ ds) inward h = elim (Bool-cases (y.id == id)) [
  | inl same ↦
      let e = some-injective y x (rw same at h) in
      rw (same, ap (λ (d : Delivery). is_inbound d.direction) e ∙ inward) (ap (λ d. some d) e)
  | inr other ↦ rw other (lookup-find id x ds inward (rw other at h))
]

stored-activity :
    (id : Uuid) (rows : List Activity)
    → any (λ a. a.id == id) rows ≡ true
    → (a : Activity) × (find (λ a. a.id == id) rows ≡ some a)
stored-activity id [] h = cc
stored-activity id (a ∷ rows) h = elim (Bool-cases (a.id == id)) [
  | inl same ↦ (a, rw same refl)
  | inr other ↦ rw other (stored-activity id rows (rw other at h))
]

-- What made a delivery and a resource fit each other.
pub record MayLink (s : Store) (d : Delivery) (r : Registered) : Type 0 where
  pub inward : is_inbound d.direction ≡ true
  pub accepted : is_accepted d.status ≡ true
  pub verified : is_verified d.verification_result ≡ true
  pub unlinked : is_unlinked d.activity_id ≡ true
  pub named : names d.activity_iri r ≡ true
  pub kind : is_activity_kind r.kind ≡ true

find-none :
    (p : Delivery → Bool) (id : Uuid) (d : Delivery) (ds : List Delivery)
    → find p ds ≡ none
    → lookup id ds ≡ some d
    → p d ≡ false
find-none p id d [] h e = cc
find-none p id d (x ∷ ds) h e = elim (Bool-cases (p x)) [
  | inl passes ↦ ground (arith, h, passes)
  | inr fails ↦ elim (Bool-cases (x.id == id)) [
    | inl same ↦ ap p (sym (some-injective x d (rw same at e))) ∙ fails
    | inr other ↦ find-none p id d ds (rw fails at h) (rw other at e)
  ]
]

may_link-id : (id : Uuid) (d : Delivery) → may_link id d ≡ true → d.id ≡ id
unfolding may_link
may_link-id id d h = ground (arith, h)

linkable-parts :
    (s : Store) (iri : Option Text) (r : Registered)
    → linkable s iri ≡ some r
    → (names iri r ≡ true)
      × (is_activity_kind r.kind ≡ true)
      × (any (λ a. a.id == r.id) s.activities ≡ true)
linkable-parts s iri r h =
    let passes = find-passes _ s.resources r h in
    (ground (arith, passes), ground (arith, passes), ground (arith, passes))

MayLink-parts :
    (s : Store) (id : Uuid) (d : Delivery) (r : Registered)
    → may_link id d ≡ true
    → linkable s d.activity_iri ≡ some r
    → MayLink s d r
unfolding may_link
MayLink-parts s id d r h fits =
    let (named, kind, stored) = linkable-parts s d.activity_iri r fits in
    record {
      inward = ground (arith, h);
      accepted = ground (arith, h);
      verified = ground (arith, h);
      unlinked = ground (arith, h);
      named = named;
      kind = kind;
    }

module _ (deep_equal : Value → Value → Bool) where
  decide_carried-marks :
      (s : Store) (id : Uuid) (x : Delivery) (a : Activity)
      → is_inbound x.direction ≡ true
      → lookup id s.deliveries ≡ some x
      → activity_of s x.activity_id ≡ some a
      → lookup id (decide_carried deep_equal s id).deliveries
        ≡ some (
            set_carried (carries deep_equal x a) (carries_object deep_equal x (object_of s a.id)) x)
  unfolding decide_carried
  decide_carried-marks s id x a inward row linked =
      rw (lookup-find id x s.deliveries inward row, linked)
        (lookup-updated (λ y. y.id == x.id)
            (set_carried (carries deep_equal x a) (carries_object deep_equal x (object_of s a.id)))
            (λ y. refl) s.deliveries id x row
          ∙ ap
              (λ b. some (
                if b
                then set_carried (carries deep_equal x a)
                    (carries_object deep_equal x (object_of s a.id)) x
                else x))
              (==-refl x.id))

  linked_marks :
      (d : Delivery) (k : Option Uuid) (a : Activity) (o : Option StoredObject)
      → set_carried
          (carries deep_equal (record d { activity_id = k }) a)
          (carries_object deep_equal (record d { activity_id = k }) o)
          (record d { activity_id = k })
        ≡ set_carried
            (carries deep_equal d a)
            (carries_object deep_equal d o)
            (record d { activity_id = k })
  unfolding carries carries_object
  linked_marks d k a none = refl
  linked_marks d k a (some o) = refl

  decide_carried-linked :
      (s : Store) (id : Uuid) (d : Delivery) (r : Registered) (a : Activity)
      → is_inbound d.direction ≡ true
      → lookup id (with_link s id r).deliveries ≡ some (record d { activity_id = some r.id })
      → activity_of s (some r.id) ≡ some a
      → lookup id (decide_carried deep_equal (with_link s id r) id).deliveries
        ≡ some (
            set_carried
              (carries deep_equal d a)
              (carries_object deep_equal d (object_of s a.id))
              (record d { activity_id = some r.id }))
  decide_carried-linked s id d r a inward there stored =
      decide_carried-marks (with_link s id r) id (record d { activity_id = some r.id }) a inward
        there stored
      ∙ ap (λ x. some x) (linked_marks d (some r.id) a (object_of s a.id))

  -- The store after a link: the row of the delivery, with the marks of what it carried.
  pub data Links (s : Store) (id : Uuid) : Store × Bool → Type 0 where
    not_linked :
        ((d : Delivery)
          → lookup id s.deliveries ≡ some d
          → may_link id d ≡ true
          → linkable s d.activity_iri ≡ none)
        → Links s id (s, false)
    linked :
        (s' : Store) (d : Delivery) (r : Registered) (a : Activity)
        → MayLink s d r
        → lookup id s.deliveries ≡ some d
        → activity_of s (some r.id) ≡ some a
        → lookup id s'.deliveries
          ≡ some (
              set_carried
                (carries deep_equal d a)
                (carries_object deep_equal d (object_of s a.id))
                (record d { activity_id = some r.id }))
        → Links s id (s', true)

  link_to-Links :
      (s : Store) (id : Uuid) (d : Delivery) (o : Option Registered)
      → may_link id d ≡ true
      → lookup id s.deliveries ≡ some d
      → linkable s d.activity_iri ≡ o
      → Links s id (link_to deep_equal s id o)
  link_to-Links s id d none passes row fits = not_linked (λ x there may.
      ap (λ (y : Delivery). linkable s y.activity_iri) (some-injective x d (sym there ∙ row))
      ∙ fits)
  link_to-Links s id d (some r) passes row fits =
      let may = MayLink-parts s id d r passes fits in
      let (a, stored) =
        stored-activity r.id s.activities (linkable-parts s d.activity_iri r fits).2 in
      let there =
        lookup-updated (may_link id) (λ x. record x { activity_id = some r.id }) (λ x. refl)
          s.deliveries id d row
        ∙ ap (λ b. some (if b then record d { activity_id = some r.id } else d)) passes in
      linked (decide_carried deep_equal (with_link s id r) id) d r a may row stored
        (decide_carried-linked s id d r a may.inward there stored)

  link_found-Links :
      (s : Store) (id : Uuid) (o : Option Delivery)
      → find (may_link id) s.deliveries ≡ o
      → IsKeyed s.deliveries
      → Links s id (link_found deep_equal s id o)
  link_found-Links s id none found keyed =
      not_linked
        (λ d there may. let fails = find-none (may_link id) id d s.deliveries found there in cc)
  link_found-Links s id (some d) found keyed =
      let (passes, row) = find-lookup (may_link id) s.deliveries d keyed found in
      link_to-Links s id d (linkable s d.activity_iri) passes
        (ap (λ k. lookup k s.deliveries) (sym (may_link-id id d passes)) ∙ row) refl

  -- An inbound delivery is linked exactly when it was verified and answered with 2xx, is not linked yet,
  -- and a stored activity has the IRI that it names; otherwise the store does not change. A linked
  -- delivery names that activity, and is marked with whether its payload is the stored document and
  -- whether it carried the object that is stored with the activity.
  pub link_inbound_activity-Links :
      (s : Store) (id : Uuid) → IsValid s → Links s id (link_inbound_activity deep_equal s id)
  unfolding link_inbound_activity
  link_inbound_activity-Links s id valid =
      link_found-Links s id (find (may_link id) s.deliveries) refl valid.keyed

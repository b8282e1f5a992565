-- ===== src/Registry/Promotion/Steps.antt =====
-- Registering and promoting keep one typed row for each resource that was promoted.
use drfed.Common.{
  ◌≡◌, refl, sym, ap, ◌∙◌, inl, inr, Bool, true, false, ◌||◌, Option, none, some, List, [], ◌∷◌,
  All, arith, ◌==◌, ==_iff, if◌then◌else◌, Bool-cases,
}
use drfed.Common.Result.{Result, ok, err}
use drfed.Revision.{Uuid, ResourceKind, is_unknown}
use drfed.Delivery.{Text, Registered}
use drfed.Registry.{
  RegistryError, by_id, has_id, has_iri, by_iri, admitted, add_rows, unknown_resource, selected,
  inserted, insert_unknown, ensure_found, ensure_resource,
}
use drfed.Registry.Ensuring.{IsRegistry, Grows}
use drfed.Registry.Promotion.{PromotedKind, kind_of, is_of, set_kind}
use drfed.Registry.Promotion.Typed.{expected}

-- Two tables that want the same typed rows.
abbrev pub Alike : List Registered → List Registered → Type 0
Alike rs rs' = (id : Uuid) → expected (by_id id rs') ≡ expected (by_id id rs)

absent-none : (id : Uuid) (rs : List Registered) → has_id id rs ≡ false → by_id id rs ≡ none
absent-none id [] h = refl
absent-none id (r ∷ rs) h = ground (arith, h, absent-none id rs)

Alike-unknown :
    (r : Registered) (rs : List Registered)
    → is_unknown r.kind ≡ true
    → has_id r.id rs ≡ false
    → Alike rs (r ∷ rs)
Alike-unknown r rs h new id = elim (Bool-cases (r.id == id)) [
  | inl same ↦
      rw (same, h)
        (sym (
          ap expected
            (absent-none id rs (ap (λ k. has_id k rs) (sym ((==_iff r.id id).0 same)) ∙ new))))
  | inr other ↦ rw other refl
]

Alike-admitted :
    (b : Bool) (r : Registered) (rs : List Registered)
    → is_unknown r.kind ≡ true
    → (has_id r.id rs || has_iri r.iri rs) ≡ b
    → Alike rs (admitted b r rs)
Alike-admitted true r rs h e id = refl
Alike-admitted false r rs h e id = Alike-unknown r rs h (ground (arith, e)) id

Alike-add_rows :
    (others rs : List Registered)
    → All (λ r. is_unknown r.kind ≡ true) others
    → Alike rs (add_rows others rs)
unfolding add_rows
Alike-add_rows [] rs h id = refl
Alike-add_rows (r ∷ others) rs h id =
    let b = has_id r.id rs || has_iri r.iri rs in
    Alike-add_rows others (admitted b r rs) h.1 id ∙ Alike-admitted b r rs h.0 refl id

selected-Alike :
    (rs rs' : List Registered) (r : Registered) (o : Option Registered)
    → selected rs o ≡ ok (rs', r)
    → Alike rs rs'
selected-Alike rs rs' r none h id = cc
selected-Alike rs rs' r (some x) h id = cc

inserted-Alike :
    (b : Bool) (k : Uuid) (iri : Text) (rs rs' : List Registered) (r : Registered)
    → has_id k rs ≡ b
    → inserted b k iri rs ≡ ok (rs', r)
    → Alike rs rs'
inserted-Alike true k iri rs rs' r e h id = cc
inserted-Alike false k iri rs rs' r e h id =
    let same = Alike-unknown (unknown_resource k iri) rs refl e id in
    let whole =
      ap
        (λ (o : Result RegistryError (List Registered × Registered)). elim o [
          | ok (t, x) ↦ t
          | err x ↦ []
        ])
        h in
    ap (λ t. expected (by_id id t)) (sym whole) ∙ same

insert_unknown-Alike :
    (b : Bool) (k : Uuid) (iri : Text) (rs rs' : List Registered) (r : Registered)
    → insert_unknown b k iri rs ≡ ok (rs', r)
    → Alike rs rs'
insert_unknown-Alike true k iri rs rs' r h = selected-Alike rs rs' r (by_iri iri rs) h
insert_unknown-Alike false k iri rs rs' r h = inserted-Alike (has_id k rs) k iri rs rs' r refl h

ensure_found-Alike :
    (others : List Registered) (k : Uuid) (iri : Text) (rs rs' : List Registered) (r : Registered)
    (o : Option Registered)
    → All (λ r. is_unknown r.kind ≡ true) others
    → ensure_found others k iri rs o ≡ ok (rs', r)
    → Alike rs rs'
ensure_found-Alike others k iri rs rs' r (some x) new h id =
    let whole =
      ap
        (λ (o : Result RegistryError (List Registered × Registered)). elim o [
          | ok (t, x) ↦ t
          | err x ↦ []
        ])
        h in
    ap (λ t. expected (by_id id t)) (sym whole) ∙ Alike-add_rows others rs new id
ensure_found-Alike others k iri rs rs' r none new h id =
    let more = add_rows others rs in
    insert_unknown-Alike (has_iri iri more) k iri more rs' r h id ∙ Alike-add_rows others rs new id

pub ensure_resource-Alike :
    (others : List Registered) (k : Uuid) (iri : Text) (rs rs' : List Registered) (r : Registered)
    → All (λ r. is_unknown r.kind ≡ true) others
    → ensure_resource others k iri rs ≡ ok (rs', r)
    → Alike rs rs'
unfolding ensure_resource
ensure_resource-Alike others k iri rs rs' r new h =
    ensure_found-Alike others k iri rs rs' r (by_iri iri rs) new h

-- Resources stay, and so does a kind other than unknown.
abbrev pub Stays : List Registered → List Registered → Type 0
Stays rs rs' =
    (id : Uuid) (x : Registered)
    → by_id id rs ≡ some x
    → (y : Registered) × (by_id id rs' ≡ some y)
      × (y.iri ≡ x.iri)
      × (is_unknown x.kind ≡ false → y.kind ≡ x.kind)

pub Grows-Stays : (rs rs' : List Registered) → Grows rs rs' → Stays rs rs'
Grows-Stays rs rs' g id x h = (x, g id x h, refl, λ k. refl)

pub Stays-trans : (a b c : List Registered) → Stays a b → Stays b c → Stays a c
Stays-trans a b c h k id x f =
    let (y, there, iri, kind) = h id x f in
    let (z, after, iri', kind') = k id y there in
    (z, after, iri' ∙ iri, λ known. kind' (ap is_unknown (kind known) ∙ known) ∙ kind known)

module _ (id : Uuid) (kind : ResourceKind) where
  abbrev pub rekinded : Option Registered → Option Registered
  rekinded none = none
  rekinded (some x) = some (if x.id == id then record x { kind = kind } else x)

  pub by_id-set_kind :
      (k : Uuid) (rs : List Registered) → by_id k (set_kind id kind rs) ≡ rekinded (by_id k rs)
  by_id-set_kind k [] = refl
  by_id-set_kind k (r ∷ rs) = ground (arith, by_id-set_kind k rs)

  has_id-set_kind : (k : Uuid) (rs : List Registered) → has_id k (set_kind id kind rs) ≡ has_id k rs
  has_id-set_kind k [] = refl
  has_id-set_kind k (r ∷ rs) = ground (arith, has_id-set_kind k rs)

  has_iri-set_kind :
      (iri : Text) (rs : List Registered) → has_iri iri (set_kind id kind rs) ≡ has_iri iri rs
  has_iri-set_kind iri [] = refl
  has_iri-set_kind iri (r ∷ rs) = ground (arith, has_iri-set_kind iri rs)

  pub IsRegistry-set_kind :
      (rs : List Registered) → IsRegistry rs → IsRegistry (set_kind id kind rs)
  IsRegistry-set_kind [] h = tt
  IsRegistry-set_kind (r ∷ rs) h = ground (
    arith,
    h.0,
    h.1,
    has_id-set_kind r.id rs,
    has_iri-set_kind r.iri rs,
    IsRegistry-set_kind rs h.2,
  )

pub by_id-id : (k : Uuid) (rs : List Registered) (x : Registered) → by_id k rs ≡ some x → x.id ≡ k
by_id-id k [] x h = cc
by_id-id k (r ∷ rs) x h = elim (Bool-cases (r.id == k)) [
  | inl same ↦
      ap (λ (o : Option Registered). elim o [ none ↦ k | some y ↦ y.id ]) (sym (rw same at h))
      ∙ (==_iff r.id k).0 same
  | inr other ↦ by_id-id k rs x (rw other at h)
]

pub is_of-kind_of :
    (k : ResourceKind) (kind : PromotedKind) → is_of k kind ≡ true → k ≡ kind_of kind
is_of-kind_of k kind h = ground (arith, h)

pub kind_of-known : (kind : PromotedKind) → is_unknown (kind_of kind) ≡ false
kind_of-known kind = ground arith

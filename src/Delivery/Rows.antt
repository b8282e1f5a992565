-- ===== src/Delivery/Rows.antt =====
-- The rows of activity_deliveries by their id, under an `UPDATE`.
use mathlib.Core.Path.{subst}
use drfed.Common.{
  ◌≡◌, refl, sym, ap, ◌∙◌, ◌⊎◌, Bool, true, false, Option, none, some, List, [], ◌∷◌, arith, ◌==◌,
  ==_iff, ==-refl, find, any, if◌then◌else◌, Bool-cases, inl, inr,
}
use drfed.Revision.{Uuid}
use drfed.Delivery.{Delivery, update_where}
use drfed.Delivery.Settle.{latest, later, is_newer}

abbrev pub lookup : Uuid → List Delivery → Option Delivery
lookup id ds = find (λ d. d.id == id) ds

-- Each id has one row.
abbrev pub IsKeyed : List Delivery → Type 0
IsKeyed [] = Unit
IsKeyed (d ∷ ds) = (any (λ x. x.id == d.id) ds ≡ false) × IsKeyed ds

abbrev pub updated : (Delivery → Bool) → (Delivery → Delivery) → Option Delivery → Option Delivery
updated p f none = none
updated p f (some d) = some (if p d then f d else d)

module _ (p : Delivery → Bool) (f : Delivery → Delivery)
    (keeps : (d : Delivery) → (f d).id ≡ d.id) where
  pub lookup-update_where :
      (id : Uuid) (ds : List Delivery)
      → lookup id (update_where p f ds) ≡ updated p f (lookup id ds)
  lookup-update_where id [] = refl
  lookup-update_where id (d ∷ ds) = ground (arith, keeps d, lookup-update_where id ds)

  any-update_where :
      (id : Uuid) (ds : List Delivery)
      → any (λ x. x.id == id) (update_where p f ds) ≡ any (λ x. x.id == id) ds
  any-update_where id [] = refl
  any-update_where id (d ∷ ds) = ground (arith, keeps d, any-update_where id ds)

  pub IsKeyed-update_where : (ds : List Delivery) → IsKeyed ds → IsKeyed (update_where p f ds)
  IsKeyed-update_where [] h = tt
  IsKeyed-update_where (d ∷ ds) h =
      ground (arith, keeps d, any-update_where d.id ds, IsKeyed-update_where ds h.1)

lookup-absent :
    (k id : Uuid) (d : Delivery) (ds : List Delivery)
    → any (λ x. x.id == k) ds ≡ false
    → lookup id ds ≡ some d
    → (k == id) ≡ false
lookup-absent k id d [] h e = cc
lookup-absent k id d (x ∷ ds) h e = ground (arith, lookup-absent k id d ds)

-- A row that stands below another has another id.
lookup-below :
    (x d : Delivery) (ds : List Delivery)
    → any (λ y. y.id == x.id) ds ≡ false
    → lookup d.id ds ≡ some d
    → lookup d.id (x ∷ ds) ≡ some d
lookup-below x d ds absent h = rw (lookup-absent x.id d.id d ds absent h) h

pub lookup_self : (d : Delivery) (ds : List Delivery) → lookup d.id (d ∷ ds) ≡ some d
lookup_self d ds = rw (==-refl d.id) refl

pub some-injective : (d e : Delivery) → some d ≡ some e → d ≡ e
some-injective d e h = cc

found-top :
    (p : Delivery → Bool) (ds : List Delivery) (x d : Delivery)
    → p x ≡ true
    → x ≡ d
    → (p d ≡ true) × (lookup d.id (x ∷ ds) ≡ some d)
found-top p ds x d h e =
    subst (λ y. (p y ≡ true) × (lookup y.id (x ∷ ds) ≡ some y)) e (h, lookup_self x ds)

found-below :
    (p : Delivery → Bool) (ds : List Delivery) (x d : Delivery)
    → any (λ y. y.id == x.id) ds ≡ false
    → (p d ≡ true) × (lookup d.id ds ≡ some d)
    → (p d ≡ true) × (lookup d.id (x ∷ ds) ≡ some d)
found-below p ds x d absent h = (h.0, lookup-below x d ds absent h.1)

-- A row that a search finds is the row of its id.
pub find-lookup :
    (p : Delivery → Bool) (ds : List Delivery) (d : Delivery)
    → IsKeyed ds
    → find p ds ≡ some d
    → (p d ≡ true) × (lookup d.id ds ≡ some d)
find-lookup p [] d k h = cc
find-lookup p (x ∷ ds) d k h = elim (Bool-cases (p x)) [
  | inl passes ↦ found-top p ds x d passes (some-injective x d (ground arith))
  | inr fails ↦ found-below p ds x d k.0 (find-lookup p ds d k.1 (ground arith))
]

later-one : (x d : Delivery) (r : Option Delivery) → later x r ≡ some d → (x ≡ d) ⊎ (r ≡ some d)
later-one x d none h = inl (some-injective x d h)
later-one x d (some e) h = elim (Bool-cases (is_newer x e)) [
  | inl newer ↦ inl (some-injective x d (rw (← h, newer) refl))
  | inr older ↦ inr (rw (← h, older) refl)
]

pub latest-lookup :
    (p : Delivery → Bool) (ds : List Delivery) (d : Delivery)
    → IsKeyed ds
    → latest p ds ≡ some d
    → (p d ≡ true) × (lookup d.id ds ≡ some d)
unfolding latest
latest-lookup p [] d k h = cc
latest-lookup p (x ∷ ds) d k h = elim (Bool-cases (p x)) [
  | inl passes ↦ elim (later-one x d (latest p ds) (rw passes at h)) [
    | inl same ↦ found-top p ds x d passes same
    | inr rest ↦ found-below p ds x d k.0 (latest-lookup p ds d k.1 rest)
  ]
  | inr fails ↦ found-below p ds x d k.0 (latest-lookup p ds d k.1 (rw fails at h))
]

-- What holds of each row, by its id.
abbrev pub EachRow : (Delivery → Type 0) → List Delivery → Type 0
EachRow P ds = (id : Uuid) (d : Delivery) → lookup id ds ≡ some d → P d

module _ (p : Delivery → Bool) (f : Delivery → Delivery) (keeps : (d : Delivery) → (f d).id ≡ d.id)
    (ds : List Delivery) where
  pub lookup-updated :
      (id : Uuid) (d : Delivery)
      → lookup id ds ≡ some d
      → lookup id (update_where p f ds) ≡ some (if p d then f d else d)
  lookup-updated id d h = lookup-update_where p f keeps id ds ∙ ap (updated p f) h

  updated-each :
      (P : Delivery → Type 0) (o : Option Delivery)
      → ((e : Delivery) → o ≡ some e → P (if p e then f e else e))
      → (d : Delivery) → updated p f o ≡ some d
      → P d
  updated-each P none each d h = cc
  updated-each P (some e) each d h =
      subst P (some-injective (if p e then f e else e) d h) (each e refl)

  pub EachRow-update_where :
      (P : Delivery → Type 0)
      → ((id : Uuid) (d : Delivery) → lookup id ds ≡ some d → p d ≡ true → P d → P (f d))
      → EachRow P ds
      → EachRow P (update_where p f ds)
  EachRow-update_where P step each id d h =
      updated-each P (lookup id ds)
        (λ e found. elim (Bool-cases (p e)) [
          | inl passes ↦ rw passes (step id e found passes (each id e found))
          | inr fails ↦ rw fails (each id e found)
        ])
        d (sym (lookup-update_where p f keeps id ds) ∙ h)

-- A row inserted under a new id.
pub EachRow-insert :
    (P : Delivery → Type 0) (x : Delivery) (ds : List Delivery)
    → P x
    → EachRow P ds
    → EachRow P (x ∷ ds)
EachRow-insert P x ds h each id d e = elim (Bool-cases (x.id == id)) [
  | inl same ↦ subst P (some-injective x d (rw same at e)) h
  | inr other ↦ each id d (rw other at e)
]

pub lookup-insert :
    (id : Uuid) (x d : Delivery) (ds : List Delivery)
    → any (λ y. y.id == x.id) ds ≡ false
    → lookup id ds ≡ some d
    → lookup id (x ∷ ds) ≡ some d
lookup-insert id x d ds absent h = rw (lookup-absent x.id id d ds absent h) h

pub lookup-id : (k : Uuid) (d : Delivery) (ds : List Delivery) → lookup k ds ≡ some d → d.id ≡ k
lookup-id k d [] h = cc
lookup-id k d (x ∷ ds) h = elim (Bool-cases (x.id == k)) [
  | inl same ↦
      ap (λ (y : Delivery). y.id) (sym (some-injective x d (rw same at h))) ∙ (==_iff x.id k).0 same
  | inr other ↦ lookup-id k d ds (rw other at h)
]

-- Two rows of one id are one row.
pub lookup_unique :
    (k : Uuid) (x d : Delivery) (ds : List Delivery)
    → lookup k ds ≡ some x
    → lookup d.id ds ≡ some d
    → (x.id == d.id) ≡ true
    → x ≡ d
lookup_unique k x d ds hx hd same =
    let e = sym (lookup-id k x ds hx) ∙ (==_iff x.id d.id).0 same in
    some-injective x d (sym hx ∙ ap (λ i. lookup i ds) e ∙ hd)

-- ===== src/Registry/Promotion/Locked.antt =====
-- packages/models/src/resource.ts: the part of `promoteResource` that runs under the lock.
use mathlib.Core.Path.{subst}
use drfed.Common.{
  ◌≡◌, refl, sym, ap, ◌∙◌, ◌⊎◌, inl, inr, Bool, true, false, Option, none, some, List, [], ◌∷◌,
  arith, ◌==◌, ==_iff, ==-refl, if◌then◌else◌, Bool-cases,
}
use drfed.Common.Result.{Result, ok, err}
use drfed.Revision.{Uuid, ResourceKind, is_unknown}
use drfed.Delivery.{Text, Registered}
use drfed.Registry.{RegistryError, resource_kind_conflict, by_id}
use drfed.Registry.Promotion.{PromotedKind, kind_of, is_of, set_kind, promote_locked}
use drfed.Registry.Promotion.Typed.{
  TypedRows, typed_of, insert_typed, reuse_typed, expected, Matches,
}
use drfed.Registry.Promotion.Steps.{
  Stays, Grows-Stays, rekinded, by_id-set_kind, IsRegistry-set_kind, by_id-id, is_of-kind_of,
  kind_of-known,
}

expected_other :
    (id k : Uuid) (kind : ResourceKind) (rs : List Registered) (o : Option Registered)
    → by_id k rs ≡ o
    → (id == k) ≡ false
    → expected (rekinded id kind o) ≡ expected o
expected_other id k kind rs none e other = refl
expected_other id k kind rs (some x) e other = ground (arith, by_id-id k rs x e, other)

-- The rows of an id after another one was promoted.
expected-rekinded :
    (id k : Uuid) (kind : ResourceKind) (rs : List Registered)
    → (id == k) ≡ false
    → expected (rekinded id kind (by_id k rs)) ≡ expected (by_id k rs)
expected-rekinded id k kind rs other = expected_other id k kind rs (by_id k rs) refl other

module _ (kind : PromotedKind) (rs : List Registered) (rows : TypedRows) (r : Registered)
    (m : Matches (rs, rows)) (there : by_id r.id rs ≡ some r) (new : is_unknown r.kind ≡ true) where
  untyped : typed_of r.id rows ≡ []
  untyped = m.typed r.id ∙ ap expected there ∙ rw new refl

  promoted-typed :
      (k : Uuid)
      → typed_of k ((r.id, kind_of kind) ∷ rows)
        ≡ expected (by_id k (set_kind r.id (kind_of kind) rs))
  promoted-typed k = elim (Bool-cases (r.id == k)) [
    | inl same ↦
        let at = (==_iff r.id k).0 same in
        subst
          (λ j.
            typed_of j ((r.id, kind_of kind) ∷ rows)
            ≡ expected (by_id j (set_kind r.id (kind_of kind) rs)))
          at
          (rw (==-refl r.id, untyped)
            (sym (
              ap expected (
                by_id-set_kind r.id (kind_of kind) r.id rs
                ∙ ap (rekinded r.id (kind_of kind)) there)
              ∙ rw (==-refl r.id, kind_of-known kind) refl)))
    | inr other ↦ rw other (
        m.typed k
        ∙ sym (
            ap expected (by_id-set_kind r.id (kind_of kind) k rs)
            ∙ expected-rekinded r.id k (kind_of kind) rs other))
  ]

  promoted-Matches : Matches (set_kind r.id (kind_of kind) rs, (r.id, kind_of kind) ∷ rows)
  promoted-Matches = record {
    registry = IsRegistry-set_kind r.id (kind_of kind) rs m.registry;
    typed = promoted-typed;
  }

known-unknown :
    (k id : Uuid) (rs : List Registered) (x r : Registered)
    → k ≡ id
    → by_id k rs ≡ some x
    → by_id id rs ≡ some r
    → is_unknown x.kind ≡ false
    → is_unknown r.kind ≡ true
    → ⊥
known-unknown k id rs x r e found there known new =
    let one = sym found ∙ ap (λ i. by_id i rs) e ∙ there in
    let same =
      ap (λ (o : Option Registered). elim o [ none ↦ true | some y ↦ is_unknown y.kind ]) one in
    ground (arith, same, known, new)

set_kind-Stays :
    (id : Uuid) (kind : ResourceKind) (rs : List Registered) (r : Registered)
    → by_id id rs ≡ some r
    → is_unknown r.kind ≡ true
    → Stays rs (set_kind id kind rs)
set_kind-Stays id kind rs r there new k x found = (
  if x.id == id then record x { kind = kind } else x,
  by_id-set_kind id kind k rs ∙ ap (rekinded id kind) found,
  ground arith,
  λ known. elim (Bool-cases (x.id == id)) [
    | inl same ↦
        let at = sym (by_id-id k rs x found) ∙ (==_iff x.id id).0 same in
        absurd (known-unknown k id rs x r at found there known new)
    | inr other ↦ rw other refl
  ],
)

-- What the locked part of a promotion leaves of a resource.
pub record Promoted (kind : PromotedKind) (rs rs' : List Registered) (rows' : TypedRows)
    (r : Registered) : Type 0 where
  pub matches : Matches (rs', rows')
  pub stays : Stays rs rs'
  pub row : Registered
  pub there : by_id r.id rs' ≡ some row
  pub named : row.iri ≡ r.iri
  pub kind_set : row.kind ≡ kind_of kind

-- Either the resource is of another kind, or it is of this kind now, and the flag says that it was not.
abbrev pub Locks :
    PromotedKind
    → Text
    → List Registered
    → Registered
    → Result RegistryError (List Registered × TypedRows × Bool)
    → Type 0
Locks kind iri rs r o =
    ((o ≡ err (resource_kind_conflict iri r.kind (kind_of kind)))
      × (is_unknown r.kind ≡ false)
      × (is_of r.kind kind ≡ false))
    ⊎ ((rs' : List Registered) × (rows' : TypedRows) × (o ≡ ok (rs', rows', is_unknown r.kind))
        × Promoted kind rs rs' rows' r)

of-known : (k : ResourceKind) (kind : PromotedKind) → is_of k kind ≡ true → is_unknown k ≡ false
of-known k kind h = ground (arith, h)

pub promote_locked-Locks :
    (kind : PromotedKind) (iri : Text) (rs : List Registered) (rows : TypedRows) (r : Registered)
    → Matches (rs, rows)
    → by_id r.id rs ≡ some r
    → Locks kind iri rs r (promote_locked kind insert_typed (some reuse_typed) iri (some r) rs rows)
unfolding promote_locked
promote_locked-Locks kind iri rs rows r m there = elim (Bool-cases (is_of r.kind kind)) [
  | inl same ↦ inr (
    rs,
    rows,
    rw (same, of-known r.kind kind same) refl,
    record {
      matches = m;
      stays = Grows-Stays rs rs (λ id x h. h);
      row = r;
      there = there;
      named = refl;
      kind_set = is_of-kind_of r.kind kind same;
    },
  )
  | inr other ↦ elim (Bool-cases (is_unknown r.kind)) [
    | inl new ↦ inr (
      set_kind r.id (kind_of kind) rs,
      (r.id, kind_of kind) ∷ rows,
      rw (other, new, untyped kind rs rows r m there new) refl,
      record {
        matches = promoted-Matches kind rs rows r m there new;
        stays = set_kind-Stays r.id (kind_of kind) rs r there new;
        row = record r { kind = kind_of kind };
        there =
            by_id-set_kind r.id (kind_of kind) r.id rs
            ∙ ap (rekinded r.id (kind_of kind)) there
            ∙ rw (==-refl r.id) refl;
        named = refl;
        kind_set = refl;
      },
    )
    | inr known ↦ inl (rw (other, known) refl, known, other)
  ]
]

-- ===== src/Registry/Promotion/Once.antt =====
-- packages/models/src/resource.ts: `promoteResource` inserts the typed row of an IRI once, whoever
-- registers and promotes it meanwhile.
use mathlib.Core.Path.{subst}
use drfed.Common.{
  ◌≡◌, refl, sym, ap, ◌∙◌, ◌⊎◌, inl, inr, Bool, true, false, Option, none, some, List, [], ◌∷◌, All,
}
use drfed.Common.Result.{Result, ok, err}
use drfed.Revision.{Uuid, ResourceKind, is_unknown}
use drfed.Delivery.{Text, Registered}
use drfed.Registry.{RegistryError, id_taken, resource_kind_conflict, by_id, ensure_resource}
use drfed.Registry.Ensuring.{Ensured, ensure_resource-Ends}
use drfed.Registry.Promotion.{PromotedKind, kind_of, is_of, promote_locked, promote_resource}
use drfed.Registry.Promotion.Typed.{
  TypedRows, typed_of, insert_typed, reuse_typed, Step, registers, promotes, Database,
  registered_in, promoted_in, step, steps, rows_of_kind, expected, Matches,
}
use drfed.Registry.Promotion.Steps.{
  ensure_resource-Alike, Stays, Stays-trans, Grows-Stays, by_id-id, kind_of-known,
}
use drfed.Registry.Promotion.Locked.{Promoted, promote_locked-Locks}

-- A change of the database that keeps what a promotion relies on.
abbrev pub Keeps : Database → Database → Type 0
Keeps db db' = Matches db' × Stays db.0 db'.0

registered-Keeps :
    (others : List Registered) (id : Uuid) (iri : Text) (rs rs' : List Registered)
    (rows : TypedRows) (r : Registered)
    → Matches (rs, rows)
    → All (λ r. is_unknown r.kind ≡ true) others
    → ensure_resource others id iri rs ≡ ok (rs', r)
    → Ensured rs rs' iri r
    → Keeps (rs, rows) (rs', rows)
registered-Keeps others id iri rs rs' rows r m new e h = (
  record {
    registry = h.registry;
    typed = λ k. m.typed k ∙ sym (ensure_resource-Alike others id iri rs rs' r new e k);
  },
  Grows-Stays rs rs' h.grows,
)

registers-Keeps :
    (id : Uuid) (iri : Text) (rs : List Registered) (rows : TypedRows)
    → Matches (rs, rows)
    → Keeps (rs, rows) (registered_in (rs, rows) (ensure_resource [] id iri rs))
registers-Keeps id iri rs rows m = elim (ensure_resource-Ends [] id iri rs m.registry) [
  | inl e ↦ rw e (m, Grows-Stays rs rs (λ k x h. h))
  | inr (rs', r, e, h) ↦ rw e (registered-Keeps [] id iri rs rs' rows r m tt e h)
]

locked-Keeps :
    (kind : PromotedKind) (id : Uuid) (rs : List Registered) (rows : TypedRows)
    (o : Option Registered)
    → by_id id rs ≡ o
    → Matches (rs, rows)
    → Keeps
        (rs, rows)
        (promoted_in (rs, rows) (promote_locked kind insert_typed (some reuse_typed) [] o rs rows))
unfolding promote_locked
locked-Keeps kind id rs rows none e m = (m, Grows-Stays rs rs (λ k x h. h))
locked-Keeps kind id rs rows (some r) e m =
    let there = ap (λ k. by_id k rs) (by_id-id id rs r e) ∙ e in
    let outcome = λ (o : Result RegistryError (List Registered × TypedRows × Bool)).
      Keeps (rs, rows) (promoted_in (rs, rows) o) in
    elim (promote_locked-Locks kind [] rs rows r m there) [
      | inl (f, known, other) ↦ subst outcome (sym f) (m, Grows-Stays rs rs (λ k x h. h))
      | inr (rs', rows', f, p) ↦ subst outcome (sym f) (p.matches, p.stays)
    ]

step-Keeps : (x : Step) (db : Database) → Matches db → Keeps db (step x db)
unfolding step
step-Keeps (registers id iri) (rs, rows) m = registers-Keeps id iri rs rows m
step-Keeps (promotes id kind) (rs, rows) m = locked-Keeps kind id rs rows (by_id id rs) refl m

Keeps-trans : (a b c : Database) → Keeps a b → Keeps b c → Keeps a c
Keeps-trans a b c h k = (k.0, Stays-trans a.0 b.0 c.0 h.1 k.1)

steps-Keeps : (xs : List Step) (db : Database) → Matches db → Keeps db (steps xs db)
unfolding steps
steps-Keeps [] db m = (m, Grows-Stays db.0 db.0 (λ k x h. h))
steps-Keeps (x ∷ xs) db m =
    let first = step-Keeps x db m in
    Keeps-trans db (step x db) (steps xs (step x db)) first (steps-Keeps xs (step x db) first.0)

-- What a promotion comes to.
abbrev pub Promotes :
    PromotedKind
    → Text
    → List Registered
    → Result RegistryError (List Registered × TypedRows × Bool)
    → Type 0
Promotes kind iri rs o =
    (o ≡ err id_taken)
    ⊎ ((k : ResourceKind) × (o ≡ err (resource_kind_conflict iri k (kind_of kind)))
        × (is_unknown k ≡ false)
        × (is_of k kind ≡ false))
    ⊎ ((rs' : List Registered) × (rows' : TypedRows) × (inserted : Bool) × (o
          ≡ ok (rs', rows', inserted))
        × Matches (rs', rows')
        × Stays rs rs'
        × ((r : Registered) × (by_id r.id rs' ≡ some r)
            × (r.iri ≡ iri)
            × (r.kind ≡ kind_of kind)
            × (typed_of r.id rows' ≡ kind_of kind ∷ [])))

Promoted-Promotes :
    (kind : PromotedKind) (iri : Text) (rs now rs' : List Registered) (rows' : TypedRows)
    (y : Registered) (o : Result RegistryError (List Registered × TypedRows × Bool))
    → o ≡ ok (rs', rows', is_unknown y.kind)
    → Stays rs now
    → y.iri ≡ iri
    → Promoted kind now rs' rows' y
    → Promotes kind iri rs o
Promoted-Promotes kind iri rs now rs' rows' y o e stays named p =
    let same = by_id-id y.id rs' p.row p.there in
    let there = ap (λ k. by_id k rs') same ∙ p.there in
    inr (
      inr (
        rs',
        rows',
        is_unknown y.kind,
        e,
        p.matches,
        Stays-trans rs now rs' stays p.stays,
        (
          p.row,
          there,
          p.named ∙ named,
          p.kind_set,
          p.matches.typed p.row.id
              ∙ ap expected there
              ∙ ap rows_of_kind p.kind_set
              ∙ rw (kind_of-known kind) refl,
        ),
      ))

locked-Promotes :
    (kind : PromotedKind) (iri : Text) (rs now : List Registered) (rows : TypedRows)
    (r y : Registered)
    → Matches (now, rows)
    → Stays rs now
    → by_id r.id now ≡ some y
    → y.iri ≡ iri
    → Promotes kind iri rs
        (promote_locked kind insert_typed (some reuse_typed) iri (by_id r.id now) now rows)
locked-Promotes kind iri rs now rows r y m stays found named =
    let there = ap (λ k. by_id k now) (by_id-id r.id now y found) ∙ found in
    rw found (elim (promote_locked-Locks kind iri now rows y m there) [
      | inl (e, known, other) ↦ inr (inl (y.kind, e, known, other))
      | inr (rs', rows', e, p) ↦ Promoted-Promotes kind iri rs now rs' rows' y _ e stays named p
    ])

-- Let each promoted resource have one typed row, of its kind, and no other row be there. Whoever registers IRIs and promotes resources
-- while an IRI is promoted to a kind, the promotion ends in one of three ways. The new id is taken; the
-- resource is of another kind, which the error names; or, with its typed row inserted or reused, the
-- resource of that IRI is of that kind and has exactly one typed row, every resource that was registered
-- keeps its IRI and its kind unless that was unknown, and every
-- promoted resource has one typed row. Neither of the callbacks fails.
pub promote_resource-Promotes :
    (others : List Registered) (xs : List Step) (iri : Text) (kind : PromotedKind) (id : Uuid)
    (rs : List Registered) (rows : TypedRows)
    → Matches (rs, rows)
    → All (λ r. is_unknown r.kind ≡ true) others
    → Promotes kind iri rs
        (promote_resource others (steps xs) iri kind insert_typed id (some reuse_typed) rs rows)
unfolding promote_resource
promote_resource-Promotes others xs iri kind id rs rows m new =
    elim (ensure_resource-Ends others id iri rs m.registry) [
      | inl e ↦ inl (rw e refl)
      | inr (rs1, r, e, h) ↦
          let (kept, grown) = registered-Keeps others id iri rs rs1 rows r m new e h in
          let (after, stays) = steps-Keeps xs (rs1, rows) kept in
          let (y, found, named, known) = stays r.id r h.there in
          rw e (
            locked-Promotes kind iri rs (steps xs (rs1, rows)).0 (steps xs (rs1, rows)).1 r y after
              (Stays-trans rs rs1 (steps xs (rs1, rows)).0 grown stays) found (named ∙ h.named))
    ]

-- ===== src/Revision/Append.antt =====
-- What one append does: when it succeeds, what it stores, and that nothing stored changes.
use drfed.Common.{
  ℕ, ◌≡◌, ◌≢◌, ◌⊎◌, inl, inr, refl, sym, ap, ◌∙◌, Bool, true, ◌&&◌, ◌||◌, Option, none, some, List,
  [], ◌∷◌, ◌++◌, append-nil, arith, ltb, leb, ◌==◌, ==-refl, Bool-cases,
}
use drfed.Common.Sort.{sort_by, sort_by_idem}
use drfed.Common.Result.{ok}
use drfed.Revision.{
  Uuid, AddressingRow, RelationRow, Resource, Revision, Store, StoredRevision, PreparedRevision,
  current, promote, append_snapshot, append_whiteout, next_sequence, insert_revision, new_revision,
  append_prepared, revision_kind, hydrate, rows_of, tagged, addressing_le, relation_le,
  property_index, inherited, load_current_resource_revision, hydrate_some, is_unknown,
}
use drfed.Revision.Shape.{history}
use drfed.Revision.Lock.{append_prepared-Appended}
use drfed.Revision.Effect.{
  after, history-after_ne, history-after_self, current-after_self, current-after_ne,
}

-- No row of either projection table names the revision, as for a new UUID.
pub record IsFresh (s : Store) (id : Uuid) : Type 0 where
  pub no_addressing : rows_of id s.addressing ≡ []
  pub no_relations : rows_of id s.relations ≡ []

rows_of-append {ℓ} :
    {A : Type ℓ} (id : Uuid) (xs ys : List (Uuid × A))
    → rows_of id (xs ++ ys) ≡ rows_of id xs ++ rows_of id ys
rows_of-append id [] ys = refl
rows_of-append id ((k, a) ∷ xs) ys = ground (arith, rows_of-append id xs ys)

rows_of-tagged {ℓ} : {A : Type ℓ} (id : Uuid) (rows : List A) → rows_of id (tagged id rows) ≡ rows
rows_of-tagged id [] = refl
rows_of-tagged id (a ∷ rows) = ground (arith, rows_of-tagged id rows, ==-refl id)

-- The rows that a new revision gets are the ones inserted for it.
stored-addressing :
    (s : Store) (input : PreparedRevision) (previous : Option Revision) (v : Revision)
    → IsFresh s v.id
    → (insert_revision s input previous v).1.addressing
      ≡ sort_by addressing_le (input.addressing ++ (inherited input.kind previous s).0)
unfolding insert_revision hydrate
stored-addressing s input previous v f = rw (
  rows_of-append v.id s.addressing
      (tagged v.id (input.addressing ++ (inherited input.kind previous s).0)),
  f.no_addressing,
  rows_of-tagged v.id (input.addressing ++ (inherited input.kind previous s).0),
)

stored-relations :
    (s : Store) (input : PreparedRevision) (previous : Option Revision) (v : Revision)
    → IsFresh s v.id
    → (insert_revision s input previous v).1.relations
      ≡ sort_by relation_le (input.relations ++ (inherited input.kind previous s).1)
unfolding insert_revision hydrate
stored-relations s input previous v f = rw (
  rows_of-append v.id s.relations
      (tagged v.id (input.relations ++ (inherited input.kind previous s).1)),
  f.no_relations,
  rows_of-tagged v.id (input.relations ++ (inherited input.kind previous s).1),
)

promote-IsFresh :
    (s : Store) (input : PreparedRevision) (x : Resource) (id : Uuid)
    → IsFresh s id
    → IsFresh (promote x input s) id
promote-IsFresh s input x id f = ground arith

-- What an append returns is what loading the resource returns afterwards: the next revision in
-- sequence, under the new id, with the submitted document.
pub append_prepared-current :
    (s s' : Store) (input : PreparedRevision) (typed : Bool) (id : Uuid) (stored : StoredRevision)
    → append_prepared s input typed id ≡ ok (s', stored)
    → (load_current_resource_revision s' input.resource_id ≡ some stored)
      × (stored.revision.id ≡ id)
      × (stored.revision.sequence ≡ next_sequence (current s input.resource_id))
      × (stored.revision.kind ≡ revision_kind input.kind)
      × (stored.revision.document ≡ input.serialized)
unfolding load_current_resource_revision insert_revision hydrate
append_prepared-current s s' input typed id stored h =
    let a = append_prepared-Appended s s' input typed id stored h in
    let v = new_revision input (current s input.resource_id) id a.capture a.projection in
    let c = current-after_self s input a.target v refl in
    let e : s' ≡ after s input a.target v = ap (λ (p : Store × StoredRevision). p.0) a.outcome in
    let f : stored ≡ hydrate (after s input a.target v) v =
      ap (λ (p : Store × StoredRevision). p.1) a.outcome in
    (
      rw (e, c) (ap some (sym f)),
      ap (λ (t : StoredRevision). t.revision.id) f,
      ap (λ (t : StoredRevision). t.revision.sequence) f,
      ap (λ (t : StoredRevision). t.revision.kind) f,
      ap (λ (t : StoredRevision). t.revision.document) f,
    )

-- An append only adds: the resource's history is the new revision before the old history, and any
-- other resource keeps its history and its current revision.
pub append_prepared-history :
    (s s' : Store) (input : PreparedRevision) (typed : Bool) (id : Uuid) (stored : StoredRevision)
    (q : Uuid)
    → append_prepared s input typed id ≡ ok (s', stored)
    → (input.resource_id ≡ q → history s' q ≡ stored.revision ∷ history s q)
      × (input.resource_id ≢ q → (history s' q ≡ history s q) × (current s' q ≡ current s q))
unfolding insert_revision hydrate
append_prepared-history s s' input typed id stored q h =
    let a = append_prepared-Appended s s' input typed id stored h in
    let v = new_revision input (current s input.resource_id) id a.capture a.projection in
    let e : s' ≡ after s input a.target v = ap (λ (p : Store × StoredRevision). p.0) a.outcome in
    let f : stored.revision ≡ v = ap (λ (p : Store × StoredRevision). p.1.revision) a.outcome in
    (
      λ same. rw (e, f) (history-after_self s input a.target v q same),
      λ other. (
        rw e (history-after_ne s input a.target v q other),
        rw e (current-after_ne s input a.target v q refl other),
      ),
    )

addressing_le-total :
    (a b : AddressingRow) → (addressing_le a b ≡ true) ⊎ (addressing_le b a ≡ true)
addressing_le-total a b = index_total (property_index a.property) (property_index b.property)
  where
    index_total :
        (p q : ℕ)
        → ((ltb p q || p == q && leb a.position b.position) ≡ true)
          ⊎ ((ltb q p || q == p && leb b.position a.position) ≡ true)
    index_total p q = ground arith

relation_le-total : (a b : RelationRow) → (relation_le a b ≡ true) ⊎ (relation_le b a ≡ true)
relation_le-total a b = ground arith

-- A snapshot stores its own projections, in the order in which they are read back.
pub append_snapshot-projections :
    (s s' : Store) (input : PreparedRevision) (typed : Bool) (id : Uuid) (stored : StoredRevision)
    → IsFresh s id
    → input.kind ≡ append_snapshot
    → append_prepared s input typed id ≡ ok (s', stored)
    → (stored.addressing ≡ sort_by addressing_le input.addressing)
      × (stored.relations ≡ sort_by relation_le input.relations)
append_snapshot-projections s s' input typed id stored fresh k h =
    let a = append_prepared-Appended s s' input typed id stored h in
    let previous = current s input.resource_id in
    let v = new_revision input previous id a.capture a.projection in
    let t = promote a.target input s in
    let e = ap (λ (p : Store × StoredRevision). p.1.addressing) a.outcome in
    let f = ap (λ (p : Store × StoredRevision). p.1.relations) a.outcome in
    let g = promote-IsFresh s input a.target id fresh in
    (
      e ∙ (stored-addressing t input previous v g ∙ rw (k, append-nil input.addressing) refl),
      f ∙ (stored-relations t input previous v g ∙ rw (k, append-nil input.relations) refl),
    )

hydrate_some-inv :
    (s : Store) (o : Option Revision) (before : StoredRevision)
    → hydrate_some s o ≡ some before
    → (v : Revision) × (o ≡ some v) × (hydrate s v ≡ before)
hydrate_some-inv s none before h = cc
hydrate_some-inv s (some v) before h = (v, refl, ground arith)

inherited-addressing :
    (s : Store) (input : PreparedRevision) (x : Resource) (v : Revision)
    → sort_by addressing_le (hydrate (promote x input s) v).addressing ≡ (hydrate s v).addressing
unfolding hydrate
inherited-addressing s input x v = elim (Bool-cases (is_unknown x.kind)) [
  | inl e ↦ rw e (sort_by_idem addressing_le addressing_le-total (rows_of v.id s.addressing))
  | inr e ↦ rw e (sort_by_idem addressing_le addressing_le-total (rows_of v.id s.addressing))
]

inherited-relations :
    (s : Store) (input : PreparedRevision) (x : Resource) (v : Revision)
    → sort_by relation_le (hydrate (promote x input s) v).relations ≡ (hydrate s v).relations
unfolding hydrate
inherited-relations s input x v = elim (Bool-cases (is_unknown x.kind)) [
  | inl e ↦ rw e (sort_by_idem relation_le relation_le-total (rows_of v.id s.relations))
  | inr e ↦ rw e (sort_by_idem relation_le relation_le-total (rows_of v.id s.relations))
]

-- A whiteout keeps what the last revision of the resource addressed and referred to.
pub append_whiteout-projections :
    (s s' : Store) (input : PreparedRevision) (typed : Bool) (id : Uuid)
    (stored before : StoredRevision)
    → IsFresh s id
    → input.kind ≡ append_whiteout
    → input.addressing ≡ []
    → input.relations ≡ []
    → load_current_resource_revision s input.resource_id ≡ some before
    → append_prepared s input typed id ≡ ok (s', stored)
    → (stored.addressing ≡ before.addressing) × (stored.relations ≡ before.relations)
unfolding load_current_resource_revision
append_whiteout-projections s s' input typed id stored before fresh k ea er loaded h =
    let a = append_prepared-Appended s s' input typed id stored h in
    let previous = current s input.resource_id in
    let v = new_revision input previous id a.capture a.projection in
    let t = promote a.target input s in
    let g = promote-IsFresh s input a.target id fresh in
    let (old, cur, same) = hydrate_some-inv s previous before loaded in
    let e = ap (λ (p : Store × StoredRevision). p.1.addressing) a.outcome in
    let f = ap (λ (p : Store × StoredRevision). p.1.relations) a.outcome in
    (
      e
          ∙ (stored-addressing t input previous v g
              ∙ rw (k, ea, cur)
                  (inherited-addressing s input a.target old
                    ∙ ap (λ (b : StoredRevision). b.addressing) same)),
      f
          ∙ (stored-relations t input previous v g
              ∙ rw (k, er, cur)
                  (inherited-relations s input a.target old
                    ∙ ap (λ (b : StoredRevision). b.relations) same)),
    )

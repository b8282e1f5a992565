-- ===== src/Revision/Success.antt =====
-- packages/models/src/resource-revision.ts: `appendPrepared` of a snapshot that nothing stands against.
use drfed.Common.{
  ℕ, suc, ◌<◌, ◌≡◌, ◌⊎◌, inl, inr, refl, ap, ◌∙◌, String, Bool, true, false, not, ◌&&◌, ◌||◌,
  Option, none, some, List, [], ◌∷◌, ◌++◌, arith, any, all, length, select, is_some, ◌==◌, ==-refl,
  Bool-cases,
}
use drfed.Common.Result.{ok}
use drfed.Revision.{
  Uuid, ResourceKind, unknown, Resource, Revision, Store, StoredRevision, RelationRow, Capture,
  Projection, PreparedRevision, append_snapshot, versioned_object, versioned_activity, has_id,
  VersionedKind, current, registered, check_target, lock_revision_target, promote, same_id, id_of,
  same_kind, is_unknown, is_activity, was_whiteout, kind_of, next_sequence, rows_of, new_revision,
  has_revision_key, are_keyed, same_address, same_occurrence, is_targeted, satisfies_constraints,
  insert_constrained, insert_revision, hydrate, append_prepared,
}
use drfed.Revision.Shape.{IsValid, IsHistory, history, newest}

IsHistory-sequence :
    (vs : List Revision) (n : ℕ)
    → IsHistory vs
    → length vs < n
    → any (λ (v : Revision). v.sequence == n) vs ≡ false
IsHistory-sequence [] n h less = refl
IsHistory-sequence (v ∷ vs) n h less =
    let rest = IsHistory-sequence vs n h.3 (omega (arith, less)) in ground (arith, rest, less, h.0)

-- Neither key of the table is taken.
has_revision_key_fresh :
    (u : Revision) (vs : List Revision)
    → any (λ (v : Revision). v.id == u.id) vs ≡ false
    → any
        (λ (v : Revision). v.sequence == u.sequence)
        (select (λ v. v.resource_id == u.resource_id) vs)
      ≡ false
    → has_revision_key u vs ≡ false
has_revision_key_fresh u [] fresh unique = refl
has_revision_key_fresh u (v ∷ vs) fresh unique =
    ground (arith, fresh, unique, has_revision_key_fresh u vs)

next_sequence-history :
    (vs : List Revision) → IsHistory vs → next_sequence (newest vs) ≡ suc (length vs)
next_sequence-history [] h = refl
next_sequence-history (v ∷ vs) h = omega (arith, h.0)

promote_tables :
    (x : Resource) (input : PreparedRevision) (s : Store)
    → ((promote x input s).revisions ≡ s.revisions)
      × ((promote x input s).addressing ≡ s.addressing)
      × ((promote x input s).relations ≡ s.relations)
promote_tables x input s = elim (Bool-cases (is_unknown x.kind)) [
  | inl new ↦ rw new (refl, refl, refl)
  | inr old ↦ rw old (refl, refl, refl)
]

-- Nothing stands against a snapshot: its resource is registered and of its kind, or of none yet; the
-- revision that it expects is the current one; and its rows fit their tables.
pub record Unopposed (s : Store) (input : PreparedRevision) (typed : Bool) (id : Uuid)
    : Type 0 where
  pub target : Resource
  pub found : registered input.resource_id s.resources ≡ some target
  pub kind_fits : (target.kind ≡ unknown) ⊎ (target.kind ≡ kind_of input.resource_kind)
  pub expected : input.expected_revision_id ≡ id_of (current s input.resource_id)
  pub alive : was_whiteout (current s input.resource_id) ≡ false
  pub first_activity :
      is_activity input.resource_kind ≡ true → is_some (current s input.resource_id) ≡ false
  pub typed_row :
      (typed ≡ true)
      ⊎ ((has_id input.resource_id s.objects ≡ false)
          × (has_id input.resource_id s.activities ≡ false))
  pub snapshot_of : input.kind ≡ append_snapshot
  pub document : String
  pub serialized : input.serialized ≡ some document
  pub undeleted : input.deleted ≡ none
  pub no_former : input.former_types ≡ none
  pub capture : Capture
  pub captured : input.capture ≡ some capture
  pub projection : Projection
  pub projected : input.projection ≡ some projection
  pub new : any (λ (v : Revision). v.id == id) s.revisions ≡ false
  pub no_addressing : rows_of id s.addressing ≡ []
  pub no_relations : rows_of id s.relations ≡ []
  pub addressed_once : are_keyed same_address (input.addressing ++ []) ≡ true
  pub related_once : are_keyed same_occurrence (input.relations ++ []) ≡ true
  pub targeted :
      all
        (λ (row : RelationRow). is_targeted row.representation row.target_iri)
        (input.relations ++ [])
      ≡ true

same_id_refl : (o : Option Uuid) → same_id o o ≡ true
same_id_refl none = refl
same_id_refl (some k) = ==-refl k

same_kind_fits :
    (k : ResourceKind) (v : VersionedKind)
    → (k ≡ unknown) ⊎ (k ≡ kind_of v)
    → (not (is_unknown k) && not (same_kind k v)) ≡ false
same_kind_fits k v (inl e) = rw e refl
same_kind_fits k versioned_object (inr e) = rw e refl
same_kind_fits k versioned_activity (inr e) = rw e refl

no_legacy_row :
    (typed o a : Bool)
    → (typed ≡ true) ⊎ ((o ≡ false) × (a ≡ false))
    → (not typed && (o || a)) ≡ false
no_legacy_row typed o a (inl e) = rw e refl
no_legacy_row true o a (inr h) = refl
no_legacy_row false o a (inr h) = rw (h.0, h.1) refl

activity_first : (a b : Bool) → (b ≡ true → a ≡ false) → (a && b) ≡ false
activity_first a true h = rw (h refl) refl
activity_first true false h = refl
activity_first false false h = refl

module _ (s : Store) (input : PreparedRevision) (typed : Bool) (id : Uuid)
    (u : Unopposed s input typed id) where
  check_target_passes : check_target s input typed u.target (current s input.resource_id) ≡ ok tt
  unfolding check_target
  check_target_passes =
      rw
        (
          u.expected,
          same_id_refl (id_of (current s input.resource_id)),
          no_legacy_row typed _ _ u.typed_row,
          same_kind_fits u.target.kind input.resource_kind u.kind_fits,
          activity_first (is_some (current s input.resource_id)) (is_activity input.resource_kind)
              u.first_activity,
          u.alive,
          u.snapshot_of,
        )
        refl

  lock_passes :
      lock_revision_target s input typed
      ≡ ok (promote u.target input s, current s input.resource_id)
  unfolding lock_revision_target
  lock_passes = rw (u.found, check_target_passes) refl

  abbrev appended : Revision
  appended = new_revision input (current s input.resource_id) id u.capture u.projection

  satisfies_constraints_pass :
      IsValid s
      → satisfies_constraints
          (promote u.target input s)
          input
          (current s input.resource_id)
          appended
        ≡ true
  satisfies_constraints_pass valid =
      let k = valid.kept input.resource_id in
      let (revisions, addressing, relations) = promote_tables u.target input s in
      let next =
        ap next_sequence k.headed ∙ next_sequence-history (history s input.resource_id) k.formed in
      let unique =
        IsHistory-sequence (history s input.resource_id) appended.sequence k.formed
          (omega (arith, next)) in
      rw
        (
          revisions,
          addressing,
          relations,
          has_revision_key_fresh appended s.revisions u.new unique,
          u.snapshot_of,
          u.serialized,
          u.undeleted,
          u.no_former,
          u.no_addressing,
          u.no_relations,
          u.addressed_once,
          u.related_once,
          u.targeted,
        )
        refl

  -- A snapshot is appended to a valid store, and gets the next number of the history, if its resource is
  -- registered, of its kind or of none yet, and is written with its typed row or has no older one; the revision
  -- that it expects is the current one, which is no whiteout, and an activity has none; it names its
  -- document, capture and projection and no deletion; and its id is new, none of its projection rows
  -- stands twice, and every reference has a target. The key on the number is never taken.
  pub append_snapshot-returns :
      IsValid s
      → (r : Store × StoredRevision) × (append_prepared s input typed id ≡ ok r)
        × (r.1.revision.sequence ≡ suc (length (history s input.resource_id)))
  unfolding append_prepared insert_constrained insert_revision hydrate
  append_snapshot-returns valid =
      let k = valid.kept input.resource_id in
      (
        insert_revision (promote u.target input s) input (current s input.resource_id) appended,
        rw (lock_passes, u.captured, u.projected, satisfies_constraints_pass valid) refl,
        ap next_sequence k.headed ∙ next_sequence-history (history s input.resource_id) k.formed,
      )

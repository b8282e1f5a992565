-- ===== src/Revision/Conflict.antt =====
-- Which appends are refused: those that expect another revision than the current one.
use drfed.Common.{
  ◌≡◌, ◌≢◌, inl, inr, refl, sym, ap, ◌∙◌, Bool, false, Option, none, some, ◌==◌, ==_iff,
  if◌then◌else◌, Bool-cases,
}
use drfed.Common.Result.{ok, err}
use drfed.Revision.{
  Uuid, Resource, Store, StoredRevision, revision_conflict, PreparedRevision, current, registered,
  check_target, lock_revision_target, same_id, id_of, is_unknown, kind_of, new_revision,
  append_prepared,
}
use drfed.Revision.Lock.{append_prepared-Appended}
use drfed.Revision.Effect.{after, current-after_self, registered-after_self}

same_id-ne : (id : Uuid) (o : Option Uuid) → o ≢ some id → same_id (some id) o ≡ false
same_id-ne id none h = refl
same_id-ne id (some k) h = elim (Bool-cases (id == k)) [
  | inl e ↦ absurd (h (ap some (sym ((==_iff id k).0 e))))
  | inr e ↦ e
]

-- An append whose expected revision is not the current one is refused with both ids.
pub append_prepared-mismatch :
    (s : Store) (input : PreparedRevision) (typed : Bool) (id : Uuid) (x : Resource)
    → registered input.resource_id s.resources ≡ some x
    → same_id (id_of (current s input.resource_id)) input.expected_revision_id ≡ false
    → append_prepared s input typed id
      ≡ err (
          revision_conflict input.resource_id input.expected_revision_id
            (id_of (current s input.resource_id)))
unfolding append_prepared lock_revision_target check_target
append_prepared-mismatch s input typed id x found e = rw (found, e) refl

-- No update is lost: of two appends to a resource that expect the same current revision, once one has
-- succeeded the other is refused, and told the revision that the first one stored.
pub append_prepared-conflict :
    (s s' : Store) (first second : PreparedRevision) (typed typed' : Bool) (id id' : Uuid)
    (stored : StoredRevision)
    → first.expected_revision_id ≢ some id
    → second.resource_id ≡ first.resource_id
    → second.expected_revision_id ≡ first.expected_revision_id
    → append_prepared s first typed id ≡ ok (s', stored)
    → append_prepared s' second typed' id'
      ≡ err (revision_conflict second.resource_id second.expected_revision_id (some id))
append_prepared-conflict s s' first second typed typed' id id' stored fresh r x h =
    let a = append_prepared-Appended s s' first typed id stored h in
    let v = new_revision first (current s first.resource_id) id a.capture a.projection in
    let e : s' ≡ after s first a.target v = ap (λ (p : Store × StoredRevision). p.0) a.outcome in
    let now : current s' second.resource_id ≡ some v =
      rw (e, r) (current-after_self s first a.target v refl) in
    let y : Resource = record a.target {
      kind = if is_unknown a.target.kind then kind_of first.resource_kind else a.target.kind;
    } in
    let there : registered second.resource_id s'.resources ≡ some y =
      rw (e, r) (registered-after_self s first a.target v a.found) in
    append_prepared-mismatch s' second typed' id' y there
      (rw (now, x) (same_id-ne id first.expected_revision_id fresh))
    ∙ rw now refl

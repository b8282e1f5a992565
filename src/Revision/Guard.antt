-- ===== src/Revision/Guard.antt =====
-- packages/models/drizzle/20261026181206_guard_resource_revisions/migration.sql: the trigger that
-- guards inserted revisions, against the checks of `appendPrepared`.
use mathlib.Core.Path.{subst}
use drfed.Common.{
  ◌≡◌, ◌⊎◌, refl, sym, ap, ◌∙◌, Bool, true, false, not, ◌&&◌, Option, none, some, arith, ◌==◌,
  is_some, if◌then◌else◌,
}
use drfed.Common.Sort.{sort_by, sort_by-IsSorted_eq}
use drfed.Common.Result.{ok}
use drfed.Revision.{
  Uuid, ResourceKind, object, activity, VersionedKind, Resource, Revision, Store, StoredRevision,
  PreparedRevision, current, registered, kind_of, AppendKind, revision_kind, is_unknown,
  is_activity, is_deletion, same_kind, was_whiteout, is_whiteout, promote, sequence_ge,
  next_sequence, new_revision, append_prepared, insert_revision, hydrate,
}
use drfed.Revision.Shape.{history, newest, IsValid}
use drfed.Revision.Tables.{registered-set_kind_self}
use drfed.Revision.Lock.{Passed, append_prepared-Appended}
use drfed.Revision.Paging.{IsHistory-IsSorted}

pub data GuardError : Type 0 where
  resource_missing kind_guard sequence_guard terminal_guard activity_guard initial_guard :
      GuardError

-- `ORDER BY sequence DESC LIMIT 1`
abbrev pub latest : Store → Uuid → Option Revision
latest s r = newest (sort_by sequence_ge (history s r))

abbrev pub is_versioned : ResourceKind → Bool
is_versioned object = true
is_versioned activity = true
is_versioned _ = false

abbrev pub is_activity_kind : ResourceKind → Bool
is_activity_kind activity = true
is_activity_kind _ = false

abbrev pub guard_latest : ResourceKind → Option Revision → Revision → Option GuardError
guard_latest kind previous v =
    if not (is_versioned kind)
    then some kind_guard
    else if not (v.sequence == next_sequence previous)
    then some sequence_guard
    else if was_whiteout previous
    then some terminal_guard
    else if is_activity_kind kind && is_some previous
    then some activity_guard
    else if is_whiteout v.kind && not (is_some previous)
    then some initial_guard
    else none

abbrev pub guard_resource : Option Resource → Option Revision → Revision → Option GuardError
guard_resource none previous v = some resource_missing
guard_resource (some x) previous v = guard_latest x.kind previous v

-- `drfed_guard_revision_insert`
unfoldable pub guard_revision_insert : Store → Revision → Option GuardError
guard_revision_insert s v =
    guard_resource (registered v.resource_id s.resources) (latest s v.resource_id) v

latest-current : (s : Store) (r : Uuid) → IsValid s → latest s r ≡ current s r
latest-current s r valid =
    let k = valid.kept r in
    ap newest
      (sort_by-IsSorted_eq sequence_ge (history s r) (IsHistory-IsSorted (history s r) k.formed))
    ∙ sym k.headed

registered-promote :
    (s : Store) (input : PreparedRevision) (x : Resource)
    → registered input.resource_id s.resources ≡ some x
    → registered input.resource_id (promote x input s).resources
      ≡ some (record x { kind = if is_unknown x.kind then kind_of input.resource_kind else x.kind })
registered-promote s input x found = ground (
  arith,
  registered-set_kind_self input.resource_id (kind_of input.resource_kind) s.resources x found,
)

guard_latest-passes :
    (k : ResourceKind) (w : VersionedKind) (d : AppendKind) (previous : Option Revision)
    (v : Revision)
    → (is_unknown k ≡ true) ⊎ (same_kind k w ≡ true)
    → (is_activity w ≡ true → previous ≡ none)
    → was_whiteout previous ≡ false
    → (is_deletion d ≡ true → is_some previous ≡ true)
    → v.sequence ≡ next_sequence previous
    → v.kind ≡ revision_kind d
    → guard_latest (if is_unknown k then kind_of w else k) previous v ≡ none
guard_latest-passes k w d previous v fits first alive some_before e f = ground arith

latest-promote :
    (s : Store) (input : PreparedRevision) (x : Resource) (r : Uuid)
    → latest (promote x input s) r ≡ latest s r
latest-promote s input x r = ground arith

-- The database's guard never fires on a revision that `appendPrepared` inserts: whatever append
-- succeeds on a valid store, its revision passes every check of the trigger, on the store as it stands
-- when the row is inserted.
pub append_prepared-guarded :
    (s s' : Store) (input : PreparedRevision) (typed : Bool) (id : Uuid) (stored : StoredRevision)
    (x : Resource)
    → IsValid s
    → registered input.resource_id s.resources ≡ some x
    → append_prepared s input typed id ≡ ok (s', stored)
    → guard_revision_insert (promote x input s) stored.revision ≡ none
unfolding guard_revision_insert insert_revision hydrate
append_prepared-guarded s s' input typed id stored x valid found h =
    let a = append_prepared-Appended s s' input typed id stored h in
    let v = new_revision input (current s input.resource_id) id a.capture a.projection in
    let e : stored.revision ≡ v = ap (λ (p : Store × StoredRevision). p.1.revision) a.outcome in
    let same : a.target ≡ x = cc (a.found, found) in
    let p =
      subst (λ (y : Resource). Passed s input typed y (current s input.resource_id)) same
        a.passed in
    rw
      (
        e,
        registered-promote s input x found,
        latest-promote s input x input.resource_id,
        latest-current s input.resource_id valid,
      )
      (guard_latest-passes x.kind input.resource_kind input.kind (current s input.resource_id) v
        p.kind_fits p.first_activity p.alive p.deletes_some refl refl)

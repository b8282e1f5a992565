-- ===== src/Revision/Lock.antt =====
-- What a locked target and a successful append went through.
use drfed.Common.{
  ◌≡◌, ◌⊎◌, refl, ◌∙◌, Bool, true, false, not, ◌&&◌, ◌||◌, Option, none, some, arith, is_some,
  if◌then◌else◌,
}
use drfed.Common.Result.{Result, ok, err, >>=-returns}
use drfed.Revision.{
  Uuid, Resource, Revision, Store, StoredRevision, PreparedRevision, current, registered,
  check_target, lock_registered, lock_revision_target, promote, or_previous, insert_revision,
  new_revision, append_prepared, insert_constrained, satisfies_constraints, RevisionError,
  table_violation, is_unknown, was_whiteout, same_id, id_of, has_id, same_kind, is_activity,
  is_deletion, Capture, Projection,
}

-- What `check_target` let through.
pub record Passed (s : Store) (input : PreparedRevision) (typed : Bool) (x : Resource)
    (previous : Option Revision) : Type 0 where
  pub expected : same_id (id_of previous) input.expected_revision_id ≡ true
  pub untyped :
      (not typed && (has_id input.resource_id s.objects || has_id input.resource_id s.activities))
      ≡ false
  pub kind_fits : (is_unknown x.kind ≡ true) ⊎ (same_kind x.kind input.resource_kind ≡ true)
  pub first_activity : is_activity input.resource_kind ≡ true → previous ≡ none
  pub alive : was_whiteout previous ≡ false
  pub deletes_some : is_deletion input.kind ≡ true → is_some previous ≡ true

check_target-Passed :
    (s : Store) (input : PreparedRevision) (typed : Bool) (x : Resource)
    (previous : Option Revision)
    → check_target s input typed x previous ≡ ok tt
    → Passed s input typed x previous
unfolding check_target
check_target-Passed s input typed x previous h = record {
  expected = ground arith;
  untyped = ground arith;
  kind_fits = ground arith;
  first_activity = ground arith;
  alive = ground arith;
  deletes_some = ground arith;
}

lock_registered-ok :
    (s s' : Store) (input : PreparedRevision) (typed : Bool) (o : Option Resource)
    (previous : Option Revision)
    → lock_registered s input typed o ≡ ok (s', previous)
    → (x : Resource) × (o ≡ some x)
      × (previous ≡ current s input.resource_id)
      × (s' ≡ promote x input s)
      × Passed s input typed x (current s input.resource_id)
lock_registered-ok s s' input typed none previous h = cc
lock_registered-ok s s' input typed (some x) previous h =
    let checks = check_target s input typed x (current s input.resource_id) in
    let (u, passed, k) = >>=-returns checks _ h in
    (
      x,
      refl,
      ground arith,
      ground arith,
      check_target-Passed s input typed x (current s input.resource_id) (passed ∙ cc),
    )

lock-ok :
    (s s' : Store) (input : PreparedRevision) (typed : Bool) (previous : Option Revision)
    → lock_revision_target s input typed ≡ ok (s', previous)
    → (x : Resource) × (registered input.resource_id s.resources ≡ some x)
      × (previous ≡ current s input.resource_id)
      × (s' ≡ promote x input s)
      × Passed s input typed x (current s input.resource_id)
unfolding lock_revision_target
lock-ok s s' input typed previous h =
    lock_registered-ok s s' input typed (registered input.resource_id s.resources) previous h

-- An append that succeeds: the target it locked, and the revision it inserted.
pub record Appended (s : Store) (input : PreparedRevision) (typed : Bool) (id : Uuid) (s' : Store)
    (stored : StoredRevision) : Type 0 where
  pub target : Resource
  pub found : registered input.resource_id s.resources ≡ some target
  pub passed : Passed s input typed target (current s input.resource_id)
  pub capture : Capture
  pub projection : Projection
  pub outcome :
      (s', stored)
      ≡ insert_revision
          (promote target input s)
          input
          (current s input.resource_id)
          (new_revision input (current s input.resource_id) id capture projection)

inserted_if :
    (b : Bool) (new r : Store × StoredRevision)
    → Path
        (Result RevisionError (Store × StoredRevision))
        (if b then ok new else err table_violation)
        (ok r)
    → r ≡ new
inserted_if true new r h = cc
inserted_if false new r h = cc

insert_constrained-ok :
    (s : Store) (input : PreparedRevision) (previous : Option Revision) (v : Revision)
    (r : Store × StoredRevision)
    → insert_constrained s input previous v ≡ ok r
    → r ≡ insert_revision s input previous v
unfolding insert_constrained
insert_constrained-ok s input previous v r h =
    inserted_if (satisfies_constraints s input previous v) (insert_revision s input previous v) r h

-- The steps of an append, with what each gave.
pub append_prepared-Appended :
    (s s' : Store) (input : PreparedRevision) (typed : Bool) (id : Uuid) (stored : StoredRevision)
    → append_prepared s input typed id ≡ ok (s', stored)
    → Appended s input typed id s' stored
unfolding append_prepared
append_prepared-Appended s s' input typed id stored h =
    let (locked, l, h1) = >>=-returns (lock_revision_target s input typed) _ h in
    let (capture, c, h2) = >>=-returns (or_previous input.capture locked.1 (λ v. v.capture)) _ h1 in
    let (projection, p, h3) =
      >>=-returns (or_previous input.projection locked.1 (λ v. v.projection)) _ h2 in
    let (x, found, previous, promoted, passed) = lock-ok s locked.0 input typed locked.1 l in
    record {
      target = x;
      found = found;
      passed = passed;
      capture = capture;
      projection = projection;
      outcome =
          let inserted = insert_constrained-ok locked.0 input locked.1 _ (s', stored) h3 in cc;
    }

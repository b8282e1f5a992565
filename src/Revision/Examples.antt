-- ===== src/Revision/Examples.antt =====
-- One object: created, edited, deleted, and a second writer who comes too late.
use drfed.Common.{suc, length, inr, ℕ, ◌≡◌, ◌≢◌, refl, false, none, some, [], ◌∷◌, arith}
use drfed.Common.Result.{ok, err}
use drfed.Revision.{
  object, local, complete, snapshot, whiteout, to, cc, Resource, Revision, AddressingRow, Store,
  StoredRevision, revision_conflict, PreparedRevision, versioned_object, append_snapshot,
  append_whiteout, current, hydrate, check_target, lock_revision_target, insert_revision,
  append_prepared, insert_constrained, next_sequence, hydrate_all, load_current_resource_revision,
  list_resource_revisions,
}
use drfed.Revision.Shape.{IsValid, IsKept, history}
use drfed.Revision.Invariant.{append_prepared-IsValid}
use drfed.Revision.Append.{
  append_prepared-current, append_prepared-history, append_snapshot-projections,
  append_whiteout-projections,
}
use drfed.Revision.Conflict.{append_prepared-conflict}
use drfed.Revision.Success.{Unopposed, append_snapshot-returns}
use drfed.Revision.Guard.{guard_revision_insert, append_prepared-guarded}
use drfed.Revision.Paging.{list_resource_revisions-page}

abbrev note : Resource
note = record { id = 10; iri = "https://a.example/1"; kind = object }

abbrev registered_only : Store
registered_only = record {
  resources = note ∷ [];
  heads = [];
  revisions = [];
  addressing = [];
  relations = [];
  objects = [];
  activities = [];
}

abbrev to_bob : AddressingRow
to_bob = record { property = to; position = 0; iri = "https://b.example/bob" }

abbrev cc_all : AddressingRow
cc_all = record { property = cc; position = 0; iri = "https://a.example/followers" }

abbrev creation : PreparedRevision
creation = record {
  resource_id = 10;
  resource_kind = versioned_object;
  expected_revision_id = none;
  kind = append_snapshot;
  serialized = some "{}";
  capture = some local;
  projection = some complete;
  addressing = cc_all ∷ to_bob ∷ [];
  relations = [];
  deleted = none;
  former_types = none;
}

abbrev deletion : PreparedRevision
deletion = record creation {
  expected_revision_id = some 100;
  kind = append_whiteout;
  serialized = none;
  capture = none;
  projection = none;
  addressing = [];
  deleted = some 5;
  former_types = some ("Note" ∷ []);
}

abbrev first : Revision
first = record {
  id = 100;
  resource_id = 10;
  sequence = 1;
  kind = snapshot;
  capture = local;
  projection = complete;
  document = some "{}";
  deleted = none;
  former_types = none;
}

abbrev created : Store
created = record registered_only {
  heads = (10, 100) ∷ [];
  revisions = first ∷ [];
  addressing = (100, cc_all) ∷ (100, to_bob) ∷ [];
}

-- Addressing is read back by property, `to` before `cc`.
abbrev first_stored : StoredRevision
first_stored = record { revision = first; addressing = to_bob ∷ cc_all ∷ []; relations = [] }

creation_runs : append_prepared registered_only creation false 100 ≡ ok (created, first_stored)
unfolding append_prepared lock_revision_target check_target current insert_constrained
    insert_revision hydrate
creation_runs = refl

abbrev last : Revision
last = record first {
  id = 101;
  sequence = 2;
  kind = whiteout;
  document = none;
  deleted = some 5;
  former_types = some ("Note" ∷ []);
}

abbrev deleted_store : Store
deleted_store = record created {
  heads = (10, 101) ∷ [];
  revisions = last ∷ first ∷ [];
  addressing = (100, cc_all) ∷ (100, to_bob) ∷ (101, to_bob) ∷ (101, cc_all) ∷ [];
}

abbrev last_stored : StoredRevision
last_stored = record first_stored { revision = last }

deletion_runs : append_prepared created deletion false 101 ≡ ok (deleted_store, last_stored)
unfolding append_prepared lock_revision_target check_target current insert_constrained
    insert_revision hydrate
deletion_runs = refl

registered_only-IsKept : (r : ℕ) → IsKept registered_only r
unfolding current
registered_only-IsKept r = record {
  formed = tt;
  headed = refl;
  unheaded = λ _. refl;
  allowed = ground arith;
}

registered_only-IsValid : IsValid registered_only
registered_only-IsValid = record { kept = registered_only-IsKept }

append_prepared-IsValid_example : IsValid created
append_prepared-IsValid_example =
    append_prepared-IsValid registered_only created creation false 100 first_stored
      registered_only-IsValid creation_runs

append_prepared-current_example :
    (load_current_resource_revision created 10 ≡ some first_stored)
    × (first.id ≡ 100)
    × (first.sequence ≡ next_sequence (current registered_only 10))
    × (first.kind ≡ snapshot)
    × (first.document ≡ some "{}")
append_prepared-current_example =
    append_prepared-current registered_only created creation false 100 first_stored creation_runs

append_prepared-history_example :
    (deletion.resource_id ≡ 10 → history deleted_store 10 ≡ last ∷ history created 10)
    × (deletion.resource_id ≢ 10
        → (history deleted_store 10 ≡ history created 10)
          × (current deleted_store 10 ≡ current created 10))
append_prepared-history_example =
    append_prepared-history created deleted_store deletion false 101 last_stored 10 deletion_runs

append_snapshot-projections_example :
    (first_stored.addressing ≡ to_bob ∷ cc_all ∷ []) × (first_stored.relations ≡ [])
append_snapshot-projections_example =
    append_snapshot-projections registered_only created creation false 100 first_stored
      (record { no_addressing = refl; no_relations = refl }) refl creation_runs

created_loads : load_current_resource_revision created 10 ≡ some first_stored
unfolding load_current_resource_revision current hydrate
created_loads = refl

append_whiteout-projections_example :
    (last_stored.addressing ≡ first_stored.addressing) × (last_stored.relations ≡ [])
append_whiteout-projections_example =
    append_whiteout-projections created deleted_store deletion false 101 last_stored first_stored
      (record { no_addressing = refl; no_relations = refl }) refl refl refl created_loads
      deletion_runs

append_prepared-conflict_example :
    append_prepared created creation false 102 ≡ err (revision_conflict 10 none (some 100))
append_prepared-conflict_example =
    append_prepared-conflict registered_only created creation creation false false 100 102
      first_stored (λ e. ground arith) refl refl creation_runs

creation-Unopposed : Unopposed registered_only creation false 100
unfolding current
creation-Unopposed = record {
  target = note;
  found = refl;
  kind_fits = inr refl;
  expected = refl;
  alive = refl;
  first_activity = λ h. refl;
  typed_row = inr (refl, refl);
  snapshot_of = refl;
  document = "{}";
  serialized = refl;
  undeleted = refl;
  no_former = refl;
  capture = local;
  captured = refl;
  projection = complete;
  projected = refl;
  new = refl;
  no_addressing = refl;
  no_relations = refl;
  addressed_once = refl;
  related_once = refl;
  targeted = refl;
}

append_snapshot-returns_example :
    (r : Store × StoredRevision) × (append_prepared registered_only creation false 100 ≡ ok r)
    × (r.1.revision.sequence ≡ suc (length (history registered_only 10)))
append_snapshot-returns_example =
    append_snapshot-returns registered_only creation false 100 creation-Unopposed
      registered_only-IsValid

append_prepared-guarded_example : guard_revision_insert registered_only first ≡ none
append_prepared-guarded_example =
    append_prepared-guarded registered_only created creation false 100 first_stored note
      registered_only-IsValid refl creation_runs

list_resource_revisions-page_example :
    list_resource_revisions created 10 (some 2) 20 ≡ ok (hydrate_all created (first ∷ []))
list_resource_revisions-page_example =
    list_resource_revisions-page created 10 (some 2) 20 append_prepared-IsValid_example
      (omega arith) (omega arith) refl

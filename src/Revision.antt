-- ===== src/Revision.antt =====
-- packages/models/src/resource-revision.ts: the append-only history of each canonical resource. The
-- tables that it reads and writes are the lists of `Store`; a transaction is a function into
-- `Result`, whose error drops the store, as a rollback does. A resource is locked from its first
-- read, so the appends of one resource follow one another, and each is one function call here.
-- `Uuid` is the number that a UUID text writes: what a uuid column holds, and what `areUuidsEqual`
-- compares. A new UUIDv7 is an argument. The columns `backfilled` and `created`, which the database
-- fills, are left out.
mod Rows
pub mod Shape
mod Tables
pub mod Lock
pub mod Effect
pub mod Invariant
pub mod Append
pub mod Conflict
pub mod Success
pub mod Guard
pub mod Paging
mod Examples
pub use Rows.*
use drfed.Common.{
  ℕ, ◌+◌, ◌-◌, ◌^◌, String, Bool, true, false, not, ◌&&◌, ◌||◌, Option, none, some, List, [], ◌∷◌,
  ◌++◌, map, ltb, leb, ◌==◌, take, find, select, any, all, is_some, if◌then◌else◌,
}
use drfed.Common.Sort.{sort_by}
use drfed.Common.Result.{Result, ok, err, ◌>>=◌, ◌>>◌, throw_if}

-- `current`: the head row joined with its revision, by resource and id.
abbrev pub head_id : Uuid → List (Uuid × Uuid) → Option Uuid
head_id r [] = none
head_id r ((q, v) ∷ heads) = if q == r then some v else head_id r heads

abbrev pub head_revision : Uuid → List Revision → Option Uuid → Option Revision
head_revision r vs none = none
head_revision r vs (some id) = find (λ v. v.resource_id == r && v.id == id) vs

unfoldable pub current : Store → Uuid → Option Revision
current s r = head_revision r s.revisions (head_id r s.heads)

-- `ORDER BY` of the enumeration and of the two projection tables.
abbrev pub property_index : AddressingProperty → ℕ
property_index to = 0
property_index cc = 1
property_index bto = 2
property_index bcc = 3
property_index audience = 4

abbrev pub addressing_le : AddressingRow → AddressingRow → Bool
addressing_le a b =
    let p = property_index a.property in
    let q = property_index b.property in ltb p q || p == q && leb a.position b.position

abbrev pub relation_le : RelationRow → RelationRow → Bool
relation_le a b = leb a.occurrence b.occurrence

-- The rows of one revision in a projection table.
abbrev pub rows_of {ℓ} : {A : Type ℓ} → Uuid → List (Uuid × A) → List A
rows_of id [] = []
rows_of id ((k, a) ∷ rows) = let rest = rows_of id rows in if k == id then a ∷ rest else rest

unfoldable pub hydrate : Store → Revision → StoredRevision
hydrate s v = record {
  revision = v;
  addressing = sort_by addressing_le (rows_of v.id s.addressing);
  relations = sort_by relation_le (rows_of v.id s.relations);
}

abbrev pub has_id : Uuid → List Uuid → Bool
has_id id ids = any (λ x. x == id) ids

abbrev pub same_kind : ResourceKind → VersionedKind → Bool
same_kind object versioned_object = true
same_kind activity versioned_activity = true
same_kind _ _ = false

abbrev pub is_unknown : ResourceKind → Bool
is_unknown unknown = true
is_unknown _ = false

abbrev pub is_activity : VersionedKind → Bool
is_activity versioned_activity = true
is_activity versioned_object = false

abbrev pub is_whiteout : RevisionKind → Bool
is_whiteout whiteout = true
is_whiteout _ = false

abbrev pub was_whiteout : Option Revision → Bool
was_whiteout none = false
was_whiteout (some v) = is_whiteout v.kind

abbrev pub is_deletion : AppendKind → Bool
is_deletion append_whiteout = true
is_deletion append_snapshot = false

abbrev pub same_id : Option Uuid → Option Uuid → Bool
same_id none none = true
same_id (some a) (some b) = a == b
same_id _ _ = false

abbrev pub id_of : Option Revision → Option Uuid
id_of none = none
id_of (some v) = some v.id

-- `UPDATE resources SET kind = … WHERE id = …`
abbrev pub set_kind : Uuid → ResourceKind → List Resource → List Resource
set_kind id kind [] = []
set_kind id kind (x ∷ xs) =
    (if x.id == id then record x { kind = kind } else x) ∷ set_kind id kind xs

-- The checks of `lockRevisionTarget` once the resource is read, in their order.
unfoldable pub check_target :
    Store → PreparedRevision → Bool → Resource → Option Revision → Result RevisionError (Unit {0})
check_target s input typed resource previous = do
  throw_if (not (same_id (id_of previous) input.expected_revision_id))
      (revision_conflict input.resource_id input.expected_revision_id (id_of previous))
  throw_if
      (not typed && (has_id input.resource_id s.objects || has_id input.resource_id s.activities))
      (legacy_resource input.resource_id)
  throw_if (not (is_unknown resource.kind) && not (same_kind resource.kind input.resource_kind))
      (kind_conflict resource.iri resource.kind (kind_of input.resource_kind))
  throw_if (is_some previous && is_activity input.resource_kind) activity_immutable
  throw_if (was_whiteout previous) already_deleted
  throw_if (is_deletion input.kind && not (is_some previous)) initial_whiteout

abbrev pub registered : Uuid → List Resource → Option Resource
registered r rs = find (λ x. x.id == r) rs

abbrev pub promote : Resource → PreparedRevision → Store → Store
promote resource input s =
    if is_unknown resource.kind
    then record s {
      resources = set_kind input.resource_id (kind_of input.resource_kind) s.resources;
    }
    else s

abbrev pub lock_registered :
    Store
    → PreparedRevision
    → Bool
    → Option Resource
    → Result RevisionError (Store × Option Revision)
lock_registered s input typed none = err not_registered
lock_registered s input typed (some resource) = do
  check_target s input typed resource (current s input.resource_id)
  ok (promote resource input s, current s input.resource_id)

-- `lockRevisionTarget`
unfoldable pub lock_revision_target :
    Store → PreparedRevision → Bool → Result RevisionError (Store × Option Revision)
lock_revision_target s input typed =
    lock_registered s input typed (registered input.resource_id s.resources)

abbrev pub next_sequence : Option Revision → ℕ
next_sequence none = 1
next_sequence (some v) = v.sequence + 1

-- `value ?? previous!.field`
abbrev pub or_previous {ℓ} :
    {A : Type ℓ} → Option A → Option Revision → (Revision → A) → Result RevisionError A
or_previous (some a) previous field = ok a
or_previous none (some v) field = ok (field v)
or_previous none none field = err null_previous

abbrev pub set_head : Uuid → Uuid → List (Uuid × Uuid) → List (Uuid × Uuid)
set_head r id [] = []
set_head r id ((q, v) ∷ heads) = (q, if q == r then id else v) ∷ set_head r id heads

-- An insertion for a first revision, else an update.
abbrev pub publish : Option Revision → Uuid → Uuid → List (Uuid × Uuid) → List (Uuid × Uuid)
publish none r id heads = (r, id) ∷ heads
publish (some v) r id heads = set_head r id heads

abbrev pub inherited : AppendKind → Option Revision → Store → List AddressingRow × List RelationRow
inherited append_whiteout (some v) s =
    let stored = hydrate s v in (stored.addressing, stored.relations)
inherited _ _ s = ([], [])

abbrev pub tagged {ℓ} : {A : Type ℓ} → Uuid → List A → List (Uuid × A)
tagged id [] = []
tagged id (a ∷ rows) = (id, a) ∷ tagged id rows

-- `appendPrepared` after the target is locked, with the revision to insert.
unfoldable pub insert_revision :
    Store → PreparedRevision → Option Revision → Revision → Store × StoredRevision
insert_revision s input previous v =
    let (addressing, relations) = inherited input.kind previous s in
    let s' : Store = record s {
      revisions = v ∷ s.revisions;
      addressing = s.addressing ++ tagged v.id (input.addressing ++ addressing);
      relations = s.relations ++ tagged v.id (input.relations ++ relations);
      heads = publish previous input.resource_id v.id s.heads;
    } in
    (s', hydrate s' v)

abbrev pub new_revision :
    PreparedRevision → Option Revision → Uuid → Capture → Projection → Revision
new_revision input previous id capture projection = record {
  id = id;
  resource_id = input.resource_id;
  sequence = next_sequence previous;
  kind = revision_kind input.kind;
  capture = capture;
  projection = projection;
  document = input.serialized;
  deleted = input.deleted;
  former_types = input.former_types;
}

-- The constraints of `resource_revisions`: its keys, `document_check` and `deletion_check`.
abbrev pub has_revision_key : Revision → List Revision → Bool
has_revision_key v vs =
    any (λ u. u.id == v.id || u.resource_id == v.resource_id && u.sequence == v.sequence) vs

abbrev pub has_document : RevisionKind → Option String → Bool
has_document snapshot document = is_some document
has_document _ document = not (is_some document)

abbrev pub has_deletion : RevisionKind → Option Instant → Option (List String) → Bool
has_deletion whiteout deleted former = is_some deleted && is_some former
has_deletion _ deleted former = not (is_some deleted) && not (is_some former)

-- The primary keys of `revision_addressing` and `revision_relations`, and `reference_check`.
abbrev pub same_address : AddressingRow → AddressingRow → Bool
same_address a b =
    property_index a.property == property_index b.property && a.position == b.position

abbrev pub same_occurrence : RelationRow → RelationRow → Bool
same_occurrence a b = a.occurrence == b.occurrence

abbrev pub are_keyed {ℓ} : {A : Type ℓ} → (A → A → Bool) → List A → Bool
are_keyed same [] = true
are_keyed same (a ∷ rows) = not (any (same a) rows) && are_keyed same rows

abbrev pub is_targeted : Representation → Option String → Bool
is_targeted reference target = is_some target
is_targeted _ target = true

abbrev pub satisfies_constraints : Store → PreparedRevision → Option Revision → Revision → Bool
satisfies_constraints s input previous v =
    let (addressing, relations) = inherited input.kind previous s in
    let rows = input.relations ++ relations in
    not (has_revision_key v s.revisions)
    && has_document v.kind v.document
    && has_deletion v.kind v.deleted v.former_types
    && are_keyed same_address (rows_of v.id s.addressing ++ input.addressing ++ addressing)
    && are_keyed same_occurrence (rows_of v.id s.relations ++ rows)
    && all (λ (row : RelationRow). is_targeted row.representation row.target_iri) rows

-- The insertions, which the database refuses when a row violates a constraint.
unfoldable pub insert_constrained :
    Store
    → PreparedRevision
    → Option Revision
    → Revision
    → Result RevisionError (Store × StoredRevision)
insert_constrained s input previous v =
    if satisfies_constraints s input previous v
    then ok (insert_revision s input previous v)
    else err table_violation

-- `appendPrepared`
unfoldable pub append_prepared :
    Store → PreparedRevision → Bool → Uuid → Result RevisionError (Store × StoredRevision)
append_prepared s input typed id = do
  (s', previous) ← lock_revision_target s input typed
  capture ← or_previous input.capture previous (λ v. v.capture)
  projection ← or_previous input.projection previous (λ v. v.projection)
  insert_constrained s' input previous (new_revision input previous id capture projection)

-- `revision === undefined ? null : await hydrate(db, revision)`
abbrev pub hydrate_some : Store → Option Revision → Option StoredRevision
hydrate_some s none = none
hydrate_some s (some v) = some (hydrate s v)

-- `loadResourceRevision`
unfoldable pub load_resource_revision : Store → Uuid → Option StoredRevision
load_resource_revision s id = hydrate_some s (find (λ v. v.id == id) s.revisions)

-- `loadCurrentResourceRevision`
unfoldable pub load_current_resource_revision : Store → Uuid → Option StoredRevision
load_current_resource_revision s r = hydrate_some s (current s r)

abbrev pub max_history_limit : ℕ
max_history_limit = 100

abbrev pub max_safe_integer : ℕ
max_safe_integer = 2 ^ 53 - 1

abbrev pub is_bound : Option ℕ → Bool
is_bound none = true
is_bound (some n) = leb n max_safe_integer && not (ltb n 1)

abbrev pub precedes : Option ℕ → ℕ → Bool
precedes none n = true
precedes (some b) n = ltb n b

abbrev pub sequence_ge : Revision → Revision → Bool
sequence_ge a b = leb b.sequence a.sequence

abbrev pub hydrate_all : Store → List Revision → List StoredRevision
hydrate_all s [] = []
hydrate_all s (v ∷ vs) = hydrate s v ∷ hydrate_all s vs

-- `listResourceRevisions`
unfoldable pub list_resource_revisions :
    Store → Uuid → Option ℕ → ℕ → Result RevisionError (List StoredRevision)
list_resource_revisions s r before limit = do
  throw_if (ltb limit 1 || ltb max_history_limit limit || not (is_bound before))
      invalid_history_bounds
  ok (
      hydrate_all s (
        take limit (
          sort_by sequence_ge
            (select (λ v. v.resource_id == r && precedes before v.sequence) s.revisions))))

-- ===== src/Revision/Rows.antt =====
-- packages/models/src/schema.ts and resource-revision.ts: the rows of the tables of a history, and what
-- is read and written of them. A document is its JSON text.
use drfed.Common.{ℕ, String, Option, List}

abbrev pub Uuid : Type 0
Uuid = ℕ

abbrev pub Instant : Type 0
Instant = ℕ

-- Enumerations of packages/models/src/schema.ts.
pub data ResourceKind : Type 0 where
  actor object activity collection unknown : ResourceKind

pub data RevisionKind : Type 0 where
  snapshot unavailable whiteout : RevisionKind

pub data Capture : Type 0 where
  local received embedded fetched : Capture

pub data Projection : Type 0 where
  partial complete : Projection

pub data AddressingProperty : Type 0 where
  to cc bto bcc audience : AddressingProperty

pub data Representation : Type 0 where
  reference embedded_value link : Representation

-- A row of `resources`.
pub record Resource : Type 0 where
  pub id : Uuid
  pub iri : String
  pub kind : ResourceKind

-- A row of `resource_revisions`; a document is its JSON text.
pub record Revision : Type 0 where
  pub id : Uuid
  pub resource_id : Uuid
  pub sequence : ℕ
  pub kind : RevisionKind
  pub capture : Capture
  pub projection : Projection
  pub document : Option String
  pub deleted : Option Instant
  pub former_types : Option (List String)

-- Rows of `revision_addressing` and `revision_relations` without their revision.
pub record AddressingRow : Type 0 where
  pub property : AddressingProperty
  pub position : ℕ
  pub iri : String

pub record RelationRow : Type 0 where
  pub occurrence : ℕ
  pub property : String
  pub representation : Representation
  pub target_iri : Option String
  pub path : Option (List String)

-- `objects` and `activities` are the ids of the rows of the typed tables.
pub record Store : Type 0 where
  pub resources : List Resource
  pub heads : List (Uuid × Uuid)
  pub revisions : List Revision
  pub addressing : List (Uuid × AddressingRow)
  pub relations : List (Uuid × RelationRow)
  pub objects : List Uuid
  pub activities : List Uuid

-- `StoredResourceRevision`
pub record StoredRevision : Type 0 where
  pub revision : Revision
  pub addressing : List AddressingRow
  pub relations : List RelationRow

pub data RevisionError : Type 0 where
  not_registered : RevisionError
  revision_conflict : Uuid → Option Uuid → Option Uuid → RevisionError
  legacy_resource : Uuid → RevisionError
  kind_conflict : String → ResourceKind → ResourceKind → RevisionError
  activity_immutable already_deleted initial_whiteout : RevisionError
  null_previous invalid_history_bounds table_violation : RevisionError

-- `PreparedRevision`, by the resource kinds and revision kinds that `prepareRevision` lets through.
pub data VersionedKind : Type 0 where
  versioned_object versioned_activity : VersionedKind

pub data AppendKind : Type 0 where
  append_snapshot append_whiteout : AppendKind

pub record PreparedRevision : Type 0 where
  pub resource_id : Uuid
  pub resource_kind : VersionedKind
  pub expected_revision_id : Option Uuid
  pub kind : AppendKind
  pub serialized : Option String
  pub capture : Option Capture
  pub projection : Option Projection
  pub addressing : List AddressingRow
  pub relations : List RelationRow
  pub deleted : Option Instant
  pub former_types : Option (List String)

abbrev pub kind_of : VersionedKind → ResourceKind
kind_of versioned_object = object
kind_of versioned_activity = activity

abbrev pub revision_kind : AppendKind → RevisionKind
revision_kind append_snapshot = snapshot
revision_kind append_whiteout = whiteout

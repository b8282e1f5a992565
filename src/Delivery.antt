-- ===== src/Delivery.antt =====
-- packages/models/src/activity-delivery.ts: what was observed of each activity delivery. The rows of
-- the tables of packages/models/src/schema.ts that it reads and writes are the lists of `Store`; a
-- transaction is a function into `Result`, whose error drops the store. `Text` is a list of UTF-16
-- code units, `Value` a JSON value. A new UUIDv7 and the clock are arguments.
pub mod Storable
pub mod Actors
pub mod Record
pub mod Carried
pub mod Settle
pub mod Events
pub mod Rows
pub mod Merging
pub mod Passed
pub mod Valid
pub mod Checked
pub mod Moves
pub mod Kept
pub mod Lasting
pub mod Linking
pub mod Evidence
pub mod Evident
pub mod Receipts
pub mod Settling
mod Examples
use drfed.Common.{ℕ, Bool, true, false, Option, List, [], ◌∷◌, if◌then◌else◌}
use drfed.Revision.{Uuid, Instant, ResourceKind, RevisionKind}

abbrev pub Text : Type 0
Text = List ℕ

-- A JSON value; a number is the text that it prints.
mutual
  pub data Value : Type 0 where
    null : Value
    bool : Bool → Value
    num : Text → Value
    text : Text → Value
    array : Items → Value
    fields : Entries → Value

  pub data Items : Type 0 where
    no_item : Items
    item : Value → Items → Items

  pub data Entries : Type 0 where
    no_entry : Entries
    entry : Text → Value → Entries → Entries

-- Enumerations of the schema.
pub data Direction : Type 0 where
  inbound outbound : Direction

pub data Status : Type 0 where
  received acknowledged unverified rejected : Status
  queued sent failed permanently_failed abandoned : Status

pub data Mechanism : Type 0 where
  http_signature ld_signature object_integrity_proof : Mechanism

pub data Verification : Type 0 where
  verified invalid_signature key_fetch_error no_signature unattempted unobserved : Verification

pub data ReceiptRole : Type 0 where
  activity_role object_role : ReceiptRole

-- A row of `activity_deliveries`.
pub record Delivery : Type 0 where
  pub id : Uuid
  pub instance_id : Uuid
  pub actor_id : Option Uuid
  pub direction : Direction
  pub status : Status
  pub verification_mechanism : Option Mechanism
  pub verification_result : Option Verification
  pub type : Option Text
  pub types : List Text
  pub activity_iri : Option Text
  pub activity_id : Option Uuid
  pub carried_snapshot : Bool
  pub fetched_object : Option Value
  pub carried_object_snapshot : Bool
  pub object_type : Option Text
  pub object_iri : Option Text
  pub signed_key_iri : Option Text
  pub verification_key_id : Option Uuid
  pub remote_actor_iri : Option Text
  pub remote_host : Option Text
  pub inbox_url : Text
  pub request_url : Option Text
  pub headers : Option (List (Text × Text))
  pub body : Option (List ℕ)
  pub status_code : Option ℕ
  pub response_body : Option Text
  pub error : Option Text
  pub payload : Option Value
  pub recipient_iris : List Text
  pub created : Instant
  pub completed : Option Instant

-- Rows of `activity_delivery_attempts`, `activity_delivery_actors`,
-- `activity_delivery_actor_collections` and `revision_receipts`.
pub record Attempt : Type 0 where
  pub id : Uuid
  pub delivery_id : Uuid
  pub succeeded : Bool
  pub status_code : Option ℕ
  pub response_body : Option Text
  pub error : Option Text
  pub created : Instant

pub record DeliveryActor : Type 0 where
  pub delivery_id : Uuid
  pub actor_id : Uuid
  pub inbox_owner : Bool
  pub addressed : Bool
  pub addressed_directly : Bool
  pub sender : Bool
  pub created : Instant

pub record ActorCollection : Type 0 where
  pub delivery_id : Uuid
  pub actor_id : Uuid
  pub collection_iri : Text

pub record Receipt : Type 0 where
  pub delivery_id : Uuid
  pub revision_id : Uuid
  pub role : ReceiptRole

-- The columns that the deliveries read of the other tables.
pub record LocalActor : Type 0 where
  pub id : Uuid
  pub instance_id : Uuid
  pub is_local : Bool

pub record Registered : Type 0 where
  pub id : Uuid
  pub iri : Text
  pub kind : ResourceKind

pub record Activity : Type 0 where
  pub id : Uuid
  pub document : Value

pub record StoredObject : Type 0 where
  pub id : Uuid
  pub activity_id : Option Uuid
  pub document : Value
  pub fetched : Bool

pub record Snapshot : Type 0 where
  pub id : Uuid
  pub resource_id : Uuid
  pub sequence : ℕ
  pub kind : RevisionKind
  pub document : Option Value

pub record Store : Type 0 where
  pub actors : List LocalActor
  pub resources : List Registered
  pub activities : List Activity
  pub objects : List StoredObject
  pub revisions : List Snapshot
  pub deliveries : List Delivery
  pub attempts : List Attempt
  pub delivery_actors : List DeliveryActor
  pub collections : List ActorCollection
  pub receipts : List Receipt

pub data DeliveryError : Type 0 where
  not_local duplicate_id check_violation : DeliveryError

abbrev pub is_inbound : Direction → Bool
is_inbound inbound = true
is_inbound outbound = false

-- `UPDATE activity_deliveries SET … WHERE …`
abbrev pub update_where : (Delivery → Bool) → (Delivery → Delivery) → List Delivery → List Delivery
update_where p f [] = []
update_where p f (d ∷ ds) = (if p d then f d else d) ∷ update_where p f ds

-- ===== src/Delivery/Record.antt =====
-- packages/models/src/activity-delivery.ts: a delivery and its actor rows are recorded in one
-- transaction, which the checks of the tables in packages/models/src/schema.ts can refuse.
use drfed.Common.{
  ℕ, Bool, true, false, not, ◌&&◌, ◌||◌, Option, none, some, List, [], ◌∷◌, ◌++◌, leb, ◌==◌, any,
  all, map, is_some,
}
use drfed.Common.Result.{Result, ok, ◌>>◌, throw_if}
use drfed.Revision.{Uuid}
use drfed.Delivery.{
  Text, inbound, outbound, Status, received, acknowledged, unverified, rejected, queued,
  Verification, verified, unattempted, unobserved, Delivery, DeliveryActor, ActorCollection,
  LocalActor, Store, DeliveryError, not_local, check_violation, duplicate_id, is_inbound,
}
use drfed.Delivery.Storable.{jsonb, stored_object, text_of}
use drfed.Delivery.Actors.{ActorRow, AddressedActor, empty_row, inbound_actor_rows}

abbrev pub is_inbound_status : Status → Bool
is_inbound_status received = true
is_inbound_status acknowledged = true
is_inbound_status unverified = true
is_inbound_status rejected = true
is_inbound_status _ = false

abbrev pub is_queued : Status → Bool
is_queued queued = true
is_queued _ = false

-- Answered with 2xx.
abbrev pub is_accepted : Status → Bool
is_accepted received = true
is_accepted acknowledged = true
is_accepted _ = false

abbrev pub is_verified : Option Verification → Bool
is_verified (some verified) = true
is_verified _ = false

abbrev pub was_verifying : Option Verification → Bool
was_verifying none = false
was_verifying (some unattempted) = false
was_verifying (some unobserved) = false
was_verifying _ = true

abbrev pub is_status_code : Option ℕ → Bool
is_status_code none = true
is_status_code (some n) = leb 100 n && leb n 599

abbrev pub same_bool : Bool → Bool → Bool
same_bool true b = b
same_bool false b = not b

-- The checks of `activity_deliveries`, in the order of the schema.
unfoldable pub satisfies_checks : Delivery → Bool
satisfies_checks d =
    same_bool (is_inbound d.direction) (is_inbound_status d.status)
    && same_bool (not (is_some d.completed)) (is_queued d.status)
    && is_status_code d.status_code
    && (is_inbound d.direction || not (is_some d.verification_key_id))
    && same_bool (is_inbound d.direction) (is_some d.verification_result)
    && (not (is_some d.verification_mechanism)
        || is_inbound d.direction && was_verifying d.verification_result)
    && same_bool (is_inbound d.direction) (is_some d.body)
    && (not (is_some d.activity_id)
        || not (is_inbound d.direction)
        || is_verified d.verification_result && is_accepted d.status)

-- The checks of `activity_delivery_actors`.
abbrev pub satisfies_role_checks : ActorRow → Bool
satisfies_role_checks row =
    (row.inbox_owner || row.addressed || row.sender)
    && (not row.addressed_directly || row.addressed)

abbrev pub is_local_actor : Uuid → List LocalActor → Uuid → Bool
is_local_actor instance_id actors a =
    any (λ x. x.id == a && x.instance_id == instance_id && x.is_local) actors

-- `checkLocalActors`: the code counts the actors among the ids that are local ones of the instance,
-- and wants as many as it has distinct ids; an actor's id is a primary key, so that every id is one.
unfoldable pub check_local_actors : Store → Uuid → List Uuid → Result DeliveryError (Unit {0})
check_local_actors s instance_id ids =
    throw_if (not (all (is_local_actor instance_id s.actors) ids)) not_local

abbrev pub ids_of : Option Uuid → List ActorRow → List Uuid
ids_of none rows = map (λ row. row.actor_id) rows
ids_of (some a) rows = a ∷ map (λ row. row.actor_id) rows

abbrev pub link_rows : Delivery → List ActorRow → List DeliveryActor
link_rows d [] = []
link_rows d (row ∷ rows) =
    (record {
      delivery_id = d.id;
      actor_id = row.actor_id;
      inbox_owner = row.inbox_owner;
      addressed = row.addressed;
      addressed_directly = row.addressed_directly;
      sender = row.sender;
      created = d.created;
    }
      ∷ link_rows d rows)

abbrev pub collection_rows : Uuid → Uuid → List Text → List ActorCollection
collection_rows id actor [] = []
collection_rows id actor (c ∷ cs) =
    record { delivery_id = id; actor_id = actor; collection_iri = c } ∷ collection_rows id actor cs

abbrev pub collections_of : Uuid → List ActorRow → List ActorCollection
collections_of id [] = []
collections_of id (row ∷ rows) =
    collection_rows id row.actor_id row.collection_iris ++ collections_of id rows

abbrev pub with_texts : Delivery → Delivery
with_texts d = record d { error = text_of d.error; response_body = text_of d.response_body }

-- The rows that `insertDelivery` inserts.
abbrev pub inserted : Store → Delivery → List ActorRow → Store
inserted s delivery links = record s {
  deliveries = with_texts delivery ∷ s.deliveries;
  delivery_actors = link_rows delivery links ++ s.delivery_actors;
  collections = collections_of delivery.id links ++ s.collections;
}

-- `insertDelivery`; the database refuses an id that it has and a row that fails a check.
unfoldable pub insert_delivery :
    Store → Delivery → List ActorRow → Result DeliveryError (Store × Delivery)
insert_delivery s delivery links = do
  check_local_actors s delivery.instance_id (ids_of delivery.actor_id links)
  throw_if (any (λ d. d.id == delivery.id) s.deliveries) duplicate_id
  throw_if (not (satisfies_checks (with_texts delivery))) check_violation
  throw_if (not (all satisfies_role_checks links)) check_violation
  ok (inserted s delivery links, with_texts delivery)

-- What `recordInbound` and `recordOutbound` write over the entry that they are given, whose other
-- columns stand in `entry`.
abbrev pub inbound_delivery : Uuid → List ℕ → Delivery → Delivery
inbound_delivery id body entry = record entry {
  id = id;
  body = some body;
  payload = jsonb entry.payload;
  fetched_object = stored_object entry.fetched_object;
  direction = inbound;
  carried_snapshot = false;
  carried_object_snapshot = false;
}

-- `recordInbound`
unfoldable pub record_inbound :
    Store → Uuid → List ℕ → List AddressedActor → Delivery → Result DeliveryError (Store × Delivery)
record_inbound s id body addressed entry =
    insert_delivery s (inbound_delivery id body entry) (inbound_actor_rows entry.actor_id addressed)

abbrev pub outbound_delivery : Uuid → Delivery → Delivery
outbound_delivery id entry = record entry {
  id = id;
  payload = jsonb entry.payload;
  direction = outbound;
  status = queued;
  fetched_object = none;
  carried_snapshot = false;
  carried_object_snapshot = false;
}

abbrev pub sender_rows : Option Uuid → List ActorRow
sender_rows none = []
sender_rows (some a) = record (empty_row a) { sender = true } ∷ []

-- `recordOutbound`
unfoldable pub record_outbound : Store → Uuid → Delivery → Result DeliveryError (Store × Delivery)
record_outbound s id entry =
    insert_delivery s (outbound_delivery id entry) (sender_rows entry.actor_id)

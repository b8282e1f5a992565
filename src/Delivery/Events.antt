-- ===== src/Delivery/Events.antt =====
-- packages/models/src/activity-delivery.ts: the exported functions as the events of a store, among
-- transactions that change the other tables of packages/models/src/schema.ts. An event that throws, and
-- a transaction that is refused, leaves the store as it was. An instance is never removed: no code does.
use drfed.Common.{
  ℕ, Bool, true, Option, none, some, List, [], ◌∷◌, ◌==◌, any, all, select, if◌then◌else◌,
}
use drfed.Common.Result.{Result, ok, err}
use drfed.Revision.{Uuid, Instant}
use drfed.Delivery.{
  Value, Delivery, Store, DeliveryError, LocalActor, Registered, Activity, StoredObject, Snapshot,
  DeliveryActor, ActorCollection, Receipt, update_where,
}
use drfed.Delivery.Actors.{AddressedActor}
use drfed.Delivery.Record.{record_inbound, record_outbound}
use drfed.Delivery.Carried.{receive_inbound, link_inbound_activity, record_fetched_object}
use drfed.Delivery.Settle.{Settlement, settle_outbound}

pub data Event : Type 0 where
  inbound_arrived : Uuid → List ℕ → List AddressedActor → Delivery → Event
  outbound_started : Uuid → Delivery → Event
  listener_ran : Uuid → Event
  activity_stored : Uuid → Event
  object_fetched : Uuid → Option Value → Event
  outbound_ended : Settlement → Instant → Uuid → Event

abbrev pub or_rolled_back {ℓ} : {A : Type ℓ} → Store → Result DeliveryError (Store × A) → Store
or_rolled_back s (ok (s', a)) = s'
or_rolled_back s (err e) = s

-- A transaction of the rest of the program: what it leaves in the other tables.
pub record Tables : Type 0 where
  pub actors : List LocalActor
  pub resources : List Registered
  pub activities : List Activity
  pub objects : List StoredObject
  pub revisions : List Snapshot

pub data Change : Type 0 where
  called : Event → Change
  tables_changed : Tables → Change

abbrev pub has_actor : List LocalActor → Uuid → Bool
has_actor actors id = any (λ a. a.id == id) actors

abbrev pub has_activity : List Activity → Uuid → Bool
has_activity activities id = any (λ a. a.id == id) activities

-- `ON DELETE SET NULL`
abbrev pub still : (Uuid → Bool) → Option Uuid → Option Uuid
still p none = none
still p (some id) = if p id then some id else none

abbrev pub detached : Tables → Delivery → Delivery
detached t d = record d {
  actor_id = still (has_actor t.actors) d.actor_id;
  activity_id = still (has_activity t.activities) d.activity_id;
}

-- The rows of an actor that is gone are deleted with it.
unfoldable pub with_tables : Store → Tables → Store
with_tables s t = record s {
  actors = t.actors;
  resources = t.resources;
  activities = t.activities;
  objects = t.objects;
  revisions = t.revisions;
  deliveries = update_where (λ d. true) (detached t) s.deliveries;
  delivery_actors = select (λ (r : DeliveryActor). has_actor t.actors r.actor_id) s.delivery_actors;
  collections = select (λ (r : ActorCollection). has_actor t.actors r.actor_id) s.collections;
}

-- A revision that a receipt names is not deleted.
abbrev pub keeps_receipts : Store → Tables → Bool
keeps_receipts s t =
    all (λ (r : Receipt). any (λ (v : Snapshot). v.id == r.revision_id) t.revisions) s.receipts

module _ (deep_equal : Value → Value → Bool) where
  unfoldable pub perform : Store → Event → Store
  perform s (inbound_arrived id body addressed entry) =
      or_rolled_back s (record_inbound s id body addressed entry)
  perform s (outbound_started id entry) = or_rolled_back s (record_outbound s id entry)
  perform s (listener_ran id) = (receive_inbound s id).0
  perform s (activity_stored id) = (link_inbound_activity deep_equal s id).0
  perform s (object_fetched id document) = (record_fetched_object deep_equal s id document).0
  perform s (outbound_ended e now id) = or_rolled_back s (settle_outbound s e now id)

  unfoldable pub apply : Store → Change → Store
  apply s (called e) = perform s e
  apply s (tables_changed t) = if keeps_receipts s t then with_tables s t else s

  unfoldable pub run : Store → List Change → Store
  run s [] = s
  run s (c ∷ cs) = run (apply s c) cs

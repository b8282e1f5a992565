-- ===== src/Delivery/Carried.antt =====
-- packages/models/src/activity-delivery.ts: `receiveInbound`, `linkInboundActivity`,
-- `recordFetchedObject` and `decideCarried`. `isDeepStrictEqual` of Node.js is the parameter
-- `deep_equal`.
use drfed.Common.{
  Bool, true, false, not, ◌&&◌, ◌||◌, Option, none, some, List, [], ◌∷◌, ◌++◌, ◌==◌, find, any,
  select, if◌then◌else◌,
}
use drfed.Common.Text.{same_codes}
use drfed.Revision.{Uuid, ResourceKind, activity, RevisionKind, snapshot}
use drfed.Delivery.{
  Text, Value, Status, received, acknowledged, Delivery, Receipt, activity_role, object_role,
  Registered, Activity, StoredObject, Snapshot, Store, is_inbound, update_where,
}
use drfed.Delivery.Storable.{present, stored_object}
use drfed.Delivery.Record.{is_verified, is_accepted}

abbrev pub is_acknowledged : Status → Bool
is_acknowledged acknowledged = true
is_acknowledged _ = false

-- The `WHERE` of `receiveInbound`.
abbrev pub awaits_listener : Uuid → Delivery → Bool
awaits_listener id d = d.id == id && is_inbound d.direction && is_acknowledged d.status

-- `receiveInbound`
unfoldable pub receive_inbound : Store → Uuid → Store × Bool
receive_inbound s id = (
  record s {
    deliveries =
        update_where (awaits_listener id) (λ d. record d { status = received }) s.deliveries;
  },
  any (awaits_listener id) s.deliveries,
)

abbrev pub is_snapshot : RevisionKind → Bool
is_snapshot snapshot = true
is_snapshot _ = false

abbrev pub is_activity_kind : ResourceKind → Bool
is_activity_kind activity = true
is_activity_kind _ = false

abbrev pub is_of : Uuid → Option Uuid → Bool
is_of id none = false
is_of id (some x) = x == id

abbrev pub is_inbound_of : Uuid → Delivery → Bool
is_inbound_of id d = d.id == id && is_inbound d.direction

abbrev pub activity_of : Store → Option Uuid → Option Activity
activity_of s none = none
activity_of s (some id) = find (λ x. x.id == id) s.activities

abbrev pub object_of : Store → Uuid → Option StoredObject
object_of s id = find (λ x. is_of id x.activity_id) s.objects

-- The first revision of a resource, when it is a snapshot.
abbrev pub first_snapshot : Store → Uuid → Option Snapshot
first_snapshot s r =
    find (λ v. v.resource_id == r && v.sequence == 1 && is_snapshot v.kind) s.revisions

abbrev pub without_receipts : Uuid → List Receipt → List Receipt
without_receipts id rs = select (λ r. not (r.delivery_id == id)) rs

abbrev pub set_carried : Bool → Bool → Delivery → Delivery
set_carried b c d = record d { carried_snapshot = b; carried_object_snapshot = b && c }

abbrev pub names : Option Text → Registered → Bool
names none r = false
names (some iri) r = same_codes r.iri iri

-- The resource of the join that an activity IRI names.
abbrev pub linkable : Store → Option Text → Option Registered
linkable s iri =
    find (λ r. names iri r && is_activity_kind r.kind && any (λ a. a.id == r.id) s.activities)
      s.resources

abbrev pub is_unlinked : Option Uuid → Bool
is_unlinked none = true
is_unlinked (some a) = false

-- The conditions of the link on the delivery itself.
unfoldable pub may_link : Uuid → Delivery → Bool
may_link id d =
    is_inbound_of id d
    && is_accepted d.status
    && is_verified d.verification_result
    && is_unlinked d.activity_id

abbrev pub with_fetched : Store → Uuid → Option Value → Store
with_fetched s id document = record s {
  deliveries =
      update_where (is_inbound_of id) (λ d. record d { fetched_object = stored_object document })
        s.deliveries;
}

abbrev pub with_link : Store → Uuid → Registered → Store
with_link s id r = record s {
  deliveries = update_where (may_link id) (λ d. record d { activity_id = some r.id }) s.deliveries;
}

module _ (deep_equal : Value → Value → Bool) where
  abbrev pub equals : Option Value → Value → Bool
  equals none w = false
  equals (some v) w = deep_equal v w

  -- `carriedSnapshot`
  unfoldable pub carries : Delivery → Activity → Bool
  carries d a = equals (present d.payload) a.document

  -- What `carriedObjectSnapshot` adds to `carriedSnapshot`.
  unfoldable pub carries_object : Delivery → Option StoredObject → Bool
  carries_object d none = false
  carries_object d (some o) = not o.fetched || equals (present d.fetched_object) o.document

  abbrev pub object_receipts : Uuid → Bool → StoredObject → Option Snapshot → List Receipt
  object_receipts id carried o none = []
  object_receipts id carried o (some v) =
      if carried && equals v.document o.document
      then record { delivery_id = id; revision_id = v.id; role = object_role } ∷ []
      else []

  abbrev pub receipts_of_object : Store → Uuid → Bool → Option StoredObject → List Receipt
  receipts_of_object s id carried none = []
  receipts_of_object s id carried (some o) = object_receipts id carried o (first_snapshot s o.id)

  abbrev pub activity_receipts :
      Store → Uuid → Bool → Activity → Option StoredObject → Option Snapshot → List Receipt
  activity_receipts s id carried a object none = []
  activity_receipts s id carried a object (some v) =
      if equals v.document a.document
      then record { delivery_id = id; revision_id = v.id; role = activity_role }
        ∷ receipts_of_object s id carried object
      else []

  -- The receipts of a delivery linked to an activity.
  unfoldable pub receipts_for : Store → Delivery → Activity → Option StoredObject → List Receipt
  receipts_for s d a object =
      if carries d a
      then activity_receipts s d.id (carries_object d object) a object (first_snapshot s a.id)
      else []

  abbrev pub decide : Store → Delivery → Option Activity → Store
  decide s d none = record s { receipts = without_receipts d.id s.receipts }
  decide s d (some a) =
      let object = object_of s a.id in
      record s {
        receipts = without_receipts d.id s.receipts ++ receipts_for s d a object;
        deliveries =
            update_where (λ x. x.id == d.id) (set_carried (carries d a) (carries_object d object))
              s.deliveries;
      }

  abbrev pub decide_found : Store → Option Delivery → Store
  decide_found s none = s
  decide_found s (some d) = decide s d (activity_of s d.activity_id)

  -- `decideCarried`
  unfoldable pub decide_carried : Store → Uuid → Store
  decide_carried s id = decide_found s (find (is_inbound_of id) s.deliveries)

  abbrev pub fetch_found : Store → Uuid → Option Value → Bool → Store × Bool
  fetch_found s id document false = (s, false)
  fetch_found s id document true = (decide_carried (with_fetched s id document) id, true)

  -- `recordFetchedObject`
  unfoldable pub record_fetched_object : Store → Uuid → Option Value → Store × Bool
  record_fetched_object s id document =
      fetch_found s id document (any (is_inbound_of id) s.deliveries)

  abbrev pub link_to : Store → Uuid → Option Registered → Store × Bool
  link_to s id none = (s, false)
  link_to s id (some r) = (decide_carried (with_link s id r) id, true)

  abbrev pub link_found : Store → Uuid → Option Delivery → Store × Bool
  link_found s id none = (s, false)
  link_found s id (some d) = link_to s id (linkable s d.activity_iri)

  -- `linkInboundActivity`
  unfoldable pub link_inbound_activity : Store → Uuid → Store × Bool
  link_inbound_activity s id = link_found s id (find (may_link id) s.deliveries)

-- ===== src/Delivery/Examples.antt =====
-- One instance with one local actor: a verified delivery that is linked, and one that is sent.
use drfed.Common.{
  Option, ℕ, ◌≡◌, ◌↔◌, refl, sym, ◌∙◌, inl, inr, Bool, true, false, none, some, List, [], ◌∷◌,
}
use drfed.Common.Result.{ok}
use drfed.Common.Text.{same_codes}
use drfed.Revision.{activity, snapshot}
use drfed.Delivery.{
  Activity, Value, null, text, inbound, outbound, acknowledged, queued, verified, Delivery, Store,
  Receipt, Snapshot,
}
use drfed.Delivery.Actors.{inbound_actor_rows, set_rows, set_row}
use drfed.Delivery.Record.{
  satisfies_checks, record_inbound, record_outbound, insert_delivery, check_local_actors,
}
use drfed.Delivery.Settle.{Settlement, was_sent, settle_outbound, latest, awaits}
use drfed.Delivery.Events.{
  apply, perform, with_tables, inbound_arrived, outbound_started, listener_ran, activity_stored,
  object_fetched, outbound_ended, run, Tables, Change, called, tables_changed,
}
use drfed.Delivery.Rows.{lookup, EachRow-insert}
use drfed.Delivery.Valid.{IsRow, IsValid}
use drfed.Delivery.Checked.{run-IsValid}
use drfed.Delivery.Carried.{
  may_link, link_inbound_activity, decide_carried, without_receipts, receive_inbound,
  record_fetched_object, carries, carries_object, receipts_for,
}
use drfed.Delivery.Evidence.{receipts_of}
use drfed.Delivery.Evident.{Among, OneFirst, IsEvidence}
use drfed.Delivery.Receipts.{decide_carried-receipts}
use drfed.Delivery.Lasting.{HasLasted, keep_actor, keep_activity, run-Lasts}
use drfed.Delivery.Linking.{Links, link_inbound_activity-Links}
use drfed.Delivery.Settling.{Settles, settle_outbound-Settles}
use drfed.Delivery.Merging.{IsMerged, inbound_actor_rows-IsMerged}
use drfed.Delivery.Storable.{jsonb, storable_json, stored_object, storable_text}

-- Texts alike, and nothing else.
abbrev same_value : Value → Value → Bool
same_value (text a) (text b) = same_codes a b
same_value _ _ = false

abbrev arrival : Delivery
arrival = record {
  id = 0;
  instance_id = 5;
  actor_id = some 1;
  direction = inbound;
  status = acknowledged;
  verification_mechanism = none;
  verification_result = some verified;
  type = none;
  types = [];
  activity_iri = some (7 ∷ []);
  activity_id = none;
  carried_snapshot = true;
  fetched_object = none;
  carried_object_snapshot = true;
  object_type = none;
  object_iri = none;
  signed_key_iri = none;
  verification_key_id = none;
  remote_actor_iri = none;
  remote_host = none;
  inbox_url = 8 ∷ [];
  request_url = none;
  headers = none;
  body = some [];
  status_code = some 202;
  response_body = none;
  error = some (0 ∷ []);
  payload = some (text (9 ∷ []));
  recipient_iris = [];
  created = 100;
  completed = some 101;
}

abbrev departure : Delivery
departure = record arrival {
  id = 31;
  direction = outbound;
  status = queued;
  verification_result = none;
  body = none;
  status_code = none;
  carried_snapshot = false;
  carried_object_snapshot = false;
  error = none;
  completed = none;
}

abbrev sent_at_once : Settlement
sent_at_once = record {
  activity_iri = 7 ∷ [];
  inbox_url = 8 ∷ [];
  status = was_sent;
  status_code = some 202;
  error = none;
  response_body = none;
  attempted = true;
  id = none;
}

abbrev no_delivery : Store
no_delivery = record {
  actors = record { id = 1; instance_id = 5; is_local = true } ∷ [];
  resources = record { id = 20; iri = 7 ∷ []; kind = activity } ∷ [];
  activities = record { id = 20; document = text (9 ∷ []) } ∷ [];
  objects = [];
  revisions =
      record {
        id = 21;
        resource_id = 20;
        sequence = 1;
        kind = snapshot;
        document = some (text (9 ∷ []));
      }
      ∷ [];
  deliveries = [];
  attempts = [];
  delivery_actors = [];
  collections = [];
  receipts = [];
}

abbrev waiting : Store
waiting = record no_delivery { deliveries = departure ∷ [] }

no_delivery-IsValid : IsValid no_delivery
no_delivery-IsValid = record { keyed = tt; rows = λ id d e. cc; attempts = tt }

waiting-IsValid : IsValid waiting
unfolding satisfies_checks
waiting-IsValid = record {
  keyed = (refl, tt);
  rows =
      EachRow-insert IsRow departure [] (record { checked = refl; carried = λ e. cc })
        (λ id d e. cc);
  attempts = tt;
}

-- The activity is removed and stored again as another one before the delivery is linked once more.
abbrev no_activity : Tables
no_activity = record {
  actors = no_delivery.actors;
  resources = [];
  activities = [];
  objects = [];
  revisions = no_delivery.revisions;
}

abbrev another_activity : Tables
another_activity = record no_activity {
  resources = record { id = 25; iri = 7 ∷ []; kind = activity } ∷ [];
  activities = record { id = 25; document = text (8 ∷ []) } ∷ [];
}

abbrev changes : List Change
changes =
    called (
      inbound_arrived 30 (1 ∷ []) (record { actor_id = 1; via_collection_iri = some (3 ∷ []) } ∷ [])
        arrival)
    ∷ called (activity_stored 30)
    ∷ called (listener_ran 30)
    ∷ tables_changed no_activity
    ∷ tables_changed another_activity
    ∷ called (activity_stored 30)
    ∷ called (object_fetched 30 (some null))
    ∷ called (outbound_started 32 departure)
    ∷ called (outbound_ended sent_at_once 200 40)
    ∷ []

run-IsValid_example : IsValid (run same_value no_delivery changes)
run-IsValid_example = run-IsValid same_value no_delivery changes no_delivery-IsValid

run-Lasts_example :
    HasLasted
      (keep_actor changes)
      (keep_activity changes)
      departure
      (lookup 31 (run same_value waiting changes).deliveries)
run-Lasts_example = run-Lasts same_value waiting changes 31 departure waiting-IsValid refl

settle_outbound-Settles_example :
    (r : Store × Bool) × (settle_outbound waiting sent_at_once 200 40 ≡ ok r)
    × Settles waiting sent_at_once 200 40 r
settle_outbound-Settles_example =
    settle_outbound-Settles waiting sent_at_once 200 40 waiting-IsValid
      (record { code = refl; failure = refl })

inbound_actor_rows-IsMerged_example :
    IsMerged
      (some 1)
      (record { actor_id = 2; via_collection_iri = none } ∷ [])
      (inbound_actor_rows (some 1) (record { actor_id = 2; via_collection_iri = none } ∷ []))
inbound_actor_rows-IsMerged_example =
    inbound_actor_rows-IsMerged (some 1) (record { actor_id = 2; via_collection_iri = none } ∷ [])

abbrev recorded : Store
recorded = record no_delivery {
  deliveries =
      record arrival { id = 30; carried_snapshot = false; carried_object_snapshot = false } ∷ [];
}

recorded-IsValid : IsValid recorded
unfolding satisfies_checks
recorded-IsValid = record {
  keyed = (refl, tt);
  rows =
      EachRow-insert IsRow
        (record arrival { id = 30; carried_snapshot = false; carried_object_snapshot = false }) []
        (record { checked = refl; carried = λ e. cc }) (λ id d e. cc);
  attempts = tt;
}

link_inbound_activity-Links_example :
    Links same_value recorded 30 (link_inbound_activity same_value recorded 30)
link_inbound_activity-Links_example =
    link_inbound_activity-Links same_value recorded 30 recorded-IsValid

-- The delivery is linked to the activity that it carried.
links_recorded : (link_inbound_activity same_value recorded 30).1 ≡ true
unfolding link_inbound_activity may_link same_codes
links_recorded = refl

abbrev arrived : Delivery
arrived = record arrival { id = 30; activity_id = some 20 }

abbrev after_link : Store
after_link = record no_delivery { deliveries = arrived ∷ [] }

abbrev note_activity : Activity
note_activity = record { id = 20; document = text (9 ∷ []) }

after_link-OneFirst : OneFirst after_link
after_link-OneFirst r v w h k = same v w h.stored k.stored
  where
    same : (v w : Snapshot) → Among v after_link.revisions → Among w after_link.revisions → v ≡ w
    same v w (inl e) (inl g) = e ∙ sym g
    same v w (inr n) k = absurd n
    same v w (inl e) (inr n) = absurd n

decide_carried-receipts_example :
    ((r : Receipt)
      → Among r (receipts_of 30 (decide_carried same_value after_link 30).receipts)
        ↔ IsEvidence same_value after_link arrived note_activity r)
    × (without_receipts 30 (decide_carried same_value after_link 30).receipts
        ≡ without_receipts 30 after_link.receipts)
decide_carried-receipts_example =
    decide_carried-receipts same_value after_link arrived note_activity after_link-OneFirst refl
      refl refl

abbrev link_of : Option Delivery → Option ℕ
link_of none = none
link_of (some d) = d.activity_id

-- The delivery is linked to the activity that was stored in place of the first.
relinks : link_of (lookup 30 (run same_value no_delivery changes).deliveries) ≡ some 25
unfolding run apply perform record_inbound record_outbound receive_inbound link_inbound_activity
    record_fetched_object settle_outbound insert_delivery check_local_actors inbound_actor_rows
    set_rows set_row satisfies_checks jsonb may_link decide_carried carries with_tables same_codes
    storable_json stored_object latest awaits receipts_for carries_object storable_text
relinks = refl

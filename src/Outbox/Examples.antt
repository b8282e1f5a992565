-- ===== src/Outbox/Examples.antt =====
-- A queued delivery whose worker gives up after an error, one sent at once, and three recipients.
use drfed.Common.{ℕ, ◌≡◌, refl, true, false, none, some, List, [], ◌∷◌, All}
use drfed.Common.Result.{ok}
use drfed.Revision.{Uuid, Instant}
use drfed.Delivery.{outbound, queued, Delivery, Store}
use drfed.Delivery.Record.{satisfies_checks, insert_delivery, record_outbound, check_local_actors}
use drfed.Delivery.Rows.{EachRow-insert}
use drfed.Delivery.Valid.{IsRow, IsValid}
use drfed.Outbox.{
  Raised, send_activity_error, OutboxMessage, Report, failed_attempt, gave_up_http, threw,
  handle_outbox, failure_of,
}
use drfed.Outbox.Recipients.{Recipient, group_recipients}
use drfed.Outbox.Deliver.{deliver_target}
use drfed.Common.Text.{same_codes}
use drfed.Delivery.Storable.{jsonb}
use drfed.Outbox.Settlements.{Waits, Ended, Reported}
use drfed.Outbox.Attempts.{ended_status, ended_error, added_errors}
use drfed.Outbox.Endings.{handle_outbox-Ended}
use drfed.Outbox.Grouped.{AreGroups, is_deliverable, reaches}
use drfed.Outbox.Grouping.{group_recipients-AreGroups}
use drfed.Outbox.Delivered.{delivered_as, attempted_as, deliver_target-Ended}

abbrev departure : Delivery
departure = record {
  id = 31;
  instance_id = 5;
  actor_id = none;
  direction = outbound;
  status = queued;
  verification_mechanism = none;
  verification_result = none;
  type = none;
  types = [];
  activity_iri = some (7 ∷ []);
  activity_id = none;
  carried_snapshot = false;
  fetched_object = none;
  carried_object_snapshot = false;
  object_type = none;
  object_iri = none;
  signed_key_iri = none;
  verification_key_id = none;
  remote_actor_iri = none;
  remote_host = none;
  inbox_url = 8 ∷ [];
  request_url = none;
  headers = none;
  body = none;
  status_code = none;
  response_body = none;
  error = none;
  payload = none;
  recipient_iris = [];
  created = 100;
  completed = none;
}

abbrev empty_store : Store
empty_store = record {
  actors = [];
  resources = [];
  activities = [];
  objects = [];
  revisions = [];
  deliveries = [];
  attempts = [];
  delivery_actors = [];
  collections = [];
  receipts = [];
}

abbrev waiting : Store
waiting = record empty_store { deliveries = departure ∷ [] }

empty_store-IsValid : IsValid empty_store
empty_store-IsValid = record { keyed = tt; rows = λ id d e. cc; attempts = tt }

waiting-IsValid : IsValid waiting
unfolding satisfies_checks
waiting-IsValid = record {
  keyed = (refl, tt);
  rows =
      EachRow-insert IsRow departure [] (record { checked = refl; carried = λ e. cc })
        (λ id d e. cc);
  attempts = tt;
}

abbrev clock : ℕ → Instant × Uuid
clock n = (200, n)

abbrev refusal : Raised
refusal = send_activity_error 410 (6 ∷ []) none

abbrev gone : List Report
gone = failed_attempt refusal ∷ gave_up_http refusal ∷ []

abbrev message : OutboxMessage
message = record { activity_id = some (7 ∷ []); inbox = 8 ∷ []; delivery_id = some 31 }

departure-Waits : Waits (7 ∷ []) (8 ∷ []) departure
unfolding same_codes
departure-Waits = record { outward = refl; activity = refl; inbox = refl; pending = refl }

handle_outbox-Ended_example :
    Reported waiting
      (handle_outbox clock waiting message gone (threw refusal))
      31
      (ended_status false (some (6 ∷ [])) (some (6 ∷ [])) false queued)
      (ended_error false (some (6 ∷ [])) (some (6 ∷ [])) none)
      (added_errors false (some (6 ∷ [])))
unfolding failure_of
handle_outbox-Ended_example =
    handle_outbox-Ended clock waiting (7 ∷ []) (8 ∷ []) 31 gone (threw refusal) departure
      waiting-IsValid tt refl departure-Waits

recorded : record_outbound empty_store 31 departure ≡ ok (waiting, departure)
unfolding record_outbound insert_delivery check_local_actors satisfies_checks jsonb
recorded = refl

deliver_target-Ended_example :
    Ended empty_store
      (deliver_target
        (200, 1)
        31
        true
        (7 ∷ [])
        empty_store
        (record {
          inbox_url = 8 ∷ [];
          entry = some departure;
          handled = threw refusal;
          enqueued = false;
        }))
      31
      (delivered_as true false (8 ∷ []) (threw refusal))
      (attempted_as true (8 ∷ []) (threw refusal))
deliver_target-Ended_example =
    deliver_target-Ended (200, 1) 31 true false (7 ∷ []) (8 ∷ []) empty_store waiting departure
      departure (threw refusal) empty_store-IsValid refl refl tt recorded

abbrev bob : Recipient
bob = record { iri = some (1 ∷ []); inbox = some (8 ∷ []) }

abbrev nowhere : Recipient
nowhere = record { iri = some (2 ∷ []); inbox = none }

group_recipients-AreGroups_example :
    AreGroups [] none (group_recipients [] (bob ∷ nowhere ∷ bob ∷ []) none)
    × All
        (λ (r : Recipient).
          is_deliverable [] none r.iri r.inbox ≡ true
          → reaches r.iri r.inbox (group_recipients [] (bob ∷ nowhere ∷ bob ∷ []) none) ≡ true)
        (bob ∷ nowhere ∷ bob ∷ [])
group_recipients-AreGroups_example = group_recipients-AreGroups [] (bob ∷ nowhere ∷ bob ∷ []) none

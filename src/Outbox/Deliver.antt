-- ===== src/Outbox/Deliver.antt =====
-- packages/federation/src/activity-delivery/outbound.ts: `deliverActivity`. The deliveries to the inboxes
-- run side by side, each on a row of its own; here one follows the other. What describes an activity,
-- and what sends it, are arguments.
use drfed.Common.{ℕ, ◌+◌, Bool, true, false, Option, none, some, List, [], ◌∷◌, if◌then◌else◌}
use drfed.Common.Result.{Result, ok, err}
use drfed.Common.Text.{codes}
use drfed.Revision.{Uuid, Instant}
use drfed.Delivery.{Text, Delivery, Store, DeliveryError}
use drfed.Delivery.Record.{record_outbound}
use drfed.Delivery.Settle.{has_failed, for_good, settle_outbound}
use drfed.Outbox.{
  Raised, failure_of, Ending, sent_ending, settlement_for, go_on, Handled, returned, threw,
  reports_sent, delivered_status,
}
use drfed.Outbox.Recipients.{Recipient, Groups, group_recipients}

-- What happens at one inbox: the entry to record, or none where the activity could not be described;
-- what the sending came to; and whether a message was enqueued for it.
pub record Target : Type 0 where
  pub inbox_url : Text
  pub entry : Option Delivery
  pub handled : Handled
  pub enqueued : Bool

abbrev pub failed_ending : Raised → Ending
failed_ending e = record {
  status = has_failed;
  status_code = (failure_of e).status_code;
  error = some (failure_of e).error;
  response_body = (failure_of e).response_body;
  attempted = true;
}

-- `undelivered`
abbrev pub undelivered : Ending
undelivered = record {
  status = for_good;
  status_code = none;
  error = some (codes "Fedify made no delivery to the inbox.");
  response_body = none;
  attempted = false;
}

-- How the delivery settles here; none where the queue will settle it.
unfoldable pub ending_of : Bool → Bool → Text → Handled → Option Ending
ending_of synchronous enqueued url (threw e) = some (failed_ending e)
ending_of true enqueued url (returned spans outcomes responses) =
    some
      (if reports_sent spans url then sent_ending (delivered_status responses url) else undelivered)
ending_of false true url (returned spans outcomes responses) = none
ending_of false false url (returned spans outcomes responses) = some undelivered

-- `settle`, whose errors are logged.
abbrev pub settle_row_of : (Instant × Uuid) → Text → Text → Store → Delivery → Option Ending → Store
settle_row_of (now, k) iri url s row none = s
settle_row_of (now, k) iri url s row (some e) =
    go_on (λ t. t) s (settle_outbound s (settlement_for iri url (some row.id) e) now k)

-- The row of a delivery that was recorded; an error is logged, and the activity is sent all the same.
abbrev pub settle_recorded :
    (Instant × Uuid)
    → Bool
    → Text
    → Target
    → Store
    → Result DeliveryError (Store × Delivery)
    → Store
settle_recorded fresh synchronous iri t s (err e) = s
settle_recorded fresh synchronous iri t s (ok (s', row)) =
    settle_row_of fresh iri t.inbox_url s' row
      (ending_of synchronous t.enqueued t.inbox_url t.handled)

abbrev pub deliver_entry :
    (Instant × Uuid) → Uuid → Bool → Text → Target → Store → Option Delivery → Store
deliver_entry fresh id synchronous iri t s none = s
deliver_entry fresh id synchronous iri t s (some entry) =
    settle_recorded fresh synchronous iri t s (record_outbound s id entry)

-- The body of the loop over the targets.
unfoldable pub deliver_target : (Instant × Uuid) → Uuid → Bool → Text → Store → Target → Store
deliver_target fresh id synchronous iri s t = deliver_entry fresh id synchronous iri t s t.entry

unfoldable pub deliver_targets :
    (ℕ → Instant × Uuid × Uuid) → ℕ → Bool → Text → Store → List Target → Store
deliver_targets fresh n synchronous iri s [] = s
deliver_targets fresh n synchronous iri s (t ∷ ts) =
    let (now, k, id) = fresh n in
    deliver_targets fresh (n + 1) synchronous iri (deliver_target (now, k) id synchronous iri s t)
      ts

-- `results.find((result) => result.status === "rejected")`
abbrev pub failure_of_handled : Handled → Option Raised
failure_of_handled (returned spans outcomes responses) = none
failure_of_handled (threw e) = some e

abbrev pub or_first : Option Raised → Option Raised → Option Raised
or_first (some e) later = some e
or_first none later = later

unfoldable pub first_failure : List Target → Option Raised
first_failure [] = none
first_failure (t ∷ ts) = or_first (failure_of_handled t.handled) (first_failure ts)

pub data Delivering : Type 0 where
  no_activity_id no_local_sender : Delivering
  all_settled : Store → Delivering
  rejected : Store → Raised → Delivering

abbrev pub outcome_of : Store → Option Raised → Delivering
outcome_of s none = all_settled s
outcome_of s (some e) = rejected s e

abbrev pub targets_of : (Text → List Recipient → Target) → Groups → List Target
targets_of at [] = []
targets_of at ((url, group) ∷ groups) = at url group ∷ targets_of at groups

abbrev pub deliver_known :
    (ℕ → Instant × Uuid × Uuid) → Bool → Store → Text → Bool → List Target → Delivering
deliver_known fresh synchronous s iri false ts = no_local_sender
deliver_known fresh synchronous s iri true ts =
    outcome_of (deliver_targets fresh 0 synchronous iri s ts) (first_failure ts)

-- `deliverActivity`, with what happens at each inbox, and whether a local sender was found.
unfoldable pub deliver_activity :
    Text
    → (ℕ → Instant × Uuid × Uuid)
    → Bool
    → Store
    → Option Text
    → Bool
    → Option Text
    → List Recipient
    → (Text → List Recipient → Target)
    → Delivering
deliver_activity public_iri fresh synchronous s none found sender recipients at = no_activity_id
deliver_activity public_iri fresh synchronous s (some iri) found sender recipients at =
    deliver_known fresh synchronous s iri found
      (targets_of at (group_recipients public_iri recipients sender))

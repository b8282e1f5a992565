-- ===== src/Outbox.antt =====
-- packages/federation/src/activity-delivery/queue.ts: what a queue worker observed of one attempt, and
-- how the attempt settles its delivery. `Thrown` is a value that was thrown, with its causes; spans,
-- responses and outcomes are what `trackRequest` returns.
pub mod Recipients
pub mod Tags
pub mod Deliver
pub mod Settlements
pub mod Attempts
pub mod Known
pub mod Endings
pub mod Grouped
pub mod Grouping
pub mod Delivered
mod Examples
use drfed.Common.{
  ℕ, ◌+◌, String, Bool, true, false, ◌&&◌, Option, none, some, List, [], ◌∷◌, ◌++◌, ltb, leb, any,
  is_some, str_eq, if◌then◌else◌,
}
use drfed.Common.Result.{Result, ok, err}
use drfed.Common.Text.{codes, same_codes}
use drfed.Revision.{Uuid, Instant}
use drfed.Delivery.{Text, Store}
use drfed.Delivery.Settle.{
  Outcome, was_sent, has_failed, for_good, given_up, Settlement, settle_outbound,
}

-- `Failure`
pub record Failure : Type 0 where
  pub status_code : Option ℕ
  pub error : Text
  pub response_body : Option Text

-- `String(error)`, and the cause of an error that has one.
pub data Thrown : Type 0 where
  plain : Text → Thrown
  caused : Text → Thrown → Thrown

pub data Raised : Type 0 where
  send_activity_error : ℕ → Text → Option Text → Raised
  other_error : Thrown → Raised

abbrev pub max_causes : ℕ
max_causes = 3

-- `describeError`
unfoldable pub describe_error : Thrown → ℕ → Text
describe_error (plain t) depth = t
describe_error (caused t c) depth =
    let cause = describe_error c (depth + 1) in
    if ltb depth max_causes then t ++ codes " (cause: " ++ cause ++ codes ")" else t

-- `failureOf`
unfoldable pub failure_of : Raised → Failure
failure_of (send_activity_error code message body) = record {
  status_code = if leb 100 code && leb code 599 then some code else none;
  error = message;
  response_body = body;
}
failure_of (other_error e) = record {
  status_code = none;
  error = describe_error e 0;
  response_body = none;
}

-- `QueuedAttempt`
pub record QueuedAttempt : Type 0 where
  pub activity_iri : Text
  pub inbox_url : Text
  pub delivery_id : Option Uuid
  pub failure : Option Failure
  pub permanent : Option Failure
  pub sent : Bool
  pub status_code : Option ℕ
  pub outcomes : List String

-- The settlement of queue.ts: how a delivery settles, apart from which delivery it is.
pub record Ending : Type 0 where
  pub status : Outcome
  pub status_code : Option ℕ
  pub error : Option Text
  pub response_body : Option Text
  pub attempted : Bool

abbrev pub was_abandoned : List String → Bool
was_abandoned outcomes = any (λ o. str_eq o "abandoned") outcomes

abbrev pub failing : Option Failure → List String → Outcome
failing none outcomes = if was_abandoned outcomes then given_up else has_failed
failing (some permanent) outcomes = has_failed

abbrev pub failed_endings : Option Failure → Outcome → List Ending
failed_endings none status = []
failed_endings (some f) status =
    record {
      status = status;
      status_code = f.status_code;
      error = some f.error;
      response_body = f.response_body;
      attempted = true;
    }
    ∷ []

abbrev pub permanent_endings : Option Failure → List Ending
permanent_endings none = []
permanent_endings (some f) =
    record {
      status = for_good;
      status_code = f.status_code;
      error = some f.error;
      response_body = f.response_body;
      attempted = false;
    }
    ∷ []

abbrev pub sent_ending : Option ℕ → Ending
sent_ending code = record {
  status = was_sent;
  status_code = code;
  error = none;
  response_body = none;
  attempted = true;
}

abbrev pub endings : Bool → Option Failure → Option Failure → List String → Option ℕ → List Ending
endings true failure permanent outcomes code = sent_ending code ∷ []
endings false failure permanent outcomes code =
    failed_endings failure (failing permanent outcomes) ++ permanent_endings permanent

-- `queuedSettlements`
unfoldable pub queued_settlements : QueuedAttempt → List Ending
queued_settlements a = endings a.sent a.failure a.permanent a.outcomes a.status_code

-- `ObservedSpan` and `ObservedResponse`; an event has the inbox that its attributes name.
pub record SpanEvent : Type 0 where
  pub name : String
  pub inbox_url : Option Text

pub record Span : Type 0 where
  pub name : String
  pub events : List SpanEvent

pub record Response : Type 0 where
  pub url : Text
  pub status : ℕ
  pub locations : List Text

abbrev pub is_url : Option Text → Text → Bool
is_url none t = false
is_url (some u) t = same_codes u t

-- `reportsSent`
unfoldable pub reports_sent : List Span → Text → Bool
reports_sent spans inbox_url =
    any
      (λ (span : Span).
        str_eq span.name "activitypub.send_activity"
        && any
            (λ (event : SpanEvent).
              str_eq event.name "activitypub.activity.sent" && is_url event.inbox_url inbox_url)
            span.events)
      spans

-- `redirection`
abbrev pub redirection : Response → List Text
redirection r = if leb 300 r.status && ltb r.status 400 then r.locations else []

abbrev pub or_urls : List Text → List Text → List Text
or_urls [] urls = urls
or_urls (l ∷ ls) urls = l ∷ ls

-- One round of the `reduce`: the URLs of the hop, and the status of its last response.
abbrev pub follow : List Text → Option ℕ → Response → List Text × Option ℕ
follow urls status r =
    if any (λ u. same_codes u r.url) urls
    then (or_urls (redirection r) urls, some r.status)
    else (urls, status)

unfoldable pub follow_all : List Text → Option ℕ → List Response → Option ℕ
follow_all urls status [] = status
follow_all urls status (r ∷ rs) =
    let (urls', status') = follow urls status r in follow_all urls' status' rs

-- `deliveredStatus`
unfoldable pub delivered_status : List Response → Text → Option ℕ
delivered_status responses inbox_url = follow_all (inbox_url ∷ []) none responses

-- An ending of the delivery of an activity to an inbox.
abbrev pub settlement_for : Text → Text → Option Uuid → Ending → Settlement
settlement_for iri url id e = record {
  activity_iri = iri;
  inbox_url = url;
  status = e.status;
  status_code = e.status_code;
  error = e.error;
  response_body = e.response_body;
  attempted = e.attempted;
  id = id;
}

abbrev pub settlement_of : QueuedAttempt → Option Uuid → Ending → Settlement
settlement_of a id e = settlement_for a.activity_iri a.inbox_url id e

abbrev pub go_on {ℓ} : {E : Type ℓ} → (Store → Store) → Store → Result E (Store × Bool) → Store
go_on more s (ok (s', b)) = more s'
go_on more s (err e) = s

-- The settlements in order; an error, which is logged, leaves the ones before it.
unfoldable pub settle_each : (ℕ → Instant × Uuid) → ℕ → Store → List Settlement → Store
settle_each fresh n s [] = s
settle_each fresh n s (e ∷ es) =
    go_on (λ t. settle_each fresh (n + 1) t es) s (settle_outbound s e (fresh n).0 (fresh n).1)

abbrev pub map_settlements : QueuedAttempt → Option Uuid → List Ending → List Settlement
map_settlements a id [] = []
map_settlements a id (e ∷ es) = settlement_of a id e ∷ map_settlements a id es

-- `settleQueued`
unfoldable pub settle_queued : (ℕ → Instant × Uuid) → Store → QueuedAttempt → Option Uuid → Store
settle_queued fresh s a id = settle_each fresh 0 s (map_settlements a id (queued_settlements a))

-- An outbox message with the delivery that it names.
pub record OutboxMessage : Type 0 where
  pub activity_id : Option Text
  pub inbox : Text
  pub delivery_id : Option Uuid

-- What the worker reports while it handles a message.
pub data Report : Type 0 where
  failed_attempt : Raised → Report
  gave_up_http : Raised → Report
  gave_up : Text → Report

pub data Handled : Type 0 where
  returned : List Span → List String → List Response → Handled
  threw : Raised → Handled

abbrev pub new_attempt : Text → OutboxMessage → QueuedAttempt
new_attempt iri m = record {
  activity_iri = iri;
  inbox_url = m.inbox;
  delivery_id = m.delivery_id;
  failure = none;
  permanent = none;
  sent = false;
  status_code = none;
  outcomes = [];
}

-- `reportOutboxError` and `reportPermanentFailure`
unfoldable pub report : Report → QueuedAttempt → QueuedAttempt
report (failed_attempt e) a = record a { failure = some (failure_of e) }
report (gave_up_http e) a = record a { permanent = some (failure_of e) }
report (gave_up message) a = record a {
  permanent = some (record { status_code = none; error = message; response_body = none });
}

unfoldable pub report_all : List Report → QueuedAttempt → QueuedAttempt
report_all [] a = a
report_all (r ∷ rs) a = report_all rs (report r a)

-- `attempt.failure ??= failureOf(error)`
abbrev pub or_failure : Option Failure → Raised → Option Failure
or_failure (some f) e = some f
or_failure none e = some (failure_of e)

unfoldable pub finish : Handled → QueuedAttempt → QueuedAttempt
finish (returned spans outcomes responses) a = record a {
  sent = reports_sent spans a.inbox_url;
  status_code = delivered_status responses a.inbox_url;
  outcomes = outcomes;
}
finish (threw e) a = record a { failure = or_failure a.failure e }

abbrev pub handle_named :
    (ℕ → Instant × Uuid) → Store → OutboxMessage → Option Text → List Report → Handled → Store
handle_named fresh s m none reports h = s
handle_named fresh s m (some iri) reports h =
    settle_queued fresh s (finish h (report_all reports (new_attempt iri m))) m.delivery_id

-- `handle` of an outbox message, whose handler reports and then returns or throws.
unfoldable pub handle_outbox :
    (ℕ → Instant × Uuid) → Store → OutboxMessage → List Report → Handled → Store
handle_outbox fresh s m = handle_named fresh s m m.activity_id

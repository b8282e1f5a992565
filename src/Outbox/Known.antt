-- ===== src/Outbox/Known.antt =====
-- packages/federation/src/activity-delivery/queue.ts: what a queue worker knows of an attempt when its
-- handler is done.
use drfed.Common.{◌≡◌, refl, sym, ap, ◌∙◌, last?, Bool, false, Option, none, some, List, [], ◌∷◌}
use drfed.Delivery.{Text, Delivery}
use drfed.Outbox.{
  Failure, Raised, failure_of, QueuedAttempt, OutboxMessage, Report, failed_attempt, gave_up_http,
  gave_up, Handled, returned, threw, new_attempt, report, report_all, or_failure, finish,
  reports_sent, was_abandoned,
}
use drfed.Outbox.Settlements.{Waits}
use drfed.Outbox.Attempts.{error_of}

-- The attempt keeps what the message names.
pub record Names (iri url : Text) (a : QueuedAttempt) : Type 0 where
  pub activity : a.activity_iri ≡ iri
  pub inbox : a.inbox_url ≡ url

report-Names :
    (iri url : Text) (r : Report) (a : QueuedAttempt) → Names iri url a → Names iri url (report r a)
unfolding report
report-Names iri url (failed_attempt e) a h = record { activity = h.activity; inbox = h.inbox }
report-Names iri url (gave_up_http e) a h = record { activity = h.activity; inbox = h.inbox }
report-Names iri url (gave_up message) a h = record { activity = h.activity; inbox = h.inbox }

pub report_all-Names :
    (iri url : Text) (rs : List Report) (a : QueuedAttempt)
    → Names iri url a
    → Names iri url (report_all rs a)
unfolding report_all
report_all-Names iri url [] a h = h
report_all-Names iri url (r ∷ rs) a h =
    report_all-Names iri url rs (report r a) (report-Names iri url r a h)

pub finish-Names :
    (iri url : Text) (h : Handled) (a : QueuedAttempt)
    → Names iri url a
    → Names iri url (finish h a)
unfolding finish
finish-Names iri url (returned spans outcomes responses) a n = record {
  activity = n.activity;
  inbox = n.inbox;
}
finish-Names iri url (threw e) a n = record { activity = n.activity; inbox = n.inbox }

pub Waits-Names :
    (iri url : Text) (d : Delivery) (a : QueuedAttempt)
    → Names iri url a
    → Waits iri url d
    → Waits a.activity_iri a.inbox_url d
Waits-Names iri url d a n w = rw (n.activity, n.inbox) w

-- The errors of the attempts that the worker reported, and those that it gave up with, in order.
abbrev pub attempt_errors : List Report → List Text
attempt_errors [] = []
attempt_errors (failed_attempt e ∷ rs) = (failure_of e).error ∷ attempt_errors rs
attempt_errors (gave_up_http e ∷ rs) = attempt_errors rs
attempt_errors (gave_up message ∷ rs) = attempt_errors rs

abbrev pub final_errors : List Report → List Text
final_errors [] = []
final_errors (failed_attempt e ∷ rs) = final_errors rs
final_errors (gave_up_http e ∷ rs) = (failure_of e).error ∷ final_errors rs
final_errors (gave_up message ∷ rs) = message ∷ final_errors rs

abbrev or_else {ℓ} : {A : Type ℓ} → Option A → Option A → Option A
or_else none b = b
or_else (some a) b = some a

-- The error of the attempt: the last one that was reported, or else the one that was thrown.
abbrev pub thrown_error : Handled → Option Text
thrown_error (returned spans outcomes responses) = none
thrown_error (threw e) = some (failure_of e).error

abbrev pub attempt_error : List Report → Handled → Option Text
attempt_error rs h = or_else (last? (attempt_errors rs)) (thrown_error h)

-- Whether the activity was sent to the inbox, and whether the attempt was abandoned.
abbrev pub went_out : Handled → Text → Bool
went_out (returned spans outcomes responses) url = reports_sent spans url
went_out (threw e) url = false

abbrev pub was_dropped : Handled → Bool
was_dropped (returned spans outcomes responses) = was_abandoned outcomes
was_dropped (threw e) = false

or_else-last? :
    (t : Text) (ts : List Text) (o : Option Text)
    → or_else (last? (t ∷ ts)) o ≡ or_else (last? ts) (some t)
or_else-last? t [] o = refl
or_else-last? t (u ∷ ts) o = or_else-last? u ts o ∙ sym (or_else-last? u ts (some t))

report_all-failure :
    (rs : List Report) (a : QueuedAttempt)
    → error_of (report_all rs a).failure ≡ or_else (last? (attempt_errors rs)) (error_of a.failure)
unfolding report_all report
report_all-failure [] a = refl
report_all-failure (failed_attempt e ∷ rs) a =
    report_all-failure rs (report (failed_attempt e) a)
    ∙ sym (or_else-last? (failure_of e).error (attempt_errors rs) (error_of a.failure))
report_all-failure (gave_up_http e ∷ rs) a = report_all-failure rs (report (gave_up_http e) a)
report_all-failure (gave_up message ∷ rs) a = report_all-failure rs (report (gave_up message) a)

report_all-permanent :
    (rs : List Report) (a : QueuedAttempt)
    → error_of (report_all rs a).permanent
      ≡ or_else (last? (final_errors rs)) (error_of a.permanent)
unfolding report_all report
report_all-permanent [] a = refl
report_all-permanent (failed_attempt e ∷ rs) a =
    report_all-permanent rs (report (failed_attempt e) a)
report_all-permanent (gave_up_http e ∷ rs) a =
    report_all-permanent rs (report (gave_up_http e) a)
    ∙ sym (or_else-last? (failure_of e).error (final_errors rs) (error_of a.permanent))
report_all-permanent (gave_up message ∷ rs) a =
    report_all-permanent rs (report (gave_up message) a)
    ∙ sym (or_else-last? message (final_errors rs) (error_of a.permanent))

-- A report leaves alone what the handler tells when it returns.
report_all-untold :
    (rs : List Report) (a : QueuedAttempt)
    → ((report_all rs a).sent ≡ a.sent) × ((report_all rs a).outcomes ≡ a.outcomes)
unfolding report_all report
report_all-untold [] a = (refl, refl)
report_all-untold (failed_attempt e ∷ rs) a = report_all-untold rs (report (failed_attempt e) a)
report_all-untold (gave_up_http e ∷ rs) a = report_all-untold rs (report (gave_up_http e) a)
report_all-untold (gave_up message ∷ rs) a = report_all-untold rs (report (gave_up message) a)

error_of-or_failure :
    (o : Option Failure) (e : Raised)
    → error_of (or_failure o e) ≡ or_else (error_of o) (some (failure_of e).error)
error_of-or_failure none e = refl
error_of-or_failure (some f) e = refl

or_else-none : (o : Option Text) → or_else o none ≡ o
or_else-none none = refl
or_else-none (some t) = refl

-- What is known of the attempt when its handler is done.
pub record Knows (rs : List Report) (h : Handled) (url : Text) (a : QueuedAttempt) : Type 0 where
  pub sent : a.sent ≡ went_out h url
  pub failure : error_of a.failure ≡ attempt_error rs h
  pub permanent : error_of a.permanent ≡ last? (final_errors rs)
  pub dropped : was_abandoned a.outcomes ≡ was_dropped h

pub finish-Knows :
    (rs : List Report) (h : Handled) (iri : Text) (m : OutboxMessage)
    → Knows rs h m.inbox (finish h (report_all rs (new_attempt iri m)))
unfolding finish
finish-Knows rs (returned spans outcomes responses) iri m =
    let first = new_attempt iri m in
    let same = report_all-Names iri m.inbox rs first (record { activity = refl; inbox = refl }) in
    record {
      sent = ap (reports_sent spans) same.inbox;
      failure = report_all-failure rs first;
      permanent = report_all-permanent rs first ∙ or_else-none (last? (final_errors rs));
      dropped = refl;
    }
finish-Knows rs (threw e) iri m =
    let first = new_attempt iri m in
    let (unsent, unmeasured) = report_all-untold rs first in
    record {
      sent = unsent;
      failure =
          error_of-or_failure (report_all rs first).failure e
          ∙ rw (report_all-failure rs first, or_else-none (last? (attempt_errors rs))) refl;
      permanent = report_all-permanent rs first ∙ or_else-none (last? (final_errors rs));
      dropped = ap was_abandoned unmeasured;
    }

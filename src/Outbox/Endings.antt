-- ===== src/Outbox/Endings.antt =====
-- packages/federation/src/activity-delivery/queue.ts: how the attempt of a queued message leaves the
-- delivery that the message names.
use drfed.Common.{
  ℕ, ◌≡◌, refl, last?, true, Option, none, some, List, [], ◌∷◌, arith, All, any, Bool-cases, inl,
  inr,
}
use drfed.Common.Text.{same_codes}
use drfed.Revision.{Uuid, Instant}
use drfed.Delivery.{Text, Delivery, Store}
use drfed.Delivery.Record.{is_status_code}
use drfed.Delivery.Rows.{lookup}
use drfed.Delivery.Valid.{IsValid}
use drfed.Outbox.{
  Failure, Raised, send_activity_error, other_error, failure_of, QueuedAttempt, Response, or_urls,
  redirection, follow_all, delivered_status, OutboxMessage, Report, failed_attempt, gave_up_http,
  gave_up, Handled, returned, threw, new_attempt, report, report_all, or_failure, finish,
  handle_outbox,
}
use drfed.Outbox.Settlements.{Waits, Reported}
use drfed.Outbox.Attempts.{
  ended_status, ended_error, added_errors, code_of, HasCodes, settle_queued-Reported,
}
use drfed.Outbox.Known.{
  report_all-Names, finish-Names, Waits-Names, finish-Knows, attempt_error, final_errors, went_out,
  was_dropped,
}

-- A failure keeps only a status code of HTTP.
pub failure_of-code : (e : Raised) → is_status_code (failure_of e).status_code ≡ true
unfolding failure_of
failure_of-code (send_activity_error code message body) = ground arith
failure_of-code (other_error e) = refl

report-HasCodes : (r : Report) (a : QueuedAttempt) → HasCodes a → HasCodes (report r a)
unfolding report
report-HasCodes (failed_attempt e) a h = record {
  failure = failure_of-code e;
  permanent = h.permanent;
  answer = h.answer;
}
report-HasCodes (gave_up_http e) a h = record {
  failure = h.failure;
  permanent = failure_of-code e;
  answer = h.answer;
}
report-HasCodes (gave_up message) a h = record {
  failure = h.failure;
  permanent = refl;
  answer = h.answer;
}

report_all-HasCodes :
    (rs : List Report) (a : QueuedAttempt) → HasCodes a → HasCodes (report_all rs a)
unfolding report_all
report_all-HasCodes [] a h = h
report_all-HasCodes (r ∷ rs) a h = report_all-HasCodes rs (report r a) (report-HasCodes r a h)

-- The remote server answered with status codes of HTTP.
abbrev pub AnswersWithCodes : Handled → Type 0
AnswersWithCodes (returned spans outcomes responses) =
    All (λ (r : Response). is_status_code (some r.status) ≡ true) responses
AnswersWithCodes (threw e) = Unit

pub follow_all-code :
    (urls : List Text) (status : Option ℕ) (rs : List Response)
    → is_status_code status ≡ true
    → All (λ (r : Response). is_status_code (some r.status) ≡ true) rs
    → is_status_code (follow_all urls status rs) ≡ true
unfolding follow_all
follow_all-code urls status [] h all = h
follow_all-code urls status (r ∷ rs) h all =
    elim (Bool-cases (any (λ u. same_codes u r.url) urls)) [
      | inl followed ↦
          rw followed
            (follow_all-code (or_urls (redirection r) urls) (some r.status) rs all.0 all.1)
      | inr skipped ↦ rw skipped (follow_all-code urls status rs h all.1)
    ]

or_failure-code :
    (o : Option Failure) (e : Raised)
    → is_status_code (code_of o) ≡ true
    → is_status_code (code_of (or_failure o e)) ≡ true
or_failure-code none e h = failure_of-code e
or_failure-code (some f) e h = h

finish-HasCodes :
    (h : Handled) (a : QueuedAttempt) → AnswersWithCodes h → HasCodes a → HasCodes (finish h a)
unfolding finish delivered_status
finish-HasCodes (returned spans outcomes responses) a all codes = record {
  failure = codes.failure;
  permanent = codes.permanent;
  answer = follow_all-code (a.inbox_url ∷ []) none responses refl all;
}
finish-HasCodes (threw e) a all codes = record {
  failure = or_failure-code a.failure e codes.failure;
  permanent = codes.permanent;
  answer = codes.answer;
}

-- A queued message that names a delivery which waits for it settles that delivery, and no worker error
-- is lost. The delivery is sent, without an error, when the sent event of its inbox was observed. Else,
-- when the worker gave it up, it is failed for good with the last error that it was given up with. Else
-- an attempt whose error was reported, the last one counting, or was thrown leaves it with that error,
-- abandoned when the attempt was measured as such and else failed. Else its status and its error stay as
-- they were. One attempt is added for a sent activity, without an error, and one for an error of the
-- attempt, with that error, also when the worker then gave up; else none. An error is stored with its
-- NUL characters replaced. The store stays valid. The remote server answered with status codes of HTTP.
pub handle_outbox-Ended :
    (fresh : ℕ → Instant × Uuid) (s : Store) (iri url : Text) (id : Uuid) (reports : List Report)
    (h : Handled) (d : Delivery)
    → IsValid s
    → AnswersWithCodes h
    → lookup id s.deliveries ≡ some d
    → Waits iri url d
    → let out = went_out h url in
      let error = attempt_error reports h in
      let final = last? (final_errors reports) in
      Reported s
        (handle_outbox fresh s
          (record { activity_id = some iri; inbox = url; delivery_id = some id })
          reports
          h)
        id
        (ended_status out error final (was_dropped h) d.status)
        (ended_error out error final d.error)
        (added_errors out error)
unfolding handle_outbox
handle_outbox-Ended fresh s iri url id reports h d valid codes row w =
    let m : OutboxMessage = record { activity_id = some iri; inbox = url; delivery_id = some id } in
    let first = new_attempt iri m in
    let told = report_all reports first in
    let known = finish-HasCodes h told codes (
      report_all-HasCodes reports first
        (record { failure = refl; permanent = refl; answer = refl })) in
    let same =
      finish-Names iri url h told
        (report_all-Names iri url reports first (record { activity = refl; inbox = refl })) in
    let k = finish-Knows reports h iri m in
    rw (← k.sent, ← k.failure, ← k.permanent, ← k.dropped)
      (settle_queued-Reported fresh (finish h told) id s d valid known row
        (Waits-Names iri url d _ same w))

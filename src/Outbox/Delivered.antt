-- ===== src/Outbox/Delivered.antt =====
-- packages/federation/src/activity-delivery/outbound.ts: what one delivery leaves of its row.
use mathlib.Core.Path.{subst}
use drfed.Common.{
  ℕ, ◌≡◌, refl, sym, ap, ◌∙◌, Bool, true, false, Option, none, some, [], ◌∷◌, arith, length,
  Bool-cases, inl, inr, if◌then◌else◌,
}
use drfed.Common.Result.{ok}
use drfed.Common.Text.{same_codes, same_codes_refl}
use drfed.Revision.{Uuid, Instant}
use drfed.Delivery.{Text, Delivery, Store, Status, queued, sent, failed, permanently_failed}
use drfed.Delivery.Record.{record_outbound, outbound_delivery, sender_rows, with_texts}
use drfed.Delivery.Settle.{status_of, is_iri, settle_row}
use drfed.Delivery.Rows.{lookup, lookup_self}
use drfed.Delivery.Passed.{insert_delivery-IsInserted, insert_delivery-returns}
use drfed.Delivery.Valid.{IsValid, insert_delivery-IsValid}
use drfed.Delivery.Settling.{FitsSchema}
use drfed.Outbox.{
  QueuedAttempt, Ending, settlement_for, settlement_of, new_attempt, Handled, returned, threw,
  reports_sent, delivered_status,
}
use drfed.Outbox.Deliver.{ending_of, settle_row_of, deliver_target}
use drfed.Outbox.Settlements.{Waits, Ended, counts, settle_outbound-named, settled-Settled}
use drfed.Outbox.Endings.{AnswersWithCodes, failure_of-code, follow_all-code}

-- The status that a delivery is left with.
abbrev pub delivered_as : Bool → Bool → Text → Handled → Status
delivered_as synchronous enqueued url (threw e) = failed
delivered_as true enqueued url (returned spans outcomes responses) =
    if reports_sent spans url then sent else permanently_failed
delivered_as false true url (returned spans outcomes responses) = queued
delivered_as false false url (returned spans outcomes responses) = permanently_failed

-- Its attempts so far.
abbrev pub attempted_as : Bool → Text → Handled → ℕ
attempted_as synchronous url (threw e) = 1
attempted_as true url (returned spans outcomes responses) = if reports_sent spans url then 1 else 0
attempted_as false url (returned spans outcomes responses) = 0

abbrev attempt_at : Text → Text → QueuedAttempt
attempt_at iri url =
    new_attempt iri (record { activity_id = some iri; inbox = url; delivery_id = none })

-- What `recordOutbound` leaves.
record IsRecorded (s s' : Store) (iri url : Text) (id : Uuid) (row : Delivery) : Type 0 where
  pub valid : IsValid s'
  pub found : lookup id s'.deliveries ≡ some row
  pub own : row.id ≡ id
  pub waits : Waits iri url row
  pub new : row.status ≡ queued
  pub counted : length s'.attempts ≡ length s.attempts

recorded-Waits :
    (iri url : Text) (id : Uuid) (entry : Delivery)
    → entry.activity_iri ≡ some iri
    → entry.inbox_url ≡ url
    → Waits iri url (with_texts (outbound_delivery id entry))
recorded-Waits iri url id entry named boxed = record {
  outward = refl;
  activity = ap (λ o. is_iri o iri) named ∙ same_codes_refl iri;
  inbox = ap (λ u. same_codes u url) boxed ∙ same_codes_refl url;
  pending = refl;
}

record_outbound-IsRecorded :
    (s s' : Store) (iri url : Text) (id : Uuid) (entry row : Delivery)
    → IsValid s
    → entry.activity_iri ≡ some iri
    → entry.inbox_url ≡ url
    → record_outbound s id entry ≡ ok (s', row)
    → IsRecorded s s' iri url id row
unfolding record_outbound
record_outbound-IsRecorded s s' iri url id entry row valid named boxed h =
    let x = outbound_delivery id entry in
    let links = sender_rows entry.actor_id in
    let i = insert_delivery-IsInserted s s' x row links h in
    let same = insert_delivery-returns s s' x row links h in
    record {
      valid = insert_delivery-IsValid s s' x row links refl h valid;
      found =
          ap (λ (t : Store). lookup id t.deliveries) i.outcome
          ∙ lookup_self (with_texts x) s.deliveries
          ∙ ap (λ y. some y) (sym same);
      own = ap (λ (y : Delivery). y.id) same;
      waits = subst (Waits iri url) (sym same) (recorded-Waits iri url id entry named boxed);
      new = ap (λ (y : Delivery). y.status) same;
      counted = ap (λ (t : Store). length t.attempts) i.outcome;
    }

abbrev status_after : Option Ending → Status
status_after none = queued
status_after (some e) = status_of e.status

abbrev attempts_after : Option Ending → ℕ
attempts_after none = 0
attempts_after (some e) = counts e.attempted

abbrev FitsAll : Text → Text → Uuid → Option Ending → Type 0
FitsAll iri url id none = Unit
FitsAll iri url id (some e) = FitsSchema (settlement_for iri url (some id) e)

settle_row_of-Ended :
    (fresh : Instant × Uuid) (s s' : Store) (iri url : Text) (id : Uuid) (row : Delivery)
    (o : Option Ending)
    → IsRecorded s s' iri url id row
    → FitsAll iri url id o
    → Ended s (settle_row_of fresh iri url s' row o) id (status_after o) (attempts_after o)
settle_row_of-Ended fresh s s' iri url id row none r fits = record {
  valid = r.valid;
  row = row;
  found = r.found;
  ended = r.new;
  counted = omega (arith, r.counted);
}
settle_row_of-Ended (now, k) s s' iri url id row (some e) r fits =
    let a = attempt_at iri url in
    let done = settle_outbound-named s' a e now k id row r.valid fits r.found r.waits in
    let after = settled-Settled s' a e now k id row r.valid fits r.found r.waits in
    rw (r.own, done)
      (record {
        valid = after.valid;
        row = settle_row (settlement_of a (some id) e) now row;
        found = after.found;
        ended = after.status;
        counted = omega (arith, after.counted, r.counted);
      })

ending_of-FitsAll :
    (iri url : Text) (id : Uuid) (synchronous enqueued : Bool) (h : Handled)
    → AnswersWithCodes h
    → FitsAll iri url id (ending_of synchronous enqueued url h)
unfolding ending_of delivered_status
ending_of-FitsAll iri url id synchronous enqueued (threw e) all = record {
  code = failure_of-code e;
  failure = refl;
}
ending_of-FitsAll iri url id true enqueued (returned spans outcomes responses) all =
    elim (Bool-cases (reports_sent spans url)) [
      | inl reported ↦
          rw reported
            (record { code = follow_all-code (url ∷ []) none responses refl all; failure = refl })
      | inr silent ↦ rw silent (record { code = refl; failure = refl })
    ]
ending_of-FitsAll iri url id false true (returned spans outcomes responses) all = tt
ending_of-FitsAll iri url id false false (returned spans outcomes responses) all = record {
  code = refl;
  failure = refl;
}

status_after-ending_of :
    (synchronous enqueued : Bool) (url : Text) (h : Handled)
    → (status_after (ending_of synchronous enqueued url h)
        ≡ delivered_as synchronous enqueued url h)
      × (attempts_after (ending_of synchronous enqueued url h) ≡ attempted_as synchronous url h)
unfolding ending_of
status_after-ending_of synchronous enqueued url (threw e) = (refl, refl)
status_after-ending_of true enqueued url (returned spans outcomes responses) =
    elim (Bool-cases (reports_sent spans url)) [
      | inl reported ↦ rw reported (refl, refl)
      | inr silent ↦ rw silent (refl, refl)
    ]
status_after-ending_of false true url (returned spans outcomes responses) = (refl, refl)
status_after-ending_of false false url (returned spans outcomes responses) = (refl, refl)

-- A delivery that was recorded is never left queued unless a queue has a message for it: without a
-- queue it is sent exactly when the sent event was observed, and permanently failed when the activity
-- was left unsent; with one it is permanently failed when no message was enqueued; and an error leaves
-- it failed. It keeps an attempt exactly when one was made, and the store stays valid.
pub deliver_target-Ended :
    (fresh : Instant × Uuid) (id : Uuid) (synchronous enqueued : Bool) (iri url : Text)
    (s s' : Store) (entry row : Delivery) (h : Handled)
    → IsValid s
    → entry.activity_iri ≡ some iri
    → entry.inbox_url ≡ url
    → AnswersWithCodes h
    → record_outbound s id entry ≡ ok (s', row)
    → Ended s
        (deliver_target fresh id synchronous iri s
          (record { inbox_url = url; entry = some entry; handled = h; enqueued = enqueued }))
        id
        (delivered_as synchronous enqueued url h)
        (attempted_as synchronous url h)
unfolding deliver_target
deliver_target-Ended fresh id synchronous enqueued iri url s s' entry row h valid named boxed codes
      done =
    let (status, attempts) = status_after-ending_of synchronous enqueued url h in
    rw (done, ← status, ← attempts)
      (settle_row_of-Ended fresh s s' iri url id row (ending_of synchronous enqueued url h)
        (record_outbound-IsRecorded s s' iri url id entry row valid named boxed done)
        (ending_of-FitsAll iri url id synchronous enqueued h codes))

-- ===== src/Outbox/Attempts.antt =====
-- packages/federation/src/activity-delivery/queue.ts: `settleQueued`, all settlements of one attempt.
use drfed.Common.{
  ℕ, ◌≡◌, refl, ◌∙◌, String, Bool, true, false, Option, none, some, List, [], ◌∷◌, if◌then◌else◌,
  inl, inr, Bool-cases,
}
use drfed.Revision.{Uuid, Instant}
use drfed.Delivery.{Text, Delivery, Status, sent, failed, permanently_failed, abandoned, Store}
use drfed.Delivery.Record.{is_status_code}
use drfed.Delivery.Settle.{has_failed, status_of, settle_row, settled}
use drfed.Delivery.Storable.{text_of}
use drfed.Delivery.Rows.{lookup}
use drfed.Delivery.Valid.{IsValid}
use drfed.Delivery.Settling.{FitsSchema}
use drfed.Outbox.{
  Failure, QueuedAttempt, Ending, was_abandoned, sent_ending, endings, queued_settlements,
  settlement_of, map_settlements, settle_each, settle_queued,
}
use drfed.Outbox.Settlements.{
  Waits, Reported, settle_outbound-named, settled-Settled, settle_each-cons,
}

-- The status that an attempt ends with, from whether the activity was sent, the error of the attempt,
-- the error with which it was given up, and whether it was abandoned.
abbrev pub ended_status : Bool → Option Text → Option Text → Bool → Status → Status
ended_status true failure permanent dropped before = sent
ended_status false failure (some p) dropped before = permanently_failed
ended_status false (some t) none true before = abandoned
ended_status false (some t) none false before = failed
ended_status false none none dropped before = before

-- The error that the delivery then has.
abbrev pub ended_error : Bool → Option Text → Option Text → Option Text → Option Text
ended_error true failure permanent before = none
ended_error false failure (some p) before = text_of (some p)
ended_error false (some t) none before = text_of (some t)
ended_error false none none before = before

-- The errors of the attempts that it adds.
abbrev pub added_errors : Bool → Option Text → List (Option Text)
added_errors true failure = none ∷ []
added_errors false (some t) = text_of (some t) ∷ []
added_errors false none = []

abbrev pub error_of : Option Failure → Option Text
error_of none = none
error_of (some f) = some f.error

abbrev pub code_of : Option Failure → Option ℕ
code_of none = none
code_of (some f) = f.status_code

-- Status codes of HTTP wherever one is known.
pub record HasCodes (a : QueuedAttempt) : Type 0 where
  pub failure : is_status_code (code_of a.failure) ≡ true
  pub permanent : is_status_code (code_of a.permanent) ≡ true
  pub answer : is_status_code a.status_code ≡ true

module _ (fresh : ℕ → Instant × Uuid) (a : QueuedAttempt) (id : Uuid) where
  one-Reported :
      (n : ℕ) (s : Store) (x : Ending) (d : Delivery)
      → IsValid s
      → FitsSchema (settlement_of a (some id) x)
      → lookup id s.deliveries ≡ some d
      → Waits a.activity_iri a.inbox_url d
      → Reported s
          (settle_each fresh n s (map_settlements a (some id) (x ∷ [])))
          id
          (status_of x.status)
          (text_of x.error)
          (if x.attempted then text_of x.error ∷ [] else [])
  unfolding settle_each
  one-Reported n s x d valid fits row w =
      let done = settle_outbound-named s a x (fresh n).0 (fresh n).1 id d valid fits row w in
      let after = settled-Settled s a x (fresh n).0 (fresh n).1 id d valid fits row w in
      rw (settle_each-cons fresh n s _ _ [] true done) (record {
        valid = after.valid;
        row = settle_row (settlement_of a (some id) x) (fresh n).0 d;
        found = after.found;
        ended = after.status;
        told = after.told;
        kept = after.kept;
      })

  two-Reported :
      (s : Store) (x y : Ending) (d : Delivery)
      → IsValid s
      → FitsSchema (settlement_of a (some id) x)
      → FitsSchema (settlement_of a (some id) y)
      → x.status ≡ has_failed
      → x.attempted ≡ true
      → y.attempted ≡ false
      → lookup id s.deliveries ≡ some d
      → Waits a.activity_iri a.inbox_url d
      → Reported s
          (settle_each fresh 0 s (map_settlements a (some id) (x ∷ y ∷ [])))
          id
          (status_of y.status)
          (text_of y.error)
          (text_of x.error ∷ [])
  two-Reported s x y d valid fits fits' first made unmade row w =
      let e = settlement_of a (some id) x in
      let t = settled s e (fresh 0).0 (fresh 0).1 d in
      let done = settle_outbound-named s a x (fresh 0).0 (fresh 0).1 id d valid fits row w in
      let after = settled-Settled s a x (fresh 0).0 (fresh 0).1 id d valid fits row w in
      let last =
        one-Reported 1 t y (settle_row e (fresh 0).0 d) after.valid fits' after.found
          (after.waits first) in
      rw (settle_each-cons fresh 0 s t e (map_settlements a (some id) (y ∷ [])) true done) (record {
        valid = last.valid;
        row = last.row;
        found = last.found;
        ended = last.ended;
        told = last.told;
        kept = last.kept ∙ rw unmade (after.kept ∙ rw made refl);
      })

  endings-Reported :
      (s : Store) (d : Delivery) (was_out : Bool) (failure permanent : Option Failure)
      (outcomes : List String) (code : Option ℕ)
      → IsValid s
      → is_status_code (code_of failure) ≡ true
      → is_status_code (code_of permanent) ≡ true
      → is_status_code code ≡ true
      → lookup id s.deliveries ≡ some d
      → Waits a.activity_iri a.inbox_url d
      → Reported s
          (settle_each fresh 0 s
            (map_settlements a (some id) (endings was_out failure permanent outcomes code)))
          id
          (ended_status was_out
            (error_of failure)
            (error_of permanent)
            (was_abandoned outcomes)
            d.status)
          (ended_error was_out (error_of failure) (error_of permanent) d.error)
          (added_errors was_out (error_of failure))
  unfolding settle_each
  endings-Reported s d true failure permanent outcomes code valid hf hp hc row w =
      one-Reported 0 s (sent_ending code) d valid (record { code = hc; failure = refl }) row w
  endings-Reported s d false (some f) (some p) outcomes code valid hf hp hc row w =
      two-Reported s _ _ d valid (record { code = hf; failure = refl })
        (record { code = hp; failure = refl }) refl refl refl row w
  endings-Reported s d false none (some p) outcomes code valid hf hp hc row w =
      one-Reported 0 s _ d valid (record { code = hp; failure = refl }) row w
  endings-Reported s d false (some f) none outcomes code valid hf hp hc row w =
      elim (Bool-cases (was_abandoned outcomes)) [
        | inl dropped ↦
            rw dropped (one-Reported 0 s _ d valid (record { code = hf; failure = refl }) row w)
        | inr held ↦
            rw held (one-Reported 0 s _ d valid (record { code = hf; failure = refl }) row w)
      ]
  endings-Reported s d false none none outcomes code valid hf hp hc row w = record {
    valid = valid;
    row = d;
    found = row;
    ended = refl;
    told = refl;
    kept = refl;
  }

  pub settle_queued-Reported :
      (s : Store) (d : Delivery)
      → IsValid s
      → HasCodes a
      → lookup id s.deliveries ≡ some d
      → Waits a.activity_iri a.inbox_url d
      → Reported s
          (settle_queued fresh s a (some id))
          id
          (ended_status a.sent
            (error_of a.failure)
            (error_of a.permanent)
            (was_abandoned a.outcomes)
            d.status)
          (ended_error a.sent (error_of a.failure) (error_of a.permanent) d.error)
          (added_errors a.sent (error_of a.failure))
  unfolding settle_queued queued_settlements
  settle_queued-Reported s d valid codes =
      endings-Reported s d a.sent a.failure a.permanent a.outcomes a.status_code valid codes.failure
        codes.permanent codes.answer

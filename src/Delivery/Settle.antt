-- ===== src/Delivery/Settle.antt =====
-- packages/models/src/activity-delivery.ts: `settleOutbound`, the end of an attempt or of a delivery.
use drfed.Common.{
  ℕ, Bool, true, false, not, ◌&&◌, ◌||◌, Option, none, some, List, [], ◌∷◌, ltb, leb, ◌==◌, is_some,
  if◌then◌else◌,
}
use drfed.Common.Text.{same_codes}
use drfed.Revision.{Uuid, Instant}
use drfed.Delivery.{
  Text, Status, queued, sent, failed, permanently_failed, abandoned, Delivery, Attempt, Store,
  DeliveryError, check_violation, is_inbound, update_where,
}
use drfed.Delivery.Record.{satisfies_checks, is_status_code, same_bool}
use drfed.Common.Result.{Result, ok, ◌>>◌, throw_if}
use drfed.Delivery.Storable.{text_of}

-- The statuses of a settlement.
pub data Outcome : Type 0 where
  was_sent has_failed for_good given_up : Outcome

abbrev pub status_of : Outcome → Status
status_of was_sent = sent
status_of has_failed = failed
status_of for_good = permanently_failed
status_of given_up = abandoned

abbrev pub is_sent : Outcome → Bool
is_sent was_sent = true
is_sent _ = false

-- `OutboundSettlement`
pub record Settlement : Type 0 where
  pub activity_iri : Text
  pub inbox_url : Text
  pub status : Outcome
  pub status_code : Option ℕ
  pub error : Option Text
  pub response_body : Option Text
  pub attempted : Bool
  pub id : Option Uuid

abbrev pub is_pending : Status → Bool
is_pending queued = true
is_pending failed = true
is_pending _ = false

abbrev pub is_iri : Option Text → Text → Bool
is_iri none t = false
is_iri (some s) t = same_codes s t

abbrev pub is_chosen : Option Uuid → Uuid → Bool
is_chosen none id = true
is_chosen (some x) id = id == x

-- The `WHERE` of the selection.
unfoldable pub awaits : Settlement → Delivery → Bool
awaits e d =
    not (is_inbound d.direction)
    && is_iri d.activity_iri e.activity_iri
    && same_codes d.inbox_url e.inbox_url
    && is_pending d.status
    && is_chosen e.id d.id

-- `ORDER BY created DESC, id DESC`
abbrev pub is_newer : Delivery → Delivery → Bool
is_newer a b = ltb b.created a.created || a.created == b.created && leb b.id a.id

abbrev pub later : Delivery → Option Delivery → Option Delivery
later d none = some d
later d (some e) = if is_newer d e then some d else some e

-- `LIMIT 1`
unfoldable pub latest : (Delivery → Bool) → List Delivery → Option Delivery
latest p [] = none
latest p (d ∷ ds) = let rest = latest p ds in if p d then later d rest else rest

abbrev pub settle_row : Settlement → Instant → Delivery → Delivery
settle_row e now d = record d {
  status = status_of e.status;
  status_code = e.status_code;
  error = text_of e.error;
  response_body = text_of e.response_body;
  completed = some now;
}

abbrev pub attempt_of : Settlement → Instant → Uuid → Uuid → Attempt
attempt_of e now id delivery_id = record {
  id = id;
  delivery_id = delivery_id;
  succeeded = is_sent e.status;
  status_code = e.status_code;
  response_body = text_of e.response_body;
  error = text_of e.error;
  created = now;
}

-- The checks of `activity_delivery_attempts`.
abbrev pub satisfies_attempt_checks : Attempt → Bool
satisfies_attempt_checks a =
    is_status_code a.status_code && same_bool a.succeeded (not (is_some a.error))

abbrev pub settled : Store → Settlement → Instant → Uuid → Delivery → Store
settled s e now id d = record s {
  attempts = if e.attempted then attempt_of e now id d.id ∷ s.attempts else s.attempts;
  deliveries = update_where (λ x. x.id == d.id) (settle_row e now) s.deliveries;
}

abbrev pub settle_found :
    Store → Settlement → Instant → Uuid → Option Delivery → Result DeliveryError (Store × Bool)
settle_found s e now id none = ok (s, false)
settle_found s e now id (some d) = do
  throw_if (e.attempted && not (satisfies_attempt_checks (attempt_of e now id d.id)))
      check_violation
  throw_if (not (satisfies_checks (settle_row e now d))) check_violation
  ok (settled s e now id d, true)

-- `settleOutbound`; the database refuses rows that fail a check.
unfoldable pub settle_outbound :
    Store → Settlement → Instant → Uuid → Result DeliveryError (Store × Bool)
settle_outbound s e now id = settle_found s e now id (latest (awaits e) s.deliveries)

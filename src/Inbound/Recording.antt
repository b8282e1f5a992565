-- ===== src/Inbound/Recording.antt =====
-- packages/federation/src/activity-delivery/inbound.ts: what `record` leaves of a request that was
-- observed.
use drfed.Common.{ℕ, ◌≤◌, ◌≡◌, ◌↔◌, true, false, Option, some}
use drfed.Delivery.{Status, received, acknowledged, unverified, rejected, verified, Delivery}
use drfed.Inbound.Verify.{Report}
use drfed.Inbound.Summary.{StandsOn}
use drfed.Inbound.Entry.{Observed}

-- The response was a success.
pub record Succeeded (answer : Option ℕ) : Type 0 where
  pub code : ℕ
  pub sent : answer ≡ some code
  pub low : 200 ≤ code
  pub high : code ≤ 299

-- What the status of the row says of the request.
pub record Tells (o : Observed) (report : Option Report) (status : Status) : Type 0 where
  pub says_received : (status ≡ received) ↔ (Succeeded o.answer × (o.handled ≡ true))
  pub says_acknowledged : (status ≡ acknowledged) ↔ (Succeeded o.answer × (o.handled ≡ false))
  pub says_rejected :
      (status ≡ rejected) ↔ ((Succeeded o.answer → ⊥) × (o.verification.result ≡ verified))
  pub says_unverified :
      (status ≡ unverified) ↔ ((Succeeded o.answer → ⊥) × (o.verification.result ≡ verified → ⊥))
  pub stands : status ≡ rejected → StandsOn report

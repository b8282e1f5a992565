-- ===== src/Inbound/Race.antt =====
-- packages/federation/src/activity-delivery/queue.ts and inbound.ts: an inbox request that answers
-- before its listener runs, and the queue worker that runs the listener, perhaps before the request has
-- recorded its delivery. Each step is one database or key–value operation, and a schedule says who goes
-- next. The marks live an hour, which is taken to outlast a request.
use drfed.Common.{
  ℕ, zero, suc, Bool, true, false, Option, none, some, List, [], ◌∷◌, any, ◌==◌, if◌then◌else◌,
}
use drfed.Common.Result.{Result, ok, err}
use drfed.Revision.{Uuid}
use drfed.Delivery.{Value, Store, Delivery, DeliveryError}
use drfed.Delivery.Actors.{AddressedActor}
use drfed.Delivery.Record.{record_inbound}
use drfed.Delivery.Carried.{
  is_acknowledged, receive_inbound, link_inbound_activity, record_fetched_object,
}

-- What the two are about: the delivery, whether its listener ran, and the object that it fetched.
pub record Plan : Type 0 where
  pub id : Uuid
  pub body : List ℕ
  pub addressed : List AddressedActor
  pub entry : Delivery
  pub handled : Bool
  pub fetched : Option Value

-- The marks are those of `receivedKey` and `fetchedObjectKey`; each side counts its steps. `seen` and
-- `found` are what the request read of the two marks.
pub record World : Type 0 where
  pub store : Store
  pub received : List Uuid
  pub fetched : List (Uuid × Value)
  pub worker : ℕ
  pub request : ℕ
  pub recorded : Bool
  pub seen : Bool
  pub found : Option Value

abbrev pub is_marked : Uuid → List Uuid → Bool
is_marked id marks = any (λ k. k == id) marks

abbrev pub mark_of : Uuid → List (Uuid × Value) → Option Value
mark_of id [] = none
mark_of id ((k, v) ∷ marks) = if k == id then some v else mark_of id marks

abbrev pub mark_if : Bool → Uuid → List Uuid → List Uuid
mark_if true id marks = id ∷ marks
mark_if false id marks = marks

abbrev pub leave : Option Value → Uuid → List (Uuid × Value) → List (Uuid × Value)
leave none id marks = marks
leave (some v) id marks = (id, v) ∷ marks

abbrev pub receive_if : Bool → Uuid → Store → Store
receive_if true id s = (receive_inbound s id).0
receive_if false id s = s

module _ (deep_equal : Value → Value → Bool) where
  abbrev pub fetch_if : Option Value → Uuid → Store → Store
  fetch_if none id s = s
  fetch_if (some v) id s = (record_fetched_object deep_equal s id (some v)).0

  -- `handleInbox` after its handler returned: `receive`, `fetchObject`, and the link.
  unfoldable pub work : Plan → ℕ → World → World
  work p zero w = record w { received = mark_if p.handled p.id w.received }
  work p (suc zero) w = record w { store = receive_if p.handled p.id w.store }
  work p (suc (suc zero)) w = record w { fetched = leave p.fetched p.id w.fetched }
  work p (suc (suc (suc zero))) w = record w { store = fetch_if p.fetched p.id w.store }
  work p (suc (suc (suc (suc n)))) w = record w {
    store = (link_inbound_activity deep_equal w.store p.id).0;
  }

  -- A recording that fails ends the request's part.
  abbrev pub after_recording : World → Result DeliveryError (Store × Delivery) → World
  after_recording w (ok (s', d)) = record w { store = s'; recorded = true }
  after_recording w (err e) = w

  -- `record` of inbound.ts from `recordInbound` on. `receivedMeanwhile` and `fetchedMeanwhile` take two
  -- steps each: the read of a mark, and the update of the row.
  unfoldable pub answer : Plan → ℕ → World → World
  answer p zero w = after_recording w (record_inbound w.store p.id p.body p.addressed p.entry)
  answer p (suc zero) w =
      if is_acknowledged p.entry.status then record w { seen = is_marked p.id w.received } else w
  answer p (suc (suc zero)) w =
      if is_acknowledged p.entry.status
      then record w { store = receive_if w.seen p.id w.store }
      else w
  answer p (suc (suc (suc zero))) w =
      if is_acknowledged p.entry.status then record w { found = mark_of p.id w.fetched } else w
  answer p (suc (suc (suc (suc zero)))) w =
      if is_acknowledged p.entry.status
      then record w { store = fetch_if w.found p.id w.store }
      else w
  answer p (suc (suc (suc (suc (suc n))))) w = record w {
    store = (link_inbound_activity deep_equal w.store p.id).0;
  }

  -- The steps after a recording are taken only if it succeeded.
  abbrev pub answer_if : Plan → ℕ → Bool → World → World
  answer_if p zero recorded w = answer p zero w
  answer_if p (suc n) true w = answer p (suc n) w
  answer_if p (suc n) false w = w

  abbrev pub worker_turn : Plan → World → World
  worker_turn p w = record (work p w.worker w) { worker = suc w.worker }

  abbrev pub request_turn : Plan → World → World
  request_turn p w = record (answer_if p w.request w.recorded w) { request = suc w.request }

  -- A schedule says for each step whether it is the worker's.
  unfoldable pub run_race : Plan → List Bool → World → World
  run_race p [] w = w
  run_race p (true ∷ turns) w = run_race p turns (worker_turn p w)
  run_race p (false ∷ turns) w = run_race p turns (request_turn p w)

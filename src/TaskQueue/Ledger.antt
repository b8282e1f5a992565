-- ===== src/TaskQueue/Ledger.antt =====
-- The books of the task queue: what becomes of each offered message, and in which order.
use drfed.Common.{
  ℕ, ◌+◌, ◌≡◌, refl, true, false, List, [], ◌∷◌, ◌++◌, arith, length, length-append, if◌then◌else◌,
}
use drfed.TaskQueue.{
  Phase, waiting, handling, System, Event, enqueue_many, listen, abort, resume, settle, is_delayed,
  admits, take_next, next_round, on_enqueue, on_listen, on_resume, on_settle, step, run,
}

module _ {ℓ} {M : Type ℓ} where
  -- The messages that an event offers to `enqueueMany` with no delay, and those that it takes in.
  abbrev pub offers : Event M → ℕ
  offers (enqueue_many ms d) = if is_delayed d then 0 else length ms
  offers _ = 0

  abbrev pub intake : System M → Event M → List M
  intake s (enqueue_many ms d) = if is_delayed d then [] else if admits s.queue ms then ms else []
  intake s _ = []

  abbrev pub offered : List (Event M) → ℕ
  offered [] = 0
  offered (e ∷ es) = offers e + offered es

  abbrev pub taken_in : System M → List (Event M) → List M
  taken_in s [] = []
  taken_in s (e ∷ es) = intake s e ++ taken_in (step s e).0 es

  -- What the queue answers for: handed on, waiting, or counted as dropped.
  abbrev pub accounted : System M → ℕ
  accounted s = length s.handed + length s.queue.messages + s.queue.dropped

  accounted-take_next :
      (l : List M) (s : System M) → s.queue.messages ≡ l → accounted (take_next l s) ≡ accounted s
  unfolding take_next
  accounted-take_next [] s e = ground arith
  accounted-take_next (m ∷ rest) s e = ground (arith, length-append s.handed (m ∷ []))

  accounted-next_round : (s : System M) → accounted (next_round s) ≡ accounted s
  unfolding next_round
  accounted-next_round s = ground (arith, accounted-take_next s.queue.messages s refl)

  accounted-on_resume : (p : Phase M) (s : System M) → accounted (on_resume p s) ≡ accounted s
  unfolding on_resume
  accounted-on_resume (waiting true) s =
      accounted-next_round (record s { queue = record s.queue { wake = false } })
  accounted-on_resume p s = refl

  accounted-on_settle : (p : Phase M) (s : System M) → accounted (on_settle p s) ≡ accounted s
  unfolding on_settle
  accounted-on_settle (handling m) s = accounted-next_round s
  accounted-on_settle p s = refl

  accounted-step : (s : System M) (e : Event M) → accounted (step s e).0 ≡ accounted s + offers e
  unfolding step on_enqueue on_listen
  accounted-step s (enqueue_many ms d) = ground (arith, length-append s.queue.messages ms)
  accounted-step s listen =
      ground
        (arith, accounted-next_round (record s { queue = record s.queue { listening = true } }))
  accounted-step s abort = ground arith
  accounted-step s resume = omega (arith, accounted-on_resume s.phase s)
  accounted-step s settle = omega (arith, accounted-on_settle s.phase s)

  -- No message is lost without being counted: after any events, the messages handed to the handler,
  -- those waiting and those counted in `dropped` add up to those before and all offered since.
  pub accounted-run :
      (es : List (Event M)) (s : System M) → accounted (run s es) ≡ accounted s + offered es
  unfolding run
  accounted-run [] s = omega arith
  accounted-run (e ∷ es) s = omega (arith, accounted-step s e, accounted-run es (step s e).0)

-- ===== src/TaskQueue/Laws.antt =====
-- What holds of the task queue whatever its callers, the listener and the abort signal do.
use drfed.Common.{◌≤◌, ◌≡◌, refl, Bool, true, false, List, [], ◌∷◌, arith, length, length-append}
use drfed.TaskQueue.{
  Phase, idle, waiting, handling, ended, System, Event, enqueue_many, listen, abort, resume, settle,
  is_delayed, take_next, next_round, on_enqueue, on_listen, on_resume, on_settle, step, run,
}

module _ {ℓ} {M : Type ℓ} where
  -- What the private fields say in each phase of the listener.
  abbrev pub PhaseFits : Phase M → System M → Type ℓ
  PhaseFits idle s =
      (s.queue.listening ≡ false) × (s.queue.closed ≡ false) × (s.queue.wake ≡ false) × Unit {ℓ}
  PhaseFits (waiting false) s =
      (s.queue.listening ≡ true)
      × (s.queue.closed ≡ false)
      × (s.queue.wake ≡ true)
      × (s.queue.messages ≡ [])
      × (s.aborted ≡ false)
  PhaseFits (waiting true) s =
      (s.queue.listening ≡ true) × (s.queue.closed ≡ false) × (s.queue.wake ≡ true) × Unit {ℓ}
  PhaseFits (handling m) s =
      (s.queue.listening ≡ true) × (s.queue.closed ≡ false) × (s.queue.wake ≡ false) × Unit {ℓ}
  PhaseFits ended s =
      (s.queue.listening ≡ true)
      × (s.queue.closed ≡ true)
      × (s.queue.wake ≡ false)
      × (s.queue.messages ≡ [])

  pub record Inv (s : System M) : Type ℓ where
    pub capped : length s.queue.messages ≤ s.queue.capacity
    pub fits : PhaseFits s.phase s

  take_next-Inv :
      (l : List M) (s : System M)
      → length l ≤ s.queue.capacity
      → s.queue.listening ≡ true
      → s.queue.closed ≡ false
      → s.queue.wake ≡ false
      → s.aborted ≡ false
      → s.queue.messages ≡ l
      → Inv (take_next l s)
  unfolding take_next
  take_next-Inv [] s h a b c d e = ground arith
  take_next-Inv (m ∷ rest) s h a b c d e = ground arith

  next_round-Inv :
      (s : System M)
      → length s.queue.messages ≤ s.queue.capacity
      → s.queue.listening ≡ true
      → s.queue.closed ≡ false
      → s.queue.wake ≡ false
      → Inv (next_round s)
  unfolding next_round
  next_round-Inv s h a b c = ground (arith, take_next-Inv s.queue.messages s)

  on_enqueue-Inv : (s : System M) (ms : List M) (b : Bool) → Inv s → Inv (on_enqueue s ms b).0
  unfolding on_enqueue
  on_enqueue-Inv s ms true h = h
  on_enqueue-Inv s ms false h = ground (arith, length-append s.queue.messages ms)

  on_listen-Inv : (s : System M) → Inv s → Inv (on_listen s).0
  unfolding on_listen
  on_listen-Inv s h =
      ground (arith, next_round-Inv (record s { queue = record s.queue { listening = true } }))

  on_resume-Inv : (p : Phase M) (s : System M) → s.phase ≡ p → Inv s → Inv (on_resume p s)
  unfolding on_resume
  on_resume-Inv (waiting true) s e h =
      ground (arith, next_round-Inv (record s { queue = record s.queue { wake = false } }))
  on_resume-Inv p s e h = h

  on_settle-Inv : (p : Phase M) (s : System M) → s.phase ≡ p → Inv s → Inv (on_settle p s)
  unfolding on_settle
  on_settle-Inv (handling m) s e h = ground (arith, next_round-Inv s)
  on_settle-Inv p s e h = h

  -- One event.
  pub step-Inv : (s : System M) (e : Event M) → Inv s → Inv (step s e).0
  unfolding step
  step-Inv s (enqueue_many ms d) h = on_enqueue-Inv s ms (is_delayed d) h
  step-Inv s listen h = on_listen-Inv s h
  step-Inv s abort h = ground arith
  step-Inv s resume h = on_resume-Inv s.phase s refl h
  step-Inv s settle h = on_settle-Inv s.phase s refl h

  -- Whatever events happen, the queue never holds more than its capacity, its flags agree with where the
  -- listener stands, and a listener that waits with no wake-up on its way has no message to take and no
  -- abort to see.
  pub run-Inv : (es : List (Event M)) (s : System M) → Inv s → Inv (run s es)
  unfolding run
  run-Inv [] s h = h
  run-Inv (e ∷ es) s h = run-Inv es (step s e).0 (step-Inv s e h)

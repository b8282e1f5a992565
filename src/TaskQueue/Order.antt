-- ===== src/TaskQueue/Order.antt =====
-- The order of the task queue: messages are handed over first in, first out.
use drfed.Common.{
  ◌≡◌, ◌⊎◌, inl, inr, refl, ap, sym, ◌∙◌, Bool, true, false, List, [], ◌∷◌, ◌++◌, replicate,
  append-nil, append_assoc, arith, length, if◌then◌else◌,
}
use drfed.TaskQueue.{
  Phase, ended, waiting, handling, System, Event, enqueue_many, listen, abort, resume, settle,
  is_delayed, admits, take_next, next_round, on_enqueue, on_listen, on_resume, on_settle, step, run,
}
use drfed.TaskQueue.Laws.{Inv}
use drfed.TaskQueue.Ledger.{intake, taken_in}

module _ {ℓ} {M : Type ℓ} where
  -- The messages handed over and those waiting, oldest first.
  abbrev pub pipeline : System M → List M
  pipeline s = s.handed ++ s.queue.messages

  -- The listener has returned: nothing more is handed over or taken in.
  pub record Ended (s : System M) : Type ℓ where
    pub returned : s.phase ≡ ended
    pub refuses : s.queue.closed ≡ true

  -- A round moves the first waiting message to the end of those handed over, or ends the listener.
  abbrev Moved : System M → System M → Type ℓ
  Moved s t = (pipeline t ≡ pipeline s) ⊎ (Ended t × (t.handed ≡ s.handed))

  take_next-pipeline :
      (l : List M) (s : System M) → s.queue.messages ≡ l → pipeline (take_next l s) ≡ pipeline s
  unfolding take_next
  take_next-pipeline [] s e = refl
  take_next-pipeline (m ∷ rest) s e =
      append_assoc s.handed (m ∷ []) rest ∙ ap (λ (l : List M). s.handed ++ l) (sym e)

  next_round-Moved : (s : System M) → Moved s (next_round s)
  unfolding next_round
  next_round-Moved s = ground (arith, take_next-pipeline s.queue.messages s refl)

  on_resume-Moved : (p : Phase M) (s : System M) → Moved s (on_resume p s)
  unfolding on_resume
  on_resume-Moved (waiting true) s =
      next_round-Moved (record s { queue = record s.queue { wake = false } })
  on_resume-Moved p s = inl refl

  on_settle-Moved : (p : Phase M) (s : System M) → Moved s (on_settle p s)
  unfolding on_settle
  on_settle-Moved (handling m) s = next_round-Moved s
  on_settle-Moved p s = inl refl

  on_listen-Moved : (s : System M) → Moved s (on_listen s).0
  unfolding on_listen
  on_listen-Moved s =
      ground (arith, next_round-Moved (record s { queue = record s.queue { listening = true } }))

  pipeline-on_enqueue :
      (s : System M) (ms : List M) (b : Bool)
      → pipeline (on_enqueue s ms b).0
        ≡ pipeline s ++ (if b then [] else if admits s.queue ms then ms else [])
  unfolding on_enqueue
  pipeline-on_enqueue s ms true = sym (append-nil _)
  pipeline-on_enqueue s ms false =
      ground (arith, append-nil (pipeline s), append_assoc s.handed s.queue.messages ms)

  step-pipeline :
      (s : System M) (e : Event M)
      → (pipeline (step s e).0 ≡ pipeline s ++ intake s e)
        ⊎ (Ended (step s e).0 × ((step s e).0.handed ≡ s.handed) × (intake s e ≡ []))
  unfolding step
  step-pipeline s (enqueue_many ms d) = inl (pipeline-on_enqueue s ms (is_delayed d))
  step-pipeline s listen = ground (arith, on_listen-Moved s, append-nil (pipeline s))
  step-pipeline s abort = inl (sym (append-nil _))
  step-pipeline s resume = ground (arith, on_resume-Moved s.phase s, append-nil (pipeline s))
  step-pipeline s settle = ground (arith, on_settle-Moved s.phase s, append-nil (pipeline s))

  step-Ended : (s : System M) (e : Event M) → Ended s → Ended (step s e).0
  unfolding step on_enqueue on_listen on_resume on_settle
  step-Ended s e h = ground arith

  Ended-step :
      (s : System M) (e : Event M) → Ended s → ((step s e).0.handed ≡ s.handed) × (intake s e ≡ [])
  unfolding step on_enqueue on_listen on_resume on_settle
  Ended-step s e h = ground arith

  Ended-run :
      (es : List (Event M)) (s : System M)
      → Ended s
      → ((run s es).handed ≡ s.handed) × (taken_in s es ≡ [])
  unfolding run
  Ended-run [] s h = (refl, refl)
  Ended-run (e ∷ es) s h =
      ground (arith, Ended-step s e h, Ended-run es (step s e).0 (step-Ended s e h))

  -- First in, first out: whatever happens, the messages handed to the handler are the first of those
  -- handed over before, then waiting, then taken in by `enqueueMany` since, in that order. None is
  -- skipped, repeated or overtaken.
  pub handed-IsFirst :
      (es : List (Event M)) (s : System M)
      → (rest : List M) × ((run s es).handed ++ rest ≡ pipeline s ++ taken_in s es)
  unfolding run
  handed-IsFirst [] s = (s.queue.messages, sym (append-nil _))
  handed-IsFirst (e ∷ es) s = elim (step-pipeline s e) [
    | inl moved ↦
        let (rest, first) = handed-IsFirst es (step s e).0 in
        (
          rest,
          first
              ∙ (ap (λ (l : List M). l ++ taken_in (step s e).0 es) moved
                  ∙ append_assoc (pipeline s) (intake s e) (taken_in (step s e).0 es)),
        )
    | inr stopped ↦
        let after = Ended-run es (step s e).0 stopped.0 in
        (s.queue.messages, rw (after.0, after.1, stopped.1, stopped.2) (sym (append-nil _)))
  ]

  settle-takes :
      (x : M) (r : List M) (m : M) (s : System M)
      → s.phase ≡ handling m
      → s.aborted ≡ false
      → s.queue.messages ≡ x ∷ r
      → (step s settle).0 ≡ record s {
        queue = record s.queue { messages = r };
        phase = handling x;
        handed = s.handed ++ x ∷ [];
      }
  unfolding step on_settle next_round take_next
  settle-takes x r m s p a e = ground arith

  -- Handlers that keep settling drain the queue: with the signal not aborted, as many returns of the
  -- handler as messages wait hand over every one of them, in order.
  pub settle-drains :
      (l : List M) (m : M) (s : System M)
      → s.phase ≡ handling m
      → s.aborted ≡ false
      → s.queue.messages ≡ l
      → (run s (replicate (length l) settle)).handed ≡ s.handed ++ l
  unfolding run
  settle-drains [] m s p a e = sym (append-nil _)
  settle-drains (x ∷ r) m s p a e =
      rw (settle-takes x r m s p a e, run)
        (settle-drains r x
            (record s {
              queue = record s.queue { messages = r };
              phase = handling x;
              handed = s.handed ++ x ∷ [];
            })
            refl a refl
          ∙ append_assoc s.handed (x ∷ []) r)

  -- No wake-up is lost: a listener that waits while a message is queued, and no abort was asked for,
  -- has its wake-up on the way, and hands over the first message as soon as it runs.
  pub resume-hands_first :
      (s : System M) (b : Bool) (m : M) (rest : List M)
      → Inv s
      → s.phase ≡ waiting b
      → s.queue.messages ≡ m ∷ rest
      → s.aborted ≡ false
      → ((step s resume).0.handed ≡ s.handed ++ m ∷ []) × ((step s resume).0.queue.messages ≡ rest)
  unfolding step on_resume next_round take_next
  resume-hands_first s false m rest h p e a = ground arith
  resume-hands_first s true m rest h p e a = ground arith

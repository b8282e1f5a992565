-- ===== src/Migration/Session/Prepared.antt =====
-- packages/models/src/migration-session.ts: a session looks at the history and applies migrations only
-- under its lock, and succeeds only with a ready history.
use drfed.Common.{
  ◌≡◌, refl, ap, ◌∙◌, Bool, true, false, not, ◌||◌, Option, none, some, List, ◌∷◌, is_some,
  if◌then◌else◌, Bool-cases, inl, inr,
}
use drfed.Common.Result.{Result, ok, err}
use drfed.Migration.State.{MigrationState}
use drfed.Migration.Session.{
  Code, Failure, Thrown, Action, lock_released, ended, Session, Wait, ◌>>=◌, interrupt,
  interrupt_all, acquire, is_ready, Answers, apply_session, Closing, unlock, unlocked,
  interrupt_unless, end_session, close, failure_of, cleaned, result_of, no_result, finish,
  new_session, prepare_session,
}
use drfed.Migration.Session.Runs.{
  is_guarded, Guarded, Quiet, Post, next-Post, At-interrupt_all, guard-At,
}
use drfed.Migration.Session.Locked.{
  lock_log, acquire-Post, final_log, final_log-guarded, Applied, apply_session-Post,
}

-- The end of a session.
abbrev pub freed_unless : Bool → List Action → List Action
freed_unless true l = l
freed_unless false l = lock_released ∷ l

interrupt_all-log : (cs : List Code) (s : Session) → (interrupt_all cs s).log ≡ s.log
interrupt_all-log cs s =
    (At-interrupt_all cs s.log s.locked s (record { log = refl; locked = refl })).log

interrupt_unless-log : (b : Bool) (s : Session) → (interrupt_unless b s).log ≡ s.log
unfolding interrupt
interrupt_unless-log true s = refl
interrupt_unless-log false s = refl

end_session-log :
    (c : Closing) (b : Bool) (s : Session) → (end_session c (b, s)).1.log ≡ ended ∷ s.log
end_session-log c b s =
    interrupt_unless-log _ _
    ∙ ap (λ (l : List Action). ended ∷ l)
        (interrupt_all-log c.ending.interruptions (interrupt_unless b s) ∙ interrupt_unless-log b s)

end_session-clean :
    (c : Closing) (b : Bool) (s : Session) → (end_session c (b, s)).0 ≡ false → b ≡ true
end_session-clean c true s h = refl
end_session-clean c false s h = cc

unlocked-log :
    (o : Result Thrown Bool) (s : Session)
    → (unlocked o s).0 ≡ true
    → (unlocked o s).1.log ≡ lock_released ∷ s.log
unlocked-log (ok true) s h = refl
unlocked-log (ok false) s h = cc
unlocked-log (err e) s h = cc

unlocked-Guarded : (o : Result Thrown Bool) (s : Session) → Guarded s → Guarded (unlocked o s).1
unlocked-Guarded (ok true) s h = h
unlocked-Guarded (ok false) s h = h
unlocked-Guarded (err e) s h = h

unlock-Guarded : (c : Closing) (s : Session) → Guarded s → Guarded (unlock c s).1
unfolding unlock
unlock-Guarded c s h = elim (Bool-cases (not s.locked || is_some s.interrupted || c.destroyed)) [
  | inl left ↦ rw left h
  | inr tried ↦
      let s1 = interrupt_all c.unlocking.interruptions s in
      rw tried (
        unlocked-Guarded c.unlocking.outcome s1
          (ap is_guarded (interrupt_all-log c.unlocking.interruptions s) ∙ h))
]

unlock_freed_at :
    (c : Closing) (s : Session) (k : List Action) (locked : Bool) (o : Option Code)
    (destroyed : Bool)
    → s.log ≡ k
    → locked ≡ true
    → o ≡ none
    → (if not locked || is_some o || destroyed
        then (true, s)
        else unlocked c.unlocking.outcome (interrupt_all c.unlocking.interruptions s)).0
      ≡ true
    → (if not locked || is_some o || destroyed
        then (true, s)
        else unlocked c.unlocking.outcome (interrupt_all c.unlocking.interruptions s)).1.log
      ≡ freed_unless destroyed k
unlock_freed_at c s k false o d log l i h = cc
unlock_freed_at c s k true (some x) d log l i h = cc
unlock_freed_at c s k true none true log l i h = log
unlock_freed_at c s k true none false log l i h =
    unlocked-log c.unlocking.outcome (interrupt_all c.unlocking.interruptions s) h
    ∙ ap (λ (m : List Action). lock_released ∷ m)
        (interrupt_all-log c.unlocking.interruptions s ∙ log)

unlock-freed :
    (c : Closing) (s : Session) (k : List Action)
    → Quiet k true s
    → (unlock c s).0 ≡ true
    → (unlock c s).1.log ≡ freed_unless c.destroyed k
unfolding unlock
unlock-freed c s k h =
    unlock_freed_at c s k s.locked s.interrupted c.destroyed h.place.log h.place.locked h.quiet

abbrev IsEnded : List Action → Type 0
IsEnded log = (is_guarded log ≡ true) × ((l : List Action) × (log ≡ ended ∷ l))

close-IsEnded : (c : Closing) (s : Session) → Guarded s → IsEnded (close c s).1.log
unfolding close
close-IsEnded c s h =
    let log = end_session-log c (unlock c s).0 (unlock c s).1 in
    (ap is_guarded log ∙ unlock-Guarded c s h, ((unlock c s).1.log, log))

close-freed :
    (c : Closing) (s : Session) (k : List Action)
    → Quiet k true s
    → (close c s).0 ≡ false
    → (close c s).1.log ≡ ended ∷ freed_unless c.destroyed k
unfolding close
close-freed c s k h clean =
    end_session-log c (unlock c s).0 (unlock c s).1
    ∙ ap (λ (l : List Action). ended ∷ l)
        (unlock-freed c s k h (end_session-clean c (unlock c s).0 (unlock c s).1 clean))

-- What a preparation comes to, and the actions of its session; `destroyed` says that the connection was
-- already closed when the lock was to be released.
abbrev pub Prepares : Bool → Result Failure MigrationState × List Action → Type 0
Prepares destroyed (ok state, log) =
    (is_ready state.status ≡ true)
    × ((b : Bool) × (log ≡ ended ∷ freed_unless destroyed (final_log b)))
Prepares destroyed (err f, log) = IsEnded log

result_of-Prepares :
    (d bad : Bool) (o : Option Code) (state : MigrationState) (log : List Action)
    → is_ready state.status ≡ true
    → (bad ≡ false → (b : Bool) × (log ≡ ended ∷ freed_unless d (final_log b)))
    → IsEnded log
    → Prepares d (result_of (cleaned bad (failure_of o)) state, log)
result_of-Prepares d true none state log r shape e = e
result_of-Prepares d true (some c) state log r shape e = e
result_of-Prepares d false none state log r shape e = (r, shape refl)
result_of-Prepares d false (some c) state log r shape e = e

no_result-Prepares :
    (d : Bool) (o : Option Failure) (log : List Action)
    → IsEnded log
    → Prepares d (no_result o, log)
no_result-Prepares d none log e = e
no_result-Prepares d (some f) log e = e

finish-Prepares :
    (c : Closing) (r : Result Thrown MigrationState × Session)
    → Post Applied Guarded r
    → Prepares c.destroyed (finish c r)
finish-Prepares c (ok state, s) (ready, (b, quiet)) =
    result_of-Prepares c.destroyed (close c s).0 (close c s).1.interrupted state (close c s).1.log
      ready (λ clean. (b, close-freed c s (final_log b) quiet clean))
      (close-IsEnded c s (guard-At (final_log b) true (final_log-guarded b) s quiet.place))
finish-Prepares c (err e, s) h =
    no_result-Prepares c.destroyed _ (close c s).1.log (close-IsEnded c s h)

-- Whatever the database and the timers answer, a preparation that succeeds reports a ready history, and
-- its session connected, took the lock, looked at the history, may have applied migrations,
-- looked again, released the lock unless its connection was closed already, and ended. One
-- that fails has ended its session too, and looked at the history and applied migrations
-- only while it held the lock.
pub prepare_session-Prepares :
    (signalled : Bool) (connect : Wait (Unit {0})) (attempts : List (Wait Bool × Wait (Unit {0})))
    (a : Answers) (c : Closing)
    → Prepares c.destroyed (prepare_session signalled connect attempts a c)
unfolding prepare_session
prepare_session-Prepares signalled connect attempts a c =
    finish-Prepares c ((acquire signalled connect attempts >>= (λ u. apply_session a)) new_session)
      (next-Post (λ u. Quiet lock_log true) Applied Guarded Guarded (λ u. apply_session a)
        (acquire signalled connect attempts new_session)
        (acquire-Post signalled connect attempts new_session (record { log = refl; locked = refl }))
        (λ s h. h) (λ u s h. apply_session-Post a s h))

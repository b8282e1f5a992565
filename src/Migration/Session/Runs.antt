-- ===== src/Migration/Session/Runs.antt =====
-- packages/models/src/migration-session.ts: what a run leaves of a session, and of its actions.
use drfed.Common.{◌≡◌, refl, ap, ◌∙◌, Bool, true, false, ◌&&◌, Option, none, some, List, [], ◌∷◌}
use drfed.Common.Result.{Result, ok, err}
use drfed.Migration.Session.{
  Code, Thrown, Action, lock_acquired, inspected, migrated, lock_released, ended, Session, Wait,
  Run, next, caught, interrupt, interrupt_all, wait, checked, check,
}

-- Whether the lock is held, by the actions so far, newest first.
abbrev pub held : List Action → Bool
held [] = false
held (lock_acquired ∷ l) = true
held (lock_released ∷ l) = false
held (ended ∷ l) = false
held (a ∷ l) = held l

-- Inspections and migrations are done under the lock.
abbrev pub is_guarded : List Action → Bool
is_guarded [] = true
is_guarded (inspected ∷ l) = held l && is_guarded l
is_guarded (migrated ∷ l) = held l && is_guarded l
is_guarded (a ∷ l) = is_guarded l

abbrev pub Guarded : Session → Type 0
Guarded s = is_guarded s.log ≡ true

-- A session with these actions.
pub record At (l : List Action) (b : Bool) (s : Session) : Type 0 where
  pub log : s.log ≡ l
  pub locked : s.locked ≡ b

pub record Quiet (l : List Action) (b : Bool) (s : Session) : Type 0 where
  pub place : At l b s
  pub quiet : s.interrupted ≡ none

abbrev pub Post :
    {A : Type 0} → (A → Session → Type 0) → (Session → Type 0) → Result Thrown A × Session → Type 0
Post Q E (ok a, s) = Q a s
Post Q E (err e, s) = E s

pub next-Post :
    {A B : Type 0} (Q : A → Session → Type 0) (R : B → Session → Type 0) (E F : Session → Type 0)
    (k : A → Run B) (r : Result Thrown A × Session)
    → Post Q E r
    → ((s : Session) → E s → F s)
    → ((a : A) (s : Session) → Q a s → Post R F (k a s))
    → Post R F (next k r)
next-Post Q R E F k (ok a, s) h weaken more = more a s h
next-Post Q R E F k (err e, s) h weaken more = weaken s h

pub caught-Post :
    {A : Type 0} (Q : A → Session → Type 0) (E F : Session → Type 0) (h : Thrown → Run A)
    (r : Result Thrown A × Session)
    → Post Q E r
    → ((e : Thrown) (s : Session) → E s → Post Q F (h e s))
    → Post Q F (caught h r)
caught-Post Q E F h (ok a, s) p more = p
caught-Post Q E F h (err e, s) p more = more e s p

pub At-interrupt_all :
    (cs : List Code) (l : List Action) (b : Bool) (s : Session)
    → At l b s
    → At l b (interrupt_all cs s)
unfolding interrupt_all interrupt
At-interrupt_all [] l b s h = h
At-interrupt_all (c ∷ cs) l b s h =
    At-interrupt_all cs l b (interrupt c s) (record { log = h.log; locked = h.locked })

outcome-Post :
    {A : Type 0} (l : List Action) (b : Bool) (o : Result Thrown A) (s : Session)
    → At l b s
    → Post (λ a. At l b) (At l b) (o, s)
outcome-Post l b (ok a) s h = h
outcome-Post l b (err e) s h = h

pub wait-Post :
    {A : Type 0} (l : List Action) (b : Bool) (w : Wait A) (s : Session)
    → At l b s
    → Post (λ a. At l b) (At l b) (wait w s)
wait-Post l b w s h =
    outcome-Post l b w.outcome (interrupt_all w.interruptions s)
      (At-interrupt_all w.interruptions l b s h)

checked-Post :
    (l : List Action) (b : Bool) (o : Option Code) (s : Session)
    → s.interrupted ≡ o
    → At l b s
    → Post (λ u. Quiet l b) (At l b) (checked o s)
checked-Post l b none s e h = record { place = h; quiet = e }
checked-Post l b (some c) s e h = h

pub check-Post :
    (l : List Action) (b : Bool) (s : Session) → At l b s → Post (λ u. Quiet l b) (At l b) (check s)
check-Post l b s h = checked-Post l b s.interrupted s refl h

pub At-noted :
    (a : Action) (l : List Action) (b : Bool) (s : Session)
    → At l b s
    → At (a ∷ l) b (record s { log = a ∷ s.log })
At-noted a l b s h = record { log = ap (λ (m : List Action). a ∷ m) h.log; locked = h.locked }

pub guard-At :
    (l : List Action) (b : Bool) → is_guarded l ≡ true → (s : Session) → At l b s → Guarded s
guard-At l b g s h = ap is_guarded h.log ∙ g

pub weakened :
    {A : Type 0} (Q : A → Session → Type 0) (E F : Session → Type 0) (r : Result Thrown A × Session)
    → ((s : Session) → E s → F s)
    → Post Q E r
    → Post Q F r
weakened Q E F (ok a, s) more h = h
weakened Q E F (err e, s) more h = more s h

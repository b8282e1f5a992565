-- ===== src/Migration/Session.antt =====
-- packages/models/src/migration-session.ts: the preparation of a database, on one session that holds an
-- advisory lock. What the database and the timers answer is an argument: a wait has what it comes to,
-- and the interruptions that arrive meanwhile, of which the first counts. The deadline for the lock
-- arrives after the attempts that are given. Imports of modules are waits like queries.
mod Runs
mod Locked
pub mod Prepared
use drfed.Common.{
  ℕ, Bool, true, false, not, ◌&&◌, ◌||◌, Option, none, some, List, [], ◌∷◌, is_some, leb, ltb,
  if◌then◌else◌,
}
use drfed.Common.Result.{Result, ok, err}
use drfed.Migration.State.{
  MigrationState, MigrationStatus, ready, pending, uninitialized, upgrade_required,
}

-- `MigrationPreparationCode`
pub data Code : Type 0 where
  invalid_options invalid_migration_files connection_failed lock_timeout aborted : Code
  inspection_failed incompatible_history migration_failed cleanup_failed : Code

-- `MigrationPreparationError`
pub record Failure : Type 0 where
  pub code : Code
  pub state : Option MigrationState
  pub cleanup_has_failed : Bool

pub data Thrown : Type 0 where
  failing : Failure → Thrown
  other_error : Thrown

-- What the session does at the database.
pub data Action : Type 0 where
  connected lock_acquired inspected migrated lock_released ended : Action

-- The actions are kept newest first.
pub record Session : Type 0 where
  pub interrupted : Option Code
  pub locked : Bool
  pub log : List Action

pub record Wait (A : Type 0) : Type 0 where
  pub interruptions : List Code
  pub outcome : Result Thrown A

abbrev pub Run : Type 0 → Type 0
Run A = Session → Result Thrown A × Session

abbrev pub next :
    {A B : Type 0} → (A → Run B) → Result Thrown A × Session → Result Thrown B × Session
next k (ok a, s) = k a s
next k (err e, s) = (err e, s)

infixl 5 ◌>>=◌
abbrev pub ◌>>=◌ : {A B : Type 0} → Run A → (A → Run B) → Run B
m >>= k = λ s. next k (m s)

abbrev pub caught :
    {A : Type 0} → (Thrown → Run A) → Result Thrown A × Session → Result Thrown A × Session
caught h (ok a, s) = (ok a, s)
caught h (err e, s) = h e s

abbrev pub catching : {A : Type 0} → Run A → (Thrown → Run A) → Run A
catching m h = λ s. caught h (m s)

abbrev pub return : {A : Type 0} → A → Run A
return a = λ s. (ok a, s)

abbrev pub throw : {A : Type 0} → Code → Option MigrationState → Run A
throw code state =
    λ s. (err (failing (record { code = code; state = state; cleanup_has_failed = false })), s)

abbrev pub or_first : Option Code → Code → Option Code
or_first (some c) later = some c
or_first none later = some later

-- `interrupt`
unfoldable pub interrupt : Code → Session → Session
interrupt code s = record s { interrupted = or_first s.interrupted code }

unfoldable pub interrupt_all : List Code → Session → Session
interrupt_all [] s = s
interrupt_all (c ∷ cs) s = interrupt_all cs (interrupt c s)

abbrev pub wait : {A : Type 0} → Wait A → Run A
wait w = λ s. (w.outcome, interrupt_all w.interruptions s)

abbrev pub note : Action → Run (Unit {0})
note a = λ s. (ok tt, record s { log = a ∷ s.log })

abbrev pub checked : Option Code → Run (Unit {0})
checked none = return tt
checked (some code) = throw code none

-- `check`
abbrev pub check : Run (Unit {0})
check = λ s. checked s.interrupted s

abbrev pub hold_lock : Run (Unit {0})
hold_lock = λ s. (ok tt, record s { locked = true; log = lock_acquired ∷ s.log })

-- The loop of `acquire`; an attempt has the wait for its query and the one for the delay after it.
unfoldable pub try_lock : List (Wait Bool × Wait (Unit {0})) → Run (Unit {0})
try_lock [] = λ s. (err other_error, interrupt lock_timeout s)
try_lock ((query, delay) ∷ rest) = do
  acquired ← wait query
  _ ← check
  let again = try_lock rest
  if acquired then hold_lock else (wait delay >>= (λ u. again))

abbrev pub interrupt_if : Bool → Run (Unit {0})
interrupt_if true = λ s. (ok tt, interrupt aborted s)
interrupt_if false = return tt

-- `acquire`
unfoldable pub acquire :
    Bool → Wait (Unit {0}) → List (Wait Bool × Wait (Unit {0})) → Run (Unit {0})
acquire signalled connect attempts = do
  _ ← interrupt_if signalled
  _ ← check
  _ ← wait connect
  _ ← note connected
  _ ← check
  try_lock attempts

-- `inspectSession`
unfoldable pub inspect_session : Wait MigrationState → Run MigrationState
inspect_session w =
    catching (do _ ← note inspected; state ← wait w; _ ← check; return state)
      (λ e. check >>= (λ u. throw inspection_failed none))

abbrev pub is_ready : MigrationStatus → Bool
is_ready ready = true
is_ready _ = false

abbrev pub is_applicable : MigrationStatus → Bool
is_applicable ready = true
is_applicable pending = true
is_applicable uninitialized = true
is_applicable upgrade_required = true
is_applicable _ = false

-- What the database answers while migrations are applied.
pub record Answers : Type 0 where
  pub first : Wait MigrationState
  pub modules : Wait (Unit {0})
  pub snapshot : Wait (Unit {0})
  pub migration : Wait (Unit {0})
  pub second : Wait MigrationState

abbrev pub rethrown : Thrown → Run (Unit {0})
rethrown (failing f) = λ s. (err (failing f), s)
rethrown other_error = throw migration_failed none

unfoldable pub migrate : Answers → Run (Unit {0})
migrate a =
    catching
      (do
        _ ← wait a.modules
        _ ← check
        _ ← wait a.snapshot
        _ ← check
        _ ← note migrated
        wait a.migration)
      (λ e. check >>= (λ u. rethrown e))

unfoldable pub migrate_unless : Bool → Answers → Run (Unit {0})
migrate_unless true a = return tt
migrate_unless false a = migrate a >>= (λ u. check)

abbrev pub require : Bool → MigrationState → Run (Unit {0})
require true state = return tt
require false state = throw incompatible_history (some state)

-- `applySession`
unfoldable pub apply_session : Answers → Run MigrationState
apply_session a = do
  state ← inspect_session a.first
  _ ← require (is_applicable state.status) state
  _ ← migrate_unless (is_ready state.status) a
  result ← inspect_session a.second
  _ ← require (is_ready result.status) result
  return result

-- What closing the session comes to: the unlocking query, the end of the connection, and whether
-- the deadline came while it ended. `destroyed` says that the stream was already closed.
pub record Closing : Type 0 where
  pub destroyed : Bool
  pub unlocking : Wait Bool
  pub ending : Wait (Unit {0})
  pub late : Bool

abbrev pub unlocked : Result Thrown Bool → Session → Bool × Session
unlocked (ok true) s = (true, record s { log = lock_released ∷ s.log })
unlocked (ok false) s = (false, s)
unlocked (err e) s = (false, s)

-- `#unlock`
unfoldable pub unlock : Closing → Session → Bool × Session
unlock c s =
    if not s.locked || is_some s.interrupted || c.destroyed
    then (true, s)
    else unlocked c.unlocking.outcome (interrupt_all c.unlocking.interruptions s)

abbrev pub interrupt_unless : Bool → Session → Session
interrupt_unless true s = s
interrupt_unless false s = interrupt cleanup_failed s

abbrev pub succeeded : Result Thrown (Unit {0}) → Bool
succeeded (ok u) = true
succeeded (err e) = false

abbrev pub end_session : Closing → Bool × Session → Bool × Session
end_session c (b, s) =
    let done = succeeded c.ending.outcome && not c.late in
    let s' = interrupt_all c.ending.interruptions (interrupt_unless b s) in
    (not (b && done), interrupt_unless done (record s' { log = ended ∷ s'.log }))

-- `close`, with whether the cleanup failed.
unfoldable pub close : Closing → Session → Bool × Session
close c s = end_session c (unlock c s)

abbrev pub failure_of : Option Code → Option Failure
failure_of none = none
failure_of (some code) = some (record { code = code; state = none; cleanup_has_failed = false })

abbrev pub or_thrown : Option Failure → Thrown → Option Failure
or_thrown (some f) e = some f
or_thrown none (failing f) = some f
or_thrown none other_error =
    some (record { code = connection_failed; state = none; cleanup_has_failed = false })

abbrev pub or_later : Option Failure → Option Failure → Option Failure
or_later (some f) later = some f
or_later none later = later

abbrev pub cleaned : Bool → Option Failure → Option Failure
cleaned false f = f
cleaned true (some f) = some (record f { cleanup_has_failed = true })
cleaned true none = some (record { code = cleanup_failed; state = none; cleanup_has_failed = true })

abbrev pub result_of : Option Failure → MigrationState → Result Failure MigrationState
result_of (some f) state = err f
result_of none state = ok state

abbrev pub no_result : Option Failure → Result Failure MigrationState
no_result (some f) = err f
no_result none = err (record { code = inspection_failed; state = none; cleanup_has_failed = false })

-- The `finally` of `preparePostgresDatabase`, and what it returns.
abbrev pub finish :
    Closing → Result Thrown MigrationState × Session → Result Failure MigrationState × List Action
finish c (ok state, s) =
    let (bad, s') = close c s in (result_of (cleaned bad (failure_of s'.interrupted)) state, s'.log)
finish c (err e, s) =
    let (bad, s') = close c s in
    (
      no_result (
          cleaned bad
            (or_later (or_thrown (failure_of s.interrupted) e) (failure_of s'.interrupted))),
      s'.log,
    )

abbrev pub new_session : Session
new_session = record { interrupted = none; locked = false; log = [] }

-- `preparePostgresDatabase` once it has a client, whose options and files are in order.
unfoldable pub prepare_session :
    Bool
    → Wait (Unit {0})
    → List (Wait Bool × Wait (Unit {0}))
    → Answers
    → Closing
    → Result Failure MigrationState × List Action
prepare_session signalled connect attempts a c =
    finish c ((acquire signalled connect attempts >>= (λ u. apply_session a)) new_session)

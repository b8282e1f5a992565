-- ===== src/Migration/Session/Locked.antt =====
-- packages/models/src/migration-session.ts: the lock, the looks at the history, and the migrations.
use drfed.Common.{
  ◌≡◌, refl, ap, Bool, true, false, Option, none, some, List, [], ◌∷◌, if◌then◌else◌,
}
use drfed.Migration.State.{MigrationState}
use drfed.Migration.Session.{
  Code, Thrown, other_error, failing, Action, connected, lock_acquired, inspected, migrated,
  Session, Wait, Run, next, ◌>>=◌, throw, interrupt, interrupt_all, wait, checked, check, hold_lock,
  try_lock, interrupt_if, acquire, inspect_session, is_ready, is_applicable, Answers, rethrown,
  migrate, migrate_unless, require, apply_session,
}
use drfed.Migration.Session.Runs.{
  is_guarded, Guarded, At, Quiet, Post, next-Post, caught-Post, At-interrupt_all, wait-Post,
  check-Post, At-noted, guard-At, weakened,
}

-- The lock.
abbrev pub lock_log : List Action
lock_log = lock_acquired ∷ connected ∷ []

locked-Post :
    (acquired : Bool) (again : Run (Unit {0})) (d : Wait (Unit {0})) (s : Session)
    → Quiet (connected ∷ []) false s
    → ((t : Session)
        → At (connected ∷ []) false t
        → Post (λ u. Quiet lock_log true) (At (connected ∷ []) false) (again t))
    → Post
        (λ u. Quiet lock_log true)
        (At (connected ∷ []) false)
        ((if acquired then hold_lock else (wait d >>= (λ u. again))) s)
locked-Post true again d s h more = record {
  place = record { log = ap (λ (m : List Action). lock_acquired ∷ m) h.place.log; locked = refl };
  quiet = h.quiet;
}
locked-Post false again d s h more =
    next-Post (λ u. At (connected ∷ []) false) _ (At (connected ∷ []) false) _ (λ u. again)
      (wait d s) (wait-Post (connected ∷ []) false d s h.place) (λ t e. e) (λ u t e. more t e)

try_lock-Post :
    (attempts : List (Wait Bool × Wait (Unit {0}))) (s : Session)
    → At (connected ∷ []) false s
    → Post (λ u. Quiet lock_log true) (At (connected ∷ []) false) (try_lock attempts s)
unfolding try_lock interrupt interrupt_all
try_lock-Post [] s h = At-interrupt_all (Code.lock_timeout ∷ []) (connected ∷ []) false s h
try_lock-Post ((q, d) ∷ rest) s h =
    next-Post (λ b. At (connected ∷ []) false) _ (At (connected ∷ []) false) _ _ (wait q s)
      (wait-Post (connected ∷ []) false q s h) (λ t e. e)
      (λ b t e.
        next-Post (λ u. Quiet (connected ∷ []) false) _ (At (connected ∷ []) false) _ _ (check t)
          (check-Post (connected ∷ []) false t e) (λ v f. f)
          (λ u v f. locked-Post b (try_lock rest) d v f (λ w g. try_lock-Post rest w g)))

interrupt_if-Post :
    (b : Bool) (l : List Action) (k : Bool) (s : Session)
    → At l k s
    → Post (λ u. At l k) (At l k) (interrupt_if b s)
unfolding interrupt
interrupt_if-Post true l k s h = record { log = h.log; locked = h.locked }
interrupt_if-Post false l k s h = h

pub acquire-Post :
    (signalled : Bool) (w : Wait (Unit {0})) (attempts : List (Wait Bool × Wait (Unit {0})))
    (s : Session)
    → At [] false s
    → Post (λ u. Quiet lock_log true) Guarded (acquire signalled w attempts s)
unfolding acquire
acquire-Post signalled w attempts s h =
    let start = guard-At [] false refl in
    let joined = guard-At (connected ∷ []) false refl in
    next-Post (λ u. At [] false) _ (At [] false) _ _ (interrupt_if signalled s)
      (interrupt_if-Post signalled [] false s h) start
      (λ u t e.
        next-Post (λ u. Quiet [] false) _ (At [] false) _ _ (check t) (check-Post [] false t e)
          start
          (λ u v f.
            next-Post (λ u. At [] false) _ (At [] false) _ _ (wait w v)
              (wait-Post [] false w v f.place) start
              (λ u x g.
                let noted = At-noted connected [] false x g in
                next-Post (λ u. Quiet (connected ∷ []) false) _ (At (connected ∷ []) false) _ _
                  (check (record x { log = connected ∷ x.log }))
                  (check-Post (connected ∷ []) false (record x { log = connected ∷ x.log }) noted)
                  joined
                  (λ u y i.
                    weakened (λ u. Quiet lock_log true) (At (connected ∷ []) false) Guarded
                      (try_lock attempts y) joined (try_lock-Post attempts y i.place)))))

-- The first and the second look at the history.
throwing-Post :
    {A : Type 0} (l : List Action) (b : Bool) (c : Code) (Q : A → Session → Type 0) (s : Session)
    → At l b s
    → Post Q (At l b) (next (λ u. throw c none) (check s))
throwing-Post l b c Q s h =
    next-Post (λ u. Quiet l b) Q (At l b) (At l b) (λ u. throw c none) (check s)
      (check-Post l b s h) (λ t e. e) (λ u t e. e.place)

inspect_session-Post :
    (l : List Action) (w : Wait MigrationState) (s : Session)
    → At l true s
    → Post (λ state. Quiet (inspected ∷ l) true) (At (inspected ∷ l) true) (inspect_session w s)
unfolding inspect_session
inspect_session-Post l w s h =
    let k = inspected ∷ l in
    let s1 = record s { log = inspected ∷ s.log } in
    caught-Post (λ state. Quiet k true) (At k true) (At k true) _ _
      (next-Post (λ state. At k true) (λ state. Quiet k true) (At k true) (At k true) _ (wait w s1)
        (wait-Post k true w s1 (At-noted inspected l true s h)) (λ t e. e)
        (λ state t e.
          next-Post (λ u. Quiet k true) (λ state. Quiet k true) (At k true) (At k true) _ (check t)
            (check-Post k true t e) (λ v f. f) (λ u v f. f)))
      (λ e t f. throwing-Post k true Code.inspection_failed (λ state. Quiet k true) t f)

Guarded-check :
    (o : Option Code) (s : Session) → Guarded s → Post (λ u. Guarded) Guarded (checked o s)
Guarded-check none s h = h
Guarded-check (some c) s h = h

rethrown-Post :
    (Q : Unit {0} → Session → Type 0) (e : Thrown) (s : Session)
    → Guarded s
    → Post Q Guarded (rethrown e s)
rethrown-Post Q (failing f) s h = h
rethrown-Post Q other_error s h = h

migrate-Post :
    (l : List Action) (a : Answers) (s : Session)
    → is_guarded l ≡ true
    → is_guarded (migrated ∷ l) ≡ true
    → At l true s
    → Post (λ u. At (migrated ∷ l) true) Guarded (migrate a s)
unfolding migrate
migrate-Post l a s g gm h =
    let k = migrated ∷ l in
    let lower = guard-At l true g in
    caught-Post (λ u. At k true) Guarded Guarded _ _
      (next-Post (λ u. At l true) (λ u. At k true) (At l true) Guarded _ (wait a.modules s)
        (wait-Post l true a.modules s h) lower
        (λ u t e.
          next-Post (λ u. Quiet l true) (λ u. At k true) (At l true) Guarded _ (check t)
            (check-Post l true t e) lower
            (λ u v f.
              next-Post (λ u. At l true) (λ u. At k true) (At l true) Guarded _ (wait a.snapshot v)
                (wait-Post l true a.snapshot v f.place) lower
                (λ u x i.
                  next-Post (λ u. Quiet l true) (λ u. At k true) (At l true) Guarded _ (check x)
                    (check-Post l true x i) lower
                    (λ u y j.
                      let y1 = record y { log = migrated ∷ y.log } in
                      weakened (λ u. At k true) (At k true) Guarded (wait a.migration y1)
                        (guard-At k true gm)
                        (wait-Post k true a.migration y1 (At-noted migrated l true y j.place)))))))
      (λ e t f.
        next-Post (λ u. Guarded) (λ u. At k true) Guarded Guarded (λ u. rethrown e) (check t)
          (Guarded-check t.interrupted t f) (λ v i. i)
          (λ u v i. rethrown-Post (λ u. At k true) e v i))

-- The log once the migrations were applied, unless there were none to apply.
abbrev pub applied_unless : Bool → List Action → List Action
applied_unless true l = l
applied_unless false l = migrated ∷ l

migrate_unless-Post :
    (b : Bool) (l : List Action) (a : Answers) (s : Session)
    → is_guarded l ≡ true
    → is_guarded (migrated ∷ l) ≡ true
    → Quiet l true s
    → Post (λ u. Quiet (applied_unless b l) true) Guarded (migrate_unless b a s)
unfolding migrate_unless
migrate_unless-Post true l a s g gm h = h
migrate_unless-Post false l a s g gm h =
    let k = migrated ∷ l in
    next-Post (λ u. At k true) (λ u. Quiet k true) Guarded Guarded (λ u. check) (migrate a s)
      (migrate-Post l a s g gm h.place) (λ t e. e)
      (λ u t e.
        weakened (λ u. Quiet k true) (At k true) Guarded (check t) (guard-At k true gm)
          (check-Post k true t e))

require-Post :
    (b : Bool) (state : MigrationState) (l : List Action) (s : Session)
    → is_guarded l ≡ true
    → Quiet l true s
    → Post (λ u t. (b ≡ true) × Quiet l true t) Guarded (require b state s)
require-Post true state l s g h = (refl, h)
require-Post false state l s g h = guard-At l true g s h.place

abbrev pub looked : List Action
looked = inspected ∷ lock_log

abbrev pub final_log : Bool → List Action
final_log b = inspected ∷ applied_unless b looked

pub final_log-guarded : (b : Bool) → is_guarded (final_log b) ≡ true
final_log-guarded true = refl
final_log-guarded false = refl

applied-guarded : (b : Bool) → is_guarded (applied_unless b looked) ≡ true
applied-guarded true = refl
applied-guarded false = refl

abbrev pub Applied : MigrationState → Session → Type 0
Applied state s = (is_ready state.status ≡ true) × ((b : Bool) × Quiet (final_log b) true s)

pub apply_session-Post :
    (a : Answers) (s : Session) → Quiet lock_log true s → Post Applied Guarded (apply_session a s)
unfolding apply_session
apply_session-Post a s h =
    next-Post (λ state. Quiet looked true) Applied (At looked true) Guarded _
      (inspect_session a.first s) (inspect_session-Post lock_log a.first s h.place)
      (guard-At looked true refl)
      (λ state t e.
        next-Post (λ u v. (is_applicable state.status ≡ true) × Quiet looked true v) Applied Guarded
          Guarded _ (require (is_applicable state.status) state t)
          (require-Post (is_applicable state.status) state looked t refl e) (λ v f. f)
          (λ u v f.
            let b = is_ready state.status in
            next-Post (λ u. Quiet (applied_unless b looked) true) Applied Guarded Guarded _
              (migrate_unless b a v) (migrate_unless-Post b looked a v refl refl f.1) (λ x g. g)
              (λ u x g.
                next-Post (λ state. Quiet (final_log b) true) Applied (At (final_log b) true)
                  Guarded _ (inspect_session a.second x)
                  (inspect_session-Post (applied_unless b looked) a.second x g.place)
                  (guard-At (final_log b) true (final_log-guarded b))
                  (λ result y i.
                    next-Post (λ u z. (is_ready result.status ≡ true) × Quiet (final_log b) true z)
                      Applied Guarded Guarded _ (require (is_ready result.status) result y)
                      (require-Post (is_ready result.status) result (final_log b) y
                        (final_log-guarded b) i)
                      (λ z j. j) (λ u z j. (j.0, (b, j.1)))))))

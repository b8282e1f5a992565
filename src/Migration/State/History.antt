-- ===== src/Migration/State/History.antt =====
-- Which histories are compatible with a manifest, and what is then said to be applied and pending.
use mathlib.Core.Path.{subst₂}
use drfed.Common.{
  ℕ, ◌≡◌, ◌⊎◌, inl, inr, refl, Bool, true, false, Option, none, some, List, [], ◌∷◌, arith, eq_iff,
  length, drop, last?, leb, ◌||◌, Bool-cases,
}
use drfed.Common.Result.{Result, ok, >>=-returns}
use drfed.Migration.Manifest.{
  MigrationIdentity, ManifestError, migration_timestamp, parse_migration_manifest, manifest_json,
}
use drfed.Migration.Manifest.Laws.{parse_migration_manifest-eq}
use drfed.Migration.State.{
  MigrationHistoryFormat, MigrationStatus, MigrationState, Row, HistoryIdentity, history_identity,
  Cursor, Round, stop, go, is_other_name, compare_identity, check_identity, check_row, beyond,
  Outcome, stopped, finished, check_rows, after_round, outcome_state, compatible_status, start,
  classify_migration_history, ready, pending, uninitialized, upgrade_required,
}

-- The row records this migration: its date, its hash and, in the current format, its name.
pub record Recorded (f : MigrationHistoryFormat) (row : Row) (m : MigrationIdentity) : Type 0 where
  pub identity : HistoryIdentity
  pub found : history_identity row f ≡ some identity
  pub dated : migration_timestamp m.name ≡ ok identity.date
  pub hashed : identity.hash ≡ m.sha256
  pub named : is_other_name f identity.name m.name ≡ false

-- The rows record the first migrations of the list, in order.
abbrev pub Records : MigrationHistoryFormat → List Row → List MigrationIdentity → Type 0
Records f [] ms = Unit
Records f (row ∷ rows) [] = ⊥
Records f (row ∷ rows) (m ∷ ms) = Recorded f row m × Records f rows ms

-- A round that goes on at an identity of the manifest found it recorded.
compare-Recorded :
    (f : MigrationHistoryFormat) (final : Option MigrationIdentity) (c c' : Cursor) (row : Row)
    (i : HistoryIdentity) (m : MigrationIdentity) (rest : List MigrationIdentity)
    → history_identity row f ≡ some i
    → compare_identity f final c i (m ∷ rest) ≡ ok (go c')
    → Recorded f row m × (c'.rest ≡ rest) × (c'.is_newer ≡ c.is_newer)
compare-Recorded f final c c' row i m rest found h =
    let (t, stamp, k) = >>=-returns (migration_timestamp m.name) _ h in
    (
      record {
        identity = i;
        found = found;
        dated = ground arith;
        hashed = ground (arith, eq_iff i.hash m.sha256);
        named = ground arith;
      },
      ground arith,
      ground arith,
    )

check_identity-go :
    (f : MigrationHistoryFormat) (final : Option MigrationIdentity) (c c' : Cursor)
    (o : Option HistoryIdentity)
    → check_identity f final c o ≡ ok (go c')
    → (i : HistoryIdentity) × (o ≡ some i) × (compare_identity f final c i c.rest ≡ ok (go c'))
check_identity-go f final c c' none h = cc
check_identity-go f final c c' (some i) h = (i, refl, ground arith)

check_row-go :
    (f : MigrationHistoryFormat) (final : Option MigrationIdentity) (c c' : Cursor) (row : Row)
    → check_row f final c row ≡ ok (go c')
    → (i : HistoryIdentity) × (history_identity row f ≡ some i)
      × (compare_identity f final c i c.rest ≡ ok (go c'))
unfolding check_row
check_row-go f final c c' row h = check_identity-go f final c c' (history_identity row f) h

-- Past the manifest every round leads further past it.
beyond-go :
    (final : Option MigrationIdentity) (i : HistoryIdentity) (c' : Cursor)
    → beyond final i ≡ ok (go c')
    → (c'.rest ≡ []) × (c'.is_newer ≡ true)
beyond-go none i c' h = ground arith
beyond-go (some m) i c' h =
    let (t, stamp, k) = >>=-returns (migration_timestamp m.name) _ h in ground arith

round-beyond :
    (f : MigrationHistoryFormat) (final : Option MigrationIdentity) (c c' : Cursor) (row : Row)
    → c.rest ≡ []
    → check_row f final c row ≡ ok (go c')
    → (c'.rest ≡ []) × (c'.is_newer ≡ true)
round-beyond f final c c' row e h =
    let (i, found, k) = check_row-go f final c c' row h in beyond-go final i c' (rw e at k)

round-within :
    (f : MigrationHistoryFormat) (final : Option MigrationIdentity) (c c' : Cursor) (row : Row)
    (m : MigrationIdentity) (rest : List MigrationIdentity)
    → c.rest ≡ m ∷ rest
    → check_row f final c row ≡ ok (go c')
    → Recorded f row m × (c'.rest ≡ rest) × (c'.is_newer ≡ c.is_newer)
round-within f final c c' row m rest e h =
    let (i, found, k) = check_row-go f final c c' row h in
    compare-Recorded f final c c' row i m rest found (rw e at k)

after_round-go :
    (later : Cursor → Result ManifestError Outcome) (round : Round) (b : Bool)
    → after_round later round ≡ ok (finished b)
    → (c : Cursor) × (round ≡ go c) × (later c ≡ ok (finished b))
after_round-go later (stop s) b h = cc
after_round-go later (go c) b h = (c, refl, h)

check_rows-step :
    (f : MigrationHistoryFormat) (final : Option MigrationIdentity) (row : Row) (rows : List Row)
    (c : Cursor) (b : Bool)
    → check_rows f final (row ∷ rows) c ≡ ok (finished b)
    → (c' : Cursor) × (check_row f final c row ≡ ok (go c'))
      × (check_rows f final rows c' ≡ ok (finished b))
unfolding check_rows
check_rows-step f final row rows c b h =
    let (round, r, k) = >>=-returns (check_row f final c row) _ h in
    let (c', e, later) = after_round-go (check_rows f final rows) round b k in (c', cc, later)

-- Once a row lies beyond the manifest, the history is newer.
beyond-newer :
    (f : MigrationHistoryFormat) (final : Option MigrationIdentity) (rows : List Row) (c : Cursor)
    (b : Bool)
    → c.rest ≡ []
    → c.is_newer ≡ true
    → check_rows f final rows c ≡ ok (finished b)
    → b ≡ true
beyond-newer f final [] c b e n h = unfold check_rows in (ground arith)
beyond-newer f final (row ∷ rows) c b e n h =
    let (c', r, k) = check_rows-step f final row rows c b h in
    let past = round-beyond f final c c' row e r in beyond-newer f final rows c' b past.0 past.1 k

check_rows-Records :
    (f : MigrationHistoryFormat) (final : Option MigrationIdentity) (rows : List Row) (c : Cursor)
    (ms : List MigrationIdentity)
    → c.rest ≡ ms
    → check_rows f final rows c ≡ ok (finished false)
    → Records f rows ms
check_rows-Records f final [] c ms e h = tt
check_rows-Records f final (row ∷ rows) c [] e h =
    let (c', r, k) = check_rows-step f final row rows c false h in
    let past = round-beyond f final c c' row e r in
    cc (beyond-newer f final rows c' false past.0 past.1 k)
check_rows-Records f final (row ∷ rows) c (m ∷ ms) e h =
    let (c', r, k) = check_rows-step f final row rows c false h in
    let found = round-within f final c c' row m ms e r in
    (found.0, check_rows-Records f final rows c' ms found.1 k)

-- The statuses under which migrations may be applied, or the database used.
abbrev pub permits : MigrationStatus → Bool
permits ready = true
permits pending = true
permits uninitialized = true
permits upgrade_required = true
permits _ = false

compare-stop :
    (f : MigrationHistoryFormat) (final : Option MigrationIdentity) (c : Cursor)
    (i : HistoryIdentity) (ms : List MigrationIdentity) (s : MigrationStatus)
    → compare_identity f final c i ms ≡ ok (stop s)
    → permits s ≡ false
compare-stop f none c i [] s h = ground arith
compare-stop f (some m) c i [] s h =
    let (t, stamp, k) = >>=-returns (migration_timestamp m.name) _ h in ground arith
compare-stop f final c i (m ∷ rest) s h =
    let (t, stamp, k) = >>=-returns (migration_timestamp m.name) _ h in ground arith

check_identity-stop :
    (f : MigrationHistoryFormat) (final : Option MigrationIdentity) (c : Cursor)
    (o : Option HistoryIdentity) (s : MigrationStatus)
    → check_identity f final c o ≡ ok (stop s)
    → permits s ≡ false
check_identity-stop f final c none s h = ground arith
check_identity-stop f final c (some i) s h =
    elim (Bool-cases (leb i.id c.previous_id || leb i.date c.previous_date)) [
      | inl e ↦ ground arith
      | inr e ↦ compare-stop f final c i c.rest s (ground arith)
    ]

after_round-stopped :
    (f : MigrationHistoryFormat) (final : Option MigrationIdentity) (row : Row) (c : Cursor)
    (later : Cursor → Result ManifestError Outcome) (s : MigrationStatus) (round : Round)
    → ((c' : Cursor) → later c' ≡ ok (stopped s) → permits s ≡ false)
    → check_row f final c row ≡ ok round
    → after_round later round ≡ ok (stopped s)
    → permits s ≡ false
unfolding check_row
after_round-stopped f final row c later s (stop s') ih r k =
    check_identity-stop f final c (history_identity row f) s (cc)
after_round-stopped f final row c later s (go c') ih r k = ih c' k

-- Every status that stops the rounds forbids migrating.
check_rows-stopped :
    (f : MigrationHistoryFormat) (final : Option MigrationIdentity) (rows : List Row) (c : Cursor)
    (s : MigrationStatus)
    → check_rows f final rows c ≡ ok (stopped s)
    → permits s ≡ false
unfolding check_rows
check_rows-stopped f final [] c s h = cc
check_rows-stopped f final (row ∷ rows) c s h =
    let (round, r, k) = >>=-returns (check_row f final c row) _ h in
    after_round-stopped f final row c (check_rows f final rows) s round
      (λ c'. check_rows-stopped f final rows c' s) r k

-- The statement below, for the loop's outcome.
abbrev pub Reported :
    MigrationHistoryFormat → List MigrationIdentity → List Row → MigrationState → Type 0
Reported f ms rows st =
    ((permits st.status ≡ false) × (st.applied ≡ 0) × (st.pending_migrations ≡ []))
    ⊎ ((permits st.status ≡ true)
        × Records f rows ms
        × (st.applied ≡ length rows)
        × (st.pending_migrations ≡ drop (length rows) ms))

permits-compatible :
    (f : MigrationHistoryFormat) (n k : ℕ) → permits (compatible_status f n k) ≡ true
permits-compatible f n k = ground arith

outcome-Reported :
    (f : MigrationHistoryFormat) (ms : List MigrationIdentity) (rows : List Row) (o : Outcome)
    (c : Cursor)
    → c.rest ≡ ms
    → check_rows f (last? ms) rows c ≡ ok o
    → Reported f ms rows (outcome_state f ms rows o)
outcome-Reported f ms rows (stopped s) c e h =
    inl (check_rows-stopped f (last? ms) rows c s h, refl, refl)
outcome-Reported f ms rows (finished true) c e h = inl (refl, refl, refl)
outcome-Reported f ms rows (finished false) c e h = inr (
  permits-compatible f (length rows) (length ms),
  check_rows-Records f (last? ms) rows c ms e h,
  refl,
  refl,
)

-- What a classified history says. Either it forbids migrating, and then nothing is applied and
-- nothing pending; or its rows record the first migrations of the manifest one by one, with their
-- dates, hashes and names, and exactly the migrations after those are pending.
pub classify-Records :
    (ms : List MigrationIdentity) (rows : List Row) (f : MigrationHistoryFormat)
    (st : MigrationState)
    → classify_migration_history ms rows f ≡ ok st
    → ((permits st.status ≡ false) × (st.applied ≡ 0) × (st.pending_migrations ≡ []))
      ⊎ ((permits st.status ≡ true)
          × Records f rows ms
          × (st.applied ≡ length rows)
          × (st.pending_migrations ≡ drop (length rows) ms))
unfolding classify_migration_history
classify-Records ms rows f st h =
    let (is, parsed, h1) = >>=-returns (parse_migration_manifest (manifest_json ms)) _ h in
    let (o, checked, h2) = >>=-returns (check_rows f (last? is) rows (start is)) _ h1 in
    let reported = outcome-Reported f is rows o (start is) refl checked in
    subst₂ (λ l s. Reported f l rows s) {u = outcome_state f is rows o} {v = st}
      (parse_migration_manifest-eq ms is parsed) (cc) reported

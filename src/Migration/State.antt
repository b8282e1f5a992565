-- ===== src/Migration/State.antt =====
-- packages/models/src/migration-state.ts: what a database's migration history says against the
-- bundled manifest. The rows of the history and of the catalogs are what the queries return.
pub mod History
pub mod Replay
use drfed.Common.{
  ℕ, suc, ◌+◌, ◌-◌, ◌*◌, ◌/◌, ◌^◌, String, Bool, true, false, not, ◌&&◌, ◌||◌, Option, none, some,
  List, [], ◌∷◌, ◌++◌, map, ltb, leb, ◌==◌, str_eq, length, drop, last?, all, any, if◌then◌else◌,
}
use drfed.Common.Result.{Result, ok, err, ◌>>=◌, ◌>>◌, throw_if}
use drfed.Common.Text.{codes, is_digit, decimal, sort_texts, join_texts, same_codes}
use drfed.Migration.Manifest.{
  MigrationIdentity, ManifestError, epoch, migration_timestamp, is_sha256, parse_migration_manifest,
  manifest_json,
}

pub data MigrationHistoryFormat : Type 0 where
  current legacy : MigrationHistoryFormat

pub data MigrationStatus : Type 0 where
  ready pending uninitialized upgrade_required modified newer diverged untracked_schema
        unsupported_format :
      MigrationStatus

pub record MigrationState : Type 0 where
  pub status : MigrationStatus
  pub format : Option MigrationHistoryFormat
  pub applied : ℕ
  pub pending_migrations : List MigrationIdentity

-- A column's value: a number or a bigint that is a nonnegative integer, a text, SQL NULL, or any
-- other value.
pub data Cell : Type 0 where
  number bigint : ℕ → Cell
  text : String → Cell
  sql_null other : Cell

pub record Row : Type 0 where
  pub id : Cell
  pub created_at : Cell
  pub hash : Cell
  pub name : Cell
  pub applied_at : Cell

abbrev pub max_safe_integer : ℕ
max_safe_integer = 2 ^ 53 - 1

abbrev pub safe : ℕ → Option ℕ
safe n = if leb n max_safe_integer then some n else none

-- `/^\d+$/u`
abbrev pub is_number_text : List ℕ → Bool
is_number_text [] = false
is_number_text (c ∷ cs) = all is_digit (c ∷ cs)

-- `Number(value)` of a larger bigint is rounded, and stays above the safe integers.
unfoldable pub integer : Cell → Option ℕ
integer (number n) = safe n
integer (bigint n) = safe n
integer (text s) = if is_number_text (codes s) then safe (decimal 0 (codes s)) else none
integer _ = none

-- What `historyIdentity` returns; the date counts from `epoch`, as a timestamp does.
pub record HistoryIdentity : Type 0 where
  pub id : ℕ
  pub date : ℕ
  pub hash : String
  pub name : Cell

abbrev pub is_legacy_date : MigrationHistoryFormat → Cell → Bool
is_legacy_date legacy applied_at = true
is_legacy_date current sql_null = true
is_legacy_date current _ = false

abbrev pub has_timestamp : Result ManifestError ℕ → ℕ → Bool
has_timestamp (ok t) date = t == date
has_timestamp (err e) date = false

-- `if (format === "current") …`
abbrev pub is_named_so : MigrationHistoryFormat → Cell → ℕ → Bool
is_named_so legacy name date = true
is_named_so current (text name) date = has_timestamp (migration_timestamp name) date
is_named_so current _ date = false

abbrev pub row_date : Bool → ℕ → ℕ
row_date is_legacy raw = epoch + (if is_legacy then raw / 1000 * 1000 else raw)

abbrev pub identity_of :
    Row → MigrationHistoryFormat → Option ℕ → Option ℕ → Cell → Option HistoryIdentity
identity_of row format (some id) (some raw) (text hash) =
    let date = row_date (is_legacy_date format row.applied_at) raw in
    if is_sha256 hash && is_named_so format row.name date
    then some (record { id = id; date = date; hash = hash; name = row.name })
    else none
identity_of row format _ _ _ = none

-- `historyIdentity`
unfoldable pub history_identity : Row → MigrationHistoryFormat → Option HistoryIdentity
history_identity row format =
    identity_of row format (integer row.id) (integer row.created_at) row.hash

-- The variables of the loop of `classifyMigrationHistory`; `rest` are the identities from `index`.
pub record Cursor : Type 0 where
  pub rest : List MigrationIdentity
  pub previous_id : ℕ
  pub previous_date : ℕ
  pub is_newer : Bool

-- One round of the loop returns a status, or goes on.
pub data Round : Type 0 where
  stop : MigrationStatus → Round
  go : Cursor → Round

abbrev pub is_other_name : MigrationHistoryFormat → Cell → String → Bool
is_other_name legacy name expected = false
is_other_name current (text name) expected = not (str_eq name expected)
is_other_name current _ expected = true

-- The part of a round for a row past the last identity.
abbrev pub beyond : Option MigrationIdentity → HistoryIdentity → Result ManifestError Round
beyond none i = ok (stop diverged)
beyond (some final) i = do
  t ← migration_timestamp final.name
  ok (
      if leb i.date t
      then stop diverged
      else go (record { rest = []; previous_id = i.id; previous_date = i.date; is_newer = true }))

abbrev pub compare_identity :
    MigrationHistoryFormat
    → Option MigrationIdentity
    → Cursor
    → HistoryIdentity
    → List MigrationIdentity
    → Result ManifestError Round
compare_identity format final c i [] = beyond final i
compare_identity format final c i (expected ∷ rest) = do
  t ← migration_timestamp expected.name
  ok (
      if not (i.date == t) || is_other_name format i.name expected.name
      then stop diverged
      else if not (str_eq i.hash expected.sha256)
      then stop modified
      else go (record {
        rest = rest;
        previous_id = i.id;
        previous_date = i.date;
        is_newer = c.is_newer;
      }))

abbrev pub check_identity :
    MigrationHistoryFormat
    → Option MigrationIdentity
    → Cursor
    → Option HistoryIdentity
    → Result ManifestError Round
check_identity format final c none = ok (stop diverged)
check_identity format final c (some i) =
    if leb i.id c.previous_id || leb i.date c.previous_date
    then ok (stop diverged)
    else compare_identity format final c i c.rest

unfoldable pub check_row :
    MigrationHistoryFormat → Option MigrationIdentity → Cursor → Row → Result ManifestError Round
check_row format final c row = check_identity format final c (history_identity row format)

-- The loop: the status that stopped it, or whether rows lie beyond the manifest.
pub data Outcome : Type 0 where
  stopped : MigrationStatus → Outcome
  finished : Bool → Outcome

abbrev pub after_round :
    (Cursor → Result ManifestError Outcome) → Round → Result ManifestError Outcome
after_round later (stop s) = ok (stopped s)
after_round later (go c) = later c

unfoldable pub check_rows :
    MigrationHistoryFormat
    → Option MigrationIdentity
    → List Row
    → Cursor
    → Result ManifestError Outcome
check_rows format final [] c = ok (finished c.is_newer)
check_rows format final (row ∷ rows) c = do
  round ← check_row format final c row
  after_round (check_rows format final rows) round

abbrev pub incompatible : MigrationHistoryFormat → MigrationStatus → MigrationState
incompatible format s = record {
  status = s;
  format = some format;
  applied = 0;
  pending_migrations = [];
}

abbrev pub compatible_status : MigrationHistoryFormat → ℕ → ℕ → MigrationStatus
compatible_status legacy rows identities = upgrade_required
compatible_status current rows identities =
    if rows == 0 then uninitialized else if rows == identities then ready else pending

abbrev pub outcome_state :
    MigrationHistoryFormat → List MigrationIdentity → List Row → Outcome → MigrationState
outcome_state format identities rows (stopped s) = incompatible format s
outcome_state format identities rows (finished true) = incompatible format newer
outcome_state format identities rows (finished false) = record {
  status = compatible_status format (length rows) (length identities);
  format = some format;
  applied = length rows;
  pending_migrations = drop (length rows) identities;
}

abbrev pub start : List MigrationIdentity → Cursor
start identities = record {
  rest = identities;
  previous_id = 0;
  previous_date = epoch - 1;
  is_newer = false;
}

unfoldable pub classify_migration_history :
    List MigrationIdentity → List Row → MigrationHistoryFormat → Result ManifestError MigrationState
classify_migration_history manifest rows format = do
  identities ← parse_migration_manifest (manifest_json manifest)
  outcome ← check_rows format (last? identities) rows (start identities)
  ok (outcome_state format identities rows outcome)

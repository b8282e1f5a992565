-- ===== src/Migration/Manifest.antt =====
-- packages/models/src/migration-manifest.ts: timestamps of migration names, and the manifest.
-- A timestamp counts milliseconds from 0000-01-01, so that every four-digit year is a number;
-- `epoch` is 1970-01-01.
pub mod Laws
use drfed.Common.{
  ℕ, suc, ◌+◌, ◌-◌, ◌*◌, ◌/◌, ◌%◌, String, Bool, true, false, not, ◌&&◌, ◌||◌, Option, none, some,
  List, [], ◌∷◌, ltb, leb, ◌==◌, str_eq, length, take, drop, all, any, if◌then◌else◌,
}
use drfed.Common.Result.{Result, ok, err, ◌>>=◌, ◌>>◌, throw_if}
use drfed.Common.Text.{
  codes, is_digit, is_lower, is_upper, decimal, sort_texts, join_texts, same_codes,
}
use drfed.Common.Json.{
  Json, Items, Fields, text, num, array, object, nil, cons, end, field, property, keys,
}

pub data ManifestError : Type 0 where
  invalid_name invalid_timestamp unsupported_format invalid_entry not_increasing rewritten :
      ManifestError

-- The `MigrationIdentity` interface.
pub record MigrationIdentity : Type 0 where
  pub name : String
  pub sha256 : String

abbrev pub is_leap : ℕ → Bool
is_leap y = (y % 4 == 0) && (not (y % 100 == 0) || (y % 400 == 0))

-- The days of the months from January, in a common or a leap year.
abbrev pub month_lengths : Bool → List ℕ
month_lengths leap =
    31 ∷ (if leap then 29 else 28) ∷ 31 ∷ 30 ∷ 31 ∷ 30 ∷ 31 ∷ 31 ∷ 30 ∷ 31 ∷ 30 ∷ 31 ∷ []

abbrev pub sum : List ℕ → ℕ
sum [] = 0
sum (n ∷ ns) = n + sum ns

abbrev pub days_before_year : ℕ → ℕ
days_before_year y = 365 * y + (y + 3) / 4 + (y + 399) / 400 - (y + 99) / 100

abbrev pub day_ms : ℕ
day_ms = 86400000

abbrev pub epoch : ℕ
epoch = 719528 * day_ms

-- The parts of `YYYYMMDDhhmmss`.
pub record Stamp : Type 0 where
  pub year : ℕ
  pub month : ℕ
  pub day : ℕ
  pub hour : ℕ
  pub minute : ℕ
  pub second : ℕ

abbrev pub slice : ℕ → ℕ → List ℕ → ℕ
slice from to cs = decimal 0 (take (to - from) (drop from cs))

abbrev pub stamp_of : List ℕ → Stamp
stamp_of cs = record {
  year = slice 0 4 cs;
  month = slice 4 6 cs;
  day = slice 6 8 cs;
  hour = slice 8 10 cs;
  minute = slice 10 12 cs;
  second = slice 12 14 cs;
}

-- `new Date(Date.parse(iso)).toISOString() === iso`: the parts are those of a real UTC time.
unfoldable pub is_real : Stamp → Bool
is_real s =
    leb 1 s.month
    && leb s.month 12
    && leb 1 s.day
    && leb s.day (sum (take 1 (drop (s.month - 1) (month_lengths (is_leap s.year)))))
    && ltb s.hour 24
    && ltb s.minute 60
    && ltb s.second 60

-- `Date.parse(iso)`
unfoldable pub milliseconds : Stamp → ℕ
milliseconds s =
    (days_before_year s.year
        + sum (take (s.month - 1) (month_lengths (is_leap s.year)))
        + (s.day - 1))
      * day_ms
    + s.hour * 3600000
    + s.minute * 60000
    + s.second * 1000

abbrev pub is_name_char : ℕ → Bool
is_name_char c = is_lower c || is_upper c || is_digit c || c == b'_' || c == b'-'

abbrev pub is_name_suffix : List ℕ → Bool
is_name_suffix (c ∷ d ∷ rest) = c == b'_' && all is_name_char (d ∷ rest)
is_name_suffix _ = false

-- `/^\d{14}_[a-zA-Z0-9_-]+$/u`
unfoldable pub is_directory_name : List ℕ → Bool
is_directory_name cs =
    (length (take 14 cs) == 14) && all is_digit (take 14 cs) && is_name_suffix (drop 14 cs)

unfoldable pub migration_timestamp : String → Result ManifestError ℕ
migration_timestamp name = do
  throw_if (not (is_directory_name (codes name))) invalid_name
  throw_if (not (is_real (stamp_of (codes name)))) invalid_timestamp
  ok (milliseconds (stamp_of (codes name)))

-- `/^[a-f0-9]{64}$/u`
unfoldable pub is_sha256 : String → Bool
is_sha256 s =
    (length (codes s) == 64) && all (λ c. (leb b'a' c && leb c b'f') || is_digit c) (codes s)

-- `Object.keys(value).sort().join(",") !== expected`, negated.
unfoldable pub has_keys : String → Fields → Bool
unfolding sort_texts join_texts same_codes keys
has_keys expected fs = same_codes (join_texts (sort_texts (keys fs))) (codes expected)

abbrev pub as_text : Option Json → Option String
as_text (some (text s)) = some s
as_text _ = none

-- `timestamp <= previous`, where none is -Infinity.
abbrev pub follows : Option ℕ → ℕ → Bool
follows none t = true
follows (some p) t = ltb p t

abbrev pub check_entry : Option String → Option String → Result ManifestError MigrationIdentity
check_entry (some name) (some sha256) = do
  throw_if (not (is_sha256 sha256)) invalid_entry
  ok (record { name = name; sha256 = sha256 })
check_entry _ _ = err invalid_entry

-- The checks of one entry before its timestamp is read.
unfoldable pub parse_entry : Json → Result ManifestError MigrationIdentity
parse_entry (object fs) =
    if has_keys "name,sha256" fs
    then check_entry (as_text (property "name" fs)) (as_text (property "sha256" fs))
    else err invalid_entry
parse_entry _ = err invalid_entry

-- The loop over `value.migrations`, from the previous timestamp.
unfoldable pub parse_entries : Option ℕ → Items → Result ManifestError (List MigrationIdentity)
parse_entries previous nil = ok []
parse_entries previous (cons entry rest) = do
  identity ← parse_entry entry
  timestamp ← migration_timestamp identity.name
  throw_if (not (follows previous timestamp)) not_increasing
  migrations ← parse_entries (some timestamp) rest
  ok (identity ∷ migrations)

abbrev pub parse_members : Option Json → Option Json → Result ManifestError (List MigrationIdentity)
parse_members (some (num version)) (some (array entries)) =
    if str_eq version "1" then parse_entries none entries else err unsupported_format
parse_members _ _ = err unsupported_format

-- `parseMigrationManifest`. A manifest is its migrations, since its format version is always 1.
unfoldable pub parse_migration_manifest : Json → Result ManifestError (List MigrationIdentity)
parse_migration_manifest (object fs) =
    if has_keys "formatVersion,migrations" fs
    then parse_members (property "formatVersion" fs) (property "migrations" fs)
    else err unsupported_format
parse_migration_manifest _ = err unsupported_format

abbrev pub entry_json : MigrationIdentity → Json
entry_json m = object (field "name" (text m.name) (field "sha256" (text m.sha256) end))

abbrev pub entries_json : List MigrationIdentity → Items
entries_json [] = nil
entries_json (m ∷ ms) = cons (entry_json m) (entries_json ms)

-- A `MigrationManifest` object, as callers pass it to functions that parse it again.
abbrev pub manifest_json : List MigrationIdentity → Json
manifest_json ms =
    object (field "formatVersion" (num "1") (field "migrations" (array (entries_json ms)) end))

abbrev pub same_identity : MigrationIdentity → MigrationIdentity → Bool
same_identity a b = str_eq a.name b.name && str_eq a.sha256 b.sha256

-- The negation of `old.migrations.some(…)`: each entry stands at its index in `next`.
unfoldable pub keeps_prefix : List MigrationIdentity → List MigrationIdentity → Bool
keeps_prefix [] next = true
keeps_prefix (m ∷ old) [] = false
keeps_prefix (m ∷ old) (n ∷ next) = same_identity n m && keeps_prefix old next

-- `assertMigrationManifestPrefix`
unfoldable pub assert_migration_manifest_prefix :
    List MigrationIdentity → List MigrationIdentity → Result ManifestError (Unit {0})
assert_migration_manifest_prefix baseline current = do
  old ← parse_migration_manifest (manifest_json baseline)
  next ← parse_migration_manifest (manifest_json current)
  throw_if (not (keeps_prefix old next)) rewritten

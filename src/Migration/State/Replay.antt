-- ===== src/Migration/State/Replay.antt =====
-- A history that records the manifest's first migrations is recognised, also by an older manifest.
use drfed.Common.{
  ℕ, ◌≤◌, ◌<◌, ◌≡◌, refl, sym, true, Option, none, some, List, [], ◌∷◌, arith, eq_refl, length,
  drop, last?, ==-refl, lt→leb-false,
}
use mathlib.Core.Path.{subst}
use drfed.Common.Result.{ok}
use drfed.Migration.Manifest.{MigrationIdentity, epoch, follows}
use drfed.Migration.Manifest.Laws.{IsManifest, parse_migration_manifest-manifest_json}
use drfed.Migration.State.{
  MigrationHistoryFormat, Row, Cell, HistoryIdentity, history_identity, integer, identity_of,
  Cursor, go, compare_identity, check_row, finished, check_rows, compatible_status, start,
  classify_migration_history,
}
use drfed.Migration.State.History.{Recorded, Records}

-- The rows carry increasing ids, all above the given one.
abbrev pub IdsIncrease : MigrationHistoryFormat → ℕ → List Row → Type 0
IdsIncrease f previous [] = Unit
IdsIncrease f previous (row ∷ rows) =
    (i : HistoryIdentity) × (history_identity row f ≡ some i)
    × (previous < i.id)
    × IdsIncrease f i.id rows

identity_of-date :
    (row : Row) (f : MigrationHistoryFormat) (a b : Option ℕ) (h : Cell) (i : HistoryIdentity)
    → identity_of row f a b h ≡ some i
    → epoch ≤ i.date
identity_of-date row f (some a) (some b) (Cell.text h) i e = ground arith
identity_of-date row f a b h i e = cc

-- A row's date is no earlier than 1970.
date-epoch :
    (row : Row) (f : MigrationHistoryFormat) (i : HistoryIdentity)
    → history_identity row f ≡ some i
    → epoch ≤ i.date
unfolding history_identity
date-epoch row f i e = identity_of-date row f (integer row.id) (integer row.created_at) row.hash i e

compare_complete :
    (f : MigrationHistoryFormat) (final : Option MigrationIdentity) (c : Cursor) (row : Row)
    (m : MigrationIdentity) (rest : List MigrationIdentity) (r : Recorded f row m)
    → compare_identity f final c r.identity (m ∷ rest)
      ≡ ok (
          go (record {
            rest = rest;
            previous_id = r.identity.id;
            previous_date = r.identity.date;
            is_newer = c.is_newer;
          }))
compare_complete f final c row m rest r =
    rw (r.dated, r.named, r.hashed, eq_refl m.sha256, ==-refl r.identity.date) refl

check_row_complete :
    (f : MigrationHistoryFormat) (final : Option MigrationIdentity) (c : Cursor) (row : Row)
    (m : MigrationIdentity) (rest : List MigrationIdentity) (r : Recorded f row m)
    → c.rest ≡ m ∷ rest
    → c.previous_id < r.identity.id
    → c.previous_date < r.identity.date
    → check_row f final c row
      ≡ ok (
          go (record {
            rest = rest;
            previous_id = r.identity.id;
            previous_date = r.identity.date;
            is_newer = c.is_newer;
          }))
unfolding check_row
check_row_complete f final c row m rest r e a b =
    rw
      (
        r.found,
        lt→leb-false c.previous_id r.identity.id a,
        lt→leb-false c.previous_date r.identity.date b,
        e,
      )
      (compare_complete f final c row m rest r)

-- The previous date of the loop agrees with the previous timestamp of the manifest.
abbrev Fits : Option ℕ → ℕ → Type 0
Fits none date = date < epoch
Fits (some t) date = date ≡ t

Fits-lt : (p : Option ℕ) (date t : ℕ) → Fits p date → follows p t ≡ true → epoch ≤ t → date < t
Fits-lt none date t a b c = omega arith
Fits-lt (some u) date t a b c = ground arith

abbrev after :
    MigrationHistoryFormat → Row → Cursor → List MigrationIdentity → HistoryIdentity → Cursor
after f row c rest i = record {
  rest = rest;
  previous_id = i.id;
  previous_date = i.date;
  is_newer = c.is_newer;
}

IdsIncrease-identity :
    (f : MigrationHistoryFormat) (previous : ℕ) (row : Row) (rows : List Row) (i : HistoryIdentity)
    → history_identity row f ≡ some i
    → IdsIncrease f previous (row ∷ rows)
    → (previous < i.id) × IdsIncrease f i.id rows
IdsIncrease-identity f previous row rows i found (j, found', lt, rest) =
    let same : j ≡ i = cc in
    (rw same at lt, subst (λ (k : HistoryIdentity). IdsIncrease f k.id rows) same rest)

check_rows_complete :
    (f : MigrationHistoryFormat) (final : Option MigrationIdentity) (rows : List Row) (c : Cursor)
    {p : Option ℕ} {ms : List MigrationIdentity}
    → IsManifest p ms
    → c.rest ≡ ms
    → Records f rows ms
    → IdsIncrease f c.previous_id rows
    → Fits p c.previous_date
    → check_rows f final rows c ≡ ok (finished c.is_newer)
unfolding check_rows
check_rows_complete f final [] c m e r i fit = refl
check_rows_complete f final (row ∷ rows) c IsManifest.empty e r i fit = absurd r
check_rows_complete f final (row ∷ rows) c {p = p}
      (IsManifest.next {m = m} {ms = ms} t hash stamp order later) e r i fit =
    let found = r.0 in
    let ids = IdsIncrease-identity f c.previous_id row rows found.identity found.found i in
    let same : t ≡ found.identity.date = ground (arith, stamp, found.dated) in
    let follow =
      Fits-lt p c.previous_date t fit order
        (rw same (date-epoch row f found.identity found.found)) in
    rw (check_row_complete f final c row m ms found e ids.0 (rw same at follow)) (
      check_rows_complete f final rows (after f row c ms found.identity) later refl r.1 ids.1
        (sym same))

pub classify_complete :
    (ms : List MigrationIdentity) (rows : List Row) (f : MigrationHistoryFormat)
    → IsManifest none ms
    → Records f rows ms
    → IdsIncrease f 0 rows
    → classify_migration_history ms rows f
      ≡ ok (record {
        status = compatible_status f (length rows) (length ms);
        format = some f;
        applied = length rows;
        pending_migrations = drop (length rows) ms;
      })
unfolding classify_migration_history
classify_complete ms rows f m r i =
    rw
      (
        parse_migration_manifest-manifest_json ms m,
        check_rows_complete f (last? ms) rows (start ms) m refl r i (omega arith),
      )
      refl

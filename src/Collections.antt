-- ===== src/Collections.antt =====
-- packages/federation/src/collection.ts: the pages of an actor's outbox, and the cursors between them.
-- `Served` is a row of the actor's activities that may be shown; the items that the federation library
-- makes of it are left out. What PostgreSQL, Temporal and the UUID package make of the texts in a
-- cursor is `Codec`.
pub mod Order
mod Cursors
pub mod Walk
mod Examples
use drfed.Common.{
  ℕ, zero, suc, Bool, true, false, not, ◌&&◌, ◌||◌, Option, none, some, List, [], ◌∷◌, ◌++◌, length,
  take, select, last?, ltb, leb, ◌==◌, if◌then◌else◌,
}
use drfed.Common.Text.{codes, is_digit, same_codes}
use drfed.Common.Sort.{sort_by}
use drfed.Revision.{Uuid, Instant}
use drfed.Delivery.{Text}

-- A row: when it was published, in microseconds, and its id.
pub record Served : Type 0 where
  pub published : Instant
  pub id : Uuid

-- `(published, id) < (published, id)`
abbrev pub is_earlier : Served → Served → Bool
is_earlier a b = ltb a.published b.published || a.published == b.published && ltb a.id b.id

-- `ORDER BY published DESC, id DESC`
abbrev pub newest_first : Served → Served → Bool
newest_first a b = ltb b.published a.published || a.published == b.published && leb b.id a.id

-- Texts of timestamps and ids, and what is read of a text; none where it is refused.
pub record Codec : Type 0 where
  pub time_text : Instant → Text
  pub id_text : Uuid → Text
  pub timestamp : Text → Option Instant
  pub uuid_of : Text → Option Uuid

-- A boundary, the first page, or invalid input.
pub data Cursor : Type 0 where
  first_page invalid : Cursor
  after : Served → Cursor

abbrev pub onto : ℕ → List Text → List Text
onto c [] = (c ∷ []) ∷ []
onto c (t ∷ ts) = (c ∷ t) ∷ ts

-- `cursor.split("|")`
unfoldable pub split_bars : Text → List Text
split_bars [] = [] ∷ []
split_bars (c ∷ cs) = let rest = split_bars cs in if c == b'|' then [] ∷ rest else onto c rest

-- A regular expression of fixed length, where a `d` stands for a digit.
unfoldable pub fits : Text → Text → Bool
fits [] [] = true
fits (t ∷ ts) (c ∷ cs) = (if t == b'd' then is_digit c else c == t) && fits ts cs
fits _ _ = false

abbrev pub time_pattern : Text
time_pattern = codes "dddd-dd-ddTdd:dd:dd.ddddddZ"

-- `published.startsWith("0000-")`
unfoldable pub starts_with : Text → Text → Bool
starts_with [] cs = true
starts_with (t ∷ ts) (c ∷ cs) = c == t && starts_with ts cs
starts_with (t ∷ ts) [] = false

abbrev pub boundary_of : Option Instant → Option Uuid → Cursor
boundary_of (some t) (some id) = after (record { published = t; id = id })
boundary_of _ _ = invalid

abbrev pub parse_parts : Codec → List Text → Cursor
parse_parts c (t ∷ i ∷ []) =
    if starts_with (codes "0000-") t || not (fits time_pattern t)
    then invalid
    else boundary_of (c.timestamp t) (c.uuid_of i)
parse_parts c _ = invalid

-- `parseOutboxCursor`
unfoldable pub parse_outbox_cursor : Codec → Text → Cursor
parse_outbox_cursor c [] = first_page
parse_outbox_cursor c (x ∷ xs) = parse_parts c (split_bars (x ∷ xs))

abbrev pub format_cursor : Codec → Served → Text
format_cursor c row = c.time_text row.published ++ b'|' ∷ c.id_text row.id

pub record Page : Type 0 where
  pub items : List Served
  pub next : Option Text

abbrev pub outbox_page_size : ℕ
outbox_page_size = 20

abbrev pub cursor_at : Codec → Option Served → Option Text
cursor_at c none = none
cursor_at c (some row) = some (format_cursor c row)

-- The page of the rows that the query found, one more than a page if there are more.
abbrev pub page_of : Codec → ℕ → List Served → Page
page_of c size rows = record {
  items = take size rows;
  next = if ltb size (length rows) then cursor_at c (last? (take size rows)) else none;
}

-- The rows of the query: those before the boundary, in order.
abbrev pub beyond : Cursor → List Served → Option (List Served)
beyond invalid rows = none
beyond first_page rows = some rows
beyond (after b) rows = some (select (λ a. is_earlier a b) rows)

abbrev pub page_found : Codec → ℕ → Option (List Served) → Option Page
page_found c size none = none
page_found c size (some rows) = some (page_of c size (take (suc size) rows))

-- The outbox dispatcher, for an actor that is active.
unfoldable pub outbox_page : Codec → ℕ → List Served → Text → Option Page
outbox_page c size rows cursor =
    page_found c size (beyond (parse_outbox_cursor c cursor) (sort_by newest_first rows))

-- A reader that follows the cursors, for so many pages.
abbrev pub read_next : (Text → List (List Served)) → Option Text → List (List Served)
read_next more none = []
read_next more (some cursor) = more cursor

abbrev pub read_on : (Text → List (List Served)) → Option Page → List (List Served)
read_on more none = []
read_on more (some page) = page.items ∷ read_next more page.next

unfoldable pub walk : Codec → ℕ → ℕ → List Served → Text → List (List Served)
walk c zero size rows cursor = []
walk c (suc fuel) size rows cursor =
    read_on (walk c fuel size rows) (outbox_page c size rows cursor)

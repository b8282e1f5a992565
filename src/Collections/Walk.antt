-- ===== src/Collections/Walk.antt =====
-- packages/federation/src/collection.ts: a reader that follows the cursors of an outbox sees all of it.
use mathlib.Core.Path.{subst}
use drfed.Common.{
  ℕ, zero, suc, ◌*◌, ◌≤◌, ◌<◌, ◌≡◌, refl, ap, ◌∙◌, inl, inr, Bool, true, false, Option, none, some,
  List, [], ◌∷◌, ◌++◌, All, arith, length, take, drop, last?, ltb, if◌then◌else◌, Bool-cases,
  append-nil, take-append-drop, length-take, length-drop,
}
use drfed.Common.Sort.{insert_by, sort_by}
use drfed.Delivery.{Text}
use drfed.Collections.{
  Served, newest_first, Codec, page_of, page_found, beyond, outbox_page_size, outbox_page,
  parse_outbox_cursor, format_cursor, cursor_at, read_on, read_next, walk,
}
use drfed.Collections.Order.{
  AreKeyed, Descends, Descends-sort_by, Descends-drop, rows_before, rows_before-last, last-All,
  All-sort_by, All-drop, Sees, Sees-rows_before, Sees_self,
}
use drfed.Collections.Cursors.{IsReadable, parse_outbox_cursor-format_cursor}

abbrev pub all_items : List (List Served) → List Served
all_items [] = []
all_items (page ∷ pages) = page ++ all_items pages

take-take : (n : ℕ) (rs : List Served) → take n (take (suc n) rs) ≡ take n rs
take-take zero rs = refl
take-take (suc n) [] = refl
take-take (suc n) (r ∷ rs) = ap (λ (l : List Served). r ∷ l) (take-take n rs)

more-rows : (n : ℕ) (rs : List Served) → ltb n (length (take (suc n) rs)) ≡ ltb n (length rs)
more-rows n rs = ground (arith, length-take (suc n) rs)

last-found :
    (n : ℕ) (rs : List Served) → n < length rs → (x : Served) × (last? (take (suc n) rs) ≡ some x)
last-found n [] h = absurd (omega (arith, h))
last-found zero (r ∷ rs) h = (r, refl)
last-found (suc n) (r ∷ []) h = absurd (omega (arith, h))
last-found (suc n) (r ∷ s ∷ rs) h = last-found n (s ∷ rs) (omega (arith, h))

take_all : (n : ℕ) (rs : List Served) → length rs ≤ n → take n rs ≡ rs
take_all zero [] h = refl
take_all zero (r ∷ rs) h = absurd (omega (arith, h))
take_all (suc n) [] h = refl
take_all (suc n) (r ∷ rs) h = ap (λ (l : List Served). r ∷ l) (take_all n rs (omega (arith, h)))

module _ (c : Codec) (rows : List Served) (keyed : AreKeyed rows)
    (readable : All (IsReadable c) rows) where
  abbrev whole : List Served
  whole = sort_by newest_first rows

  -- Where a reader stands: the rows that are left.
  record Left (cursor : Text) (rs : List Served) : Type 0 where
    pub found : beyond (parse_outbox_cursor c cursor) whole ≡ some rs
    pub order : Descends rs
    pub sees : Sees whole rs
    pub legible : All (IsReadable c) rs

  turned :
      (cursor : Text) (rs : List Served) (x : Served)
      → Left cursor rs
      → last? (take 20 rs) ≡ some x
      → Left (format_cursor c x) (drop 20 rs)
  turned cursor rs x h e =
      let rest =
        last-All (λ y. rows_before y whole ≡ rows_before y rs) rs 20 x h.sees e
        ∙ rows_before-last rs 19 x h.order e in
      record {
        found =
            ap (λ b. beyond b whole)
              (parse_outbox_cursor-format_cursor c x (last-All (IsReadable c) rs 20 x h.legible e))
            ∙ ap some rest;
        order = Descends-drop 20 rs h.order;
        sees = subst (Sees whole) rest (Sees-rows_before whole x);
        legible = All-drop (IsReadable c) 20 rs h.legible;
      }

  page-next :
      (more : Text → List (List Served)) (rs : List Served) (b : Bool) (o : Option Served)
      → ltb 20 (length (take 21 rs)) ≡ b
      → last? (take 20 (take 21 rs)) ≡ o
      → read_on more (some (page_of c 20 (take 21 rs)))
        ≡ take 20 rs ∷ read_next more (if b then cursor_at c o else none)
  page-next more rs b o e f =
      rw (e, f)
        (ap (λ (l : List Served). l ∷ read_next more (if b then cursor_at c o else none))
          (take-take 20 rs))

  all_items-walk :
      (fuel : ℕ) (rs : List Served) (cursor : Text)
      → Left cursor rs
      → length rs ≤ fuel * 20
      → all_items (walk c fuel 20 rows cursor) ≡ rs
  unfolding walk outbox_page
  all_items-walk zero [] cursor h within = refl
  all_items-walk zero (r ∷ rs) cursor h within = absurd (omega (arith, within))
  all_items-walk (suc fuel) rs cursor h within = elim (Bool-cases (ltb 20 (length rs))) [
    | inl more ↦
        let (x, e) = last-found 19 rs (ground (arith, more)) in
        ap (λ o. all_items (read_on (walk c fuel 20 rows) (page_found c 20 o))) h.found
        ∙ ap all_items (
            page-next (walk c fuel 20 rows) rs true (some x) (more-rows 20 rs ∙ more)
              (ap last? (take-take 20 rs) ∙ e))
        ∙ ap (λ (l : List Served). take 20 rs ++ l)
            (all_items-walk fuel (drop 20 rs) (format_cursor c x) (turned cursor rs x h e)
              (omega (arith, within, length-drop 20 rs)))
        ∙ take-append-drop 20 rs
    | inr done ↦
        ap (λ o. all_items (read_on (walk c fuel 20 rows) (page_found c 20 o))) h.found
        ∙ ap all_items (
            page-next (walk c fuel 20 rows) rs false (last? (take 20 (take 21 rs)))
              (more-rows 20 rs ∙ done) refl)
        ∙ append-nil (take 20 rs)
        ∙ take_all 20 rs (ground (arith, done))
  ]

length-insert_by :
    (x : Served) (rs : List Served) → length (insert_by newest_first x rs) ≡ suc (length rs)
length-insert_by x [] = refl
length-insert_by x (r ∷ rs) = ground (arith, length-insert_by x rs)

length-sort_by : (rs : List Served) → length (sort_by newest_first rs) ≡ length rs
length-sort_by [] = refl
length-sort_by (r ∷ rs) = length-insert_by r (sort_by newest_first rs) ∙ ap suc (length-sort_by rs)

abbrev AreShort : List (List Served) → Type 0
AreShort pages = All (λ (page : List Served). length page ≤ 20) pages

read_next-AreShort :
    (more : Text → List (List Served)) (o : Option Text)
    → ((cursor : Text) → AreShort (more cursor))
    → AreShort (read_next more o)
read_next-AreShort more none h = tt
read_next-AreShort more (some cursor) h = h cursor

page-AreShort :
    (c : Codec) (more : Text → List (List Served)) (o : Option (List Served))
    → ((cursor : Text) → AreShort (more cursor))
    → AreShort (read_on more (page_found c 20 o))
page-AreShort c more none h = tt
page-AreShort c more (some rs) h = (
  omega (arith, length-take 20 (take 21 rs)),
  read_next-AreShort more (page_of c 20 (take 21 rs)).next h,
)

-- No page has more rows than its size.
walk-AreShort :
    (c : Codec) (fuel : ℕ) (rows : List Served) (cursor : Text)
    → AreShort (walk c fuel 20 rows cursor)
unfolding walk outbox_page
walk-AreShort c zero rows cursor = tt
walk-AreShort c (suc fuel) rows cursor =
    page-AreShort c (walk c fuel 20 rows)
      (beyond (parse_outbox_cursor c cursor) (sort_by newest_first rows))
      (walk-AreShort c fuel rows)

-- Let the activities of an outbox have ids of their own, and times and ids whose texts a cursor may hold
-- and that are read back. A reader who begins at the first page and follows each cursor to the next
-- page reads all of the activities in their order, newest first, within as many pages as hold them
-- at twenty a page. No page has more than twenty.
pub walk_complete :
    (c : Codec) (rows : List Served) (fuel : ℕ)
    → AreKeyed rows
    → All (IsReadable c) rows
    → length rows ≤ fuel * 20
    → (all_items (walk c fuel outbox_page_size rows []) ≡ sort_by newest_first rows)
      × All
          (λ (page : List Served). length page ≤ outbox_page_size)
          (walk c fuel outbox_page_size rows [])
unfolding parse_outbox_cursor
walk_complete c rows fuel keyed readable enough = (
  all_items-walk c rows keyed readable fuel (sort_by newest_first rows) []
      (record {
        found = refl;
        order = Descends-sort_by rows keyed;
        sees = Sees_self (sort_by newest_first rows) (sort_by newest_first rows);
        legible = All-sort_by (IsReadable c) rows readable;
      })
      (omega (arith, enough, length-sort_by rows)),
  walk-AreShort c fuel rows [],
)

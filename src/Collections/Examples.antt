-- ===== src/Collections/Examples.antt =====
-- An outbox of two activities, with one decimal digit of microseconds.
use drfed.Common.{
  ℕ, ◌+◌, ◌-◌, ◌≤◌, ◌≡◌, refl, arith, Option, none, some, List, [], ◌∷◌, ◌++◌, All, length, drop,
}
use drfed.Common.Text.{codes}
use drfed.Common.Sort.{sort_by}
use drfed.Collections.{Served, Codec, newest_first, outbox_page_size, walk, fits, starts_with}
use drfed.Collections.Cursors.{IsReadable}
use drfed.Collections.Walk.{all_items, walk_complete}

abbrev one_digit : List ℕ → Option ℕ
one_digit (c ∷ cs) = some (c - b'0')
one_digit [] = none

abbrev only : List ℕ → Option ℕ
only (c ∷ []) = some c
only _ = none

abbrev digits : Codec
digits = record {
  time_text = λ t. codes "2026-01-01T00:00:00.00000" ++ (b'0' + t) ∷ b'Z' ∷ [];
  id_text = λ i. i ∷ [];
  timestamp = λ cs. one_digit (drop 25 cs);
  uuid_of = only;
}

abbrev outbox : List Served
outbox = record { published = 3; id = 1 } ∷ record { published = 5; id = 2 } ∷ []

outbox-IsReadable : All (IsReadable digits) outbox
unfolding fits starts_with
outbox-IsReadable = (
  record { fitting = refl; dated = refl; timestamp = refl; uuid = refl; one_part = refl },
  (record { fitting = refl; dated = refl; timestamp = refl; uuid = refl; one_part = refl }, tt),
)

walk_complete_example :
    (all_items (walk digits 1 outbox_page_size outbox []) ≡ sort_by newest_first outbox)
    × All
        (λ (page : List Served). length page ≤ outbox_page_size)
        (walk digits 1 outbox_page_size outbox [])
walk_complete_example =
    walk_complete digits outbox 1 (refl, (refl, tt)) outbox-IsReadable (omega arith)

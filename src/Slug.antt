-- ===== src/Slug.antt =====
-- packages/models/src/slug.ts: the names that an instance's host may begin with. A slug is the list
-- of its code points.
mod Laws
mod Examples
use drfed.Common.{ℕ, ◌+◌, Bool, true, false, not, ◌&&◌, ◌||◌, List, [], ◌∷◌, leb, ◌==◌}
use drfed.Common.Text.{is_digit, is_lower}

abbrev pub is_letter_or_digit : ℕ → Bool
is_letter_or_digit c = is_lower c || is_digit c

-- `[a-z0-9-]`
abbrev pub is_label_char : ℕ → Bool
is_label_char c = is_letter_or_digit c || c == b'-'

-- `[a-z0-9-]{2,61}[a-z0-9]$` after n characters of the group.
unfoldable pub matches_rest : ℕ → List ℕ → Bool
matches_rest n [] = false
matches_rest n (c ∷ []) = is_letter_or_digit c && leb 2 n && leb n 61
matches_rest n (c ∷ d ∷ cs) = is_label_char c && matches_rest (n + 1) (d ∷ cs)

-- `SLUG_PATTERN`
unfoldable pub matches_slug : List ℕ → Bool
matches_slug [] = false
matches_slug (c ∷ cs) = is_letter_or_digit c && matches_rest 0 cs

-- `RESERVED_LDH_PATTERN`, on a text without line ends.
unfoldable pub is_reserved_ldh : List ℕ → Bool
is_reserved_ldh (a ∷ b ∷ c ∷ d ∷ cs) = c == b'-' && d == b'-'
is_reserved_ldh _ = false

-- `slug.startsWith(A_LABEL_PREFIX)`
unfoldable pub is_a_label : List ℕ → Bool
is_a_label (a ∷ b ∷ c ∷ d ∷ cs) = a == b'x' && b == b'n' && c == b'-' && d == b'-'
is_a_label _ = false

-- `isValidSlug`
unfoldable pub is_valid_slug : List ℕ → Bool
is_valid_slug slug = matches_slug slug && (not (is_reserved_ldh slug) || is_a_label slug)

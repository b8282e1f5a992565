-- ===== src/Common/Text.antt =====
-- Texts as lists of code points, for the regular expressions that the source tests.
use Prim.Native.Char.{code}
use drfed.Common.{
  any, ◌≡◌, refl, ◌↔◌, arith, ℕ, ◌+◌, ◌-◌, ◌*◌, String, Bool, true, false, ◌&&◌, ◌||◌, List, [],
  ◌∷◌, ◌++◌, ltb, leb, ◌==◌, if◌then◌else◌,
}

abbrev pub codes : String → List ℕ
codes String.[] = []
codes (String.◌∷◌ c s) = code c ∷ codes s

-- `\d`
abbrev pub is_digit : ℕ → Bool
is_digit c = leb b'0' c && leb c b'9'

-- `[a-z]`
abbrev pub is_lower : ℕ → Bool
is_lower c = leb b'a' c && leb c b'z'

-- `[A-Z]`
abbrev pub is_upper : ℕ → Bool
is_upper c = leb b'A' c && leb c b'Z'

-- The number that a list of digits writes in base ten.
unfoldable pub decimal : ℕ → List ℕ → ℕ
decimal n [] = n
decimal n (c ∷ cs) = decimal (n * 10 + (c - b'0')) cs

-- The order of texts by code units.
unfoldable pub before : List ℕ → List ℕ → Bool
before [] ys = true
before (x ∷ xs) [] = false
before (x ∷ xs) (y ∷ ys) = ltb x y || x == y && before xs ys

unfoldable pub insert_sorted : List ℕ → List (List ℕ) → List (List ℕ)
unfolding before
insert_sorted k [] = k ∷ []
insert_sorted k (x ∷ xs) =
    let rest = insert_sorted k xs in if before k x then k ∷ x ∷ xs else x ∷ rest

-- `keys.sort()`
unfoldable pub sort_texts : List (List ℕ) → List (List ℕ)
unfolding insert_sorted
sort_texts [] = []
sort_texts (k ∷ ks) = insert_sorted k (sort_texts ks)

-- `keys.join(",")`
unfoldable pub join_texts : List (List ℕ) → List ℕ
join_texts [] = []
join_texts (k ∷ []) = k
join_texts (k ∷ l ∷ ks) = k ++ b',' ∷ join_texts (l ∷ ks)

unfoldable pub same_codes : List ℕ → List ℕ → Bool
same_codes [] [] = true
same_codes (x ∷ xs) (y ∷ ys) = x == y && same_codes xs ys
same_codes _ _ = false

-- `[...new Set(texts)]`, without those seen
unfoldable pub distinct : List (List ℕ) → List (List ℕ) → List (List ℕ)
distinct seen [] = []
distinct seen (t ∷ ts) =
    let rest = distinct (t ∷ seen) ts in if any (λ u. same_codes u t) seen then rest else t ∷ rest

-- `${s}${t}`
unfoldable pub joined : String → String → String
joined String.[] t = t
joined (String.◌∷◌ c s) t = String.◌∷◌ c (joined s t)

pub same_codes_iff : (xs ys : List ℕ) → (same_codes xs ys ≡ true) ↔ (xs ≡ ys)
unfolding same_codes
same_codes_iff [] [] = (λ h. refl, λ h. refl)
same_codes_iff [] (y ∷ ys) = ground arith
same_codes_iff (x ∷ xs) [] = ground arith
same_codes_iff (x ∷ xs) (y ∷ ys) = ground (arith, same_codes_iff xs ys)

pub same_codes_refl : (xs : List ℕ) → same_codes xs xs ≡ true
same_codes_refl xs = (same_codes_iff xs xs).1 refl

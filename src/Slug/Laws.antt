-- ===== src/Slug/Laws.antt =====
-- packages/models/src/slug.ts: a slug is a label of the domain name system.
use drfed.Common.{
  ℕ, ◌+◌, ◌≤◌, ◌≡◌, refl, sym, ◌∙◌, ◌↔◌, Bool, true, false, not, ◌&&◌, ◌||◌, List, [], ◌∷◌, arith,
  length, all,
}
use drfed.Slug.{
  is_letter_or_digit, is_label_char, matches_rest, matches_slug, is_reserved_ldh, is_a_label,
  is_valid_slug,
}

-- The last character.
unfoldable pub ends_well : List ℕ → Bool
ends_well [] = false
ends_well (c ∷ []) = is_letter_or_digit c
ends_well (c ∷ d ∷ cs) = ends_well (d ∷ cs)

unfoldable pub starts_well : List ℕ → Bool
starts_well [] = false
starts_well (c ∷ cs) = is_letter_or_digit c

-- A label of 4 to 63 letters, digits and hyphens, with no hyphen at an end, and hyphens in its third
-- and fourth places only after xn.
pub record IsLabel (slug : List ℕ) : Type 0 where
  pub long : 4 ≤ length slug
  pub short : length slug ≤ 63
  pub chars : all is_label_char slug ≡ true
  pub first : starts_well slug ≡ true
  pub last : ends_well slug ≡ true
  pub unreserved : is_reserved_ldh slug ≡ true → is_a_label slug ≡ true

record IsRest (n : ℕ) (cs : List ℕ) : Type 0 where
  pub long : 3 ≤ n + length cs
  pub short : n + length cs ≤ 62
  pub chars : all is_label_char cs ≡ true
  pub last : ends_well cs ≡ true

matches_rest-IsRest : (n : ℕ) (cs : List ℕ) → matches_rest n cs ≡ true → IsRest n cs
unfolding matches_rest ends_well
matches_rest-IsRest n [] h = cc
matches_rest-IsRest n (c ∷ []) h = record {
  long = ground (arith, h);
  short = ground (arith, h);
  chars = ground (arith, h);
  last = ground (arith, h);
}
matches_rest-IsRest n (c ∷ d ∷ cs) h =
    let rest = matches_rest-IsRest (n + 1) (d ∷ cs) (ground (arith, h)) in
    record {
      long = omega (arith, rest.long);
      short = omega (arith, rest.short);
      chars = ground (arith, h, rest.chars);
      last = rest.last;
    }

IsRest-matches_rest : (n : ℕ) (cs : List ℕ) → IsRest n cs → matches_rest n cs ≡ true
unfolding matches_rest ends_well
IsRest-matches_rest n [] h = ground (arith, h.last)
IsRest-matches_rest n (c ∷ []) h = ground (arith, h.long, h.short, h.last)
IsRest-matches_rest n (c ∷ d ∷ cs) h =
    let rest = IsRest-matches_rest (n + 1) (d ∷ cs) (record {
      long = omega (arith, h.long);
      short = omega (arith, h.short);
      chars = ground (arith, h.chars);
      last = h.last;
    }) in
    ground (arith, h.chars, rest)

ends_well-cons : (c : ℕ) (cs : List ℕ) → 1 ≤ length cs → ends_well (c ∷ cs) ≡ ends_well cs
unfolding ends_well
ends_well-cons c [] h = ground (arith, h)
ends_well-cons c (d ∷ cs) h = refl

reserved-cases : (p r a : Bool) → (p && (not r || a)) ≡ true → (p ≡ true) × (r ≡ true → a ≡ true)
reserved-cases p r a h = (ground (arith, h), λ e. ground (arith, h, e))

reserved-back : (p r a : Bool) → p ≡ true → (r ≡ true → a ≡ true) → (p && (not r || a)) ≡ true
reserved-back p true a h k = ground (arith, h, k refl)
reserved-back p false a h k = ground (arith, h)

matches_slug-cons :
    (c : ℕ) (cs : List ℕ)
    → matches_slug (c ∷ cs) ≡ true
    → (is_letter_or_digit c ≡ true) × IsRest 0 cs
unfolding matches_slug
matches_slug-cons c cs h = (ground (arith, h), matches_rest-IsRest 0 cs (ground (arith, h)))

is_valid_slug-IsLabel : (slug : List ℕ) → is_valid_slug slug ≡ true → IsLabel slug
unfolding is_valid_slug matches_slug starts_well
is_valid_slug-IsLabel [] h = ground (arith, h)
is_valid_slug-IsLabel (c ∷ cs) h =
    let (m, r) = reserved-cases (matches_slug (c ∷ cs)) _ _ h in
    let (first, rest) = matches_slug-cons c cs m in
    record {
      long = omega (arith, rest.long);
      short = omega (arith, rest.short);
      chars = ground (arith, first, rest.chars);
      first = first;
      last = ends_well-cons c cs (omega (arith, rest.long)) ∙ rest.last;
      unreserved = r;
    }

IsLabel-matches_slug : (slug : List ℕ) → IsLabel slug → matches_slug slug ≡ true
unfolding matches_slug starts_well
IsLabel-matches_slug [] h = ground (arith, h.long)
IsLabel-matches_slug (c ∷ cs) h =
    let rest = IsRest-matches_rest 0 cs (record {
      long = omega (arith, h.long);
      short = omega (arith, h.short);
      chars = ground (arith, h.chars);
      last = sym (ends_well-cons c cs (omega (arith, h.long))) ∙ h.last;
    }) in
    ground (arith, h.first, rest)

-- A text is a valid slug exactly when it is a label of 4 to 63 lower-case letters, digits and hyphens
-- that neither starts nor ends with a hyphen, and that has hyphens in both its third and fourth places
-- only when it starts with xn--.
pub is_valid_slug_iff : (slug : List ℕ) → (is_valid_slug slug ≡ true) ↔ IsLabel slug
unfolding is_valid_slug
is_valid_slug_iff slug = (
  is_valid_slug-IsLabel slug,
  λ h.
      reserved-back (matches_slug slug) (is_reserved_ldh slug) (is_a_label slug)
        (IsLabel-matches_slug slug h) h.unreserved,
)

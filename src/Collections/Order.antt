-- ===== src/Collections/Order.antt =====
-- packages/federation/src/collection.ts: an outbox in order, cut at the last row of a page.
use mathlib.Core.Path.{subst}
use mathlib.Core.Option.{some-injective}
use drfed.Common.{
  ℕ, zero, suc, ◌≡◌, refl, sym, ap, ◌∙◌, ◌⊎◌, inl, inr, Bool, true, false, ◌||◌, some, List, [],
  ◌∷◌, All, arith, any, take, drop, select, last?, ◌==◌, Bool-cases,
}
use drfed.Common.Sort.{insert_by, sort_by, IsSorted, sort_by-IsSorted}
use drfed.Revision.{Uuid}
use drfed.Collections.{Served, is_earlier, newest_first}

abbrev pub has_id : Uuid → List Served → Bool
has_id id rows = any (λ (r : Served). r.id == id) rows

-- The id is a primary key.
abbrev pub AreKeyed : List Served → Type 0
AreKeyed [] = Unit
AreKeyed (r ∷ rs) = (has_id r.id rs ≡ false) × AreKeyed rs

-- Each row comes before all that follow it.
abbrev pub Descends : List Served → Type 0
Descends [] = Unit
Descends (r ∷ rs) = All (λ (s : Served). is_earlier s r ≡ true) rs × Descends rs

total : (a b : Served) → (newest_first a b ≡ true) ⊎ (newest_first b a ≡ true)
total a b = ground arith

has_id-insert_by :
    (id : Uuid) (x : Served) (rs : List Served)
    → has_id id (insert_by newest_first x rs) ≡ (x.id == id || has_id id rs)
has_id-insert_by id x [] = refl
has_id-insert_by id x (r ∷ rs) = ground (arith, has_id-insert_by id x rs)

has_id-sort_by : (id : Uuid) (rs : List Served) → has_id id (sort_by newest_first rs) ≡ has_id id rs
has_id-sort_by id [] = refl
has_id-sort_by id (r ∷ rs) =
    has_id-insert_by id r (sort_by newest_first rs)
    ∙ ap (λ b. r.id == id || b) (has_id-sort_by id rs)

AreKeyed-insert_by :
    (x : Served) (rs : List Served)
    → has_id x.id rs ≡ false
    → AreKeyed rs
    → AreKeyed (insert_by newest_first x rs)
AreKeyed-insert_by x [] h k = (refl, tt)
AreKeyed-insert_by x (r ∷ rs) h k = elim (Bool-cases (newest_first x r)) [
  | inl below ↦ rw below (h, k)
  | inr above ↦ rw above (
    has_id-insert_by r.id x rs ∙ ground (arith, h, k.0),
    AreKeyed-insert_by x rs (ground (arith, h)) k.1,
  )
]

AreKeyed-sort_by : (rs : List Served) → AreKeyed rs → AreKeyed (sort_by newest_first rs)
AreKeyed-sort_by [] h = tt
AreKeyed-sort_by (r ∷ rs) h =
    AreKeyed-insert_by r (sort_by newest_first rs) (has_id-sort_by r.id rs ∙ h.0)
      (AreKeyed-sort_by rs h.1)

strictly : (a b : Served) → newest_first a b ≡ true → (b.id == a.id) ≡ false → is_earlier b a ≡ true
strictly a b h k = ground (arith, h, k)

earlier_trans :
    (a b c : Served) → is_earlier a b ≡ true → is_earlier b c ≡ true → is_earlier a c ≡ true
earlier_trans a b c h k = ground (arith, h, k)

earlier-asym : (a b : Served) → is_earlier a b ≡ true → is_earlier b a ≡ false
earlier-asym a b h = ground (arith, h)

earlier_irrefl : (a : Served) → is_earlier a a ≡ false
earlier_irrefl a = ground arith

All-earlier :
    (a b : Served) (rs : List Served)
    → is_earlier a b ≡ true
    → All (λ (s : Served). is_earlier s a ≡ true) rs
    → All (λ (s : Served). is_earlier s b ≡ true) rs
All-earlier a b [] h k = tt
All-earlier a b (r ∷ rs) h k = (earlier_trans r a b k.0 h, All-earlier a b rs h k.1)

Descends-sorted : (rs : List Served) → IsSorted newest_first rs → AreKeyed rs → Descends rs
Descends-sorted [] h k = tt
Descends-sorted (r ∷ []) h k = (tt, tt)
Descends-sorted (r ∷ s ∷ rs) h k =
    let rest = Descends-sorted (s ∷ rs) h.1 k.1 in
    let first = strictly r s h.0 (ground (arith, k.0)) in
    ((first, All-earlier s r rs first rest.0), rest)

pub Descends-sort_by : (rs : List Served) → AreKeyed rs → Descends (sort_by newest_first rs)
Descends-sort_by rs h =
    Descends-sorted (sort_by newest_first rs) (sort_by-IsSorted newest_first total rs)
      (AreKeyed-sort_by rs h)

abbrev pub rows_before : Served → List Served → List Served
rows_before b rows = select (λ a. is_earlier a b) rows

All-before :
    (b : Served) (rs : List Served)
    → All (λ (s : Served). is_earlier s b ≡ true) rs
    → rows_before b rs ≡ rs
All-before b [] h = refl
All-before b (r ∷ rs) h = rw h.0 (ap (λ (l : List Served). r ∷ l) (All-before b rs h.1))

some-is : (P : Served → Type 0) (a x : Served) → some a ≡ some x → P a → P x
some-is P a x e = subst P (some-injective a x e)

-- The last row of a page is one of the rows.
pub last-All :
    (P : Served → Type 0) (rs : List Served) (n : ℕ) (x : Served)
    → All P rs
    → last? (take n rs) ≡ some x
    → P x
last-All P rs zero x h e = cc
last-All P [] (suc n) x h e = cc
last-All P (r ∷ rs) (suc zero) x h e = some-is P r x e h.0
last-All P (r ∷ []) (suc (suc n)) x h e = some-is P r x e h.0
last-All P (r ∷ s ∷ rs) (suc (suc n)) x h e = last-All P (s ∷ rs) (suc n) x h.1 e

-- The rows before the last row of a page are those after the page.
pub rows_before-last :
    (rs : List Served) (n : ℕ) (x : Served)
    → Descends rs
    → last? (take (suc n) rs) ≡ some x
    → rows_before x rs ≡ drop (suc n) rs
rows_before-last [] n x h e = cc
rows_before-last (r ∷ rs) zero x h e =
    some-is (λ y. rows_before y (r ∷ rs) ≡ rs) r x e (rw (earlier_irrefl r) (All-before r rs h.0))
rows_before-last (r ∷ []) (suc n) x h e =
    some-is (λ y. rows_before y (r ∷ []) ≡ []) r x e (rw (earlier_irrefl r) refl)
rows_before-last (r ∷ s ∷ rs) (suc n) x h e =
    let below = last-All (λ y. is_earlier y r ≡ true) (s ∷ rs) (suc n) x h.0 e in
    rw (earlier-asym x r below) (rows_before-last (s ∷ rs) n x h.1 e)

pub All-insert_by :
    (P : Served → Type 0) (x : Served) (rs : List Served)
    → P x
    → All P rs
    → All P (insert_by newest_first x rs)
All-insert_by P x [] h k = (h, tt)
All-insert_by P x (r ∷ rs) h k = elim (Bool-cases (newest_first x r)) [
  | inl below ↦ rw below (h, k)
  | inr above ↦ rw above (k.0, All-insert_by P x rs h k.1)
]

pub All-sort_by :
    (P : Served → Type 0) (rs : List Served) → All P rs → All P (sort_by newest_first rs)
All-sort_by P [] h = tt
All-sort_by P (r ∷ rs) h = All-insert_by P r (sort_by newest_first rs) h.0 (All-sort_by P rs h.1)

-- The rows before a row that itself comes after a boundary.
rows_before_twice :
    (x b : Served) (rs : List Served)
    → is_earlier x b ≡ true
    → rows_before x (rows_before b rs) ≡ rows_before x rs
rows_before_twice x b [] h = refl
rows_before_twice x b (r ∷ rs) h = elim (Bool-cases (is_earlier r x)) [
  | inl below ↦
      rw (below, earlier_trans r x b below h)
        (rw below (ap (λ (l : List Served). r ∷ l) (rows_before_twice x b rs h)))
  | inr above ↦ elim (Bool-cases (is_earlier r b)) [
    | inl within ↦ rw (above, within) (rw above (rows_before_twice x b rs h))
    | inr beyond ↦ rw (above, beyond) (rows_before_twice x b rs h)
  ]
]

-- Each row of the list sees the rows after it as the whole table does.
abbrev pub Sees : List Served → List Served → Type 0
Sees whole rs = All (λ x. rows_before x whole ≡ rows_before x rs) rs

Sees-before :
    (whole rs : List Served) (b : Served)
    → All (λ (x : Served). is_earlier x b ≡ true) rs
    → All (λ x. rows_before x whole ≡ rows_before x (rows_before b whole)) rs
Sees-before whole [] b h = tt
Sees-before whole (r ∷ rs) b h = (sym (rows_before_twice r b whole h.0), Sees-before whole rs b h.1)

rows_before-All :
    (b : Served) (rs : List Served) → All (λ (x : Served). is_earlier x b ≡ true) (rows_before b rs)
rows_before-All b [] = tt
rows_before-All b (r ∷ rs) = elim (Bool-cases (is_earlier r b)) [
  | inl below ↦ rw below (below, rows_before-All b rs)
  | inr above ↦ rw above (rows_before-All b rs)
]

pub Sees-rows_before : (whole : List Served) (b : Served) → Sees whole (rows_before b whole)
Sees-rows_before whole b = Sees-before whole (rows_before b whole) b (rows_before-All b whole)

pub Sees_self : (whole rs : List Served) → All (λ x. rows_before x whole ≡ rows_before x whole) rs
Sees_self whole [] = tt
Sees_self whole (r ∷ rs) = (refl, Sees_self whole rs)

pub Descends-drop : (n : ℕ) (rs : List Served) → Descends rs → Descends (drop n rs)
Descends-drop zero rs h = h
Descends-drop (suc n) [] h = h
Descends-drop (suc n) (r ∷ rs) h = Descends-drop n rs h.1

pub All-drop : (P : Served → Type 0) (n : ℕ) (rs : List Served) → All P rs → All P (drop n rs)
All-drop P zero rs h = h
All-drop P (suc n) [] h = h
All-drop P (suc n) (r ∷ rs) h = All-drop P n rs h.1

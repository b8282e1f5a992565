-- ===== src/Collections/Cursors.antt =====
-- packages/federation/src/collection.ts: the cursor of a row is read back as its boundary.
use drfed.Common.{
  ℕ, ◌≡◌, refl, ap, ◌∙◌, Bool, true, false, ◌||◌, some, List, [], ◌∷◌, ◌++◌, arith, ◌==◌,
  Bool-cases, inl, inr,
}
use drfed.Common.Text.{codes}
use drfed.Delivery.{Text}
use drfed.Collections.{
  Served, Codec, after, onto, split_bars, fits, time_pattern, starts_with, parse_parts,
  parse_outbox_cursor, format_cursor,
}

abbrev pub has_bar : Text → Bool
has_bar [] = false
has_bar (c ∷ cs) = c == b'|' || has_bar cs

-- The texts of a row are the ones that a cursor may hold, and they are read back.
pub record IsReadable (c : Codec) (r : Served) : Type 0 where
  pub fitting : fits time_pattern (c.time_text r.published) ≡ true
  pub dated : starts_with (codes "0000-") (c.time_text r.published) ≡ false
  pub timestamp : c.timestamp (c.time_text r.published) ≡ some r.published
  pub uuid : c.uuid_of (c.id_text r.id) ≡ some r.id
  pub one_part : has_bar (c.id_text r.id) ≡ false

fits-has_bar : (ts cs : Text) → has_bar ts ≡ false → fits ts cs ≡ true → has_bar cs ≡ false
unfolding fits
fits-has_bar [] [] h k = refl
fits-has_bar [] (c ∷ cs) h k = cc
fits-has_bar (t ∷ ts) [] h k = cc
fits-has_bar (t ∷ ts) (c ∷ cs) h k = elim (Bool-cases (t == b'd')) [
  | inl digit ↦ ground (arith, digit, k, h, fits-has_bar ts cs)
  | inr other ↦ ground (arith, other, k, h, fits-has_bar ts cs)
]

first-bar : (c : ℕ) (cs : Text) → has_bar (c ∷ cs) ≡ false → (c == b'|') ≡ false
first-bar c cs h = ground (arith, h)

split_bars-whole : (cs : Text) → has_bar cs ≡ false → split_bars cs ≡ cs ∷ []
unfolding split_bars
split_bars-whole [] h = refl
split_bars-whole (c ∷ cs) h =
    rw (first-bar c cs h) (ap (onto c) (split_bars-whole cs (ground (arith, h))))

split_bars-parts :
    (t i : Text) → has_bar t ≡ false → has_bar i ≡ false → split_bars (t ++ b'|' ∷ i) ≡ t ∷ i ∷ []
unfolding split_bars
split_bars-parts [] i h k = ap (λ (ts : List Text). [] ∷ ts) (split_bars-whole i k)
split_bars-parts (c ∷ t) i h k =
    rw (first-bar c t h) (ap (onto c) (split_bars-parts t i (ground (arith, h)) k))

parse-parts :
    (c : Codec) (t i : Text)
    → parse_outbox_cursor c (t ++ b'|' ∷ i) ≡ parse_parts c (split_bars (t ++ b'|' ∷ i))
unfolding parse_outbox_cursor
parse-parts c [] i = refl
parse-parts c (x ∷ t) i = refl

pub parse_outbox_cursor-format_cursor :
    (c : Codec) (r : Served) → IsReadable c r → parse_outbox_cursor c (format_cursor c r) ≡ after r
parse_outbox_cursor-format_cursor c r h =
    parse-parts c (c.time_text r.published) (c.id_text r.id)
    ∙ ap (parse_parts c) (
        split_bars-parts (c.time_text r.published) (c.id_text r.id)
          (fits-has_bar time_pattern (c.time_text r.published) refl h.fitting) h.one_part)
    ∙ rw (h.dated, h.fitting, h.timestamp, h.uuid) refl

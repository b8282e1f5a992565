-- ===== src/Delivery/Storable.antt =====
-- packages/models/src/activity-delivery.ts and text.ts: what PostgreSQL's text and jsonb columns can
-- hold of a value.
use drfed.Common.{
  ℕ, Bool, true, false, not, ◌&&◌, Option, none, some, [], ◌∷◌, leb, ◌==◌, any, if◌then◌else◌,
}
use drfed.Delivery.{
  Text, Value, Items, Entries, null, bool, num, text, array, fields, no_item, item, no_entry, entry,
}

abbrev pub is_high : ℕ → Bool
is_high c = leb 0xD800 c && leb c 0xDBFF

abbrev pub is_low : ℕ → Bool
is_low c = leb 0xDC00 c && leb c 0xDFFF

-- `String.prototype.isWellFormed`: each surrogate stands in a pair; the flag says that a high one
-- waits for its low one.
unfoldable pub is_well_formed : Bool → Text → Bool
is_well_formed waiting [] = not waiting
is_well_formed true (c ∷ cs) = is_low c && is_well_formed false cs
is_well_formed false (c ∷ cs) = not (is_low c) && is_well_formed (is_high c) cs

-- `storableText`
unfoldable pub storable_text : Text → Bool
unfolding is_well_formed
storable_text cs = not (any (λ c. c == 0) cs) && is_well_formed false cs

-- `storableJson`; the keys of an array are numerals, which can be stored.
unfoldable mutual
  pub storable_json : Value → Bool
  storable_json null = true
  storable_json (bool b) = true
  storable_json (num n) = true
  storable_json (text t) = storable_text t
  storable_json (array vs) = storable_items vs
  storable_json (fields es) = storable_entries es

  pub storable_items : Items → Bool
  storable_items no_item = true
  storable_items (item v vs) = storable_json v && storable_items vs

  pub storable_entries : Entries → Bool
  storable_entries no_entry = true
  storable_entries (entry k v es) = (storable_text k && storable_json v) && storable_entries es

-- `jsonb`: an undefined payload is none, which the column holds as SQL `NULL`.
unfoldable pub jsonb : Option Value → Option Value
jsonb none = none
jsonb (some v) = if storable_json v then some v else none

-- `value == null` of a column that is read.
abbrev pub present : Option Value → Option Value
present (some null) = none
present o = o

-- `storedObject`
unfoldable pub stored_object : Option Value → Option Value
stored_object document = jsonb (present document)

-- `text`: each U+0000 becomes U+FFFD.
unfoldable pub replace_nul : Text → Text
replace_nul [] = []
replace_nul (c ∷ cs) = (if c == 0 then 0xFFFD else c) ∷ replace_nul cs

abbrev pub text_of : Option Text → Option Text
text_of none = none
text_of (some t) = some (replace_nul t)

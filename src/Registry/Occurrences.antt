-- ===== src/Registry/Occurrences.antt =====
-- packages/models/src/resource.ts: `checkAddressingOccurrences`, `storeAddressingOccurrences`,
-- `replaceAddressing` and `storeAddressing`.
use drfed.Common.{
  ℕ, ◌+◌, Bool, true, false, not, ◌&&◌, Option, none, some, List, [], ◌∷◌, ◌++◌, any, select, leb,
  ◌==◌, if◌then◌else◌,
}
use drfed.Common.Result.{Result, ok, err, throw_if, ◌>>=◌, ◌>>◌}
use drfed.Common.Text.{same_codes, distinct, sort_texts}
use drfed.Revision.{Uuid, AddressingProperty, to, cc, bto, bcc, audience, property_index}
use drfed.Delivery.{Text, Registered}
use drfed.Registry.{
  RegistryError, invalid_occurrence, shared_position, no_source, duplicate_position, no_target,
  has_id, ensure_resource,
}

-- `AddressingOccurrence`
pub record Occurrence : Type 0 where
  pub property : AddressingProperty
  pub position : ℕ
  pub iri : Text

-- What a caller passes: none stands for a value of another kind, and for a position that is no
-- non-negative safe integer.
pub record Claimed : Type 0 where
  pub property : Option AddressingProperty
  pub position : Option ℕ
  pub iri : Option Text

-- A row of `addressing`.
pub record Row : Type 0 where
  pub source_id : Uuid
  pub property : AddressingProperty
  pub position : ℕ
  pub target_id : Uuid

pub record Tables : Type 0 where
  pub resources : List Registered
  pub addressing : List Row

abbrev pub max_position : ℕ
max_position = 2147483647

abbrev pub Place : Type 0
Place = AddressingProperty × ℕ

abbrev pub same_place : Place → Place → Bool
same_place (p, n) (q, m) = property_index p == property_index q && n == m

abbrev pub valid_occurrence :
    Option AddressingProperty → Option ℕ → Option Text → Result RegistryError Occurrence
valid_occurrence (some p) (some n) (some iri) =
    if leb n max_position
    then ok (record { property = p; position = n; iri = iri })
    else err invalid_occurrence
valid_occurrence _ _ _ = err invalid_occurrence

abbrev pub read_claim : Claimed → Result RegistryError Occurrence
read_claim c = valid_occurrence c.property c.position c.iri

-- The loop of `checkAddressingOccurrences`, which returns what it has checked.
unfoldable pub check_each : List Place → List Claimed → Result RegistryError (List Occurrence)
check_each seen [] = ok []
check_each seen (c ∷ cs) = do
  o ← read_claim c
  throw_if (any (λ p. same_place p (o.property, o.position)) seen) shared_position
  rest ← check_each ((o.property, o.position) ∷ seen) cs
  ok (o ∷ rest)

-- `checkAddressingOccurrences`
unfoldable pub check_addressing_occurrences : List Claimed → Result RegistryError (List Occurrence)
check_addressing_occurrences cs = check_each [] cs

abbrev pub Targets : Type 0
Targets = List (Text × Registered)

-- `targets.get(iri)`
abbrev pub target_of : Text → Targets → Option Registered
target_of iri [] = none
target_of iri ((t, r) ∷ ts) = if same_codes t iri then some r else target_of iri ts

-- The id that an IRI would be registered with, and what others commit while it is.
abbrev pub Meanwhile : Type 0
Meanwhile = Text → Uuid × List Registered

unfoldable pub ensure_each :
    Meanwhile
    → List Text
    → List Registered
    → Targets
    → Result RegistryError (List Registered × Targets)
ensure_each m [] rs ts = ok (rs, ts)
ensure_each m (iri ∷ iris) rs ts = do
  (rs', r) ← ensure_resource (m iri).1 (m iri).0 iri rs
  ensure_each m iris rs' ((iri, r) ∷ ts)

abbrev pub is_taken : Uuid → Place → List Row → Bool
is_taken source place rows =
    any (λ (w : Row). w.source_id == source && same_place (w.property, w.position) place) rows

abbrev pub row_of : Uuid → Occurrence → Registered → Row
row_of source o r = record {
  source_id = source;
  property = o.property;
  position = o.position;
  target_id = r.id;
}

abbrev pub insert_at :
    Uuid → Occurrence → Option Registered → List Row → Result RegistryError (List Row)
insert_at source o none rows = err no_target
insert_at source o (some r) rows =
    if is_taken source (o.property, o.position) rows
    then err duplicate_position
    else ok (rows ++ row_of source o r ∷ [])

unfoldable pub insert_each :
    Uuid → Targets → List Occurrence → List Row → Result RegistryError (List Row)
insert_each source ts [] rows = ok rows
insert_each source ts (o ∷ os) rows = do
  rows' ← insert_at source o (target_of o.iri ts) rows
  insert_each source ts os rows'

abbrev pub iris_of : List Occurrence → List Text
iris_of [] = []
iris_of (o ∷ os) = o.iri ∷ iris_of os

abbrev pub is_empty : List Occurrence → Bool
is_empty [] = true
is_empty (o ∷ os) = false

-- The rows of `storeAddressingOccurrences`; the source must be registered when there is a row.
unfoldable pub store_checked :
    Meanwhile → Uuid → List Occurrence → Tables → Result RegistryError Tables
store_checked m source os s = do
  (rs, ts) ← ensure_each m (sort_texts (distinct [] (iris_of os))) s.resources []
  throw_if (not (is_empty os) && not (has_id source rs)) no_source
  rows ← insert_each source ts os s.addressing
  ok (record { resources = rs; addressing = rows })

-- `storeAddressingOccurrences`
unfoldable pub store_addressing_occurrences :
    Meanwhile → Uuid → List Claimed → Tables → Result RegistryError Tables
store_addressing_occurrences m source cs s = do
  os ← check_addressing_occurrences cs
  store_checked m source os s

abbrev pub delete_addressing : Uuid → Tables → Tables
delete_addressing source s = record s {
  addressing = select (λ (w : Row). not (w.source_id == source)) s.addressing;
}

-- `replaceAddressing`
unfoldable pub replace_addressing :
    Meanwhile → Uuid → List Claimed → Tables → Result RegistryError Tables
replace_addressing m source cs s = do
  _ ← check_addressing_occurrences cs
  store_addressing_occurrences m source cs (delete_addressing source s)

-- What `storeAddressing` is given: the IRIs of each property, in order.
abbrev pub entries : AddressingProperty → ℕ → List Text → List Occurrence
entries p n [] = []
entries p n (iri ∷ iris) = record { property = p; position = n; iri = iri } ∷ entries p (n + 1) iris

abbrev pub occurrences_of : (AddressingProperty → List Text) → List Occurrence
occurrences_of input =
    entries to 0 (input to)
    ++ entries cc 0 (input cc)
    ++ entries bto 0 (input bto)
    ++ entries bcc 0 (input bcc)
    ++ entries audience 0 (input audience)

-- `storeAddressing`
unfoldable pub store_addressing :
    Meanwhile → Uuid → (AddressingProperty → List Text) → Tables → Result RegistryError Tables
store_addressing m source input s = store_checked m source (occurrences_of input) s

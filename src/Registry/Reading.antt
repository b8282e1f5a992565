-- ===== src/Registry/Reading.antt =====
-- packages/models/src/resource.ts: what the addressing rows of a source say once they are joined with
-- the registry, and what an insertion adds to it.
use drfed.Common.{
  ℕ, ◌≡◌, refl, sym, ap, ◌∙◌, ◌≤◌, true, false, Option, none, some, List, [], ◌∷◌, ◌++◌, All, arith,
  any, select, is_some, leb, ◌==◌, ==-refl, if◌then◌else◌, Bool-cases, append_assoc, append-nil,
  inl, inr,
}
use drfed.Common.Result.{Result, ok}
use drfed.Revision.{Uuid, AddressingProperty}
use drfed.Delivery.{Text, Registered}
use drfed.Registry.{RegistryError, by_id}
use drfed.Registry.Targets.{AreTargets}
use drfed.Registry.Occurrences.{
  Occurrence, Claimed, Row, Place, same_place, Targets, target_of, is_taken, row_of, insert_each,
  check_each, max_position,
}

abbrev pub place_of : Occurrence → Place
place_of o = (o.property, o.position)

abbrev pub iri_of : Option Registered → Option Text
iri_of none = none
iri_of (some r) = some r.iri

abbrev pub Reading : Type 0
Reading = AddressingProperty × ℕ × Option Text

abbrev pub reading_of : Occurrence → Reading
reading_of o = (o.property, o.position, some o.iri)

abbrev pub readings_of : List Occurrence → List Reading
readings_of [] = []
readings_of (o ∷ os) = reading_of o ∷ readings_of os

-- The addressing of a source.
abbrev pub read_rows : List Registered → Uuid → List Row → List Reading
read_rows rs source [] = []
read_rows rs source (w ∷ ws) =
    let rest = read_rows rs source ws in
    if w.source_id == source
    then (w.property, w.position, iri_of (by_id w.target_id rs)) ∷ rest
    else rest

abbrev pub rows_with : Uuid → List Row → List Row
rows_with source rows = select (λ (w : Row). w.source_id == source) rows

-- No two occurrences share a position, and each position is a 32-bit integer.
abbrev pub ArePlaced : List Occurrence → Type 0
ArePlaced [] = Unit
ArePlaced (o ∷ os) =
    (o.position ≤ max_position)
    × All (λ (p : Occurrence). same_place (place_of o) (place_of p) ≡ false) os
    × ArePlaced os

abbrev pub claim : Occurrence → Claimed
claim o = record { property = some o.property; position = some o.position; iri = some o.iri }

abbrev pub claims : List Occurrence → List Claimed
claims [] = []
claims (o ∷ os) = claim o ∷ claims os

unseen-after :
    (q : Place) (seen : List Place) (os : List Occurrence)
    → All (λ o. any (λ p. same_place p (place_of o)) seen ≡ false) os
    → All (λ o. same_place q (place_of o) ≡ false) os
    → All (λ o. any (λ p. same_place p (place_of o)) (q ∷ seen) ≡ false) os
unseen-after q seen [] h k = tt
unseen-after q seen (o ∷ os) h k = (ground (arith, h.0, k.0), unseen-after q seen os h.1 k.1)

within : (n : ℕ) → n ≤ max_position → leb n max_position ≡ true
within n h = ground (arith, h)

-- Occurrences that are placed pass the check.
pub check_each-passes :
    (seen : List Place) (os : List Occurrence)
    → All (λ o. any (λ p. same_place p (place_of o)) seen ≡ false) os
    → ArePlaced os
    → check_each seen (claims os) ≡ ok os
unfolding check_each
check_each-passes seen [] h placed = refl
check_each-passes seen (o ∷ os) h placed =
    rw
      (
        within o.position placed.0,
        h.0,
        check_each-passes (place_of o ∷ seen) os (unseen-after (place_of o) seen os h.1 placed.1)
            placed.2,
      )
      refl

read_rows-append :
    (rs : List Registered) (source : Uuid) (ws : List Row) (w : Row)
    → w.source_id ≡ source
    → read_rows rs source (ws ++ w ∷ [])
      ≡ read_rows rs source ws ++ (w.property, w.position, iri_of (by_id w.target_id rs)) ∷ []
read_rows-append rs source [] w e = rw (e, ==-refl source) refl
read_rows-append rs source (x ∷ ws) w e = elim (Bool-cases (x.source_id == source)) [
  | inl same ↦ rw same (
      ap (λ (l : List Reading). (x.property, x.position, iri_of (by_id x.target_id rs)) ∷ l)
        (read_rows-append rs source ws w e))
  | inr other ↦ rw other (read_rows-append rs source ws w e)
]

rows_with-append :
    (k : Uuid) (ws : List Row) (w : Row)
    → (w.source_id == k) ≡ false
    → rows_with k (ws ++ w ∷ []) ≡ rows_with k ws
rows_with-append k [] w e = rw e refl
rows_with-append k (x ∷ ws) w e = ground (arith, rows_with-append k ws w e)

is_taken-append :
    (source : Uuid) (place : Place) (ws : List Row) (w : Row)
    → is_taken source place ws ≡ false
    → same_place (w.property, w.position) place ≡ false
    → is_taken source place (ws ++ w ∷ []) ≡ false
is_taken-append source place [] w h e = ground (arith, e)
is_taken-append source place (x ∷ ws) w h e = ground (arith, h, is_taken-append source place ws w)

free-after :
    (source : Uuid) (ws : List Row) (w : Row) (os : List Occurrence)
    → All (λ o. is_taken source (place_of o) ws ≡ false) os
    → All (λ o. same_place (w.property, w.position) (place_of o) ≡ false) os
    → All (λ o. is_taken source (place_of o) (ws ++ w ∷ []) ≡ false) os
free-after source ws w [] h k = tt
free-after source ws w (o ∷ os) h k =
    (is_taken-append source (place_of o) ws w h.0 k.0, free-after source ws w os h.1 k.1)

-- What an insertion of occurrences does.
pub record Inserted (rs : List Registered) (source : Uuid) (os : List Occurrence)
    (ws ws' : List Row) : Type 0 where
  pub reads : read_rows rs source ws' ≡ read_rows rs source ws ++ readings_of os
  pub others : (k : Uuid) → (source == k) ≡ false → rows_with k ws' ≡ rows_with k ws

abbrev pub Inserts :
    List Registered → Uuid → List Occurrence → List Row → Result RegistryError (List Row) → Type 0
Inserts rs source os ws o = (ws' : List Row) × (o ≡ ok ws') × Inserted rs source os ws ws'

Inserted-reads :
    (rs : List Registered) (source : Uuid) (o : Occurrence) (r : Registered) (os : List Occurrence)
    (ws ws' : List Row)
    → r.iri ≡ o.iri
    → by_id r.id rs ≡ some r
    → Inserted rs source os (ws ++ row_of source o r ∷ []) ws'
    → Inserted rs source (o ∷ os) ws ws'
Inserted-reads rs source o r os ws ws' named there h = record {
  reads =
      h.reads
      ∙ ap (λ (l : List Reading). l ++ readings_of os)
          (read_rows-append rs source ws (row_of source o r) refl)
      ∙ append_assoc (read_rows rs source ws) _ _
      ∙ ap
          (λ (t : Option Text).
            read_rows rs source ws ++ (o.property, o.position, t) ∷ readings_of os)
          (ap iri_of there ∙ ap some named);
  others = λ k e. h.others k e ∙ rows_with-append k ws (row_of source o r) e;
}

target-found :
    (iri : Text) (ts : Targets) (o : Option Registered)
    → target_of iri ts ≡ o
    → is_some o ≡ true
    → (r : Registered) × (target_of iri ts ≡ some r)
target-found iri ts none e h = cc
target-found iri ts (some r) e h = (r, e)

module _ (rs : List Registered) (source : Uuid) (ts : Targets) (known : AreTargets rs ts) where
  -- Occurrences whose IRIs are registered and whose places are free are inserted.
  pub insert_each-Inserts :
      (os : List Occurrence) (ws : List Row)
      → All (λ o. is_some (target_of o.iri ts) ≡ true) os
      → All (λ o. is_taken source (place_of o) ws ≡ false) os
      → ArePlaced os
      → Inserts rs source os ws (insert_each source ts os ws)
  unfolding insert_each
  insert_each-Inserts [] ws found free placed =
      (ws, refl, record { reads = sym (append-nil (read_rows rs source ws)); others = λ k e. refl })
  insert_each-Inserts (o ∷ os) ws found free placed =
      let (r, target) = target-found o.iri ts (target_of o.iri ts) refl found.0 in
      let (named, there) = known o.iri r target in
      let (ws', e, h) =
        insert_each-Inserts os (ws ++ row_of source o r ∷ []) found.1
          (free-after source ws (row_of source o r) os free.1 placed.1) placed.2 in
      (ws', rw (target, free.0, e) refl, Inserted-reads rs source o r os ws ws' named there h)

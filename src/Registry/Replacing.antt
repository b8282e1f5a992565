-- ===== src/Registry/Replacing.antt =====
-- packages/models/src/resource.ts: `replaceAddressing` leaves exactly the occurrences that it is given.
use drfed.Common.{
  ℕ, ◌≡◌, refl, ap, ◌∙◌, ◌⊎◌, inl, inr, true, false, not, some, List, [], ◌∷◌, ◌++◌, All, arith,
  select, is_some, ◌==◌, find-any,
}
use drfed.Common.Result.{Result, ok, err}
use drfed.Common.Text.{sort_texts, distinct, same_codes_refl}
use drfed.Revision.{Uuid}
use drfed.Delivery.{Registered}
use drfed.Registry.{RegistryError, id_taken, by_id, has_id}
use drfed.Registry.Ensuring.{IsRegistry, Grows}
use drfed.Registry.Targets.{names, names-iris, Knows, Known, ensure_each-Knows}
use drfed.Registry.Occurrences.{
  Occurrence, Row, Tables, Place, Targets, target_of, Meanwhile, ensure_each, is_taken, iris_of,
  store_checked, store_addressing_occurrences, delete_addressing, replace_addressing,
  check_addressing_occurrences,
}
use drfed.Registry.Reading.{
  place_of, readings_of, read_rows, rows_with, ArePlaced, claims, check_each-passes,
  insert_each-Inserts,
}

-- What replacing the addressing of a source leaves.
pub record Replaced (source : Uuid) (os : List Occurrence) (s s' : Tables) : Type 0 where
  pub reads : read_rows s'.resources source s'.addressing ≡ readings_of os
  pub others :
      (k : Uuid) → (source == k) ≡ false → rows_with k s'.addressing ≡ rows_with k s.addressing
  pub registry : IsRegistry s'.resources
  pub grows : Grows s.resources s'.resources

deleted-read_rows :
    (rs : List Registered) (source : Uuid) (ws : List Row)
    → read_rows rs source (select (λ (w : Row). not (w.source_id == source)) ws) ≡ []
deleted-read_rows rs source [] = refl
deleted-read_rows rs source (w ∷ ws) = ground (arith, deleted-read_rows rs source ws)

deleted-is_taken :
    (source : Uuid) (place : Place) (ws : List Row)
    → is_taken source place (select (λ (w : Row). not (w.source_id == source)) ws) ≡ false
deleted-is_taken source place [] = refl
deleted-is_taken source place (w ∷ ws) = ground (arith, deleted-is_taken source place ws)

deleted-rows_with :
    (source k : Uuid) (ws : List Row)
    → (source == k) ≡ false
    → rows_with k (select (λ (w : Row). not (w.source_id == source)) ws) ≡ rows_with k ws
deleted-rows_with source k [] e = refl
deleted-rows_with source k (w ∷ ws) e = ground (arith, e, deleted-rows_with source k ws e)

find-has_id :
    (rs : List Registered) (id : Uuid) (x : Registered) → by_id id rs ≡ some x → has_id id rs ≡ true
find-has_id [] id x h = cc
find-has_id (r ∷ rs) id x h = ground (arith, h, find-has_id rs id x)

has_id-Grows :
    (rs rs' : List Registered) (id : Uuid)
    → Grows rs rs'
    → has_id id rs ≡ true
    → has_id id rs' ≡ true
has_id-Grows rs rs' id grows h =
    let (x, found, same) = find-any (λ y. y.id == id) rs h in
    find-has_id rs' id x (grows id x found)

free-deleted :
    (source : Uuid) (ws : List Row) (os : List Occurrence)
    → All
        (λ o.
          is_taken source (place_of o) (select (λ (w : Row). not (w.source_id == source)) ws)
          ≡ false)
        os
free-deleted source ws [] = tt
free-deleted source ws (o ∷ os) =
    (deleted-is_taken source (place_of o) ws, free-deleted source ws os)

unseen-none : (os : List Occurrence) → All (λ (o : Occurrence). false ≡ false) os
unseen-none [] = tt
unseen-none (o ∷ os) = (refl, unseen-none os)

-- Each occurrence's IRI is among the IRIs.
each-found :
    (ts : Targets) (iris : List (List ℕ)) (os : List Occurrence)
    → ((iri : List ℕ) → names iri (iris_of os) ≡ true → is_some (target_of iri ts) ≡ true)
    → All (λ o. is_some (target_of o.iri ts) ≡ true) os
each-found ts iris [] h = tt
each-found ts iris (o ∷ os) h = (
  h o.iri (ground (arith, same_codes_refl o.iri)),
  each-found ts iris os (λ iri n. h iri (ground (arith, n))),
)

abbrev Replaces : Uuid → List Occurrence → Tables → Result RegistryError Tables → Type 0
Replaces source os s o =
    (o ≡ err id_taken) ⊎ ((s' : Tables) × (o ≡ ok s') × Replaced source os s s')

module _ (m : Meanwhile) (source : Uuid) (os : List Occurrence) (s : Tables) where
  stored-Replaced :
      (rs' : List Registered) (ts : Targets)
      → ensure_each m (sort_texts (distinct [] (iris_of os))) s.resources [] ≡ ok (rs', ts)
      → Known s.resources rs' (sort_texts (distinct [] (iris_of os))) [] ts
      → has_id source s.resources ≡ true
      → ArePlaced os
      → Replaces source os s (store_checked m source os (delete_addressing source s))
  unfolding store_checked
  stored-Replaced rs' ts e known registered placed =
      let kept = select (λ (w : Row). not (w.source_id == source)) s.addressing in
      let (ws', f, h) =
        insert_each-Inserts rs' source ts known.targets os kept
          (each-found ts (iris_of os) os
            (λ iri n. known.complete iri (ground (arith, names-iris iri (iris_of os) n))))
          (free-deleted source s.addressing os) placed in
      inr (
        record { resources = rs'; addressing = ws' },
        rw (e, has_id-Grows s.resources rs' source known.grows registered, f) (ground arith),
        record {
          reads =
              h.reads
              ∙ ap (λ (l : List _). l ++ readings_of os)
                  (deleted-read_rows rs' source s.addressing);
          others = λ k n. h.others k n ∙ deleted-rows_with source k s.addressing n;
          registry = known.registry;
          grows = known.grows;
        },
      )

  store_checked-Replaces :
      (o : Result RegistryError (List Registered × Targets))
      → ensure_each m (sort_texts (distinct [] (iris_of os))) s.resources [] ≡ o
      → Knows s.resources (sort_texts (distinct [] (iris_of os))) [] o
      → has_id source s.resources ≡ true
      → ArePlaced os
      → Replaces source os s (store_checked m source os (delete_addressing source s))
  unfolding store_checked
  store_checked-Replaces o e (inl f) registered placed = inl (rw (e, f) refl)
  store_checked-Replaces o e (inr (rs', ts, f, known)) registered placed =
      stored-Replaced rs' ts (e ∙ f) known registered placed

-- Replacing the addressing of a registered resource by occurrences that share no position, each a 32-bit
-- integer, is not refused unless a new id is taken. It leaves exactly the occurrences, in their order and
-- under the IRIs that the registry has for their targets, whatever other transactions register meanwhile.
-- The addressing of any other resource stays, every resource keeps its row, and each id and each
-- IRI still has one.
pub replace_addressing-Replaced :
    (m : Meanwhile) (source : Uuid) (os : List Occurrence) (s : Tables)
    → IsRegistry s.resources
    → has_id source s.resources ≡ true
    → ArePlaced os
    → (replace_addressing m source (claims os) s ≡ err id_taken)
      ⊎ ((s' : Tables) × (replace_addressing m source (claims os) s ≡ ok s')
          × Replaced source os s s')
unfolding replace_addressing store_addressing_occurrences check_addressing_occurrences
replace_addressing-Replaced m source os s keyed registered placed =
    rw (check_each-passes [] os (unseen-none os) placed) (
      store_checked-Replaces m source os s
        (ensure_each m (sort_texts (distinct [] (iris_of os))) s.resources []) refl
        (ensure_each-Knows m (sort_texts (distinct [] (iris_of os))) s.resources [] keyed
          (λ iri r h. cc))
        registered placed)

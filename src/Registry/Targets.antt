-- ===== src/Registry/Targets.antt =====
-- packages/models/src/resource.ts: the IRIs of the occurrences are registered before any row refers to
-- them.
use drfed.Common.{
  ◌≡◌, refl, sym, ap, ◌∙◌, ◌⊎◌, inl, inr, Bool, true, ◌||◌, Option, none, some, List, [], ◌∷◌,
  arith, any, is_some, Bool-cases,
}
use drfed.Common.Result.{Result, ok, err}
use drfed.Common.Text.{same_codes, same_codes_iff, distinct, sort_texts, insert_sorted}
use drfed.Delivery.{Text, Registered}
use drfed.Registry.{RegistryError, id_taken, by_id}
use drfed.Registry.Ensuring.{IsRegistry, Grows, Ensured, ensure_resource-Ends}
use drfed.Registry.Occurrences.{Targets, target_of, Meanwhile, ensure_each}

abbrev pub names : Text → List Text → Bool
names iri ts = any (λ t. same_codes t iri) ts

names-insert_sorted :
    (iri k : Text) (ts : List Text)
    → names iri (insert_sorted k ts) ≡ (same_codes k iri || names iri ts)
unfolding insert_sorted
names-insert_sorted iri k [] = refl
names-insert_sorted iri k (t ∷ ts) = ground (arith, names-insert_sorted iri k ts)

names-sort_texts : (iri : Text) (ts : List Text) → names iri (sort_texts ts) ≡ names iri ts
unfolding sort_texts
names-sort_texts iri [] = refl
names-sort_texts iri (t ∷ ts) =
    names-insert_sorted iri t (sort_texts ts)
    ∙ ap (λ b. same_codes t iri || b) (names-sort_texts iri ts)

-- A text that was seen stands for its equals.
names-same :
    (t iri : Text) (seen : List Text) → names t seen ≡ true → t ≡ iri → names iri seen ≡ true
names-same t iri seen h e = ap (λ i. names i seen) (sym e) ∙ h

names-distinct :
    (iri : Text) (seen ts : List Text)
    → names iri ts ≡ true
    → (names iri (distinct seen ts) || names iri seen) ≡ true
unfolding distinct
names-distinct iri seen [] h = cc
names-distinct iri seen (t ∷ ts) h = elim (Bool-cases (same_codes t iri)) [
  | inl same ↦ elim (Bool-cases (names t seen)) [
    | inl old ↦ ground (arith, names-same t iri seen old ((same_codes_iff t iri).0 same))
    | inr new ↦ ground (arith, same, new)
  ]
  | inr other ↦
      let rest = names-distinct iri (t ∷ seen) ts (ground (arith, h, other)) in
      ground (arith, rest, other)
]

pub names-iris :
    (iri : Text) (ts : List Text)
    → names iri ts ≡ true
    → names iri (sort_texts (distinct [] ts)) ≡ true
names-iris iri ts h =
    names-sort_texts iri (distinct [] ts) ∙ ground (arith, names-distinct iri [] ts h)

abbrev pub AreTargets : List Registered → Targets → Type 0
AreTargets rs ts =
    (iri : Text) (r : Registered)
    → target_of iri ts ≡ some r
    → (r.iri ≡ iri) × (by_id r.id rs ≡ some r)

AreTargets-Ensured :
    (rs rs' : List Registered) (t : Text) (r : Registered) (ts : Targets)
    → Ensured rs rs' t r
    → AreTargets rs ts
    → AreTargets rs' ((t, r) ∷ ts)
AreTargets-Ensured rs rs' t r ts e h iri x found = elim (Bool-cases (same_codes t iri)) [
  | inl same ↦
      let equal = (same_codes_iff t iri).0 same in
      let one = rw same at found in
      (
        ap (λ (o : Option Registered). elim o [ none ↦ t | some y ↦ y.iri ]) (sym one)
            ∙ e.named
            ∙ equal,
        ap (λ (o : Option Registered). elim o [ none ↦ none | some y ↦ by_id y.id rs' ]) (sym one)
            ∙ e.there
            ∙ one,
      )
  | inr other ↦ let (named, there) = h iri x (rw other at found) in (named, e.grows x.id x there)
]

-- What the loop over the IRIs comes to.
pub record Known (rs rs' : List Registered) (iris : List Text) (ts ts' : Targets) : Type 0 where
  pub registry : IsRegistry rs'
  pub grows : Grows rs rs'
  pub targets : AreTargets rs' ts'
  pub complete :
      (iri : Text)
      → (names iri iris || is_some (target_of iri ts)) ≡ true
      → is_some (target_of iri ts') ≡ true

abbrev pub Knows :
    List Registered
    → List Text
    → Targets
    → Result RegistryError (List Registered × Targets)
    → Type 0
Knows rs iris ts o =
    (o ≡ err id_taken)
    ⊎ ((rs' : List Registered) × (ts' : Targets) × (o ≡ ok (rs', ts')) × Known rs rs' iris ts ts')

Known-after :
    (rs rs' more : List Registered) (iri : Text) (r : Registered) (iris : List Text)
    (ts ts' : Targets)
    → Ensured rs rs' iri r
    → Known rs' more iris ((iri, r) ∷ ts) ts'
    → Known rs more (iri ∷ iris) ts ts'
Known-after rs rs' more iri r iris ts ts' e h = record {
  registry = h.registry;
  grows = λ k x f. h.grows k x (e.grows k x f);
  targets = h.targets;
  complete = λ j n. h.complete j (ground (arith, n));
}

pub ensure_each-Knows :
    (m : Meanwhile) (iris : List Text) (rs : List Registered) (ts : Targets)
    → IsRegistry rs
    → AreTargets rs ts
    → Knows rs iris ts (ensure_each m iris rs ts)
unfolding ensure_each
ensure_each-Knows m [] rs ts keyed h = inr (
  rs,
  ts,
  refl,
  record { registry = keyed; grows = λ k x f. f; targets = h; complete = λ iri n. n },
)
ensure_each-Knows m (iri ∷ iris) rs ts keyed h =
    elim (ensure_resource-Ends (m iri).1 (m iri).0 iri rs keyed) [
      | inl e ↦ inl (rw e refl)
      | inr (rs', r, e, ensured) ↦
          elim (ensure_each-Knows m iris rs' ((iri, r) ∷ ts) ensured.registry
            (AreTargets-Ensured rs rs' iri r ts ensured h)) [
              | inl f ↦ inl (rw e f)
              | inr (more, ts', f, known) ↦
                  inr (more, ts', rw e f, Known-after rs rs' more iri r iris ts ts' ensured known)
            ]
    ]

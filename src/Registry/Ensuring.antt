-- ===== src/Registry/Ensuring.antt =====
-- packages/models/src/resource.ts: `ensureResource` finds or registers an IRI, whatever is committed
-- meanwhile.
use drfed.Common.{
  ◌≡◌, refl, ap, ◌⊎◌, inl, inr, Bool, true, false, ◌||◌, Option, none, some, List, [], ◌∷◌, arith,
  find-any, find-passes, ◌==◌, ==-refl, Bool-cases,
}
use drfed.Common.Result.{Result, ok, err}
use drfed.Common.Text.{same_codes, same_codes_iff}
use drfed.Revision.{Uuid}
use drfed.Delivery.{Text, Registered}
use drfed.Registry.{
  RegistryError, id_taken, by_id, has_id, has_iri, by_iri, admitted, add_rows, unknown_resource,
  selected, inserted, insert_unknown, ensure_found, ensure_resource,
}

-- Each id and each IRI has one row.
abbrev pub IsRegistry : List Registered → Type 0
IsRegistry [] = Unit
IsRegistry (r ∷ rs) = (has_id r.id rs ≡ false) × (has_iri r.iri rs ≡ false) × IsRegistry rs

-- What was registered stays.
abbrev pub Grows : List Registered → List Registered → Type 0
Grows rs rs' = (id : Uuid) (x : Registered) → by_id id rs ≡ some x → by_id id rs' ≡ some x

absent-other :
    (k id : Uuid) (x : Registered) (rs : List Registered)
    → has_id k rs ≡ false
    → by_id id rs ≡ some x
    → (k == id) ≡ false
absent-other k id x [] h e = cc
absent-other k id x (r ∷ rs) h e = ground (arith, absent-other k id x rs)

Grows-admitted :
    (b : Bool) (r : Registered) (rs : List Registered)
    → (has_id r.id rs || has_iri r.iri rs) ≡ b
    → Grows rs (admitted b r rs)
Grows-admitted true r rs e id x h = h
Grows-admitted false r rs e id x h = rw (absent-other r.id id x rs (ground (arith, e)) h) h

IsRegistry-admitted :
    (b : Bool) (r : Registered) (rs : List Registered)
    → (has_id r.id rs || has_iri r.iri rs) ≡ b
    → IsRegistry rs
    → IsRegistry (admitted b r rs)
IsRegistry-admitted true r rs e h = h
IsRegistry-admitted false r rs e h = (ground (arith, e), ground (arith, e), h)

Grows-add_rows : (others rs : List Registered) → Grows rs (add_rows others rs)
unfolding add_rows
Grows-add_rows [] rs id x h = h
Grows-add_rows (r ∷ others) rs id x h =
    let b = has_id r.id rs || has_iri r.iri rs in
    Grows-add_rows others (admitted b r rs) id x (Grows-admitted b r rs refl id x h)

IsRegistry-add_rows :
    (others rs : List Registered) → IsRegistry rs → IsRegistry (add_rows others rs)
unfolding add_rows
IsRegistry-add_rows [] rs h = h
IsRegistry-add_rows (r ∷ others) rs h =
    let b = has_id r.id rs || has_iri r.iri rs in
    IsRegistry-add_rows others (admitted b r rs) (IsRegistry-admitted b r rs refl h)

-- A row that is found by its IRI is found by its id.
by_iri-by_id :
    (iri : Text) (x : Registered) (rs : List Registered)
    → IsRegistry rs
    → by_iri iri rs ≡ some x
    → by_id x.id rs ≡ some x
by_iri-by_id iri x [] keyed h = cc
by_iri-by_id iri x (r ∷ rs) keyed h = elim (Bool-cases (same_codes r.iri iri)) [
  | inl same ↦ ground (arith, h, same, ==-refl r.id)
  | inr other ↦
      let later = by_iri-by_id iri x rs keyed.2 (rw other at h) in
      rw (absent-other r.id x.id x rs keyed.0 later) later
]

-- What registering an IRI does to the table, and the row that it finds.
pub record Ensured (rs rs' : List Registered) (sought : Text) (r : Registered) : Type 0 where
  pub registry : IsRegistry rs'
  pub grows : Grows rs rs'
  pub named : r.iri ≡ sought
  pub there : by_id r.id rs' ≡ some r

abbrev pub Ends :
    List Registered → Text → Result RegistryError (List Registered × Registered) → Type 0
Ends rs iri o =
    (o ≡ err id_taken)
    ⊎ ((rs' : List Registered) × (r : Registered) × (o ≡ ok (rs', r)) × Ensured rs rs' iri r)

found-Ensured :
    (rs rs' : List Registered) (iri : Text) (r : Registered)
    → Grows rs rs'
    → IsRegistry rs'
    → by_iri iri rs' ≡ some r
    → Ensured rs rs' iri r
found-Ensured rs rs' iri r grows keyed h = record {
  registry = keyed;
  grows = grows;
  named = (same_codes_iff r.iri iri).0 (find-passes (λ x. same_codes x.iri iri) rs' r h);
  there = by_iri-by_id iri r rs' keyed h;
}

inserted-Ends :
    (b : Bool) (id : Uuid) (iri : Text) (rs : List Registered)
    → has_id id rs ≡ b
    → has_iri iri rs ≡ false
    → IsRegistry rs
    → Ends rs iri (inserted b id iri rs)
inserted-Ends true id iri rs e new keyed = inl refl
inserted-Ends false id iri rs e new keyed = inr (
  unknown_resource id iri ∷ rs,
  unknown_resource id iri,
  refl,
  record {
    registry = (e, new, keyed);
    grows = λ k x h. rw (absent-other id k x rs e h) h;
    named = refl;
    there = rw (==-refl id) refl;
  },
)

insert_unknown-Ends :
    (b : Bool) (id : Uuid) (iri : Text) (rs : List Registered)
    → has_iri iri rs ≡ b
    → IsRegistry rs
    → Ends rs iri (insert_unknown b id iri rs)
insert_unknown-Ends true id iri rs e keyed =
    let (r, found, same) = find-any (λ x. same_codes x.iri iri) rs e in
    inr (rs, r, ap (selected rs) found, found-Ensured rs rs iri r (λ k x h. h) keyed found)
insert_unknown-Ends false id iri rs e keyed = inserted-Ends (has_id id rs) id iri rs refl e keyed

later-Ends :
    (rs more : List Registered) (iri : Text)
    (o : Result RegistryError (List Registered × Registered))
    → Grows rs more
    → Ends more iri o
    → Ends rs iri o
later-Ends rs more iri o grows (inl e) = inl e
later-Ends rs more iri o grows (inr (rs', r, e, h)) = inr (
  rs',
  r,
  e,
  record {
    registry = h.registry;
    grows = λ k x f. h.grows k x (grows k x f);
    named = h.named;
    there = h.there;
  },
)

ensure_found-Ends :
    (others : List Registered) (id : Uuid) (iri : Text) (rs : List Registered)
    (o : Option Registered)
    → by_iri iri rs ≡ o
    → IsRegistry rs
    → Ends rs iri (ensure_found others id iri rs o)
ensure_found-Ends others id iri rs none e keyed =
    let more = add_rows others rs in
    later-Ends rs more iri _ (Grows-add_rows others rs) (
      insert_unknown-Ends (has_iri iri more) id iri more refl (IsRegistry-add_rows others rs keyed))
ensure_found-Ends others id iri rs (some r) e keyed =
    let grows = Grows-add_rows others rs in
    inr (
      add_rows others rs,
      r,
      refl,
      record {
        registry = IsRegistry-add_rows others rs keyed;
        grows = grows;
        named = (same_codes_iff r.iri iri).0 (find-passes (λ x. same_codes x.iri iri) rs r e);
        there = grows r.id r (by_iri-by_id iri r rs keyed e);
      },
    )

pub ensure_resource-Ends :
    (others : List Registered) (id : Uuid) (iri : Text) (rs : List Registered)
    → IsRegistry rs
    → Ends rs iri (ensure_resource others id iri rs)
unfolding ensure_resource
ensure_resource-Ends others id iri rs keyed =
    ensure_found-Ends others id iri rs (by_iri iri rs) refl keyed

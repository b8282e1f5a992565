-- ===== src/Outbox/Grouped.antt =====
-- packages/federation/src/activity-delivery/outbound.ts: what one more recipient does to the groups.
use mathlib.Core.Path.{subst}
use drfed.Common.{
  ◌≡◌, refl, sym, ap, ◌∙◌, Bool, true, false, not, ◌&&◌, ◌||◌, Option, none, some, List, [], ◌∷◌,
  ◌++◌, arith, All, if◌then◌else◌, Bool-cases, inl, inr,
}
use drfed.Common.Text.{same_codes, same_codes_iff, same_codes_refl}
use drfed.Delivery.{Text}
use drfed.Outbox.{is_url}
use drfed.Outbox.Recipients.{Recipient, Groups, is_member, add_to_group, is_left_out}

-- A recipient that has an IRI and an inbox, and is neither the sender nor Public.
abbrev pub is_deliverable : Text → Option Text → Option Text → Option Text → Bool
is_deliverable public_iri sender (some iri) (some url) = not (is_left_out public_iri sender iri)
is_deliverable public_iri sender _ _ = false

-- Some group of the inbox has a recipient of the IRI.
abbrev pub holds : Text → Text → Groups → Bool
holds url iri [] = false
holds url iri ((u, group) ∷ rest) = same_codes u url && is_member iri group || holds url iri rest

abbrev pub reaches : Option Text → Option Text → Groups → Bool
reaches (some iri) (some url) groups = holds url iri groups
reaches _ _ groups = false

abbrev pub has_group : Text → Groups → Bool
has_group url [] = false
has_group url ((u, group) ∷ rest) = same_codes u url || has_group url rest

abbrev pub IsOnce : List Recipient → Type 0
IsOnce [] = Unit
IsOnce (r ∷ rs) = ((iri : Text) → is_url r.iri iri ≡ true → is_member iri rs ≡ false) × IsOnce rs

-- The members of the group of an inbox.
abbrev pub IsGroup : Text → Option Text → Text → List Recipient → Type 0
IsGroup public_iri sender url group =
    All (λ r. (is_url r.inbox url ≡ true) × (is_deliverable public_iri sender r.iri r.inbox ≡ true))
      group
    × IsOnce group

abbrev pub AreGroups : Text → Option Text → Groups → Type 0
AreGroups public_iri sender [] = Unit
AreGroups public_iri sender ((u, group) ∷ rest) =
    (has_group u rest ≡ false)
    × IsGroup public_iri sender u group
    × AreGroups public_iri sender rest

is_member-concat :
    (iri : Text) (group : List Recipient) (r : Recipient)
    → is_member iri (group ++ r ∷ []) ≡ (is_member iri group || is_url r.iri iri)
is_member-concat iri [] r = ground arith
is_member-concat iri (x ∷ group) r = ground (arith, is_member-concat iri group r)

All-concat {ℓ κ} :
    {A : Type ℓ} (P : A → Type κ) (xs : List A) {x : A} → All P xs → P x → All P (xs ++ x ∷ [])
All-concat P [] h p = (p, tt)
All-concat P (y ∷ xs) h p = (h.0, All-concat P xs h.1 p)

same_codes-flip : (a b : Text) → same_codes b a ≡ false → same_codes a b ≡ false
same_codes-flip a b h = elim (Bool-cases (same_codes a b)) [
  | inl same ↦ let back = (same_codes_iff b a).1 (sym ((same_codes_iff a b).0 same)) in cc
  | inr other ↦ other
]

is_url_unique : (o : Option Text) (j k : Text) → is_url o j ≡ true → is_url o k ≡ true → j ≡ k
is_url_unique none j k h e = cc
is_url_unique (some t) j k h e = sym ((same_codes_iff t j).0 h) ∙ (same_codes_iff t k).0 e

module _ (url iri : Text) (r : Recipient) where
  pub holds-add_to_group_self :
      (groups : Groups)
      → is_url r.iri iri ≡ true
      → holds url iri (add_to_group url iri r groups) ≡ true
  unfolding add_to_group
  holds-add_to_group_self [] h = ground (arith, same_codes_refl url, h)
  holds-add_to_group_self ((u, group) ∷ rest) h =
      ground (arith, h, is_member-concat iri group r, holds-add_to_group_self rest h)

  pub holds-add_to_group :
      (v j : Text) (groups : Groups)
      → holds v j groups ≡ true
      → holds v j (add_to_group url iri r groups) ≡ true
  unfolding add_to_group
  holds-add_to_group v j [] h = cc
  holds-add_to_group v j ((u, group) ∷ rest) h =
      ground (arith, h, is_member-concat j group r, holds-add_to_group v j rest)

  has_group-add_to_group :
      (v : Text) (groups : Groups)
      → same_codes url v ≡ false
      → has_group v (add_to_group url iri r groups) ≡ has_group v groups
  unfolding add_to_group
  has_group-add_to_group v [] h = ground (arith, h)
  has_group-add_to_group v ((u, group) ∷ rest) h = ground (arith, has_group-add_to_group v rest h)

  other_iri :
      (x : Recipient) (group : List Recipient)
      → is_member iri (x ∷ group) ≡ false
      → is_url r.iri iri ≡ true
      → (j : Text) → is_url x.iri j ≡ true
      → is_url r.iri j ≡ false
  other_iri x group absent h j e = elim (Bool-cases (is_url r.iri j)) [
    | inl same ↦
        let equal = is_url_unique r.iri j iri same h in
        let clash = ap (is_url x.iri) (sym equal) ∙ e in ground (arith, absent, clash)
    | inr other ↦ other
  ]

  IsOnce-concat :
      (group : List Recipient)
      → is_url r.iri iri ≡ true
      → is_member iri group ≡ false
      → IsOnce group
      → IsOnce (group ++ r ∷ [])
  IsOnce-concat [] h absent once = ((λ j e. refl), tt)
  IsOnce-concat (x ∷ group) h absent once = (
    (λ j e.
        is_member-concat j group r ∙ ground (arith, once.0 j e, other_iri x group absent h j e)),
    IsOnce-concat group h (ground (arith, absent)) once.1,
  )

  IsGroup-concat :
      (public_iri : Text) (sender : Option Text) (group : List Recipient)
      → is_url r.iri iri ≡ true
      → is_url r.inbox url ≡ true
      → is_deliverable public_iri sender r.iri r.inbox ≡ true
      → is_member iri group ≡ false
      → IsGroup public_iri sender url group
      → IsGroup public_iri sender url (group ++ r ∷ [])
  IsGroup-concat public_iri sender group named boxed deliverable absent h =
      (All-concat _ group h.0 (boxed, deliverable), IsOnce-concat group named absent h.1)

  kept-IsGroup :
      (public_iri : Text) (sender : Option Text) (u : Text) (group : List Recipient)
      → is_url r.iri iri ≡ true
      → is_url r.inbox url ≡ true
      → is_deliverable public_iri sender r.iri r.inbox ≡ true
      → same_codes u url ≡ true
      → IsGroup public_iri sender u group
      → IsGroup public_iri sender u (if is_member iri group then group else group ++ r ∷ [])
  kept-IsGroup public_iri sender u group named boxed deliverable same h =
      let equal = (same_codes_iff u url).0 same in
      elim (Bool-cases (is_member iri group)) [
        | inl old ↦ rw old h
        | inr new ↦
            rw (new, equal)
              (IsGroup-concat public_iri sender group named boxed deliverable new
                (subst (λ v. IsGroup public_iri sender v group) equal h))
      ]

  pub add_to_group-AreGroups :
      (public_iri : Text) (sender : Option Text) (groups : Groups)
      → is_url r.iri iri ≡ true
      → is_url r.inbox url ≡ true
      → is_deliverable public_iri sender r.iri r.inbox ≡ true
      → AreGroups public_iri sender groups
      → AreGroups public_iri sender (add_to_group url iri r groups)
  unfolding add_to_group
  add_to_group-AreGroups public_iri sender [] named boxed deliverable h =
      (refl, (((boxed, deliverable), tt), ((λ j e. refl), tt)), tt)
  add_to_group-AreGroups public_iri sender ((u, group) ∷ rest) named boxed deliverable h =
      elim (Bool-cases (same_codes u url)) [
        | inl same ↦
            rw same
              (h.0, kept-IsGroup public_iri sender u group named boxed deliverable same h.1, h.2)
        | inr other ↦ rw other (
          has_group-add_to_group u rest (same_codes-flip url u other) ∙ h.0,
          h.1,
          add_to_group-AreGroups public_iri sender rest named boxed deliverable h.2,
        )
      ]

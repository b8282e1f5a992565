-- ===== src/Outbox/Grouping.antt =====
-- packages/federation/src/activity-delivery/outbound.ts: `groupRecipients` reaches everyone who can be
-- reached, once.
use drfed.Common.{
  ◌≡◌, refl, ap, ◌∙◌, true, Option, none, some, List, [], ◌∷◌, arith, All, Bool-cases, inl, inr,
}
use drfed.Common.Text.{same_codes_refl}
use drfed.Delivery.{Text}
use drfed.Outbox.{is_url}
use drfed.Outbox.Recipients.{
  Recipient, Groups, is_left_out, group_found, group_each, group_recipients,
}
use drfed.Outbox.Grouped.{
  is_deliverable, reaches, AreGroups, holds-add_to_group_self, holds-add_to_group,
  add_to_group-AreGroups,
}

module _ (public_iri : Text) (sender : Option Text) where
  group_found-AreGroups :
      (r : Recipient) (iri url : Option Text) (groups : Groups)
      → r.iri ≡ iri
      → r.inbox ≡ url
      → AreGroups public_iri sender groups
      → AreGroups public_iri sender (group_found public_iri sender r iri url groups)
  group_found-AreGroups r (some iri) (some url) groups named boxed h =
      elim (Bool-cases (is_left_out public_iri sender iri)) [
        | inl out ↦ rw out h
        | inr kept ↦ rw kept (
            add_to_group-AreGroups url iri r public_iri sender groups
              (ap (λ o. is_url o iri) named ∙ same_codes_refl iri)
              (ap (λ o. is_url o url) boxed ∙ same_codes_refl url) (rw (named, boxed, kept) refl) h)
      ]
  group_found-AreGroups r (some iri) none groups named boxed h = h
  group_found-AreGroups r none (some url) groups named boxed h = h
  group_found-AreGroups r none none groups named boxed h = h

  group_found-reaches :
      (r : Recipient) (iri url : Option Text) (groups : Groups)
      → r.iri ≡ iri
      → is_deliverable public_iri sender iri url ≡ true
      → reaches iri url (group_found public_iri sender r iri url groups) ≡ true
  group_found-reaches r (some iri) (some url) groups named h =
      elim (Bool-cases (is_left_out public_iri sender iri)) [
        | inl out ↦ ground (arith, out, h)
        | inr kept ↦ rw kept (
            holds-add_to_group_self url iri r groups
              (ap (λ o. is_url o iri) named ∙ same_codes_refl iri))
      ]
  group_found-reaches r (some iri) none groups named h = cc
  group_found-reaches r none (some url) groups named h = cc
  group_found-reaches r none none groups named h = cc

  group_found-keeps :
      (r : Recipient) (iri url j v : Option Text) (groups : Groups)
      → reaches j v groups ≡ true
      → reaches j v (group_found public_iri sender r iri url groups) ≡ true
  group_found-keeps r (some iri) (some url) (some j) (some v) groups h =
      elim (Bool-cases (is_left_out public_iri sender iri)) [
        | inl out ↦ rw out h
        | inr kept ↦ rw kept (holds-add_to_group url iri r v j groups h)
      ]
  group_found-keeps r (some iri) none j v groups h = h
  group_found-keeps r none (some url) j v groups h = h
  group_found-keeps r none none j v groups h = h
  group_found-keeps r (some iri) (some url) none v groups h = cc
  group_found-keeps r (some iri) (some url) (some j) none groups h = cc

  group_each-keeps :
      (rs : List Recipient) (j v : Option Text) (groups : Groups)
      → reaches j v groups ≡ true
      → reaches j v (group_each public_iri sender rs groups) ≡ true
  unfolding group_each
  group_each-keeps [] j v groups h = h
  group_each-keeps (r ∷ rs) j v groups h =
      group_each-keeps rs j v (group_found public_iri sender r r.iri r.inbox groups)
        (group_found-keeps r r.iri r.inbox j v groups h)

  group_each-AreGroups :
      (rs : List Recipient) (groups : Groups)
      → AreGroups public_iri sender groups
      → AreGroups public_iri sender (group_each public_iri sender rs groups)
  unfolding group_each
  group_each-AreGroups [] groups h = h
  group_each-AreGroups (r ∷ rs) groups h =
      group_each-AreGroups rs (group_found public_iri sender r r.iri r.inbox groups)
        (group_found-AreGroups r r.iri r.inbox groups refl refl h)

  group_each-reaches :
      (rs : List Recipient) (groups : Groups)
      → All
          (λ r.
            is_deliverable public_iri sender r.iri r.inbox ≡ true
            → reaches r.iri r.inbox (group_each public_iri sender rs groups) ≡ true)
          rs
  unfolding group_each
  group_each-reaches [] groups = tt
  group_each-reaches (r ∷ rs) groups =
      let groups' = group_found public_iri sender r r.iri r.inbox groups in
      (
        (λ h.
            group_each-keeps rs r.iri r.inbox groups'
              (group_found-reaches r r.iri r.inbox groups refl h)),
        group_each-reaches rs groups',
      )

-- The groups have one entry for each inbox. Each recipient in a group has that inbox, is neither the
-- sender nor Public, and shares its IRI with no other one there; and every recipient that has an IRI
-- and an inbox and is neither of these is, by its IRI, in the group of its inbox.
pub group_recipients-AreGroups :
    (public_iri : Text) (recipients : List Recipient) (sender : Option Text)
    → let groups = group_recipients public_iri recipients sender in
      AreGroups public_iri sender groups
      × All
          (λ (r : Recipient).
            is_deliverable public_iri sender r.iri r.inbox ≡ true
            → reaches r.iri r.inbox groups ≡ true)
          recipients
unfolding group_recipients
group_recipients-AreGroups public_iri recipients sender = (
  group_each-AreGroups public_iri sender recipients [] tt,
  group_each-reaches public_iri sender recipients [],
)

-- ===== src/Outbox/Recipients.antt =====
-- packages/federation/src/activity-delivery/outbound.ts and addressing.ts: the inboxes that an activity
-- is delivered to, and the IRIs that it addresses. The IRI of the public collection is a constant of the
-- vocabulary library, and an argument.
use drfed.Common.{
  Bool, not, ◌||◌, Option, none, some, List, [], ◌∷◌, ◌++◌, any, select, if◌then◌else◌,
}
use drfed.Common.Text.{same_codes, distinct}
use drfed.Delivery.{Text}
use drfed.Outbox.{is_url}

pub record Recipient : Type 0 where
  pub iri : Option Text
  pub inbox : Option Text

abbrev pub Groups : Type 0
Groups = List (Text × List Recipient)

abbrev pub is_member : Text → List Recipient → Bool
is_member iri group = any (λ (m : Recipient). is_url m.iri iri) group

-- `targets.set(url, [...group, recipient])`, unless the group has a recipient of that IRI.
unfoldable pub add_to_group : Text → Text → Recipient → Groups → Groups
add_to_group url iri r [] = (url, r ∷ []) ∷ []
add_to_group url iri r ((u, group) ∷ rest) =
    let later = add_to_group url iri r rest in
    if same_codes u url
    then (u, if is_member iri group then group else group ++ r ∷ []) ∷ rest
    else (u, group) ∷ later

abbrev pub is_left_out : Text → Option Text → Text → Bool
is_left_out public_iri sender iri = is_url sender iri || same_codes iri public_iri

abbrev pub group_found :
    Text → Option Text → Recipient → Option Text → Option Text → Groups → Groups
group_found public_iri sender r (some iri) (some url) groups =
    if is_left_out public_iri sender iri then groups else add_to_group url iri r groups
group_found public_iri sender r _ _ groups = groups

unfoldable pub group_each : Text → Option Text → List Recipient → Groups → Groups
group_each public_iri sender [] groups = groups
group_each public_iri sender (r ∷ rs) groups =
    group_each public_iri sender rs (group_found public_iri sender r r.iri r.inbox groups)

-- `groupRecipients`
unfoldable pub group_recipients : Text → List Recipient → Option Text → Groups
group_recipients public_iri recipients sender = group_each public_iri sender recipients []

-- The addressed IRIs of an activity.
pub record Addressing : Type 0 where
  pub to_ids : List Text
  pub bto_ids : List Text
  pub cc_ids : List Text
  pub bcc_ids : List Text
  pub audience_ids : List Text

abbrev pub all_ids : Addressing → List Text
all_ids a = a.to_ids ++ a.bto_ids ++ a.cc_ids ++ a.bcc_ids ++ a.audience_ids

-- `addressedIris`
unfoldable pub addressed_iris : Text → Option Addressing → List Text
addressed_iris public_iri none = []
addressed_iris public_iri (some a) =
    select (λ t. not (same_codes t public_iri)) (distinct [] (all_ids a))

-- ===== src/Delivery/Actors.antt =====
-- packages/models/src/activity-delivery.ts: `inboundActorRows`, the local actors that an inbound
-- delivery concerns.
use drfed.Common.{
  Bool, true, false, ◌||◌, Option, none, some, List, [], ◌∷◌, ◌++◌, ◌==◌, any, if◌then◌else◌,
}
use drfed.Common.Sort.{sort_by}
use drfed.Common.Text.{before, same_codes}
use drfed.Revision.{Uuid}
use drfed.Delivery.{Text}

pub record AddressedActor : Type 0 where
  pub actor_id : Uuid
  pub via_collection_iri : Option Text

-- `ActorRow`
pub record ActorRow : Type 0 where
  pub actor_id : Uuid
  pub inbox_owner : Bool
  pub addressed : Bool
  pub addressed_directly : Bool
  pub sender : Bool
  pub collection_iris : List Text

-- A row of an actor that the map has no entry for.
abbrev pub empty_row : Uuid → ActorRow
empty_row a = record {
  actor_id = a;
  inbox_owner = false;
  addressed = false;
  addressed_directly = false;
  sender = false;
  collection_iris = [];
}

abbrev pub is_in : Text → List Text → Bool
is_in c cs = any (λ d. same_codes d c) cs

-- `[...new Set([...collectionIris, viaCollectionIri])].toSorted()`
unfoldable pub add_collection : List Text → Option Text → List Text
add_collection cs none = cs
add_collection cs (some c) = sort_by before (if is_in c cs then cs else cs ++ c ∷ [])

abbrev pub is_direct : Option Text → Bool
is_direct none = true
is_direct (some c) = false

abbrev pub address : AddressedActor → ActorRow → ActorRow
address a row = record row {
  addressed = true;
  addressed_directly = row.addressed_directly || is_direct a.via_collection_iri;
  collection_iris = add_collection row.collection_iris a.via_collection_iri;
}

-- `rows.set(actorId, …)`: a map keeps the place of a key it has.
unfoldable pub set_row : AddressedActor → List ActorRow → List ActorRow
set_row a [] = address a (empty_row a.actor_id) ∷ []
set_row a (row ∷ rows) =
    let rest = set_row a rows in
    if row.actor_id == a.actor_id then address a row ∷ rows else row ∷ rest

unfoldable pub set_rows : List AddressedActor → List ActorRow → List ActorRow
set_rows [] rows = rows
set_rows (a ∷ addressed) rows = set_rows addressed (set_row a rows)

abbrev pub owner_rows : Option Uuid → List ActorRow
owner_rows none = []
owner_rows (some a) = record (empty_row a) { inbox_owner = true } ∷ []

-- `inboundActorRows`
unfoldable pub inbound_actor_rows : Option Uuid → List AddressedActor → List ActorRow
inbound_actor_rows owner addressed = set_rows addressed (owner_rows owner)

-- ===== src/Delivery/Merging.antt =====
-- packages/models/src/activity-delivery.ts: what `inboundActorRows` keeps of each actor.
use drfed.Common.{
  ◌≡◌, refl, ap, ◌∙◌, Bool, false, ◌&&◌, ◌||◌, Option, none, some, List, [], ◌∷◌, arith, ◌==◌,
  if◌then◌else◌, Bool-cases, find, any, inl, inr,
}
use drfed.Revision.{Uuid}
use drfed.Delivery.Actors.{
  ActorRow, AddressedActor, empty_row, address, is_direct, set_row, set_rows, owner_rows,
  inbound_actor_rows,
}
use drfed.Delivery.Carried.{is_of}

-- The row of an actor.
abbrev pub row_of : Uuid → List ActorRow → Option ActorRow
row_of a rows = find (λ r. r.actor_id == a) rows

abbrev pub names_actor : Uuid → AddressedActor → Bool
names_actor a b = b.actor_id == a

-- The flags of an actor's row, false where it has none.
abbrev pub flag : (ActorRow → Bool) → Option ActorRow → Bool
flag f none = false
flag f (some r) = f r

abbrev pub or_empty : Uuid → Option ActorRow → ActorRow
or_empty a none = empty_row a
or_empty a (some r) = r

-- One row for each actor.
abbrev pub IsDistinct : List ActorRow → Type 0
IsDistinct [] = Unit
IsDistinct (r ∷ rows) = (any (λ x. x.actor_id == r.actor_id) rows ≡ false) × IsDistinct rows

module _ (b : AddressedActor) where
  set_row-any :
      (a : Uuid) (rows : List ActorRow)
      → any (λ x. x.actor_id == a) (set_row b rows)
        ≡ (any (λ x. x.actor_id == a) rows || names_actor a b)
  unfolding set_row
  set_row-any a [] = ground arith
  set_row-any a (r ∷ rows) = ground (arith, set_row-any a rows)

  set_row-IsDistinct : (rows : List ActorRow) → IsDistinct rows → IsDistinct (set_row b rows)
  unfolding set_row
  set_row-IsDistinct [] h = (refl, tt)
  set_row-IsDistinct (r ∷ rows) h = elim (Bool-cases (r.actor_id == b.actor_id)) [
    | inl same ↦ rw same h
    | inr other ↦
        rw other
          (set_row-any r.actor_id rows ∙ ground (arith, h.0, other), set_row-IsDistinct rows h.1)
  ]

  -- An actor that is not addressed keeps its row; the one that is has it addressed.
  set_row-row_of :
      (a : Uuid) (rows : List ActorRow)
      → row_of a (set_row b rows) ≡ (
          if names_actor a b
          then some (address b (or_empty b.actor_id (row_of a rows)))
          else row_of a rows)
  unfolding set_row
  set_row-row_of a [] = elim (Bool-cases (b.actor_id == a)) [
    | inl same ↦ rw same refl
    | inr other ↦ rw other refl
  ]
  set_row-row_of a (r ∷ rows) = ground (arith, set_row-row_of a rows)

module _ (a : Uuid) where
  flag-address :
      (f : ActorRow → Bool) (b : AddressedActor) (rows : List ActorRow)
      → flag f (row_of a (set_row b rows)) ≡ (
          if names_actor a b
          then f (address b (or_empty b.actor_id (row_of a rows)))
          else flag f (row_of a rows))
  flag-address f b rows = rw (set_row-row_of b a rows) (ground arith)

  owner-set_row :
      (b : AddressedActor) (o : Option ActorRow)
      → (address b (or_empty b.actor_id o)).inbox_owner ≡ flag (λ r. r.inbox_owner) o
  owner-set_row b none = refl
  owner-set_row b (some r) = refl

  directly-set_row :
      (b : AddressedActor) (o : Option ActorRow)
      → (address b (or_empty b.actor_id o)).addressed_directly
        ≡ (flag (λ r. r.addressed_directly) o || is_direct b.via_collection_iri)
  directly-set_row b none = refl
  directly-set_row b (some r) = refl

  owner-set_rows :
      (bs : List AddressedActor) (rows : List ActorRow)
      → flag (λ r. r.inbox_owner) (row_of a (set_rows bs rows))
        ≡ flag (λ r. r.inbox_owner) (row_of a rows)
  unfolding set_rows
  owner-set_rows [] rows = refl
  owner-set_rows (b ∷ bs) rows =
      owner-set_rows bs (set_row b rows)
      ∙ flag-address (λ r. r.inbox_owner) b rows
      ∙ ground (arith, owner-set_row b (row_of a rows))

  addressed-set_rows :
      (bs : List AddressedActor) (rows : List ActorRow)
      → flag (λ r. r.addressed) (row_of a (set_rows bs rows))
        ≡ (flag (λ r. r.addressed) (row_of a rows) || any (names_actor a) bs)
  unfolding set_rows
  addressed-set_rows [] rows = ground arith
  addressed-set_rows (b ∷ bs) rows =
      addressed-set_rows bs (set_row b rows)
      ∙ ground (arith, flag-address (λ r. r.addressed) b rows)

  directly-set_rows :
      (bs : List AddressedActor) (rows : List ActorRow)
      → flag (λ r. r.addressed_directly) (row_of a (set_rows bs rows)) ≡ (
          flag (λ r. r.addressed_directly) (row_of a rows)
          || any (λ b. names_actor a b && is_direct b.via_collection_iri) bs)
  unfolding set_rows
  directly-set_rows [] rows = ground arith
  directly-set_rows (b ∷ bs) rows =
      directly-set_rows bs (set_row b rows)
      ∙ ground (
        arith,
        flag-address (λ r. r.addressed_directly) b rows,
        directly-set_row b (row_of a rows),
      )

set_rows-IsDistinct :
    (bs : List AddressedActor) (rows : List ActorRow)
    → IsDistinct rows
    → IsDistinct (set_rows bs rows)
unfolding set_rows
set_rows-IsDistinct [] rows h = h
set_rows-IsDistinct (b ∷ bs) rows h =
    set_rows-IsDistinct bs (set_row b rows) (set_row-IsDistinct b rows h)

-- What the rows say of an actor, whatever order the addressed actors come in.
pub record IsMerged (owner : Option Uuid) (addressed : List AddressedActor) (rows : List ActorRow)
    : Type 0 where
  pub distinct : IsDistinct rows
  pub owned : (a : Uuid) → flag (λ r. r.inbox_owner) (row_of a rows) ≡ is_of a owner
  pub reached : (a : Uuid) → flag (λ r. r.addressed) (row_of a rows) ≡ any (names_actor a) addressed
  pub direct :
      (a : Uuid)
      → flag (λ r. r.addressed_directly) (row_of a rows)
        ≡ any (λ b. names_actor a b && is_direct b.via_collection_iri) addressed

owner_rows-IsDistinct : (owner : Option Uuid) → IsDistinct (owner_rows owner)
owner_rows-IsDistinct none = tt
owner_rows-IsDistinct (some a) = (refl, tt)

owner_rows-owner :
    (a : Uuid) (owner : Option Uuid)
    → flag (λ r. r.inbox_owner) (row_of a (owner_rows owner)) ≡ is_of a owner
owner_rows-owner a none = refl
owner_rows-owner a (some b) = ground arith

owner_rows-reached :
    (a : Uuid) (owner : Option Uuid) → flag (λ r. r.addressed) (row_of a (owner_rows owner)) ≡ false
owner_rows-reached a none = refl
owner_rows-reached a (some b) = ground arith

owner_rows-direct :
    (a : Uuid) (owner : Option Uuid)
    → flag (λ r. r.addressed_directly) (row_of a (owner_rows owner)) ≡ false
owner_rows-direct a none = refl
owner_rows-direct a (some b) = ground arith

-- The actor rows of an inbound delivery have one row for each actor. An actor's row is marked as the
-- inbox owner exactly when it owns the inbox, as addressed exactly when some entry names it, and as
-- addressed directly exactly when some entry names it without a collection.
pub inbound_actor_rows-IsMerged :
    (owner : Option Uuid) (addressed : List AddressedActor)
    → IsMerged owner addressed (inbound_actor_rows owner addressed)
unfolding inbound_actor_rows
inbound_actor_rows-IsMerged owner addressed = record {
  distinct = set_rows-IsDistinct addressed (owner_rows owner) (owner_rows-IsDistinct owner);
  owned = λ a. owner-set_rows a addressed (owner_rows owner) ∙ owner_rows-owner a owner;
  reached = λ a.
      addressed-set_rows a addressed (owner_rows owner)
      ∙ ap (λ b. b || any (names_actor a) addressed) (owner_rows-reached a owner);
  direct = λ a.
      directly-set_rows a addressed (owner_rows owner)
      ∙ ap (λ b. b || any (λ x. names_actor a x && is_direct x.via_collection_iri) addressed)
          (owner_rows-direct a owner);
}

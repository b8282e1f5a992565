-- ===== src/Inbound/Pending.antt =====
-- packages/federation/src/activity-delivery/queue.ts and inbound.ts: a delivery that is received, or
-- still on its way.
use drfed.Common.{
  ◌≤◌, ◌≡◌, refl, sym, ap, ◌∙◌, true, false, some, arith, ==-refl, ◌⊎◌, inl, inr, if◌then◌else◌,
}
use drfed.Revision.{Uuid}
use drfed.Delivery.{Store, Delivery, Status, received, acknowledged, is_inbound}
use drfed.Delivery.Carried.{receive_inbound, awaits_listener}
use drfed.Delivery.Rows.{lookup, lookup-id, lookup-updated}
use drfed.Delivery.Valid.{IsValid}
use drfed.Delivery.Moves.{Moves, HasMoved, may_become}
use drfed.Inbound.Race.{Plan, World, is_marked}

-- A row that is received, or acknowledged while the two are not both past their steps.
pub record Pending (s : Store) (id : Uuid) (met : Type 0) : Type 0 where
  pub row : Delivery
  pub found : lookup id s.deliveries ≡ some row
  pub inward : is_inbound row.direction ≡ true
  pub status : (row.status ≡ received) ⊎ ((row.status ≡ acknowledged) × (met → ⊥))

-- The worker is past its update of the row, and the request is past its own or has seen no mark.
abbrev pub Met : World → Type 0
Met w = (2 ≤ w.worker) × ((3 ≤ w.request) ⊎ ((w.request ≡ 2) × (w.seen ≡ false)))

pub record Progress (p : Plan) (w : World) : Type 0 where
  pub valid : IsValid w.store
  pub marked : 1 ≤ w.worker → is_marked p.id w.received ≡ true
  pub pending : w.recorded ≡ true → Pending w.store p.id (Met w)

become-received : (s : Status) → may_become received s ≡ true → s ≡ received
become-received s h = ground (arith, h)

become-acknowledged :
    (s : Status) → may_become acknowledged s ≡ true → (s ≡ received) ⊎ (s ≡ acknowledged)
become-acknowledged s h = ground (arith, h)

moved-status :
    {met later : Type 0} (d e : Delivery)
    → Moves d e
    → (later → met)
    → (d.status ≡ received) ⊎ ((d.status ≡ acknowledged) × (met → ⊥))
    → (e.status ≡ received) ⊎ ((e.status ≡ acknowledged) × (later → ⊥))
moved-status d e m back (inl r) =
    inl (become-received e.status (ap (λ t. may_become t e.status) (sym r) ∙ m.status))
moved-status d e m back (inr (a, never)) =
    elim (become-acknowledged e.status (ap (λ t. may_become t e.status) (sym a) ∙ m.status)) [
      | inl r ↦ inl r
      | inr k ↦ inr (k, λ l. never (back l))
    ]

pub Pending-moved :
    {met later : Type 0} (s s' : Store) (id : Uuid)
    → ((d : Delivery) → lookup id s.deliveries ≡ some d → HasMoved d (lookup id s'.deliveries))
    → (later → met)
    → Pending s id met
    → Pending s' id later
Pending-moved s s' id moves back p =
    let (e, there, moved) = moves p.row p.found in
    record {
      row = e;
      found = there;
      inward = ap (λ (d : Delivery). is_inbound d.direction) (sym moved.request) ∙ p.inward;
      status = moved-status p.row e moved back p.status;
    }

-- The listener's mark on a row that waits for it.
pub Pending-received :
    {met later : Type 0} (s : Store) (id : Uuid)
    → Pending s id met
    → Pending (receive_inbound s id).0 id later
unfolding receive_inbound
Pending-received s id p =
    let k = lookup-id id p.row s.deliveries p.found in
    let there =
      lookup-updated (awaits_listener id) (λ d. record d { status = received }) (λ d. refl)
        s.deliveries id p.row p.found in
    elim p.status [
      | inl r ↦ record {
        row = if awaits_listener id p.row then record p.row { status = received } else p.row;
        found = there;
        inward = ground (arith, p.inward);
        status = inl (ground (arith, r));
      }
      | inr (a, never) ↦ record {
        row = if awaits_listener id p.row then record p.row { status = received } else p.row;
        found = there;
        inward = ground (arith, p.inward);
        status = inl (ground (arith, a, k, p.inward, ==-refl id));
      }
    ]

-- ===== src/Delivery/Lasting.antt =====
-- packages/models/src/activity-delivery.ts and schema.ts: what lasts of a delivery, among changes of the
-- other tables.
use drfed.Common.{
  ◌≡◌, refl, sym, ap, ◌∙◌, Bool, true, false, ◌&&◌, Option, none, some, List, [], ◌∷◌, arith,
  if◌then◌else◌,
}
use drfed.Revision.{Uuid}
use drfed.Delivery.{Value, Delivery, Store, is_inbound}
use drfed.Delivery.Events.{
  Change, called, tables_changed, Tables, has_actor, has_activity, still, detached, with_tables,
  keeps_receipts, apply, run,
}
use drfed.Delivery.Rows.{lookup}
use drfed.Delivery.Valid.{IsValid}
use drfed.Delivery.Checked.{apply-IsValid}
use drfed.Delivery.Moves.{
  request_of, Moves, may_become, may_become_refl, may_become_trans, is_final,
}
use drfed.Delivery.Rows.{lookup-updated}
use drfed.Delivery.Kept.{perform-Moves}

-- Whether a change leaves an actor, or a stored activity, where it is.
abbrev pub keeps_actor : Uuid → Change → Bool
keeps_actor id (called e) = true
keeps_actor id (tables_changed t) = has_actor t.actors id

abbrev pub keeps_activity : Uuid → Change → Bool
keeps_activity id (called e) = true
keeps_activity id (tables_changed t) = has_activity t.activities id

-- The columns of the request, the actor aside.
abbrev pub paper_of : Delivery → Delivery
paper_of d = record (request_of d) { actor_id = none }

-- What lasts of a delivery under changes that keep some actors and some activities.
pub record Lasts (actors activities : Uuid → Bool) (d e : Delivery) : Type 0 where
  pub request : paper_of d ≡ paper_of e
  pub status : may_become d.status e.status ≡ true
  pub owned : (k : Uuid) → actors k ≡ true → d.actor_id ≡ some k → e.actor_id ≡ some k
  pub linked : (a : Uuid) → activities a ≡ true → d.activity_id ≡ some a → e.activity_id ≡ some a
  pub settled :
      is_final d.status ≡ true
      → is_inbound d.direction ≡ false
      → e ≡ record d { actor_id = e.actor_id; activity_id = e.activity_id }

abbrev pub HasLasted : (actors activities : Uuid → Bool) → Delivery → Option Delivery → Type 0
HasLasted actors activities d o = (e : Delivery) × (o ≡ some e) × Lasts actors activities d e

Lasts-self : (actors activities : Uuid → Bool) (d : Delivery) → Lasts actors activities d d
Lasts-self actors activities d = record {
  request = refl;
  status = may_become_refl d.status;
  owned = λ k h e. e;
  linked = λ a h e. e;
  settled = λ final out. refl;
}

Lasts-trans :
    (p q p' q' : Uuid → Bool) (a b c : Delivery)
    → Lasts p q a b
    → Lasts p' q' b c
    → Lasts (λ k. p k && p' k) (λ k. q k && q' k) a c
Lasts-trans p q p' q' a b c h g = record {
  request = h.request ∙ g.request;
  status = may_become_trans a.status b.status c.status h.status g.status;
  owned = λ k both e. g.owned k (ground (arith, both)) (h.owned k (ground (arith, both)) e);
  linked = λ k both e. g.linked k (ground (arith, both)) (h.linked k (ground (arith, both)) e);
  settled = λ final out.
      let same = h.settled final out in
      let again =
        g.settled (ap (λ (d : Delivery). is_final d.status) same ∙ final)
          (ap (λ (d : Delivery). is_inbound d.direction) same ∙ out) in
      again
      ∙ ap (λ (d : Delivery). record d { actor_id = c.actor_id; activity_id = c.activity_id }) same;
}

-- A row that a call moves.
Moves-Lasts :
    (actors activities : Uuid → Bool) (d e : Delivery) → Moves d e → Lasts actors activities d e
Moves-Lasts actors activities d e m = record {
  request = ap (λ (x : Delivery). record x { actor_id = none }) m.request;
  status = m.status;
  owned = λ k h own. ap (λ (x : Delivery). x.actor_id) (sym m.request) ∙ own;
  linked = λ a h link. m.linked a link;
  settled = λ final out.
      let same = m.settled final out in
      same
      ∙ ap (λ (x : Delivery). record d { actor_id = x.actor_id; activity_id = x.activity_id })
          (sym same);
}

still-keeps :
    (p : Uuid → Bool) (o : Option Uuid) (k : Uuid) → p k ≡ true → o ≡ some k → still p o ≡ some k
still-keeps p o k there e = rw (e, there) refl

detached-Lasts :
    (t : Tables) (d : Delivery)
    → Lasts (has_actor t.actors) (has_activity t.activities) d (detached t d)
detached-Lasts t d = record {
  request = refl;
  status = may_become_refl d.status;
  owned = λ k. still-keeps (has_actor t.actors) d.actor_id k;
  linked = λ a. still-keeps (has_activity t.activities) d.activity_id a;
  settled = λ final out. refl;
}

with_tables-HasLasted :
    (b : Bool) (s : Store) (t : Tables) (id : Uuid) (d : Delivery)
    → lookup id s.deliveries ≡ some d
    → HasLasted
        (has_actor t.actors)
        (has_activity t.activities)
        d
        (lookup id (if b then with_tables s t else s).deliveries)
unfolding with_tables
with_tables-HasLasted true s t id d h = (
  detached t d,
  lookup-updated (λ x. true) (detached t) (λ x. refl) s.deliveries id d h,
  detached-Lasts t d,
)
with_tables-HasLasted false s t id d h = (d, h, Lasts-self _ _ d)

-- Whether all of some changes do.
abbrev pub keep_actor : List Change → Uuid → Bool
keep_actor [] id = true
keep_actor (c ∷ cs) id = keeps_actor id c && keep_actor cs id

abbrev pub keep_activity : List Change → Uuid → Bool
keep_activity [] id = true
keep_activity (c ∷ cs) id = keeps_activity id c && keep_activity cs id

module _ (deep_equal : Value → Value → Bool) where
  apply-HasLasted :
      (s : Store) (c : Change) (id : Uuid) (d : Delivery)
      → IsValid s
      → lookup id s.deliveries ≡ some d
      → HasLasted
          (λ k. keeps_actor k c)
          (λ a. keeps_activity a c)
          d
          (lookup id (apply deep_equal s c).deliveries)
  unfolding apply
  apply-HasLasted s (called e) id d valid h =
      let (x, there, moved) = perform-Moves deep_equal s e id d valid.keyed h in
      (x, there, Moves-Lasts _ _ d x moved)
  apply-HasLasted s (tables_changed t) id d valid h =
      with_tables-HasLasted (keeps_receipts s t) s t id d h

  -- Whatever happens after a delivery was recorded, calls of the exported functions and transactions
  -- that change the actors, resources, activities, objects and revisions in any way, it stays in the
  -- store with every column of the request: direction, verification, types, IRIs, keys, hosts, URLs,
  -- headers, body, payload, recipients and creation. Its status only moves from acknowledged to
  -- received, and from queued or failed to the end of an attempt or to abandoned. It keeps its actor
  -- and its link to an activity as long as no change removes that actor or that activity, so that a
  -- link is never replaced while its activity is stored. An outbound delivery that was sent, failed for
  -- good or was abandoned never changes again in any column but these two. The store is valid at first,
  -- and the instance of the delivery stays.
  pub run-Lasts :
      (s : Store) (cs : List Change) (id : Uuid) (d : Delivery)
      → IsValid s
      → lookup id s.deliveries ≡ some d
      → HasLasted (keep_actor cs) (keep_activity cs) d (lookup id (run deep_equal s cs).deliveries)
  unfolding run
  run-Lasts s [] id d valid h = (d, h, Lasts-self _ _ d)
  run-Lasts s (c ∷ cs) id d valid h =
      let (x, there, first) = apply-HasLasted s c id d valid h in
      let (y, after, second) =
        run-Lasts (apply deep_equal s c) cs id x (apply-IsValid deep_equal s c valid) there in
      (y, after, Lasts-trans _ _ _ _ d x y first second)

-- ===== src/Delivery/Kept.antt =====
-- Each exported function of packages/models/src/activity-delivery.ts changes deliveries as they may.
use drfed.Common.{
  ◌≡◌, refl, sym, ap, ◌∙◌, Bool, true, false, Option, none, some, List, arith, any, find, ◌==◌,
}
use drfed.Common.Result.{Result, ok, err}
use drfed.Revision.{Uuid, Instant}
use drfed.Delivery.{
  Value, Delivery, Store, Activity, Registered, DeliveryError, Status, received, is_inbound,
  update_where,
}
use drfed.Delivery.Storable.{stored_object}
use drfed.Delivery.Actors.{ActorRow}
use drfed.Delivery.Record.{insert_delivery, with_texts, record_inbound, record_outbound}
use drfed.Delivery.Carried.{
  receive_inbound, awaits_listener, is_inbound_of, activity_of, object_of, carries, carries_object,
  set_carried, decide, decide_found, decide_carried, record_fetched_object, fetch_found, may_link,
  linkable, link_to, link_found, link_inbound_activity,
}
use drfed.Delivery.Settle.{
  Settlement, status_of, Outcome, is_pending, settle_row, settle_found, settle_outbound, latest,
  awaits,
}
use drfed.Delivery.Events.{
  Event, inbound_arrived, outbound_started, listener_ran, activity_stored, object_fetched,
  outbound_ended, or_rolled_back, perform,
}
use drfed.Delivery.Rows.{
  lookup, IsKeyed, IsKeyed-update_where, lookup-insert, lookup_unique, find-lookup, latest-lookup,
}
use drfed.Delivery.Checked.{found_none}
use drfed.Delivery.Passed.{insert_delivery-IsInserted, settle_found-IsSettled}
use drfed.Delivery.Moves.{
  HasMoved, HasMoved-update, Moves, Moves-self, Moves-trans, SameRequest, may_become,
  may_become_refl, receive-Moves,
}

-- A change of an inbound delivery.
inbound-Moves :
    (d e : Delivery)
    → SameRequest d e
    → may_become d.status e.status ≡ true
    → ((a : Uuid) → d.activity_id ≡ some a → e.activity_id ≡ some a)
    → is_inbound d.direction ≡ true
    → Moves d e
inbound-Moves d e same status linked inward = record {
  request = same;
  status = status;
  linked = linked;
  settled = λ final out. cc;
}

is_inbound_of-inbound :
    (id : Uuid) (d : Delivery) → is_inbound_of id d ≡ true → is_inbound d.direction ≡ true
is_inbound_of-inbound id d h = ground (arith, h)

may_link-inbound : (id : Uuid) (d : Delivery) → may_link id d ≡ true → is_inbound d.direction ≡ true
unfolding may_link
may_link-inbound id d h = ground (arith, h)

may_link-unlinked :
    (id a b : Uuid) (d : Delivery) → may_link id d ≡ true → d.activity_id ≡ some a → some b ≡ some a
unfolding may_link
may_link-unlinked id a b d h e = ground (arith, h, e)

module _ (deep_equal : Value → Value → Bool) where
  decide-Moves :
      (s : Store) (x : Delivery) (a : Option Activity) (id : Uuid) (d : Delivery)
      → is_inbound x.direction ≡ true
      → lookup x.id s.deliveries ≡ some x
      → lookup id s.deliveries ≡ some d
      → HasMoved d (lookup id (decide deep_equal s x a).deliveries)
  decide-Moves s x none id d inward row h = (d, h, Moves-self d)
  decide-Moves s x (some a) id d inward row h =
      let b = carries deep_equal x a in
      let c = carries_object deep_equal x (object_of s a.id) in
      HasMoved-update (λ y. y.id == x.id) (set_carried b c) s.deliveries id d (λ y. refl)
        (λ passes.
          inbound-Moves d (set_carried b c d) refl (may_become_refl d.status) (λ k e. e)
            (ap (λ (y : Delivery). is_inbound y.direction)
                (lookup_unique id d x s.deliveries h row passes)
              ∙ inward))
        h

  decide_found-Moves :
      (s : Store) (k id : Uuid) (d : Delivery) (o : Option Delivery)
      → find (is_inbound_of k) s.deliveries ≡ o
      → IsKeyed s.deliveries
      → lookup id s.deliveries ≡ some d
      → HasMoved d (lookup id (decide_found deep_equal s o).deliveries)
  decide_found-Moves s k id d none found keyed h = (d, h, Moves-self d)
  decide_found-Moves s k id d (some x) found keyed h =
      let (passes, row) = find-lookup (is_inbound_of k) s.deliveries x keyed found in
      decide-Moves s x (activity_of s x.activity_id) id d (is_inbound_of-inbound k x passes) row h

  decide_carried-Moves :
      (s : Store) (k id : Uuid) (d : Delivery)
      → IsKeyed s.deliveries
      → lookup id s.deliveries ≡ some d
      → HasMoved d (lookup id (decide_carried deep_equal s k).deliveries)
  unfolding decide_carried
  decide_carried-Moves s k id d =
      decide_found-Moves s k id d (find (is_inbound_of k) s.deliveries) refl

  -- A change of some rows, and then the decision.
  decided-Moves :
      (s : Store) (p : Delivery → Bool) (f : Delivery → Delivery) (k id : Uuid) (d : Delivery)
      → ((x : Delivery) → (f x).id ≡ x.id)
      → (p d ≡ true → Moves d (f d))
      → IsKeyed s.deliveries
      → lookup id s.deliveries ≡ some d
      → HasMoved d (
          lookup id
            (decide_carried deep_equal
              (record s { deliveries = update_where p f s.deliveries })
              k).deliveries)
  decided-Moves s p f k id d keeps step keyed h =
      let (e, there, first) = HasMoved-update p f s.deliveries id d keeps step h in
      let (g, after, second) =
        decide_carried-Moves (record s { deliveries = update_where p f s.deliveries }) k id e
          (IsKeyed-update_where p f keeps s.deliveries keyed) there in
      (g, after, Moves-trans d e g first second)

  fetch_found-Moves :
      (s : Store) (k id : Uuid) (document : Option Value) (d : Delivery) (b : Bool)
      → IsKeyed s.deliveries
      → lookup id s.deliveries ≡ some d
      → HasMoved d (lookup id (fetch_found deep_equal s k document b).0.deliveries)
  fetch_found-Moves s k id document d false keyed h = (d, h, Moves-self d)
  fetch_found-Moves s k id document d true keyed h =
      decided-Moves s (is_inbound_of k) (λ x. record x { fetched_object = stored_object document })
        k id d (λ x. refl)
        (λ passes.
          inbound-Moves d (record d { fetched_object = stored_object document }) refl
            (may_become_refl d.status) (λ a e. e) (is_inbound_of-inbound k d passes))
        keyed h

  link_to-Moves :
      (s : Store) (k id : Uuid) (d : Delivery) (o : Option Registered)
      → IsKeyed s.deliveries
      → lookup id s.deliveries ≡ some d
      → HasMoved d (lookup id (link_to deep_equal s k o).0.deliveries)
  link_to-Moves s k id d none keyed h = (d, h, Moves-self d)
  link_to-Moves s k id d (some r) keyed h =
      decided-Moves s (may_link k) (λ x. record x { activity_id = some r.id }) k id d (λ x. refl)
        (λ passes.
          inbound-Moves d (record d { activity_id = some r.id }) refl (may_become_refl d.status)
            (λ a e. may_link-unlinked k a r.id d passes e) (may_link-inbound k d passes))
        keyed h

  link_found-Moves :
      (s : Store) (k id : Uuid) (d : Delivery) (o : Option Delivery)
      → IsKeyed s.deliveries
      → lookup id s.deliveries ≡ some d
      → HasMoved d (lookup id (link_found deep_equal s k o).0.deliveries)
  link_found-Moves s k id d none keyed h = (d, h, Moves-self d)
  link_found-Moves s k id d (some x) keyed h =
      link_to-Moves s k id d (linkable s x.activity_iri) keyed h

insert_delivery-Moves :
    (s s' : Store) (x y : Delivery) (links : List ActorRow) (id : Uuid) (d : Delivery)
    → insert_delivery s x links ≡ ok (s', y)
    → lookup id s.deliveries ≡ some d
    → HasMoved d (lookup id s'.deliveries)
insert_delivery-Moves s s' x y links id d done h =
    let i = insert_delivery-IsInserted s s' x y links done in
    (
      d,
      ap (λ (t : Store). lookup id t.deliveries) i.outcome
          ∙ lookup-insert id (with_texts x) d s.deliveries i.fresh h,
      Moves-self d,
    )

awaits-pending :
    (e : Settlement) (d : Delivery)
    → awaits e d ≡ true
    → (is_inbound d.direction ≡ false) × (is_pending d.status ≡ true)
unfolding awaits
awaits-pending e d h = ground (arith, h)

may_become-status_of :
    (s : Status) (o : Outcome) → is_pending s ≡ true → may_become s (status_of o) ≡ true
may_become-status_of s o h = ground (arith, h)

settle-Moves :
    (e : Settlement) (now : Instant) (d : Delivery)
    → awaits e d ≡ true
    → Moves d (settle_row e now d)
settle-Moves e now d h =
    let (out, pending) = awaits-pending e d h in
    record {
      request = refl;
      status = may_become-status_of d.status e.status pending;
      linked = λ a k. k;
      settled = λ final o. ground (arith, pending, final);
    }

settle_found-Moves :
    (s s' : Store) (e : Settlement) (now : Instant) (k id : Uuid) (d : Delivery) (b : Bool)
    (o : Option Delivery)
    → latest (awaits e) s.deliveries ≡ o
    → settle_found s e now k o ≡ ok (s', b)
    → IsKeyed s.deliveries
    → lookup id s.deliveries ≡ some d
    → HasMoved d (lookup id s'.deliveries)
settle_found-Moves s s' e now k id d b none found done keyed h =
    (d, ap (λ (t : Store). lookup id t.deliveries) (sym (found_none s s' b done)) ∙ h, Moves-self d)
settle_found-Moves s s' e now k id d b (some x) found done keyed h =
    let r = settle_found-IsSettled s s' e now k x b done in
    let (passes, row) = latest-lookup (awaits e) s.deliveries x keyed found in
    let (y, there, moved) =
      HasMoved-update (λ y. y.id == x.id) (settle_row e now) s.deliveries id d (λ y. refl)
        (λ same.
          settle-Moves e now d
            (ap (awaits e) (lookup_unique id d x s.deliveries h row same) ∙ passes))
        h in
    (y, ap (λ (t : Store). lookup id t.deliveries) r.outcome ∙ there, moved)

settle_outbound-Moves :
    (s s' : Store) (e : Settlement) (now : Instant) (k id : Uuid) (d : Delivery) (b : Bool)
    → settle_outbound s e now k ≡ ok (s', b)
    → IsKeyed s.deliveries
    → lookup id s.deliveries ≡ some d
    → HasMoved d (lookup id s'.deliveries)
unfolding settle_outbound
settle_outbound-Moves s s' e now k id d b =
    settle_found-Moves s s' e now k id d b (latest (awaits e) s.deliveries) refl

or_rolled_back-Moves :
    {A : Type 0} (s : Store) (r : Result DeliveryError (Store × A)) (id : Uuid) (d : Delivery)
    → ((s' : Store) (a : A) → r ≡ ok (s', a) → HasMoved d (lookup id s'.deliveries))
    → lookup id s.deliveries ≡ some d
    → HasMoved d (lookup id (or_rolled_back s r).deliveries)
or_rolled_back-Moves s (ok (s', a)) id d done h = done s' a refl
or_rolled_back-Moves s (err e) id d done h = (d, h, Moves-self d)

module _ (deep_equal : Value → Value → Bool) where
  pub perform-Moves :
      (s : Store) (e : Event) (id : Uuid) (d : Delivery)
      → IsKeyed s.deliveries
      → lookup id s.deliveries ≡ some d
      → HasMoved d (lookup id (perform deep_equal s e).deliveries)
  unfolding perform record_inbound record_outbound receive_inbound link_inbound_activity
      record_fetched_object
  perform-Moves s (inbound_arrived k body addressed entry) id d keyed h =
      or_rolled_back-Moves s (record_inbound s k body addressed entry) id d
        (λ s' y done. insert_delivery-Moves s s' _ y _ id d done h) h
  perform-Moves s (outbound_started k entry) id d keyed h =
      or_rolled_back-Moves s (record_outbound s k entry) id d
        (λ s' y done. insert_delivery-Moves s s' _ y _ id d done h) h
  perform-Moves s (listener_ran k) id d keyed h =
      HasMoved-update (awaits_listener k) (λ x. record x { status = received }) s.deliveries id d
        (λ x. refl) (receive-Moves k d) h
  perform-Moves s (activity_stored k) id d keyed h =
      link_found-Moves deep_equal s k id d (find (may_link k) s.deliveries) keyed h
  perform-Moves s (object_fetched k document) id d keyed h =
      fetch_found-Moves deep_equal s k id document d (any (is_inbound_of k) s.deliveries) keyed h
  perform-Moves s (outbound_ended e now k) id d keyed h =
      or_rolled_back-Moves s (settle_outbound s e now k) id d
        (λ s' b done. settle_outbound-Moves s s' e now k id d b done keyed h) h

-- ===== src/Inbound/Meeting.antt =====
-- A delivery whose listener ran ends as received, whichever of the worker and the request comes first.
use drfed.Common.{
  ℕ, zero, suc, ◌≤◌, ◌≡◌, refl, ap, ◌∙◌, Bool, true, false, Option, none, some, List, [], ◌∷◌,
  arith, ==-refl, ◌⊎◌, inl, inr,
}
use drfed.Common.Result.{Result, ok, err}
use drfed.Revision.{Uuid}
use drfed.Delivery.{Value, Store, Delivery, DeliveryError, received, acknowledged}
use drfed.Delivery.Record.{record_inbound, inbound_delivery, with_texts}
use drfed.Delivery.Actors.{inbound_actor_rows}
use drfed.Delivery.Carried.{link_inbound_activity}
use drfed.Delivery.Events.{Event, listener_ran, activity_stored, object_fetched, perform}
use drfed.Delivery.Rows.{lookup, lookup_self}
use drfed.Delivery.Passed.{insert_delivery-IsInserted}
use drfed.Delivery.Valid.{insert_delivery-IsValid, IsValid}
use drfed.Delivery.Checked.{perform-IsValid}
use drfed.Delivery.Moves.{Moves-self}
use drfed.Delivery.Kept.{perform-Moves}
use drfed.Inbound.Race.{
  Plan, World, is_marked, receive_if, fetch_if, work, after_recording, answer, answer_if,
  worker_turn, request_turn, run_race,
}
use drfed.Inbound.Pending.{Pending, Met, Progress, Pending-moved, Pending-received}

module _ (deep_equal : Value → Value → Bool) where
  -- An event between the two.
  Pending-performed :
      {met later : Type 0} (s : Store) (e : Event) (id : Uuid)
      → IsValid s
      → (later → met)
      → Pending s id met
      → Pending (perform deep_equal s e) id later
  Pending-performed s e id valid =
      Pending-moved s (perform deep_equal s e) id
        (λ d h. perform-Moves deep_equal s e id d valid.keyed h)

  receive_if-IsValid : (b : Bool) (s : Store) (id : Uuid) → IsValid s → IsValid (receive_if b id s)
  unfolding perform
  receive_if-IsValid true s id v = perform-IsValid deep_equal s (listener_ran id) v
  receive_if-IsValid false s id v = v

  fetch_if-IsValid :
      (o : Option Value) (s : Store) (id : Uuid) → IsValid s → IsValid (fetch_if deep_equal o id s)
  unfolding perform
  fetch_if-IsValid none s id v = v
  fetch_if-IsValid (some x) s id v = perform-IsValid deep_equal s (object_fetched id (some x)) v

  Pending-fetch_if :
      {met later : Type 0} (o : Option Value) (s : Store) (id : Uuid)
      → IsValid s
      → (later → met)
      → Pending s id met
      → Pending (fetch_if deep_equal o id s) id later
  unfolding perform
  Pending-fetch_if none s id v back h = Pending-moved s s id (λ d e. (d, e, Moves-self d)) back h
  Pending-fetch_if (some x) s id v back h =
      Pending-performed s (object_fetched id (some x)) id v back h

  Pending-linked :
      {met later : Type 0} (s : Store) (id : Uuid)
      → IsValid s
      → (later → met)
      → Pending s id met
      → Pending (link_inbound_activity deep_equal s id).0 id later
  unfolding perform
  Pending-linked s id v back h = Pending-performed s (activity_stored id) id v back h

  link-IsValid :
      (s : Store) (id : Uuid) → IsValid s → IsValid (link_inbound_activity deep_equal s id).0
  unfolding perform
  link-IsValid s id v = perform-IsValid deep_equal s (activity_stored id) v

  worker_turn-Progress :
      (p : Plan) (n : ℕ) (w : World)
      → w.worker ≡ n
      → p.handled ≡ true
      → Progress p w
      → Progress p (record (work deep_equal p n w) { worker = suc n })
  unfolding work
  worker_turn-Progress p zero w at handled g = record {
    valid = g.valid;
    marked = λ h. rw handled (rw (==-refl p.id) refl);
    pending = λ h.
        Pending-moved w.store w.store p.id (λ d e. (d, e, Moves-self d))
          (λ (m, k). absurd (omega arith)) (g.pending h);
  }
  worker_turn-Progress p (suc zero) w at handled g = record {
    valid = receive_if-IsValid p.handled w.store p.id g.valid;
    marked = λ h. g.marked (omega (arith, at));
    pending = λ h. rw handled (Pending-received w.store p.id (g.pending h));
  }
  worker_turn-Progress p (suc (suc zero)) w at handled g = record {
    valid = g.valid;
    marked = λ h. g.marked (omega (arith, at));
    pending = λ h.
        Pending-moved w.store w.store p.id (λ d e. (d, e, Moves-self d))
          (λ (m, k). (omega (arith, at), k)) (g.pending h);
  }
  worker_turn-Progress p (suc (suc (suc zero))) w at handled g = record {
    valid = fetch_if-IsValid p.fetched w.store p.id g.valid;
    marked = λ h. g.marked (omega (arith, at));
    pending = λ h.
        Pending-fetch_if p.fetched w.store p.id g.valid (λ (m, k). (omega (arith, at), k))
          (g.pending h);
  }
  worker_turn-Progress p (suc (suc (suc (suc n)))) w at handled g = record {
    valid = link-IsValid w.store p.id g.valid;
    marked = λ h. g.marked (omega (arith, at));
    pending =
        λ h. Pending-linked w.store p.id g.valid (λ (m, k). (omega (arith, at), k)) (g.pending h);
  }

  recording-IsValid :
      (s s' : Store) (d : Delivery) (p : Plan)
      → record_inbound s p.id p.body p.addressed p.entry ≡ ok (s', d)
      → IsValid s
      → IsValid s'
  unfolding record_inbound
  recording-IsValid s s' d p done v =
      insert_delivery-IsValid s s' (inbound_delivery p.id p.body p.entry) d
        (inbound_actor_rows p.entry.actor_id p.addressed) refl done v

  -- The row that was just recorded.
  recording-Pending :
      {met : Type 0} (s s' : Store) (d : Delivery) (p : Plan)
      → record_inbound s p.id p.body p.addressed p.entry ≡ ok (s', d)
      → p.entry.status ≡ acknowledged
      → (met → ⊥)
      → Pending s' p.id met
  unfolding record_inbound
  recording-Pending s s' d p done waits never =
      let x = inbound_delivery p.id p.body p.entry in
      let i =
        insert_delivery-IsInserted s s' x d (inbound_actor_rows p.entry.actor_id p.addressed)
          done in
      record {
        row = with_texts x;
        found =
            ap (λ (t : Store). lookup p.id t.deliveries) i.outcome
            ∙ lookup_self (with_texts x) s.deliveries;
        inward = refl;
        status = inr (waits, never);
      }

  not_Met-recorded : (seen : Bool) → (3 ≤ 1) ⊎ ((◌≡◌ {A = ℕ} 1 2) × (seen ≡ false)) → ⊥
  not_Met-recorded seen (inl k) = omega arith
  not_Met-recorded seen (inr (k, e)) = omega arith

  not_Met-looked :
      (p : Plan) (w : World)
      → (1 ≤ w.worker → is_marked p.id w.received ≡ true)
      → 2 ≤ w.worker
      → (3 ≤ 2) ⊎ ((◌≡◌ {A = ℕ} 2 2) × (is_marked p.id w.received ≡ false))
      → ⊥
  not_Met-looked p w marked m (inl k) = omega arith
  not_Met-looked p w marked m (inr (k, e)) = let seen = marked (omega arith) in cc

  after_recording-Progress :
      (p : Plan) (w : World) (r : Result DeliveryError (Store × Delivery))
      → record_inbound w.store p.id p.body p.addressed p.entry ≡ r
      → p.entry.status ≡ acknowledged
      → Progress p w
      → Progress p (record (after_recording deep_equal w r) { request = 1 })
  after_recording-Progress p w (ok (s', d)) done waits g = record {
    valid = recording-IsValid w.store s' d p done g.valid;
    marked = g.marked;
    pending =
        λ h. recording-Pending w.store s' d p done waits (λ (m, k). not_Met-recorded w.seen k);
  }
  after_recording-Progress p w (err e) done waits g = record {
    valid = g.valid;
    marked = g.marked;
    pending = λ h.
        Pending-moved w.store w.store p.id (λ d e. (d, e, Moves-self d))
          (λ (m, k). absurd (not_Met-recorded w.seen k)) (g.pending h);
  }

  -- The request updates the row as it has seen the mark.
  receive_if-Pending :
      (p : Plan) (w : World) (b : Bool)
      → w.seen ≡ b
      → w.request ≡ 2
      → Pending w.store p.id (Met w)
      → Pending (receive_if b p.id w.store) p.id (Met (record w { request = 3 }))
  receive_if-Pending p w true at here h = Pending-received w.store p.id h
  receive_if-Pending p w false at here h =
      Pending-moved w.store w.store p.id (λ d e. (d, e, Moves-self d))
        (λ (m, k). (m, inr (here, at))) h

  request_turn-Progress :
      (p : Plan) (n : ℕ) (b : Bool) (w : World)
      → w.request ≡ n
      → w.recorded ≡ b
      → p.entry.status ≡ acknowledged
      → Progress p w
      → Progress p (record (answer_if deep_equal p n b w) { request = suc n })
  unfolding answer
  request_turn-Progress p zero b w at seen waits g =
      after_recording-Progress p w (record_inbound w.store p.id p.body p.addressed p.entry) refl
        waits g
  request_turn-Progress p (suc n) false w at seen waits g = record {
    valid = g.valid;
    marked = g.marked;
    pending = λ h. absurd (cc);
  }
  request_turn-Progress p (suc zero) true w at seen waits g = rw waits (record {
    valid = g.valid;
    marked = g.marked;
    pending = λ h.
        Pending-moved w.store w.store p.id (λ d e. (d, e, Moves-self d))
          (λ (m, k). absurd (not_Met-looked p w g.marked m k)) (g.pending h);
  })
  request_turn-Progress p (suc (suc zero)) true w at seen waits g = rw waits (record {
    valid = receive_if-IsValid w.seen w.store p.id g.valid;
    marked = g.marked;
    pending = λ h. receive_if-Pending p w w.seen refl at (g.pending h);
  })
  request_turn-Progress p (suc (suc (suc zero))) true w at seen waits g = rw waits (record {
    valid = g.valid;
    marked = g.marked;
    pending = λ h.
        Pending-moved w.store w.store p.id (λ d e. (d, e, Moves-self d))
          (λ (m, k). (m, inl (omega (arith, at)))) (g.pending h);
  })
  request_turn-Progress p (suc (suc (suc (suc zero)))) true w at seen waits g = rw waits (record {
    valid = fetch_if-IsValid w.found w.store p.id g.valid;
    marked = g.marked;
    pending = λ h.
        Pending-fetch_if w.found w.store p.id g.valid (λ (m, k). (m, inl (omega (arith, at))))
          (g.pending h);
  })
  request_turn-Progress p (suc (suc (suc (suc (suc n))))) true w at seen waits g = record {
    valid = link-IsValid w.store p.id g.valid;
    marked = g.marked;
    pending = λ h.
        Pending-linked w.store p.id g.valid (λ (m, k). (m, inl (omega (arith, at)))) (g.pending h);
  }

  run_race-Progress :
      (p : Plan) (turns : List Bool) (w : World)
      → p.handled ≡ true
      → p.entry.status ≡ acknowledged
      → Progress p w
      → Progress p (run_race deep_equal p turns w)
  unfolding run_race
  run_race-Progress p [] w handled waits g = g
  run_race-Progress p (true ∷ turns) w handled waits g =
      run_race-Progress p turns (worker_turn deep_equal p w) handled waits
        (worker_turn-Progress p w.worker w refl handled g)
  run_race-Progress p (false ∷ turns) w handled waits g =
      run_race-Progress p turns (request_turn deep_equal p w) handled waits
        (request_turn-Progress p w.request w.recorded w refl refl waits g)

  Met-received :
      (w : World) (id : Uuid)
      → 2 ≤ w.worker
      → 3 ≤ w.request
      → Pending w.store id (Met w)
      → (d : Delivery) × (lookup id w.store.deliveries ≡ some d) × (d.status ≡ received)
  Met-received w id m k h = elim h.status [
    | inl r ↦ (h.row, h.found, r)
    | inr (a, never) ↦ absurd (never (m, inl k))
  ]

  -- An inbox request was acknowledged before its listener ran, the queue worker runs the listener, and
  -- the request records its delivery. The database and key–value operations of the two come in any order.
  -- Once the worker has marked the delivery as received in the key–value store and then in the database,
  -- and the request has recorded the delivery without an error, then looked for the mark, and then, if it
  -- saw the mark, marked the delivery as received too, the delivery is in the store with the status
  -- received, whatever came in between and after. The worker starts from its beginning, the request has
  -- not yet recorded the delivery, and the store is valid.
  pub run_race-received :
      (p : Plan) (turns : List Bool) (w : World)
      → IsValid w.store
      → w.worker ≡ 0
      → w.recorded ≡ false
      → p.handled ≡ true
      → p.entry.status ≡ acknowledged
      → (run_race deep_equal p turns w).recorded ≡ true
      → 2 ≤ (run_race deep_equal p turns w).worker
      → 3 ≤ (run_race deep_equal p turns w).request
      → (d : Delivery) × (lookup p.id (run_race deep_equal p turns w).store.deliveries ≡ some d)
        × (d.status ≡ received)
  run_race-received p turns w valid before fresh handled waits done m k =
      let g = run_race-Progress p turns w handled waits (record {
        valid = valid;
        marked = λ h. absurd (omega (arith, before));
        pending = λ h. absurd (cc);
      }) in
      Met-received (run_race deep_equal p turns w) p.id m k (g.pending done)

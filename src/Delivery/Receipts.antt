-- ===== src/Delivery/Receipts.antt =====
-- packages/models/src/activity-delivery.ts: `decideCarried` leaves the receipts that are evidence, and no others.
use drfed.Common.{
  ◌≡◌, ◌⊎◌, ◌↔◌, inl, inr, refl, ap, ◌∙◌, Bool, true, false, ◌&&◌, Option, none, some, [], ◌∷◌,
  Bool-cases,
}
use drfed.Delivery.{
  Value, Delivery, Receipt, activity_role, object_role, StoredObject, Snapshot, Activity, Store,
  is_inbound,
}
use drfed.Delivery.Storable.{present}
use drfed.Delivery.Carried.{
  activity_of, object_of, first_snapshot, carries, carries_object, equals, without_receipts,
  object_receipts, receipts_of_object, activity_receipts, receipts_for, decide_carried,
}
use drfed.Delivery.Rows.{lookup}
use drfed.Delivery.Evidence.{receipts_of, decide_carried-replaced}
use drfed.Delivery.Evident.{
  Among, OneFirst, first_snapshot-IsFirst, IsFirst-first_snapshot, Among-if, and-cases, Matches,
  equals-Matches, Matches-equals, CarriedActivity, CarriedObject, IsEvidence, of_activity,
  of_object,
}

module _ (deep_equal : Value → Value → Bool) where
  carries_object-brought :
      (d : Delivery) (o : StoredObject)
      → carries_object deep_equal d (some o) ≡ true
      → (o.fetched ≡ false) ⊎ Matches deep_equal (present d.fetched_object) o.document
  unfolding carries_object
  carries_object-brought d o h = elim (Bool-cases o.fetched) [
    | inl fetched ↦
        inr (equals-Matches deep_equal (present d.fetched_object) o.document (rw fetched at h))
    | inr made ↦ inl made
  ]

  brought-carries_object :
      (d : Delivery) (o : StoredObject)
      → (o.fetched ≡ false) ⊎ Matches deep_equal (present d.fetched_object) o.document
      → carries_object deep_equal d (some o) ≡ true
  unfolding carries_object
  brought-carries_object d o (inl made) = rw made refl
  brought-carries_object d o (inr m) = elim (Bool-cases o.fetched) [
    | inl fetched ↦ rw fetched (Matches-equals deep_equal (present d.fetched_object) o.document m)
    | inr made ↦ rw made refl
  ]

  module _ (s : Store) (d : Delivery) (a : Activity) (r : Receipt) where
    object_found-IsEvidence :
        (v : Snapshot) (o : StoredObject) (found : Option Snapshot)
        → CarriedActivity deep_equal s d a v
        → object_of s a.id ≡ some o
        → first_snapshot s o.id ≡ found
        → Among r (object_receipts deep_equal d.id (carries_object deep_equal d (some o)) o found)
        → IsEvidence deep_equal s d a r
    object_found-IsEvidence v o none c there at h = absurd h
    object_found-IsEvidence v o (some w) c there at h =
        let (both, here) =
          Among-if (carries_object deep_equal d (some o) && equals deep_equal w.document o.document)
            r _ h in
        let (brought, kept) = and-cases _ (equals deep_equal w.document o.document) both in
        of_object w
          (record {
            shown = v;
            carried = c;
            object = o;
            found = there;
            first = first_snapshot-IsFirst s o.id w at;
            brought = carries_object-brought d o brought;
            kept = equals-Matches deep_equal w.document o.document kept;
          })
          (only here)
      where
        only : {x : Receipt} → Among r (x ∷ []) → r ≡ x
        only (inl e) = e
        only (inr h) = absurd h

    object-IsEvidence :
        (v : Snapshot) (o : Option StoredObject)
        → CarriedActivity deep_equal s d a v
        → object_of s a.id ≡ o
        → Among r (receipts_of_object deep_equal s d.id (carries_object deep_equal d o) o)
        → IsEvidence deep_equal s d a r
    object-IsEvidence v none c there h = absurd h
    object-IsEvidence v (some o) c there h =
        object_found-IsEvidence v o (first_snapshot s o.id) c there refl h

    activity_found-IsEvidence :
        (found : Option Snapshot)
        → first_snapshot s a.id ≡ found
        → carries deep_equal d a ≡ true
        → Among r (
            activity_receipts deep_equal s d.id
              (carries_object deep_equal d (object_of s a.id))
              a
              (object_of s a.id)
              found)
        → IsEvidence deep_equal s d a r
    unfolding carries
    activity_found-IsEvidence none at sent h = absurd h
    activity_found-IsEvidence (some v) at sent h =
        let (kept, here) = Among-if (equals deep_equal v.document a.document) r _ h in
        let c : CarriedActivity deep_equal s d a v = record {
          first = first_snapshot-IsFirst s a.id v at;
          sent = equals-Matches deep_equal (present d.payload) a.document sent;
          kept = equals-Matches deep_equal v.document a.document kept;
        } in
        elim here [
          | inl e ↦ of_activity v c e
          | inr rest ↦ object-IsEvidence v (object_of s a.id) c refl rest
        ]

    receipts_for-IsEvidence :
        Among r (receipts_for deep_equal s d a (object_of s a.id)) → IsEvidence deep_equal s d a r
    unfolding receipts_for
    receipts_for-IsEvidence h =
        let (sent, here) = Among-if (carries deep_equal d a) r _ h in
        activity_found-IsEvidence (first_snapshot s a.id) refl sent here

    -- Where the activity was carried, its receipt stands before that of the object.
    CarriedActivity-receipts :
        (v : Snapshot)
        → OneFirst s
        → CarriedActivity deep_equal s d a v
        → receipts_for deep_equal s d a (object_of s a.id)
          ≡ record { delivery_id = d.id; revision_id = v.id; role = activity_role }
            ∷ receipts_of_object deep_equal s d.id
                (carries_object deep_equal d (object_of s a.id))
                (object_of s a.id)
    unfolding receipts_for carries
    CarriedActivity-receipts v one c =
        rw
          (
            Matches-equals deep_equal (present d.payload) a.document c.sent,
            IsFirst-first_snapshot s a.id v one c.first,
            Matches-equals deep_equal v.document a.document c.kept,
          )
          refl

    CarriedObject-receipts :
        (w : Snapshot)
        → OneFirst s
        → CarriedObject deep_equal s d a w
        → receipts_of_object deep_equal s d.id
            (carries_object deep_equal d (object_of s a.id))
            (object_of s a.id)
          ≡ record { delivery_id = d.id; revision_id = w.id; role = object_role } ∷ []
    CarriedObject-receipts w one c =
        ap (λ o. receipts_of_object deep_equal s d.id (carries_object deep_equal d o) o) c.found
        ∙ rw
            (
              IsFirst-first_snapshot s c.object.id w one c.first,
              brought-carries_object d c.object c.brought,
              Matches-equals deep_equal w.document c.object.document c.kept,
            )
            refl

    IsEvidence-receipts_for :
        OneFirst s
        → IsEvidence deep_equal s d a r
        → Among r (receipts_for deep_equal s d a (object_of s a.id))
    IsEvidence-receipts_for one (of_activity v c e) = rw (CarriedActivity-receipts v one c) (inl e)
    IsEvidence-receipts_for one (of_object w c e) =
        let first = CarriedActivity-receipts c.shown one c.carried in
        let second = CarriedObject-receipts w one c in rw first (rw second (inr (inl e)))

  -- Each decision on a linked inbound delivery replaces that delivery's receipts, and no others. After it
  -- a receipt of the delivery is there exactly when it is evidence: of the first snapshot of the
  -- activity, where the payload of the delivery and that snapshot both equal the stored document; or of
  -- the first snapshot of the activity's object, where moreover that snapshot equals the stored object
  -- and the object either was not fetched or is what the delivery fetched. A resource has one first
  -- snapshot.
  pub decide_carried-receipts :
      (s : Store) (d : Delivery) (a : Activity)
      → OneFirst s
      → is_inbound d.direction ≡ true
      → lookup d.id s.deliveries ≡ some d
      → activity_of s d.activity_id ≡ some a
      → ((r : Receipt)
          → Among r (receipts_of d.id (decide_carried deep_equal s d.id).receipts)
            ↔ IsEvidence deep_equal s d a r)
        × (without_receipts d.id (decide_carried deep_equal s d.id).receipts
            ≡ without_receipts d.id s.receipts)
  decide_carried-receipts s d a one inward row stored =
      let (own, others) = decide_carried-replaced deep_equal s d a inward row stored in
      (λ r. rw own (receipts_for-IsEvidence s d a r, IsEvidence-receipts_for s d a r one), others)

-- ===== src/Delivery/Evidence.antt =====
-- packages/models/src/activity-delivery.ts: the receipts that `decideCarried` leaves.
use drfed.Common.{
  ◌≡◌, refl, Bool, true, false, ◌&&◌, Option, none, some, List, [], ◌∷◌, ◌++◌, arith, select, ◌==◌,
  ==-refl, if◌then◌else◌,
}
use drfed.Revision.{Uuid}
use drfed.Delivery.{Value, Delivery, Receipt, StoredObject, Snapshot, Activity, Store, is_inbound}
use drfed.Delivery.Carried.{
  activity_of, object_of, first_snapshot, carries, carries_object, equals, without_receipts,
  object_receipts, receipts_of_object, activity_receipts, receipts_for, decide_carried,
}
use drfed.Delivery.Rows.{lookup}
use drfed.Delivery.Linking.{lookup-find}

-- The receipts of one delivery.
abbrev pub receipts_of : Uuid → List Receipt → List Receipt
receipts_of id rs = select (λ r. r.delivery_id == id) rs

abbrev pub IsOwn : Uuid → List Receipt → Type 0
IsOwn id rs = (without_receipts id rs ≡ []) × (receipts_of id rs ≡ rs)

without_receipts-append :
    (id : Uuid) (xs ys : List Receipt)
    → IsOwn id ys
    → without_receipts id (without_receipts id xs ++ ys) ≡ without_receipts id xs
without_receipts-append id [] ys h = h.0
without_receipts-append id (x ∷ xs) ys h = ground (arith, without_receipts-append id xs ys h)

receipts_of-append :
    (id : Uuid) (xs ys : List Receipt)
    → IsOwn id ys
    → receipts_of id (without_receipts id xs ++ ys) ≡ ys
receipts_of-append id [] ys h = h.1
receipts_of-append id (x ∷ xs) ys h = ground (arith, receipts_of-append id xs ys h)

IsOwn-cons :
    (r : Receipt) (rs : List Receipt) → IsOwn r.delivery_id rs → IsOwn r.delivery_id (r ∷ rs)
IsOwn-cons r rs h = rw (==-refl r.delivery_id, h.0, h.1) (refl, refl)

IsOwn-if :
    (b : Bool) (id : Uuid) (rs : List Receipt) → IsOwn id rs → IsOwn id (if b then rs else [])
IsOwn-if true id rs h = h
IsOwn-if false id rs h = (refl, refl)

module _ (deep_equal : Value → Value → Bool) where
  object_receipts-IsOwn :
      (id : Uuid) (b : Bool) (o : StoredObject) (v : Option Snapshot)
      → IsOwn id (object_receipts deep_equal id b o v)
  object_receipts-IsOwn id b o none = (refl, refl)
  object_receipts-IsOwn id b o (some v) =
      IsOwn-if (b && equals deep_equal v.document o.document) id _ (IsOwn-cons _ [] (refl, refl))

  receipts_of_object-IsOwn :
      (s : Store) (id : Uuid) (b : Bool) (o : Option StoredObject)
      → IsOwn id (receipts_of_object deep_equal s id b o)
  receipts_of_object-IsOwn s id b none = (refl, refl)
  receipts_of_object-IsOwn s id b (some o) = object_receipts-IsOwn id b o (first_snapshot s o.id)

  activity_receipts-IsOwn :
      (s : Store) (id : Uuid) (b : Bool) (a : Activity) (o : Option StoredObject)
      (v : Option Snapshot)
      → IsOwn id (activity_receipts deep_equal s id b a o v)
  activity_receipts-IsOwn s id b a o none = (refl, refl)
  activity_receipts-IsOwn s id b a o (some v) =
      IsOwn-if (equals deep_equal v.document a.document) id _
        (IsOwn-cons _ (receipts_of_object deep_equal s id b o) (receipts_of_object-IsOwn s id b o))

  receipts_for-IsOwn :
      (s : Store) (d : Delivery) (a : Activity) (o : Option StoredObject)
      → IsOwn d.id (receipts_for deep_equal s d a o)
  unfolding receipts_for
  receipts_for-IsOwn s d a o =
      IsOwn-if (carries deep_equal d a) d.id _
        (activity_receipts-IsOwn s d.id (carries_object deep_equal d o) a o (first_snapshot s a.id))

  pub decide_carried-replaced :
      (s : Store) (d : Delivery) (a : Activity)
      → is_inbound d.direction ≡ true
      → lookup d.id s.deliveries ≡ some d
      → activity_of s d.activity_id ≡ some a
      → (receipts_of d.id (decide_carried deep_equal s d.id).receipts
          ≡ receipts_for deep_equal s d a (object_of s a.id))
        × (without_receipts d.id (decide_carried deep_equal s d.id).receipts
            ≡ without_receipts d.id s.receipts)
  unfolding decide_carried
  decide_carried-replaced s d a inward row stored =
      rw (lookup-find d.id d s.deliveries inward row, stored)
        (
          receipts_of-append d.id s.receipts _ (receipts_for-IsOwn s d a (object_of s a.id)),
          without_receipts-append d.id s.receipts _ (receipts_for-IsOwn s d a (object_of s a.id)),
        )

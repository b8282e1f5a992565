-- ===== src/Delivery/Checked.antt =====
-- The rows of the delivery tables keep the checks of packages/models/src/schema.ts.
use mathlib.Core.Path.{subst}
use drfed.Common.{
  ◌≡◌, refl, sym, Bool, true, false, Option, none, some, List, [], ◌∷◌, arith, All, ◌==◌,
  if◌then◌else◌, Bool-cases, inl, inr, ◌⊎◌,
}
use drfed.Common.Result.{Result, ok, err}
use drfed.Revision.{Uuid, Instant}
use drfed.Delivery.{Value, Delivery, Store, DeliveryError}
use drfed.Delivery.Record.{satisfies_checks, record_inbound, record_outbound}
use drfed.Delivery.Settle.{
  Settlement, satisfies_attempt_checks, settle_row, settle_found, attempt_of, settle_outbound,
  latest, awaits,
}
use drfed.Delivery.Events.{
  Event, inbound_arrived, outbound_started, listener_ran, activity_stored, object_fetched,
  outbound_ended, or_rolled_back, perform, run, Change, called, tables_changed, Tables,
  has_activity, still, detached, with_tables, keeps_receipts, apply,
}
use drfed.Delivery.Rows.{IsKeyed-update_where, EachRow-update_where, latest-lookup, lookup_unique}
use drfed.Delivery.Passed.{settle_found-IsSettled}
use drfed.Delivery.Valid.{
  IsRow, IsValid, update-IsValid, insert_delivery-IsValid, receive_inbound-IsValid,
  record_fetched_object-IsValid, link_inbound_activity-IsValid,
}

attempts-checked :
    (s : Store) (e : Settlement) (now : Instant) (id delivery_id : Uuid) (attempted : Bool)
    → (attempted ≡ true → satisfies_attempt_checks (attempt_of e now id delivery_id) ≡ true)
    → All (λ a. satisfies_attempt_checks a ≡ true) s.attempts
    → All
        (λ a. satisfies_attempt_checks a ≡ true)
        (if attempted then attempt_of e now id delivery_id ∷ s.attempts else s.attempts)
attempts-checked s e now id delivery_id true new old = (new refl, old)
attempts-checked s e now id delivery_id false new old = old

pub found_none :
    (s s' : Store) (b : Bool)
    → Path (Result DeliveryError (Store × Bool)) (ok (s, false)) (ok (s', b))
    → s ≡ s'
found_none s s' b h = cc

settle_found-IsValid :
    (s s' : Store) (e : Settlement) (now : Instant) (id : Uuid) (o : Option Delivery) (b : Bool)
    → latest (awaits e) s.deliveries ≡ o
    → settle_found s e now id o ≡ ok (s', b)
    → IsValid s
    → IsValid s'
settle_found-IsValid s s' e now id none b found h valid = subst IsValid (found_none s s' b h) valid
settle_found-IsValid s s' e now id (some d) b found h valid =
    let r = settle_found-IsSettled s s' e now id d b h in
    let (passes, row) = latest-lookup (awaits e) s.deliveries d valid.keyed found in
    subst IsValid (sym r.outcome) (record {
      keyed =
          IsKeyed-update_where (λ x. x.id == d.id) (settle_row e now) (λ x. refl) s.deliveries
            valid.keyed;
      rows =
          EachRow-update_where (λ x. x.id == d.id) (settle_row e now) (λ x. refl) s.deliveries IsRow
            (λ k x there same old. record {
              checked =
                  subst (λ y. satisfies_checks (settle_row e now y) ≡ true)
                    (sym (lookup_unique k x d s.deliveries there row same)) r.row_checked;
              carried = old.carried;
            })
            valid.rows;
      attempts = attempts-checked s e now id d.id e.attempted r.attempt_checked valid.attempts;
    })

pub settle_outbound-IsValid :
    (s s' : Store) (e : Settlement) (now : Instant) (id : Uuid) (b : Bool)
    → settle_outbound s e now id ≡ ok (s', b)
    → IsValid s
    → IsValid s'
unfolding settle_outbound
settle_outbound-IsValid s s' e now id b =
    settle_found-IsValid s s' e now id (latest (awaits e) s.deliveries) b refl

or_rolled_back-IsValid :
    {A : Type 0} (s : Store) (r : Result DeliveryError (Store × A))
    → ((s' : Store) (a : A) → r ≡ ok (s', a) → IsValid s')
    → IsValid s
    → IsValid (or_rolled_back s r)
or_rolled_back-IsValid s (ok (s', a)) done h = done s' a refl
or_rolled_back-IsValid s (err e) done h = h

pub perform-IsValid :
    (deep_equal : Value → Value → Bool) (s : Store) (e : Event)
    → IsValid s
    → IsValid (perform deep_equal s e)
unfolding perform record_inbound record_outbound
perform-IsValid deep_equal s (inbound_arrived id body addressed entry) h =
    or_rolled_back-IsValid s (record_inbound s id body addressed entry)
      (λ s' d e. insert_delivery-IsValid s s' _ d _ refl e h) h
perform-IsValid deep_equal s (outbound_started id entry) h =
    or_rolled_back-IsValid s (record_outbound s id entry)
      (λ s' d e. insert_delivery-IsValid s s' _ d _ refl e h) h
perform-IsValid deep_equal s (listener_ran id) h = receive_inbound-IsValid s id h
perform-IsValid deep_equal s (activity_stored id) h =
    link_inbound_activity-IsValid deep_equal s id h
perform-IsValid deep_equal s (object_fetched id document) h =
    record_fetched_object-IsValid deep_equal s id document h
perform-IsValid deep_equal s (outbound_ended e now id) h =
    or_rolled_back-IsValid s (settle_outbound s e now id)
      (λ s' b done. settle_outbound-IsValid s s' e now id b done h) h

kept_or_gone : (p : Uuid → Bool) (o : Option Uuid) → (still p o ≡ o) ⊎ (still p o ≡ none)
kept_or_gone p none = inl refl
kept_or_gone p (some id) = elim (Bool-cases (p id)) [
  | inl there ↦ inl (rw there refl)
  | inr gone ↦ inr (rw gone refl)
]

detached-checks :
    (t : Tables) (d : Delivery) → satisfies_checks d ≡ true → satisfies_checks (detached t d) ≡ true
unfolding satisfies_checks
detached-checks t d h = elim (kept_or_gone (has_activity t.activities) d.activity_id) [
  | inl kept ↦ rw kept h
  | inr gone ↦ rw gone (ground (arith, h))
]

with_tables-IsValid : (s : Store) (t : Tables) → IsValid s → IsValid (with_tables s t)
unfolding with_tables
with_tables-IsValid s t h =
    let v =
      update-IsValid s (λ d. true) (detached t) (λ d. refl)
        (λ d passes r. record { checked = detached-checks t d r.checked; carried = r.carried }) h in
    record { keyed = v.keyed; rows = v.rows; attempts = v.attempts }

with_tables_if-IsValid :
    (b : Bool) (s : Store) (t : Tables) → IsValid s → IsValid (if b then with_tables s t else s)
with_tables_if-IsValid true s t h = with_tables-IsValid s t h
with_tables_if-IsValid false s t h = h

pub apply-IsValid :
    (deep_equal : Value → Value → Bool) (s : Store) (c : Change)
    → IsValid s
    → IsValid (apply deep_equal s c)
unfolding apply
apply-IsValid deep_equal s (called e) h = perform-IsValid deep_equal s e h
apply-IsValid deep_equal s (tables_changed t) h = with_tables_if-IsValid (keeps_receipts s t) s t h

-- Whatever is recorded, linked, fetched or settled, in any order and among any changes of the other
-- tables, every delivery keeps the checks of its table, none has carried an object without the
-- activity, no two share an id, and every attempt has an error exactly when it failed.
pub run-IsValid :
    (deep_equal : Value → Value → Bool) (s : Store) (cs : List Change)
    → IsValid s
    → IsValid (run deep_equal s cs)
unfolding run
run-IsValid deep_equal s [] h = h
run-IsValid deep_equal s (c ∷ cs) h =
    run-IsValid deep_equal (apply deep_equal s c) cs (apply-IsValid deep_equal s c h)

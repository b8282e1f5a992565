-- ===== src/Delivery/Valid.antt =====
-- packages/models/src/activity-delivery.ts: a recorded, received, fetched or linked delivery meets the
-- checks of packages/models/src/schema.ts.
use mathlib.Core.Path.{subst}
use drfed.Common.{
  ◌≡◌, refl, sym, ◌∙◌, Bool, true, false, ◌&&◌, Option, none, some, List, arith, any, find, All,
  ◌==◌,
}
use drfed.Common.Result.{ok}
use drfed.Revision.{Uuid}
use drfed.Delivery.{Value, Delivery, Store, Activity, Registered, received, update_where}
use drfed.Delivery.Storable.{stored_object}
use drfed.Delivery.Actors.{ActorRow}
use drfed.Delivery.Record.{satisfies_checks, insert_delivery, with_texts}
use drfed.Delivery.Carried.{
  receive_inbound, awaits_listener, is_inbound_of, activity_of, object_of, carries, carries_object,
  set_carried, decide, decide_found, decide_carried, fetch_found, record_fetched_object, may_link,
  linkable, link_to, with_fetched, with_link, link_found, link_inbound_activity,
}
use drfed.Delivery.Settle.{satisfies_attempt_checks}
use drfed.Delivery.Rows.{
  IsKeyed, IsKeyed-update_where, EachRow, EachRow-update_where, EachRow-insert,
}
use drfed.Delivery.Passed.{insert_delivery-IsInserted}

-- A row meets the checks of its table, and has not carried an object without its activity.
pub record IsRow (d : Delivery) : Type 0 where
  pub checked : satisfies_checks d ≡ true
  pub carried : d.carried_object_snapshot ≡ true → d.carried_snapshot ≡ true

pub record IsValid (s : Store) : Type 0 where
  pub keyed : IsKeyed s.deliveries
  pub rows : EachRow IsRow s.deliveries
  pub attempts : All (λ a. satisfies_attempt_checks a ≡ true) s.attempts

-- An update of some rows.
pub update-IsValid :
    (s : Store) (p : Delivery → Bool) (f : Delivery → Delivery)
    → ((d : Delivery) → (f d).id ≡ d.id)
    → ((d : Delivery) → p d ≡ true → IsRow d → IsRow (f d))
    → IsValid s
    → IsValid (record s { deliveries = update_where p f s.deliveries })
update-IsValid s p f keeps step h = record {
  keyed = IsKeyed-update_where p f keeps s.deliveries h.keyed;
  rows = EachRow-update_where p f keeps s.deliveries IsRow (λ id d found. step d) h.rows;
  attempts = h.attempts;
}

pub insert_delivery-IsValid :
    (s s' : Store) (x d : Delivery) (links : List ActorRow)
    → x.carried_object_snapshot ≡ false
    → insert_delivery s x links ≡ ok (s', d)
    → IsValid s
    → IsValid s'
insert_delivery-IsValid s s' x d links uncarried h valid =
    let i = insert_delivery-IsInserted s s' x d links h in
    subst IsValid (sym i.outcome) (record {
      keyed = (i.fresh, valid.keyed);
      rows =
          EachRow-insert IsRow (with_texts x) s.deliveries
            (record { checked = i.checked; carried = λ e. cc }) valid.rows;
      attempts = valid.attempts;
    })

receive-checks :
    (id : Uuid) (d : Delivery)
    → awaits_listener id d ≡ true
    → satisfies_checks d ≡ true
    → satisfies_checks (record d { status = received }) ≡ true
unfolding satisfies_checks
receive-checks id d passes h = ground (arith, passes, h)

pub receive_inbound-IsValid : (s : Store) (id : Uuid) → IsValid s → IsValid (receive_inbound s id).0
unfolding receive_inbound
receive_inbound-IsValid s id h =
    update-IsValid s (awaits_listener id) (λ d. record d { status = received }) (λ d. refl)
      (λ d passes r. record { checked = receive-checks id d passes r.checked; carried = r.carried })
      h

both_false : (b c : Bool) → (b && c) ≡ true → b ≡ true
both_false b c h = ground (arith, h)

carried-checks :
    (d : Delivery) (b c : Bool) → satisfies_checks (set_carried b c d) ≡ satisfies_checks d
unfolding satisfies_checks
carried-checks d b c = refl

decide-IsValid :
    (deep_equal : Value → Value → Bool) (s : Store) (d : Delivery) (a : Option Activity)
    → IsValid s
    → IsValid (decide deep_equal s d a)
decide-IsValid deep_equal s d none h = record {
  keyed = h.keyed;
  rows = h.rows;
  attempts = h.attempts;
}
decide-IsValid deep_equal s d (some a) h =
    let carried = carries deep_equal d a in
    let object = carries_object deep_equal d (object_of s a.id) in
    let valid =
      update-IsValid s (λ x. x.id == d.id) (set_carried carried object) (λ x. refl)
        (λ x passes r. record {
          checked = carried-checks x carried object ∙ r.checked;
          carried = both_false carried object;
        })
        h in
    record { keyed = valid.keyed; rows = valid.rows; attempts = valid.attempts }

decide_found-IsValid :
    (deep_equal : Value → Value → Bool) (s : Store) (o : Option Delivery)
    → IsValid s
    → IsValid (decide_found deep_equal s o)
decide_found-IsValid deep_equal s none h = h
decide_found-IsValid deep_equal s (some d) h =
    decide-IsValid deep_equal s d (activity_of s d.activity_id) h

decide_carried-IsValid :
    (deep_equal : Value → Value → Bool) (s : Store) (id : Uuid)
    → IsValid s
    → IsValid (decide_carried deep_equal s id)
unfolding decide_carried
decide_carried-IsValid deep_equal s id h =
    decide_found-IsValid deep_equal s (find (is_inbound_of id) s.deliveries) h

fetched-checks :
    (d : Delivery) (document : Option Value)
    → satisfies_checks (record d { fetched_object = document }) ≡ satisfies_checks d
unfolding satisfies_checks
fetched-checks d document = refl

fetch_found-IsValid :
    (deep_equal : Value → Value → Bool) (s : Store) (id : Uuid) (document : Option Value) (b : Bool)
    → IsValid s
    → IsValid (fetch_found deep_equal s id document b).0
fetch_found-IsValid deep_equal s id document false h = h
fetch_found-IsValid deep_equal s id document true h =
    decide_carried-IsValid deep_equal (with_fetched s id document) id (
      update-IsValid s (is_inbound_of id)
        (λ d. record d { fetched_object = stored_object document }) (λ d. refl)
        (λ d passes r. record {
          checked = fetched-checks d (stored_object document) ∙ r.checked;
          carried = r.carried;
        })
        h)

pub record_fetched_object-IsValid :
    (deep_equal : Value → Value → Bool) (s : Store) (id : Uuid) (document : Option Value)
    → IsValid s
    → IsValid (record_fetched_object deep_equal s id document).0
unfolding record_fetched_object
record_fetched_object-IsValid deep_equal s id document h =
    fetch_found-IsValid deep_equal s id document (any (is_inbound_of id) s.deliveries) h

link-checks :
    (id : Uuid) (d : Delivery) (r : Uuid)
    → may_link id d ≡ true
    → satisfies_checks d ≡ true
    → satisfies_checks (record d { activity_id = some r }) ≡ true
unfolding satisfies_checks may_link
link-checks id d r passes h = ground (arith, passes, h)

link_to-IsValid :
    (deep_equal : Value → Value → Bool) (s : Store) (id : Uuid) (o : Option Registered)
    → IsValid s
    → IsValid (link_to deep_equal s id o).0
link_to-IsValid deep_equal s id none h = h
link_to-IsValid deep_equal s id (some r) h =
    decide_carried-IsValid deep_equal (with_link s id r) id (
      update-IsValid s (may_link id) (λ d. record d { activity_id = some r.id }) (λ d. refl)
        (λ d passes row. record {
          checked = link-checks id d r.id passes row.checked;
          carried = row.carried;
        })
        h)

link_found-IsValid :
    (deep_equal : Value → Value → Bool) (s : Store) (id : Uuid) (o : Option Delivery)
    → IsValid s
    → IsValid (link_found deep_equal s id o).0
link_found-IsValid deep_equal s id none h = h
link_found-IsValid deep_equal s id (some d) h =
    link_to-IsValid deep_equal s id (linkable s d.activity_iri) h

pub link_inbound_activity-IsValid :
    (deep_equal : Value → Value → Bool) (s : Store) (id : Uuid)
    → IsValid s
    → IsValid (link_inbound_activity deep_equal s id).0
unfolding link_inbound_activity
link_inbound_activity-IsValid deep_equal s id h =
    link_found-IsValid deep_equal s id (find (may_link id) s.deliveries) h

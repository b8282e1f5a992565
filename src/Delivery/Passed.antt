-- ===== src/Delivery/Passed.antt =====
-- What an insertion and a settlement have passed when the database lets them through.
use drfed.Common.{◌≡◌, Bool, true, false, not, ◌&&◌, some, List, arith, any, all, ◌==◌}
use drfed.Common.Result.{ok, throw_if, throw_if-passes, >>=-returns}
use drfed.Revision.{Uuid, Instant}
use drfed.Delivery.{Delivery, Store, duplicate_id, check_violation}
use drfed.Delivery.Actors.{ActorRow}
use drfed.Delivery.Record.{
  satisfies_checks, insert_delivery, inserted, check_local_actors, ids_of, satisfies_role_checks,
  with_texts,
}
use drfed.Delivery.Settle.{
  Settlement, satisfies_attempt_checks, settle_row, settle_found, settled, attempt_of,
}

-- What an insertion that succeeds has passed, and does.
pub record IsInserted (s : Store) (x : Delivery) (links : List ActorRow) (s' : Store) : Type 0 where
  pub fresh : any (λ d. d.id == x.id) s.deliveries ≡ false
  pub checked : satisfies_checks (with_texts x) ≡ true
  pub all_local : check_local_actors s x.instance_id (ids_of x.actor_id links) ≡ ok tt
  pub roles : all satisfies_role_checks links ≡ true
  pub outcome : s' ≡ inserted s x links

not-false : (b : Bool) → not b ≡ false → b ≡ true
not-false b h = ground (arith, h)

pub insert_delivery-IsInserted :
    (s s' : Store) (x d : Delivery) (links : List ActorRow)
    → insert_delivery s x links ≡ ok (s', d)
    → IsInserted s x links s'
unfolding insert_delivery
insert_delivery-IsInserted s s' x d links h =
    let (u, near, h1) =
      >>=-returns (check_local_actors s x.instance_id (ids_of x.actor_id links)) _ h in
    let (v, fresh, h2) =
      >>=-returns (throw_if (any (λ d. d.id == x.id) s.deliveries) duplicate_id) _ h1 in
    let (w, checked, h3) =
      >>=-returns (throw_if (not (satisfies_checks (with_texts x))) check_violation) _ h2 in
    let (z, roles, h4) =
      >>=-returns (throw_if (not (all satisfies_role_checks links)) check_violation) _ h3 in
    record {
      fresh = throw_if-passes _ _ fresh;
      checked = not-false _ (throw_if-passes _ _ checked);
      all_local = near;
      roles = not-false _ (throw_if-passes _ _ roles);
      outcome = cc;
    }

pub insert_delivery-returns :
    (s s' : Store) (x d : Delivery) (links : List ActorRow)
    → insert_delivery s x links ≡ ok (s', d)
    → d ≡ with_texts x
unfolding insert_delivery
insert_delivery-returns s s' x d links h =
    let (u, near, h1) =
      >>=-returns (check_local_actors s x.instance_id (ids_of x.actor_id links)) _ h in
    let (v, fresh, h2) =
      >>=-returns (throw_if (any (λ d. d.id == x.id) s.deliveries) duplicate_id) _ h1 in
    let (w, checked, h3) =
      >>=-returns (throw_if (not (satisfies_checks (with_texts x))) check_violation) _ h2 in
    let (z, roles, h4) =
      >>=-returns (throw_if (not (all satisfies_role_checks links)) check_violation) _ h3 in
    cc

-- A settlement that the database lets through.
pub record IsSettled (s : Store) (e : Settlement) (now : Instant) (id : Uuid) (d : Delivery)
    (s' : Store) : Type 0 where
  pub attempt_checked :
      e.attempted ≡ true → satisfies_attempt_checks (attempt_of e now id d.id) ≡ true
  pub row_checked : satisfies_checks (settle_row e now d) ≡ true
  pub outcome : s' ≡ settled s e now id d

and_not : (a b : Bool) → (a && not b) ≡ false → a ≡ true → b ≡ true
and_not a b h e = ground (arith, h, e)

pub settle_found-IsSettled :
    (s s' : Store) (e : Settlement) (now : Instant) (id : Uuid) (d : Delivery) (b : Bool)
    → settle_found s e now id (some d) ≡ ok (s', b)
    → IsSettled s e now id d s'
settle_found-IsSettled s s' e now id d b h =
    let (u, attempt, h1) =
      >>=-returns
        (throw_if (e.attempted && not (satisfies_attempt_checks (attempt_of e now id d.id)))
          check_violation)
        _ h in
    let (v, row, h2) =
      >>=-returns (throw_if (not (satisfies_checks (settle_row e now d))) check_violation) _ h1 in
    record {
      attempt_checked = and_not _ _ (throw_if-passes _ _ attempt);
      row_checked = not-false _ (throw_if-passes _ _ row);
      outcome = cc;
    }

-- ===== src/Delivery/Moves.antt =====
-- How a delivery may change after it was recorded.
use drfed.Common.{
  ◌≡◌, refl, ◌∙◌, Bool, true, false, Option, none, some, List, arith, if◌then◌else◌, Bool-cases,
  inl, inr,
}
use drfed.Revision.{Uuid}
use drfed.Delivery.{
  Delivery, Status, received, acknowledged, unverified, rejected, queued, sent, failed,
  permanently_failed, abandoned, is_inbound, update_where,
}
use drfed.Delivery.Carried.{awaits_listener}
use drfed.Delivery.Rows.{lookup, lookup-updated}

-- The statuses that a delivery may come to have.
abbrev pub may_become : Status → Status → Bool
may_become received received = true
may_become acknowledged received = true
may_become acknowledged acknowledged = true
may_become unverified unverified = true
may_become rejected rejected = true
may_become queued queued = true
may_become queued sent = true
may_become queued failed = true
may_become queued permanently_failed = true
may_become queued abandoned = true
may_become failed sent = true
may_become failed failed = true
may_become failed permanently_failed = true
may_become failed abandoned = true
may_become sent sent = true
may_become permanently_failed permanently_failed = true
may_become abandoned abandoned = true
may_become _ _ = false

abbrev pub is_final : Status → Bool
is_final sent = true
is_final permanently_failed = true
is_final abandoned = true
is_final _ = false

-- What a delivery shows of the request: every column but those that a later change writes.
abbrev pub request_of : Delivery → Delivery
request_of d = record d {
  status = queued;
  activity_id = none;
  carried_snapshot = false;
  fetched_object = none;
  carried_object_snapshot = false;
  status_code = none;
  response_body = none;
  error = none;
  completed = none;
}

abbrev pub SameRequest : Delivery → Delivery → Type 0
SameRequest d e = request_of d ≡ request_of e

pub record Moves (d e : Delivery) : Type 0 where
  pub request : SameRequest d e
  pub status : may_become d.status e.status ≡ true
  pub linked : (a : Uuid) → d.activity_id ≡ some a → e.activity_id ≡ some a
  pub settled : is_final d.status ≡ true → is_inbound d.direction ≡ false → e ≡ d

pub may_become_refl : (s : Status) → may_become s s ≡ true
may_become_refl s = ground arith

pub may_become_trans :
    (r s t : Status) → may_become r s ≡ true → may_become s t ≡ true → may_become r t ≡ true
may_become_trans r s t h k = ground (arith, h, k)

pub Moves-self : (d : Delivery) → Moves d d
Moves-self d = record {
  request = refl;
  status = may_become_refl d.status;
  linked = λ a h. h;
  settled = λ h k. refl;
}

pub Moves-trans : (a b c : Delivery) → Moves a b → Moves b c → Moves a c
Moves-trans a b c h k = record {
  request = h.request ∙ k.request;
  status = may_become_trans a.status b.status c.status h.status k.status;
  linked = λ x e. k.linked x (h.linked x e);
  settled =
      λ final out. let same = h.settled final out in k.settled (rw same final) (rw same out) ∙ same;
}

-- The row of an id after a change.
abbrev pub HasMoved : Delivery → Option Delivery → Type 0
HasMoved d o = (e : Delivery) × (o ≡ some e) × Moves d e

pub HasMoved-update :
    (p : Delivery → Bool) (f : Delivery → Delivery) (ds : List Delivery) (id : Uuid) (d : Delivery)
    → ((x : Delivery) → (f x).id ≡ x.id)
    → (p d ≡ true → Moves d (f d))
    → lookup id ds ≡ some d
    → HasMoved d (lookup id (update_where p f ds))
HasMoved-update p f ds id d keeps step h = (
  if p d then f d else d,
  lookup-updated p f keeps ds id d h,
  elim (Bool-cases (p d)) [
    | inl passes ↦ rw passes (step passes)
    | inr fails ↦ rw fails (Moves-self d)
  ],
)

pub receive-Moves :
    (id : Uuid) (d : Delivery)
    → awaits_listener id d ≡ true
    → Moves d (record d { status = received })
receive-Moves id d h = record {
  request = refl;
  status = ground (arith, h);
  linked = λ a e. e;
  settled = λ final out. ground (arith, h, final, out);
}

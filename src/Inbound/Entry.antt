-- ===== src/Inbound/Entry.antt =====
-- packages/federation/src/activity-delivery/inbound.ts: `record`, which no check of the tables refuses.
use drfed.Common.{
  ℕ, ◌≡◌, refl, Bool, true, false, Option, none, some, List, [], ◌∷◌, arith, any, all, is_some,
  ◌==◌, if◌then◌else◌,
}
use drfed.Common.Result.{Result, ok}
use drfed.Revision.{Uuid, Instant}
use drfed.Delivery.{
  Text, Value, Status, unverified, rejected, Verification, unobserved, inbound, Delivery, Store,
  DeliveryError,
}
use drfed.Delivery.Actors.{
  ActorRow, AddressedActor, set_row, set_rows, owner_rows, inbound_actor_rows,
}
use drfed.Delivery.Record.{
  is_inbound_status, is_queued, is_status_code, was_verifying, satisfies_checks,
  satisfies_role_checks, check_local_actors, ids_of, with_texts, inserted, insert_delivery,
  inbound_delivery, record_inbound,
}
use drfed.Inbound.{classify_inbound, Header, recorded_headers}
use drfed.Inbound.Verify.{Observation}

-- What the recorder knows of a request: `answer` is the response, and none where handling threw.
pub record Observed : Type 0 where
  pub instance_id : Uuid
  pub owner : Option Uuid
  pub type : Option Text
  pub types : List Text
  pub activity_iri : Option Text
  pub remote_actor_iri : Option Text
  pub object_type : Option Text
  pub object_iri : Option Text
  pub remote_host : Option Text
  pub inbox_url : Text
  pub request_url : Text
  pub headers : List Header
  pub answer : Option ℕ
  pub response_body : Option Text
  pub thrown : Option Text
  pub handled : Bool
  pub verification : Observation
  pub signed_key_iri : Option Text
  pub detail : Option Text
  pub payload : Option Value
  pub fetched_object : Option Value
  pub created : Instant
  pub completed : Instant

abbrev pub status_of : Observed → Status
status_of o = classify_inbound o.answer o.handled o.verification.result

abbrev pub is_unobserved : Verification → Bool
is_unobserved unobserved = true
is_unobserved _ = false

-- `responseBody || null`
abbrev pub nonempty : Option Text → Option Text
nonempty (some []) = none
nonempty t = t

abbrev pub or_body : Option Text → Option Text → Option Text
or_body (some t) body = some t
or_body none body = nonempty body

abbrev pub refusal_error : Status → Option Text → Option Text → Option Text
refusal_error unverified detail body = or_body detail body
refusal_error rejected detail body = or_body detail body
refusal_error _ detail body = none

abbrev pub error_of : Observed → Option Text → Option Text
error_of o (some t) = some t
error_of o none =
    if is_unobserved o.verification.result
    then o.detail
    else refusal_error (status_of o) o.detail o.response_body

-- The entry that `record` passes to `recordInbound`.
unfoldable pub inbound_entry : Observed → Delivery
inbound_entry o = record {
  id = 0;
  instance_id = o.instance_id;
  actor_id = o.owner;
  direction = inbound;
  status = status_of o;
  verification_mechanism = o.verification.mechanism;
  verification_result = some o.verification.result;
  type = o.type;
  types = o.types;
  activity_iri = o.activity_iri;
  activity_id = none;
  carried_snapshot = false;
  fetched_object = o.fetched_object;
  carried_object_snapshot = false;
  object_type = o.object_type;
  object_iri = o.object_iri;
  signed_key_iri = o.signed_key_iri;
  verification_key_id = o.verification.key_id;
  remote_actor_iri = o.remote_actor_iri;
  remote_host = o.remote_host;
  inbox_url = o.inbox_url;
  request_url = some o.request_url;
  headers = some (recorded_headers o.headers);
  body = none;
  status_code = o.answer;
  response_body = o.response_body;
  error = error_of o o.thrown;
  payload = o.payload;
  recipient_iris = [];
  created = o.created;
  completed = some o.completed;
}

-- `recordInbound` of a request.
unfoldable pub record_request :
    Store → Uuid → List ℕ → List AddressedActor → Observed → Result DeliveryError (Store × Delivery)
record_request s id body addressed o = record_inbound s id body addressed (inbound_entry o)

-- A mechanism is given only where a verification was made.
abbrev pub IsConsistent : Observation → Type 0
IsConsistent v = is_some v.mechanism ≡ true → was_verifying (some v.result) ≡ true

classify_inbound-status :
    (code : Option ℕ) (handled : Bool) (result : Verification)
    → (is_inbound_status (classify_inbound code handled result) ≡ true)
      × (is_queued (classify_inbound code handled result) ≡ false)
unfolding classify_inbound
classify_inbound-status code handled result = (ground arith, ground arith)

entry-checks :
    (o : Observed) (id : Uuid) (body : List ℕ)
    → is_status_code o.answer ≡ true
    → IsConsistent o.verification
    → satisfies_checks (with_texts (inbound_delivery id body (inbound_entry o))) ≡ true
unfolding satisfies_checks inbound_entry
entry-checks o id body code consistent =
    let (status, settled) = classify_inbound-status o.answer o.handled o.verification.result in
    ground (arith, code, consistent, status, settled)

set_row-roles :
    (b : AddressedActor) (rows : List ActorRow)
    → all satisfies_role_checks rows ≡ true
    → all satisfies_role_checks (set_row b rows) ≡ true
unfolding set_row
set_row-roles b [] h = ground arith
set_row-roles b (r ∷ rows) h = ground (arith, h, set_row-roles b rows)

set_rows-roles :
    (bs : List AddressedActor) (rows : List ActorRow)
    → all satisfies_role_checks rows ≡ true
    → all satisfies_role_checks (set_rows bs rows) ≡ true
unfolding set_rows
set_rows-roles [] rows h = h
set_rows-roles (b ∷ bs) rows h = set_rows-roles bs (set_row b rows) (set_row-roles b rows h)

inbound_actor_rows-roles :
    (owner : Option Uuid) (addressed : List AddressedActor)
    → all satisfies_role_checks (inbound_actor_rows owner addressed) ≡ true
unfolding inbound_actor_rows
inbound_actor_rows-roles none addressed = set_rows-roles addressed [] refl
inbound_actor_rows-roles (some a) addressed = set_rows-roles addressed (owner_rows (some a)) refl

-- A request whose verification is consistent is recorded, with the status that `classifyInbound` gives.
pub record_request-ok :
    (s : Store) (id : Uuid) (body : List ℕ) (addressed : List AddressedActor) (o : Observed)
    → check_local_actors s o.instance_id (ids_of o.owner (inbound_actor_rows o.owner addressed))
      ≡ ok tt
    → any (λ d. d.id == id) s.deliveries ≡ false
    → is_status_code o.answer ≡ true
    → IsConsistent o.verification
    → (r : Store × Delivery) × (record_request s id body addressed o ≡ ok r)
      × (r.1.status ≡ classify_inbound o.answer o.handled o.verification.result)
unfolding record_request record_inbound insert_delivery inbound_entry
record_request-ok s id body addressed o near fresh code consistent =
    let x = inbound_delivery id body (inbound_entry o) in
    let links = inbound_actor_rows o.owner addressed in
    (
      (inserted s x links, with_texts x),
      rw
          (
            near,
            fresh,
            entry-checks o id body code consistent,
            inbound_actor_rows-roles o.owner addressed,
          )
          refl,
      refl,
    )

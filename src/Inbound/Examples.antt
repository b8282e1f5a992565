-- ===== src/Inbound/Examples.antt =====
-- One signed request to the inbox of a local actor, whose listener a queue worker runs.
use drfed.Common.{◌≡◌, refl, arith, Bool, true, false, none, some, List, [], ◌∷◌}
use drfed.Delivery.{Delivery, Store, received, verified, http_signature}
use drfed.Delivery.Actors.{inbound_actor_rows, set_rows}
use drfed.Delivery.Carried.{receive_inbound}
use drfed.Delivery.Record.{check_local_actors, record_inbound, insert_delivery, satisfies_checks}
use drfed.Delivery.Rows.{lookup}
use drfed.Delivery.Valid.{IsValid}
use drfed.Inbound.{classify_inbound}
use drfed.Inbound.Verify.{Key, Check, passed, Attempt, accepted, authenticated, Report}
use drfed.Inbound.Entry.{Observed, inbound_entry}
use drfed.Inbound.Race.{Plan, World, run_race, work, answer}
use drfed.Inbound.Meeting.{run_race-received}

abbrev key : Key
key = record { iri = some (6 ∷ []); public_key = 9 ∷ [] }

abbrev signature : Check
signature = record { status = passed key; declared_key_id = none; tried_keys = [] }

abbrev attempt : Attempt
attempt = record {
  ref = 1;
  mechanism = http_signature;
  status = accepted (signature ∷ []);
  checks = signature ∷ [];
  is_root = true;
}

abbrev signed_report : Report
signed_report = record { authentication = authenticated (attempt ∷ []); attempts = attempt ∷ [] }

abbrev empty_store : Store
empty_store = record {
  actors = record { id = 1; instance_id = 5; is_local = true } ∷ [];
  resources = [];
  activities = [];
  objects = [];
  revisions = [];
  deliveries = [];
  attempts = [];
  delivery_actors = [];
  collections = [];
  receipts = [];
}

abbrev signed_request : Observed
signed_request = record {
  instance_id = 5;
  owner = some 1;
  type = none;
  types = [];
  activity_iri = some (7 ∷ []);
  remote_actor_iri = none;
  object_type = none;
  object_iri = none;
  remote_host = none;
  inbox_url = 8 ∷ [];
  request_url = 8 ∷ [];
  headers = [];
  answer = some 202;
  response_body = none;
  thrown = none;
  handled = false;
  verification = record { mechanism = some http_signature; result = verified; key_id = some 4 };
  signed_key_iri = none;
  detail = none;
  payload = none;
  fetched_object = none;
  created = 100;
  completed = 101;
}

abbrev plan : Plan
plan = record {
  id = 30;
  body = [];
  addressed = [];
  entry = inbound_entry signed_request;
  handled = true;
  fetched = none;
}

abbrev beginning : World
beginning = record {
  store = empty_store;
  received = [];
  fetched = [];
  worker = 0;
  request = 0;
  recorded = false;
  seen = false;
  found = none;
}

-- The request records, the worker marks between that and the request's look, and updates the row
-- before the request does.
abbrev schedule : List Bool
schedule = false ∷ true ∷ false ∷ true ∷ false ∷ []

empty_store-IsValid : IsValid empty_store
empty_store-IsValid = record { keyed = tt; rows = λ id d e. cc; attempts = tt }

run_race-received_example :
    (d : Delivery) × (lookup 30 (run_race (λ a b. false) plan schedule beginning).store.deliveries
      ≡ some d)
    × (d.status ≡ received)
unfolding run_race work answer inbound_entry record_inbound classify_inbound insert_delivery
    check_local_actors receive_inbound inbound_actor_rows set_rows satisfies_checks
run_race-received_example =
    run_race-received (λ a b. false) plan schedule beginning empty_store-IsValid refl refl refl refl
      refl (omega arith) (omega arith)

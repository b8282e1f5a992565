-- ===== src/Migration/Examples.antt =====
-- Two of the bundled migrations, a database that has applied the first, and the manifest before the
-- second was added.
use drfed.Common.{◌≡◌, refl, true, false, none, some, [], ◌∷◌, arith}
use drfed.Common.Result.{ok, err}
use drfed.Common.Text.{decimal}
use drfed.Migration.Manifest.{
  MigrationIdentity, migration_timestamp, is_directory_name, is_real, milliseconds, is_sha256,
  invalid_timestamp, parse_migration_manifest, manifest_json, assert_migration_manifest_prefix,
}
use drfed.Migration.Manifest.Laws.{
  IsManifest, parse_migration_manifest-IsManifest, parse_migration_manifest-manifest_json,
  assert_migration_manifest_prefix_iff,
}
use drfed.Migration.State.{
  Cell, Row, current, pending, ready, integer, history_identity, classify_migration_history,
  MigrationState,
}
use drfed.Migration.State.History.{Records, Reported, classify-Records}
use drfed.Migration.State.Replay.{IdsIncrease, classify_complete}
use drfed.Migration.Session.{Wait, Answers, Closing, prepare_session}
use drfed.Migration.Session.Prepared.{Prepares, prepare_session-Prepares}

abbrev init : MigrationIdentity
init = record {
  name = "20260622021748_init";
  sha256 = "aaaaaaaaaaaaaaaaaaaaaaaaaaaaaaaaaaaaaaaaaaaaaaaaaaaaaaaaaaaaaaaa";
}

init_stamp : migration_timestamp init.name ≡ ok 63949313868000
unfolding migration_timestamp is_directory_name is_real milliseconds decimal
init_stamp = refl

init_hash : is_sha256 init.sha256 ≡ true
unfolding is_sha256
init_hash = refl

abbrev felicia : MigrationIdentity
felicia = record {
  name = "20260623162238_dear_felicia_hardy";
  sha256 = "0123456789abcdef0123456789abcdef0123456789abcdef0123456789abcdef";
}

felicia_stamp : migration_timestamp felicia.name ≡ ok 63949450958000
unfolding migration_timestamp is_directory_name is_real milliseconds decimal
felicia_stamp = refl

felicia_hash : is_sha256 felicia.sha256 ≡ true
unfolding is_sha256
felicia_hash = refl

-- There is no 30 February.
no_such_day : migration_timestamp "20260230000000_x" ≡ err invalid_timestamp
unfolding migration_timestamp is_directory_name is_real milliseconds decimal
no_such_day = refl

felicia-IsManifest : IsManifest (some 63949313868000) (felicia ∷ [])
felicia-IsManifest = IsManifest.next 63949450958000 felicia_hash felicia_stamp refl IsManifest.empty

both-IsManifest : IsManifest none (init ∷ felicia ∷ [])
both-IsManifest = IsManifest.next 63949313868000 init_hash init_stamp refl felicia-IsManifest

init-IsManifest : IsManifest none (init ∷ [])
init-IsManifest = IsManifest.next 63949313868000 init_hash init_stamp refl IsManifest.empty

parse_migration_manifest-manifest_json_example :
    parse_migration_manifest (manifest_json (init ∷ felicia ∷ [])) ≡ ok (init ∷ felicia ∷ [])
parse_migration_manifest-manifest_json_example =
    parse_migration_manifest-manifest_json (init ∷ felicia ∷ []) both-IsManifest

parse_migration_manifest-IsManifest_example : IsManifest none (init ∷ felicia ∷ [])
parse_migration_manifest-IsManifest_example =
    parse_migration_manifest-IsManifest (manifest_json (init ∷ felicia ∷ [])) (init ∷ felicia ∷ [])
      parse_migration_manifest-manifest_json_example

assert_migration_manifest_prefix_iff_example :
    assert_migration_manifest_prefix (init ∷ []) (init ∷ felicia ∷ []) ≡ ok tt
assert_migration_manifest_prefix_iff_example =
    (assert_migration_manifest_prefix_iff (init ∷ []) (init ∷ felicia ∷ []) init-IsManifest
        both-IsManifest).1
      (felicia ∷ [], refl)

abbrev applied_row : Row
applied_row = record {
  id = Cell.number 1;
  created_at = Cell.text "1782094668000";
  hash = Cell.text init.sha256;
  name = Cell.text init.name;
  applied_at = Cell.other;
}

applied_identity :
    history_identity applied_row current
    ≡ some
        (record { id = 1; date = 63949313868000; hash = init.sha256; name = Cell.text init.name })
unfolding history_identity integer migration_timestamp is_directory_name is_real milliseconds
    decimal is_sha256
applied_identity = refl

applied-Records : Records current (applied_row ∷ []) (init ∷ felicia ∷ [])
applied-Records = (
  record {
    identity = record {
      id = 1;
      date = 63949313868000;
      hash = init.sha256;
      name = Cell.text init.name;
    };
    found = applied_identity;
    dated = init_stamp;
    hashed = refl;
    named = refl;
  },
  tt,
)

applied-IdsIncrease : IdsIncrease current 0 (applied_row ∷ [])
applied-IdsIncrease = (_, applied_identity, omega arith, tt)

abbrev one_pending : MigrationState
one_pending = record {
  status = pending;
  format = some current;
  applied = 1;
  pending_migrations = felicia ∷ [];
}

classify_complete_example :
    classify_migration_history (init ∷ felicia ∷ []) (applied_row ∷ []) current ≡ ok one_pending
classify_complete_example =
    classify_complete (init ∷ felicia ∷ []) (applied_row ∷ []) current both-IsManifest
      applied-Records applied-IdsIncrease

classify-Records_example : Reported current (init ∷ felicia ∷ []) (applied_row ∷ []) one_pending
classify-Records_example =
    classify-Records (init ∷ felicia ∷ []) (applied_row ∷ []) current one_pending
      classify_complete_example

-- A session that gets the lock at its second attempt and applies one migration.
abbrev at_once : {A : Type 0} → A → Wait A
at_once a = record { interruptions = []; outcome = ok a }

abbrev all_applied : MigrationState
all_applied = record { status = ready; format = some current; applied = 2; pending_migrations = [] }

abbrev answers : Answers
answers = record {
  first = at_once one_pending;
  modules = at_once tt;
  snapshot = at_once tt;
  migration = at_once tt;
  second = at_once all_applied;
}

abbrev closing : Closing
closing = record { destroyed = false; unlocking = at_once true; ending = at_once tt; late = false }

prepare_session-Prepares_example : Prepares false (
    prepare_session false
      (at_once tt)
      ((at_once false, at_once tt) ∷ (at_once true, at_once tt) ∷ [])
      answers
      closing)
prepare_session-Prepares_example =
    prepare_session-Prepares false (at_once tt)
      ((at_once false, at_once tt) ∷ (at_once true, at_once tt) ∷ []) answers closing

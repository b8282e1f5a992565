-- ===== src/Migration/Manifest/Laws.antt =====
-- What `parseMigrationManifest` accepts.
use drfed.Common.{
  ℕ, ◌≡◌, ◌↔◌, refl, not, true, Option, none, some, List, [], ◌∷◌, arith, eq_iff, eq_refl, ◌++◌,
}
use mathlib.Core.Path.{subst}
use drfed.Common.Result.{ok, throw_if, >>=-returns}
use drfed.Common.Json.{Json, Items, nil, cons, num, array, object, property}
use drfed.Migration.Manifest.{
  MigrationIdentity, not_increasing, migration_timestamp, is_sha256, parse_entry, follows,
  parse_entries, parse_migration_manifest, manifest_json, entry_json, entries_json, has_keys,
  keeps_prefix, parse_members, assert_migration_manifest_prefix,
}

-- A list of identities with well-formed hashes and names, whose timestamps increase from `previous`.
pub data IsManifest : Option ℕ → List MigrationIdentity → Type 0 where
  empty : {previous : Option ℕ} → IsManifest previous []
  next :
      {previous : Option ℕ} {m : MigrationIdentity} {ms : List MigrationIdentity} (timestamp : ℕ)
      → is_sha256 m.sha256 ≡ true
      → migration_timestamp m.name ≡ ok timestamp
      → follows previous timestamp ≡ true
      → IsManifest (some timestamp) ms
      → IsManifest previous (m ∷ ms)

parse_entry-sha256 :
    (j : Json) (m : MigrationIdentity) → parse_entry j ≡ ok m → is_sha256 m.sha256 ≡ true
unfolding parse_entry
parse_entry-sha256 j m h = ground arith

parse_entries-IsManifest :
    (previous : Option ℕ) (entries : Items) (ms : List MigrationIdentity)
    → parse_entries previous entries ≡ ok ms
    → IsManifest previous ms
unfolding parse_entries
parse_entries-IsManifest previous nil [] h = IsManifest.empty
parse_entries-IsManifest previous nil (m ∷ ms) h = cc
parse_entries-IsManifest previous (cons e rest) ms h =
    let (m, entry, h1) = >>=-returns (parse_entry e) _ h in
    let (t, stamp, h2) = >>=-returns (migration_timestamp m.name) _ h1 in
    let (u, order, h3) = >>=-returns (throw_if (not (follows previous t)) not_increasing) _ h2 in
    let (ms', parsed, h4) = >>=-returns (parse_entries (some t) rest) _ h3 in
    subst (IsManifest previous) (cc) (
      IsManifest.next t (parse_entry-sha256 e m entry) stamp (ground arith)
        (parse_entries-IsManifest (some t) rest ms' parsed))

parse_entry-entries_json :
    (m : MigrationIdentity) → is_sha256 m.sha256 ≡ true → parse_entry (entry_json m) ≡ ok m
unfolding parse_entry has_keys property
parse_entry-entries_json m h = rw h

parse_members-IsManifest :
    (version migrations : Option Json) (ms : List MigrationIdentity)
    → parse_members version migrations ≡ ok ms
    → IsManifest none ms
parse_members-IsManifest (some (num v)) (some (array entries)) ms h =
    parse_entries-IsManifest none entries ms (ground arith)
parse_members-IsManifest version migrations ms h = cc

-- Whatever JSON value is read, an accepted manifest has well-formed hashes and names, and its
-- timestamps strictly increase.
pub parse_migration_manifest-IsManifest :
    (j : Json) (ms : List MigrationIdentity)
    → parse_migration_manifest j ≡ ok ms
    → IsManifest none ms
unfolding parse_migration_manifest
parse_migration_manifest-IsManifest (object fs) ms h =
    parse_members-IsManifest (property "formatVersion" fs) (property "migrations" fs) ms
      (ground arith)
parse_migration_manifest-IsManifest j ms h = cc

parse_entries-entries_json :
    {previous : Option ℕ} {ms : List MigrationIdentity}
    → IsManifest previous ms
    → parse_entries previous (entries_json ms) ≡ ok ms
unfolding parse_entries
parse_entries-entries_json IsManifest.empty = refl
parse_entries-entries_json (IsManifest.next {m = m} t hash stamp order rest) =
    rw (parse_entry-entries_json m hash, stamp, order, parse_entries-entries_json rest)

-- Every such list of identities is accepted, as the very list that it is: reading again what was
-- read changes nothing.
pub parse_migration_manifest-manifest_json :
    (ms : List MigrationIdentity)
    → IsManifest none ms
    → parse_migration_manifest (manifest_json ms) ≡ ok ms
unfolding parse_migration_manifest has_keys property
parse_migration_manifest-manifest_json ms h = parse_entries-entries_json h

keeps_prefix_sound :
    (old new : List MigrationIdentity)
    → keeps_prefix old new ≡ true
    → (added : List MigrationIdentity) × (new ≡ old ++ added)
unfolding keeps_prefix
keeps_prefix_sound [] new h = (new, refl)
keeps_prefix_sound (m ∷ old) [] h = cc
keeps_prefix_sound (m ∷ old) (n ∷ new) h =
    let (added, e) = keeps_prefix_sound old new (ground arith) in
    (added, ground (arith, e, eq_iff n.name m.name, eq_iff n.sha256 m.sha256))

keeps_prefix_complete :
    (old added : List MigrationIdentity) → keeps_prefix old (old ++ added) ≡ true
unfolding keeps_prefix
keeps_prefix_complete [] added = refl
keeps_prefix_complete (m ∷ old) added =
    ground (arith, eq_refl m.name, eq_refl m.sha256, keeps_prefix_complete old added)

-- The check passes exactly for a current manifest that only adds migrations after the baseline's:
-- a manifest that drops, changes or reorders a historical one is refused.
pub assert_migration_manifest_prefix_iff :
    (baseline current : List MigrationIdentity)
    → IsManifest none baseline
    → IsManifest none current
    → (assert_migration_manifest_prefix baseline current ≡ ok tt)
      ↔ ((added : List MigrationIdentity) × (current ≡ baseline ++ added))
unfolding assert_migration_manifest_prefix
assert_migration_manifest_prefix_iff baseline current hb hc =
    rw
      (
        parse_migration_manifest-manifest_json baseline hb,
        parse_migration_manifest-manifest_json current hc,
      )
      (
        λ h. keeps_prefix_sound baseline current (ground arith),
        λ h. rw (h.1, keeps_prefix_complete baseline h.0),
      )

parse_entry-eq : (m i : MigrationIdentity) → parse_entry (entry_json m) ≡ ok i → i ≡ m
unfolding parse_entry has_keys property
parse_entry-eq m i h = ground arith

parse_entries-eq :
    (previous : Option ℕ) (ms is : List MigrationIdentity)
    → parse_entries previous (entries_json ms) ≡ ok is
    → is ≡ ms
unfolding parse_entries
parse_entries-eq previous [] is h = ground arith
parse_entries-eq previous (m ∷ ms) is h =
    let (i, entry, h1) = >>=-returns (parse_entry (entry_json m)) _ h in
    let (t, stamp, h2) = >>=-returns (migration_timestamp i.name) _ h1 in
    let (u, order, h3) = >>=-returns (throw_if (not (follows previous t)) not_increasing) _ h2 in
    let (rest, parsed, h4) = >>=-returns (parse_entries (some t) (entries_json ms)) _ h3 in
    cc (parse_entry-eq m i entry, parse_entries-eq (some t) ms rest parsed)

-- A manifest that is parsed again is returned as it was, if it is accepted.
pub parse_migration_manifest-eq :
    (ms is : List MigrationIdentity) → parse_migration_manifest (manifest_json ms) ≡ ok is → is ≡ ms
unfolding parse_migration_manifest has_keys property
parse_migration_manifest-eq ms is h = parse_entries-eq none ms is h

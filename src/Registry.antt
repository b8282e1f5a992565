-- ===== src/Registry.antt =====
-- packages/models/src/resource.ts: the registry of the IRIs that are known, and whom a resource is
-- addressed to. The rows of `resources` are a list, and a statement that the database's constraints
-- refuse is an error, which drops what its transaction did. The primary key of an addressing row is
-- left out.
pub mod Occurrences
mod Targets
mod Reading
pub mod Replacing
pub mod Promotion
mod Ensuring
mod Examples
use drfed.Common.{
  ℕ, Bool, true, false, not, ◌&&◌, ◌||◌, Option, none, some, List, [], ◌∷◌, any, find, ◌==◌,
  if◌then◌else◌,
}
use drfed.Common.Result.{Result, ok, err, throw_if}
use drfed.Common.Text.{same_codes}
use drfed.Revision.{Uuid, ResourceKind, actor, object, activity, collection, unknown}
use drfed.Delivery.{Text, Registered}

pub data RegistryError : Type 0 where
  id_taken vanished already_promoted callback_failed : RegistryError
  resource_kind_conflict : Text → ResourceKind → ResourceKind → RegistryError
  invalid_occurrence shared_position no_source duplicate_position no_target : RegistryError

abbrev pub by_id : Uuid → List Registered → Option Registered
by_id id rs = find (λ x. x.id == id) rs

abbrev pub has_iri : Text → List Registered → Bool
has_iri iri rs = any (λ x. same_codes x.iri iri) rs

abbrev pub by_iri : Text → List Registered → Option Registered
by_iri iri rs = find (λ x. same_codes x.iri iri) rs

abbrev pub has_id : Uuid → List Registered → Bool
has_id id rs = any (λ x. x.id == id) rs

-- A row that another transaction commits, if the unique constraints admit it.
abbrev pub admitted : Bool → Registered → List Registered → List Registered
admitted true r rs = rs
admitted false r rs = r ∷ rs

unfoldable pub add_rows : List Registered → List Registered → List Registered
add_rows [] rs = rs
add_rows (r ∷ more) rs = add_rows more (admitted (has_id r.id rs || has_iri r.iri rs) r rs)

abbrev pub unknown_resource : Uuid → Text → Registered
unknown_resource id iri = record { id = id; iri = iri; kind = unknown }

-- The `SELECT` after an insertion that did nothing.
abbrev pub selected :
    List Registered → Option Registered → Result RegistryError (List Registered × Registered)
selected rs none = err vanished
selected rs (some r) = ok (rs, r)

abbrev pub inserted :
    Bool → Uuid → Text → List Registered → Result RegistryError (List Registered × Registered)
inserted true id iri rs = err id_taken
inserted false id iri rs = ok (unknown_resource id iri ∷ rs, unknown_resource id iri)

-- `INSERT … ON CONFLICT (iri) DO NOTHING`
abbrev pub insert_unknown :
    Bool → Uuid → Text → List Registered → Result RegistryError (List Registered × Registered)
insert_unknown true id iri rs = selected rs (by_iri iri rs)
insert_unknown false id iri rs = inserted (has_id id rs) id iri rs

abbrev pub ensure_found :
    List Registered
    → Uuid
    → Text
    → List Registered
    → Option Registered
    → Result RegistryError (List Registered × Registered)
ensure_found others id iri rs (some r) = ok (add_rows others rs, r)
ensure_found others id iri rs none =
    insert_unknown (has_iri iri (add_rows others rs)) id iri (add_rows others rs)

-- `ensureResource`; the others commit rows of theirs after its first `SELECT`.
unfoldable pub ensure_resource :
    List Registered
    → Uuid
    → Text
    → List Registered
    → Result RegistryError (List Registered × Registered)
ensure_resource others id iri rs = ensure_found others id iri rs (by_iri iri rs)

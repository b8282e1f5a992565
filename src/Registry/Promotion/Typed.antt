-- ===== src/Registry/Promotion/Typed.antt =====
-- The typed rows of the resources, one for each promotion, and the transactions that make them.
use drfed.Common.{◌≡◌, Bool, true, false, Option, none, some, List, [], ◌∷◌, ◌==◌, if◌then◌else◌}
use drfed.Common.Result.{Result, ok, err}
use drfed.Revision.{Uuid, ResourceKind, is_unknown}
use drfed.Delivery.{Text, Registered}
use drfed.Registry.{RegistryError, callback_failed, by_id, ensure_resource}
use drfed.Registry.Promotion.{PromotedKind, promote_locked, Callback}
use drfed.Registry.Ensuring.{IsRegistry}

-- The rows of the typed tables, by the resource that is their key.
abbrev pub TypedRows : Type 0
TypedRows = List (Uuid × ResourceKind)

abbrev pub typed_of : Uuid → TypedRows → List ResourceKind
typed_of id [] = []
typed_of id ((k, kind) ∷ rows) =
    let rest = typed_of id rows in if k == id then kind ∷ rest else rest

abbrev pub insert_into : List ResourceKind → Callback TypedRows Bool
insert_into [] rs rows r = ok (rs, (r.id, r.kind) ∷ rows, true)
insert_into (k ∷ ks) rs rows r = err callback_failed

-- An insertion of the typed row, which its primary key refuses a second time.
abbrev pub insert_typed : Callback TypedRows Bool
insert_typed rs rows r = insert_into (typed_of r.id rows) rs rows r

abbrev pub reuse_typed : Callback TypedRows Bool
reuse_typed rs rows r = ok (rs, rows, false)

-- What other transactions do: they register an IRI, or they lock a resource and promote it.
pub data Step : Type 0 where
  registers : Uuid → Text → Step
  promotes : Uuid → PromotedKind → Step

abbrev pub Database : Type 0
Database = List Registered × TypedRows

abbrev pub registered_in : Database → Result RegistryError (List Registered × Registered) → Database
registered_in (rs, rows) (ok (rs', r)) = (rs', rows)
registered_in (rs, rows) (err e) = (rs, rows)

abbrev pub promoted_in :
    Database → Result RegistryError (List Registered × TypedRows × Bool) → Database
promoted_in db (ok (rs', rows', b)) = (rs', rows')
promoted_in db (err e) = db

unfoldable pub step : Step → Database → Database
step (registers id iri) (rs, rows) = registered_in (rs, rows) (ensure_resource [] id iri rs)
step (promotes id kind) (rs, rows) =
    promoted_in (rs, rows)
      (promote_locked kind insert_typed (some reuse_typed) [] (by_id id rs) rs rows)

unfoldable pub steps : List Step → Database → Database
steps [] db = db
steps (x ∷ xs) db = steps xs (step x db)

-- The typed rows that a resource ought to have.
abbrev pub rows_of_kind : ResourceKind → List ResourceKind
rows_of_kind kind = if is_unknown kind then [] else kind ∷ []

abbrev pub expected : Option Registered → List ResourceKind
expected none = []
expected (some r) = rows_of_kind r.kind

-- Each resource that was promoted has one typed row, of its kind, and no other row is there.
pub record Matches (db : Database) : Type 0 where
  pub registry : IsRegistry db.0
  pub typed : (id : Uuid) → typed_of id db.1 ≡ expected (by_id id db.0)

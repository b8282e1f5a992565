-- ===== src/Registry/Promotion.antt =====
-- packages/models/src/resource.ts: `promoteResource`, and other transactions that register and promote
-- resources beside it. `later` is what they commit before the row is locked; the callbacks are
-- arguments, as in the source, and those that insert one typed row are given.
pub mod Typed
mod Steps
mod Locked
pub mod Once
use drfed.Common.{ℕ, Bool, true, false, Option, none, some, List, [], ◌∷◌, any, ◌==◌, if◌then◌else◌}
use drfed.Common.Result.{Result, ok, err, ◌>>=◌}
use drfed.Revision.{Uuid, ResourceKind, actor, object, activity, collection, unknown, is_unknown}
use drfed.Delivery.{Text, Registered}
use drfed.Registry.{
  RegistryError, vanished, already_promoted, callback_failed, resource_kind_conflict, by_id,
  ensure_resource,
}

-- `Exclude<Resource["kind"], "unknown">`
pub data PromotedKind : Type 0 where
  promoted_actor promoted_object promoted_activity promoted_collection : PromotedKind

abbrev pub kind_of : PromotedKind → ResourceKind
kind_of promoted_actor = actor
kind_of promoted_object = object
kind_of promoted_activity = activity
kind_of promoted_collection = collection

abbrev pub is_of : ResourceKind → PromotedKind → Bool
is_of actor promoted_actor = true
is_of object promoted_object = true
is_of activity promoted_activity = true
is_of collection promoted_collection = true
is_of _ _ = false

-- `UPDATE resources SET kind = … WHERE id = …`
abbrev pub set_kind : Uuid → ResourceKind → List Registered → List Registered
set_kind id kind [] = []
set_kind id kind (x ∷ xs) =
    let rest = set_kind id kind xs in (if x.id == id then record x { kind = kind } else x) ∷ rest

-- A callback is given the tables of the transaction and the resource.
abbrev pub Callback : Type 0 → Type 0 → Type 0
Callback S T = List Registered → S → Registered → Result RegistryError (List Registered × S × T)

module _ {S T : Type 0} where
  abbrev pub reused :
      Option (Callback S T)
      → List Registered
      → S
      → Registered
      → Result RegistryError (List Registered × S × T)
  reused none rs st r = err already_promoted
  reused (some reuse) rs st r = reuse rs st r

  -- Once the row is locked and read again.
  unfoldable pub promote_locked :
      PromotedKind
      → Callback S T
      → Option (Callback S T)
      → Text
      → Option Registered
      → List Registered
      → S
      → Result RegistryError (List Registered × S × T)
  promote_locked kind insert reuse iri none rs st = err vanished
  promote_locked kind insert reuse iri (some r) rs st =
      if is_of r.kind kind
      then reused reuse rs st r
      else if is_unknown r.kind
      then insert (set_kind r.id (kind_of kind) rs) st (record r { kind = kind_of kind })
      else err (resource_kind_conflict iri r.kind (kind_of kind))

  -- `promoteResource`
  unfoldable pub promote_resource :
      List Registered
      → (List Registered × S → List Registered × S)
      → Text
      → PromotedKind
      → Callback S T
      → Uuid
      → Option (Callback S T)
      → List Registered
      → S
      → Result RegistryError (List Registered × S × T)
  promote_resource others later iri kind insert id reuse rs st = do
    (rs', r) ← ensure_resource others id iri rs
    let (now, st') = later (rs', st)
    promote_locked kind insert reuse iri (by_id r.id now) now st'

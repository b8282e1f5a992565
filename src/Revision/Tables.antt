-- ===== src/Revision/Tables.antt =====
-- Lookups in the tables of resources and heads after an update.
use drfed.Common.{
  ◌≡◌, ◌≢◌, refl, true, Option, none, some, List, [], ◌∷◌, arith, ◌==◌, is_some, if◌then◌else◌,
}
use drfed.Revision.{
  Uuid, ResourceKind, Resource, Revision, head_id, registered, set_kind, set_head, publish,
}

pub registered-set_kind_self :
    (r : Uuid) (k : ResourceKind) (rs : List Resource) (x : Resource)
    → registered r rs ≡ some x
    → registered r (set_kind r k rs) ≡ some (record x { kind = k })
registered-set_kind_self r k [] x h = cc
registered-set_kind_self r k (y ∷ rs) x h = ground (arith, registered-set_kind_self r k rs x)

pub registered-set_kind_ne :
    (r q : Uuid) (k : ResourceKind) (rs : List Resource)
    → r ≢ q
    → registered q (set_kind r k rs) ≡ registered q rs
registered-set_kind_ne r q k [] h = refl
registered-set_kind_ne r q k (y ∷ rs) h = ground (arith, registered-set_kind_ne r q k rs h)

head_id-set_head :
    (r q id : Uuid) (hs : List (Uuid × Uuid))
    → head_id q (set_head r id hs)
      ≡ (if r == q then (if is_some (head_id q hs) then some id else none) else head_id q hs)
head_id-set_head r q id [] = ground arith
head_id-set_head r q id ((a, b) ∷ hs) = ground (arith, head_id-set_head r q id hs)

-- The head after a publication.
pub head_id-publish_self :
    (previous : Option Revision) (r id : Uuid) (hs : List (Uuid × Uuid))
    → (is_some previous ≡ true → is_some (head_id r hs) ≡ true)
    → head_id r (publish previous r id hs) ≡ some id
head_id-publish_self none r id hs h = ground arith
head_id-publish_self (some v) r id hs h = ground (arith, head_id-set_head r r id hs, h refl)

pub head_id-publish_ne :
    (previous : Option Revision) (r q id : Uuid) (hs : List (Uuid × Uuid))
    → r ≢ q
    → head_id q (publish previous r id hs) ≡ head_id q hs
head_id-publish_ne none r q id hs h = ground arith
head_id-publish_ne (some v) r q id hs h = ground (arith, head_id-set_head r q id hs)

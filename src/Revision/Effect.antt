-- ===== src/Revision/Effect.antt =====
-- What an append changes, resource by resource.
use drfed.Common.{
  ◌≡◌, ◌≢◌, refl, ◌∙◌, true, Option, none, some, ◌∷◌, arith, ==-refl, is_some, if◌then◌else◌,
}
use drfed.Revision.{
  Uuid, Resource, Revision, Store, PreparedRevision, kind_of, head_id, head_revision, current,
  registered, promote, publish, insert_revision, is_unknown,
}
use drfed.Revision.Shape.{history, IsKept}
use drfed.Revision.Tables.{
  registered-set_kind_self, registered-set_kind_ne, head_id-publish_self, head_id-publish_ne,
}

head_id-of_current :
    (s : Store) (r : Uuid) → is_some (current s r) ≡ true → is_some (head_id r s.heads) ≡ true
unfolding current
head_id-of_current s r h = from_head (head_id r s.heads) h
  where
    from_head :
        (o : Option Uuid) → is_some (head_revision r s.revisions o) ≡ true → is_some o ≡ true
    from_head none e = cc
    from_head (some id) e = refl

-- The store that an append leaves.
abbrev pub after : Store → PreparedRevision → Resource → Revision → Store
after s input x v = (insert_revision (promote x input s) input (current s input.resource_id) v).0

module _ (s : Store) (input : PreparedRevision) (x : Resource) (v : Revision) where
  pub history-after_ne :
      (q : Uuid) → v.resource_id ≢ q → history (after s input x v) q ≡ history s q
  unfolding insert_revision
  history-after_ne q h = ground arith

  pub history-after_self :
      (q : Uuid) → v.resource_id ≡ q → history (after s input x v) q ≡ v ∷ history s q
  unfolding insert_revision
  history-after_self q h = ground arith

  pub head_id-after_ne :
      (q : Uuid) → input.resource_id ≢ q → head_id q (after s input x v).heads ≡ head_id q s.heads
  unfolding insert_revision
  head_id-after_ne q h =
      ground
        (arith, head_id-publish_ne (current s input.resource_id) input.resource_id q v.id s.heads h)

  pub registered-after_ne :
      (q : Uuid)
      → input.resource_id ≢ q
      → registered q (after s input x v).resources ≡ registered q s.resources
  unfolding insert_revision
  registered-after_ne q h = ground (
    arith,
    registered-set_kind_ne input.resource_id q (kind_of input.resource_kind) s.resources h,
  )

  head_revision-after_ne :
      (q : Uuid) (o : Option Uuid)
      → v.resource_id ≢ q
      → head_revision q (after s input x v).revisions o ≡ head_revision q s.revisions o
  unfolding insert_revision
  head_revision-after_ne q none h = refl
  head_revision-after_ne q (some id) h = ground arith

  pub current-after_ne :
      (q : Uuid)
      → input.resource_id ≡ v.resource_id
      → input.resource_id ≢ q
      → current (after s input x v) q ≡ current s q
  unfolding current
  current-after_ne q e h =
      rw (head_id-after_ne q h) (head_revision-after_ne q (head_id q s.heads) (λ p. h (e ∙ p)))

  -- Another resource keeps its history, its head and its kind.
  pub after-IsKept_ne :
      (q : Uuid)
      → input.resource_id ≡ v.resource_id
      → input.resource_id ≢ q
      → IsKept s q
      → IsKept (after s input x v) q
  after-IsKept_ne q e h k =
      let same = history-after_ne q (λ p. h (e ∙ p)) in
      record {
        formed = rw same k.formed;
        headed = rw (same, current-after_ne q e h) k.headed;
        unheaded = rw (same, head_id-after_ne q h) k.unheaded;
        allowed = rw (same, registered-after_ne q h) k.allowed;
      }

pub registered-after_self :
    (s : Store) (input : PreparedRevision) (x : Resource) (v : Revision)
    → registered input.resource_id s.resources ≡ some x
    → registered input.resource_id (after s input x v).resources
      ≡ some (record x { kind = if is_unknown x.kind then kind_of input.resource_kind else x.kind })
unfolding insert_revision
registered-after_self s input x v found = ground (
  arith,
  registered-set_kind_self input.resource_id (kind_of input.resource_kind) s.resources x found,
)

pub heads-after :
    (s : Store) (input : PreparedRevision) (x : Resource) (v : Revision)
    → (after s input x v).heads
      ≡ publish (current s input.resource_id) input.resource_id v.id s.heads
unfolding insert_revision
heads-after s input x v = ground arith

pub revisions-after :
    (s : Store) (input : PreparedRevision) (x : Resource) (v : Revision)
    → (after s input x v).revisions ≡ v ∷ s.revisions
unfolding insert_revision
revisions-after s input x v = ground arith

pub current-after_self :
    (s : Store) (input : PreparedRevision) (x : Resource) (v : Revision)
    → v.resource_id ≡ input.resource_id
    → current (after s input x v) input.resource_id ≡ some v
unfolding current
current-after_self s input x v e =
    rw (heads-after s input x v, revisions-after s input x v)
      (rw
        (head_id-publish_self (current s input.resource_id) input.resource_id v.id s.heads
          (head_id-of_current s input.resource_id))
        (ground (arith, ==-refl v.id)))

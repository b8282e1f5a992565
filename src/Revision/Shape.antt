-- ===== src/Revision/Shape.antt =====
-- The shape of a resource's history.
use drfed.Common.{
  ℕ, suc, ◌≤◌, ◌≡◌, ◌≢◌, true, false, Option, none, some, List, [], ◌∷◌, ◌==◌, length, select,
}
use drfed.Revision.{
  Uuid, ResourceKind, object, activity, Resource, Revision, Store, head_id, current, registered,
  is_whiteout,
}

-- The revisions of a resource, newest first.
abbrev pub history : Store → Uuid → List Revision
history s r = select (λ v. v.resource_id == r) s.revisions

abbrev pub newest : List Revision → Option Revision
newest [] = none
newest (v ∷ vs) = some v

abbrev pub Lives : List Revision → Type 0
Lives [] = Unit
Lives (v ∷ vs) = (is_whiteout v.kind ≡ false) × Lives vs

-- Sequences count up from 1 with no gap; a whiteout is the last revision, and never the first.
abbrev pub IsHistory : List Revision → Type 0
IsHistory [] = Unit
IsHistory (v ∷ vs) =
    (v.sequence ≡ suc (length vs)) × Lives vs × (is_whiteout v.kind ≡ true → vs ≢ []) × IsHistory vs

-- How many revisions a resource of a kind may have: an activity at most one, and only objects and
-- activities any.
abbrev pub AllowsKind : ResourceKind → ℕ → Type 0
AllowsKind object n = Unit
AllowsKind activity n = n ≤ 1
AllowsKind _ n = n ≡ 0

abbrev pub Allows : Option Resource → ℕ → Type 0
Allows none n = n ≡ 0
Allows (some x) n = AllowsKind x.kind n

-- What holds of one resource: its history is well formed, its head is the newest revision, and its
-- kind allows the history.
pub record IsKept (s : Store) (r : Uuid) : Type 0 where
  pub formed : IsHistory (history s r)
  pub headed : current s r ≡ newest (history s r)
  pub unheaded : history s r ≡ [] → head_id r s.heads ≡ none
  pub allowed : Allows (registered r s.resources) (length (history s r))

pub record IsValid (s : Store) : Type 0 where
  pub kept : (r : Uuid) → IsKept s r

-- ===== src/Revision/Invariant.antt =====
-- Every append keeps the shape of every resource's history.
use mathlib.Core.Path.{subst}
use native.Mathlib.Decide.{ℕ_discrete}
use drfed.Common.{
  ℕ, suc, ◌≡◌, ◌≢◌, ◌⊎◌, refl, sym, ap, ◌∙◌, Bool, true, false, none, some, List, [], ◌∷◌, arith,
  length, is_some, if◌then◌else◌,
}
use drfed.Common.Result.{ok}
use drfed.Revision.{
  Uuid, ResourceKind, actor, object, activity, collection, unknown, Resource, Revision, Store,
  StoredRevision, PreparedRevision, VersionedKind, versioned_object, versioned_activity, kind_of,
  current, registered, next_sequence, new_revision, append_prepared, is_unknown, is_whiteout,
  was_whiteout, revision_kind, same_kind, is_activity,
}
use drfed.Revision.Shape.{history, newest, Lives, IsHistory, AllowsKind, IsKept, IsValid}
use drfed.Revision.Lock.{Passed, append_prepared-Appended}
use drfed.Revision.Effect.{
  after, history-after_self, registered-after_self, current-after_self, after-IsKept_ne,
}

newest-length : (vs : List Revision) → IsHistory vs → next_sequence (newest vs) ≡ suc (length vs)
newest-length [] h = refl
newest-length (v ∷ vs) h = omega arith

Lives-newest : (vs : List Revision) → IsHistory vs → was_whiteout (newest vs) ≡ false → Lives vs
Lives-newest [] h e = tt
Lives-newest (v ∷ vs) h e = (e, h.1)

newest-none : (vs : List Revision) → newest vs ≡ none → vs ≡ []
newest-none [] e = refl
newest-none (v ∷ vs) e = cc

newest-some : (vs : List Revision) → is_some (newest vs) ≡ true → vs ≢ []
newest-some [] e = λ p. cc
newest-some (v ∷ vs) e = λ p. cc

IsHistory-next :
    (vs : List Revision) (v : Revision)
    → IsHistory vs
    → v.sequence ≡ next_sequence (newest vs)
    → was_whiteout (newest vs) ≡ false
    → (is_whiteout v.kind ≡ true → is_some (newest vs) ≡ true)
    → IsHistory (v ∷ vs)
IsHistory-next vs v h e alive some_before =
    (e ∙ newest-length vs h, Lives-newest vs h alive, λ w. newest-some vs (some_before w), h)

AllowsKind-next :
    (k : ResourceKind) (w : VersionedKind) (n : ℕ)
    → (is_unknown k ≡ true) ⊎ (same_kind k w ≡ true)
    → (is_activity w ≡ true → n ≡ 0)
    → AllowsKind k n
    → AllowsKind (if is_unknown k then kind_of w else k) (suc n)
AllowsKind-next object versioned_object n fits first a = tt
AllowsKind-next object versioned_activity n fits first a = ground arith
AllowsKind-next activity w n fits first a = ground arith
AllowsKind-next unknown versioned_object n fits first a = tt
AllowsKind-next unknown versioned_activity n fits first a = omega arith
AllowsKind-next actor w n fits first a = ground arith
AllowsKind-next collection w n fits first a = ground arith

-- The appended resource keeps its shape, one revision longer.
after-IsKept_self :
    (s : Store) (input : PreparedRevision) (typed : Bool) (x : Resource) (v : Revision)
    → registered input.resource_id s.resources ≡ some x
    → Passed s input typed x (current s input.resource_id)
    → v.resource_id ≡ input.resource_id
    → v.sequence ≡ next_sequence (current s input.resource_id)
    → v.kind ≡ revision_kind input.kind
    → IsKept s input.resource_id
    → IsKept (after s input x v) input.resource_id
after-IsKept_self s input typed x v found p e q k h =
    let longer = history-after_self s input x v input.resource_id e in
    record {
      formed = rw longer (
          IsHistory-next (history s input.resource_id) v h.formed (rw (← h.headed) q)
            (rw (← h.headed) p.alive) (rw (← h.headed) (λ w. p.deletes_some (ground arith))));
      headed = rw (longer, current-after_self s input x v e) refl;
      unheaded = rw longer (λ w. cc);
      allowed =
          rw (longer, registered-after_self s input x v found)
            (AllowsKind-next x.kind input.resource_kind (length (history s input.resource_id))
              p.kind_fits
              (λ w.
                ground
                  (arith, h.headed, p.first_activity w, newest-none (history s input.resource_id)))
              (rw found at h.allowed));
    }

-- Every append that succeeds keeps every resource's history well formed: sequences count up by one, a
-- whiteout is only ever the last revision, an activity has at most one revision, and the head is the
-- newest revision.
pub append_prepared-IsValid :
    (s s' : Store) (input : PreparedRevision) (typed : Bool) (id : Uuid) (stored : StoredRevision)
    → IsValid s
    → append_prepared s input typed id ≡ ok (s', stored)
    → IsValid s'
append_prepared-IsValid s s' input typed id stored valid h =
    let a = append_prepared-Appended s s' input typed id stored h in
    let v = new_revision input (current s input.resource_id) id a.capture a.projection in
    let r = input.resource_id in
    subst IsValid (sym (ap (λ (p : Store × StoredRevision). p.0) (a.outcome))) (record {
      kept = λ q. elim (ℕ_discrete r q) [
        | yes e ↦ subst (IsKept (after s input a.target v)) e (
            after-IsKept_self s input typed a.target v a.found a.passed refl refl refl
              (valid.kept r))
        | no n ↦ after-IsKept_ne s input a.target v q refl n (valid.kept q)
      ];
    })

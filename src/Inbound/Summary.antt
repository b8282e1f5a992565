-- ===== src/Inbound/Summary.antt =====
-- packages/federation/src/activity-delivery/verification.ts: what a summary says of the report.
use drfed.Common.{ℕ, ◌≡◌, ◌⊎◌, Bool, true, Option, some, List, ◌==◌, any}
use drfed.Inbound.Verify.{
  Check, check_passed, Attempt, AttemptStatus, refused, uncovered_attribution, missing_owner,
  proof_policy, Report, selected_check, is_accepted,
}

-- An attempt of the list, by its identity.
abbrev pub has_ref : ℕ → List Attempt → Bool
has_ref k xs = any (λ (b : Attempt). b.ref == k) xs

-- The library refused the attempt for its attribution, an owner or the policy on proofs.
pub data IsUnattributed : AttemptStatus → Type 0 where
  uncovered : IsUnattributed (refused uncovered_attribution)
  ownerless : IsUnattributed (refused missing_owner)
  unfit_proof : IsUnattributed (refused proof_policy)

-- A success stands on an attempt of the report: one that the library accepted, or one refused for such a
-- reason, of which the selected check passed.
pub record StandsOn (report : Option Report) : Type 0 where
  pub reported : Report
  pub given : report ≡ some reported
  pub attempt : Attempt
  pub listed : has_ref attempt.ref reported.attempts ≡ true
  pub holds :
      (is_accepted attempt.status ≡ true)
      ⊎ (IsUnattributed attempt.status
          × ((c : Check) × (selected_check attempt true ≡ some c) × (check_passed c ≡ true)))

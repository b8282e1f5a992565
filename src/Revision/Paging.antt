-- ===== src/Revision/Paging.antt =====
-- Pages of a history.
use drfed.Common.{
  ℕ, zero, suc, ◌+◌, ◌-◌, ◌≤◌, ◌<◌, ◌≡◌, refl, sym, ap, ◌∙◌, inl, inr, true, false, ◌&&◌, ◌||◌,
  Option, none, some, List, [], ◌∷◌, arith, ◌==◌, ltb, length, take, drop, select, Bool-cases,
}
use drfed.Common.Sort.{IsSorted, sort_by-IsSorted_eq}
use drfed.Common.Result.{ok}
use drfed.Revision.{
  Uuid, Revision, Store, hydrate_all, max_history_limit, is_bound, precedes, sequence_ge,
  list_resource_revisions,
}
use drfed.Revision.Shape.{history, IsHistory, IsValid}

-- How many of the newest revisions a bound leaves out, of a history of n revisions.
abbrev pub skipped : Option ℕ → ℕ → ℕ
skipped none n = 0
skipped (some b) n = n + 1 - b

pub IsHistory-IsSorted : (vs : List Revision) → IsHistory vs → IsSorted sequence_ge vs
IsHistory-IsSorted [] h = tt
IsHistory-IsSorted (v ∷ []) h = tt
IsHistory-IsSorted (v ∷ w ∷ vs) h = (ground arith, IsHistory-IsSorted (w ∷ vs) h.3)

drop-IsHistory : (n : ℕ) (vs : List Revision) → IsHistory vs → IsHistory (drop n vs)
drop-IsHistory zero vs h = h
drop-IsHistory (suc n) [] h = tt
drop-IsHistory (suc n) (v ∷ vs) h = drop-IsHistory n vs h.3

-- With no bound, or one above every sequence, nothing is left out.
select-all :
    (before : Option ℕ) (vs : List Revision)
    → IsHistory vs
    → skipped before (length vs) ≡ 0
    → select (λ v. precedes before v.sequence) vs ≡ vs
select-all none [] h e = refl
select-all none (v ∷ vs) h e = ap (λ (l : List Revision). v ∷ l) (select-all none vs h.3 refl)
select-all (some b) [] h e = refl
select-all (some b) (v ∷ vs) h e = ground (arith, select-all (some b) vs h.3)

drop-none {ℓ} : {A : Type ℓ} (n : ℕ) → drop {A = A} n [] ≡ []
drop-none zero = refl
drop-none (suc n) = refl

drop-suc :
    (k : ℕ) (v : Revision) (vs : List Revision) (j : ℕ) → k ≡ suc j → drop k (v ∷ vs) ≡ drop j vs
drop-suc zero v vs j e = cc
drop-suc (suc k) v vs j e = ap (λ (i : ℕ). drop i vs) (omega arith)

select-precedes :
    (before : Option ℕ) (vs : List Revision)
    → IsHistory vs
    → select (λ v. precedes before v.sequence) vs ≡ drop (skipped before (length vs)) vs
select-precedes none vs h = select-all none vs h refl
select-precedes (some b) [] h = sym (drop-none (1 - b))
select-precedes (some b) (v ∷ vs) h = elim (Bool-cases (ltb v.sequence b)) [
  | inl within ↦
      select-all (some b) (v ∷ vs) h (ground (arith, h.0))
      ∙ ap (λ (k : ℕ). drop k (v ∷ vs))
          (let e : 0 ≡ skipped (some b) (length (v ∷ vs)) = ground (arith, h.0) in e)
  | inr beyond ↦
      rw beyond (select-precedes (some b) vs h.3)
      ∙ sym (
          drop-suc (skipped (some b) (length (v ∷ vs))) v vs (skipped (some b) (length vs))
            (ground (arith, h.0)))
]

select-and :
    (r : Uuid) (before : Option ℕ) (vs : List Revision)
    → select (λ v. v.resource_id == r && precedes before v.sequence) vs
      ≡ select (λ v. precedes before v.sequence) (select (λ v. v.resource_id == r) vs)
select-and r before [] = refl
select-and r before (v ∷ vs) = ground (arith, select-and r before vs)

in_bounds :
    (limit : ℕ)
    → 0 < limit
    → limit ≤ max_history_limit
    → (ltb limit 1 || ltb max_history_limit limit) ≡ false
in_bounds limit low high = ground arith

-- A page holds, newest first, at most `limit` revisions of the resource that come strictly before the
-- bound, and skips none of them.
pub list_resource_revisions-page :
    (s : Store) (r : Uuid) (before : Option ℕ) (limit : ℕ)
    → IsValid s
    → 0 < limit
    → limit ≤ max_history_limit
    → is_bound before ≡ true
    → list_resource_revisions s r before limit
      ≡ ok (hydrate_all s (take limit (drop (skipped before (length (history s r))) (history s r))))
unfolding list_resource_revisions
list_resource_revisions-page s r before limit valid low high bound =
    let h = (valid.kept r).formed in
    let n = skipped before (length (history s r)) in
    let kept = select-and r before s.revisions ∙ select-precedes before (history s r) h in
    rw
      (
        in_bounds limit low high,
        bound,
        kept,
        sort_by-IsSorted_eq sequence_ge (drop n (history s r))
            (IsHistory-IsSorted (drop n (history s r)) (drop-IsHistory n (history s r) h)),
      )
      refl

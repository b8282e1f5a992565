-- ===== src/Inbound/Verify.antt =====
-- packages/federation/src/activity-delivery/verification.ts: one verification chosen to stand for all
-- that the federation library reports of a request. `ref` is the identity of an attempt, by which
-- `includes` compares. The details, which are texts, are left out.
use drfed.Common.{
  ℕ, Bool, true, false, not, ◌&&◌, ◌||◌, Option, none, some, List, [], ◌∷◌, ◌==◌, find, select, any,
  last?, if◌then◌else◌,
}
use drfed.Revision.{Uuid}
use drfed.Delivery.{
  Text, Mechanism, Verification, verified, invalid_signature, key_fetch_error, no_signature,
  unattempted, unobserved,
}

pub record Key : Type 0 where
  pub iri : Option Text
  pub public_key : Text

pub data CheckStatus : Type 0 where
  passed : Key → CheckStatus
  bad_signature bad_key : CheckStatus
  broken : CheckStatus

pub record Check : Type 0 where
  pub status : CheckStatus
  pub declared_key_id : Option Text
  pub tried_keys : List Key

pub data Reason : Type 0 where
  without_signature uncovered_attribution missing_owner proof_policy other_reason : Reason

pub data AttemptStatus : Type 0 where
  accepted : List Check → AttemptStatus
  refused : Reason → AttemptStatus
  failed : AttemptStatus

pub record Attempt : Type 0 where
  pub ref : ℕ
  pub mechanism : Mechanism
  pub status : AttemptStatus
  pub checks : List Check
  pub is_root : Bool

pub data Authentication : Type 0 where
  authenticated : List Attempt → Authentication
  not_determined denied : Authentication

pub record Report : Type 0 where
  pub authentication : Authentication
  pub attempts : List Attempt

abbrev pub is_passed : CheckStatus → Bool
is_passed (passed k) = true
is_passed _ = false

abbrev pub check_passed : Check → Bool
check_passed c = is_passed c.status

abbrev pub is_attribution : AttemptStatus → Bool
is_attribution (refused uncovered_attribution) = true
is_attribution (refused missing_owner) = true
is_attribution (refused proof_policy) = true
is_attribution _ = false

-- `attributionFailure`
unfoldable pub attribution_failure : Attempt → Bool
attribution_failure a = is_attribution a.status && any check_passed a.checks

abbrev pub is_empty {ℓ} : {A : Type ℓ} → List A → Bool
is_empty [] = true
is_empty (x ∷ xs) = false

abbrev pub signatures_of : AttemptStatus → List Check
signatures_of (accepted signatures) = signatures
signatures_of _ = []

abbrev pub has_signatures : Attempt → Bool
has_signatures a = not (is_empty (signatures_of a.status))

abbrev pub says_something : AttemptStatus → Authentication → Bool
says_something (refused without_signature) auth = false
says_something (refused reason) auth = true
says_something failed not_determined = false
says_something failed auth = true
says_something (accepted signatures) auth = false

abbrev pub is_meaningful : Authentication → Attempt → Bool
is_meaningful auth a = not (is_empty a.checks) || says_something a.status auth

abbrev pub or_else {ℓ} : {A : Type ℓ} → Option A → Option A → Option A
or_else (some a) b = some a
or_else none b = b

-- `findLast`
unfoldable pub find_last {ℓ} : {A : Type ℓ} → (A → Bool) → List A → Option A
find_last p [] = none
find_last p (x ∷ xs) = or_else (find_last p xs) (if p x then some x else none)

abbrev pub eligible : Report → List Attempt
eligible r =
    let meaningful = select (is_meaningful r.authentication) r.attempts in
    let root = select (λ a. a.is_root) meaningful in if is_empty root then meaningful else root

abbrev pub select_among : Authentication → List Attempt → Option Attempt
select_among (authenticated attempts) among =
    find (λ a. any (λ b. b.ref == a.ref) among && has_signatures a) attempts
select_among _ among =
    or_else (find_last has_signatures among)
      (or_else (find_last attribution_failure among) (last? among))

-- `selectAttempt`
unfoldable pub select_attempt : Report → Option Attempt
select_attempt r = select_among r.authentication (eligible r)

abbrev pub first? {ℓ} : {A : Type ℓ} → List A → Option A
first? [] = none
first? (x ∷ xs) = some x

abbrev pub check_of : AttemptStatus → List Check → Bool → Option Check
check_of (accepted signatures) checks v = first? signatures
check_of _ checks true = find check_passed checks
check_of _ checks false = or_else (find_last (λ c. not (check_passed c)) checks) (last? checks)

-- `selectedCheck`
unfoldable pub selected_check : Attempt → Bool → Option Check
selected_check a v = check_of a.status a.checks v

pub record Summary : Type 0 where
  pub mechanism : Option Mechanism
  pub result : Verification
  pub key : Option Key
  pub key_iri : Option Text

abbrev pub is_accepted : AttemptStatus → Bool
is_accepted (accepted signatures) = true
is_accepted _ = false

abbrev pub is_bad_key : Option Check → Bool
is_bad_key (some c) = elim c.status [ bad_key ↦ true | _ ↦ false ]
is_bad_key none = false

abbrev pub status_key : Check → CheckStatus → Option Key
status_key c (passed k) = some k
status_key c _ = last? c.tried_keys

abbrev pub key_of : Option Check → Option Key
key_of none = none
key_of (some c) = status_key c c.status

abbrev pub declared : Option Check → Option Text
declared none = none
declared (some c) = c.declared_key_id

abbrev pub iri_of : Option Key → Option Text
iri_of none = none
iri_of (some k) = k.iri

abbrev pub empty_summary : Verification → Summary
empty_summary result = record { mechanism = none; result = result; key = none; key_iri = none }

abbrev pub without_attempt : Authentication → Verification
without_attempt not_determined = unattempted
without_attempt _ = no_signature

-- `iri` keeps an absolute URL; which texts are one is an argument.
module _ (is_url : Text → Bool) where
  abbrev pub kept_iri : Option Text → Option Text
  kept_iri none = none
  kept_iri (some t) = if is_url t then some t else none

  abbrev pub summary_of : Attempt → Bool → Option Check → Summary
  summary_of a v c = record {
    mechanism = some a.mechanism;
    result = if v then verified else if is_bad_key c then key_fetch_error else invalid_signature;
    key = key_of c;
    key_iri = or_else (kept_iri (iri_of (key_of c))) (kept_iri (declared c));
  }

  abbrev pub summarize_found : Report → Option Attempt → Summary
  summarize_found r none = empty_summary (without_attempt r.authentication)
  summarize_found r (some a) =
      let v = is_accepted a.status || attribution_failure a in summary_of a v (selected_check a v)

  -- `summarizeVerification`
  unfoldable pub summarize_verification : Option Report → Summary
  summarize_verification none = empty_summary unobserved
  summarize_verification (some r) = summarize_found r (select_attempt r)

pub record Observation : Type 0 where
  pub mechanism : Option Mechanism
  pub result : Verification
  pub key_id : Option Uuid

-- The key's version is recorded when the key and its IRI are known; none is an error.
abbrev pub observed_version : Summary → Option Uuid → Observation
observed_version summary version = record {
  mechanism = summary.mechanism;
  result = summary.result;
  key_id = version;
}

abbrev pub failed_observation : Observation
failed_observation = record { mechanism = none; result = unobserved; key_id = none }

abbrev pub stored_observation : Summary → Option Uuid → Observation
stored_observation summary (some id) = observed_version summary (some id)
stored_observation summary none = failed_observation

abbrev pub observe_key :
    Summary → Option Key → Option Text → (Text → Key → Option Uuid) → Observation
observe_key summary (some k) (some iri) version = stored_observation summary (version iri k)
observe_key summary _ _ version = observed_version summary none

-- `observeVerification`; `version` stores a key version, or fails.
unfoldable pub observe_verification :
    (Text → Bool) → (Text → Key → Option Uuid) → Option Report → Observation
observe_verification is_url version report =
    let summary = summarize_verification is_url report in
    observe_key summary summary.key summary.key_iri version

-- ===== src/Outbox/Settlements.antt =====
-- packages/federation/src/activity-delivery/queue.ts: the settlements of one attempt, one after the
-- other.
use drfed.Common.{
  ℕ, ◌+◌, ◌≡◌, refl, sym, ap, ◌∙◌, Bool, true, false, Option, some, List, [], ◌∷◌, arith, length,
  ◌==◌, ==-refl, if◌then◌else◌, inl, inr, ◌⊎◌, ◌++◌,
}
use drfed.Common.Result.{ok}
use drfed.Common.Text.{same_codes}
use drfed.Revision.{Uuid, Instant}
use drfed.Delivery.{Text, Delivery, Status, Attempt, Store, is_inbound}
use drfed.Delivery.Settle.{
  has_failed, Settlement, status_of, is_pending, is_iri, awaits, settle_row, settled,
  settle_outbound,
}
use drfed.Delivery.Storable.{text_of}
use drfed.Delivery.Rows.{lookup, EachRow, lookup-updated, lookup-id, some-injective}
use drfed.Delivery.Valid.{IsValid}
use drfed.Delivery.Checked.{settle_outbound-IsValid}
use drfed.Delivery.Settling.{
  FitsSchema, Settles, none_waits, newest_settled, settle_outbound-Settles,
}
use drfed.Outbox.{QueuedAttempt, Ending, settlement_of, settle_each}

-- A delivery that the settlements of an attempt find: outbound, queued or failed, of its activity and
-- inbox.
pub record Waits (iri url : Text) (d : Delivery) : Type 0 where
  pub outward : is_inbound d.direction ≡ false
  pub activity : is_iri d.activity_iri iri ≡ true
  pub inbox : same_codes d.inbox_url url ≡ true
  pub pending : is_pending d.status ≡ true

Settles-cases :
    (s : Store) (e : Settlement) (now : Instant) (k : Uuid) (r : Store × Bool)
    → Settles s e now k r
    → EachRow (λ x. awaits e x ≡ false) s.deliveries
      ⊎ ((d : Delivery) × (lookup d.id s.deliveries ≡ some d)
          × (awaits e d ≡ true)
          × (r ≡ (settled s e now k d, true)))
Settles-cases s e now k r (none_waits h) = inl h
Settles-cases s e now k r (newest_settled d row passes newest) = inr (d, row, passes, refl)

module _ (s : Store) (a : QueuedAttempt) (x : Ending) (id : Uuid) (d : Delivery) where
  awaits-Waits :
      d.id ≡ id → Waits a.activity_iri a.inbox_url d → awaits (settlement_of a (some id) x) d ≡ true
  unfolding awaits
  awaits-Waits own w = ground (arith, own, w.outward, w.activity, w.inbox, w.pending)

  awaits-id : awaits (settlement_of a (some id) x) d ≡ true → d.id ≡ id
  unfolding awaits
  awaits-id h = ground (arith, h)

-- A settlement that names a delivery settles it.
pub settle_outbound-named :
    (s : Store) (a : QueuedAttempt) (x : Ending) (now : Instant) (k id : Uuid) (d : Delivery)
    → IsValid s
    → FitsSchema (settlement_of a (some id) x)
    → lookup id s.deliveries ≡ some d
    → Waits a.activity_iri a.inbox_url d
    → settle_outbound s (settlement_of a (some id) x) now k
      ≡ ok (settled s (settlement_of a (some id) x) now k d, true)
settle_outbound-named s a x now k id d valid fits row w =
    let e = settlement_of a (some id) x in
    let (r, done, how) = settle_outbound-Settles s e now k valid fits in
    let passes = awaits-Waits s a x id d (lookup-id id d s.deliveries row) w in
    elim (Settles-cases s e now k r how) [
      | inl nothing ↦ let fails = nothing id d row in cc
      | inr (y, there, matches, same) ↦
          let own = awaits-id s a x id y matches in
          let equal = some-injective y d (sym there ∙ ap (λ i. lookup i s.deliveries) own ∙ row) in
          done ∙ ap (λ p. ok p) same ∙ ap (λ z. ok (settled s e now k z, true)) equal
    ]

-- What the settlements leave of the delivery.
pub record Ended (s s' : Store) (id : Uuid) (status : Status) (attempts : ℕ) : Type 0 where
  pub valid : IsValid s'
  pub row : Delivery
  pub found : lookup id s'.deliveries ≡ some row
  pub ended : row.status ≡ status
  pub counted : length s'.attempts ≡ attempts + length s.attempts

-- What the attempts of the store failed with, the newest first.
abbrev pub errors_of : List Attempt → List (Option Text)
errors_of [] = []
errors_of (k ∷ ks) = k.error ∷ errors_of ks

-- The same with the error of the delivery, and of the attempts that were added.
pub record Reported (s s' : Store) (id : Uuid) (status : Status) (error : Option Text)
    (errors : List (Option Text)) : Type 0 where
  pub valid : IsValid s'
  pub row : Delivery
  pub found : lookup id s'.deliveries ≡ some row
  pub ended : row.status ≡ status
  pub told : row.error ≡ error
  pub kept : errors_of s'.attempts ≡ errors ++ errors_of s.attempts

abbrev pub counts : Bool → ℕ
counts true = 1
counts false = 0

-- The store after one settlement.
pub record Settled (a : QueuedAttempt) (x : Ending) (s s' : Store) (id : Uuid) (e : Delivery)
    : Type 0 where
  pub valid : IsValid s'
  pub found : lookup id s'.deliveries ≡ some e
  pub status : e.status ≡ status_of x.status
  pub waits : x.status ≡ has_failed → Waits a.activity_iri a.inbox_url e
  pub told : e.error ≡ text_of x.error
  pub counted : length s'.attempts ≡ counts x.attempted + length s.attempts
  pub kept :
      errors_of s'.attempts
      ≡ (if x.attempted then text_of x.error ∷ [] else []) ++ errors_of s.attempts

errors_of-attempts :
    (b : Bool) (k : Attempt) (ks : List Attempt)
    → errors_of (if b then k ∷ ks else ks) ≡ (if b then k.error ∷ [] else []) ++ errors_of ks
errors_of-attempts true k ks = refl
errors_of-attempts false k ks = refl

length-attempts {ℓ} :
    {A : Type ℓ} (b : Bool) (x : A) (xs : List A)
    → length (if b then x ∷ xs else xs) ≡ counts b + length xs
length-attempts true x xs = omega arith
length-attempts false x xs = omega arith

pub settled-Settled :
    (s : Store) (a : QueuedAttempt) (x : Ending) (now : Instant) (k id : Uuid) (d : Delivery)
    → IsValid s
    → FitsSchema (settlement_of a (some id) x)
    → lookup id s.deliveries ≡ some d
    → Waits a.activity_iri a.inbox_url d
    → Settled a x s
        (settled s (settlement_of a (some id) x) now k d)
        id
        (settle_row (settlement_of a (some id) x) now d)
settled-Settled s a x now k id d valid fits row w =
    let e = settlement_of a (some id) x in
    let done = settle_outbound-named s a x now k id d valid fits row w in
    record {
      valid = settle_outbound-IsValid s (settled s e now k d) e now k true done valid;
      found =
          lookup-updated (λ y. y.id == d.id) (settle_row e now) (λ y. refl) s.deliveries id d row
          ∙ ap (λ b. some (if b then settle_row e now d else d)) (==-refl d.id);
      status = refl;
      waits = λ h. record {
        outward = w.outward;
        activity = w.activity;
        inbox = w.inbox;
        pending = ground (arith, h);
      };
      told = refl;
      counted = length-attempts e.attempted _ s.attempts;
      kept = errors_of-attempts e.attempted _ s.attempts;
    }

pub settle_each-cons :
    (fresh : ℕ → Instant × Uuid) (n : ℕ) (s t : Store) (e : Settlement) (es : List Settlement)
    (b : Bool)
    → settle_outbound s e (fresh n).0 (fresh n).1 ≡ ok (t, b)
    → settle_each fresh n s (e ∷ es) ≡ settle_each fresh (n + 1) t es
unfolding settle_each
settle_each-cons fresh n s t e es b h = rw h refl

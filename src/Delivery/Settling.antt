-- ===== src/Delivery/Settling.antt =====
-- packages/models/src/activity-delivery.ts: which delivery `settleOutbound` settles.
use mathlib.Core.Path.{subst}
use drfed.Common.{
  ◌≡◌, refl, ◌⊎◌, Bool, true, false, not, ◌&&◌, Option, none, some, List, [], ◌∷◌, arith, ◌==◌,
  Bool-cases, is_some, inl, inr,
}
use drfed.Common.Result.{ok, throw_if}
use drfed.Revision.{Uuid, Instant}
use drfed.Delivery.{Delivery, Store, DeliveryError, check_violation}
use drfed.Delivery.Record.{satisfies_checks, is_status_code}
use drfed.Delivery.Settle.{
  Settlement, is_sent, satisfies_attempt_checks, settled, attempt_of, settle_row, settle_found,
  settle_outbound, latest, later, is_newer, awaits,
}
use drfed.Delivery.Rows.{lookup, EachRow, latest-lookup, some-injective}
use drfed.Delivery.Valid.{IsValid}

lookup-cons :
    (x y : Delivery) (id : Uuid) (ds : List Delivery)
    → lookup id (x ∷ ds) ≡ some y
    → (x ≡ y) ⊎ (lookup id ds ≡ some y)
lookup-cons x y id ds h = elim (Bool-cases (x.id == id)) [
  | inl same ↦ inl (some-injective x y (rw same at h))
  | inr other ↦ inr (rw other at h)
]

EachRow-cons :
    (P : Delivery → Type 0) (x : Delivery) (ds : List Delivery)
    → P x
    → EachRow P ds
    → EachRow P (x ∷ ds)
EachRow-cons P x ds h each id y e = elim (lookup-cons x y id ds e) [
  | inl same ↦ subst P same h
  | inr below ↦ each id y below
]

-- Created later, or at once with no smaller id.
is_newer_refl : (x : Delivery) → is_newer x x ≡ true
is_newer_refl x = ground arith

is_newer_trans :
    (x y z : Delivery) → is_newer x y ≡ true → is_newer y z ≡ true → is_newer x z ≡ true
is_newer_trans x y z h k = ground (arith, h, k)

is_newer_total : (x y : Delivery) → is_newer x y ≡ false → is_newer y x ≡ true
is_newer_total x y h = ground (arith, h)

-- What a newest row is among those that a test lets through.
abbrev pub IsNewest : (Delivery → Bool) → List Delivery → Option Delivery → Type 0
IsNewest p ds none = EachRow (λ x. p x ≡ false) ds
IsNewest p ds (some d) = EachRow (λ x. p x ≡ true → is_newer d x ≡ true) ds

later-IsNewest :
    (p : Delivery → Bool) (x : Delivery) (ds : List Delivery) (r : Option Delivery)
    → IsNewest p ds r
    → IsNewest p (x ∷ ds) (later x r)
later-IsNewest p x ds none h =
    EachRow-cons (λ y. p y ≡ true → is_newer x y ≡ true) x ds (λ e. is_newer_refl x)
      (λ id y there e. let fails = h id y there in cc)
later-IsNewest p x ds (some d) h = elim (Bool-cases (is_newer x d)) [
  | inl newer ↦ rw newer (
      EachRow-cons (λ y. p y ≡ true → is_newer x y ≡ true) x ds (λ e. is_newer_refl x)
        (λ id y there e. is_newer_trans x d y newer (h id y there e)))
  | inr older ↦
      rw older (
        EachRow-cons (λ y. p y ≡ true → is_newer d y ≡ true) x ds (λ e. is_newer_total x d older) h)
]

skip-IsNewest :
    (p : Delivery → Bool) (x : Delivery) (ds : List Delivery) (r : Option Delivery)
    → p x ≡ false
    → IsNewest p ds r
    → IsNewest p (x ∷ ds) r
skip-IsNewest p x ds none fails h = EachRow-cons (λ y. p y ≡ false) x ds fails h
skip-IsNewest p x ds (some d) fails h =
    EachRow-cons (λ y. p y ≡ true → is_newer d y ≡ true) x ds (λ e. cc) h

latest-IsNewest : (p : Delivery → Bool) (ds : List Delivery) → IsNewest p ds (latest p ds)
unfolding latest
latest-IsNewest p [] = λ id y e. cc
latest-IsNewest p (x ∷ ds) = elim (Bool-cases (p x)) [
  | inl passes ↦ rw passes (later-IsNewest p x ds (latest p ds) (latest-IsNewest p ds))
  | inr fails ↦ rw fails (skip-IsNewest p x ds (latest p ds) fails (latest-IsNewest p ds))
]

-- The status code is one of HTTP's, and a settlement has an error unless the delivery was sent.
pub record FitsSchema (e : Settlement) : Type 0 where
  pub code : is_status_code e.status_code ≡ true
  pub failure : is_some e.error ≡ not (is_sent e.status)

attempt-checks :
    (e : Settlement) (now : Instant) (k delivery_id : Uuid)
    → FitsSchema e
    → satisfies_attempt_checks (attempt_of e now k delivery_id) ≡ true
attempt-checks e now k delivery_id fits = ground (arith, fits.code, fits.failure)

settle_row-checks :
    (e : Settlement) (now : Instant) (d : Delivery)
    → FitsSchema e
    → awaits e d ≡ true
    → satisfies_checks d ≡ true
    → satisfies_checks (settle_row e now d) ≡ true
unfolding satisfies_checks awaits
settle_row-checks e now d fits passes h = ground (arith, fits.code, passes, h)

no_throw : (a b : Bool) (e : DeliveryError) → b ≡ true → throw_if (a && not b) e ≡ ok tt
no_throw a b e h = ground (arith, h)

no_throw_row : (b : Bool) (e : DeliveryError) → b ≡ true → throw_if (not b) e ≡ ok tt
no_throw_row b e h = ground (arith, h)

-- What a settlement did: nothing when no delivery awaits it, else the newest one that does is settled,
-- with its attempt.
pub data Settles (s : Store) (e : Settlement) (now : Instant) (k : Uuid)
    : Store × Bool → Type 0 where
  none_waits : EachRow (λ x. awaits e x ≡ false) s.deliveries → Settles s e now k (s, false)
  newest_settled :
      (d : Delivery)
      → lookup d.id s.deliveries ≡ some d
      → awaits e d ≡ true
      → EachRow (λ x. awaits e x ≡ true → is_newer d x ≡ true) s.deliveries
      → Settles s e now k (settled s e now k d, true)

settle_found-Settles :
    (s : Store) (e : Settlement) (now : Instant) (k : Uuid) (o : Option Delivery)
    → latest (awaits e) s.deliveries ≡ o
    → IsNewest (awaits e) s.deliveries o
    → IsValid s
    → FitsSchema e
    → (r : Store × Bool) × (settle_found s e now k o ≡ ok r) × Settles s e now k r
settle_found-Settles s e now k none found newest valid fits = ((s, false), refl, none_waits newest)
settle_found-Settles s e now k (some d) found newest valid fits =
    let (passes, row) = latest-lookup (awaits e) s.deliveries d valid.keyed found in
    (
      (settled s e now k d, true),
      rw
          (
            no_throw e.attempted _ check_violation (attempt-checks e now k d.id fits),
            no_throw_row _ check_violation
                (settle_row-checks e now d fits passes (valid.rows d.id d row).checked),
          )
          refl,
      newest_settled d row passes newest,
    )

-- A settlement with an HTTP status code, and with an error unless the delivery was sent, is never
-- refused in a valid store: no delivery is changed when none that is queued or failed matches it, and
-- else the newest such delivery is settled, by the time of creation and then by id, with an attempt
-- when one was made.
pub settle_outbound-Settles :
    (s : Store) (e : Settlement) (now : Instant) (k : Uuid)
    → IsValid s
    → FitsSchema e
    → (r : Store × Bool) × (settle_outbound s e now k ≡ ok r) × Settles s e now k r
unfolding settle_outbound
settle_outbound-Settles s e now k =
    settle_found-Settles s e now k (latest (awaits e) s.deliveries) refl
      (latest-IsNewest (awaits e) s.deliveries)

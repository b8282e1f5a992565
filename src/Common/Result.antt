-- ===== src/Common/Result.antt =====
-- Code that throws: a value or an error. A transaction also threads a store, which an error drops,
-- as a rollback does.
use mathlib.Core.Path.{◌≡◌, refl}
use mathlib.Core.Bool.{Bool, true, false}

pub data Result {ℓ κ} (E : Type ℓ) (A : Type κ) : Type (ℓ ⊔ κ) where
  ok : A → Result E A
  err : E → Result E A

-- `if (b) throw e;`
abbrev pub throw_if {ℓ} : {E : Type ℓ} → Bool → E → Result E (Unit {0})
throw_if false _ = ok tt
throw_if true e = err e

-- What follows a call that may throw.
abbrev pub and_then {ℓ κ μ} :
    {E : Type ℓ} {A : Type κ} {B : Type μ} → (A → Result E B) → Result E A → Result E B
and_then k (err e) = err e
and_then k (ok v) = k v

infixl 5 ◌>>=◌
abbrev pub ◌>>=◌ {ℓ κ μ} :
    {E : Type ℓ} {A : Type κ} {B : Type μ} → Result E A → (A → Result E B) → Result E B
r >>= k = and_then k r

infixl 5 ◌>>◌
abbrev pub ◌>>◌ {ℓ κ} : {E : Type ℓ} {B : Type κ} → Result E (Unit {0}) → Result E B → Result E B
first >> rest = and_then (λ _. rest) first

-- A sequence that returns has passed through a value of its first part.
pub >>=-returns {ℓ κ μ} :
    {E : Type ℓ} {A : Type κ} {B : Type μ} {w : B} (r : Result E A) (k : A → Result E B)
    → (r >>= k) ≡ ok w
    → (v : A) × (r ≡ ok v) × (k v ≡ ok w)
>>=-returns (err e) k returned = cc
>>=-returns (ok v) k returned = (v, refl, returned)

pub throw_if-passes {ℓ} :
    {E : Type ℓ} (b : Bool) (e : E) {u : Unit {0}} → throw_if b e ≡ ok u → b ≡ false
throw_if-passes false e h = refl
throw_if-passes true e h = cc

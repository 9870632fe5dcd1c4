-- ===== src/Base/Result.antt =====
-- Go's `(T, error)`: a value or the error that the function returned, with `do`.
use mathlib.Core.Path.{◌≡◌, refl}
use mathlib.Core.Bool.{Bool, true, false}

pub data Result {ε ℓ} (Failure : Type ε) (Value : Type ℓ) : Type (ε ⊔ ℓ) where
  err : Failure → Result Failure Value
  ok : Value → Result Failure Value

module _ {ε ℓ ν} {Failure : Type ε} {Value : Type ℓ} {Next : Type ν} where
  -- `v, err := m; if err != nil { return err }`, and the rest of the function
  infixl 5 ◌>>=◌
  abbrev pub ◌>>=◌ : Result Failure Value → (Value → Result Failure Next) → Result Failure Next
  err failure >>= rest = err failure
  ok value >>= rest = rest value

module _ {ε ν} {Failure : Type ε} {Next : Type ν} where
  infixl 5 ◌>>◌
  abbrev pub ◌>>◌ : Result Failure (Unit {0}) → Result Failure Next → Result Failure Next
  check >> rest = check >>= λ _. rest

-- `if !cond { return err }`
abbrev pub require {ε} : {Failure : Type ε} → Bool → Failure → Result Failure (Unit {0})
require false failure = err failure
require true failure = ok tt

-- A chain that succeeds has passed its first call.
module _ {ε ℓ ν} {Failure : Type ε} {Value : Type ℓ} {Next : Type ν} where
  pub bind_ok :
      (call : Result Failure Value) (rest : Value → Result Failure Next) {final : Next}
      → (call >>= rest) ≡ ok final
      → (middle : Value) × (call ≡ ok middle) × (rest middle ≡ ok final)
  bind_ok (err failure) rest passed = cc
  bind_ok (ok value) rest passed = (value, refl, passed)

pub require-eq-ok {κ} :
    {E : Type κ} (b : Bool) (e : E) {u : Unit {0}} → require b e ≡ ok u → b ≡ true
require-eq-ok true e h = refl
require-eq-ok false e h = cc

pub ok-injective {ℓ κ} :
    {E : Type κ} {A : Type ℓ} {a b : A} → ◌≡◌ {A = Result E A} (ok a) (ok b) → a ≡ b
ok-injective h = cc

pub ok-ne-err {ℓ κ} :
    {E : Type κ} {A : Type ℓ} {a : A} {e : E} {r : Result E A} → r ≡ ok a → r ≡ err e → ⊥
ok-ne-err h k = cc

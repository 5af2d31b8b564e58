-- ===== src/Base/Result.antt =====
-- What a Go call returns: a value, an error value, or a run-time panic.
use Prim.Native.Nat.{ℕ}
use mathlib.Core.Logic.{◌⊎◌, inl, inr}
use mathlib.Core.Path.{◌≡◌, refl}

-- The errors that the program tests or returns; `external` is an error of a called library.
pub data Error : Type 0 where
  not_found unavailable not_supported eof canceled : Error
  external : ℕ → Error

-- A panic ends the process, so nothing follows it.
pub data Result {ℓ} (Value : Type ℓ) : Type ℓ where
  panic : Result Value
  err : (reason : Error) → Result Value
  ok : (value : Value) → Result Value

-- `if err != nil { return err }` between a call and what is done with its value.
abbrev pub and_then {ℓ κ} :
    {Value : Type ℓ} {Next : Type κ} → (Value → Result Next) → Result Value → Result Next
and_then next panic = panic
and_then next (err reason) = err reason
and_then next (ok value) = next value

-- The same, for `do` blocks: with the value, and for a call that has none.
infixl 5 ◌>>=◌ ◌>>◌
abbrev pub ◌>>=◌ {ℓ κ} :
    {Value : Type ℓ} {Next : Type κ} → Result Value → (Value → Result Next) → Result Next
call >>= next = and_then next call

abbrev pub ◌>>◌ {ℓ} : {Next : Type ℓ} → Result (Unit {0}) → Result Next → Result Next
call >> next = and_then (λ done. next) call

pub Result-cases {ℓ} :
    {Value : Type ℓ} (r : Result Value)
    → ((value : Value) × (r ≡ ok value)) ⊎ (((e : Error) × (r ≡ err e)) ⊎ (r ≡ panic))
Result-cases panic = inr (inr refl)
Result-cases (err reason) = inr (inl (reason, refl))
Result-cases (ok value) = inl (value, refl)

-- A chain that succeeds: what its first call returned, and that the rest succeeds on it.
pub record Passes {ℓ κ} {Value : Type ℓ} {Next : Type κ} (call : Result Value)
    (next : Value → Result Next) (final : Next) : Type (ℓ ⊔ κ) where
  pub value : Value
  pub returned : call ≡ ok value
  pub rest : next value ≡ ok final

pub and_then-Passes {ℓ κ} :
    {Value : Type ℓ} {Next : Type κ} {final : Next} (next : Value → Result Next)
    (call : Result Value)
    → and_then next call ≡ ok final
    → Passes call next final
and_then-Passes next panic succeeds = absurd (cc)
and_then-Passes next (err reason) succeeds = absurd (cc)
and_then-Passes next (ok value) succeeds = record {
  value = value;
  returned = refl;
  rest = succeeds;
}

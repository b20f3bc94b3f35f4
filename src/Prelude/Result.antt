-- ===== src/Prelude/Result.antt =====
-- A Go pair (value, error): the value, or the text of the error.
use Prim.Native.String.{String}
use mathlib.Core.Path.{◌≡◌, refl}
use mathlib.Core.Logic.{◌⊎◌, inl, inr}
use native.Mathlib.Omega.{arith}
use mathlib.Core.Bool.{Bool, true, false}

pub data Result {ℓ} (Value : Type ℓ) : Type ℓ where
  ok : Value → Result Value
  err : String → Result Value

abbrev pub is_ok {ℓ} : {Value : Type ℓ} → Result Value → Bool
is_ok (err message) = false
is_ok (ok value) = true

pub Result-cases {ℓ} :
    {Value : Type ℓ} (r : Result Value)
    → ((message : String) × (r ≡ err message)) ⊎ ((value : Value) × (r ≡ ok value))
Result-cases (err message) = inl (message, refl)
Result-cases (ok value) = inr (value, refl)

-- `if !test { return err }`.
abbrev pub check : Bool → String → Result (Unit {0})
check false message = err message
check true message = ok tt

-- The statements after `if err != nil { return err }`, with the value and without.
infixl 5 ◌>>◌ ◌>>=◌
abbrev pub ◌>>=◌ {ℓ κ} :
    {Value : Type ℓ} {Next : Type κ} → Result Value → (Value → Result Next) → Result Next
err message >>= rest = err message
ok value >>= rest = rest value

abbrev pub ◌>>◌ {ℓ} : {Next : Type ℓ} → Result (Unit {0}) → Result Next → Result Next
first >> rest = first >>= λ _. rest

-- What a chain that ends well says of its parts.
pub bind-ok {ℓ κ} :
    {Value : Type ℓ} {Next : Type κ} (r : Result Value) (f : Value → Result Next) (b : Next)
    → (r >>= f) ≡ ok b
    → (value : Value) × (r ≡ ok value) × (f value ≡ ok b)
bind-ok (err message) f b e = absurd (ground (arith, e))
bind-ok (ok value) f b e = (value, refl, e)

pub check-ok {ℓ} :
    {Next : Type ℓ} (test : Bool) (message : String) (rest : Result Next) (b : Next)
    → (check test message >> rest) ≡ ok b
    → rest ≡ ok b
check-ok true message rest b e = e
check-ok false message rest b e = absurd (ground (arith, e))

pub ok-injective {ℓ} : {Value : Type ℓ} (a b : Value) → ok a ≡ ok b → a ≡ b
ok-injective a b e = ground (arith, e)

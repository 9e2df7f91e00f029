-- ===== src/Prelude/Results.antt =====
-- A Go `(value, error)` pair as a value: the error type is the component's own.
use mathlib.Core.Path.{◌≡◌, refl}
use mathlib.Core.Logic.{◌⊎◌, inl, inr}
use mathlib.Core.Bool.{Bool, true, false}
use ouf_mcp_server.Prelude.Tests.{if◌then◌else◌}

pub data Result {ℓ κ} (Failure : Type ℓ) (Value : Type κ) : Type (ℓ ⊔ κ) where
  err : Failure → Result Failure Value
  ok : Value → Result Failure Value

pub ok-injective {ℓ κ} :
    {E : Type ℓ} {A : Type κ} {a b : A} → ◌≡◌ {A = Result E A} (ok a) (ok b) → a ≡ b
ok-injective h = cc

pub Result-cases {ℓ κ} :
    {E : Type ℓ} {A : Type κ} (m : Result E A) → ((a : A) × (m ≡ ok a)) ⊎ ((e : E) × (m ≡ err e))
Result-cases (err e) = inr (e, refl)
Result-cases (ok a) = inl (a, refl)

infixl 5 ◌>>=◌
-- A call, `if err != nil { return err }`, and what follows with the value of the call.
abbrev pub ◌>>=◌ {ℓ κ μ} :
    {Failure : Type ℓ} {Value : Type κ} {Next : Type μ}
    → Result Failure Value
    → (Value → Result Failure Next)
    → Result Failure Next
err failure >>= next = err failure
ok value >>= next = next value

-- What a chain that succeeded computed on its way.
pub bind-ok {ℓ κ μ ν} :
    {E : Type ℓ} {A : Type κ} {B : Type μ} {P : Type ν} (m : Result E A) {f : A → Result E B}
    {b : B}
    → (m >>= f) ≡ ok b
    → ((a : A) → m ≡ ok a → f a ≡ ok b → P)
    → P
bind-ok (err e) h k = cc
bind-ok (ok a) h k = k a refl h

-- The same as a triple.
pub bind-ok_parts {ℓ κ μ} :
    {E : Type ℓ} {A : Type κ} {B : Type μ} (m : Result E A) (f : A → Result E B) {b : B}
    → (m >>= f) ≡ ok b
    → (a : A) × (m ≡ ok a) × (f a ≡ ok b)
bind-ok_parts m f h = bind-ok m h (λ a p q. (a, p, q))

-- A guard that returns an error did not fire in a run that succeeded.
pub else-ok {ℓ κ} :
    {E : Type ℓ} {A : Type κ} (b : Bool) (e : E) (k : Result E A) {r : A}
    → (if b then err e else k) ≡ ok r
    → (b ≡ false) × (k ≡ ok r)
else-ok true e k h = cc
else-ok false e k h = (refl, h)

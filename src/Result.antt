-- ===== src/Result.antt =====
-- A value or a Go `error`, and the early returns of a function that gives one.
use prediction_market.Base.{◌≡◌, refl, Bool, true, false, Option, none, some}
use prediction_market.Ledger.{Error}

pub data Result {ℓ} (A : Type ℓ) : Type ℓ where
  err : Error → Result A
  ok : A → Result A

-- the error of a result, nil for a value
abbrev pub error_of {ℓ} : {A : Type ℓ} → Result A → Option Error
error_of (err e) = some e
error_of (ok _) = none

-- `if err != nil { return err }`, and then the rest of the function
infixl 5 ◌>>=◌
abbrev pub ◌>>=◌ {ℓ κ} : {A : Type ℓ} {B : Type κ} → Result A → (A → Result B) → Result B
err e >>= rest = err e
ok a >>= rest = rest a

-- `if bad { return err }`
abbrev pub return_if : Bool → Error → Result (Unit {0})
return_if true e = err e
return_if false e = ok tt

infixl 5 ◌>>◌
abbrev pub ◌>>◌ {ℓ} : {B : Type ℓ} (checked : Result (Unit {0})) (rest : Result B) → Result B
checked >> rest = checked >>= λ _. rest

pub bind_assoc {ℓ κ ι} :
    {A : Type ℓ} {B : Type κ} {C : Type ι} (m : Result A) (f : A → Result B) (g : B → Result C)
    → (m >>= f >>= g) ≡ (m >>= λ a. f a >>= g)
bind_assoc (ok a) f g = refl
bind_assoc (err e) f g = refl

pub bind-ok {ℓ} : {A : Type ℓ} (m : Result A) → (m >>= λ a. ok a) ≡ m
bind-ok (ok a) = refl
bind-ok (err e) = refl

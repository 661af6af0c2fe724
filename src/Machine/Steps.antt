-- ===== src/Machine/Steps.antt =====
-- Methods of the service: a change of the machine, and a value or an error. What was changed
-- before an error stays changed.
use prediction_market.Base.{◌≡◌, refl, fun_ext, Bool, true, false, Option, none, some}
use prediction_market.Ledger.{Service, Error}
use prediction_market.Result.{Result, ok, err}
use prediction_market.Machine.Files.{Machine, Disk}

abbrev pub Action : Type 0 → Type 0 → Type 0
Action W A = Machine W → Result A × Machine W

module _ {W A : Type 0} where
  abbrev pub pure : A → Action W A
  pure a m = (ok a, m)

  abbrev pub raise : Error → Action W A
  raise e m = (err e, m)

  abbrev pub lift : Result A → Action W A
  lift r m = (r, m)

  abbrev pub gets : (Service → A) → Action W A
  gets f m = (ok (f m.service), m)

  -- a call of the outside that gives a value
  abbrev pub outside : (W → A × W) → Action W A
  outside f m = let (a, w) = f m.world in (ok a, record m { world = w })

  -- a call of the outside that may fail
  abbrev pub call : (W → Result A × W) → Action W A
  call f m = let (r, w) = f m.world in (r, record m { world = w })

module _ {W A B : Type 0} where
  abbrev pub continue : Result A → (A → Action W B) → Action W B
  continue (ok a) f m = f a m
  continue (err e) f m = (err e, m)

  infixl 5 ◌>>=◌ ◌>>◌
  abbrev pub ◌>>=◌ : Action W A → (A → Action W B) → Action W B
  ◌>>=◌ n f m = let (r, m') = n m in continue r f m'

  abbrev pub ◌>>◌ : Action W A → Action W B → Action W B
  n >> k = n >>= λ _. k

module _ {W : Type 0} where
  -- `if bad { return err }`
  abbrev pub raise_if : Bool → Error → Action W (Unit {0})
  raise_if true e m = (err e, m)
  raise_if false e m = (ok tt, m)

  abbrev pub raise_some : Option Error → Action W (Unit {0})
  raise_some none m = (ok tt, m)
  raise_some (some e) m = (err e, m)

  abbrev pub modify : (Service → Service) → Action W (Unit {0})
  modify f m = (ok tt, record m { service = f m.service })

  abbrev pub set_disk : Disk → Action W (Unit {0})
  set_disk d m = (ok tt, record m { disk = d })

  -- `Service.fail`: the failure is latched until a restart.
  unfoldable pub fail : {A : Type 0} → Error → Action W A
  fail e m = (
    err (Error.recovery_required e),
    record m { service = record m.service { failure = some (Error.recovery_required e) } },
  )

module _ {W A B C : Type 0} (f : A → Action W B) (k : B → Action W C) where
  bind-continue :
      (r : Result A) (m : Machine W)
      → ((λ m'. continue r f m') >>= k) m ≡ continue r (λ a. f a >>= k) m
  bind-continue (ok a) m = refl
  bind-continue (err e) m = refl

  -- The bracketing of three steps does not matter.
  pub bind_assoc : (n : Action W A) → (n >>= f >>= k) ≡ (n >>= λ a. f a >>= k)
  bind_assoc n = fun_ext λ m. let (r, m') = n m in bind-continue r m'

module _ {W A : Type 0} (k : Action W A) (m : Machine W) where
  -- No error, so the method goes on.
  pub raise_some-none : (f : Option Error) → f ≡ none → (raise_some f >> k) m ≡ k m
  raise_some-none none h = refl
  raise_some-none (some e) h = cc

  -- An error ends the method, and nothing is changed.
  pub raise_some-some :
      (f : Option Error) (e : Error) → f ≡ some e → (raise_some f >> k) m ≡ (err e, m)
  raise_some-some none e h = cc
  raise_some-some (some x) e h = cc

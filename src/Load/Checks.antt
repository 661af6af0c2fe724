-- ===== src/Load/Checks.antt =====
-- When the steps of `verifyMarkets` of go-backend/cmd/loadtest/main.go end well.
use prediction_market.Base.{String, Bool, true, false, ◌≡◌, ◌↔◌, refl, ap, sym, arith, subst}
use prediction_market.Int.{eq_int}
use prediction_market.Result.{Result, ok, err}
use prediction_market.Load.Client.{Shares, Steps, ◌>>=◌, ◌>>◌, require, then_go}
use prediction_market.Load.Check.{same_shares}

-- A step that leaves the state as it is
abbrev pub Rests : {W A : Type 0} → Steps W A → W → Type 0
Rests n w = (n w).1 ≡ w

module _ {W : Type 0} (w : W) where
  pub require_iff :
      (b : Bool) (what : String) {P : Type 0}
      → ((b ≡ true) ↔ P)
      → (require b what w ≡ (ok tt, w)) ↔ P
  require_iff true what e = (λ _. e.0 refl, λ _. refl)
  require_iff false what e = (λ h. absurd (cc h), λ p. absurd (cc (e.1 p)))

  -- Two steps end well if both do.
  then_go_iff :
      (x : Result (Unit {0}) × W) (k : Steps W (Unit {0})) {P Q : Type 0}
      → x.1 ≡ w
      → ((x ≡ (ok tt, w)) ↔ P)
      → ((k w ≡ (ok tt, w)) ↔ Q)
      → (then_go x (λ _. k) ≡ (ok tt, w)) ↔ (P × Q)
  then_go_iff (ok a, v) k r e f = (
    λ h. (e.0 (ap (λ (u : W). (ok tt, u)) r), f.0 (subst (λ u. k u ≡ (ok tt, w)) r h)),
    λ (p, q). subst (λ u. k u ≡ (ok tt, w)) (sym r) (f.1 q),
  )
  then_go_iff (err x, v) k r e f = (λ h. absurd (cc h), λ (p, q). absurd (cc (e.1 p)))

  pub then_iff :
      (n k : Steps W (Unit {0})) {P Q : Type 0}
      → Rests n w
      → ((n w ≡ (ok tt, w)) ↔ P)
      → ((k w ≡ (ok tt, w)) ↔ Q)
      → ((n >> k) w ≡ (ok tt, w)) ↔ (P × Q)
  then_iff n k rests e f = then_go_iff (n w) k rests e f

  -- A step that reads a value, and the rest that wants it to be `want`
  read_go_iff :
      {A : Type 0} (x : Result A × W) (k : A → Steps W (Unit {0})) (want : A) {Q : Type 0}
      → x.1 ≡ w
      → ((a : A) → (k a w ≡ (ok tt, w)) ↔ ((a ≡ want) × Q))
      → (then_go x k ≡ (ok tt, w)) ↔ ((x.0 ≡ ok want) × Q)
  read_go_iff (ok a, v) k want r e = (
    λ h. let (p, q) = (e a).0 (subst (λ u. k a u ≡ (ok tt, w)) r h) in (ap ok p, q),
    λ (p, q). subst (λ u. k a u ≡ (ok tt, w)) (sym r) ((e a).1 (cc p, q)),
  )
  read_go_iff (err x, v) k want r e = (λ h. absurd (cc h), λ (p, q). absurd (cc p))

  pub read_iff :
      {A : Type 0} (n : Steps W A) (k : A → Steps W (Unit {0})) (want : A) {Q : Type 0}
      → Rests n w
      → ((a : A) → (k a w ≡ (ok tt, w)) ↔ ((a ≡ want) × Q))
      → ((n >>= k) w ≡ (ok tt, w)) ↔ (((n w).0 ≡ ok want) × Q)
  read_iff n k want rests e = read_go_iff (n w) k want rests e

  pub require-Rests : (b : Bool) (what : String) → Rests (require b what) w
  require-Rests true what = refl
  require-Rests false what = refl

  read_go-Rests :
      {A B : Type 0} (x : Result A × W) (k : A → Steps W B)
      → x.1 ≡ w
      → ((a : A) → Rests (k a) w)
      → (then_go x k).1 ≡ w
  read_go-Rests (ok a, v) k r e = subst (λ u. (k a u).1 ≡ w) (sym r) (e a)
  read_go-Rests (err x, v) k r e = r

  pub read-Rests :
      {A B : Type 0} (n : Steps W A) (k : A → Steps W B)
      → Rests n w
      → ((a : A) → Rests (k a) w)
      → Rests (n >>= k) w
  read-Rests n k rests e = read_go-Rests (n w) k rests e

pub and_true : {P Q : Type 0} → (Q ↔ (P × Unit {0})) → Q ↔ P
and_true e = (λ q. (e.0 q).0, λ p. e.1 (p, tt))

pub with_true : {P Q : Type 0} → (Q ↔ P) → Q ↔ (P × Unit {0})
with_true e = (λ q. (e.0 q, tt), λ (p, _). e.1 p)

pub same_shares_iff : (p q : Shares) → (same_shares p q ≡ true) ↔ (p ≡ q)
unfolding same_shares
same_shares_iff p q = (λ h. ground arith, λ h. ground arith)

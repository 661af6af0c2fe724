-- ===== src/Load/Walk.antt =====
-- The loops of `verifyMarkets` of go-backend/cmd/loadtest/main.go, user by user and market by market.
use prediction_market.Base.{
  get_elem?, ℕ, suc, String, Bool, List, [], ◌∷◌, Option, none, some, length, ◌==◌, ◌≡◌, ◌↔◌, refl,
  sym, subst,
}
use prediction_market.Int.{ℤ, eq_int, int_eq_iff}
use prediction_market.Result.{ok}
use prediction_market.Load.Jobs.{market_pairs, expected_pairs, market_indices}
use prediction_market.Load.Client.{Identity, Shares, Outside, ◌>>◌, require}
use prediction_market.Load.Check.{
  expected_shares, same_shares, expected_cents, read_position, read_balance, verify_position,
  verify_positions, verify_user, verify_users,
}
use prediction_market.Load.Checks.{
  Rests, require_iff, then_iff, read_iff, require-Rests, read-Rests, and_true, with_true,
  same_shares_iff,
}

-- Reading an account changes nothing.
abbrev pub AllRest : {W : Type 0} → Outside W → String → W → Type 0
AllRest o base w =
    ((u : Identity) → Rests (read_balance o base u) w)
    × ((u : Identity) (market : String) → Rests (read_position o base u market) w)

module _ {W : Type 0} (o : Outside W) (base : String) (w : W) (rest : AllRest o base w) where
  verify_position_iff :
      (want : Shares) (u : Identity) (name : Option String)
      → (verify_position o base want u name w ≡ (ok tt, w)) ↔ (
          (market : String) × (name ≡ some market)
          × ((read_position o base u market w).0 ≡ ok want))
  unfolding verify_position
  verify_position_iff want u none = (λ h. absurd (cc h), λ (market, e, _). absurd (cc e))
  verify_position_iff want u (some name) =
      let e = and_true (
        read_iff w (read_position o base u name) (λ p. require (same_shares p want) "position") want
          (rest.1 u name)
          (λ p.
            with_true (require_iff w (same_shares p want) "position" (same_shares_iff p want)))) in
      (
        λ h. (name, refl, e.0 h),
        λ (market, n, h).
            e.1 (subst (λ x. (read_position o base u x w).0 ≡ ok want) (sym (cc n)) h),
      )

  verify_position-Rests :
      (want : Shares) (u : Identity) (name : Option String)
      → Rests (verify_position o base want u name) w
  unfolding verify_position
  verify_position-Rests want u none = refl
  verify_position-Rests want u (some name) =
      read-Rests w (read_position o base u name) _ (rest.1 u name)
        (λ p. require-Rests w _ "position")

  -- What one market of user i, who is u, should show
  abbrev pub IsHeld : List String → ℕ → ℕ → Identity → ℕ → Type 0
  IsHeld markets pairs i u m =
      (market : String) × (get_elem? markets m ≡ some market)
      × ((read_position o base u market w).0
          ≡ ok (expected_shares i (market_pairs (length markets) pairs m)))

  abbrev pub AllHeld : List String → ℕ → ℕ → Identity → List ℕ → Type 0
  AllHeld markets pairs i u [] = Unit
  AllHeld markets pairs i u (m ∷ ms) = IsHeld markets pairs i u m × AllHeld markets pairs i u ms

  verify_positions_iff :
      (markets : List String) (pairs i : ℕ) (u : Identity) (ms : List ℕ)
      → (verify_positions o base markets pairs i u ms w ≡ (ok tt, w)) ↔ AllHeld markets pairs i u ms
  unfolding verify_positions
  verify_positions_iff markets pairs i u [] = (λ _. tt, λ _. refl)
  verify_positions_iff markets pairs i u (m ∷ ms) =
      let want = expected_shares i (market_pairs (length markets) pairs m) in
      then_iff w (verify_position o base want u (get_elem? markets m))
        (verify_positions o base markets pairs i u ms)
        (verify_position-Rests want u (get_elem? markets m))
        (verify_position_iff want u (get_elem? markets m))
        (verify_positions_iff markets pairs i u ms)

  verify_positions-Rests :
      (markets : List String) (pairs i : ℕ) (u : Identity) (ms : List ℕ)
      → Rests (verify_positions o base markets pairs i u ms) w
  unfolding verify_positions
  verify_positions-Rests markets pairs i u [] = refl
  verify_positions-Rests markets pairs i u (m ∷ ms) =
      let want = expected_shares i (market_pairs (length markets) pairs m) in
      read-Rests w (verify_position o base want u (get_elem? markets m))
        (λ _. verify_positions o base markets pairs i u ms)
        (verify_position-Rests want u (get_elem? markets m))
        (λ _. verify_positions-Rests markets pairs i u ms)

  -- What user i should show
  abbrev pub IsKept : Bool → List String → ℤ → ℕ → ℕ → Identity → Type 0
  IsKept separate markets funding pairs i u =
      ((read_balance o base u w).0
        ≡ ok (expected_cents funding (expected_pairs separate (length markets) pairs i)))
      × AllHeld markets pairs i u (market_indices separate (length markets) i)

  module _ (separate : Bool) (markets : List String) (funding : ℤ) (pairs : ℕ) where
    verify_user_iff :
        (i : ℕ) (u : Identity)
        → (verify_user o base separate markets funding pairs i u w ≡ (ok tt, w))
          ↔ IsKept separate markets funding pairs i u
    unfolding verify_user
    verify_user_iff i u =
        let want = expected_cents funding (expected_pairs separate (length markets) pairs i) in
        let ms = market_indices separate (length markets) i in
        read_iff w (read_balance o base u)
          (λ c. require (c == want) "balance" >> verify_positions o base markets pairs i u ms) want
          (rest.0 u)
          (λ c.
            then_iff w (require (c == want) "balance")
              (verify_positions o base markets pairs i u ms) (require-Rests w (c == want) "balance")
              (require_iff w (c == want) "balance" (int_eq_iff c want))
              (verify_positions_iff markets pairs i u ms))

    verify_user-Rests :
        (i : ℕ) (u : Identity) → Rests (verify_user o base separate markets funding pairs i u) w
    unfolding verify_user
    verify_user-Rests i u =
        let want = expected_cents funding (expected_pairs separate (length markets) pairs i) in
        let ms = market_indices separate (length markets) i in
        let shares = verify_positions o base markets pairs i u ms in
        read-Rests w (read_balance o base u) (λ c. require (c == want) "balance" >> shares)
          (rest.0 u)
          (λ c.
            read-Rests w (require (c == want) "balance") (λ _. shares)
              (require-Rests w (c == want) "balance")
              (λ _. verify_positions-Rests markets pairs i u ms))

    abbrev pub AllKept : ℕ → List Identity → Type 0
    AllKept i [] = Unit
    AllKept i (u ∷ us) = IsKept separate markets funding pairs i u × AllKept (suc i) us

    pub verify_users_iff :
        (i : ℕ) (us : List Identity)
        → (verify_users o base separate markets funding pairs i us w ≡ (ok tt, w)) ↔ AllKept i us
    unfolding verify_users
    verify_users_iff i [] = (λ _. tt, λ _. refl)
    verify_users_iff i (u ∷ us) =
        then_iff w (verify_user o base separate markets funding pairs i u)
          (verify_users o base separate markets funding pairs (suc i) us) (verify_user-Rests i u)
          (verify_user_iff i u) (verify_users_iff (suc i) us)

    pub verify_users-Rests :
        (i : ℕ) (us : List Identity)
        → Rests (verify_users o base separate markets funding pairs i us) w
    unfolding verify_users
    verify_users-Rests i [] = refl
    verify_users-Rests i (u ∷ us) =
        read-Rests w (verify_user o base separate markets funding pairs i u)
          (λ _. verify_users o base separate markets funding pairs (suc i) us)
          (verify_user-Rests i u) (λ _. verify_users-Rests (suc i) us)

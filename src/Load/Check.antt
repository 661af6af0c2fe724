-- ===== src/Load/Check.antt =====
-- `verifyMarkets` of go-backend/cmd/loadtest/main.go: every account's balance, and its shares in its markets.
use Prim.Native.Nat.{◌/◌}
use Prim.Native.String.{◌++◌}
use prediction_market.Base.{
  ℕ, suc, ◌%◌, String, Bool, List, [], ◌∷◌, Option, none, some, length, get_elem?, nat_eq, not,
  ◌==◌, ◌||◌, if◌then◌else◌,
}
use prediction_market.Int.{ℤ, pos, eq_int, mul64, sub64}
use prediction_market.Ledger.{Error}
use prediction_market.Load.Jobs.{market_pairs, expected_pairs, market_indices}
use prediction_market.Load.Client.{
  Identity, Shares, Outside, Steps, ◌>>=◌, ◌>>◌, give, raise, require, request, nothing,
}

-- `yes, no := n, 0`, the other way round for an odd user
unfoldable pub expected_shares : ℕ → ℕ → Shares
expected_shares i n =
    if nat_eq (i % 2) 1
    then record { yes = pos 0; no = pos n }
    else record { yes = pos n; no = pos 0 }

unfoldable pub same_shares : Shares → Shares → Bool
same_shares p q = not (not (p.yes == q.yes) || not (p.no == q.no))

-- `want` of a balance
unfoldable pub expected_cents : ℤ → ℕ → ℤ
expected_cents funding pairs = sub64 funding (mul64 (pos pairs) (pos 50))

module _ {W : Type 0} (o : Outside W) (base : String) where
  unfoldable pub read_position : Identity → String → Steps W Shares
  read_position u market =
      request o "GET" (base ++ "/api/v1/positions/" ++ u.id ++ "/" ++ market) u.token nothing 200
        o.read_shares

  unfoldable pub read_balance : Identity → Steps W ℤ
  read_balance u =
      request o "GET" (base ++ "/api/v1/balances/" ++ u.id) u.token nothing 200 o.read_cents

  -- One market of a user
  unfoldable pub verify_position : Shares → Identity → Option String → Steps W (Unit {0})
  unfolding read_position same_shares
  verify_position want u none = raise (Error.external "index out of range")
  verify_position want u (some market) = do
    p ← read_position u market
    require (same_shares p want) "position"

  -- The loop over a user's markets
  unfoldable pub verify_positions :
      List String → ℕ → (i : ℕ) → Identity → List ℕ → Steps W (Unit {0})
  unfolding verify_position expected_shares
  verify_positions markets pairs i u [] = give tt
  verify_positions markets pairs i u (m ∷ ms) =
      let rest = verify_positions markets pairs i u ms in
      verify_position (expected_shares i (market_pairs (length markets) pairs m)) u
        (get_elem? markets m)
      >> rest

  -- One user
  unfoldable pub verify_user : Bool → List String → ℤ → ℕ → (i : ℕ) → Identity → Steps W (Unit {0})
  unfolding read_balance verify_positions expected_cents
  verify_user separate markets funding pairs i u = do
    cents ← read_balance u
    require (cents == expected_cents funding (expected_pairs separate (length markets) pairs i))
        "balance"
    verify_positions markets pairs i u (market_indices separate (length markets) i)

  -- The loop over the users, from number i
  unfoldable pub verify_users :
      Bool → List String → ℤ → ℕ → (i : ℕ) → List Identity → Steps W (Unit {0})
  unfolding verify_user
  verify_users separate markets funding pairs i [] = give tt
  verify_users separate markets funding pairs i (u ∷ us) =
      let rest = verify_users separate markets funding pairs (suc i) us in
      verify_user separate markets funding pairs i u >> rest

  -- `verifyMarkets`
  unfoldable pub verify_markets : Bool → List String → List Identity → ℤ → ℕ → Steps W (Unit {0})
  unfolding verify_users
  verify_markets separate markets users funding count =
      verify_users separate markets funding (count / 2) 0 users

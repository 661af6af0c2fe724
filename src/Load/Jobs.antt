-- ===== src/Load/Jobs.antt =====
-- Which order a job of go-backend/cmd/loadtest/main.go is, and how many each account should have.
use Prim.Native.Nat.{◌/◌}
use prediction_market.Base.{
  ℕ, zero, suc, ◌+◌, ◌*◌, ◌%◌, String, Bool, List, [], ◌∷◌, ltb, leb, nat_eq, if◌then◌else◌,
}

-- `marketIndex` of job i
abbrev pub job_market : ℕ → ℕ → ℕ
job_market markets i = i / 2 % markets

-- `userIndex` of job i, with accounts of its own for each market or with two for all
abbrev pub job_user : Bool → ℕ → ℕ → ℕ
job_user separate markets i = i % 2 + (if separate then job_market markets i * 2 else 0)

abbrev pub buys_no : ℕ → Bool
buys_no i = nat_eq (i % 2) 1

-- `side` of job i
abbrev pub job_side : ℕ → String
job_side i = if buys_no i then "buy_no" else "buy_yes"

-- The loop that feeds the workers, which asks before each pair of jobs whether to stop
unfoldable pub feed : ℕ → (ℕ → Bool) → ℕ → List ℕ
feed zero stop count = []
feed (suc rounds) stop count =
    let rest = feed rounds stop (count + 2) in if stop count then [] else count ∷ (count + 1) ∷ rest

-- How it stops when the number of orders is given
abbrev pub enough_orders : ℕ → ℕ → Bool
enough_orders orders count = leb orders count

-- The pairs of orders that market m gets of all `pairs`
unfoldable pub market_pairs : ℕ → ℕ → ℕ → ℕ
market_pairs markets pairs m = pairs / markets + (if ltb m (pairs % markets) then 1 else 0)

-- `expectedPairs` of user i
unfoldable pub expected_pairs : Bool → ℕ → ℕ → ℕ → ℕ
unfolding market_pairs
expected_pairs separate markets pairs i =
    if separate then market_pairs markets pairs (i / 2) else pairs

abbrev pub numbers_from : ℕ → ℕ → List ℕ
numbers_from zero i = []
numbers_from (suc n) i = i ∷ numbers_from n (suc i)

-- `marketIndices` of user i
unfoldable pub market_indices : Bool → ℕ → ℕ → List ℕ
market_indices separate markets i = if separate then i / 2 ∷ [] else numbers_from markets 0

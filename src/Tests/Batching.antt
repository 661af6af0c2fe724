-- ===== src/Tests/Batching.antt =====
-- Two bids of one user that a batch admits together.
use prediction_market.Base.{none, List, [], ◌∷◌, arith}
use prediction_market.Int.{pos}
use prediction_market.Dict
use prediction_market.Ledger.{balance, position, user_positions, apply_all}
use prediction_market.Trading.Batch.{Placement, no_admissions, admit_all}
use prediction_market.Trading.Batch.Solvent.{IsFunded}
use prediction_market.Trading.Batch.Solvency.{admit_all-IsFunded}
use prediction_market.Tests.{bid, funded, funded-InRange, request}

abbrev pub two_requests : List Placement
two_requests =
    request ∷ record { context = none; order = record bid { id = "o2"; quantity = pos 5 } } ∷ []

funded-IsFunded : IsFunded funded
unfolding balance position user_positions Dict.lookup
funded-IsFunded = record {
  cash = λ u. ground arith;
  yes_shares = λ u k. ground arith;
  no_shares = λ u k. ground arith;
}

admit_all-IsFunded_example :
    IsFunded (apply_all funded (admit_all funded no_admissions 0 two_requests).1.initial)
admit_all-IsFunded_example =
    admit_all-IsFunded funded two_requests funded-InRange funded-IsFunded
      ((omega arith, omega arith), ((omega arith, omega arith), tt))

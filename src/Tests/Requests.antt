-- ===== src/Tests/Requests.antt =====
-- Requests to the service of go-backend/internal/trading, one after another from an empty state.
use prediction_market.Base.{ℕ, true, ◌⊎◌, List, [], ◌∷◌, none, length, arith}
use prediction_market.Int.{pos}
use prediction_market.Ledger.{empty_service}
use prediction_market.Machine.{Backend, Line, wal_record}
use prediction_market.Wal.Replay.{quiet}
use prediction_market.Wal.Durability.{IsDurable}
use prediction_market.Wal.Spends.{IsStopped, IsSized}
use prediction_market.Trading.Latch.{create_market, deposit_cents, place_order, resolve_request}
use prediction_market.Trading.Work.{Work, request, batch, serve_all}
use prediction_market.Trading.Durable.Work.{serve_all-IsDurable}
use prediction_market.Tests.Batching.{two_requests}
use prediction_market.Tests.{no_error, bid, machine_of, empty_service-IsDurable}

abbrev line_size : Line → ℕ
line_size (wal_record version events) = length events
line_size _ = 0

-- A text of one character for each event, and no other call that does anything.
abbrev counted : Backend (Unit {0})
counted = record quiet { encoded_length = line_size }

counted-IsSized : IsSized counted
counted-IsSized es = omega arith

abbrev day : List Work
day =
    request (create_market "m1" "RAIN" "")
    ∷ request (deposit_cents "alice" (pos 1000))
    ∷ request (place_order none bid)
    ∷ batch two_requests
    ∷ request (resolve_request none "m1" true "")
    ∷ []

serve_all-IsDurable_example :
    IsDurable (serve_all counted no_error day (machine_of empty_service))
    ⊎ IsStopped counted (serve_all counted no_error day (machine_of empty_service))
serve_all-IsDurable_example =
    serve_all-IsDurable counted no_error day (machine_of empty_service) counted-IsSized
      (tt, (tt, (tt, (tt, (tt, tt))))) empty_service-IsDurable (omega arith)

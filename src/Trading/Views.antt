-- ===== src/Trading/Views.antt =====
-- What the service of go-backend/internal/trading/service.go lets others read, and what `NewWithConfig`
-- checks.
use prediction_market.Base.{String, Bool, ◌||◌, Option, List, [], ◌∷◌, ◌==◌, eq_string}
use prediction_market.Int.{ℤ, pos, ltb_ℤ}
use prediction_market.Dict
use prediction_market.Dict.{Dict}
use prediction_market.Ledger.{Service, Market, Order, Error}
use prediction_market.Result.{Result, return_if, ◌>>◌}
use prediction_market.Sort.{string_before, sort}

-- `Service.Order` and `Service.Market`
unfoldable pub order : String → Service → Option Order
order id s = Dict.lookup id s.orders

unfoldable pub market : String → Service → Option Market
market id s = Dict.lookup id s.markets

abbrev pub values : Dict String Market → List Market
values [] = []
values ((_, m) ∷ markets) = m ∷ values markets

abbrev pub id_before : Market → Market → Bool
id_before a b = string_before a.id b.id

-- `Service.Markets`
unfoldable pub markets : Service → List Market
unfolding sort string_before
markets s = sort id_before (values s.markets)

-- `Service.HealthError`
unfoldable pub health_error : Service → Option Error
health_error s = s.failure

-- The checks of `NewWithConfig`, before it reads the files
unfoldable pub config_checks : (order_batch_size : ℤ) → (wal_path : String) → Result (Unit {0})
config_checks size path =
    return_if (ltb_ℤ size (pos 0) || ltb_ℤ (pos 32) size)
      (Error.external "order batch size must be between 0 and 32")
    >> return_if (path == "") (Error.external "WAL path is required")

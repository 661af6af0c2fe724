-- ===== src/Trading/Place.antt =====
-- `placeSingle` and `applyTrades` of go-backend/internal/trading/service.go.
use prediction_market.Base.{String, none, some, List, [], ◌∷◌, eq_string}
use prediction_market.Int.{uint32, int32}
use prediction_market.Ledger.{Order, Event, Status, EngineTrade, EngineResult, engine_key}
use prediction_market.Result.{ok, err}
use prediction_market.Machine.{
  Action, Backend, Engine, pure, lift, gets, outside, raise_some, fail, ◌>>=◌, ◌>>◌,
}
use prediction_market.Wal.{commit_many}
use prediction_market.Orders.{prepare_order}
use prediction_market.Trades.{build_trade_events, order_stored}
use prediction_market.Trading.Quotes.{MarketQuote, market_of, read_quotes}
use prediction_market.Trading.Accounts.{Context}

module _ {W : Type 0} (be : Backend W) where
  -- `Service.applyTrades`
  unfoldable pub apply_trades : String → List EngineTrade → Action W (Unit {0})
  apply_trades market_id trades = do
    s ← gets (λ s. s)
    elim (build_trade_events s market_id trades [] []).0 [
      | [] ↦ pure tt
      | e ∷ es ↦ commit_many be (e ∷ es)
    ]

  -- `s.cfg.Engine.AddOrder` with the remaining quantity given; an error latches the failure.
  unfoldable pub submit : Engine W → Order → Action W EngineResult
  unfolding fail market_of
  submit engine o = do
    s ← gets (λ s. s)
    result ← outside (
        engine.add_order (record {
          symbol = (market_of s o.market_id).symbol;
          price = int32 o.engine_price;
          quantity = uint32 o.quantity;
          side = o.engine_side;
        }))
    elim result [ err e ↦ fail e | ok r ↦ pure r ]

  abbrev pub opened_order : Order → EngineResult → Order
  opened_order o r = record o { engine_id = r.order_id; status = Status.open_ }

  -- From the engine's answer to the second commit: the open order, then its fills.
  unfoldable pub complete : Order → EngineResult → Action W (List MarketQuote)
  complete o r = do
    s ← gets (λ s. s)
    commit_many be (
        order_stored o
        ∷ (build_trade_events s o.market_id r.trades
            ((engine_key o.market_id o.engine_id, o.id) ∷ []) ((o.id, o) ∷ [])).0)
    read_quotes be (o.market_id ∷ []) []

  -- `placeSingle` after the reservation is durable
  unfoldable pub match_order : Order → Action W (List MarketQuote)
  match_order o = elim be.engine [
    | none ↦ do commit_many be (order_stored (record o { status = Status.open_ }) ∷ []); pure []
    | some engine ↦ do r ← submit engine o; complete (opened_order o r) r
  ]

  unfoldable pub place_prepared : List Event → Action W (List MarketQuote)
  place_prepared [] = pure []
  place_prepared (e ∷ es) = do commit_many be (e ∷ es); match_order e.order

  -- `Service.placeSingle`, with the quotes that it publishes
  unfoldable pub place_single : Context → Order → Action W (List MarketQuote)
  place_single ctx o = do
    raise_some ctx
    raise_some (← gets (λ s. s.failure))
    s ← gets (λ s. s)
    initial ← lift (prepare_order s o)
    place_prepared initial

-- ===== src/Trading/Recover.antt =====
-- `RecoverEngine` of go-backend/internal/trading/service.go: after a restart the open orders are
-- entered into the empty engine again, in the order of their admission.
use prediction_market.Base.{
  ℕ, String, Bool, none, some, List, [], ◌∷◌, ltb, map, if◌then◌else◌, eq_string,
}
use prediction_market.Int.{pos, sub64, uint32, int32, ltb_ℤ}
use prediction_market.Dict
use prediction_market.Dict.{Dict}
use prediction_market.Ledger.{Market, Order, Status, is_live, is_open}
use prediction_market.Machine.{
  Action, Backend, Engine, pure, gets, outside, call, raise_some, modify, ◌>>=◌, ◌>>◌,
}
use prediction_market.Wal.{commit_many}
use prediction_market.Sort.{sort}
use prediction_market.Trades.{order_stored}
use prediction_market.Trading.Quotes.{MarketQuote, market_of, read_quotes}
use prediction_market.Trading.Accounts.{Context}
use prediction_market.Trading.Place.{apply_trades}

unfoldable pub live_orders : Dict String Order → List Order
unfolding is_live
live_orders [] = []
live_orders ((_, o) ∷ orders) =
    let rest = live_orders orders in if is_live o.status then o ∷ rest else rest

unfoldable pub open_markets : Dict String Market → List (String × Market)
open_markets [] = []
open_markets ((id, m) ∷ markets) =
    let rest = open_markets markets in if is_open m.status then (id, m) ∷ rest else rest

abbrev pub sequence_before : Order → Order → Bool
sequence_before a b = ltb a.sequence b.sequence

-- `for _, o := range orders { o.EngineID = 0; s.orders[o.ID] = o }`
unfoldable pub forget_ids : List Order → Dict String Order → Dict String Order
forget_ids [] orders = orders
forget_ids (o ∷ os) orders = forget_ids os (Dict.insert o.id (record o { engine_id = 0 }) orders)

abbrev pub recovered_order : Order → ℕ → Order
recovered_order o engine_id = record o {
  engine_id = engine_id;
  status = if ltb_ℤ (pos 0) o.filled_quantity then Status.partial else Status.open_;
}

module _ {W : Type 0} (be : Backend W) where
  unfoldable pub add_books : Engine W → List (String × Market) → Action W (Unit {0})
  add_books engine [] = pure tt
  add_books engine ((_, m) ∷ markets) = do
    raise_some (← outside (engine.add_book m.symbol))
    add_books engine markets

  -- One round of the second loop: the order's remainder, a commit, and the fills.
  unfoldable pub reenter : Engine W → Order → Action W (Unit {0})
  reenter engine o = do
    s ← gets (λ s. s)
    r ← call (
        engine.add_order (record {
          symbol = (market_of s o.market_id).symbol;
          price = int32 o.engine_price;
          quantity = uint32 (sub64 o.quantity o.filled_quantity);
          side = o.engine_side;
        }))
    commit_many be (order_stored (recovered_order o r.order_id) ∷ [])
    apply_trades be o.market_id r.trades

  unfoldable pub reenter_all : Engine W → List Order → Action W (Unit {0})
  reenter_all engine [] = pure tt
  reenter_all engine (o ∷ os) = do reenter engine o; reenter_all engine os

  unfoldable pub rebuild : Engine W → Action W (List MarketQuote)
  rebuild engine = do
    s ← gets (λ s. s)
    add_books engine (open_markets s.markets)
    let orders = sort sequence_before (live_orders s.orders)
    modify (λ s. record s { engine_orders = []; orders = forget_ids orders s.orders })
    reenter_all engine orders
    s' ← gets (λ s. s)
    read_quotes be (map (λ m. m.0) (open_markets s'.markets)) []

  -- `Service.RecoverEngine`, with the quotes that it publishes
  unfoldable pub recover_engine : Context → Action W (List MarketQuote)
  recover_engine ctx = do
    raise_some ctx
    raise_some (← gets (λ s. s.failure))
    elim be.engine [ none ↦ pure [] | some engine ↦ rebuild engine ]

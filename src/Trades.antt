-- ===== src/Trades.antt =====
-- What the engine's fills do to the accounts: `buildTradeEvents` and `fillEvents` of
-- go-backend/internal/trading/service.go. The `staged` map that the source mutates is passed on.
pub mod Accounting
pub mod Totals
pub mod Conservation
use prediction_market.Base.{
  ℕ, String, Option, none, some, List, [], ◌∷◌, ◌++◌, if◌then◌else◌, get_or, eq_string,
}
use prediction_market.Int.{ℤ, pos, add64, sub64, mul64, leb_ℤ}
use prediction_market.Dict
use prediction_market.Dict.{Dict}
use prediction_market.Ledger.{
  Service, Order, Event, EventKind, Side, Status, EngineTrade, EngineOrderKey, engine_key,
  eq_engine_key, zero_event, zero_order,
}

abbrev pub Staged : Type 0
Staged = Dict String Order

-- The order with `qty` more of it filled, and the status that this gives.
unfoldable pub filled_order : Order → ℤ → Order
filled_order o qty =
    let filled = add64 o.filled_quantity qty in
    record o {
      filled_quantity = filled;
      status = if leb_ℤ o.quantity filled then Status.filled else Status.partial;
    }

-- The YES shares, the NO shares and the cash that a fill gives to the order's owner.
unfoldable pub fill_yes : Side → ℤ → ℤ
fill_yes Side.buy_yes qty = qty
fill_yes _ qty = pos 0

unfoldable pub fill_no : Side → ℤ → ℤ
fill_no Side.buy_no qty = qty
fill_no _ qty = pos 0

unfoldable pub fill_credit : Side → ℤ → ℤ → ℤ → ℤ
fill_credit Side.buy_yes price qty engine_price = mul64 (sub64 price engine_price) qty
fill_credit Side.buy_no price qty engine_price =
    mul64 (sub64 price (sub64 (pos 100) engine_price)) qty
fill_credit Side.sell_yes price qty engine_price = mul64 engine_price qty
fill_credit Side.sell_no price qty engine_price = mul64 (sub64 (pos 100) engine_price) qty
fill_credit (Side.other _) price qty engine_price = pos 0

-- `staged[id]`, or else `s.orders[id]`
unfoldable pub staged_order : Service → Staged → String → Order
staged_order s staged id = elim (Dict.lookup id staged) [
  | some o ↦ o
  | none ↦ get_or (Dict.lookup id s.orders) zero_order
]

abbrev pub order_stored : Order → Event
order_stored o = record (zero_event EventKind.event_order) { order = o }

-- The position event of a fill, for the order with the fill counted.
unfoldable pub fill_position : Order → ℤ → ℤ → Event
unfolding fill_yes fill_no fill_credit
fill_position o qty engine_price = record (zero_event EventKind.event_position) {
  user_id = o.user_id;
  market_id = o.market_id;
  yes_delta = fill_yes o.side qty;
  no_delta = fill_no o.side qty;
  amount = fill_credit o.side o.price qty engine_price;
}

-- `Service.fillEvents`
unfoldable pub fill_events : Service → Staged → String → ℤ → ℤ → List Event × Staged
fill_events s staged id qty engine_price =
    let o = filled_order (staged_order s staged id) qty in
    (order_stored o ∷ fill_position o qty engine_price ∷ [], Dict.insert id o staged)

-- The closure `lookup` of `buildTradeEvents`
unfoldable pub find_order : Service → Dict EngineOrderKey String → String → ℕ → Option String
find_order s overrides market_id engine_id =
    elim (Dict.lookup (engine_key market_id engine_id) overrides) [
      | some id ↦ some id
      | none ↦ Dict.lookup (engine_key market_id engine_id) s.engine_orders
    ]

-- One round of the loop, for a fill between two known orders.
unfoldable pub trade_events :
    Service → String → EngineTrade → Staged → String → String → List Event × Staged
trade_events s market_id fill staged buy_id sell_id =
    let (bought, staged') = fill_events s staged buy_id (pos fill.quantity) fill.price in
    let (sold, staged'') = fill_events s staged' sell_id (pos fill.quantity) fill.price in
    let traded : Event = record (zero_event EventKind.event_trade) {
      trade = record {
        market_id = market_id;
        buy_order_id = buy_id;
        sell_order_id = sell_id;
        price = fill.price;
        quantity = fill.quantity;
      };
    } in
    (bought ++ (sold ++ traded ∷ []), staged'')

-- `if !buyOK || !sellOK { continue }`
unfoldable pub found_events :
    Service → String → EngineTrade → Staged → Option String → Option String → List Event × Staged
found_events s market_id fill staged (some buy_id) (some sell_id) =
    trade_events s market_id fill staged buy_id sell_id
found_events s market_id fill staged _ _ = ([], staged)

-- One round of the loop: a fill of an order that is not known is skipped.
unfoldable pub fill_round :
    Service → String → Dict EngineOrderKey String → Staged → EngineTrade → List Event × Staged
fill_round s market_id overrides staged fill =
    found_events s market_id fill staged (find_order s overrides market_id fill.buy_order_id)
      (find_order s overrides market_id fill.sell_order_id)

-- `Service.buildTradeEvents`, with the staged orders that it leaves behind.
unfoldable pub build_trade_events :
    Service → String → List EngineTrade → Dict EngineOrderKey String → Staged → List Event × Staged
build_trade_events s market_id [] overrides staged = ([], staged)
build_trade_events s market_id (fill ∷ fills) overrides staged =
    let (events, staged') = fill_round s market_id overrides staged fill in
    let (rest, staged'') = build_trade_events s market_id fills overrides staged' in
    (events ++ rest, staged'')

-- ===== src/Orders.antt =====
-- Admission of an order: `translate`, `isBuy` and `prepareOrder` of
-- go-backend/internal/trading/service.go. `prepareOrder` only reads the state; it returns the
-- events of the reservation, none for a retry of a known order.
pub mod Admission
pub mod Reservation
pub mod Stake
pub mod Overdraft
use prediction_market.Base.{
  ◌+◌, ◌-◌, ◌%◌, ◌^◌, String, Bool, true, false, ◌&&◌, ◌||◌, not, none, some, List, [], ◌∷◌, ltb,
  ◌==◌, if◌then◌else◌, eq_string,
}
use prediction_market.Int.{ℤ, pos, uint64, mul64, sub64, neg64, ltb_ℤ, leb_ℤ, eq_int}
use prediction_market.Dict
use prediction_market.Ledger.{
  Service, Order, Event, EventKind, Side, Status, Error, side_eq, is_open, zero_event, balance,
  position,
}
use prediction_market.Result.{Result, ok, err, ◌>>=◌, ◌>>◌, return_if}

-- The engine's price and side of a client's order.
unfoldable pub translate : Side → ℤ → Result (ℤ × String)
translate side price =
    if ltb_ℤ price (pos 1) || ltb_ℤ (pos 99) price then err Error.bad_price else elim side [
      | Side.buy_yes ↦ ok (price, "buy")
      | Side.sell_yes ↦ ok (price, "sell")
      | Side.buy_no ↦ ok (sub64 (pos 100) price, "sell")
      | Side.sell_no ↦ ok (sub64 (pos 100) price, "buy")
      | Side.other _ ↦ err Error.bad_side
    ]

unfoldable pub is_buy : Side → Bool
is_buy side = side_eq side Side.buy_yes || side_eq side Side.buy_no

-- The comparison of a retry with the known order.
unfoldable pub same_order : Order → Order → Bool
same_order existing o =
    existing.user_id == o.user_id
    && (existing.market_id == o.market_id
        && (side_eq existing.side o.side
            && (existing.price == o.price && existing.quantity == o.quantity)))

-- `m, ok := s.markets[id]; ok && m.Status == Open`
unfoldable pub market_open : Service → String → Bool
market_open s id = elim (Dict.lookup id s.markets) [ none ↦ false | some m ↦ is_open m.status ]

-- The order as it is reserved: priced for the engine, pending, with the next sequence number.
unfoldable pub reserved_order : Service → Order → ℤ → String → Order
reserved_order s o price engine_side = record o {
  engine_price = price;
  engine_side = engine_side;
  status = Status.pending;
  sequence = (s.sequence + 1) % 2 ^ 64;
}

-- The events of a reservation or of its release: a buy order moves cash, a sell order shares.
abbrev pub order_event : Order → ℤ → Event
order_event o amount = record (zero_event EventKind.event_order) {
  order = o;
  user_id = o.user_id;
  amount = amount;
}

abbrev pub shares_event : Order → ℤ → ℤ → Event
shares_event o yes_delta no_delta = record (zero_event EventKind.event_position) {
  user_id = o.user_id;
  market_id = o.market_id;
  yes_delta = yes_delta;
  no_delta = no_delta;
}

unfoldable pub stake_events : Bool → Order → ℤ → ℤ → ℤ → List Event
stake_events true o cash yes_delta no_delta = order_event o cash ∷ []
stake_events false o cash yes_delta no_delta =
    order_event o (pos 0) ∷ shares_event o yes_delta no_delta ∷ []

-- The events that take the cash of a buy order, or the shares of a sell order, out of the account.
unfoldable pub reservation : Order → List Event
reservation o =
    stake_events (is_buy o.side) o (neg64 (mul64 o.price o.quantity))
      (if side_eq o.side Side.sell_yes then neg64 o.quantity else pos 0)
      (if side_eq o.side Side.sell_yes then pos 0 else neg64 o.quantity)

-- The checks of a new order, and its reservation.
unfoldable pub admit_order : Service → Order → Result (List Event)
unfolding translate is_buy
admit_order s o = do
  return_if (not (market_open s o.market_id)) Error.market_not_open
  t ← translate o.side o.price
  return_if (is_buy o.side && ltb_ℤ (balance s o.user_id) (mul64 o.price o.quantity))
      Error.insufficient_balance
  return_if
      (side_eq o.side Side.sell_yes
        && ltb_ℤ (position s o.user_id o.market_id).yes_shares o.quantity)
      Error.insufficient_yes
  return_if
      (side_eq o.side Side.sell_no && ltb_ℤ (position s o.user_id o.market_id).no_shares o.quantity)
      Error.insufficient_no
  ok (reservation (reserved_order s o t.0 t.1))

-- `Service.prepareOrder`
unfoldable pub prepare_order : Service → Order → Result (List Event)
unfolding same_order
prepare_order s o = do
  return_if (ltb (2 ^ 32 - 1) (uint64 o.quantity)) Error.quantity_too_large
  return_if (o.id == "" || (o.user_id == "" || leb_ℤ o.quantity (pos 0))) Error.bad_order
  elim (Dict.lookup o.id s.orders) [
    | some existing ↦ if same_order existing o then ok [] else err Error.order_exists
    | none ↦ admit_order s o
  ]

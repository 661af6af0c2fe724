-- ===== src/Trading/Accounts.antt =====
-- `CreateMarketFor`, `Deposit` and `Cancel` of go-backend/internal/trading/service.go, and the
-- events that cancelling an order gives. A context is the error that `ctx.Err()` gives on entry.
use prediction_market.Base.{
  String, Bool, true, false, ◌&&◌, ◌||◌, not, Option, none, some, List, [], ◌∷◌, ◌==◌,
  if◌then◌else◌, eq_string,
}
use prediction_market.Int.{ℤ, pos, sub64, mul64, leb_ℤ}
use prediction_market.Dict
use prediction_market.Dict.{Dict}
use prediction_market.Ledger.{
  Service, Market, Order, Event, EventKind, Side, Status, Error, zero_event, side_eq,
}
use prediction_market.Result.{ok, err}
use prediction_market.Machine.{
  Action, Backend, pure, raise, gets, outside, raise_if, raise_some, fail, ◌>>=◌, ◌>>◌,
}
use prediction_market.Wal.{commit_many}
use prediction_market.Orders.{is_buy, stake_events}
use prediction_market.Trading.Quotes.{MarketQuote, market_of, read_quotes}

abbrev pub Context : Type 0
Context = Option Error

-- The loop that looks for a symbol among the markets.
unfoldable pub symbol_used : String → Dict String Market → Bool
symbol_used symbol [] = false
symbol_used symbol ((id, m) ∷ markets) =
    if m.symbol == symbol then true else symbol_used symbol markets

-- The order as `Cancel` and `ResolveFor` store it.
abbrev pub cancelled_order : Order → Order
cancelled_order o = record o { status = Status.cancelled }

-- The events that give back what an order still holds: cash for a buy order, else shares.
unfoldable pub release_events : Order → List Event
release_events o =
    let remaining = sub64 o.quantity o.filled_quantity in
    stake_events (is_buy o.side) (cancelled_order o) (mul64 remaining o.price)
      (if side_eq o.side Side.sell_yes then remaining else pos 0)
      (if side_eq o.side Side.sell_yes then pos 0 else remaining)

abbrev pub is_cancellable : Status → Bool
is_cancellable Status.open_ = true
is_cancellable Status.partial = true
is_cancellable _ = false

abbrev pub market_event : Market → Event
market_event m = record (zero_event EventKind.event_market) { market = m }

abbrev pub deposit_event : String → ℤ → Event
deposit_event user cents = record (zero_event EventKind.event_balance) {
  user_id = user;
  amount = cents;
}

-- `s.orders[id]`, if it is the user's
unfoldable pub own_order : String → String → Service → Option Order
own_order id user s = elim (Dict.lookup id s.orders) [
  | none ↦ none
  | some o ↦ if o.user_id == user then some o else none
]

module _ {W : Type 0} (be : Backend W) where
  -- A market whose id is known already: a retry, or a clash.
  unfoldable pub known_market : Market → String → String → Action W (Unit {0})
  known_market existing symbol owner_id =
      raise_if (not (existing.symbol == symbol && existing.owner_id == owner_id))
        Error.market_exists

  -- `s.cfg.Engine.AddBook`, if there is an engine
  unfoldable pub add_book : String → Action W (Unit {0})
  add_book symbol = elim be.engine [
    | none ↦ pure tt
    | some engine ↦ do raise_some (← outside (engine.add_book symbol)); pure tt
  ]

  unfoldable pub new_market : String → String → String → Action W (Unit {0})
  new_market id symbol owner_id = do
    s ← gets (λ s. s)
    raise_if (symbol_used symbol s.markets) Error.symbol_taken
    add_book symbol
    commit_many be (
        market_event
          (record { id = id; symbol = symbol; owner_id = owner_id; status = Status.open_ })
        ∷ [])

  -- `Service.CreateMarketFor`; `CreateMarket` is the call with no owner.
  unfoldable pub create_market_for : String → String → String → Action W (Unit {0})
  create_market_for id symbol owner_id = do
    raise_some (← gets (λ s. s.failure))
    raise_if (id == "" || symbol == "") Error.id_and_symbol_required
    elim (← gets (λ s. Dict.lookup id s.markets)) [
      | some existing ↦ known_market existing symbol owner_id
      | none ↦ new_market id symbol owner_id
    ]

  -- `Service.Deposit`
  unfoldable pub deposit : String → ℤ → Action W (Unit {0})
  deposit user cents = do
    raise_if (user == "" || leb_ℤ cents (pos 0)) Error.bad_deposit
    raise_some (← gets (λ s. s.failure))
    commit_many be (deposit_event user cents ∷ [])

  -- `RemoveOrder` of `Cancel`: a transport error latches the failure, a refusal does not.
  unfoldable pub remove_resting : Order → Action W (Unit {0})
  unfolding fail market_of
  remove_resting o = elim be.engine [
    | none ↦ pure tt
    | some engine ↦ do
      s ← gets (λ s. s)
      removed ← outside (engine.remove_order (market_of s o.market_id).symbol o.engine_id)
      elim removed [ err e ↦ fail e | ok true ↦ pure tt | ok false ↦ raise Error.engine_rejected ]
  ]

  unfoldable pub cancel_order : Order → Action W (List MarketQuote)
  cancel_order o = do
    raise_if (not (is_cancellable o.status)) Error.not_cancellable
    remove_resting o
    commit_many be (release_events o)
    read_quotes be (o.market_id ∷ []) []

  -- `Service.Cancel`, with the quotes that it publishes
  unfoldable pub cancel : Context → String → String → Action W (List MarketQuote)
  cancel ctx id user = do
    raise_some ctx
    raise_some (← gets (λ s. s.failure))
    elim (← gets (own_order id user)) [
      | none ↦ raise Error.order_not_found
      | some o ↦ cancel_order o
    ]

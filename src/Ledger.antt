-- ===== src/Ledger.antt =====
-- The durable state of the trading service and the event that changes it:
-- go-backend/internal/trading/service.go, from the types to `apply`. The values are in the child
-- Types; `Service` here has the fields that the ledger's operations read and write. The worker's
-- queue, the locks and the open WAL handle are not among them.
mod Types
pub mod Effects
pub mod Sequence
pub mod Range
pub use Types.*
use prediction_market.Base.{
  ℕ, String, Bool, true, false, ◌&&◌, not, Option, none, some, List, [], ◌∷◌, ltb, nat_eq,
  if◌then◌else◌, get_or, eq_string,
}
use prediction_market.Int.{ℤ, pos, add64}
use prediction_market.Dict
use prediction_market.Dict.{Dict}

abbrev pub Positions : Type 0
Positions = Dict String (Dict String Position)

pub record Service : Type 0 where
  pub markets : Dict String Market
  pub orders : Dict String Order
  pub engine_orders : Dict EngineOrderKey String
  pub balances : Dict String ℤ
  pub positions : Positions
  pub sequence : ℕ
  pub failure : Option Error

abbrev pub empty_service : Service
empty_service = record {
  markets = [];
  orders = [];
  engine_orders = [];
  balances = [];
  positions = [];
  sequence = 0;
  failure = none;
}

-- `s.balances[user]`
unfoldable pub balance : Service → String → ℤ
balance s user = get_or (Dict.lookup user s.balances) (pos 0)

-- `s.positions[user]`, nil if there is none
unfoldable pub user_positions : Positions → String → Dict String Position
user_positions ps user = get_or (Dict.lookup user ps) []

-- `s.positions[user][market]`
unfoldable pub position : Service → String → String → Position
unfolding user_positions
position s user market = get_or (Dict.lookup market (user_positions s.positions user)) zero_position

-- `s.balances[user] += amount`
unfoldable pub credit : String → ℤ → Service → Service
unfolding balance
credit user amount s = record s {
  balances = Dict.insert user (add64 (balance s user) amount) s.balances;
}

-- `p := s.positions[user][market]; p.Yes += yes; p.No += no; s.positions[user][market] = p`
unfoldable pub move_shares : String → String → ℤ → ℤ → Service → Service
unfolding position user_positions
move_shares user market yes_delta no_delta s =
    let p = position s user market in
    let p' : Position = record {
      yes_shares = add64 p.yes_shares yes_delta;
      no_shares = add64 p.no_shares no_delta;
    } in
    record s {
      positions =
          Dict.insert user (Dict.insert market p' (user_positions s.positions user)) s.positions;
    }

-- The order statuses that an engine order number is kept for.
unfoldable pub is_live : Status → Bool
is_live Status.pending = true
is_live Status.open_ = true
is_live Status.partial = true
is_live _ = false

-- `delete(s.engineOrders, engineOrderKey{old.MarketID, old.EngineID})` for a known old order
unfoldable pub forget_engine_order :
    Option Order → Dict EngineOrderKey String → Dict EngineOrderKey String
forget_engine_order none ids = ids
forget_engine_order (some old) ids =
    if nat_eq old.engine_id 0 then ids else Dict.delete (engine_key old.market_id old.engine_id) ids

-- The order's part of `apply`: the engine numbers, then the order itself.
unfoldable pub store_order : Order → Service → Service
unfolding forget_engine_order is_live
store_order o s =
    let ids = forget_engine_order (Dict.lookup o.id s.orders) s.engine_orders in
    record s {
      orders = Dict.insert o.id o s.orders;
      engine_orders =
          if not (nat_eq o.engine_id 0) && is_live o.status
          then Dict.insert (engine_key o.market_id o.engine_id) o.id ids
          else ids;
    }

unfoldable pub apply_kind : EventKind → Event → Service → Service
apply_kind EventKind.event_market e s = record s {
  markets = Dict.insert e.market.id e.market s.markets;
}
apply_kind EventKind.event_balance e s = credit e.user_id e.amount s
apply_kind EventKind.event_order e s = credit e.user_id e.amount (store_order e.order s)
apply_kind EventKind.event_position e s =
    credit e.user_id e.amount (move_shares e.user_id e.market_id e.yes_delta e.no_delta s)
apply_kind EventKind.event_trade e s = s
apply_kind (EventKind.other _) e s = s

-- `Service.apply`
unfoldable pub apply : Service → Event → Service
unfolding apply_kind
apply s e =
    apply_kind e.kind e
      (if ltb s.sequence e.sequence then record s { sequence = e.sequence } else s)

-- `for _, e := range events { s.apply(e) }`
unfoldable pub apply_all : Service → List Event → Service
apply_all s [] = s
apply_all s (e ∷ es) = apply_all (apply s e) es

-- ===== src/Ledger/Types.antt =====
-- The types of go-backend/internal/trading/service.go, and the zero values of its structs. Go's
-- zero `Status` and the `Side` values that no constant names are kept as constructors.
use prediction_market.Base.{
  ℕ, String, ◌≡◌, ◌↔◌, Bool, true, false, ◌&&◌, arith, nat_eq, Eq, ◌==◌, List, eq_string,
}
use prediction_market.Int.{ℤ, pos}

pub data Side : Type 0 where
  buy_yes buy_no sell_yes sell_no : Side
  -- any other text, such as a client's
  other : String → Side

pub data Status : Type 0 where
  unset pending open_ partial filled cancelled resolved_yes resolved_no : Status

pub data EventKind : Type 0 where
  event_market event_balance event_order event_position event_trade : EventKind
  other : String → EventKind

-- The errors that the service returns; `external` is one of a library, the engine or the system,
-- and `recovery_required e` is `ErrRecoveryRequired` wrapped round its cause.
pub data Error : Type 0 where
  external : String → Error
  recovery_required : Error → Error
  id_and_symbol_required market_exists symbol_taken : Error
  bad_deposit bad_price bad_side : Error
  quantity_too_large bad_order order_exists market_not_open : Error
  insufficient_balance insufficient_yes insufficient_no insufficient_shares : Error
  order_not_found not_cancellable engine_rejected : Error
  not_market_owner record_too_large corrupt_wal invalid_batch bad_sequence : Error
  bad_result_count snapshot_not_configured quote_unavailable market_not_found : Error

pub record Market : Type 0 where
  pub id : String
  pub symbol : String
  pub owner_id : String
  pub status : Status

pub record Order : Type 0 where
  pub id : String
  pub user_id : String
  pub market_id : String
  pub side : Side
  pub price : ℤ
  pub quantity : ℤ
  pub filled_quantity : ℤ
  pub engine_price : ℤ
  pub engine_side : String
  pub engine_id : ℕ
  pub status : Status
  pub sequence : ℕ

pub record Trade : Type 0 where
  pub market_id : String
  pub buy_order_id : String
  pub sell_order_id : String
  pub price : ℤ
  pub quantity : ℕ

pub record Event : Type 0 where
  pub id : String
  pub sequence : ℕ
  pub kind : EventKind
  pub market : Market
  pub order : Order
  pub trade : Trade
  pub user_id : String
  pub market_id : String
  pub amount : ℤ
  pub yes_delta : ℤ
  pub no_delta : ℤ

pub record EngineTrade : Type 0 where
  pub buy_order_id : ℕ
  pub sell_order_id : ℕ
  pub price : ℤ
  pub quantity : ℕ

pub record EngineResult : Type 0 where
  pub order_id : ℕ
  pub trades : List EngineTrade

pub record Position : Type 0 where
  pub yes_shares : ℤ
  pub no_shares : ℤ

abbrev pub zero_position : Position
zero_position = record { yes_shares = pos 0; no_shares = pos 0 }

abbrev pub zero_market : Market
zero_market = record { id = ""; symbol = ""; owner_id = ""; status = Status.unset }

abbrev pub zero_order : Order
zero_order = record {
  id = "";
  user_id = "";
  market_id = "";
  side = Side.other "";
  price = pos 0;
  quantity = pos 0;
  filled_quantity = pos 0;
  engine_price = pos 0;
  engine_side = "";
  engine_id = 0;
  status = Status.unset;
  sequence = 0;
}

abbrev pub zero_trade : Trade
zero_trade = record {
  market_id = "";
  buy_order_id = "";
  sell_order_id = "";
  price = pos 0;
  quantity = 0;
}

-- The event of a composite literal that names only its type.
abbrev pub zero_event : EventKind → Event
zero_event kind = record {
  id = "";
  sequence = 0;
  kind = kind;
  market = zero_market;
  order = zero_order;
  trade = zero_trade;
  user_id = "";
  market_id = "";
  amount = pos 0;
  yes_delta = pos 0;
  no_delta = pos 0;
}

-- Engine order numbers are local to a market.
pub record EngineOrderKey : Type 0 where
  pub market : String
  pub id : ℕ

abbrev pub engine_key : String → ℕ → EngineOrderKey
engine_key market id = record { market = market; id = id }

abbrev pub engine_key_eq : EngineOrderKey → EngineOrderKey → Bool
engine_key_eq a b = a.market == b.market && nat_eq a.id b.id

pub engine_key_eq_iff : (a b : EngineOrderKey) → (engine_key_eq a b ≡ true) ↔ (a ≡ b)
engine_key_eq_iff a b = (
  λ h. ground (arith, eq_string.equals_iff a.market b.market),
  λ h. ground (arith, eq_string.equals_iff a.market b.market),
)

instance abbrev pub eq_engine_key : Eq EngineOrderKey
eq_engine_key = record { equals = engine_key_eq; equals_iff = engine_key_eq_iff }

-- `==` on two sides
abbrev pub side_eq : Side → Side → Bool
side_eq Side.buy_yes Side.buy_yes = true
side_eq Side.buy_no Side.buy_no = true
side_eq Side.sell_yes Side.sell_yes = true
side_eq Side.sell_no Side.sell_no = true
side_eq (Side.other a) (Side.other b) = a == b
side_eq _ _ = false

abbrev pub is_open : Status → Bool
is_open Status.open_ = true
is_open _ = false

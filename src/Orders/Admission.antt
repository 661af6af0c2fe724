-- ===== src/Orders/Admission.antt =====
-- Which orders `prepareOrder` admits, against a description that does not follow its code.
use prediction_market.Base.{
  ◌^◌, ◌-◌, ◌≡◌, ◌≢◌, ◌↔◌, inl, inr, refl, arith, String, true, false, none, some, List, ◌∷◌,
  Option-cases, eq_string, ltb,
}
use prediction_market.Int.{IsInt64, ℤ, pos, ◌≤ℤ◌, mul64, sub64, uint64}
use prediction_market.Dict
use prediction_market.Ledger.{
  Service, Order, Market, Side, Status, Event, is_open, balance, position,
}
use prediction_market.Result.{ok}
use prediction_market.Orders.{market_open, reservation, reserved_order, admit_order, prepare_order}

-- The order's stake is covered: the cash of a buy order, the shares of a sell order.
abbrev pub IsCovered : Service → Order → Side → Type 0
IsCovered s o Side.buy_yes = mul64 o.price o.quantity ≤ℤ balance s o.user_id
IsCovered s o Side.buy_no = mul64 o.price o.quantity ≤ℤ balance s o.user_id
IsCovered s o Side.sell_yes = o.quantity ≤ℤ (position s o.user_id o.market_id).yes_shares
IsCovered s o Side.sell_no = o.quantity ≤ℤ (position s o.user_id o.market_id).no_shares
IsCovered s o (Side.other _) = ⊥

pub record IsAdmissible (s : Service) (o : Order) : Type 0 where
  pub has_id : o.id ≢ ""
  pub has_user : o.user_id ≢ ""
  pub positive : pos 1 ≤ℤ o.quantity
  pub fits : o.quantity ≤ℤ pos (2 ^ 32 - 1)
  pub fresh : Dict.lookup o.id s.orders ≡ none
  pub open_market :
      (m : Market) × (Dict.lookup o.market_id s.markets ≡ some m) × (m.status ≡ Status.open_)
  pub price_low : pos 1 ≤ℤ o.price
  pub price_high : o.price ≤ℤ pos 99
  pub covered : IsCovered s o o.side

-- The engine's view of an order: a NO order is the complementary order in YES shares.
abbrev pub engine_price_of : Side → ℤ → ℤ
engine_price_of Side.buy_no price = sub64 (pos 100) price
engine_price_of Side.sell_no price = sub64 (pos 100) price
engine_price_of _ price = price

abbrev pub engine_side_of : Side → String
engine_side_of Side.buy_no = "sell"
engine_side_of Side.sell_yes = "sell"
engine_side_of _ = "buy"

abbrev pub reserved_events : Service → Order → List Event
reserved_events s o =
    reservation (reserved_order s o (engine_price_of o.side o.price) (engine_side_of o.side))

-- An admissible order is not refused on any branch.
admit_order_covered :
    (s : Service) (o : Order) (side : Side)
    → o.side ≡ side
    → IsCovered s o side
    → market_open s o.market_id ≡ true
    → pos 1 ≤ℤ o.price
    → o.price ≤ℤ pos 99
    → admit_order s o ≡ ok (reserved_events s o)
unfolding admit_order
admit_order_covered s o Side.buy_yes is c open_ lo hi = ground arith
admit_order_covered s o Side.buy_no is c open_ lo hi = ground arith
admit_order_covered s o Side.sell_yes is c open_ lo hi = ground arith
admit_order_covered s o Side.sell_no is c open_ lo hi = ground arith
admit_order_covered s o (Side.other x) is c open_ lo hi = absurd c

admit_order_inverse :
    (s : Service) (o : Order) (side : Side) (events : List Event)
    → o.side ≡ side
    → admit_order s o ≡ ok events
    → IsCovered s o side
      × (market_open s o.market_id ≡ true)
      × (pos 1 ≤ℤ o.price)
      × (o.price ≤ℤ pos 99)
unfolding admit_order
admit_order_inverse s o Side.buy_yes events is h = ground arith
admit_order_inverse s o Side.buy_no events is h = ground arith
admit_order_inverse s o Side.sell_yes events is h = ground arith
admit_order_inverse s o Side.sell_no events is h = ground arith
admit_order_inverse s o (Side.other x) events is h = absurd (ground arith)

is_open-eq : (status : Status) → is_open status ≡ true → status ≡ Status.open_
is_open-eq Status.open_ h = refl
is_open-eq _ h = cc

market_open_iff :
    (s : Service) (id : String)
    → (market_open s id ≡ true)
      ↔ ((m : Market) × (Dict.lookup id s.markets ≡ some m) × (m.status ≡ Status.open_))
unfolding market_open
market_open_iff s id = (
  λ h. elim (Option-cases (Dict.lookup id s.markets)) [
    | inl missing ↦ absurd (ground arith)
    | inr (m, found) ↦ (m, found, ground (arith, is_open-eq m.status))
  ],
  λ h. ground arith,
)

-- `uint64(o.Quantity) > uint64(^uint32(0))` holds of a positive `int` exactly if it needs more than
-- 32 bits.
pub quantity_fits :
    (q : ℤ) → pos 1 ≤ℤ q → q ≤ℤ pos (2 ^ 32 - 1) → ltb (2 ^ 32 - 1) (uint64 q) ≡ false
quantity_fits q lo hi = ground arith

-- An order is admitted, with the events of its reservation at the engine's price and side, if its
-- id and user are given, its quantity is 1 to 2^32-1, its id is new, its market is open, its price
-- is 1 to 99 cents and its stake is covered.
pub IsAdmissible-prepare_order :
    (s : Service) (o : Order) → IsAdmissible s o → prepare_order s o ≡ ok (reserved_events s o)
unfolding prepare_order
IsAdmissible-prepare_order s o a = ground (
  arith,
  quantity_fits o.quantity,
  eq_string.equals_iff o.id "",
  eq_string.equals_iff o.user_id "",
  (market_open_iff s o.market_id).1 a.open_market,
  admit_order_covered s o o.side refl a.covered,
)

-- What a reservation says of the checks before `admit_order`.
record IsChecked (s : Service) (o : Order) (events : List Event) : Type 0 where
  has_id : o.id ≢ ""
  has_user : o.user_id ≢ ""
  positive : pos 1 ≤ℤ o.quantity
  fits : o.quantity ≤ℤ pos (2 ^ 32 - 1)
  fresh : Dict.lookup o.id s.orders ≡ none
  admitted : admit_order s o ≡ ok events

prepare_order_checks :
    (s : Service) (o : Order) (e : Event) (es : List Event)
    → IsInt64 o.quantity
    → prepare_order s o ≡ ok (e ∷ es)
    → IsChecked s o (e ∷ es)
unfolding prepare_order
prepare_order_checks s o e es range h = elim (Option-cases (Dict.lookup o.id s.orders)) [
  | inr (existing, found) ↦ absurd (ground arith)
  | inl fresh ↦ ground (arith, eq_string.equals_iff o.id "", eq_string.equals_iff o.user_id "")
]

-- If the order's quantity is a 64-bit integer and `prepareOrder` returns events, then its id and
-- user are given, its quantity is 1 to 2^32-1, its id is new, its market is open, its price is 1 to
-- 99 cents and its stake is covered.
pub prepare_order-IsAdmissible :
    (s : Service) (o : Order) (e : Event) (es : List Event)
    → IsInt64 o.quantity
    → prepare_order s o ≡ ok (e ∷ es)
    → IsAdmissible s o
unfolding prepare_order
prepare_order-IsAdmissible s o e es range h =
    let checked = prepare_order_checks s o e es range h in
    let (covered, open_, low, high) =
      admit_order_inverse s o o.side (e ∷ es) refl checked.admitted in
    record {
      has_id = checked.has_id;
      has_user = checked.has_user;
      positive = checked.positive;
      fits = checked.fits;
      fresh = checked.fresh;
      open_market = (market_open_iff s o.market_id).0 open_;
      price_low = low;
      price_high = high;
      covered = covered;
    }

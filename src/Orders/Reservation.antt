-- ===== src/Orders/Reservation.antt =====
-- The reservation of an admitted order in the accounts: nothing is overdrawn, and a release of an
-- unfilled order puts back what was taken.
use prediction_market.Base.{
  ℕ, ◌*◌, ◌^◌, ◌≤◌, ◌<◌, ◌≡◌, arith, String, Bool, true, false, eq_string, ◌==◌, ◌&&◌, not,
  if◌then◌else◌,
}
use prediction_market.Int.{ℤ, pos, ◌+ℤ◌, ◌-ℤ◌, ◌≤ℤ◌, add64, mul64, neg64, int64, IsInt64}
use prediction_market.Int.Laws.{add64_zero, engine_product}
use prediction_market.Ledger.{Service, Order, balance, position, apply, apply_all}
use prediction_market.Ledger.Effects.{balance-apply, position-apply, moved}
use prediction_market.Ledger.Range.{InRange}
use prediction_market.Orders.{stake_events, order_event, shares_event}

-- What a reservation, or a release, leaves in the accounts, wrap-around included.
pub balance-stake_events :
    (b : Bool) (o : Order) (cash y n : ℤ) (s : Service) (v : String)
    → InRange s
    → balance (apply_all s (stake_events b o cash y n)) v
      ≡ (if b && o.user_id == v then add64 (balance s v) cash else balance s v)
unfolding stake_events apply_all
balance-stake_events true o cash y n s v r = balance-apply s (order_event o cash) v
balance-stake_events false o cash y n s v r =
    let s' = apply s (order_event o (pos 0)) in
    ground (
      arith,
      balance-apply s (order_event o (pos 0)) v,
      balance-apply s' (shares_event o y n) v,
      add64_zero (balance s v) (r.cash v),
    )

pub position-stake_events :
    (b : Bool) (o : Order) (cash y n : ℤ) (s : Service) (v k : String)
    → position (apply_all s (stake_events b o cash y n)) v k ≡ (
        if not b && (o.user_id == v && o.market_id == k)
        then moved (position s v k) y n
        else position s v k)
unfolding stake_events apply_all
position-stake_events true o cash y n s v k = position-apply s (order_event o cash) v k
position-stake_events false o cash y n s v k =
    let s' = apply s (order_event o (pos 0)) in
    ground (
      arith,
      position-apply s (order_event o (pos 0)) v k,
      position-apply s' (shares_event o y n) v k,
    )

-- An admissible stake: a price in cents and a quantity that fits the engine.
pub record IsStake (o : Order) : Type 0 where
  pub cents : ℕ
  pub price : o.price ≡ pos cents
  pub price_bound : cents ≤ 99
  pub contracts : ℕ
  pub quantity : o.quantity ≡ pos contracts
  pub quantity_bound : contracts < 2 ^ 32

-- The cost of a stake does not wrap round.
pub IsStake-cost :
    (o : Order) (k : IsStake o) → mul64 o.price o.quantity ≡ pos (k.cents * k.contracts)
IsStake-cost o k =
    rw (k.price, k.quantity)
      (engine_product k.cents k.contracts (omega (arith, k.price_bound)) k.quantity_bound)

pub cost-le : (p q : ℕ) → p ≤ 99 → q < 2 ^ 32 → p * q ≤ 99 * 2 ^ 32
cost-le p q hp hq = grind arith

-- Taking a covered amount out of a balance leaves exactly the rest, which is not negative.
pub take_covered :
    (b : ℤ) (c : ℕ)
    → IsInt64 b
    → c ≤ 99 * 2 ^ 32
    → pos c ≤ℤ b
    → (add64 b (neg64 (pos c)) ≡ b -ℤ pos c) × (pos 0 ≤ℤ add64 b (neg64 (pos c)))
unfolding int64 ◌+ℤ◌ ◌-ℤ◌
take_covered b c range bound h = (ground arith, ground arith)

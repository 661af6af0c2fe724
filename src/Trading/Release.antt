-- ===== src/Trading/Release.antt =====
-- Cancelling an order that nothing of was filled: what `Cancel` and `ResolveFor` release is what
-- `prepareOrder` reserved.
use prediction_market.Base.{◌≡◌, arith, String, ◌==◌, ◌&&◌, not, if◌then◌else◌, eq_string}
use prediction_market.Int.{ℤ, pos, negsuc, add64, sub64, mul64, neg64, int64, IsInt64, ◌-ℤ◌, ◌*ℤ◌}
use prediction_market.Int.Laws.{add64_zero, add64_cancel}
use prediction_market.Ledger.{Service, Order, Side, balance, position, apply_all, side_eq}
use prediction_market.Ledger.Effects.{moved}
use prediction_market.Ledger.Range.{InRange, apply_all-InRange}
use prediction_market.Orders.{is_buy, reservation}
use prediction_market.Orders.Reservation.{balance-stake_events, position-stake_events}
use prediction_market.Trading.Accounts.{release_events}

mul_comm : (a b : ℤ) → a *ℤ b ≡ b *ℤ a
unfolding ◌*ℤ◌
mul_comm (pos a) (pos b) = grind arith
mul_comm (pos a) (negsuc b) = grind arith
mul_comm (negsuc a) (pos b) = grind arith
mul_comm (negsuc a) (negsuc b) = grind arith

sub64_zero : (a : ℤ) → IsInt64 a → sub64 a (pos 0) ≡ a
unfolding int64 ◌-ℤ◌
sub64_zero a h = ground arith

-- The same cash and the same shares in every account.
pub record SameFunds (s t : Service) : Type 0 where
  pub cash : (v : String) → balance t v ≡ balance s v
  pub shares : (v k : String) → position t v k ≡ position s v k

module _ (s : Service) (o : Order) (range : InRange s) (fits : IsInt64 o.quantity)
    (unfilled : o.filled_quantity ≡ pos 0) where
  abbrev reserved : Service
  reserved = apply_all s (reservation o)

  abbrev released : Service
  released = apply_all reserved (release_events o)

  remaining : sub64 o.quantity o.filled_quantity ≡ o.quantity
  remaining = rw unfilled (sub64_zero o.quantity fits)

  cash_taken :
      (v : String)
      → balance reserved v ≡ (
          if is_buy o.side && o.user_id == v
          then add64 (balance s v) (neg64 (mul64 o.price o.quantity))
          else balance s v)
  unfolding reservation
  cash_taken v = balance-stake_events (is_buy o.side) _ _ _ _ s v range

  cash_given :
      (v : String)
      → balance released v ≡ (
          if is_buy o.side && o.user_id == v
          then add64 (balance reserved v) (mul64 (sub64 o.quantity o.filled_quantity) o.price)
          else balance reserved v)
  unfolding release_events
  cash_given v =
      balance-stake_events (is_buy o.side) _ _ _ _ reserved v
        (apply_all-InRange (reservation o) s range)

  cash_back : (v : String) → balance released v ≡ balance s v
  cash_back v = ground (
    arith,
    cash_taken v,
    cash_given v,
    remaining,
    mul_comm o.quantity o.price,
    add64_cancel (balance s v) (mul64 o.price o.quantity) (range.cash v),
  )

  shares_taken :
      (v k : String)
      → position reserved v k ≡ (
          if not (is_buy o.side) && (o.user_id == v && o.market_id == k)
          then moved
              (position s v k)
              (if side_eq o.side Side.sell_yes then neg64 o.quantity else pos 0)
              (if side_eq o.side Side.sell_yes then pos 0 else neg64 o.quantity)
          else position s v k)
  unfolding reservation
  shares_taken v k = position-stake_events (is_buy o.side) _ _ _ _ s v k

  shares_given :
      (v k : String)
      → position released v k ≡ (
          if not (is_buy o.side) && (o.user_id == v && o.market_id == k)
          then moved
              (position reserved v k)
              (if side_eq o.side Side.sell_yes then sub64 o.quantity o.filled_quantity else pos 0)
              (if side_eq o.side Side.sell_yes then pos 0 else sub64 o.quantity o.filled_quantity)
          else position reserved v k)
  unfolding release_events
  shares_given v k = position-stake_events (is_buy o.side) _ _ _ _ reserved v k

  shares_back : (v k : String) → position released v k ≡ position s v k
  shares_back v k =
      let p = position s v k in
      ground (
        arith,
        shares_taken v k,
        shares_given v k,
        remaining,
        add64_cancel p.yes_shares o.quantity (range.yes_shares v k),
        add64_cancel p.no_shares o.quantity (range.no_shares v k),
        add64_zero p.yes_shares (range.yes_shares v k),
        add64_zero p.no_shares (range.no_shares v k),
      )

-- If all amounts in the accounts and the order's quantity are 64-bit integers and nothing of the
-- order is filled, then the events of its reservation followed by those of its release leave the
-- cash and the shares of every account as they were, whatever wraps round in between.
pub release-reservation :
    (s : Service) (o : Order)
    → InRange s
    → IsInt64 o.quantity
    → o.filled_quantity ≡ pos 0
    → SameFunds s (apply_all (apply_all s (reservation o)) (release_events o))
release-reservation s o range fits unfilled = record {
  cash = cash_back s o range fits unfilled;
  shares = shares_back s o range fits unfilled;
}

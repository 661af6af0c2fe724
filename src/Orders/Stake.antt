-- ===== src/Orders/Stake.antt =====
-- The stake of an admissible order in the accounts: what its reservation leaves where it draws on
-- them, without wrap-around.
use prediction_market.Base.{
  ℕ, ◌*◌, ◌^◌, ◌-◌, ◌≤◌, ◌≡◌, refl, subst, arith, String, true, equals_refl, eq_string, ◌==◌, ◌&&◌,
  not, if◌then◌else◌,
}
use prediction_market.Int.{
  ℤ, pos, negsuc, pos_part, ◌-ℤ◌, ◌*ℤ◌, ◌≤ℤ◌, add64, mul64, neg64, int64, IsInt64,
}
use prediction_market.Ledger.{Service, Order, Side, balance, position, apply_all, side_eq}
use prediction_market.Ledger.Effects.{moved}
use prediction_market.Ledger.Range.{InRange}
use prediction_market.Orders.{is_buy, reservation, reserved_order}
use prediction_market.Orders.Admission.{IsAdmissible, IsCovered, reserved_events}
use prediction_market.Orders.Reservation.{
  IsStake, IsStake-cost, cost-le, take_covered, balance-stake_events, position-stake_events,
}

natural : (x : ℤ) (n : ℕ) → pos 1 ≤ℤ x → x ≤ℤ pos n → (x ≡ pos (pos_part x)) × (pos_part x ≤ n)
natural (pos x) n low high = (refl, omega (arith, high))
natural (negsuc x) n low high = absurd (omega (arith, low))

pub IsAdmissible-IsStake : (s : Service) (o : Order) → IsAdmissible s o → IsStake o
IsAdmissible-IsStake s o a =
    let price = natural o.price 99 a.price_low a.price_high in
    let quantity = natural o.quantity (2 ^ 32 - 1) a.positive a.fits in
    record {
      cents = pos_part o.price;
      price = price.0;
      price_bound = price.1;
      contracts = pos_part o.quantity;
      quantity = quantity.0;
      quantity_bound = omega (arith, quantity.1);
    }

IsStake-product : (o : Order) (k : IsStake o) → o.price *ℤ o.quantity ≡ pos (k.cents * k.contracts)
IsStake-product o k = rw (k.price, k.quantity) (unfold ◌*ℤ◌ in grind arith)

covered_cash :
    (s : Service) (o : Order) (side : Side)
    → is_buy side ≡ true
    → IsCovered s o side
    → mul64 o.price o.quantity ≤ℤ balance s o.user_id
unfolding is_buy
covered_cash s o Side.buy_yes h c = c
covered_cash s o Side.buy_no h c = c
covered_cash s o _ h c = cc

module _ (s : Service) (o : Order) (range : InRange s) where
  abbrev pub after : Service
  after = apply_all s (reserved_events s o)

  pub balance-after :
      (v : String)
      → balance after v ≡ (
          if is_buy o.side && o.user_id == v
          then add64 (balance s v) (neg64 (mul64 o.price o.quantity))
          else balance s v)
  unfolding reservation reserved_order
  balance-after v = balance-stake_events (is_buy o.side) _ _ _ _ s v range

  pub position-after :
      (v k : String)
      → position after v k ≡ (
          if not (is_buy o.side) && (o.user_id == v && o.market_id == k)
          then moved
              (position s v k)
              (if side_eq o.side Side.sell_yes then neg64 o.quantity else pos 0)
              (if side_eq o.side Side.sell_yes then pos 0 else neg64 o.quantity)
          else position s v k)
  unfolding reservation reserved_order
  position-after v k = position-stake_events (is_buy o.side) _ _ _ _ s v k

  pub reserved_cash :
      IsAdmissible s o
      → is_buy o.side ≡ true
      → (balance after o.user_id ≡ balance s o.user_id -ℤ o.price *ℤ o.quantity)
        × (pos 0 ≤ℤ balance after o.user_id)
  reserved_cash a buys =
      let k = IsAdmissible-IsStake s o a in
      let covered : mul64 o.price o.quantity ≤ℤ balance s o.user_id =
        covered_cash s o o.side buys a.covered in
      let taken =
        take_covered (balance s o.user_id) (k.cents * k.contracts) (range.cash o.user_id)
          (cost-le k.cents k.contracts k.price_bound k.quantity_bound)
          (subst (λ (x : ℤ). x ≤ℤ balance s o.user_id) (IsStake-cost o k) covered) in
      rw
        (
          balance-after o.user_id,
          buys,
          equals_refl o.user_id,
          IsStake-cost o k,
          IsStake-product o k,
        )
        taken

  taken_shares :
      (held : ℤ)
      → IsAdmissible s o
      → IsInt64 held
      → o.quantity ≤ℤ held
      → (add64 held (neg64 o.quantity) ≡ held -ℤ o.quantity)
        × (pos 0 ≤ℤ add64 held (neg64 o.quantity))
  taken_shares held a h covered =
      let k = IsAdmissible-IsStake s o a in
      let bound : k.contracts ≤ 99 * 2 ^ 32 = omega (arith, k.quantity_bound) in
      let taken =
        take_covered held k.contracts h bound (subst (λ (x : ℤ). x ≤ℤ held) k.quantity covered) in
      rw k.quantity taken

  pub reserved_yes :
      IsAdmissible s o
      → o.side ≡ Side.sell_yes
      → ((position after o.user_id o.market_id).yes_shares
          ≡ (position s o.user_id o.market_id).yes_shares -ℤ o.quantity)
        × (pos 0 ≤ℤ (position after o.user_id o.market_id).yes_shares)
  unfolding is_buy int64
  reserved_yes a sells =
      rw
        (
          position-after o.user_id o.market_id,
          sells,
          equals_refl o.user_id,
          equals_refl o.market_id,
        )
        (taken_shares (position s o.user_id o.market_id).yes_shares a
          (range.yes_shares o.user_id o.market_id)
          (subst (λ (side : Side). IsCovered s o side) sells a.covered))

  pub reserved_no :
      IsAdmissible s o
      → o.side ≡ Side.sell_no
      → ((position after o.user_id o.market_id).no_shares
          ≡ (position s o.user_id o.market_id).no_shares -ℤ o.quantity)
        × (pos 0 ≤ℤ (position after o.user_id o.market_id).no_shares)
  unfolding is_buy int64
  reserved_no a sells =
      rw
        (
          position-after o.user_id o.market_id,
          sells,
          equals_refl o.user_id,
          equals_refl o.market_id,
        )
        (taken_shares (position s o.user_id o.market_id).no_shares a
          (range.no_shares o.user_id o.market_id)
          (subst (λ (side : Side). IsCovered s o side) sells a.covered))

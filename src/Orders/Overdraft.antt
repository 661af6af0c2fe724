-- ===== src/Orders/Overdraft.antt =====
-- No admitted order overdraws an account: what its reservation takes was there, and nothing else
-- is touched.
use prediction_market.Base.{
  ◌≡◌, refl, ◌∙◌, subst, arith, String, List, ◌∷◌, Bool-cases, eq_string, ◌==◌, ◌&&◌, if◌then◌else◌,
  inl, inr,
}
use prediction_market.Int.{ℤ, pos, ◌-ℤ◌, ◌*ℤ◌, ◌≤ℤ◌, IsInt64}
use prediction_market.Ledger.{Service, Order, Side, Event, balance, position, apply_all, side_eq}
use prediction_market.Int.Laws.{add64_zero}
use prediction_market.Ledger.Range.{InRange}
use prediction_market.Result.{ok}
use prediction_market.Orders.{is_buy, prepare_order}
use prediction_market.Orders.Admission.{
  IsAdmissible, prepare_order-IsAdmissible, IsAdmissible-prepare_order, reserved_events,
}
use prediction_market.Orders.Stake.{
  after, balance-after, position-after, reserved_cash, reserved_yes, reserved_no,
}

-- What the order's side draws on: cash, or shares of one outcome.
abbrev pub fund : Service → Order → Side → ℤ
fund s o Side.buy_yes = balance s o.user_id
fund s o Side.buy_no = balance s o.user_id
fund s o Side.sell_yes = (position s o.user_id o.market_id).yes_shares
fund s o Side.sell_no = (position s o.user_id o.market_id).no_shares
fund s o (Side.other _) = pos 0

-- The accounts of `s'` are those of `s` without the order's stake.
pub record IsReserved (s : Service) (o : Order) (s' : Service) : Type 0 where
  pub cash :
      (v : String)
      → balance s' v ≡ (
          if is_buy o.side && o.user_id == v
          then balance s v -ℤ o.price *ℤ o.quantity
          else balance s v)
  pub yes_shares :
      (v k : String)
      → (position s' v k).yes_shares ≡ (
          if side_eq o.side Side.sell_yes && (o.user_id == v && o.market_id == k)
          then (position s v k).yes_shares -ℤ o.quantity
          else (position s v k).yes_shares)
  pub no_shares :
      (v k : String)
      → (position s' v k).no_shares ≡ (
          if side_eq o.side Side.sell_no && (o.user_id == v && o.market_id == k)
          then (position s v k).no_shares -ℤ o.quantity
          else (position s v k).no_shares)
  pub covered : pos 0 ≤ℤ fund s' o o.side

module _ (s : Service) (o : Order) (range : InRange s) where
  cash_left :
      IsAdmissible s o
      → (v : String)
      → balance (after s o range) v ≡ (
          if is_buy o.side && o.user_id == v
          then balance s v -ℤ o.price *ℤ o.quantity
          else balance s v)
  cash_left a v = elim (Bool-cases (is_buy o.side)) [
    | inr sells ↦ rw sells (balance-after s o range v ∙ rw sells refl)
    | inl buys ↦ elim (Bool-cases (o.user_id == v)) [
      | inr miss ↦ rw (buys, miss) (balance-after s o range v ∙ rw (buys, miss) refl)
      | inl hit ↦
          rw (buys, hit)
            (subst
              (λ (w : String). balance (after s o range) w ≡ balance s w -ℤ o.price *ℤ o.quantity)
              ((eq_string.equals_iff o.user_id v).0 hit) (reserved_cash s o range a buys).0)
    ]
  ]

  yes_left :
      IsAdmissible s o
      → (side : Side) (v k : String) → o.side ≡ side
      → (position (after s o range) v k).yes_shares ≡ (
          if side_eq side Side.sell_yes && (o.user_id == v && o.market_id == k)
          then (position s v k).yes_shares -ℤ o.quantity
          else (position s v k).yes_shares)
  unfolding is_buy
  yes_left a Side.sell_yes v k is = ground (
    arith,
    is,
    position-after s o range v k,
    reserved_yes s o range a is,
    eq_string.equals_iff o.user_id v,
    eq_string.equals_iff o.market_id k,
  )
  yes_left a Side.sell_no v k is = ground (
    arith,
    is,
    position-after s o range v k,
    add64_zero (position s v k).yes_shares (range.yes_shares v k),
  )
  yes_left a Side.buy_yes v k is = ground (arith, is, position-after s o range v k)
  yes_left a Side.buy_no v k is = ground (arith, is, position-after s o range v k)
  yes_left a (Side.other x) v k is = absurd (rw is at a.covered)

  no_left :
      IsAdmissible s o
      → (side : Side) (v k : String) → o.side ≡ side
      → (position (after s o range) v k).no_shares ≡ (
          if side_eq side Side.sell_no && (o.user_id == v && o.market_id == k)
          then (position s v k).no_shares -ℤ o.quantity
          else (position s v k).no_shares)
  unfolding is_buy
  no_left a Side.sell_no v k is = ground (
    arith,
    is,
    position-after s o range v k,
    reserved_no s o range a is,
    eq_string.equals_iff o.user_id v,
    eq_string.equals_iff o.market_id k,
  )
  no_left a Side.sell_yes v k is = ground (
    arith,
    is,
    position-after s o range v k,
    add64_zero (position s v k).no_shares (range.no_shares v k),
  )
  no_left a Side.buy_yes v k is = ground (arith, is, position-after s o range v k)
  no_left a Side.buy_no v k is = ground (arith, is, position-after s o range v k)
  no_left a (Side.other x) v k is = absurd (rw is at a.covered)

  fund_left :
      IsAdmissible s o → (side : Side) → o.side ≡ side → pos 0 ≤ℤ fund (after s o range) o side
  unfolding is_buy
  fund_left a Side.buy_yes is = (reserved_cash s o range a (rw is refl)).1
  fund_left a Side.buy_no is = (reserved_cash s o range a (rw is refl)).1
  fund_left a Side.sell_yes is = (reserved_yes s o range a is).1
  fund_left a Side.sell_no is = (reserved_no s o range a is).1
  fund_left a (Side.other x) is = omega arith

  admitted-IsReserved : IsAdmissible s o → IsReserved s o (after s o range)
  admitted-IsReserved a = record {
    cash = cash_left a;
    yes_shares = λ v k. yes_left a o.side v k refl;
    no_shares = λ v k. no_left a o.side v k refl;
    covered = fund_left a o.side refl;
  }

-- If all amounts in the accounts and the order's quantity are 64-bit integers and `prepareOrder`
-- returns events, then applying them takes the order's stake and nothing else: a buy order takes
-- exactly price times quantity, without wrap-around, out of its user's cash, a sell order exactly
-- its quantity out of its user's shares of that outcome in that market, no other balance or
-- position changes, and what was drawn on is not negative afterwards.
pub prepare_order-IsReserved :
    (s : Service) (o : Order) (e : Event) (es : List Event)
    → InRange s
    → IsInt64 o.quantity
    → prepare_order s o ≡ ok (e ∷ es)
    → IsReserved s o (apply_all s (e ∷ es))
prepare_order-IsReserved s o e es range fits h =
    let a : IsAdmissible s o = prepare_order-IsAdmissible s o e es fits h in
    let admitted : prepare_order s o ≡ ok (reserved_events s o) =
      IsAdmissible-prepare_order s o a in
    let same : reserved_events s o ≡ e ∷ es = cc in
    subst (λ (events : List Event). IsReserved s o (apply_all s events)) same
      (admitted-IsReserved s o range a)

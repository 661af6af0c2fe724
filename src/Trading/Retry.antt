-- ===== src/Trading/Retry.antt =====
-- The retry of an order that the service knows: `prepareOrder` and `placeSingle` of
-- go-backend/internal/trading/service.go.
use prediction_market.Base.{
  ◌&&◌, ◌==◌, false, equals_refl, ap, Bool, true, ◌≡◌, ◌≢◌, refl, ◌∙◌, arith, ◌^◌, ◌-◌, none, some,
  List, [], if◌then◌else◌, eq_string, inl, inr, Bool-cases,
}
use prediction_market.Int.{int_eq_iff, eq_int, pos, ◌≤ℤ◌}
use prediction_market.Dict
use prediction_market.Ledger.{Service, Order, Side, side_eq, Error}
use prediction_market.Result.{ok, err}
use prediction_market.Machine.{Action, Backend, Machine, lift, raise_some-none, ◌>>=◌}
use prediction_market.Orders.{same_order, prepare_order}
use prediction_market.Orders.Admission.{quantity_fits}
use prediction_market.Trading.Quotes.{MarketQuote}
use prediction_market.Trading.Place.{place_single, place_prepared}

known_order :
    (s : Service) (o existing : Order)
    → o.id ≢ ""
    → o.user_id ≢ ""
    → pos 1 ≤ℤ o.quantity
    → o.quantity ≤ℤ pos (2 ^ 32 - 1)
    → Dict.lookup o.id s.orders ≡ some existing
    → prepare_order s o ≡ (if same_order existing o then ok [] else err Error.order_exists)
unfolding prepare_order
known_order s o existing has_id has_user low high found = ground (
  arith,
  quantity_fits o.quantity,
  eq_string.equals_iff o.id "",
  eq_string.equals_iff o.user_id "",
)

place_single-answered :
    {W : Type 0} (be : Backend W) (m : Machine W) (o existing : Order)
    → m.service.failure ≡ none
    → o.id ≢ ""
    → o.user_id ≢ ""
    → pos 1 ≤ℤ o.quantity
    → o.quantity ≤ℤ pos (2 ^ 32 - 1)
    → Dict.lookup o.id m.service.orders ≡ some existing
    → place_single be none o m
      ≡ ((if same_order existing o then ok [] else err Error.order_exists), m)
unfolding place_single place_prepared
place_single-answered {W = W} be m o existing running has_id has_user low high found =
    let prepared = known_order m.service o existing has_id has_user low high found in
    let admitted : Action W (List MarketQuote) =
      λ m'. (lift (prepare_order m'.service o) >>= place_prepared be) m' in
    raise_some-none admitted m m.service.failure running
    ∙ elim (Bool-cases (same_order existing o)) [
      | inl same ↦ rw (prepared, same) refl
      | inr other ↦ rw (prepared, other) refl
    ]

-- Two orders of the same user, market, side, price and quantity
pub record IsSame (existing o : Order) : Type 0 where
  pub user : existing.user_id ≡ o.user_id
  pub market : existing.market_id ≡ o.market_id
  pub side : existing.side ≡ o.side
  pub price : existing.price ≡ o.price
  pub quantity : existing.quantity ≡ o.quantity

side_eq-inverse : (a b : Side) → side_eq a b ≡ true → a ≡ b
side_eq-inverse Side.buy_yes Side.buy_yes h = refl
side_eq-inverse Side.buy_yes Side.buy_no h = absurd (cc h)
side_eq-inverse Side.buy_yes Side.sell_yes h = absurd (cc h)
side_eq-inverse Side.buy_yes Side.sell_no h = absurd (cc h)
side_eq-inverse Side.buy_yes (Side.other b) h = absurd (cc h)
side_eq-inverse Side.buy_no Side.buy_yes h = absurd (cc h)
side_eq-inverse Side.buy_no Side.buy_no h = refl
side_eq-inverse Side.buy_no Side.sell_yes h = absurd (cc h)
side_eq-inverse Side.buy_no Side.sell_no h = absurd (cc h)
side_eq-inverse Side.buy_no (Side.other b) h = absurd (cc h)
side_eq-inverse Side.sell_yes Side.buy_yes h = absurd (cc h)
side_eq-inverse Side.sell_yes Side.buy_no h = absurd (cc h)
side_eq-inverse Side.sell_yes Side.sell_yes h = refl
side_eq-inverse Side.sell_yes Side.sell_no h = absurd (cc h)
side_eq-inverse Side.sell_yes (Side.other b) h = absurd (cc h)
side_eq-inverse Side.sell_no Side.buy_yes h = absurd (cc h)
side_eq-inverse Side.sell_no Side.buy_no h = absurd (cc h)
side_eq-inverse Side.sell_no Side.sell_yes h = absurd (cc h)
side_eq-inverse Side.sell_no Side.sell_no h = refl
side_eq-inverse Side.sell_no (Side.other b) h = absurd (cc h)
side_eq-inverse (Side.other a) Side.buy_yes h = absurd (cc h)
side_eq-inverse (Side.other a) Side.buy_no h = absurd (cc h)
side_eq-inverse (Side.other a) Side.sell_yes h = absurd (cc h)
side_eq-inverse (Side.other a) Side.sell_no h = absurd (cc h)
side_eq-inverse (Side.other a) (Side.other b) h = ap Side.other ((eq_string.equals_iff a b).0 h)

side_eq_self : (a : Side) → side_eq a a ≡ true
side_eq_self Side.buy_yes = refl
side_eq_self Side.buy_no = refl
side_eq_self Side.sell_yes = refl
side_eq_self Side.sell_no = refl
side_eq_self (Side.other a) = equals_refl a

both_true : (a b : Bool) → (a && b) ≡ true → (a ≡ true) × (b ≡ true)
both_true true b h = (refl, h)
both_true false b h = absurd (cc h)

same_order-IsSame : (existing o : Order) → same_order existing o ≡ true → IsSame existing o
unfolding same_order
same_order-IsSame existing o h =
    let (user, h₁) = both_true (existing.user_id == o.user_id) _ h in
    let (market, h₂) = both_true (existing.market_id == o.market_id) _ h₁ in
    let (side, h₃) = both_true (side_eq existing.side o.side) _ h₂ in
    let (price, quantity) = both_true (existing.price == o.price) _ h₃ in
    record {
      user = (eq_string.equals_iff existing.user_id o.user_id).0 user;
      market = (eq_string.equals_iff existing.market_id o.market_id).0 market;
      side = side_eq-inverse existing.side o.side side;
      price = (int_eq_iff existing.price o.price).0 price;
      quantity = (int_eq_iff existing.quantity o.quantity).0 quantity;
    }

IsSame-same_order : (existing o : Order) → IsSame existing o → same_order existing o ≡ true
unfolding same_order
IsSame-same_order existing o same =
    rw
      (
        (eq_string.equals_iff existing.user_id o.user_id).1 same.user,
        (eq_string.equals_iff existing.market_id o.market_id).1 same.market,
        same.side,
        side_eq_self o.side,
        (int_eq_iff existing.price o.price).1 same.price,
        (int_eq_iff existing.quantity o.quantity).1 same.quantity,
      )
      refl

-- With no failure and no context error, an order that names its id and its user, with a quantity
-- of 1 to 2^32-1, whose id is known already is answered without a change of the machine: with
-- success and no quotes if user, market, side, price and quantity are those of the known order,
-- and with the error that the order exists if one of them is not.
pub place_single-known :
    {W : Type 0} (be : Backend W) (m : Machine W) (o existing : Order)
    → m.service.failure ≡ none
    → o.id ≢ ""
    → o.user_id ≢ ""
    → pos 1 ≤ℤ o.quantity
    → o.quantity ≤ℤ pos (2 ^ 32 - 1)
    → Dict.lookup o.id m.service.orders ≡ some existing
    → (IsSame existing o → place_single be none o m ≡ (ok [], m))
      × ((IsSame existing o → ⊥) → place_single be none o m ≡ (err Error.order_exists, m))
place_single-known be m o existing running has_id has_user low high found =
    let answered = place_single-answered be m o existing running has_id has_user low high found in
    (
      λ same.
          answered
          ∙ ap (λ (b : Bool). (if b then ok [] else err Error.order_exists, m))
              (IsSame-same_order existing o same),
      λ differs. elim (Bool-cases (same_order existing o)) [
        | inl same ↦ absurd (differs (same_order-IsSame existing o same))
        | inr other ↦
            answered ∙ ap (λ (b : Bool). (if b then ok [] else err Error.order_exists, m)) other
      ],
    )

-- ===== src/Trades/Accounting.antt =====
-- What one fill moves, by the sides of its two orders. The engine pairs an order on its buy side
-- (`buy_yes`, `sell_no`) with one on its sell side (`sell_yes`, `buy_no`).
use prediction_market.Base.{
  ℕ, ◌+◌, ◌-◌, ◌*◌, ◌^◌, ◌≤◌, ◌<◌, ◌≡◌, refl, Bool, true, false, arith, ap,
}
use prediction_market.Int.{ℤ, pos, pos_part, neg_part, ◌+ℤ◌, ◌-ℤ◌, ◌*ℤ◌}
use prediction_market.Int.Laws.{
  int_laws, price_product, engine_product, complement_price, scale_parts,
}
use prediction_market.Ledger.{Side}
use prediction_market.Trades.{fill_yes, fill_no, fill_credit}

abbrev pub on_buy_side : Side → Bool
on_buy_side Side.buy_yes = true
on_buy_side Side.sell_no = true
on_buy_side _ = false

abbrev pub on_sell_side : Side → Bool
on_sell_side Side.sell_yes = true
on_sell_side Side.buy_no = true
on_sell_side _ = false

-- What the order had set aside for `qty` of its quantity: cash at its own price, or shares.
abbrev pub cash_stake : Side → ℕ → ℕ → ℤ
cash_stake Side.buy_yes price qty = pos (price * qty)
cash_stake Side.buy_no price qty = pos (price * qty)
cash_stake _ price qty = pos 0

abbrev pub yes_stake : Side → ℤ → ℤ
yes_stake Side.sell_yes qty = qty
yes_stake _ qty = pos 0

abbrev pub no_stake : Side → ℤ → ℤ
no_stake Side.sell_no qty = qty
no_stake _ qty = pos 0

-- The shares that an order's fill adds to those held and set aside.
abbrev pub new_yes : Side → ℤ → ℤ
new_yes side qty = fill_yes side qty -ℤ yes_stake side qty

abbrev pub new_no : Side → ℤ → ℤ
new_no side qty = fill_no side qty -ℤ no_stake side qty

-- The credit of an order by its side, in products that `omega` reads.
abbrev Credit : Side → ℕ → ℕ → ℕ → ℤ → Type 0
Credit Side.buy_yes p q e c = pos_part c + e * q ≡ neg_part c + p * q
Credit Side.buy_no p q e c = pos_part c + (100 - e) * q ≡ neg_part c + p * q
Credit Side.sell_yes p q e c = pos_part c ≡ neg_part c + e * q
Credit Side.sell_no p q e c = pos_part c ≡ neg_part c + (100 - e) * q
Credit (Side.other _) p q e c = pos_part c ≡ neg_part c

fill_credit-Credit :
    (side : Side) (p q e : ℕ)
    → p ≤ 100
    → e ≤ 100
    → q < 2 ^ 32
    → Credit side p q e (fill_credit side (pos p) (pos q) (pos e))
unfolding fill_credit
fill_credit-Credit Side.buy_yes p q e hp he hq = price_product p e q hp he hq
fill_credit-Credit Side.buy_no p q e hp he hq =
    rw (complement_price e he) (price_product p (100 - e) q hp (omega arith) hq)
fill_credit-Credit Side.sell_yes p q e hp he hq = rw (engine_product e q he hq) (omega arith)
fill_credit-Credit Side.sell_no p q e hp he hq =
    rw (complement_price e he, engine_product (100 - e) q (omega arith) hq) (omega arith)
fill_credit-Credit (Side.other _) p q e hp he hq = refl

split_hundred : (e q : ℕ) → e ≤ 100 → e * q + (100 - e) * q ≡ 100 * q
split_hundred e q he =
    let whole : e + (100 - e) ≡ 100 = omega arith in omega (arith, ap (λ (t : ℕ). t * q) whole)

-- A fill makes as many YES as NO shares, and its credits, with 100 cents for each new pair, are
-- the cash that the two orders had set aside.
pub fill_balanced :
    (b s : Side) (pb ps q e : ℕ)
    → on_buy_side b ≡ true
    → on_sell_side s ≡ true
    → pb ≤ 100
    → ps ≤ 100
    → e ≤ 100
    → q < 2 ^ 32
    → (new_yes b (pos q) +ℤ new_yes s (pos q) ≡ new_no b (pos q) +ℤ new_no s (pos q))
      × (fill_credit b (pos pb) (pos q) (pos e)
            +ℤ fill_credit s (pos ps) (pos q) (pos e)
            +ℤ pos 100 *ℤ (new_yes b (pos q) +ℤ new_yes s (pos q))
          ≡ cash_stake b pb q +ℤ cash_stake s ps q)
unfolding fill_yes fill_no
fill_balanced Side.buy_yes Side.sell_yes pb ps q e hb hs h1 h2 h3 h4 = (
  omega int_laws,
  omega (
    int_laws,
    scale_parts,
    fill_credit-Credit Side.buy_yes pb q e h1 h3 h4,
    fill_credit-Credit Side.sell_yes ps q e h2 h3 h4,
    split_hundred e q h3,
  ),
)
fill_balanced Side.sell_no Side.sell_yes pb ps q e hb hs h1 h2 h3 h4 = (
  omega int_laws,
  omega (
    int_laws,
    scale_parts,
    fill_credit-Credit Side.sell_no pb q e h1 h3 h4,
    fill_credit-Credit Side.sell_yes ps q e h2 h3 h4,
    split_hundred e q h3,
  ),
)
fill_balanced b s pb ps q e hb hs h1 h2 h3 h4 = (
  first_of (cc, omega int_laws),
  first_of (
    cc,
    omega (
      int_laws,
      scale_parts,
      fill_credit-Credit b pb q e h1 h3 h4,
      fill_credit-Credit s ps q e h2 h3 h4,
      split_hundred e q h3,
    ),
  ),
)

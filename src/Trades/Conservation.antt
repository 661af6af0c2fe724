-- ===== src/Trades/Conservation.antt =====
-- Conservation through `buildTradeEvents`: whatever fills the engine reports, the cash and the
-- shares that come out are those that the filled orders had set aside.
use prediction_market.Base.{
  ◌^◌, ◌≤◌, ◌<◌, ◌≡◌, refl, String, true, arith, Option, some, List, [], ◌∷◌, eq_string, sym, ◌∙◌,
}
use prediction_market.Int.{ℤ, pos, pos_part, ◌+ℤ◌}
use prediction_market.Int.Laws.{int_laws, scale_parts, parts_eq}
use prediction_market.Dict
use prediction_market.Dict.{Dict, lookup-insert}
use prediction_market.Ledger.{Service, Order, Side, EngineTrade, EngineOrderKey, Event}
use prediction_market.Trades.{
  Staged, staged_order, filled_order, fill_position, fill_events, trade_events, find_order,
  order_stored, found_events, fill_round, build_trade_events, fill_credit,
}
use prediction_market.Trades.Accounting.{
  on_buy_side, on_sell_side, cash_stake, yes_stake, no_stake, fill_balanced,
}
use prediction_market.Trades.Totals.{
  Taken, nothing, both, IsBalanced, IsBalanced-nil, IsBalanced-append,
}

-- The part of an order that a fill does not change.
pub record Terms : Type 0 where
  pub side : Side
  pub price : ℤ

abbrev pub terms_of : Order → Terms
terms_of o = record { side = o.side; price = o.price }

-- What the two orders of a fill had set aside for its quantity.
abbrev pub taken_by : Terms → Terms → EngineTrade → Taken
taken_by b s fill = record {
  cash =
      cash_stake b.side (pos_part b.price) fill.quantity
      +ℤ cash_stake s.side (pos_part s.price) fill.quantity;
  yes_shares = yes_stake b.side (pos fill.quantity) +ℤ yes_stake s.side (pos fill.quantity);
  no_shares = no_stake b.side (pos fill.quantity) +ℤ no_stake s.side (pos fill.quantity);
}

-- A fill as the engine may report it: a buy order against a sell order, at prices of at most 100
-- cents and a 32-bit quantity.
pub record IsMatch (b s : Terms) (fill : EngineTrade) : Type 0 where
  pub buys : on_buy_side b.side ≡ true
  pub sells : on_sell_side s.side ≡ true
  pub bid : b.price ≡ pos (pos_part b.price)
  pub bid_bound : pos_part b.price ≤ 100
  pub ask : s.price ≡ pos (pos_part s.price)
  pub ask_bound : pos_part s.price ≤ 100
  pub price : fill.price ≡ pos (pos_part fill.price)
  pub price_bound : pos_part fill.price ≤ 100
  pub quantity_bound : fill.quantity < 2 ^ 32

-- The events of one fill, for its two orders with the fill counted.
pair-IsBalanced :
    (x y : Order) (fill : EngineTrade) (traded : Event)
    → traded.amount ≡ pos 0
    → traded.yes_delta ≡ pos 0
    → traded.no_delta ≡ pos 0
    → IsMatch (terms_of x) (terms_of y) fill
    → IsBalanced
        (order_stored x
          ∷ fill_position x (pos fill.quantity) fill.price
          ∷ order_stored y
          ∷ fill_position y (pos fill.quantity) fill.price
          ∷ traded
          ∷ [])
        (taken_by (terms_of x) (terms_of y) fill)
unfolding fill_position
pair-IsBalanced x y fill traded z₁ z₂ z₃ m =
    let q = pos fill.quantity in
    let both_sides =
      fill_balanced x.side y.side (pos_part x.price) (pos_part y.price) fill.quantity
        (pos_part fill.price) m.buys m.sells m.bid_bound m.ask_bound m.price_bound
        m.quantity_bound in
    let bought : fill_credit x.side x.price q fill.price
        ≡ fill_credit x.side (pos (pos_part x.price)) q (pos (pos_part fill.price)) =
      cc in
    let sold : fill_credit y.side y.price q fill.price
        ≡ fill_credit y.side (pos (pos_part y.price)) q (pos (pos_part fill.price)) =
      cc in
    record {
      pairs = omega (int_laws, parts_eq z₂, parts_eq z₃, parts_eq both_sides.0);
      cash = omega (
        int_laws,
        scale_parts,
        parts_eq z₁,
        parts_eq z₂,
        parts_eq bought,
        parts_eq sold,
        parts_eq both_sides.1,
      );
    }

-- A fill of an order that is not known takes nothing.
abbrev pub taken_by_found : (String → Terms) → EngineTrade → Option String → Option String → Taken
taken_by_found terms fill (some b) (some a) = taken_by (terms b) (terms a) fill
taken_by_found terms fill _ _ = nothing

-- Two orders that are both known make a match.
abbrev pub MatchFound : (String → Terms) → EngineTrade → Option String → Option String → Type 0
MatchFound terms fill (some b) (some a) = IsMatch (terms b) (terms a) fill
MatchFound terms fill _ _ = Unit

module _ (s : Service) (market_id : String) (overrides : Dict EngineOrderKey String)
    (terms : String → Terms) where
  -- The staged orders have the terms that `terms` gives.
  abbrev HasTerms : Staged → Type 0
  HasTerms staged = (id : String) → terms_of (staged_order s staged id) ≡ terms id

  abbrev pub taken_by_round : EngineTrade → Taken
  taken_by_round fill =
      taken_by_found terms fill (find_order s overrides market_id fill.buy_order_id)
        (find_order s overrides market_id fill.sell_order_id)

  abbrev pub taken_by_all : List EngineTrade → Taken
  taken_by_all [] = nothing
  taken_by_all (fill ∷ fills) = both (taken_by_round fill) (taken_by_all fills)

  -- Every fill between two known orders is a match.
  abbrev pub AllMatch : List EngineTrade → Type 0
  AllMatch [] = Unit
  AllMatch (fill ∷ fills) =
      MatchFound terms fill (find_order s overrides market_id fill.buy_order_id)
        (find_order s overrides market_id fill.sell_order_id)
      × AllMatch fills

  fill_keeps_terms :
      (staged : Staged) (id : String) (qty : ℤ)
      → HasTerms staged
      → HasTerms (Dict.insert id (filled_order (staged_order s staged id) qty) staged)
  unfolding staged_order filled_order
  fill_keeps_terms staged id qty h j = ground (
    arith,
    lookup-insert id j (filled_order (staged_order s staged id) qty) staged,
    eq_string.equals_iff id j,
    h id,
    h j,
  )

  trade_events-HasTerms :
      (staged : Staged) (b a : String) (fill : EngineTrade)
      → HasTerms staged
      → HasTerms (trade_events s market_id fill staged b a).1
  unfolding trade_events fill_events
  trade_events-HasTerms staged b a fill h =
      fill_keeps_terms
        (Dict.insert b (filled_order (staged_order s staged b) (pos fill.quantity)) staged) a
        (pos fill.quantity) (fill_keeps_terms staged b (pos fill.quantity) h)

  terms-filled_order : (o : Order) (qty : ℤ) → terms_of (filled_order o qty) ≡ terms_of o
  unfolding filled_order
  terms-filled_order o qty = refl

  trade_events-IsBalanced :
      (staged : Staged) (b a : String) (fill : EngineTrade)
      → HasTerms staged
      → IsMatch (terms b) (terms a) fill
      → IsBalanced (trade_events s market_id fill staged b a).0 (taken_by (terms b) (terms a) fill)
  unfolding trade_events fill_events
  trade_events-IsBalanced staged b a fill h m =
      let q = pos fill.quantity in
      let x = filled_order (staged_order s staged b) q in
      let staged' = Dict.insert b x staged in
      let y = filled_order (staged_order s staged' a) q in
      let x_terms : terms b ≡ terms_of x =
        sym (terms-filled_order (staged_order s staged b) q ∙ h b) in
      let y_terms : terms a ≡ terms_of y =
        sym (terms-filled_order (staged_order s staged' a) q ∙ fill_keeps_terms staged b q h a) in
      rw (x_terms, y_terms)
        (pair-IsBalanced x y fill _ refl refl refl (rw (← x_terms, ← y_terms) m))

  found_events-IsBalanced :
      (staged : Staged) (fill : EngineTrade) (buy sell : Option String)
      → HasTerms staged
      → MatchFound terms fill buy sell
      → IsBalanced
          (found_events s market_id fill staged buy sell).0
          (taken_by_found terms fill buy sell)
        × HasTerms (found_events s market_id fill staged buy sell).1
  unfolding found_events
  found_events-IsBalanced staged fill (some b) (some a) h m =
      (trade_events-IsBalanced staged b a fill h m, trade_events-HasTerms staged b a fill h)
  found_events-IsBalanced staged fill _ _ h m = (IsBalanced-nil, h)

  fill_round-IsBalanced :
      (staged : Staged) (fill : EngineTrade)
      → HasTerms staged
      → MatchFound terms fill
          (find_order s overrides market_id fill.buy_order_id)
          (find_order s overrides market_id fill.sell_order_id)
      → IsBalanced (fill_round s market_id overrides staged fill).0 (taken_by_round fill)
        × HasTerms (fill_round s market_id overrides staged fill).1
  unfolding fill_round
  fill_round-IsBalanced staged fill =
      found_events-IsBalanced staged fill (find_order s overrides market_id fill.buy_order_id)
        (find_order s overrides market_id fill.sell_order_id)

  all-IsBalanced :
      (staged : Staged) (fills : List EngineTrade)
      → HasTerms staged
      → AllMatch fills
      → IsBalanced (build_trade_events s market_id fills overrides staged).0 (taken_by_all fills)
  unfolding build_trade_events
  all-IsBalanced staged [] h m = IsBalanced-nil
  all-IsBalanced staged (fill ∷ fills) h m =
      let round = fill_round-IsBalanced staged fill h m.0 in
      let (events, staged') = fill_round s market_id overrides staged fill in
      IsBalanced-append events (build_trade_events s market_id fills overrides staged').0
        (taken_by_round fill) (taken_by_all fills) round.0
        (all-IsBalanced staged' fills round.1 m.1)

-- The side and the price of each order, as the loop finds it.
abbrev pub staged_terms : Service → Staged → String → Terms
staged_terms s staged id = terms_of (staged_order s staged id)

-- If every fill between two known orders is a buy against a sell, at prices of at most 100 cents
-- and a 32-bit quantity, then the events built from the fills bring as many new YES as new NO
-- shares into being, and the cash that they give back, with 100 cents for each new pair, is the
-- cash that the filled orders had set aside. Fills of unknown orders move nothing.
pub build_trade_events-IsBalanced :
    (s : Service) (market_id : String) (fills : List EngineTrade)
    (overrides : Dict EngineOrderKey String) (staged : Staged)
    → AllMatch s market_id overrides (staged_terms s staged) fills
    → IsBalanced
        (build_trade_events s market_id fills overrides staged).0
        (taken_by_all s market_id overrides (staged_terms s staged) fills)
build_trade_events-IsBalanced s market_id fills overrides staged m =
    all-IsBalanced s market_id overrides (staged_terms s staged) staged fills (λ id. refl) m

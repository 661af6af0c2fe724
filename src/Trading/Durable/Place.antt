-- ===== src/Trading/Durable/Place.antt =====
-- `placeSingle` of go-backend/internal/trading/service.go on a durable state.
use prediction_market.Base.{arith, List, [], ◌∷◌, eq_string}
use prediction_market.Ledger.{Order, Event, EngineResult}
use prediction_market.Machine.{Backend, Engine, lift, gets, outside}
use prediction_market.Orders.{prepare_order}
use prediction_market.Wal.{commit_many}
use prediction_market.Wal.Spends.{
  Spends, IsSized, Spends-Option, Spends-Result, Spends-bind, Spends-free, Spends-le, Spends-pure,
  Spends-fail, Spends-gets, Spends-outside, Spends-lift, Spends-commit_many,
}
use prediction_market.Trading.Accounts.{Context}
use prediction_market.Trading.Place.{
  submit, complete, opened_order, match_order, place_prepared, place_single,
}
use prediction_market.Trading.Durable.{Spends-read_quotes, Spends-checks}

module _ {W : Type 0} (be : Backend W) (sized : IsSized be) where
  Spends-submit : (engine : Engine W) (o : Order) → Spends be 0 (submit be engine o)
  unfolding submit
  Spends-submit engine o = Spends-free be 0 (gets (λ s. s)) _ (Spends-gets be _) (λ s.
      Spends-free be 0 (outside (engine.add_order _)) _ (Spends-outside be _)
        (λ r. Spends-Result be 0 r _ _ (Spends-fail be) (Spends-pure be)))

  Spends-complete : (o : Order) (r : EngineResult) → Spends be 1 (complete be o r)
  unfolding complete
  Spends-complete o r = Spends-free be 1 (gets (λ s. s)) _ (Spends-gets be _) (λ s.
      Spends-bind be 1 0 (commit_many be _) _ (Spends-commit_many be _ _ sized)
        (λ _. Spends-read_quotes be (o.market_id ∷ []) []))

  Spends-match_order : (o : Order) → Spends be 1 (match_order be o)
  unfolding match_order
  Spends-match_order o =
      Spends-Option be 1 be.engine _ _
        (Spends-bind be 1 0 (commit_many be _) _ (Spends-commit_many be _ [] sized)
          (λ _. Spends-pure be []))
        (λ engine.
          Spends-free be 1 (submit be engine o) _ (Spends-submit engine o)
            (λ r. Spends-complete (opened_order be o r) r))

  Spends-place_prepared : (es : List Event) → Spends be 2 (place_prepared be es)
  unfolding place_prepared
  Spends-place_prepared [] = Spends-le be 0 2 _ (omega arith) (Spends-pure be [])
  Spends-place_prepared (e ∷ es) =
      Spends-bind be 1 1 (commit_many be (e ∷ es)) _ (Spends-commit_many be e es sized)
        (λ _. Spends-match_order e.order)

  pub Spends-place_single : (ctx : Context) (o : Order) → Spends be 2 (place_single be ctx o)
  unfolding place_single
  Spends-place_single ctx o = Spends-checks be 2 ctx _ (
      Spends-free be 2 (gets (λ s. s)) _ (Spends-gets be _) (λ s.
        Spends-free be 2 (lift (prepare_order s o)) _ (Spends-lift be _) Spends-place_prepared))

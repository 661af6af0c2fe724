-- ===== src/Trading/Durable/Resolve.antt =====
-- `ResolveFor` of go-backend/internal/trading/service.go on a durable state.
use prediction_market.Base.{
  arith, String, Bool, ◌&&◌, not, List, [], ◌∷◌, ◌++◌, ◌==◌, eq_string, get_or,
}
use prediction_market.Dict
use prediction_market.Dict.{Dict}
use prediction_market.Ledger.{Order, Market, Event, Error, zero_order}
use prediction_market.Machine.{Backend, gets, outside, raise_if}
use prediction_market.Wal.{commit_many}
use prediction_market.Wal.Spends.{
  Spends, IsSized, Spends-Option, Spends-bind, Spends-free, Spends-le, Spends-pure, Spends-raise,
  Spends-gets, Spends-outside, Spends-raise_if, Spends-commit_many,
}
use prediction_market.Trading.Accounts.{Context, release_events}
use prediction_market.Trading.Resolve.{
  withdraw_order, withdraw_all, settle, resolve_for, open_market,
}
use prediction_market.Trading.Durable.{Spends-checks, Spends-removed}

module _ {W : Type 0} (be : Backend W) (sized : IsSized be) where
  -- A list that ends in an event is not empty.
  Spends-last :
      (xs ys : List Event) (e : Event) → Spends be 1 (commit_many be (xs ++ (ys ++ e ∷ [])))
  Spends-last [] [] e = Spends-commit_many be e [] sized
  Spends-last [] (y ∷ ys) e = Spends-commit_many be y (ys ++ e ∷ []) sized
  Spends-last (x ∷ xs) ys e = Spends-commit_many be x (xs ++ (ys ++ e ∷ [])) sized

  Spends-withdraw_order : (symbol : String) (o : Order) → Spends be 0 (withdraw_order be symbol o)
  unfolding withdraw_order
  Spends-withdraw_order symbol o = Spends-Option be 0 be.engine _ _ (Spends-pure be tt) (λ engine.
      Spends-free be 0 (outside (engine.remove_order symbol o.engine_id)) _ (Spends-outside be _)
        (Spends-removed be sized))

  Spends-withdraw_all :
      (symbol : String) (ids : List String) → Spends be 0 (withdraw_all be symbol ids)
  unfolding withdraw_all
  Spends-withdraw_all symbol [] = Spends-pure be []
  Spends-withdraw_all symbol (id ∷ ids) =
      let rest = Spends-withdraw_all symbol ids in
      Spends-free be 0 (gets (λ s. get_or (Dict.lookup id s.orders) zero_order)) _
        (Spends-gets be _)
        (λ o. Spends-free be 0 (withdraw_order be symbol o) _ (Spends-withdraw_order symbol o) (λ _.
          Spends-free be 0 (withdraw_all be symbol ids) _ rest
            (λ found. Spends-pure be (release_events o ++ found))))

  Spends-settle : (m : Market) (id : String) (won : Bool) → Spends be 1 (settle be m id won)
  unfolding settle
  Spends-settle m id won = Spends-free be 1 (gets (λ s. s)) _ (Spends-gets be _) (λ s.
      Spends-free be 1 (withdraw_all be m.symbol _) _ (Spends-withdraw_all m.symbol _) (λ released.
        Spends-bind be 1 0 (commit_many be _) _ (Spends-last released _ _) (λ _.
          Spends-free be 0 (gets (λ s. s.sequence)) _ (Spends-gets be _)
            (λ sequence. Spends-pure be _))))

  pub Spends-resolve_for :
      (ctx : Context) (id : String) (won : Bool) (owner_id : String)
      → Spends be 1 (resolve_for be ctx id won owner_id)
  unfolding resolve_for
  Spends-resolve_for ctx id won owner_id = Spends-checks be 1 ctx _ (
      Spends-free be 1 (gets (open_market id)) _ (Spends-gets be _) (λ found.
        Spends-Option be 1 found _ _
          (Spends-le be 0 1 _ (omega arith) (Spends-raise be Error.market_not_open))
          (λ m.
            Spends-free be 1
              (raise_if (not (m.owner_id == "") && not (m.owner_id == owner_id))
                Error.not_market_owner)
              _ (Spends-raise_if be _ _) (λ _. Spends-settle m id won))))

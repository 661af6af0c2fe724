-- ===== src/Trading/Durable.antt =====
-- The operations of go-backend/internal/trading/service.go on a durable state: each ends durable,
-- or stopped with files that a restart can read.
pub mod Place
pub mod Resolve
pub mod Requests
pub mod Batch
pub mod Work
use prediction_market.Base.{
  ℕ, ◌+◌, ◌≡◌, refl, arith, String, Bool, true, false, ◌&&◌, ◌||◌, not, Option, none, some, List,
  [], ◌∷◌, ◌++◌, Option-cases, inl, inr, if◌then◌else◌, ◌==◌, eq_string, get_or,
}
use prediction_market.Dict
use prediction_market.Dict.{Dict}
use prediction_market.Int.{ℤ}
use prediction_market.Ledger.{
  Service, Order, Market, Event, EngineResult, Error, is_open, zero_order,
}
use prediction_market.Result.{Result, ok, err}
use prediction_market.Machine.{
  Action, Backend, Engine, EngineQuote, EngineOrder, fail, pure, raise, lift, gets, outside, call,
  raise_if, raise_some, ◌>>=◌, ◌>>◌,
}
use prediction_market.Orders.{is_buy, prepare_order, stake_events}
use prediction_market.Wal.{commit_many}
use prediction_market.Wal.Spends.{
  Spends, IsSized, Spends-Option, Spends-Result, Spends-call, Spends-bind, Spends-free, Spends-if,
  Spends-le, Spends-pure, Spends-raise, Spends-fail, Spends-gets, Spends-outside, Spends-lift,
  Spends-raise_if, Spends-raise_some, Spends-commit_many,
}
use prediction_market.Trading.Quotes.{
  MarketQuote, market_of, quote_engine, ask_engine, read_quote, read_each, read_quotes, open_quote,
  quote_market, quote, market_with_symbol, quotes_by_symbol,
}
use prediction_market.Trading.Accounts.{
  Context, symbol_used, deposit, add_book, known_market, new_market, create_market_for,
  remove_resting, cancel_order, cancel, own_order, release_events, is_cancellable,
}
use prediction_market.Trading.Place.{
  apply_trades, submit, complete, opened_order, match_order, place_prepared, place_single,
}
use prediction_market.Trading.Resolve.{
  withdraw_order, withdraw_all, settle, resolve_for, open_market,
}

-- What `Cancel` and `ResolveFor` make of the engine's answer.
abbrev pub after_removal : {W : Type 0} → Result Bool → Action W (Unit {0})
after_removal (err e) = fail e
after_removal (ok true) = pure tt
after_removal (ok false) = raise Error.engine_rejected

module _ {W : Type 0} (be : Backend W) where
  Spends-ask_engine : (symbol : String) → Spends be 0 (ask_engine be symbol)
  unfolding ask_engine
  Spends-ask_engine symbol = Spends-Option be 0 (quote_engine be) _ _ (Spends-pure be none) (λ ask.
      record {
        ends = λ j m durable room.
            (record { restored = durable.restored; whole = durable.whole }, omega (arith, room));
      })

  Spends-read_quote :
      (supplied : Dict String EngineQuote) (symbol : String)
      → Spends be 0 (read_quote be supplied symbol)
  unfolding read_quote
  Spends-read_quote supplied symbol =
      Spends-Option be 0 (Dict.lookup symbol supplied) _ _ (Spends-ask_engine symbol)
        (λ q. Spends-pure be (some q))

  Spends-read_each :
      (supplied : Dict String EngineQuote) (seen ids : List String)
      → Spends be 0 (read_each be supplied seen ids)
  unfolding read_each
  Spends-read_each supplied seen [] = Spends-pure be []
  Spends-read_each supplied seen (id ∷ ids) =
      let skip = Spends-read_each supplied seen ids in
      let rest = Spends-read_each supplied (id ∷ seen) ids in
      Spends-if be 0 _ _ _ skip (
        Spends-free be 0 (gets (λ s. s)) _ (Spends-gets be (λ s. s)) (λ s.
          Spends-free be 0 _ _ (Spends-read_quote supplied (market_of s id).symbol)
            (λ q. Spends-free be 0 _ _ rest (λ quotes. Spends-pure be _))))

  pub Spends-read_quotes :
      (markets : List String) (supplied : List EngineQuote)
      → Spends be 0 (read_quotes be markets supplied)
  unfolding read_quotes
  Spends-read_quotes markets supplied = Spends-read_each (quotes_by_symbol [] supplied) [] markets

  pub Spends-quote : (symbol : String) → Spends be 0 (quote be symbol)
  unfolding quote quote_market open_quote
  Spends-quote symbol = Spends-free be 0 (gets (λ s. s.failure)) _ (Spends-gets be _) (λ f.
      Spends-free be 0 (raise_some f) _ (Spends-raise_some be f) (λ _.
        Spends-free be 0 (gets (λ s. s)) _ (Spends-gets be _) (λ s.
          Spends-Option be 0 (market_with_symbol symbol s.markets) _ _ (Spends-raise be _) (λ found.
            Spends-free be 0 (gets (λ s. s.sequence)) _ (Spends-gets be _) (λ sequence.
              Spends-if be 0 (is_open found.1.status) _ _
                (Spends-Option be 0 (quote_engine be) _ _ (Spends-raise be _) (λ ask.
                  Spends-free be 0 (call (ask symbol)) _ (Spends-call be _)
                    (λ q. Spends-pure be _)))
                (Spends-pure be _))))))

  -- The checks with which an operation starts.
  pub Spends-checks :
      {A : Type 0} (c : ℕ) (ctx : Context) (k : Action W A)
      → Spends be c k
      → Spends be c (raise_some ctx >> (gets (λ s. s.failure) >>= λ f. raise_some f >> k))
  Spends-checks c ctx k h = Spends-free be c (raise_some ctx) _ (Spends-raise_some be ctx) (λ _.
      Spends-free be c (gets (λ s. s.failure)) _ (Spends-gets be _)
        (λ f. Spends-free be c (raise_some f) _ (Spends-raise_some be f) (λ _. h)))

  module _ (sized : IsSized be) where
    pub Spends-deposit : (user : String) (cents : ℤ) → Spends be 1 (deposit be user cents)
    unfolding deposit
    Spends-deposit user cents = Spends-free be 1 (raise_if _ _) _ (Spends-raise_if be _ _) (λ _.
        Spends-free be 1 (gets (λ s. s.failure)) _ (Spends-gets be _) (λ f.
          Spends-free be 1 (raise_some f) _ (Spends-raise_some be f)
            (λ _. Spends-commit_many be _ [] sized)))

    Spends-add_book : (symbol : String) → Spends be 0 (add_book be symbol)
    unfolding add_book
    Spends-add_book symbol = Spends-Option be 0 be.engine _ _ (Spends-pure be tt) (λ engine.
        Spends-free be 0 (outside (engine.add_book symbol)) _ (Spends-outside be _) (λ e.
          Spends-free be 0 (raise_some e) _ (Spends-raise_some be e) (λ _. Spends-pure be tt)))

    Spends-known_market :
        (existing : Market) (symbol owner_id : String)
        → Spends be 1 (known_market be existing symbol owner_id)
    unfolding known_market
    Spends-known_market existing symbol owner_id =
        Spends-le be 0 1 _ (omega arith) (Spends-raise_if be _ _)

    Spends-new_market :
        (id symbol owner_id : String) → Spends be 1 (new_market be id symbol owner_id)
    unfolding new_market
    Spends-new_market id symbol owner_id =
        Spends-free be 1 (gets (λ s. s)) _ (Spends-gets be _) (λ s.
          Spends-free be 1 (raise_if (symbol_used symbol s.markets) Error.symbol_taken) _
            (Spends-raise_if be _ _)
            (λ _.
              Spends-free be 1 (add_book be symbol) _ (Spends-add_book symbol)
                (λ _. Spends-commit_many be _ [] sized)))

    pub Spends-create_market_for :
        (id symbol owner_id : String) → Spends be 1 (create_market_for be id symbol owner_id)
    unfolding create_market_for
    Spends-create_market_for id symbol owner_id = Spends-checks 1 none _ (
        Spends-free be 1 (raise_if (id == "" || symbol == "") Error.id_and_symbol_required) _
          (Spends-raise_if be _ _)
          (λ _.
            Spends-free be 1 (gets (λ s. Dict.lookup id s.markets)) _ (Spends-gets be _) (λ known.
              Spends-Option be 1 known _ _ (Spends-new_market id symbol owner_id)
                (λ existing. Spends-known_market existing symbol owner_id))))

    pub Spends-removed : (r : Result Bool) → Spends be 0 (after_removal r)
    Spends-removed (err e) = Spends-fail be e
    Spends-removed (ok true) = Spends-pure be tt
    Spends-removed (ok false) = Spends-raise be _

    Spends-remove_resting : (o : Order) → Spends be 0 (remove_resting be o)
    unfolding remove_resting
    Spends-remove_resting o = Spends-Option be 0 be.engine _ _ (Spends-pure be tt) (λ engine.
        Spends-free be 0 (gets (λ s. s)) _ (Spends-gets be _) (λ s.
          Spends-free be 0
            (outside (engine.remove_order (market_of s o.market_id).symbol o.engine_id)) _
            (Spends-outside be _) Spends-removed))

    Spends-stake_events :
        (b : Bool) (o : Order) (cash yes_delta no_delta : ℤ)
        → Spends be 1 (commit_many be (stake_events b o cash yes_delta no_delta))
    unfolding stake_events
    Spends-stake_events true o cash yes_delta no_delta = Spends-commit_many be _ _ sized
    Spends-stake_events false o cash yes_delta no_delta = Spends-commit_many be _ _ sized

    Spends-cancel_order : (o : Order) → Spends be 1 (cancel_order be o)
    unfolding cancel_order release_events
    Spends-cancel_order o =
        Spends-free be 1 (raise_if (not (is_cancellable o.status)) Error.not_cancellable) _
          (Spends-raise_if be _ _)
          (λ _. Spends-free be 1 (remove_resting be o) _ (Spends-remove_resting o) (λ _.
            Spends-bind be 1 0 (commit_many be (release_events o)) _
              (Spends-stake_events (is_buy o.side) _ _ _ _)
              (λ _. Spends-read_quotes (o.market_id ∷ []) [])))

    pub Spends-cancel : (ctx : Context) (id user : String) → Spends be 1 (cancel be ctx id user)
    unfolding cancel
    Spends-cancel ctx id user = Spends-checks 1 ctx _ (
        Spends-free be 1 (gets (own_order id user)) _ (Spends-gets be _) (λ found.
          Spends-Option be 1 found _ _
            (Spends-le be 0 1 _ (omega arith) (Spends-raise be Error.order_not_found))
            Spends-cancel_order))

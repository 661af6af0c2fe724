-- ===== src/Trading/Batch/Commit.antt =====
-- The part of `placeBatchWithQuotes` of go-backend/internal/trading/order_batch.go behind the first
-- loop: one commit of the reservations, the engine's calls, and one commit of the completions. The
-- deadline of a batch is the engine's and the projector's affair.
use prediction_market.Base.{
  String, Option, none, some, List, [], ◌∷◌, ◌++◌, map, nat_eq, if◌then◌else◌, get_or, eq_string,
  length,
}
use prediction_market.Int.{uint32, int32}
use prediction_market.Dict
use prediction_market.Dict.{Dict}
use prediction_market.Ledger.{
  Service, Order, Event, Status, Error, EngineResult, EngineOrderKey, engine_key, eq_engine_key,
  zero_order,
}
use prediction_market.Result.{Result, ok, err}
use prediction_market.Machine.{
  Action, Machine, Backend, Engine, EngineOrder, EngineBatch, pure, gets, outside, fail, ◌>>=◌,
  ◌>>◌,
}
use prediction_market.Wal.{commit_many}
use prediction_market.Trades.{Staged, build_trade_events, order_stored}
use prediction_market.Trading.Quotes.{MarketQuote, market_of, read_quotes}
use prediction_market.Trading.Batch.{
  Placement, Verdict, Admissions, no_admissions, admit_all, outcomes,
}

abbrev pub stored_order : Service → Order → Order
stored_order s o = get_or (Dict.lookup o.id s.orders) zero_order

abbrev pub command : Service → Order → EngineOrder
command s o = record {
  symbol = (market_of s o.market_id).symbol;
  price = int32 o.engine_price;
  quantity = uint32 o.quantity;
  side = o.engine_side;
}

-- The variables of the second loop.
pub record Completions : Type 0 where
  pub staged : Staged
  pub engine_ids : Dict EngineOrderKey String
  pub completed : List Event

abbrev pub no_completions : Completions
no_completions = record { staged = []; engine_ids = []; completed = [] }

-- The end of the second loop's body, for the engine's answer: the open order, then its fills.
unfoldable pub complete_order : Service → Completions → Order → EngineResult → Completions
complete_order s c o r =
    let opened : Order = record o { engine_id = r.order_id; status = Status.open_ } in
    let ids = Dict.insert (engine_key o.market_id r.order_id) o.id c.engine_ids in
    let (events, staged) =
      build_trade_events s o.market_id r.trades ids (Dict.insert o.id opened c.staged) in
    record {
      staged = staged;
      engine_ids = ids;
      completed = c.completed ++ order_stored opened ∷ events;
    }

abbrev pub add_completed : Completions → Order → Completions
add_completed c o = record c {
  completed = c.completed ++ order_stored (record o { status = Status.open_ }) ∷ [];
}

module _ {W : Type 0} (be : Backend W) where
  -- `AddOrders`, with the check of its answer; an error latches the failure.
  unfoldable pub submit_batch :
      (List EngineOrder → W → Result EngineBatch × W) → List EngineOrder → Action W EngineBatch
  unfolding fail
  submit_batch add_orders commands = do
    answer ← outside (add_orders commands)
    elim answer [
      | err e ↦ fail e
      | ok batch ↦
          if nat_eq (length batch.results) (length commands)
          then pure batch
          else fail Error.bad_result_count
    ]

  -- The engine's batch interface, if there is one and it is not switched off.
  abbrev pub batch_engine : Option (List EngineOrder → W → Result EngineBatch × W)
  batch_engine = elim be.engine [
    | none ↦ none
    | some engine ↦ if be.disable_engine_batch then none else engine.add_orders
  ]

  unfoldable pub ask_batch : List EngineOrder → Action W EngineBatch
  ask_batch commands = elim batch_engine [
    | none ↦ pure (record { results = []; quotes = [] })
    | some add_orders ↦ submit_batch add_orders commands
  ]

  -- `AddOrder` for one order of the batch; an error latches the failure.
  unfoldable pub submit_command : Engine W → EngineOrder → Action W EngineResult
  unfolding fail
  submit_command engine command = do
    answer ← outside (engine.add_order command)
    elim answer [ err e ↦ fail e | ok r ↦ pure r ]

  -- The second loop without a batch interface: the engine is asked for one order after another.
  unfoldable pub complete_each : Option (Engine W) → Completions → List Order → Action W Completions
  complete_each engine c [] = pure c
  complete_each none c (o ∷ os) = do
    s ← gets (λ s. s)
    complete_each none (add_completed c (stored_order s o)) os
  complete_each (some engine) c (o ∷ os) = do
    s ← gets (λ s. s)
    r ← submit_command engine (command s (stored_order s o))
    complete_each (some engine) (complete_order s c (stored_order s o) r) os

  -- The second loop with the results of the engine's batch, one for each order.
  unfoldable pub complete_results :
      Completions → List Order → List EngineResult → Action W Completions
  complete_results c (o ∷ os) (r ∷ rs) = do
    s ← gets (λ s. s)
    complete_results (complete_order s c (stored_order s o) r) os rs
  complete_results c _ _ = pure c

  unfoldable pub complete_all : List Order → List EngineResult → Action W Completions
  complete_all os [] = complete_each be.engine no_completions os
  complete_all os (r ∷ rs) = complete_results no_completions os (r ∷ rs)

  -- From the commit of the reservations to the quotes
  unfoldable pub place_admitted : Admissions → Action W (List MarketQuote)
  place_admitted a = do
    commit_many be a.initial
    s ← gets (λ s. s)
    let stored = map (stored_order s) a.orders
    batch ← ask_batch (map (command s) stored)
    c ← complete_all a.orders batch.results
    commit_many be c.completed
    read_quotes be (map (λ o. o.market_id) stored) batch.quotes

  -- A request's outcome is nil or its error.
  abbrev pub batch_error : Result (List MarketQuote) → Option Error
  batch_error (ok _) = none
  batch_error (err e) = some e

  abbrev pub batch_quotes : Result (List MarketQuote) → List MarketQuote
  batch_quotes (ok quotes) = quotes
  batch_quotes (err _) = []

  unfoldable pub answer_batch :
      List Verdict → Admissions → Machine W → (List (Option Error) × List MarketQuote) × Machine W
  answer_batch verdicts a m =
      let (r, m') = place_admitted a m in
      elim a.orders [
        | [] ↦ ((outcomes verdicts none, []), m)
        | _ ∷ _ ↦ ((outcomes verdicts (batch_error r), batch_quotes r), m')
      ]

  -- `Service.placeBatchWithQuotes`: the outcome of each request, and the quotes to publish
  unfoldable pub place_batch :
      List Placement → Machine W → (List (Option Error) × List MarketQuote) × Machine W
  place_batch requests m = elim m.service.failure [
    | some e ↦ ((map (λ _. some e) requests, []), m)
    | none ↦
        let (verdicts, a) = admit_all m.service no_admissions 0 requests in
        answer_batch verdicts a m
  ]

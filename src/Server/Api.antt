-- ===== src/Server/Api.antt =====
-- The trading service as the handlers of go-backend/internal/server/routes.go see it; the quotes that
-- its operations publish are left out. `Place` takes its order by itself, or puts it into the queue of
-- go-backend/internal/trading/order_batch.go and waits for the outcome of the batch that has it.
use prediction_market.Base.{Option, none, some, List, ◌∷◌, ◌++◌, length, if◌then◌else◌}
use prediction_market.Int.{ℤ, pos, ltb_ℤ}
use prediction_market.Ledger.{Error, Order, balance, position}
use prediction_market.Result.{error_of}
use prediction_market.Machine.{Action, Backend, Machine}
use prediction_market.Trading.Quotes.{quote}
use prediction_market.Trading.Accounts.{Context, create_market_for, deposit, cancel}
use prediction_market.Trading.Place.{place_single}
use prediction_market.Trading.Batch.{Placement, outcome_at}
use prediction_market.Trading.Batch.Commit.{place_batch}
use prediction_market.Trading.Batch.Queue.{OrderQueue, enqueue}
use prediction_market.Trading.Resolve.{resolve_for}
use prediction_market.Trading.Views.{order, market, markets, health_error}
use prediction_market.Server.Types.{TradingApi, PlaceError}

abbrev pub answer : {V A : Type 0} → Action V A → Machine V → Option Error × Machine V
answer n m = let (r, m') = n m in (error_of r, m')

abbrev pub place_answer : {V : Type 0} → Option Error × Machine V → Option PlaceError × Machine V
place_answer (none, m) = (none, m)
place_answer (some e, m) = (some (PlaceError.service e), m)

-- `cfg.OrderBatchSize`, and what a request meets: its context when the operation begins, the order
-- queue, the orders of other clients that are in the same batch, and its context when the batch is
-- taken and while it waits for the outcome
pub record Moment : Type 0 where
  pub order_batch_size : ℤ
  pub context : Context
  pub queue : OrderQueue
  pub ahead : List Placement
  pub behind : List Placement
  pub context_taken : Context
  pub context_waiting : Context

-- What a client is told that waits for its order: its own context may end first.
abbrev pub waited : Context → Option Error → Option Error
waited none e = e
waited (some x) e = some x

module _ {V : Type 0} (be : Backend V) (now : Moment) where
  -- `enqueue`, the round of `drainOrders` that takes the order, and its outcome
  unfoldable pub place_queued : Order → Machine V → Option PlaceError × Machine V
  place_queued o m = elim (enqueue (record { context = now.context; order = o }) now.queue).0 [
    | some e ↦ (some (PlaceError.queue e), m)
    | none ↦
        let requests =
          now.ahead ++ record { context = now.context_taken; order = o } ∷ now.behind in
        let (told, m') = place_batch be requests m in
        place_answer (waited now.context_waiting (outcome_at told.0 (length now.ahead)), m')
  ]

  -- `Service.Place`
  unfoldable pub place : Order → Machine V → Option PlaceError × Machine V
  place o m =
      if ltb_ℤ (pos 1) now.order_batch_size
      then place_queued o m
      else place_answer (answer (place_single be now.context o) m)

unfoldable pub service_api : {V : Type 0} → Backend V → Moment → TradingApi (Machine V)
service_api be now = record {
  create_market_for = λ id symbol owner. answer (create_market_for be id symbol owner);
  place = place be now;
  cancel = λ id user. answer (cancel be now.context id user);
  deposit = λ user cents. answer (deposit be user cents);
  resolve_for = λ id won owner. answer (resolve_for be now.context id won owner);
  quote = λ symbol. quote be symbol;
  balance = λ user m. balance m.service user;
  position = λ user market m. position m.service user market;
  order = λ id m. order id m.service;
  market = λ id m. market id m.service;
  markets = λ m. markets m.service;
  health_error = λ m. health_error m.service;
}

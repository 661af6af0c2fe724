-- ===== src/Tests/Routing.antt =====
-- A batch over two engines at concrete data.
use prediction_market.Base.{
  ◌+◌, none, some, true, false, get_elem?, arith, ℕ, suc, ◌≡◌, refl, String, List, [], ◌∷◌, length,
  ◌==◌, eq_string, if◌then◌else◌,
}
use prediction_market.Int.{pos}
use prediction_market.Ledger.{EngineResult}
use prediction_market.Result.{ok}
use prediction_market.Machine.{EngineOrder, EngineBatch}
use prediction_market.Router.Adapter.{
  PbClient, OrderSubmission, adapter_add_orders, bad_size, send_batch, submissions, batch_side,
  read_batch, checked_results,
}
use prediction_market.Router.Scatter.{
  scatter, append_at, partition, call_all, call_group, gather, place_results, set_at, route_batch,
}
use prediction_market.Router.Gather.{IsAnswered}
use prediction_market.Router.Routed.{asked, route_batch-IsAnswered}
use prediction_market.Router.Single.{EngineClient, SymbolCall, route_calls}
use prediction_market.Router.Owned.{call_each, own_calls, own_answers, route_calls-IsOwned}
use prediction_market.Router.Start.{Grpc, Network, new_router}
use prediction_market.Router.Opened.{IsOpened, new_router-IsOpened}

-- An engine that numbers its orders from its state on
abbrev numbered : List OrderSubmission → ℕ → List EngineResult
numbered [] n = []
numbered (o ∷ os) n = record { order_id = n; trades = [] } ∷ numbered os (suc n)

abbrev counter : PbClient ℕ
counter = record {
  add_order = λ o n. (ok (record { order_id = n; trades = [] }), suc n);
  add_orders = λ os n. (ok (record { results = numbered os n; quotes = [] }), suc n);
}

abbrev by_name : String → ℕ
by_name symbol = if symbol == "RAIN" then 0 else 1

abbrev buy_of : String → EngineOrder
buy_of symbol = record { symbol = symbol; price = pos 60; quantity = 10; side = "buy" }

abbrev mixed : List EngineOrder
mixed = buy_of "SNOW" ∷ buy_of "RAIN" ∷ buy_of "SNOW" ∷ []

abbrev mixed_batch : EngineBatch
mixed_batch = record {
  results =
      record { order_id = 100; trades = [] }
      ∷ record { order_id = 1; trades = [] }
      ∷ record { order_id = 101; trades = [] }
      ∷ [];
  quotes = [];
}

mixed_done : (route_batch by_name (counter ∷ counter ∷ []) mixed (1 ∷ 100 ∷ [])).0 ≡ ok mixed_batch
unfolding route_batch scatter append_at partition call_all call_group gather place_results set_at
    adapter_add_orders bad_size send_batch submissions batch_side read_batch checked_results
mixed_done = refl

route_batch-IsAnswered_example :
    (length mixed_batch.results ≡ length mixed)
    × IsAnswered by_name 2 mixed mixed_batch.results 0
        (asked by_name 2 mixed 0 (counter ∷ counter ∷ []) (1 ∷ 100 ∷ []))
route_batch-IsAnswered_example =
    route_batch-IsAnswered by_name (counter ∷ counter ∷ []) mixed (1 ∷ 100 ∷ []) mixed_batch refl
      mixed_done

-- Its other calls answer with its number.
abbrev client : EngineClient ℕ
client = record {
  orders = counter;
  rpc_add_book = λ s n. (none, n + 100);
  rpc_best_bid = λ s n. (ok (pos n), n);
  rpc_best_ask = λ s n. (ok (pos n), n);
  rpc_remove_order = λ s id n. (ok true, n + 1);
  rpc_quote = λ s n. (ok (record { symbol = s; bid = pos n; ask = pos n }), n);
  not_found = λ e. false;
}

abbrev some_calls : List SymbolCall
some_calls =
    SymbolCall.book "RAIN"
    ∷ SymbolCall.removal "SNOW" 7
    ∷ SymbolCall.best_bid "RAIN"
    ∷ SymbolCall.best_ask "SNOW"
    ∷ []

calls_done : (route_calls by_name (client ∷ client ∷ []) some_calls (1 ∷ 50 ∷ [])).1 ≡ 101 ∷ 51 ∷ []
unfolding route_calls partition
calls_done = refl

route_calls-IsOwned_example :
    (own_answers by_name 2 0 some_calls
        (route_calls by_name (client ∷ client ∷ []) some_calls (1 ∷ 50 ∷ [])).0
      ≡ (call_each client (own_calls by_name 2 0 some_calls) 1).0)
    × (get_elem? (route_calls by_name (client ∷ client ∷ []) some_calls (1 ∷ 50 ∷ [])).1 0
        ≡ some (call_each client (own_calls by_name 2 0 some_calls) 1).1)
route_calls-IsOwned_example =
    route_calls-IsOwned by_name (client ∷ client ∷ []) 0 some_calls (1 ∷ 50 ∷ []) refl refl

abbrev reachable : Grpc
reachable = record { open_error = λ a. none; close_error = λ c. none }

abbrev offline : Network
offline = record { opened = []; next_number = 0 }

-- The second address is the first again, so the connection to it is closed.
same_twice :
    (new_router reachable (λ s. "a:1" ∷ "a:1" ∷ []) (λ s. s) "a:1,a:1" offline).1.opened ≡ []
unfolding new_router
same_twice = refl

new_router-IsOpened_example :
    IsOpened
      (λ s. s)
      ("a:1" ∷ "b:2" ∷ [])
      offline
      (new_router reachable (λ s. "a:1" ∷ "b:2" ∷ []) (λ s. s) "a:1,b:2" offline)
new_router-IsOpened_example =
    new_router-IsOpened reachable (λ s. "a:1" ∷ "b:2" ∷ []) (λ s. s) "a:1,b:2" offline tt
      (omega arith)

-- ===== src/Router/Single.antt =====
-- The calls for one symbol of go-backend/internal/engine: `Client` of client.go with `AddOrderText` of trading_adapter.go,
-- and the methods of `Router` and `routedTrading` in router.go. The texts that `fmt.Errorf` puts before an error are
-- left out. What gRPC answers is a function on the engine's state.
use prediction_market.Base.{
  ℕ, zero, suc, String, Bool, List, [], ◌∷◌, Option, none, some, length, if◌then◌else◌,
}
use prediction_market.Int.{ℤ}
use prediction_market.Ledger.{Error, EngineResult}
use prediction_market.Result.{Result, ok, err}
use prediction_market.Machine.{EngineOrder, EngineQuote}
use prediction_market.Router.Adapter.{PbClient, PbSide, pb_side, adapter_add_order}
use prediction_market.Router.Scatter.{partition}

-- The other calls of `MatchingEngineClient`, and whether an error has the code NOT_FOUND
pub record EngineClient (E : Type 0) : Type 0 where
  pub orders : PbClient E
  pub rpc_add_book : String → E → Option Error × E
  pub rpc_best_bid : String → E → Result ℤ × E
  pub rpc_best_ask : String → E → Result ℤ × E
  pub rpc_remove_order : String → ℕ → E → Result Bool × E
  pub rpc_quote : String → E → Result EngineQuote × E
  pub not_found : Error → Bool

module _ {E : Type 0} (c : EngineClient E) where
  abbrev number_of : Result EngineResult × E → Result ℕ × E
  number_of (err e, x) = (err e, x)
  number_of (ok r, x) = (ok r.order_id, x)

  -- `Client.AddOrder`
  unfoldable pub add_order : String → ℤ → ℕ → PbSide → E → Result ℕ × E
  add_order symbol price quantity side x = number_of (
      c.orders.add_order
        (record { symbol = symbol; price = price; quantity = quantity; side = side }) x)

  -- `Client.AddOrderText`
  unfoldable pub add_order_text : String → ℤ → ℕ → String → E → Result ℕ × E
  unfolding add_order
  add_order_text symbol price quantity side = add_order symbol price quantity (pb_side side)

  -- `Client.Ready`
  unfoldable pub ready : E → Option Error × E
  ready x = let (r, y) = c.rpc_best_bid "__health_probe__" x in (probed r, y)
    where
      probed : Result ℤ → Option Error
      probed (ok price) = none
      probed (err e) = if c.not_found e then none else some e

-- What the trading service and the API ask of one symbol's engine
pub data SymbolCall : Type 0 where
  book : String → SymbolCall
  order : EngineOrder → SymbolCall
  submission : (symbol : String) (price : ℤ) (quantity : ℕ) → PbSide → SymbolCall
  removal : (symbol : String) (order_id : ℕ) → SymbolCall
  quote : String → SymbolCall
  best_bid : String → SymbolCall
  best_ask : String → SymbolCall

pub data SymbolAnswer : Type 0 where
  created : Option Error → SymbolAnswer
  result : Result EngineResult → SymbolAnswer
  number : Result ℕ → SymbolAnswer
  removed : Result Bool → SymbolAnswer
  quoted : Result EngineQuote → SymbolAnswer
  price : Result ℤ → SymbolAnswer

abbrev pub symbol_of : SymbolCall → String
symbol_of (book s) = s
symbol_of (order o) = o.symbol
symbol_of (submission s p q side) = s
symbol_of (removal s id) = s
symbol_of (quote s) = s
symbol_of (best_bid s) = s
symbol_of (best_ask s) = s

abbrev pub answered : {A E : Type 0} → (A → SymbolAnswer) → A × E → SymbolAnswer × E
answered f (a, x) = (f a, x)

-- The methods of one client
unfoldable pub call_client : {E : Type 0} → EngineClient E → SymbolCall → E → SymbolAnswer × E
unfolding add_order
call_client c (book s) x = answered created (c.rpc_add_book s x)
call_client c (order o) x = answered result (adapter_add_order c.orders o x)
call_client c (submission s p q side) x = answered number (add_order c s p q side x)
call_client c (removal s id) x = answered removed (c.rpc_remove_order s id x)
call_client c (quote s) x = answered quoted (c.rpc_quote s x)
call_client c (best_bid s) x = answered price (c.rpc_best_bid s x)
call_client c (best_ask s) x = answered price (c.rpc_best_ask s x)

-- `r.clients[i]`, and the call of it; `none` is a panic
unfoldable pub call_at :
    {E : Type 0} → ℕ → SymbolCall → List (EngineClient E) → List E → Option SymbolAnswer × List E
unfolding call_client
call_at i call [] xs = (none, xs)
call_at i call (c ∷ cs) [] = (none, [])
call_at zero call (c ∷ cs) (x ∷ xs) = let (a, y) = call_client c call x in (some a, y ∷ xs)
call_at (suc i) call (c ∷ cs) (x ∷ xs) = let (a, ys) = call_at i call cs xs in (a, x ∷ ys)

-- The methods of `Router` and `routedTrading` that pick the symbol's engine
unfoldable pub route_call :
    {E : Type 0}
    → (String → ℕ)
    → List (EngineClient E)
    → SymbolCall
    → List E
    → Option SymbolAnswer × List E
unfolding call_at partition
route_call hash clients call =
    call_at (partition hash (symbol_of call) (length clients)) call clients

-- Calls one after another
unfoldable pub route_calls :
    {E : Type 0}
    → (String → ℕ)
    → List (EngineClient E)
    → List SymbolCall
    → List E
    → List (Option SymbolAnswer) × List E
unfolding route_call
route_calls hash clients [] states = ([], states)
route_calls hash clients (call ∷ calls) states =
    let (a, states') = route_call hash clients call states in
    let (as', states'') = route_calls hash clients calls states' in (a ∷ as', states'')

abbrev after_ready :
    {E : Type 0} → E → List E → Option Error → Option Error × List E → Option Error × List E
after_ready y xs none (e, ys) = (e, y ∷ ys)
after_ready y xs (some e) _ = (some e, y ∷ xs)

-- `Router.Ready`: it stops at the first engine that is not ready.
unfoldable pub all_ready : {E : Type 0} → List (EngineClient E) → List E → Option Error × List E
unfolding ready
all_ready (c ∷ cs) (x ∷ xs) =
    let rest = all_ready cs xs in let (e, y) = ready c x in after_ready y xs e rest
all_ready _ xs = (none, xs)

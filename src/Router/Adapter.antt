-- ===== src/Router/Adapter.antt =====
-- `TradingAdapter` of go-backend/internal/engine: adapter.go and batch.go.
use prediction_market.Base.{
  ℕ, String, Bool, ◌||◌, not, List, [], ◌∷◌, length, ltb, nat_eq, ◌==◌, eq_string, if◌then◌else◌,
}
use prediction_market.Int.{ℤ}
use prediction_market.Ledger.{Error, EngineResult}
use prediction_market.Result.{Result, ok, err, ◌>>=◌, return_if, ◌>>◌}
use prediction_market.Machine.{EngineOrder, EngineQuote, EngineBatch}

-- The generated types of engine/pb.
pub data PbSide : Type 0 where
  side_buy side_sell : PbSide

pub record OrderSubmission : Type 0 where
  pub symbol : String
  pub price : ℤ
  pub quantity : ℕ
  pub side : PbSide

pub record BatchResponse : Type 0 where
  pub results : List EngineResult
  pub quotes : List EngineQuote

-- The calls of `MatchingEngineClient` that the adapter makes, on the state of an engine.
pub record PbClient (E : Type 0) : Type 0 where
  pub add_order : OrderSubmission → E → Result EngineResult × E
  pub add_orders : List OrderSubmission → E → Result BatchResponse × E

-- The side of `TradingAdapter.AddOrder`: any text but "sell" is a buy.
unfoldable pub pb_side : String → PbSide
pb_side side = if side == "sell" then side_sell else side_buy

-- `TradingAdapter.AddOrder`
unfoldable pub adapter_add_order :
    {E : Type 0} → PbClient E → EngineOrder → E → Result EngineResult × E
unfolding pb_side
adapter_add_order c o =
    c.add_order
      (record { symbol = o.symbol; price = o.price; quantity = o.quantity; side = pb_side o.side })

-- The side of a batched order: "sell", "buy", or an error.
unfoldable pub batch_side : String → Result PbSide
batch_side side =
    if side == "sell"
    then ok side_sell
    else if side == "buy"
    then ok side_buy
    else err (Error.external "invalid engine side")

-- The loop that fills `request.Orders`
unfoldable pub submissions : List EngineOrder → Result (List OrderSubmission)
submissions [] = ok []
submissions (o ∷ os) =
    let rest = submissions os in
    batch_side o.side >>= λ side. rest >>= λ found.
    ok (record { symbol = o.symbol; price = o.price; quantity = o.quantity; side = side } ∷ found)

-- The loop over `response.Results`: every order has a number.
unfoldable pub checked_results : List EngineResult → Result (List EngineResult)
checked_results [] = ok []
checked_results (r ∷ rs) =
    let rest = checked_results rs in
    if nat_eq r.order_id 0
    then err (Error.external "invalid engine order ID")
    else rest >>= λ found. ok (r ∷ found)

-- What `AddOrders` makes of the answer to a request for `n` orders.
unfoldable pub read_batch : ℕ → BatchResponse → Result EngineBatch
unfolding checked_results
read_batch n response =
    return_if (not (nat_eq (length response.results) n))
      (Error.external "invalid engine batch result count")
    >> (checked_results response.results >>= λ found.
        ok (record { results = found; quotes = response.quotes }))

unfoldable pub bad_size : List EngineOrder → Bool
bad_size orders = nat_eq (length orders) 0 || ltb 32 (length orders)

-- `TradingAdapter.AddOrders`, after the checks: the call of the engine
unfoldable pub send_batch :
    {E : Type 0} → PbClient E → ℕ → Result (List OrderSubmission) → E → Result EngineBatch × E
send_batch c n (err e) x = (err e, x)
send_batch c n (ok request) x = let (r, y) = c.add_orders request x in (r >>= read_batch n, y)

-- `TradingAdapter.AddOrders`
unfoldable pub adapter_add_orders :
    {E : Type 0} → PbClient E → List EngineOrder → E → Result EngineBatch × E
unfolding bad_size
adapter_add_orders c orders x =
    if bad_size orders
    then (err (Error.external "batch size must be 1-32"), x)
    else send_batch c (length orders) (submissions orders) x

-- ===== src/Router/Scatter.antt =====
-- `routedTrading` of go-backend/internal/engine/router.go: a batch is cut up by the partition of its
-- symbols, sent to the engines, and put together again. The engines have states of their own, so the
-- order of their calls, which the code makes at once, does not matter. The hash of `hash/fnv` is a
-- parameter. A group keeps each order's index with the order (`groups` and `indices`).
use prediction_market.Base.{ℕ, zero, suc, ◌%◌, String, List, [], ◌∷◌, ◌++◌, length, if◌then◌else◌}
use prediction_market.Ledger.{Error, EngineResult}
use prediction_market.Result.{Result, ok, err}
use prediction_market.Machine.{EngineOrder, EngineBatch}
use prediction_market.Router.Adapter.{PbClient, adapter_add_orders, bad_size}

abbrev pub Group : Type 0
Group = List (ℕ × EngineOrder)

-- `partition`
unfoldable pub partition : (String → ℕ) → String → ℕ → ℕ
partition hash symbol count = hash symbol % count

-- `groups[p] = append(groups[p], o)`
unfoldable pub append_at : ℕ → ℕ × EngineOrder → List Group → List Group
append_at p x [] = []
append_at zero x (g ∷ gs) = (g ++ x ∷ []) ∷ gs
append_at (suc p) x (g ∷ gs) = g ∷ append_at p x gs

-- The loop over the orders
unfoldable pub scatter : (String → ℕ) → ℕ → ℕ → List EngineOrder → List Group → List Group
unfolding partition append_at
scatter hash count i [] gs = gs
scatter hash count i (o ∷ os) gs =
    scatter hash count (suc i) os (append_at (partition hash o.symbol count) (i, o) gs)

abbrev pub empty_groups : {A : Type 0} → List A → List Group
empty_groups [] = []
empty_groups (x ∷ xs) = [] ∷ empty_groups xs

abbrev pub no_batch : EngineBatch
no_batch = record { results = []; quotes = [] }

abbrev pub orders_of : Group → List EngineOrder
orders_of [] = []
orders_of ((_, o) ∷ g) = o ∷ orders_of g

abbrev pub places : Group → List ℕ
places [] = []
places ((i, _) ∷ g) = i ∷ places g

-- The call of one engine, if it has orders
unfoldable pub call_group : {E : Type 0} → PbClient E → Group → E → Result EngineBatch × E
call_group c [] x = (ok no_batch, x)
call_group c (o ∷ g) x = adapter_add_orders c (orders_of (o ∷ g)) x

-- The calls of all engines: their answers and their states afterwards
unfoldable pub call_all :
    {E : Type 0} → List (PbClient E) → List Group → List E → List (Result EngineBatch) × List E
unfolding call_group
call_all (c ∷ cs) (g ∷ gs) (x ∷ xs) =
    let (r, y) = call_group c g x in let (rs, ys) = call_all cs gs xs in (r ∷ rs, y ∷ ys)
call_all _ _ xs = ([], xs)

-- `xs[i] = x`
unfoldable pub set_at {ℓ} : {A : Type ℓ} → ℕ → A → List A → List A
set_at i x [] = []
set_at zero x (y ∷ ys) = x ∷ ys
set_at (suc i) x (y ∷ ys) = y ∷ set_at i x ys

-- `result.Results[indices[p][i]] = r` for each result of a batch
unfoldable pub place_results : List ℕ → List EngineResult → List EngineResult → List EngineResult
unfolding set_at
place_results (i ∷ is) (r ∷ rs) xs = place_results is rs (set_at i r xs)
place_results _ _ xs = xs

-- The loop over the answers; the text with the partition's number is left out of an error.
unfoldable pub gather : List Group → List (Result EngineBatch) → EngineBatch → Result EngineBatch
unfolding place_results
gather (g ∷ gs) (err e ∷ rs) acc = err e
gather (g ∷ gs) (ok b ∷ rs) acc = gather gs rs (record {
  results = place_results (places g) b.results acc.results;
  quotes = acc.quotes ++ b.quotes;
})
gather _ _ acc = ok acc

abbrev pub zero_result : EngineResult
zero_result = record { order_id = 0; trades = [] }

abbrev pub zero_results : {A : Type 0} → List A → List EngineResult
zero_results [] = []
zero_results (x ∷ xs) = zero_result ∷ zero_results xs

-- `routedTrading.AddOrders` over two engines or more
unfoldable pub route_batch :
    {E : Type 0}
    → (String → ℕ)
    → List (PbClient E)
    → List EngineOrder
    → List E
    → Result EngineBatch × List E
unfolding scatter call_all gather
route_batch hash clients orders states =
    let groups = scatter hash (length clients) 0 orders (empty_groups clients) in
    let (answers, states') = call_all clients groups states in
    (gather groups answers (record { results = zero_results orders; quotes = [] }), states')

-- One engine takes the whole batch.
unfoldable pub route_one :
    {E : Type 0}
    → List (PbClient E)
    → List EngineOrder
    → List E
    → Result EngineBatch × List E
    → Result EngineBatch × List E
route_one (c ∷ []) orders (x ∷ []) routed =
    let (r, y) = adapter_add_orders c orders x in (r, y ∷ [])
route_one _ orders states routed = routed

-- `routedTrading.AddOrders`
unfoldable pub routed_add_orders :
    {E : Type 0}
    → (String → ℕ)
    → List (PbClient E)
    → List EngineOrder
    → List E
    → Result EngineBatch × List E
unfolding bad_size route_batch route_one
routed_add_orders hash clients orders states =
    if bad_size orders
    then (err (Error.external "batch size must be 1-32"), states)
    else route_one clients orders states (route_batch hash clients orders states)

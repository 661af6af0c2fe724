-- ===== src/Trading/Batch/Queue.antt =====
-- The queue of go-backend/internal/trading/order_batch.go: `enqueue`, `drainOrders` and the first
-- lines of `Close` as the steps that they take under `pendingMu`. A worker is a `drainOrders` that
-- runs; waiting for an outcome is not modelled.
use prediction_market.Base.{
  ℕ, zero, suc, Bool, true, false, Option, none, some, List, [], ◌∷◌, ◌++◌, leb, if◌then◌else◌,
  length,
}
use prediction_market.Ledger.{Error}
use prediction_market.Trading.Batch.{Placement}

-- `maxQueuedOrders`
abbrev pub max_queued_orders : ℕ
max_queued_orders = 128

-- The fields of the service under `pendingMu`.
pub record OrderQueue : Type 0 where
  pub pending : List Placement
  pub running : Bool
  pub closed : Bool

abbrev pub empty_queue : OrderQueue
empty_queue = record { pending = []; running = false; closed = false }

pub data EnqueueError : Type 0 where
  context_error : Error → EnqueueError
  service_closed queue_full : EnqueueError

-- `Service.enqueue`, up to the wait for the outcome: an error, or the queue with the request.
unfoldable pub enqueue : Placement → OrderQueue → Option EnqueueError × OrderQueue
enqueue request q = elim request.context [
  | some e ↦ (some (context_error e), q)
  | none ↦
      if q.closed
      then (some service_closed, q)
      else if leb max_queued_orders (length q.pending)
      then (some queue_full, q)
      else (none, record q { pending = q.pending ++ request ∷ []; running = true })
]

-- `s.pending[:n]` and `s.pending[n:]`
unfoldable pub first : ℕ → List Placement → List Placement
first zero xs = []
first (suc n) [] = []
first (suc n) (x ∷ xs) = x ∷ first n xs

unfoldable pub behind : ℕ → List Placement → List Placement
behind zero xs = xs
behind (suc n) [] = []
behind (suc n) (x ∷ xs) = behind n xs

-- A round of `drainOrders` whose batch is given: the worker ends when it is empty.
unfoldable pub take_first : ℕ → OrderQueue → List Placement → List Placement × OrderQueue
take_first size q [] = ([], record q { running = false })
take_first size q (request ∷ requests) =
    (request ∷ requests, record q { pending = behind size q.pending })

-- One round of `drainOrders`: the requests of the next batch, none when the worker ends.
unfoldable pub take_batch : ℕ → OrderQueue → List Placement × OrderQueue
take_batch size q = take_first size q (first size q.pending)

-- What `Close` does under `pendingMu`
unfoldable pub close : OrderQueue → OrderQueue
close q = record q { closed = true }

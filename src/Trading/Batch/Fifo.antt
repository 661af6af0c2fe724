-- ===== src/Trading/Batch/Fifo.antt =====
-- The runs of the order queue of go-backend/internal/trading/order_batch.go: any interleaving of
-- clients, of the worker's rounds and of `Close`.
use prediction_market.Base.{
  ℕ, zero, suc, ◌≤◌, ◌≡◌, refl, ◌∙◌, sym, ap, subst, arith, true, false, Option, none, some, List,
  [], ◌∷◌, ◌++◌, leb, length, Bool-cases, Option-cases, inl, inr, ◌⊎◌,
}
use mathlib.Core.List.{append_assoc, append-nil}
use prediction_market.Trading.Batch.{Placement}
use prediction_market.Trading.Batch.Queue.{
  OrderQueue, EnqueueError, context_error, service_closed, queue_full, empty_queue,
  max_queued_orders, enqueue, first, behind, take_first, take_batch, close,
}

-- The requests that an answer of `enqueue` has let in.
abbrev pub let_in : Placement → Option EnqueueError → List Placement
let_in request none = request ∷ []
let_in request (some _) = []

-- The queue that a run leads to, with the requests that were let in and those that were taken out
-- in batches, in order.
pub data Reached (size : ℕ) : (entered taken : List Placement) → OrderQueue → Type 0 where
  start : Reached size [] [] empty_queue
  enqueued :
      {entered taken : List Placement} {q : OrderQueue} (request : Placement)
      → Reached size entered taken q
      → Reached size (entered ++ let_in request (enqueue request q).0) taken (enqueue request q).1
  drained :
      {entered taken : List Placement} {q : OrderQueue}
      → q.running ≡ true
      → Reached size entered taken q
      → Reached size entered (taken ++ (take_batch size q).0) (take_batch size q).1
  shut :
      {entered taken : List Placement} {q : OrderQueue}
      → Reached size entered taken q
      → Reached size entered taken (close q)

-- Nothing is lost, repeated or overtaken, the bound holds, and a worker runs while work waits.
pub record IsFifo (entered taken : List Placement) (q : OrderQueue) : Type 0 where
  pub in_order : entered ≡ taken ++ q.pending
  pub bounded : length q.pending ≤ max_queued_orders
  pub served : (q.running ≡ true) ⊎ (q.pending ≡ [])

first-behind : (n : ℕ) (xs : List Placement) → first n xs ++ behind n xs ≡ xs
unfolding first behind
first-behind zero xs = refl
first-behind (suc n) [] = refl
first-behind (suc n) (x ∷ xs) = ap (λ ys. x ∷ ys) (first-behind n xs)

length-behind : (n : ℕ) (xs : List Placement) → length (behind n xs) ≤ length xs
unfolding behind
length-behind zero xs = omega arith
length-behind (suc n) [] = omega arith
length-behind (suc n) (x ∷ xs) = omega (arith, length-behind n xs)

first-nil : (n : ℕ) (xs : List Placement) → 1 ≤ n → first n xs ≡ [] → xs ≡ []
unfolding first
first-nil zero xs room h = absurd (omega arith)
first-nil (suc n) [] room h = refl
first-nil (suc n) (x ∷ xs) room h = cc

length-snoc : (xs : List Placement) (x : Placement) → length (xs ++ x ∷ []) ≡ suc (length xs)
length-snoc [] x = refl
length-snoc (y ∷ xs) x = ap suc (length-snoc xs x)

module _ (entered taken : List Placement) (q : OrderQueue) (request : Placement)
    (h : IsFifo entered taken q) where
  abbrev Kept : Option EnqueueError × OrderQueue → Type 0
  Kept r = IsFifo (entered ++ let_in request r.0) taken r.1

  refused : (e : EnqueueError) → enqueue request q ≡ (some e, q) → Kept (enqueue request q)
  refused e is = subst Kept (sym is) (rw append-nil h)

  entered_last :
      leb max_queued_orders (length q.pending) ≡ false
      → enqueue request q ≡ (none, record q { pending = q.pending ++ request ∷ []; running = true })
      → Kept (enqueue request q)
  entered_last room is = subst Kept (sym is) (record {
    in_order =
        ap (λ xs. xs ++ request ∷ []) h.in_order ∙ append_assoc taken q.pending (request ∷ []);
    bounded = ground (arith, length-snoc q.pending request);
    served = inl refl;
  })

  enqueue-IsFifo : Kept (enqueue request q)
  unfolding enqueue
  enqueue-IsFifo = elim (Option-cases request.context) [
    | inr (e, given) ↦ refused (context_error e) (rw given refl)
    | inl live ↦ elim (Bool-cases q.closed) [
      | inl closed ↦ refused service_closed (rw (live, closed) refl)
      | inr open_ ↦ elim (Bool-cases (leb max_queued_orders (length q.pending))) [
        | inl full ↦ refused queue_full (rw (live, open_, full) refl)
        | inr room ↦ entered_last room (rw (live, open_, room) refl)
      ]
    ]
  ]

take_first-IsFifo :
    (size : ℕ) (entered taken batch : List Placement) (q : OrderQueue)
    → first size q.pending ≡ batch
    → 1 ≤ size
    → q.running ≡ true
    → IsFifo entered taken q
    → IsFifo entered (taken ++ (take_first size q batch).0) (take_first size q batch).1
unfolding take_first
take_first-IsFifo size entered taken [] q is room running h = record {
  in_order = rw append-nil h.in_order;
  bounded = h.bounded;
  served = inr (first-nil size q.pending room is);
}
take_first-IsFifo size entered taken (x ∷ xs) q is room running h = record {
  in_order =
      h.in_order
      ∙ ap (λ ys. taken ++ ys) (sym (first-behind size q.pending) ∙ rw is refl)
      ∙ sym (append_assoc taken (x ∷ xs) (behind size q.pending));
  bounded = omega (arith, length-behind size q.pending, h.bounded);
  served = inl running;
}

take_batch-IsFifo :
    (size : ℕ) (entered taken : List Placement) (q : OrderQueue)
    → 1 ≤ size
    → q.running ≡ true
    → IsFifo entered taken q
    → IsFifo entered (taken ++ (take_batch size q).0) (take_batch size q).1
unfolding take_batch
take_batch-IsFifo size entered taken q =
    take_first-IsFifo size entered taken (first size q.pending) q refl

close-IsFifo :
    (entered taken : List Placement) (q : OrderQueue)
    → IsFifo entered taken q
    → IsFifo entered taken (close q)
unfolding close
close-IsFifo entered taken q h = record {
  in_order = h.in_order;
  bounded = h.bounded;
  served = h.served;
}

-- With batches of at least one request, in every queue that a run leads to: the requests that were
-- let in are, in order, those that were taken out followed by those that wait, at most
-- `maxQueuedOrders` wait, and a worker runs unless none waits.
pub Reached-IsFifo :
    {size : ℕ} {entered taken : List Placement} {q : OrderQueue}
    → 1 ≤ size
    → Reached size entered taken q
    → IsFifo entered taken q
Reached-IsFifo room start = record { in_order = refl; bounded = omega arith; served = inr refl }
Reached-IsFifo room (enqueued request r) = enqueue-IsFifo _ _ _ request (Reached-IsFifo room r)
Reached-IsFifo room (drained running r) =
    take_batch-IsFifo _ _ _ _ room running (Reached-IsFifo room r)
Reached-IsFifo room (shut r) = close-IsFifo _ _ _ (Reached-IsFifo room r)

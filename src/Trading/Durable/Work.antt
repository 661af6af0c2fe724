-- ===== src/Trading/Durable/Work.antt =====
-- Any work of the service of go-backend/internal/trading, from a durable state: requests, and batches of
-- orders from the queue.
use prediction_market.Base.{
  ℕ, suc, ◌+◌, ◌*◌, ◌≡◌, ◌⊎◌, inl, inr, refl, sym, ap, subst, arith, ◌&&◌, not, Option, none, some,
  List, [], ◌∷◌, length, if◌then◌else◌, Bool-cases, eq_string, get_or, map,
}
use prediction_market.Dict
use prediction_market.Ledger.{Service, Order, Event, Error, balance, position, zero_position}
use prediction_market.Result.{Result, ok, err}
use prediction_market.Machine.{Machine, Backend}
use prediction_market.Checkpoint.{CheckpointCalls}
use prediction_market.Trading.Quotes.{MarketQuote}
use prediction_market.Int.{pos, add64, ltb_ℤ}
use prediction_market.Orders.{is_buy, same_order, prepare_order}
use prediction_market.Wal.Durability.{IsDurable}
use prediction_market.Wal.Spends.{IsStopped, HasRoom, IsSized, Ends}
use prediction_market.Trading.Batch.{
  Placement, Verdict, Admissions, account_market, eq_account_market, added_shares, is_short,
  no_admissions, admit_reserved, admit_prepared, admit_repeated, admit_request, admit_all, outcomes,
}
use prediction_market.Trading.Batch.Commit.{
  place_admitted, answer_batch, place_batch, batch_error, batch_quotes,
}
use prediction_market.Trading.Work.{Work, request, batch, snapshot, serve, serve_all, serve-latched}
use prediction_market.Trading.Latch.{handle}
use prediction_market.Trading.Durable.Batch.{Filled, append-Filled, Spends-place_admitted}
use prediction_market.Trading.Durable.Requests.{IsServing, Spends-handle}

-- An admitted order has left an event.
abbrev IsMatched : Admissions → Type 0
IsMatched a = (a.orders ≡ []) ⊎ Filled a.initial

module _ (s : Service) where
  reserved-IsMatched :
      (a : Admissions) (i : ℕ) (o : Order) (e : Event) (es : List Event)
      → IsMatched a
      → IsMatched (admit_reserved s a i o e es).1
  unfolding admit_reserved
  reserved-IsMatched a i o e es h =
      let total = add64 (get_or (Dict.lookup o.user_id a.cash) (pos 0)) e.amount in
      let held =
        get_or (Dict.lookup (account_market o.user_id o.market_id) a.shares) zero_position in
      let after = if is_buy o.side then held else added_shares es held in
      elim (Bool-cases (ltb_ℤ (add64 (balance s o.user_id) total) (pos 0))) [
        | inl poor ↦ rw poor h
        | inr funded ↦
            elim (Bool-cases
              (not (is_buy o.side) && is_short (position s o.user_id o.market_id) after)) [
                | inl short ↦ rw (funded, short) h
                | inr covered ↦ rw (funded, covered) (inr (append-Filled a.initial _ es))
              ]
      ]

  prepared-IsMatched :
      (a : Admissions) (i : ℕ) (o : Order) (r : Result (List Event))
      → IsMatched a
      → IsMatched (admit_prepared s a i o r).1
  unfolding admit_prepared
  prepared-IsMatched a i o (err x) h = h
  prepared-IsMatched a i o (ok []) h = h
  prepared-IsMatched a i o (ok (e ∷ es)) h = reserved-IsMatched a i o e es h

  repeated-IsMatched :
      (a : Admissions) (o : Order) (original : ℕ × Order)
      → IsMatched a
      → IsMatched (admit_repeated a o original).1
  unfolding admit_repeated
  repeated-IsMatched a o (i, previous) h = elim (Bool-cases (same_order previous o)) [
    | inl e ↦ rw e h
    | inr e ↦ rw e h
  ]

  request-IsMatched :
      (a : Admissions) (i : ℕ) (r : Placement) → IsMatched a → IsMatched (admit_request s a i r).1
  unfolding admit_request
  request-IsMatched a i r h = decide r.context (Dict.lookup r.order.id a.by_id)
    where
      decide :
          (context : Option Error) (known : Option (ℕ × Order))
          → IsMatched (
              let x : Verdict × Admissions = elim context [
                | some e ↦ (Verdict.decided (some e), a)
                | none ↦ elim known [
                  | some original ↦ admit_repeated a r.order original
                  | none ↦ admit_prepared s a i r.order (prepare_order s r.order)
                ]
              ] in
              x.1)
      decide (some e) known = h
      decide none (some original) = repeated-IsMatched a r.order original h
      decide none none = prepared-IsMatched a i r.order (prepare_order s r.order) h

  admit_all-IsMatched :
      (a : Admissions) (i : ℕ) (requests : List Placement)
      → IsMatched a
      → IsMatched (admit_all s a i requests).1
  unfolding admit_all
  admit_all-IsMatched a i [] h = h
  admit_all-IsMatched a i (r ∷ rs) h =
      admit_all-IsMatched (admit_request s a i r).1 (suc i) rs (request-IsMatched a i r h)

module _ {W : Type 0} (be : Backend W) where
  -- The machine is durable with room for k lines, or stopped.
  abbrev After : ℕ → Machine W → Type 0
  After k m = (IsDurable m × HasRoom k m) ⊎ IsStopped be m

  Ends-After : {A : Type 0} (k : ℕ) (x : Result A × Machine W) → Ends be k x → After k x.1
  Ends-After k (ok a, m) h = inl h
  Ends-After k (err e, m) h = h

  module _ (sized : IsSized be) (j : ℕ) (m : Machine W) (durable : IsDurable m)
      (room : HasRoom (2 + j) m) where
    unchanged : After j m
    unchanged = inl (durable, omega (arith, room))

    answer_batch-After :
        (verdicts : List Verdict) (a : Admissions)
        → IsMatched a
        → After j (answer_batch be verdicts a m).1
    unfolding answer_batch
    answer_batch-After verdicts a h =
        let (r, m') = place_admitted be a m in
        by_orders a.orders refl (outcomes verdicts none, [])
          (outcomes verdicts (batch_error be r), batch_quotes be r)
      where
        by_orders :
            (os : List Order)
            → a.orders ≡ os
            → (u v : List (Option Error) × List MarketQuote)
            → After j (
                let x : (List (Option Error) × List MarketQuote) × Machine W = elim os [
                  | [] ↦ (u, m)
                  | _ ∷ _ ↦ (v, (place_admitted be a m).1)
                ] in
                x.1)
        by_orders [] e u v = unchanged
        by_orders (o ∷ os) e u v = elim h [
          | inl empty ↦ absurd (cc (empty, e))
          | inr filled ↦
              Ends-After j (place_admitted be a m)
                ((Spends-place_admitted be sized a o os e filled).ends j m durable room)
        ]

    place_batch-After : (requests : List Placement) → After j (place_batch be requests m).1
    unfolding place_batch
    place_batch-After requests =
        let (verdicts, a) = admit_all m.service no_admissions 0 requests in
        by_failure m.service.failure (map (λ _. none) requests, [])
          (λ e. (map (λ _. some e) requests, [])) (answer_batch be verdicts a m)
          (answer_batch-After verdicts a
            (admit_all-IsMatched m.service no_admissions 0 requests (inl refl)))
      where
        by_failure :
            (f : Option Error) (u : List (Option Error) × List MarketQuote)
            (v : Error → List (Option Error) × List MarketQuote)
            (y : (List (Option Error) × List MarketQuote) × Machine W)
            → After j y.1
            → After j (
                let x : (List (Option Error) × List MarketQuote) × Machine W = elim f [
                  | some e ↦ (v e, m)
                  | none ↦ y
                ] in
                x.1)
        by_failure none u v y h = h
        by_failure (some e) u v y h = unchanged

-- Requests but `RecoverEngine`, which the server makes once, before it serves any other, and batches
abbrev pub IsServed : Work → Type 0
IsServed (request r) = IsServing r
IsServed (batch requests) = Unit
IsServed snapshot = ⊥

abbrev pub AllServed : List Work → Type 0
AllServed [] = Unit
AllServed (x ∷ xs) = IsServed x × AllServed xs

module _ {W : Type 0} (be : Backend W) (calls : CheckpointCalls W) (sized : IsSized be) where
  serve-After :
      (x : Work) (j : ℕ) (m : Machine W)
      → IsServed x
      → IsDurable m
      → HasRoom (2 + j) m
      → After be j (serve be calls x m).1
  unfolding serve
  serve-After (request r) j m served durable room =
      Ends-After be j (handle be r m) ((Spends-handle be sized r served).ends j m durable room)
  serve-After (batch requests) j m served durable room =
      place_batch-After be sized j m durable room requests
  serve-After snapshot j m served durable room = absurd served

  -- Stopped work stays stopped, on the same files.
  IsStopped-serve_all :
      (xs : List Work) (m : Machine W) → IsStopped be m → IsStopped be (serve_all be calls xs m)
  unfolding serve_all
  IsStopped-serve_all [] m h = h
  IsStopped-serve_all (x ∷ xs) m h =
      let (e, same) = serve-latched be calls m h.latched.0 h.latched.1 x in
      IsStopped-serve_all xs (serve be calls x m).1
        (subst (λ (m' : Machine W). IsStopped be m') (sym (ap (λ y. y.1) same)) h)

  run :
      (xs : List Work) (m : Machine W)
      → AllServed xs
      → IsDurable m
      → HasRoom (2 * length xs) m
      → IsDurable (serve_all be calls xs m) ⊎ IsStopped be (serve_all be calls xs m)
  unfolding serve_all
  run [] m served durable room = inl durable
  run (x ∷ xs) m served durable room =
      elim (serve-After x (2 * length xs) m served.0 durable (omega (arith, room))) [
        | inl (durable', room') ↦ run xs (serve be calls x m).1 served.1 durable' room'
        | inr stopped ↦ inr (IsStopped-serve_all xs (serve be calls x m).1 stopped)
      ]

-- From a durable state, after any sequence of requests other than the engine's recovery and of batches
-- of orders from the queue, without snapshots between them, with sequence numbers left for two log
-- lines each and a JSON text at least as long as the number of its events: either the service is
-- durable, so a restart rebuilds exactly the state in memory, or a failure is latched, and a restart
-- reads the files without an error. This is for any answers of the engine, with its batch interface or
-- without, of the file system and of the projector.
pub serve_all-IsDurable :
    {W : Type 0} (be : Backend W) (calls : CheckpointCalls W) (xs : List Work) (m : Machine W)
    → IsSized be
    → AllServed xs
    → IsDurable m
    → HasRoom (2 * length xs) m
    → IsDurable (serve_all be calls xs m) ⊎ IsStopped be (serve_all be calls xs m)
serve_all-IsDurable be calls xs m sized = run be calls sized xs m

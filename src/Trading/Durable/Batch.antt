-- ===== src/Trading/Durable/Batch.antt =====
-- `placeBatchWithQuotes` of go-backend/internal/trading/order_batch.go on a durable state.
use prediction_market.Base.{
  ℕ, ◌+◌, ◌≡◌, ◌≢◌, inl, inr, refl, subst, arith, Option, none, some, List, [], ◌∷◌, ◌++◌, nat_eq,
  length, eq_string,
}
use prediction_market.Ledger.{Order, Event, EngineResult, Error}
use prediction_market.Result.{Result, ok, err}
use prediction_market.Machine.{
  Action, Machine, Backend, Engine, EngineOrder, EngineBatch, pure, gets, outside, continue, ◌>>=◌,
}
use prediction_market.Wal.{commit_many}
use prediction_market.Wal.Spends.{
  IsSized, Ends, Spends, Spends-Option, Spends-Result, Spends-free, Spends-if, Spends-bind,
  Spends-pure, Spends-fail, Spends-gets, Spends-outside, Spends-commit_many,
}
use prediction_market.Trading.Durable.{Spends-read_quotes}
use prediction_market.Trading.Batch.{Admissions}
use prediction_market.Trading.Batch.Commit.{
  Completions, no_completions, complete_order, submit_batch, batch_engine, ask_batch,
  submit_command, complete_each, complete_results, complete_all, place_admitted,
}

-- What an operation gives is as Q says.
record Gives {W A : Type 0} (Q : A → Type 0) (n : Action W A) : Type 0 where
  pub gives : (m : Machine W) (a : A) → (n m).0 ≡ ok a → Q a

Gives-pure : {W A : Type 0} (Q : A → Type 0) (a : A) → Q a → Gives Q (pure {W = W} a)
Gives-pure Q a q = record { gives = λ m a' e. let same : a ≡ a' = cc e in subst Q same q }

module _ {W A B : Type 0} (Q : B → Type 0) (n : Action W A) (f : A → Action W B) where
  Gives-bind : ((a : A) → Gives Q (f a)) → Gives Q (n >>= f)
  Gives-bind h = record { gives = λ m. after (n m) }
    where
      after : (x : Result A × Machine W) (b : B) → (continue x.0 f x.1).0 ≡ ok b → Q b
      after (ok a, m) b e = (h a).gives m b e
      after (err x, m) b e = absurd (cc e)

abbrev pub Filled : List Event → Type 0
Filled es = es ≢ []

pub append-Filled : (es : List Event) (e : Event) (fs : List Event) → Filled (es ++ e ∷ fs)
append-Filled [] e fs h = cc h
append-Filled (x ∷ es) e fs h = cc h

module _ {W : Type 0} (be : Backend W) where
  -- A step after one whose result is known
  Spends-given :
      {A B : Type 0} (Q : A → Type 0) (c d : ℕ) (n : Action W A) (f : A → Action W B)
      → Spends be c n
      → Gives Q n
      → ((a : A) → Q a → Spends be d (f a))
      → Spends be (c + d) (n >>= f)
  Spends-given {A} Q c d n f h g k = record {
    ends = λ j m durable room.
        after j (n m) (λ a e. g.gives m a e) (h.ends (d + j) m durable (omega (arith, room)));
  }
    where
      after :
          (j : ℕ) (x : Result A × Machine W)
          → ((a : A) → x.0 ≡ ok a → Q a)
          → Ends be (d + j) x
          → Ends be j (continue x.0 f x.1)
      after j (ok a, m) q (durable, room) = (k a (q a refl)).ends j m durable room
      after j (err e, m) q (inl (durable, room)) = inl (durable, omega (arith, room))
      after j (err e, m) q (inr stopped) = inr stopped

  Spends-submit_batch :
      (add_orders : List EngineOrder → W → Result EngineBatch × W) (commands : List EngineOrder)
      → Spends be 0 (submit_batch be add_orders commands)
  unfolding submit_batch
  Spends-submit_batch add_orders commands =
      Spends-free be 0 (outside (add_orders commands)) _ (Spends-outside be _) (λ answer.
        Spends-Result be 0 answer _ _ (Spends-fail be) (λ b.
          Spends-if be 0 (nat_eq (length b.results) (length commands)) _ _ (Spends-pure be b)
            (Spends-fail be Error.bad_result_count)))

  Spends-ask_batch : (commands : List EngineOrder) → Spends be 0 (ask_batch be commands)
  unfolding ask_batch
  Spends-ask_batch commands =
      Spends-Option be 0 (batch_engine be) _ _ (Spends-pure be _)
        (λ add_orders. Spends-submit_batch add_orders commands)

  Spends-submit_command :
      (engine : Engine W) (c : EngineOrder) → Spends be 0 (submit_command be engine c)
  unfolding submit_command
  Spends-submit_command engine c =
      Spends-free be 0 (outside (engine.add_order c)) _ (Spends-outside be _)
        (λ answer. Spends-Result be 0 answer _ _ (Spends-fail be) (Spends-pure be))

  Spends-complete_each :
      (engine : Option (Engine W)) (os : List Order) (c : Completions)
      → Spends be 0 (complete_each be engine c os)
  unfolding complete_each
  Spends-complete_each engine [] c = Spends-pure be c
  Spends-complete_each none (o ∷ os) c =
      Spends-free be 0 (gets (λ s. s)) _ (Spends-gets be _) (λ s. Spends-complete_each none os _)
  Spends-complete_each (some engine) (o ∷ os) c =
      Spends-free be 0 (gets (λ s. s)) _ (Spends-gets be _) (λ s.
        Spends-free be 0 (submit_command be engine _) _ (Spends-submit_command engine _)
          (λ r. Spends-complete_each (some engine) os _))

  Spends-complete_results :
      (os : List Order) (rs : List EngineResult) (c : Completions)
      → Spends be 0 (complete_results be c os rs)
  unfolding complete_results
  Spends-complete_results [] rs c = Spends-pure be c
  Spends-complete_results (o ∷ os) [] c = Spends-pure be c
  Spends-complete_results (o ∷ os) (r ∷ rs) c =
      Spends-free be 0 (gets (λ s. s)) _ (Spends-gets be _) (λ s. Spends-complete_results os rs _)

  Spends-complete_all :
      (os : List Order) (rs : List EngineResult) → Spends be 0 (complete_all be os rs)
  unfolding complete_all
  Spends-complete_all os [] = Spends-complete_each be.engine os no_completions
  Spends-complete_all os (r ∷ rs) = Spends-complete_results os (r ∷ rs) no_completions

  abbrev IsCompleted : Completions → Type 0
  IsCompleted c = Filled c.completed

  -- What is completed is not taken back.
  Gives-complete_each :
      (engine : Option (Engine W)) (os : List Order) (c : Completions)
      → IsCompleted c
      → Gives IsCompleted (complete_each be engine c os)
  unfolding complete_each complete_order
  Gives-complete_each engine [] c h = Gives-pure IsCompleted c h
  Gives-complete_each none (o ∷ os) c h =
      Gives-bind IsCompleted (gets (λ s. s)) _
        (λ s. Gives-complete_each none os _ (append-Filled c.completed _ []))
  Gives-complete_each (some engine) (o ∷ os) c h = Gives-bind IsCompleted (gets (λ s. s)) _ (λ s.
      Gives-bind IsCompleted (submit_command be engine _) _
        (λ r. Gives-complete_each (some engine) os _ (append-Filled c.completed _ _)))

  Gives-complete_results :
      (os : List Order) (rs : List EngineResult) (c : Completions)
      → IsCompleted c
      → Gives IsCompleted (complete_results be c os rs)
  unfolding complete_results complete_order
  Gives-complete_results [] rs c h = Gives-pure IsCompleted c h
  Gives-complete_results (o ∷ os) [] c h = Gives-pure IsCompleted c h
  Gives-complete_results (o ∷ os) (r ∷ rs) c h =
      Gives-bind IsCompleted (gets (λ s. s)) _
        (λ s. Gives-complete_results os rs _ (append-Filled c.completed _ _))

  -- A completion for the first order at least
  Gives-complete_all :
      (o : Order) (os : List Order) (rs : List EngineResult)
      → Gives IsCompleted (complete_all be (o ∷ os) rs)
  unfolding complete_all complete_each complete_results complete_order
  Gives-complete_all o os [] = first be.engine
    where
      first :
          (engine : Option (Engine W))
          → Gives IsCompleted (complete_each be engine no_completions (o ∷ os))
      first none =
          Gives-bind IsCompleted (gets (λ s. s)) _
            (λ s. Gives-complete_each none os _ (append-Filled [] _ []))
      first (some engine) = Gives-bind IsCompleted (gets (λ s. s)) _ (λ s.
          Gives-bind IsCompleted (submit_command be engine _) _
            (λ r. Gives-complete_each (some engine) os _ (append-Filled [] _ _)))
  Gives-complete_all o os (r ∷ rs) =
      Gives-bind IsCompleted (gets (λ s. s)) _
        (λ s. Gives-complete_results os rs _ (append-Filled [] _ _))

  module _ (sized : IsSized be) where
    Spends-Filled : (es : List Event) → Filled es → Spends be 1 (commit_many be es)
    Spends-Filled [] h = absurd (h refl)
    Spends-Filled (e ∷ es) h = Spends-commit_many be e es sized

    pub Spends-place_admitted :
        (a : Admissions) (o : Order) (os : List Order)
        → a.orders ≡ o ∷ os
        → Filled a.initial
        → Spends be 2 (place_admitted be a)
    unfolding place_admitted
    Spends-place_admitted a o os h filled =
        Spends-bind be 1 1 (commit_many be a.initial) _ (Spends-Filled a.initial filled) (λ _.
          Spends-free be 1 (gets (λ s. s)) _ (Spends-gets be _) (λ s.
            Spends-free be 1 (ask_batch be _) _ (Spends-ask_batch _) (λ b.
              Spends-given IsCompleted 0 1 (complete_all be a.orders b.results) _
                (Spends-complete_all a.orders b.results) (rw h (Gives-complete_all o os b.results))
                (λ c done.
                  Spends-bind be 1 0 (commit_many be c.completed) _ (Spends-Filled c.completed done)
                    (λ _. Spends-read_quotes be _ _)))))

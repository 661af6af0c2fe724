-- ===== src/Router/Counted.antt =====
-- A batch that an engine answers has a result for each order: go-backend/internal/engine/batch.go.
use prediction_market.Base.{
  ℕ, suc, ◌≡◌, refl, sym, ap, ◌∙◌, arith, Bool, true, false, not, List, [], ◌∷◌, length, nat_eq,
  nat_eq_iff, if◌then◌else◌,
}
use prediction_market.Ledger.{EngineResult, Error}
use prediction_market.Result.{Result, ok, err, ◌>>=◌, ◌>>◌, return_if}
use prediction_market.Machine.{EngineOrder, EngineBatch, EngineQuote}
use prediction_market.Router.Adapter.{
  PbClient, BatchResponse, OrderSubmission, adapter_add_orders, bad_size, send_batch, submissions,
  read_batch, checked_results,
}
use prediction_market.Router.Scatter.{Group, orders_of, no_batch, call_group}

-- Where an answer is a batch, it has a number of results.
pub record HasCount (n : ℕ) (r : Result EngineBatch) : Type 0 where
  pub count : (b : EngineBatch) → r ≡ ok b → length b.results ≡ n

HasCount-err : (n : ℕ) (e : Error) → HasCount n (err e)
HasCount-err n e = record { count = λ b same. absurd (ground arith) }

pub batch-injective : (b b' : EngineBatch) → Path (Result EngineBatch) (ok b) (ok b') → b ≡ b'
batch-injective b b' h = cc

HasCount-ok : (n : ℕ) (b : EngineBatch) → length b.results ≡ n → HasCount n (ok b)
HasCount-ok n b h = record {
  count = λ b' same. ap (λ x. length x.results) (sym (batch-injective b b' same)) ∙ h;
}

checked_cons :
    (b : Bool) (e : Error) (q : Result (List EngineResult)) (r : EngineResult)
    (rs found : List EngineResult)
    → ((f : List EngineResult) → q ≡ ok f → length f ≡ length rs)
    → Path (Result (List EngineResult)) (if b then err e else (q >>= λ f. ok (r ∷ f))) (ok found)
    → length found ≡ suc (length rs)
checked_cons true e q r rs found ih h = absurd (ground arith)
checked_cons false e (err x) r rs found ih h = absurd (ground arith)
checked_cons false e (ok f) r rs found ih h =
    let same : r ∷ f ≡ found = cc in ap (λ x. length x) (sym same) ∙ ap suc (ih f refl)

checked_results-length :
    (rs found : List EngineResult) → checked_results rs ≡ ok found → length found ≡ length rs
unfolding checked_results
checked_results-length [] found h = let same : [] ≡ found = cc in ap (λ x. length x) (sym same)
checked_results-length (r ∷ rs) found h =
    checked_cons (nat_eq r.order_id 0) _ (checked_results rs) r rs found
      (λ f. checked_results-length rs f) h

read_results :
    (b : Bool) (e : Error) (n : ℕ) (quotes : List EngineQuote) (rs : List EngineResult)
    (q : Result (List EngineResult))
    → (b ≡ true → length rs ≡ n)
    → ((f : List EngineResult) → q ≡ ok f → length f ≡ length rs)
    → HasCount n (return_if (not b) e >> (q >>= λ f. ok (record { results = f; quotes = quotes })))
read_results false e n quotes rs q counted ih = HasCount-err n e
read_results true e n quotes rs (err x) counted ih = HasCount-err n x
read_results true e n quotes rs (ok f) counted ih = HasCount-ok n _ (ih f refl ∙ counted refl)

read_batch-count : (n : ℕ) (response : BatchResponse) → HasCount n (read_batch n response)
unfolding read_batch
read_batch-count n response =
    read_results (nat_eq (length response.results) n) _ n response.quotes response.results
      (checked_results response.results) (nat_eq_iff (length response.results) n).0
      (checked_results-length response.results)

answered-count : (n : ℕ) (r : Result BatchResponse) → HasCount n (r >>= read_batch n)
answered-count n (err e) = HasCount-err n e
answered-count n (ok response) = read_batch-count n response

send_batch-count :
    {E : Type 0}
    → (c : PbClient E) (n : ℕ) (request : Result (List OrderSubmission)) (x : E)
    → HasCount n (send_batch c n request x).0
unfolding send_batch
send_batch-count c n (err e) x = HasCount-err n e
send_batch-count c n (ok request) x = answered-count n (c.add_orders request x).0

guarded-count :
    {E : Type 0}
    → (b : Bool) (n : ℕ) (e : Error) (x : E) (k : Result EngineBatch × E) → HasCount n k.0
    → HasCount n (if b then (err e, x) else k).0
guarded-count true n e x k h = HasCount-err n e
guarded-count false n e x k h = h

adapter_add_orders-count :
    {E : Type 0}
    → (c : PbClient E) (orders : List EngineOrder) (x : E)
    → HasCount (length orders) (adapter_add_orders c orders x).0
unfolding adapter_add_orders
adapter_add_orders-count c orders x =
    guarded-count (bad_size orders) (length orders) _ x
      (send_batch c (length orders) (submissions orders) x)
      (send_batch-count c (length orders) (submissions orders) x)

length-orders_of : (g : Group) → length (orders_of g) ≡ length g
length-orders_of [] = refl
length-orders_of ((_, o) ∷ g) = ap suc (length-orders_of g)

pub call_group-count :
    {E : Type 0} → (c : PbClient E) (g : Group) (x : E) → HasCount (length g) (call_group c g x).0
unfolding call_group
call_group-count c [] x = HasCount-ok 0 no_batch refl
call_group-count c (o ∷ g) x =
    rw⁻¹ (length-orders_of (o ∷ g)) (adapter_add_orders-count c (orders_of (o ∷ g)) x)

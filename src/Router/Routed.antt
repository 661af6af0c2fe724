-- ===== src/Router/Routed.antt =====
-- A batch over several engines against the engines' own answers: go-backend/internal/engine/router.go.
use prediction_market.Base.{ℕ, suc, ◌≡◌, refl, sym, ap, ◌∙◌, arith, String, List, [], ◌∷◌, length}
use prediction_market.Result.{Result, ok}
use prediction_market.Machine.{EngineOrder, EngineBatch}
use prediction_market.Router.Adapter.{PbClient}
use prediction_market.Router.Scatter.{
  empty_groups, call_group, call_all, gather, zero_results, route_batch,
}
use prediction_market.Router.Counted.{call_group-count}
use prediction_market.Router.Places.{chosen, joined, scatter-joined}
use prediction_market.Router.Gather.{IsAnswered, HaveCounts, gather-IsGathered}

module _ {E : Type 0} (hash : String → ℕ) (count : ℕ) (orders : List EngineOrder) where
  -- What each engine answers to its orders, from one on
  unfoldable pub asked : ℕ → List (PbClient E) → List E → List (Result EngineBatch)
  asked p (c ∷ cs) (x ∷ xs) =
      (call_group c (chosen hash count p 0 orders) x).0 ∷ asked (suc p) cs xs
  asked p _ _ = []

  call_all-asked :
      (p : ℕ) (cs : List (PbClient E)) (xs : List E)
      → (call_all cs (joined hash count p (empty_groups cs) 0 orders) xs).0 ≡ asked p cs xs
  unfolding call_all joined asked
  call_all-asked p [] xs = refl
  call_all-asked p (c ∷ cs) [] = refl
  call_all-asked p (c ∷ cs) (x ∷ xs) =
      ap (λ rs. (call_group c (chosen hash count p 0 orders) x).0 ∷ rs)
        (call_all-asked (suc p) cs xs)

  asked-HaveCounts :
      (p : ℕ) (cs : List (PbClient E)) (xs : List E)
      → HaveCounts hash count orders p (asked p cs xs)
  unfolding asked HaveCounts
  asked-HaveCounts p [] xs = tt
  asked-HaveCounts p (c ∷ cs) [] = tt
  asked-HaveCounts p (c ∷ cs) (x ∷ xs) =
      (call_group-count c (chosen hash count p 0 orders) x, asked-HaveCounts (suc p) cs xs)

  length-asked :
      (p : ℕ) (cs : List (PbClient E)) (xs : List E)
      → length cs ≡ length xs
      → length cs ≡ length (asked p cs xs)
  unfolding asked
  length-asked p [] xs same = refl
  length-asked p (c ∷ cs) [] same = absurd (omega (arith, same))
  length-asked p (c ∷ cs) (x ∷ xs) same = ap suc (length-asked (suc p) cs xs (omega (arith, same)))

length-zero_results : (orders : List EngineOrder) → length (zero_results orders) ≡ length orders
length-zero_results [] = refl
length-zero_results (o ∷ orders) = ap suc (length-zero_results orders)

-- If a batch over the engines ends without an error, it has one result for each order, and the results
-- at the places of the orders whose symbols belong to an engine are, in their order, the results that
-- this engine answers to exactly those orders.
pub route_batch-IsAnswered :
    {E : Type 0}
    → (hash : String → ℕ) (clients : List (PbClient E)) (orders : List EngineOrder)
      (states : List E) (batch : EngineBatch)
    → length clients ≡ length states
    → (route_batch hash clients orders states).0 ≡ ok batch
    → (length batch.results ≡ length orders)
      × IsAnswered hash
          (length clients)
          orders
          batch.results
          0
          (asked hash (length clients) orders 0 clients states)
unfolding route_batch
route_batch-IsAnswered hash clients orders states batch same done =
    let n = length clients in
    let acc : EngineBatch = record { results = zero_results orders; quotes = [] } in
    let answers = asked hash n orders 0 clients states in
    let groups = scatter-joined hash n 0 orders (empty_groups clients) in
    let done' : gather (joined hash n 0 (empty_groups clients) 0 orders) answers acc ≡ ok batch =
      sym (
        ap (λ rs. gather (joined hash n 0 (empty_groups clients) 0 orders) rs acc)
          (call_all-asked hash n orders 0 clients states))
      ∙ sym (ap (λ gs. gather gs (call_all clients gs states).0 acc) groups)
      ∙ done in
    let g =
      gather-IsGathered hash n orders 0 clients answers acc batch
        (length-asked hash n orders 0 clients states same)
        (asked-HaveCounts hash n orders 0 clients states)
        (omega (arith, length-zero_results orders)) done' in
    (g.as_long ∙ length-zero_results orders, g.answered)

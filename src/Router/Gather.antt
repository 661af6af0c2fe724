-- ===== src/Router/Gather.antt =====
-- Where the results of a routed batch come from: go-backend/internal/engine/router.go.
use prediction_market.Base.{
  ℕ, zero, suc, ◌+◌, ◌≤◌, ◌<◌, ◌≡◌, ◌≢◌, refl, sym, ap, ◌∙◌, subst, arith, String, Bool, true,
  false, Option, none, some, List, [], ◌∷◌, ◌++◌, map, length, if◌then◌else◌, nat_eq, Bool-cases,
  inl, inr,
}
use prediction_market.Ledger.{EngineResult}
use prediction_market.Result.{Result, ok, err}
use prediction_market.Machine.{EngineOrder, EngineBatch}
use prediction_market.Router.Counted.{HasCount, batch-injective}
use prediction_market.Router.Scatter.{
  Group, partition, empty_groups, places, set_at, place_results, gather,
}
use prediction_market.Router.Places.{
  mentions, mentions-not, chosen, chosen-from, chosen-owner, joined,
}

-- `xs[i]`, none out of range
unfoldable pub get_elem? {ℓ} : {A : Type ℓ} → List A → ℕ → Option A
get_elem? [] i = none
get_elem? (x ∷ xs) zero = some x
get_elem? (x ∷ xs) (suc i) = get_elem? xs i

get_elem?-set_at :
    {A : Type 0}
    → (i j : ℕ) (x : A) (xs : List A)
    → (i ≢ j → get_elem? (set_at i x xs) j ≡ get_elem? xs j)
      × (i < length xs → get_elem? (set_at i x xs) i ≡ some x)
unfolding get_elem? set_at
get_elem?-set_at i j x [] = (λ other. refl, λ small. absurd (omega (arith, small)))
get_elem?-set_at zero zero x (y ∷ ys) = (λ other. absurd (other refl), λ small. refl)
get_elem?-set_at zero (suc j) x (y ∷ ys) = (λ other. refl, λ small. refl)
get_elem?-set_at (suc i) zero x (y ∷ ys) =
    (λ other. refl, λ small. (get_elem?-set_at i 0 x ys).1 (omega (arith, small)))
get_elem?-set_at (suc i) (suc j) x (y ∷ ys) =
    let (elsewhere, here) = get_elem?-set_at i j x ys in
    (λ other. elsewhere (λ same. other (ap suc same)), λ small. here (omega (arith, small)))

length-set_at : {A : Type 0} → (i : ℕ) (x : A) (xs : List A) → length (set_at i x xs) ≡ length xs
unfolding set_at
length-set_at i x [] = refl
length-set_at zero x (y ∷ ys) = refl
length-set_at (suc i) x (y ∷ ys) = ap suc (length-set_at i x ys)

length-place_results :
    (is : List ℕ) (rs xs : List EngineResult) → length (place_results is rs xs) ≡ length xs
unfolding place_results
length-place_results [] rs xs = refl
length-place_results (i ∷ is) [] xs = refl
length-place_results (i ∷ is) (r ∷ rs) xs =
    length-place_results is rs (set_at i r xs) ∙ length-set_at i r xs

-- A place that is not among those written keeps its result.
place_results-other :
    (is : List ℕ) (rs xs : List EngineResult) (j : ℕ)
    → mentions j is ≡ false
    → get_elem? (place_results is rs xs) j ≡ get_elem? xs j
unfolding place_results mentions
place_results-other [] rs xs j h = refl
place_results-other (i ∷ is) [] xs j h = refl
place_results-other (i ∷ is) (r ∷ rs) xs j h =
    let (first, rest) = mentions-not i j is h in
    place_results-other is rs (set_at i r xs) j rest ∙ (get_elem?-set_at i j r xs).0 first

unfoldable pub results_at : List EngineResult → List ℕ → List (Option EngineResult)
results_at xs [] = []
results_at xs (i ∷ is) = get_elem? xs i ∷ results_at xs is

results_at-same :
    (xs ys : List EngineResult) (is : List ℕ)
    → ((j : ℕ) → mentions j is ≡ true → get_elem? xs j ≡ get_elem? ys j)
    → results_at xs is ≡ results_at ys is
unfolding results_at mentions
results_at-same xs ys [] h = refl
results_at-same xs ys (i ∷ is) h =
    let first = h i (ground arith) in
    let rest = results_at-same xs ys is (λ j said. h j (ground (arith, said))) in
    λ k. first k ∷ rest k

placed :
    (b : Bool) (i : ℕ) (o : EngineOrder) (rest : Group) (rs xs : List EngineResult)
    → (mentions i (places rest) ≡ true → ⊥)
    → i < length xs
    → length (if b then (i, o) ∷ rest else rest) ≡ length rs
    → ((rs' xs' : List EngineResult)
        → length rest ≡ length rs'
        → length xs' ≡ length xs
        → results_at (place_results (places rest) rs' xs') (places rest) ≡ map some rs')
    → results_at
        (place_results (places (if b then (i, o) ∷ rest else rest)) rs xs)
        (places (if b then (i, o) ∷ rest else rest))
      ≡ map some rs
unfolding results_at place_results
placed false i o rest rs xs new room same ih = ih rs xs same refl
placed true i o rest [] xs new room same ih = absurd (omega (arith, same))
placed true i o rest (r ∷ rs) xs new room same ih =
    let away : mentions i (places rest) ≡ false = ground (arith, new) in
    let first =
      place_results-other (places rest) rs (set_at i r xs) i away
      ∙ (get_elem?-set_at i i r xs).1 room in
    let others = ih rs (set_at i r xs) (omega (arith, same)) (length-set_at i r xs) in
    λ k. first k ∷ others k

module _ (hash : String → ℕ) (count : ℕ) where
  -- The results of an engine stand at the places of its orders.
  results_at-chosen :
      (p i : ℕ) (os : List EngineOrder) (rs xs : List EngineResult)
      → length (chosen hash count p i os) ≡ length rs
      → i + length os ≤ length xs
      → results_at
          (place_results (places (chosen hash count p i os)) rs xs)
          (places (chosen hash count p i os))
        ≡ map some rs
  unfolding chosen results_at place_results
  results_at-chosen p i [] [] xs same room = refl
  results_at-chosen p i [] (r ∷ rs) xs same room = absurd (omega (arith, same))
  results_at-chosen p i (o ∷ os) rs xs same room =
      let ih = results_at-chosen p (suc i) os in
      placed (nat_eq p (partition hash o.symbol count)) i o (chosen hash count p (suc i) os) rs xs
        (λ h. omega (arith, chosen-from hash count p (suc i) i os h)) (omega (arith, room)) same
        (λ rs' xs' same' as_long. ih rs' xs' same' (omega (arith, as_long, room)))

-- The answers of the engines from one on, with the results of a whole batch: each engine's results
-- stand at the places of its orders, in their order.
unfoldable pub IsAnswered :
    (String → ℕ) → ℕ → List EngineOrder → List EngineResult → ℕ → List (Result EngineBatch) → Type 0
IsAnswered hash count orders results p [] = Unit
IsAnswered hash count orders results p (err e ∷ answers) = ⊥
IsAnswered hash count orders results p (ok b ∷ answers) =
    (results_at results (places (chosen hash count p 0 orders)) ≡ map some b.results)
    × IsAnswered hash count orders results (suc p) answers

module _ (hash : String → ℕ) (count : ℕ) (orders : List EngineOrder) where
  -- Each batch of results is as long as the group of its engine.
  unfoldable pub HaveCounts : ℕ → List (Result EngineBatch) → Type 0
  HaveCounts p [] = Unit
  HaveCounts p (r ∷ rs) = HasCount (length (chosen hash count p 0 orders)) r × HaveCounts (suc p) rs

  pub record IsGathered (p : ℕ) (answers : List (Result EngineBatch)) (acc batch : EngineBatch)
      : Type 0 where
    pub answered : IsAnswered hash count orders batch.results p answers
    pub kept :
        (j : ℕ)
        → ((q : ℕ) → p ≤ q → mentions j (places (chosen hash count q 0 orders)) ≡ false)
        → get_elem? batch.results j ≡ get_elem? acc.results j
    pub as_long : length batch.results ≡ length acc.results

  not_elsewhere :
      (p q j : ℕ)
      → suc p ≤ q
      → mentions j (places (chosen hash count p 0 orders)) ≡ true
      → mentions j (places (chosen hash count q 0 orders)) ≡ false
  not_elsewhere p q j above said =
      elim (Bool-cases (mentions j (places (chosen hash count q 0 orders)))) [
        | inl also ↦ absurd (omega (arith, above, chosen-owner hash count p q 0 j orders said also))
        | inr away ↦ away
      ]

  pub gather-IsGathered :
      {A : Type 0}
      → (p : ℕ) (cs : List A) (answers : List (Result EngineBatch)) (acc batch : EngineBatch)
      → length cs ≡ length answers
      → HaveCounts p answers
      → length orders ≤ length acc.results
      → gather (joined hash count p (empty_groups cs) 0 orders) answers acc ≡ ok batch
      → IsGathered p answers acc batch
  unfolding gather joined HaveCounts IsAnswered
  gather-IsGathered p [] [] acc batch same counts room h =
      subst (λ (b : EngineBatch). IsGathered p [] acc b) (batch-injective acc batch h)
        (record { answered = tt; kept = λ j q. refl; as_long = refl })
  gather-IsGathered p [] (r ∷ rs) acc batch same counts room h = absurd (omega (arith, same))
  gather-IsGathered p (c ∷ cs) [] acc batch same counts room h = absurd (omega (arith, same))
  gather-IsGathered p (c ∷ cs) (err e ∷ rs) acc batch same counts room h = absurd (ground arith)
  gather-IsGathered p (c ∷ cs) (ok b ∷ rs) acc batch same counts room h =
      let here = places (chosen hash count p 0 orders) in
      let acc' : EngineBatch = record {
        results = place_results here b.results acc.results;
        quotes = acc.quotes ++ b.quotes;
      } in
      let long = length-place_results here b.results acc.results in
      let later =
        gather-IsGathered (suc p) cs rs acc' batch (omega (arith, same)) counts.1
          (omega (arith, long, room)) h in
      record {
        answered = (
          results_at-same batch.results acc'.results here
                (λ j said. later.kept j (λ q above. not_elsewhere p q j above said))
              ∙ results_at-chosen hash count p 0 orders b.results acc.results
                  (sym (counts.0.count b refl)) (omega (arith, room)),
          later.answered,
        );
        kept = λ j away.
            later.kept j (λ q above. away q (omega (arith, above)))
            ∙ place_results-other here b.results acc.results j (away p (omega arith));
        as_long = later.as_long ∙ long;
      }

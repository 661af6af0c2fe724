-- ===== src/Router/Owned.antt =====
-- Which engine the calls for a symbol reach: go-backend/internal/engine/router.go.
use mathlib.Core.Path.{ap₂}
use prediction_market.Base.{
  ℕ, zero, suc, ◌%◌, ◌≡◌, refl, String, Bool, true, false, List, [], ◌∷◌, Option, some, length,
  get_elem?, nat_eq, arith, if◌then◌else◌, ◌∙◌, inl, inr, Bool-cases,
}
use prediction_market.Router.Scatter.{partition}
use prediction_market.Router.Single.{
  EngineClient, SymbolCall, SymbolAnswer, symbol_of, call_client, call_at, route_call, route_calls,
}

-- Calls of one engine alone, one after another
unfoldable pub call_each :
    {E : Type 0} → EngineClient E → List SymbolCall → E → List (Option SymbolAnswer) × E
call_each c [] x = ([], x)
call_each c (call ∷ calls) x =
    let (a, y) = call_client c call x in let (as', z) = call_each c calls y in (some a ∷ as', z)

-- Whether engine p owns the symbol of a call, of n engines
abbrev pub owns : (String → ℕ) → (n p : ℕ) → SymbolCall → Bool
owns hash n p call = nat_eq (partition hash (symbol_of call) n) p

abbrev pub own_calls : (String → ℕ) → (n p : ℕ) → List SymbolCall → List SymbolCall
own_calls hash n p [] = []
own_calls hash n p (call ∷ calls) =
    let rest = own_calls hash n p calls in if owns hash n p call then call ∷ rest else rest

-- The answers to the calls for symbols of engine p
abbrev pub own_answers :
    (String → ℕ)
    → (n p : ℕ) → List SymbolCall
    → List (Option SymbolAnswer)
    → List (Option SymbolAnswer)
own_answers hash n p [] as' = []
own_answers hash n p (call ∷ calls) [] = []
own_answers hash n p (call ∷ calls) (a ∷ as') =
    let rest = own_answers hash n p calls as' in if owns hash n p call then a ∷ rest else rest

module _ {E : Type 0} where
  -- A call of engine i is its answer, and changes its state alone.
  call_at-own :
      (i : ℕ) (call : SymbolCall) (cs : List (EngineClient E)) (xs : List E) {c : EngineClient E}
      {x : E}
      → get_elem? cs i ≡ some c
      → get_elem? xs i ≡ some x
      → ((call_at i call cs xs).0 ≡ some (call_client c call x).0)
        × (get_elem? (call_at i call cs xs).1 i ≡ some (call_client c call x).1)
  unfolding call_at
  call_at-own i call [] xs e e' = absurd (ground arith)
  call_at-own i call (c ∷ cs) [] e e' = absurd (ground arith)
  call_at-own zero call (c ∷ cs) (x ∷ xs) e e' = (cc, cc)
  call_at-own (suc i) call (c ∷ cs) (x ∷ xs) e e' = call_at-own i call cs xs e e'

  call_at-other :
      (i j : ℕ) (call : SymbolCall) (cs : List (EngineClient E)) (xs : List E)
      → nat_eq i j ≡ false
      → get_elem? (call_at i call cs xs).1 j ≡ get_elem? xs j
  unfolding call_at
  call_at-other i j call [] xs e = refl
  call_at-other i j call (c ∷ cs) [] e = refl
  call_at-other zero zero call (c ∷ cs) (x ∷ xs) e = absurd (ground arith)
  call_at-other zero (suc j) call (c ∷ cs) (x ∷ xs) e = refl
  call_at-other (suc i) zero call (c ∷ cs) (x ∷ xs) e = refl
  call_at-other (suc i) (suc j) call (c ∷ cs) (x ∷ xs) e =
      call_at-other i j call cs xs (ground arith)

  -- One routed call, seen from engine p
  route_call-own :
      (hash : String → ℕ) (clients : List (EngineClient E)) (p : ℕ) (call : SymbolCall)
      (states : List E) {c : EngineClient E} {x : E}
      → get_elem? clients p ≡ some c
      → get_elem? states p ≡ some x
      → owns hash (length clients) p call ≡ true
      → ((route_call hash clients call states).0 ≡ some (call_client c call x).0)
        × (get_elem? (route_call hash clients call states).1 p ≡ some (call_client c call x).1)
  unfolding route_call partition
  route_call-own hash clients p call states e e' mine =
      let same : hash (symbol_of call) % length clients ≡ p = ground arith in
      rw same (call_at-own p call clients states e e')

  route_call-other :
      (hash : String → ℕ) (clients : List (EngineClient E)) (p : ℕ) (call : SymbolCall)
      (states : List E)
      → owns hash (length clients) p call ≡ false
      → get_elem? (route_call hash clients call states).1 p ≡ get_elem? states p
  unfolding route_call
  route_call-other hash clients p call states other =
      call_at-other (partition hash (symbol_of call) (length clients)) p call clients states other

  -- Through the router, engine p takes exactly the calls for its symbols, in their order, answers them as
  -- it would alone, and ends in the state that they alone lead to, whatever is asked of other symbols.
  pub route_calls-IsOwned :
      (hash : String → ℕ) (clients : List (EngineClient E)) (p : ℕ) (calls : List SymbolCall)
      (states : List E) {c : EngineClient E} {x : E}
      → get_elem? clients p ≡ some c
      → get_elem? states p ≡ some x
      → (own_answers hash (length clients) p calls (route_calls hash clients calls states).0
          ≡ (call_each c (own_calls hash (length clients) p calls) x).0)
        × (get_elem? (route_calls hash clients calls states).1 p
            ≡ some (call_each c (own_calls hash (length clients) p calls) x).1)
  unfolding route_calls call_each
  route_calls-IsOwned hash clients p [] states e e' = (refl, e')
  route_calls-IsOwned hash clients p (call ∷ calls) states {c} {x} e e' =
      elim (Bool-cases (owns hash (length clients) p call)) [
        | inl mine ↦
            let (answer, after) = route_call-own hash clients p call states e e' mine in
            let (answers, last) =
              route_calls-IsOwned hash clients p calls (route_call hash clients call states).1 e
                after in
            rw mine (ap₂ ◌∷◌ answer answers, last)
        | inr other ↦ rw other (
            route_calls-IsOwned hash clients p calls (route_call hash clients call states).1 e
              (route_call-other hash clients p call states other ∙ e'))
      ]

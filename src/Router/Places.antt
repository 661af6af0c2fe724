-- ===== src/Router/Places.antt =====
-- Which orders of a batch go to which engine of go-backend/internal/engine/router.go, and their places.
use prediction_market.Base.{
  ℕ, zero, suc, ◌+◌, ◌≤◌, ◌<◌, ◌≡◌, ◌≢◌, refl, sym, ap, ◌∙◌, arith, String, Bool, true, false, List,
  [], ◌∷◌, ◌++◌, if◌then◌else◌, nat_eq, nat_eq_iff, Bool-cases, inl, inr, ◌⊎◌,
}
use prediction_market.Machine.{EngineOrder}
use prediction_market.Router.Scatter.{Group, partition, append_at, scatter, places}

append-one : {A : Type 0} → (g : List A) (x : A) (ys : List A) → ((g ++ x ∷ []) ++ ys) ≡ g ++ x ∷ ys
append-one [] x ys = refl
append-one (y ∷ g) x ys = ap (λ l. y ∷ l) (append-one g x ys)

append-nil : {A : Type 0} → (g : List A) → g ++ [] ≡ g
append-nil [] = refl
append-nil (y ∷ g) = ap (λ l. y ∷ l) (append-nil g)

unfoldable pub mentions : ℕ → List ℕ → Bool
mentions j [] = false
mentions j (i ∷ is) = if nat_eq i j then true else mentions j is

mentions-step :
    (b : Bool) (i j : ℕ) (o : EngineOrder) (rest : Group)
    → mentions j (places (if b then (i, o) ∷ rest else rest)) ≡ true
    → ((b ≡ true) × (i ≡ j)) ⊎ (mentions j (places rest) ≡ true)
unfolding mentions
mentions-step true i j o rest h = elim (Bool-cases (nat_eq i j)) [
  | inl same ↦ inl (refl, (nat_eq_iff i j).0 same)
  | inr other ↦ inr (ground (arith, h, other))
]
mentions-step false i j o rest h = inr h

pub mentions-not :
    (i j : ℕ) (is : List ℕ) → mentions j (i ∷ is) ≡ false → (i ≢ j) × (mentions j is ≡ false)
unfolding mentions
mentions-not i j is h = (λ same. ground (arith, h, same), ground (arith, h))

module _ (hash : String → ℕ) (count : ℕ) where
  -- The orders of an engine, each with its place in the batch
  unfoldable pub chosen : ℕ → ℕ → List EngineOrder → Group
  chosen p i [] = []
  chosen p i (o ∷ os) =
      let rest = chosen p (suc i) os in
      if nat_eq p (partition hash o.symbol count) then (i, o) ∷ rest else rest

  -- Groups, each with what the orders to come add to it
  unfoldable pub joined : ℕ → List Group → ℕ → List EngineOrder → List Group
  joined p [] i os = []
  joined p (g ∷ gs) i os = (g ++ chosen p i os) ∷ joined (suc p) gs i os

  joined-skip :
      (p i : ℕ) (o : EngineOrder) (os : List EngineOrder) (gs : List Group)
      → partition hash o.symbol count < p
      → joined p gs i (o ∷ os) ≡ joined p gs (suc i) os
  unfolding joined chosen
  joined-skip p i o os [] h = refl
  joined-skip p i o os (g ∷ gs) h =
      let other : nat_eq p (partition hash o.symbol count) ≡ false = ground (arith, h) in
      let rest = joined-skip (suc p) i o os gs (omega (arith, h)) in rw (other, rest) refl

  joined-append_at :
      (p k i : ℕ) (o : EngineOrder) (os : List EngineOrder) (gs : List Group)
      → partition hash o.symbol count ≡ p + k
      → joined p (append_at k (i, o) gs) (suc i) os ≡ joined p gs i (o ∷ os)
  unfolding joined append_at chosen
  joined-append_at p k i o os [] h = refl
  joined-append_at p zero i o os (g ∷ gs) h =
      let this : nat_eq p (partition hash o.symbol count) ≡ true = ground (arith, h) in
      let rest = joined-skip (suc p) i o os gs (omega (arith, h)) in
      rw (this, rest, append-one g (i, o) (chosen p (suc i) os)) refl
  joined-append_at p (suc k) i o os (g ∷ gs) h =
      let other : nat_eq p (partition hash o.symbol count) ≡ false = ground (arith, h) in
      let rest = joined-append_at (suc p) k i o os gs (omega (arith, h)) in rw (other, rest) refl

  joined-nil : (p i : ℕ) (gs : List Group) → joined p gs i [] ≡ gs
  unfolding joined chosen
  joined-nil p i [] = refl
  joined-nil p i (g ∷ gs) = rw (append-nil g, joined-nil (suc p) i gs) refl

  pub scatter-joined :
      (i : ℕ) (os : List EngineOrder) (gs : List Group)
      → scatter hash count i os gs ≡ joined 0 gs i os
  unfolding scatter
  scatter-joined i [] gs = sym (joined-nil 0 i gs)
  scatter-joined i (o ∷ os) gs =
      scatter-joined (suc i) os (append_at (partition hash o.symbol count) (i, o) gs)
      ∙ joined-append_at 0 (partition hash o.symbol count) i o os gs (omega arith)

  -- The places of chosen orders come in order.
  pub chosen-from :
      (p i j : ℕ) (os : List EngineOrder) → mentions j (places (chosen p i os)) ≡ true → i ≤ j
  unfolding chosen mentions
  chosen-from p i j [] h = absurd (ground arith)
  chosen-from p i j (o ∷ os) h =
      elim (mentions-step (nat_eq p (partition hash o.symbol count)) i j o (chosen p (suc i) os)
        h) [
          | inl (this, same) ↦ omega (arith, same)
          | inr later ↦ omega (arith, chosen-from p (suc i) j os later)
        ]

  -- A place is of one engine.
  pub chosen-owner :
      (p q i j : ℕ) (os : List EngineOrder)
      → mentions j (places (chosen p i os)) ≡ true
      → mentions j (places (chosen q i os)) ≡ true
      → p ≡ q
  unfolding chosen mentions
  chosen-owner p q i j [] h h' = absurd (ground arith)
  chosen-owner p q i j (o ∷ os) h h' =
      elim (mentions-step (nat_eq p (partition hash o.symbol count)) i j o (chosen p (suc i) os)
        h) [
          | inl (this, same) ↦
              elim (mentions-step (nat_eq q (partition hash o.symbol count)) i j o
                (chosen q (suc i) os) h') [
                  | inl (this', _) ↦ ground (arith, this, this')
                  | inr later ↦ absurd (omega (arith, same, chosen-from q (suc i) j os later))
                ]
          | inr later ↦
              elim (mentions-step (nat_eq q (partition hash o.symbol count)) i j o
                (chosen q (suc i) os) h') [
                  | inl (_, same) ↦ absurd (omega (arith, same, chosen-from p (suc i) j os later))
                  | inr later' ↦ chosen-owner p q (suc i) j os later later'
                ]
        ]

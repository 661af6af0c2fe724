-- ===== src/Load/Rank.antt =====
-- What the percentiles of go-backend/cmd/loadtest/main.go are.
use Prim.Native.Nat.{◌/◌}
use prediction_market.Base.{
  get_elem?, ℕ, zero, suc, ◌+◌, ◌-◌, ◌*◌, ◌≤◌, ◌<◌, ◌≡◌, Bool, List, [], ◌∷◌, some, length, ltb,
  leb, nat_eq, ◌∙◌, ap, if◌then◌else◌, arith, refl, inl, inr, Bool-cases,
}
use prediction_market.Sort.{sort, place_sorted}
use prediction_market.Load.Shares.{count_if}
use prediction_market.Load.Report.{percentile}

abbrev NoneBelow : ℕ → List ℕ → Type 0
NoneBelow a [] = Unit
NoneBelow a (x ∷ xs) = (a ≤ x) × NoneBelow a xs

abbrev IsSorted : List ℕ → Type 0
IsSorted [] = Unit
IsSorted (x ∷ xs) = NoneBelow x xs × IsSorted xs

NoneBelow-mono : (a b : ℕ) (xs : List ℕ) → a ≤ b → NoneBelow b xs → NoneBelow a xs
NoneBelow-mono a b [] l h = tt
NoneBelow-mono a b (x ∷ xs) l h = (omega arith, NoneBelow-mono a b xs l h.1)

NoneBelow-place_sorted :
    (a x : ℕ) (xs : List ℕ) → a ≤ x → NoneBelow a xs → NoneBelow a (place_sorted ltb x xs)
unfolding place_sorted
NoneBelow-place_sorted a x [] l h = (l, tt)
NoneBelow-place_sorted a x (y ∷ ys) l h = elim (Bool-cases (ltb y x)) [
  | inl e ↦ rw e (h.0, NoneBelow-place_sorted a x ys l h.1)
  | inr e ↦ rw e (l, h)
]

place_sorted-IsSorted : (x : ℕ) (xs : List ℕ) → IsSorted xs → IsSorted (place_sorted ltb x xs)
unfolding place_sorted
place_sorted-IsSorted x [] h = (tt, tt)
place_sorted-IsSorted x (y ∷ ys) h = elim (Bool-cases (ltb y x)) [
  | inl e ↦ rw e (NoneBelow-place_sorted y x ys (ground arith) h.0, place_sorted-IsSorted x ys h.1)
  | inr e ↦ rw e ((ground arith, NoneBelow-mono x y ys (ground arith) h.0), h)
]

pub sort-IsSorted : (xs : List ℕ) → IsSorted (sort ltb xs)
unfolding sort
sort-IsSorted [] = tt
sort-IsSorted (x ∷ xs) = place_sorted-IsSorted x (sort ltb xs) (sort-IsSorted xs)

count-place_sorted :
    (p : ℕ → Bool) (x : ℕ) (xs : List ℕ)
    → count_if p (place_sorted ltb x xs) ≡ (if p x then 1 else 0) + count_if p xs
unfolding place_sorted
count-place_sorted p x [] = refl
count-place_sorted p x (y ∷ ys) = elim (Bool-cases (ltb y x)) [
  | inl e ↦ rw e (omega (arith, count-place_sorted p x ys))
  | inr e ↦ rw e refl
]

count-sort : (p : ℕ → Bool) (xs : List ℕ) → count_if p (sort ltb xs) ≡ count_if p xs
unfolding sort
count-sort p [] = refl
count-sort p (x ∷ xs) = omega (arith, count-place_sorted p x (sort ltb xs), count-sort p xs)

length-place_sorted : (x : ℕ) (xs : List ℕ) → length (place_sorted ltb x xs) ≡ suc (length xs)
unfolding place_sorted
length-place_sorted x [] = refl
length-place_sorted x (y ∷ ys) = ground (arith, length-place_sorted x ys)

length-sort : (xs : List ℕ) → length (sort ltb xs) ≡ length xs
unfolding sort
length-sort [] = refl
length-sort (x ∷ xs) = omega (arith, length-place_sorted x (sort ltb xs), length-sort xs)

-- At most i values lie below the one at place i, and at least i + 1 do not lie above it.
abbrev IsAt : ℕ → List ℕ → ℕ → Type 0
IsAt i xs d = (count_if (λ x. ltb x d) xs ≤ i) × (suc i ≤ count_if (λ x. leb x d) xs)

no_lower : (a : ℕ) (xs : List ℕ) → NoneBelow a xs → count_if (λ x. ltb x a) xs ≡ 0
no_lower a [] h = refl
no_lower a (x ∷ xs) h = ground (arith, no_lower a xs h.1)

NoneBelow-get_elem? :
    (a : ℕ) (xs : List ℕ) (i d : ℕ) → NoneBelow a xs → get_elem? xs i ≡ some d → a ≤ d
NoneBelow-get_elem? a [] i d h e = absurd (ground arith)
NoneBelow-get_elem? a (x ∷ xs) zero d h e = ground arith
NoneBelow-get_elem? a (x ∷ xs) (suc i) d h e = NoneBelow-get_elem? a xs i d h.1 e

sorted-IsAt :
    (xs : List ℕ) (i : ℕ)
    → IsSorted xs
    → i < length xs
    → (d : ℕ) × (get_elem? xs i ≡ some d) × IsAt i xs d
sorted-IsAt [] i s h = elim h [ ]
sorted-IsAt (x ∷ xs) zero s h = (x, refl, (ground (arith, no_lower x xs s.0), ground arith))
sorted-IsAt (x ∷ xs) (suc i) s h =
    let (d, e, at) = sorted-IsAt xs i s.1 (omega arith) in
    let l : x ≤ d = NoneBelow-get_elem? x xs i d s.0 e in
    (d, e, (ground (arith, at.0), ground (arith, at.1)))

occurs : (xs : List ℕ) (i d : ℕ) → get_elem? xs i ≡ some d → 0 < count_if (λ x. nat_eq x d) xs
occurs [] i d e = absurd (ground arith)
occurs (x ∷ xs) zero d e = ground arith
occurs (x ∷ xs) (suc i) d e = ground (arith, occurs xs i d e)

percentile-get_elem? :
    (xs : List ℕ) (p : ℕ)
    → 0 < length xs
    → percentile xs p ≡ get_elem? xs ((length xs * p + 99) / 100 - 1)
unfolding percentile
percentile-get_elem? [] p h = elim h [ ]
percentile-get_elem? (x ∷ xs) p h = refl

-- A percentile between 1 and 100 of some latencies, which are sorted for it, is the nearest rank: one
-- of them, of which the percentage of latencies below it is less than p and the percentage of those not
-- above it is p at least; the read is in range.
pub percentile-IsNearestRank :
    (xs : List ℕ) (p : ℕ)
    → 0 < length xs
    → 0 < p
    → p ≤ 100
    → (d : ℕ) × (percentile (sort ltb xs) p ≡ some d)
      × (0 < count_if (λ x. nat_eq x d) xs)
      × (count_if (λ x. ltb x d) xs * 100 < length xs * p)
      × (length xs * p ≤ count_if (λ x. leb x d) xs * 100)
percentile-IsNearestRank xs p some_value low high =
    let n : ℕ = length xs in
    let r : ℕ = (n * p + 99) / 100 - 1 in
    let l : length (sort ltb xs) ≡ n = length-sort xs in
    let most : n * p ≤ n * 100 = grind arith in
    let least : 1 ≤ n * p = grind arith in
    let inside : r < length (sort ltb xs) = omega (arith, l, most, least) in
    let (d, e, at) = sorted-IsAt (sort ltb xs) r (sort-IsSorted xs) inside in
    (
      d,
      percentile-get_elem? (sort ltb xs) p (omega (arith, l))
          ∙ ap (λ (m : ℕ). get_elem? (sort ltb xs) ((m * p + 99) / 100 - 1)) l
          ∙ e,
      omega (arith, occurs (sort ltb xs) r d e, count-sort (λ x. nat_eq x d) xs),
      omega (arith, at.0, count-sort (λ x. ltb x d) xs, least),
      omega (arith, at.1, count-sort (λ x. leb x d) xs, least),
    )

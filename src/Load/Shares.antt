-- ===== src/Load/Shares.antt =====
-- How many jobs of go-backend/cmd/loadtest/main.go fall to a market and to an account.
use Prim.Native.Nat.{◌/◌}
use native.Mathlib.Nat.{div-add-mod, mod-lt}
use prediction_market.Base.{
  ℕ, zero, suc, ◌+◌, ◌*◌, ◌%◌, ◌<◌, ◌≡◌, Bool, true, false, List, [], ◌∷◌, nat_eq, ◌&&◌,
  if◌then◌else◌, arith, refl, length, ◌⊎◌, inl, inr, Bool-cases, ap, subst, not,
}
use prediction_market.Load.Jobs.{job_market, job_user, buys_no, feed, market_pairs, expected_pairs}

div-suc_rest : (k n q : ℕ) {r : ℕ} → suc k / n ≡ q → suc k ≡ n * q + r → suc k % n ≡ r
div-suc_rest k n q d e = omega (arith, div-add-mod (suc k) n, ap (λ (t : ℕ). n * t) d, e)

-- The next number goes on in the same round, or begins the next one.
div-suc :
    (k n : ℕ)
    → 0 < n
    → ((suc k / n ≡ k / n) × (suc k % n ≡ suc (k % n)))
      ⊎ ((suc k / n ≡ suc (k / n)) × (suc k % n ≡ 0) × (suc (k % n) ≡ n))
div-suc k n pos = elim (Bool-cases (nat_eq (suc (k % n)) n)) [
  | inl last ↦
      let l : suc (k % n) ≡ n = ground arith in
      let d : suc k / n ≡ suc (k / n) = grind (arith, l) in
      inr (d, div-suc_rest k n (suc (k / n)) d (grind (arith, l, div-add-mod k n)), l)
  | inr more ↦
      let d : suc k / n ≡ k / n = grind arith in
      inl (d, div-suc_rest k n (k / n) d (grind (arith, div-add-mod k n)))
]

-- Pair k goes to market k % n.
market_pairs-suc :
    (n k m : ℕ)
    → m < n
    → market_pairs n (suc k) m ≡ market_pairs n k m + (if nat_eq (k % n) m then 1 else 0)
unfolding market_pairs
market_pairs-suc n k m h = elim (div-suc k n (omega arith)) [
  | inl (d, r) ↦ rw (d, r) (grind (arith, mod-lt k {m = n} (omega arith)))
  | inr (d, r, l) ↦ rw (d, r) (grind arith)
]

market_pairs-zero : (n m : ℕ) → 0 < n → market_pairs n 0 m ≡ 0
unfolding market_pairs
market_pairs-zero n m pos = grind (arith, mod-lt 0 {m = n} pos)

abbrev pub count_if : (ℕ → Bool) → List ℕ → ℕ
count_if p [] = 0
count_if p (i ∷ is) = (if p i then 1 else 0) + count_if p is

-- The jobs of n pairs, from pair k
abbrev pub pairs_from : ℕ → ℕ → List ℕ
pairs_from zero k = []
pairs_from (suc n) k = (2 * k) ∷ (2 * k + 1) ∷ pairs_from n (suc k)

length-pairs_from : (n k : ℕ) → length (pairs_from n k) ≡ 2 * n
length-pairs_from zero k = refl
length-pairs_from (suc n) k = omega (arith, length-pairs_from n (suc k))

-- The jobs are fed in pairs.
feed-pairs :
    (rounds k : ℕ) (stop : ℕ → Bool) → (n : ℕ) × (feed rounds stop (2 * k) ≡ pairs_from n k)
unfolding feed
feed-pairs zero k stop = (0, refl)
feed-pairs (suc rounds) k stop =
    let (n, e) = feed-pairs rounds (suc k) stop in
    elim (Bool-cases (stop (2 * k))) [
      | inl halt ↦ (0, rw halt refl)
      | inr more ↦
          let next : 2 * suc k ≡ 2 * k + 2 = omega arith in
          (
            suc n,
            rw more (
                ap (λ (xs : List ℕ). (2 * k) ∷ (2 * k + 1) ∷ xs)
                  (subst (λ (c : ℕ). feed rounds stop c ≡ pairs_from n (suc k)) next e)),
          )
    ]

-- A number that grows with each pair by what its two jobs count for is the count.
count-pairs_from :
    (p : ℕ → Bool) (f : ℕ → ℕ)
    → ((k : ℕ) → f (suc k) ≡ f k + (if p (2 * k) then 1 else 0) + (if p (2 * k + 1) then 1 else 0))
    → (n k : ℕ) → f (n + k) ≡ f k + count_if p (pairs_from n k)
count-pairs_from p f grows zero k = ground arith
count-pairs_from p f grows (suc n) k =
    let next : n + suc k ≡ suc n + k = omega arith in
    omega (arith, ap f next, grows k, count-pairs_from p f grows n (suc k))

-- Whether a job is one of user u's, and one in market m on one side
abbrev pub is_of : Bool → ℕ → ℕ → ℕ → Bool
is_of separate markets u i = nat_eq (job_user separate markets i) u

abbrev pub is_in : Bool → ℕ → ℕ → ℕ → Bool → ℕ → Bool
is_in separate markets u m no_side i =
    is_of separate markets u i
    && nat_eq (job_market markets i) m
    && (if no_side then buys_no i else not (buys_no i))

-- The accounts that there are
abbrev pub IsUser : Bool → ℕ → ℕ → Type 0
IsUser separate markets u = u < (if separate then 2 * markets else 2)

half_even : (k : ℕ) → 2 * k / 2 ≡ k
half_even k = omega arith

half_odd : (k : ℕ) → (2 * k + 1) / 2 ≡ k
half_odd k = omega arith

rest_even : (k : ℕ) → 2 * k % 2 ≡ 0
rest_even k = omega arith

rest_odd : (k : ℕ) → (2 * k + 1) % 2 ≡ 1
rest_odd k = omega arith

user_even :
    (separate : Bool) (n k : ℕ) → job_user separate n (2 * k) ≡ (if separate then k % n * 2 else 0)
user_even separate n k = ground (arith, half_even k, rest_even k)

user_odd :
    (separate : Bool) (n k : ℕ)
    → job_user separate n (2 * k + 1) ≡ 1 + (if separate then k % n * 2 else 0)
user_odd separate n k = ground (arith, half_odd k, rest_odd k)

-- `expectedPairs` goes up with each pair of jobs of which one is the user's.
expected_pairs-suc :
    (separate : Bool) (markets u k : ℕ)
    → 0 < markets
    → IsUser separate markets u
    → expected_pairs separate markets (suc k) u
      ≡ expected_pairs separate markets k u
        + (if is_of separate markets u (2 * k) then 1 else 0)
        + (if is_of separate markets u (2 * k + 1) then 1 else 0)
unfolding expected_pairs
expected_pairs-suc false markets u k pos h =
    ground (arith, user_even false markets k, user_odd false markets k)
expected_pairs-suc true markets u k pos h = ground (
  arith,
  user_even true markets k,
  user_odd true markets k,
  market_pairs-suc markets k (u / 2) (omega arith),
)

-- The shares that a user should have in a market on one side
unfoldable pub shares_on : Bool → ℕ → ℕ → ℕ → ℕ → ℕ
shares_on no_side markets pairs u m =
    if nat_eq (u % 2) (if no_side then 1 else 0) then market_pairs markets pairs m else 0

abbrev pub IsHolder : Bool → ℕ → ℕ → Type 0
IsHolder true u m = u / 2 ≡ m
IsHolder false u m = u < 2

shares_on-suc :
    (no_side separate : Bool) (markets u m k : ℕ)
    → m < markets
    → IsHolder separate u m
    → shares_on no_side markets (suc k) u m
      ≡ shares_on no_side markets k u m
        + (if is_in separate markets u m no_side (2 * k) then 1 else 0)
        + (if is_in separate markets u m no_side (2 * k + 1) then 1 else 0)
unfolding shares_on
shares_on-suc true true markets u m k h e = ground (
  arith,
  user_even true markets k,
  user_odd true markets k,
  market_pairs-suc markets k m h,
  half_even k,
  half_odd k,
)
shares_on-suc false true markets u m k h e = ground (
  arith,
  user_even true markets k,
  user_odd true markets k,
  market_pairs-suc markets k m h,
  half_even k,
  half_odd k,
)
shares_on-suc true false markets u m k h e = ground (
  arith,
  user_even false markets k,
  user_odd false markets k,
  market_pairs-suc markets k m h,
  half_even k,
  half_odd k,
)
shares_on-suc false false markets u m k h e = ground (
  arith,
  user_even false markets k,
  user_odd false markets k,
  market_pairs-suc markets k m h,
  half_even k,
  half_odd k,
)

-- A number of pairs that grows as above is the count over the jobs that were fed.
count-feed :
    (p : ℕ → Bool) (f : ℕ → ℕ)
    → ((k : ℕ) → f (suc k) ≡ f k + (if p (2 * k) then 1 else 0) + (if p (2 * k + 1) then 1 else 0))
    → f 0 ≡ 0
    → (rounds : ℕ) (stop : ℕ → Bool)
    → f (length (feed rounds stop 0) / 2) ≡ count_if p (feed rounds stop 0)
count-feed p f grows none rounds stop =
    let (n, e) = feed-pairs rounds 0 stop in
    let half : length (pairs_from n 0) / 2 ≡ n + 0 = omega (arith, length-pairs_from n 0) in
    rw (e, half) (omega (arith, count-pairs_from p f grows n 0, none))

expected_pairs-zero :
    (separate : Bool) (markets u : ℕ) → 0 < markets → expected_pairs separate markets 0 u ≡ 0
unfolding expected_pairs
expected_pairs-zero false markets u pos = refl
expected_pairs-zero true markets u pos = market_pairs-zero markets (u / 2) pos

shares_on-zero :
    (no_side : Bool) (markets u m : ℕ) → 0 < markets → shares_on no_side markets 0 u m ≡ 0
unfolding shares_on
shares_on-zero no_side markets u m pos = ground (arith, market_pairs-zero markets m pos)

pub expected_pairs-count :
    (separate : Bool) (markets u : ℕ)
    → 0 < markets
    → IsUser separate markets u
    → (rounds : ℕ) (stop : ℕ → Bool)
    → expected_pairs separate markets (length (feed rounds stop 0) / 2) u
      ≡ count_if (is_of separate markets u) (feed rounds stop 0)
expected_pairs-count separate markets u pos h =
    count-feed (is_of separate markets u) (λ k. expected_pairs separate markets k u)
      (λ k. expected_pairs-suc separate markets u k pos h)
      (expected_pairs-zero separate markets u pos)

pub shares_on-count :
    (no_side separate : Bool) (markets u m : ℕ)
    → m < markets
    → IsHolder separate u m
    → (rounds : ℕ) (stop : ℕ → Bool)
    → shares_on no_side markets (length (feed rounds stop 0) / 2) u m
      ≡ count_if (is_in separate markets u m no_side) (feed rounds stop 0)
shares_on-count no_side separate markets u m h e =
    count-feed (is_in separate markets u m no_side) (λ k. shares_on no_side markets k u m)
      (λ k. shares_on-suc no_side separate markets u m k h e)
      (shares_on-zero no_side markets u m (omega arith))

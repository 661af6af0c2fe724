-- ===== src/Load/Added.antt =====
-- What the samples do to the windows of go-backend/cmd/loadtest/main.go, one after the other.
use Prim.Native.Nat.{◌/◌}
use native.Mathlib.Nat.{le-div_iff_mul-le, div-lt_iff_lt-mul}
use prediction_market.Base.{
  ℕ, zero, suc, ◌+◌, ◌-◌, ◌*◌, ◌≤◌, ◌<◌, ◌≡◌, List, [], ◌∷◌, Option, none, some, length, ltb, leb,
  nat_eq, Bool, ◌&&◌, ◌||◌, ◌↔◌, Bool-cases, inl, inr, if◌then◌else◌, arith, refl, ◌∙◌, ap,
}
use prediction_market.Load.Report.{
  Sample, Window, has_failed, add_to, add_at, window_of, add_samples,
}

-- A window's counts, with the latencies that it is given
abbrev pub orders_sum : List (Window × List ℕ) → ℕ
orders_sum [] = 0
orders_sum ((w, _) ∷ ws) = w.orders + orders_sum ws

abbrev pub durations_sum : List (Window × List ℕ) → ℕ
durations_sum [] = 0
durations_sum ((w, _) ∷ ws) = w.duration + durations_sum ws

abbrev pub orders_at : ℕ → List (Window × List ℕ) → ℕ
orders_at j [] = 0
orders_at zero ((w, _) ∷ ws) = w.orders
orders_at (suc j) (w ∷ ws) = orders_at j ws

abbrev pub failures_at : ℕ → List (Window × List ℕ) → ℕ
failures_at j [] = 0
failures_at zero ((w, _) ∷ ws) = w.failures
failures_at (suc j) (w ∷ ws) = failures_at j ws

-- What a sample for window i does to the windows
abbrev Added : ℕ → Sample → List (Window × List ℕ) → List (Window × List ℕ) → Type 0
Added i s ws ws' =
    (length ws' ≡ length ws)
    × (orders_sum ws' ≡ suc (orders_sum ws))
    × (durations_sum ws' ≡ durations_sum ws)
    × ((j : ℕ) → orders_at j ws' ≡ orders_at j ws + (if nat_eq i j then 1 else 0))
    × ((j : ℕ)
        → failures_at j ws' ≡ failures_at j ws + (if nat_eq i j && has_failed s then 1 else 0))

orders_at-zero :
    (s : Sample) (w : Window × List ℕ) (ws : List (Window × List ℕ)) (j : ℕ)
    → orders_at j (add_to s w ∷ ws) ≡ orders_at j (w ∷ ws) + (if nat_eq 0 j then 1 else 0)
orders_at-zero s w ws zero = refl
orders_at-zero s w ws (suc j) = ground arith

failures_at-zero :
    (s : Sample) (w : Window × List ℕ) (ws : List (Window × List ℕ)) (j : ℕ)
    → failures_at j (add_to s w ∷ ws)
      ≡ failures_at j (w ∷ ws) + (if nat_eq 0 j && has_failed s then 1 else 0)
failures_at-zero s w ws zero = ground arith
failures_at-zero s w ws (suc j) = ground arith

Added-cons :
    (i : ℕ) (s : Sample) (w : Window × List ℕ) (ws ws' : List (Window × List ℕ))
    → Added i s ws ws'
    → Added (suc i) s (w ∷ ws) (w ∷ ws')
Added-cons i s w ws ws' (l, o, d, os, fs) =
    (omega arith, omega arith, omega arith, orders, failures)
  where
    orders :
        (j : ℕ) → orders_at j (w ∷ ws') ≡ orders_at j (w ∷ ws) + (if nat_eq (suc i) j then 1 else 0)
    orders zero = ground arith
    orders (suc j) = ground (arith, os j)

    failures :
        (j : ℕ)
        → failures_at j (w ∷ ws')
          ≡ failures_at j (w ∷ ws) + (if nat_eq (suc i) j && has_failed s then 1 else 0)
    failures zero = ground arith
    failures (suc j) = ground (arith, fs j)

add_at-Added :
    (i : ℕ) (s : Sample) (ws : List (Window × List ℕ))
    → i < length ws
    → (ws' : List (Window × List ℕ)) × (add_at i s ws ≡ some ws') × Added i s ws ws'
unfolding add_at
add_at-Added i s [] h = elim h [ ]
add_at-Added zero s (w ∷ ws) h = (
  add_to s w ∷ ws,
  refl,
  (refl, omega arith, refl, orders_at-zero s w ws, failures_at-zero s w ws),
)
add_at-Added (suc i) s (w ∷ ws) h =
    let (ws', e, added) = add_at-Added i s ws (omega arith) in
    (w ∷ ws', rw e refl, Added-cons i s w ws ws' added)

-- Window j of n has the times from j * width up to the next window's, and the last has all later ones.
abbrev pub is_in : (width n j : ℕ) → Sample → Bool
is_in width n j s =
    ltb j n && (leb (j * width) s.end && (ltb s.end (suc j * width) || nat_eq (suc j) n))

-- How many samples ended in a window, and how many of these failed
unfoldable pub samples_in : (width n j : ℕ) → List Sample → ℕ
samples_in width n j [] = 0
samples_in width n j (s ∷ ss) = (if is_in width n j s then 1 else 0) + samples_in width n j ss

unfoldable pub failed_in : (width n j : ℕ) → List Sample → ℕ
failed_in width n j [] = 0
failed_in width n j (s ∷ ss) =
    (if is_in width n j s && has_failed s then 1 else 0) + failed_in width n j ss

same_leb : (x y a b : ℕ) → (x ≤ y) ↔ (a ≤ b) → leb x y ≡ leb a b
same_leb x y a b h = elim (Bool-cases (leb x y)) [
  | inl before ↦ let le : a ≤ b = h.0 (ground arith) in ground arith
  | inr behind ↦ elim (Bool-cases (leb a b)) [
    | inl le ↦ let less : x ≤ y = h.1 (ground arith) in ground arith
    | inr more ↦ ground arith
  ]
]

same_ltb : (x y a b : ℕ) → (x < y) ↔ (a < b) → ltb x y ≡ ltb a b
same_ltb x y a b h = elim (Bool-cases (ltb x y)) [
  | inl before ↦ let lt : a < b = h.0 (ground arith) in ground arith
  | inr behind ↦ elim (Bool-cases (ltb a b)) [
    | inl lt ↦ let less : x < y = h.1 (ground arith) in ground arith
    | inr more ↦ ground arith
  ]
]

numbered :
    (q n j : ℕ)
    → 0 < n
    → nat_eq (if leb n q then n - 1 else q) j
      ≡ (ltb j n && (leb j q && (ltb q (suc j) || nat_eq (suc j) n)))
numbered q n j some_window = ground arith

-- The window that the code puts a sample into is the one that it ended in.
window_of_lem :
    (width n j : ℕ) (s : Sample)
    → 0 < width
    → 0 < n
    → nat_eq (window_of width n s) j ≡ is_in width n j s
window_of_lem width n j s some_width some_window =
    let q = s.end / width in
    numbered q n j some_window
    ∙ ap (λ b. ltb j n && (b && (ltb q (suc j) || nat_eq (suc j) n)))
        (same_leb j q (j * width) s.end (le-div_iff_mul-le some_width))
    ∙ ap (λ b. ltb j n && (leb (j * width) s.end && (b || nat_eq (suc j) n)))
        (same_ltb q (suc j) s.end (suc j * width) (div-lt_iff_lt-mul some_width))

abbrev AddedAll :
    (width n : ℕ) → List Sample → List (Window × List ℕ) → List (Window × List ℕ) → Type 0
AddedAll width n ss ws ws' =
    (length ws' ≡ length ws)
    × (orders_sum ws' ≡ orders_sum ws + length ss)
    × (durations_sum ws' ≡ durations_sum ws)
    × ((j : ℕ) → orders_at j ws' ≡ orders_at j ws + samples_in width n j ss)
    × ((j : ℕ) → failures_at j ws' ≡ failures_at j ws + failed_in width n j ss)

window_of-lt : (width n : ℕ) (s : Sample) → 0 < n → window_of width n s < n
window_of-lt width n s pos = ground arith

add_samples-cons :
    (width n : ℕ) (s : Sample) (ss : List Sample) (ws : List (Window × List ℕ))
    {ws' : List (Window × List ℕ)}
    → add_at (window_of width n s) s ws ≡ some ws'
    → add_samples width n (s ∷ ss) ws ≡ add_samples width n ss ws'
unfolding add_samples
add_samples-cons width n s ss ws e =
    ap
      (λ (r : Option (List (Window × List ℕ))). elim r [
        | none ↦ none
        | some found ↦ add_samples width n ss found
      ])
      e

pub add_samples-AddedAll :
    (width n : ℕ) (ss : List Sample) (ws : List (Window × List ℕ))
    → 0 < width
    → 0 < n
    → length ws ≡ n
    → (ws' : List (Window × List ℕ)) × (add_samples width n ss ws ≡ some ws')
      × AddedAll width n ss ws ws'
unfolding add_samples samples_in failed_in
add_samples-AddedAll width n [] ws wide pos l =
    (ws, refl, (refl, omega arith, refl, λ j. omega arith, λ j. omega arith))
add_samples-AddedAll width n (s ∷ ss) ws wide pos l =
    let inside : window_of width n s < length ws = omega (arith, window_of-lt width n s pos) in
    let (ws₁, e₁, (l₁, o₁, d₁, os₁, fs₁)) = add_at-Added (window_of width n s) s ws inside in
    let (ws₂, e₂, (l₂, o₂, d₂, os₂, fs₂)) = add_samples-AddedAll width n ss ws₁ wide pos (l₁ ∙ l) in
    (
      ws₂,
      add_samples-cons width n s ss ws e₁ ∙ e₂,
      (
        l₂ ∙ l₁,
        omega (arith, o₁, o₂),
        d₂ ∙ d₁,
        λ j. omega (
          arith,
          os₁ j,
          os₂ j,
          ap {B = ℕ} (λ b. if b then 1 else 0) (window_of_lem width n j s wide pos),
        ),
        λ j. omega (
          arith,
          fs₁ j,
          fs₂ j,
          ap {B = ℕ} (λ b. if b && has_failed s then 1 else 0) (window_of_lem width n j s wide pos),
        ),
      ),
    )

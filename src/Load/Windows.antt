-- ===== src/Load/Windows.antt =====
-- What the windows of go-backend/cmd/loadtest/main.go hold.
use Prim.Native.Nat.{◌/◌}
use native.Mathlib.Nat.{lt-mul-div-succ}
use prediction_market.Base.{
  get_elem?, ℕ, zero, suc, ◌+◌, ◌-◌, ◌*◌, ◌≤◌, ◌<◌, ◌≡◌, List, [], ◌∷◌, Option, none, some, length,
  ltb, arith, refl, ◌∙◌, ap,
}
use prediction_market.Sort.{sort}
use prediction_market.Load.Rank.{percentile-IsNearestRank}
use prediction_market.Load.Report.{
  Sample, Window, percentile, empty_windows, add_samples, close_windows, windows,
}
use prediction_market.Load.Added.{
  orders_at, failures_at, samples_in, failed_in, orders_sum, add_samples-AddedAll, durations_sum,
}

-- The windows as they are returned
abbrev Sums : List (Window × List ℕ) → List Window → Type 0
Sums [] [] = Unit
Sums (x ∷ xs) [] = ⊥
Sums [] (w ∷ ws) = ⊥
Sums ((v, latencies) ∷ xs) (w ∷ ws) =
    (w.orders ≡ v.orders)
    × (w.failures ≡ v.failures)
    × (w.duration ≡ v.duration)
    × (percentile (sort ltb latencies) 99 ≡ some w.p99)
    × Sums xs ws

percentile_total : (xs : List ℕ) → (p : ℕ) × (percentile (sort ltb xs) 99 ≡ some p)
unfolding percentile sort
percentile_total [] = (0, refl)
percentile_total (x ∷ xs) =
    let (d, e, _, _, _) =
      percentile-IsNearestRank (x ∷ xs) 99 (omega arith) (omega arith) (omega arith) in
    (d, e)

close_windows-Sums :
    (xs : List (Window × List ℕ)) → (ws : List Window) × (close_windows xs ≡ some ws) × Sums xs ws
unfolding close_windows
close_windows-Sums [] = ([], refl, tt)
close_windows-Sums ((v, latencies) ∷ xs) =
    let (p, e) = percentile_total latencies in
    let (ws, e', sums) = close_windows-Sums xs in
    (record v { p99 = p } ∷ ws, rw (e, e', close_windows) refl, (refl, refl, refl, e, sums))

durations-empty_windows :
    (elapsed width left i : ℕ)
    → elapsed ≤ (i + left) * width
    → durations_sum (empty_windows elapsed width left i) ≡ elapsed - i * width
unfolding empty_windows
durations-empty_windows elapsed width zero i h = grind arith
durations-empty_windows elapsed width (suc left) i h =
    let next : suc i * width ≡ i * width + width = grind arith in
    let ih = durations-empty_windows elapsed width left (suc i) (grind arith) in ground arith

length-empty_windows :
    (elapsed width left i : ℕ) → length (empty_windows elapsed width left i) ≡ left
unfolding empty_windows
length-empty_windows elapsed width zero i = refl
length-empty_windows elapsed width (suc left) i =
    ap suc (length-empty_windows elapsed width left (suc i))

orders-empty_windows :
    (elapsed width left i : ℕ) → orders_sum (empty_windows elapsed width left i) ≡ 0
unfolding empty_windows
orders-empty_windows elapsed width zero i = refl
orders-empty_windows elapsed width (suc left) i =
    omega (arith, orders-empty_windows elapsed width left (suc i))

at-empty_windows :
    (elapsed width left i j : ℕ)
    → (orders_at j (empty_windows elapsed width left i) ≡ 0)
      × (failures_at j (empty_windows elapsed width left i) ≡ 0)
unfolding empty_windows
at-empty_windows elapsed width zero i j = (refl, refl)
at-empty_windows elapsed width (suc left) i zero = (refl, refl)
at-empty_windows elapsed width (suc left) i (suc j) = at-empty_windows elapsed width left (suc i) j

abbrev total_orders : List Window → ℕ
total_orders [] = 0
total_orders (w ∷ ws) = w.orders + total_orders ws

abbrev total_duration : List Window → ℕ
total_duration [] = 0
total_duration (w ∷ ws) = w.duration + total_duration ws

Sums-totals :
    (xs : List (Window × List ℕ)) (ws : List Window)
    → Sums xs ws
    → (length ws ≡ length xs)
      × (total_orders ws ≡ orders_sum xs)
      × (total_duration ws ≡ durations_sum xs)
Sums-totals [] [] h = (refl, refl, refl)
Sums-totals [] (w ∷ ws) h = absurd h
Sums-totals (x ∷ xs) [] h = absurd h
Sums-totals ((v, latencies) ∷ xs) (w ∷ ws) (o, f, d, _, h) =
    let (l, os, ds) = Sums-totals xs ws h in (ap suc l, omega (arith, o, os), omega (arith, d, ds))

Sums-at :
    (xs : List (Window × List ℕ)) (ws : List Window) (j : ℕ) {w : Window}
    → Sums xs ws
    → get_elem? ws j ≡ some w
    → (w.orders ≡ orders_at j xs) × (w.failures ≡ failures_at j xs)
Sums-at [] [] j h e = absurd (cc e)
Sums-at [] (w ∷ ws) j h e = absurd h
Sums-at (x ∷ xs) [] j h e = absurd h
Sums-at ((v, latencies) ∷ xs) (w ∷ ws) zero (o, f, d, _, h) e = ground arith
Sums-at ((v, latencies) ∷ xs) (w ∷ ws) (suc j) (o, f, d, _, h) e = Sums-at xs ws j h e

-- The number of windows
abbrev pub window_count : (elapsed width : ℕ) → ℕ
window_count elapsed width = (elapsed + width - 1) / width

abbrev pub IsPartition : List Sample → (elapsed width : ℕ) → List Window → Type 0
IsPartition samples elapsed width ws =
    (length ws ≡ window_count elapsed width)
    × (total_duration ws ≡ elapsed)
    × (total_orders ws ≡ length samples)
    × ((j : ℕ) (w : Window)
        → get_elem? ws j ≡ some w
        → (w.orders ≡ samples_in width (window_count elapsed width) j samples)
          × (w.failures ≡ failed_in width (window_count elapsed width) j samples))

window_count-covers : (elapsed width : ℕ) → 0 < width → elapsed ≤ window_count elapsed width * width
window_count-covers elapsed width pos = grind (arith, lt-mul-div-succ (elapsed + width - 1) pos)

windows-some :
    (samples : List Sample) (elapsed width : ℕ) {xs : List (Window × List ℕ)} {ws : List Window}
    → add_samples width
        (window_count elapsed width)
        samples
        (empty_windows elapsed width (window_count elapsed width) 0)
      ≡ some xs
    → close_windows xs ≡ some ws
    → windows samples elapsed width ≡ some ws
unfolding windows
windows-some samples elapsed width e e' =
    ap
      (λ (r : Option (List (Window × List ℕ))). elim r [
        | none ↦ none
        | some found ↦ close_windows found
      ])
      e
    ∙ e'

-- After a run of some time, windows of some width give no error: they take the whole time between
-- them, and each counts the samples that ended in its time, the last also those that ended later, and
-- those of them that failed, so that every sample is counted once.
pub windows-IsPartition :
    (samples : List Sample) (elapsed width : ℕ)
    → 0 < elapsed
    → 0 < width
    → (ws : List Window) × (windows samples elapsed width ≡ some ws)
      × IsPartition samples elapsed width ws
windows-IsPartition samples elapsed width some_time some_width =
    let n : ℕ = window_count elapsed width in
    let covers : elapsed ≤ n * width = window_count-covers elapsed width some_width in
    let pos : 0 < n = grind arith in
    let (xs, e, (l, o, d, os, fs)) =
      add_samples-AddedAll width n samples (empty_windows elapsed width n 0) some_width pos
        (length-empty_windows elapsed width n 0) in
    let (ws, e', sums) = close_windows-Sums xs in
    let (l', o', d') = Sums-totals xs ws sums in
    (
      ws,
      windows-some samples elapsed width e e',
      (
        l' ∙ l ∙ length-empty_windows elapsed width n 0,
        omega (arith, d', d, durations-empty_windows elapsed width n 0 (omega (arith, covers))),
        omega (arith, o', o, orders-empty_windows elapsed width n 0),
        λ j w at.
            let (a, b) = Sums-at xs ws j sums at in
            let (c, f) = at-empty_windows elapsed width n 0 j in
            (omega (arith, a, os j, c), omega (arith, b, fs j, f)),
      ),
    )

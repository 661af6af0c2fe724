-- ===== src/Metrics/Lockfree.antt =====
-- The loop of `Observe` on the maximum (go-backend/internal/metrics/metrics.go) ends, however the calls interleave.
use prediction_market.Base.{
  ℕ, zero, suc, ◌+◌, ◌*◌, ◌≤◌, ◌≡◌, Bool, true, false, List, [], ◌∷◌, length, nat_eq, arith,
  if◌then◌else◌, ◌⊎◌, inl, inr, refl, ap, ◌∙◌, sym, Bool-cases,
}
use prediction_market.Metrics.{
  Stage, Registry, Progress, entered, counted, loading, swapping, returned, Call, advance_at,
  advance, step, run, observe_all,
}

-- How many operations a call has ahead, `k` for the others' swaps that its own may spoil.
abbrev work_at : ℕ → ℕ → Progress → ℕ
work_at k max entered = k + 5
work_at k max counted = k + 4
work_at k max loading = k + 2
work_at k max (swapping old) = if nat_eq max old then k + 1 else k + 3
work_at k max returned = 0

work : ℕ → ℕ → List Call → ℕ
work k max [] = 0
work k max (c ∷ cs) = work_at k max c.at + work k max cs

work_at-max : (k max max' : ℕ) (p : Progress) → work_at k max' p ≤ work_at k max p + 2
work_at-max k max max' (swapping old) = ground arith
work_at-max k max max' entered = omega arith
work_at-max k max max' counted = omega arith
work_at-max k max max' loading = omega arith
work_at-max k max max' returned = omega arith

work-max : (k max max' : ℕ) (cs : List Call) → work k max' cs ≤ work k max cs + 2 * length cs
unfolding work
work-max k max max' [] = omega arith
work-max k max max' (c ∷ cs) = omega (arith, work-max k max max' cs, work_at-max k max max' c.at)

-- Whether a turn of the call would do something
abbrev pub runs_at : Progress → Bool
runs_at returned = false
runs_at _ = true

abbrev pub runs : ℕ → List Call → Bool
runs k [] = false
runs zero (c ∷ cs) = runs_at c.at
runs (suc k) (c ∷ cs) = runs k cs

-- The operations that a schedule really takes
unfoldable pub operations : List ℕ → Registry → List Call → ℕ
operations [] m cs = 0
operations (k ∷ ks) m cs =
    let (m', cs') = step k m cs in (if runs k cs then 1 else 0) + operations ks m' cs'

-- One operation uses up work, or replaces the maximum, and then the call has returned.
abbrev Spent : (k max max' w w' others : ℕ) → Type 0
Spent k max max' w w' others = ((max' ≡ max) × (suc w' ≤ w)) ⊎ (w' + k + 1 ≤ w + 2 * others)

advance_at-Spent :
    (k d : ℕ) (p : Progress) (s : Stage) (m : Registry)
    → runs_at p ≡ true
    → Spent k m.snapshot_pause_max
        (advance_at p s d m).0.snapshot_pause_max
        (work_at k m.snapshot_pause_max p)
        (work_at k (advance_at p s d m).0.snapshot_pause_max (advance_at p s d m).1)
        0
unfolding advance_at
advance_at-Spent k d entered s m h = inl (refl, omega arith)
advance_at-Spent k d counted s m h = inl (refl, ground arith)
advance_at-Spent k d loading s m h = inl (refl, ground arith)
advance_at-Spent k d (swapping old) s m h = ground arith
advance_at-Spent k d returned s m h = absurd (ground arith)

advance-Spent :
    (k : ℕ) (c : Call) (m : Registry)
    → runs_at c.at ≡ true
    → Spent k m.snapshot_pause_max
        (advance c m).0.snapshot_pause_max
        (work_at k m.snapshot_pause_max c.at)
        (work_at k (advance c m).0.snapshot_pause_max (advance c m).1.at)
        0
unfolding advance
advance-Spent k c m h = advance_at-Spent k c.duration c.at c.stage m h

-- The calls before and after the one that is next may have loaded a maximum that it replaces.
step-Spent :
    (k i : ℕ) (m : Registry) (cs : List Call)
    → runs i cs ≡ true
    → Spent k m.snapshot_pause_max
        (step i m cs).0.snapshot_pause_max
        (work k m.snapshot_pause_max cs)
        (work k (step i m cs).0.snapshot_pause_max (step i m cs).1)
        (length cs)
unfolding step work advance
step-Spent k i m [] h = absurd (ground arith)
step-Spent k zero m (c ∷ cs) h =
    let m' = (advance c m).0 in
    elim (advance-Spent k c m h) [
      | inl (e, l) ↦ inl (e, omega (arith, l, ap (λ (x : ℕ). work k x cs) e))
      | inr l ↦ inr (omega (arith, l, work-max k m.snapshot_pause_max m'.snapshot_pause_max cs))
    ]
step-Spent k (suc i) m (c ∷ cs) h =
    let m' = (step i m cs).0 in
    elim (step-Spent k i m cs h) [
      | inl (e, l) ↦ inl (e, omega (arith, l, ap (λ (x : ℕ). work_at k x c.at) e))
      | inr l ↦
          inr (omega (arith, l, work_at-max k m.snapshot_pause_max m'.snapshot_pause_max c.at))
    ]

length-step : (i : ℕ) (m : Registry) (cs : List Call) → length (step i m cs).1 ≡ length cs
unfolding step
length-step i m [] = refl
length-step zero m (c ∷ cs) = refl
length-step (suc i) m (c ∷ cs) = ap suc (length-step i m cs)

step-idle : (i : ℕ) (m : Registry) (cs : List Call) → runs i cs ≡ false → step i m cs ≡ (m, cs)
unfolding step advance
step-idle i m [] h = refl
step-idle zero m (c ∷ cs) h = ground arith
step-idle (suc i) m (c ∷ cs) h = ground (arith, step-idle i m cs h)

spent_one :
    (k i : ℕ) (m : Registry) (cs : List Call)
    → k ≡ 2 * length cs
    → runs i cs ≡ true
    → suc (work k (step i m cs).0.snapshot_pause_max (step i m cs).1)
      ≤ work k m.snapshot_pause_max cs
spent_one k i m cs few h = elim (step-Spent k i m cs h) [
  | inl (e, l) ↦ l
  | inr l ↦ omega (arith, few, l)
]

work-observe_all :
    (k max : ℕ) (xs : List (Stage × ℕ)) → work k max (observe_all xs) ≡ (k + 5) * length xs
unfolding work
work-observe_all k max [] = omega arith
work-observe_all k max ((s, d) ∷ xs) = grind (arith, work-observe_all k max xs)

length-observe_all : (xs : List (Stage × ℕ)) → length (observe_all xs) ≡ length xs
length-observe_all [] = refl
length-observe_all (x ∷ xs) = ap suc (length-observe_all xs)

run-Spent :
    (k : ℕ) (ks : List ℕ) (m : Registry) (cs : List Call)
    → k ≡ 2 * length cs
    → operations ks m cs + work k (run ks m cs).0.snapshot_pause_max (run ks m cs).1
      ≤ work k m.snapshot_pause_max cs
unfolding operations run
run-Spent k [] m cs few = omega arith
run-Spent k (i ∷ ks) m cs few =
    let ih =
      run-Spent k ks (step i m cs).0 (step i m cs).1
        (few ∙ ap (λ (n : ℕ). 2 * n) (sym (length-step i m cs))) in
    elim (Bool-cases (runs i cs)) [
      | inl now ↦ rw now (omega (arith, spent_one k i m cs few now, ih))
      | inr idle ↦ rw idle (
          omega (
            arith,
            ih,
            ap (λ (r : Registry × List Call). work k r.0.snapshot_pause_max r.1)
                (step-idle i m cs idle),
          ))
    ]

-- However n calls of Observe take turns, they make at most n * (2 * n + 5) atomic operations together,
-- so no call repeats its comparison for ever.
pub operations-le :
    (ks : List ℕ) (m : Registry) (xs : List (Stage × ℕ))
    → operations ks m (observe_all xs) ≤ length xs * (2 * length xs + 5)
operations-le ks m xs =
    let k : ℕ = 2 * length xs in
    grind (
      arith,
      run-Spent k ks m (observe_all xs) (ap (λ (n : ℕ). 2 * n) (sym (length-observe_all xs))),
      work-observe_all k m.snapshot_pause_max xs,
    )

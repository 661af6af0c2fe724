-- ===== src/Metrics/Observed.antt =====
-- What the counters hold when the calls of `Observe` have returned (go-backend/internal/metrics/metrics.go).
use prediction_market.Base.{
  ℕ, zero, suc, ◌+◌, ◌%◌, ◌^◌, ◌≤◌, ◌≡◌, true, List, [], ◌∷◌, arith, if◌then◌else◌, refl, ap, ◌∙◌,
  subst, Bool-cases, inl, inr, ltb, ◌&&◌,
}
use prediction_market.Metrics.Totals.{
  Adds, total, times, time, advance-times, advance-time, run-total,
}
use prediction_market.Metrics.Maximum.{FitsAt, Fits, Longest, run-Bounded}
use prediction_market.Metrics.{
  Stage, stage_eq, snapshot_pause, Registry, new_registry, returned, Call, advance, step, run,
  observe, observe_all,
}

-- What the calls were asked to observe
abbrev observations : List Call → List (Stage × ℕ)
observations [] = []
observations (c ∷ cs) = (c.stage, c.duration) ∷ observations cs

step-observations :
    (i : ℕ) (m : Registry) (cs : List Call) → observations (step i m cs).1 ≡ observations cs
unfolding step advance
step-observations i m [] = refl
step-observations zero m (c ∷ cs) = refl
step-observations (suc i) m (c ∷ cs) =
    ap (λ (xs : List (Stage × ℕ)). (c.stage, c.duration) ∷ xs) (step-observations i m cs)

run-observations :
    (ks : List ℕ) (m : Registry) (cs : List Call) → observations (run ks m cs).1 ≡ observations cs
unfolding run
run-observations [] m cs = refl
run-observations (k ∷ ks) m cs =
    run-observations ks (step k m cs).0 (step k m cs).1 ∙ step-observations k m cs

observations-observe_all : (xs : List (Stage × ℕ)) → observations (observe_all xs) ≡ xs
observations-observe_all [] = refl
observations-observe_all ((s, d) ∷ xs) =
    ap (λ (ys : List (Stage × ℕ)). (s, d) ∷ ys) (observations-observe_all xs)

-- How often a stage was observed, and how long together
unfoldable pub times_of : Stage → List (Stage × ℕ) → ℕ
times_of s [] = 0
times_of s ((t, d) ∷ xs) = (if stage_eq t s then 1 else 0) + times_of s xs

unfoldable pub time_of : Stage → List (Stage × ℕ) → ℕ
time_of s [] = 0
time_of s ((t, d) ∷ xs) = (if stage_eq t s then d else 0) + time_of s xs

-- The longest pause observed, 0 if there is none
unfoldable pub longest_pause : List (Stage × ℕ) → ℕ
longest_pause [] = 0
longest_pause ((t, d) ∷ xs) =
    let rest = longest_pause xs in if stage_eq t snapshot_pause && ltb rest d then d else rest

-- Every call has made all of its operations.
abbrev pub AllReturned : List Call → Type 0
AllReturned [] = Unit
AllReturned (c ∷ cs) = (c.at ≡ returned) × AllReturned cs

total-times :
    (s : Stage) (cs : List Call)
    → AllReturned cs
    → total (times s) cs ≡ times_of s (observations cs)
unfolding times_of
total-times s [] h = refl
total-times s (c ∷ cs) (e, hs) = rw e (omega (arith, total-times s cs hs))

total-time :
    (s : Stage) (cs : List Call) → AllReturned cs → total (time s) cs ≡ time_of s (observations cs)
unfolding time_of
total-time s [] h = refl
total-time s (c ∷ cs) (e, hs) = rw e (omega (arith, total-time s cs hs))

total-observe_all :
    (part : Call → ℕ)
    → ((s : Stage) (d : ℕ) → part (observe s d) ≡ 0)
    → (xs : List (Stage × ℕ)) → total part (observe_all xs) ≡ 0
total-observe_all part none_yet [] = refl
total-observe_all part none_yet ((s, d) ∷ xs) =
    omega (arith, none_yet s d, total-observe_all part none_yet xs)

-- A word that is 0 at first holds, at the end, the sum of what the calls add to it.
run-total_of :
    (word : Registry → ℕ) (part : Call → ℕ)
    → Adds word part
    → word new_registry ≡ 0
    → ((s : Stage) (d : ℕ) → part (observe s d) ≡ 0)
    → (xs : List (Stage × ℕ)) (ks : List ℕ) (n : ℕ)
    → total part (run ks new_registry (observe_all xs)).1 ≡ n
    → word (run ks new_registry (observe_all xs)).0 ≡ n % 2 ^ 64
run-total_of word part adds none none_yet xs ks n e = omega (
  arith,
  e,
  run-total word part adds ks new_registry (observe_all xs) 0
      (omega (arith, none, total-observe_all part none_yet xs)),
)

no_times : (s t : Stage) (d : ℕ) → times s (observe t d) ≡ 0
no_times s t d = ground arith

no_time : (s t : Stage) (d : ℕ) → time s (observe t d) ≡ 0
no_time s t d = ground arith

longest_pause-le :
    (cs : List Call) (max : ℕ)
    → AllReturned cs
    → Fits cs max
    → longest_pause (observations cs) ≤ max
unfolding longest_pause
longest_pause-le [] max r f = omega arith
longest_pause-le (c ∷ cs) max (e, rs) (f, fs) =
    let ih = longest_pause-le cs max rs fs in
    let mine : stage_eq c.stage snapshot_pause ≡ true → c.duration ≤ max =
      subst (λ p. FitsAt p c.stage c.duration max) e f in
    elim (Bool-cases (stage_eq c.stage snapshot_pause)) [
      | inl pause ↦ let l = mine pause in ground arith
      | inr other ↦ rw other ih
    ]

Longest-mono : (a b : ℕ) (cs : List Call) → a ≤ b → Longest a cs → Longest b cs
Longest-mono a b [] l h = tt
Longest-mono a b (c ∷ cs) l (h, hs) = (λ e. omega (arith, h e), Longest-mono a b cs l hs)

Bounded-observe_all :
    (xs : List (Stage × ℕ)) (m : Registry)
    → Fits (observe_all xs) m.snapshot_pause_max × Longest (longest_pause xs) (observe_all xs)
unfolding longest_pause
Bounded-observe_all [] m = (tt, tt)
Bounded-observe_all ((s, d) ∷ xs) m =
    let (f, l) = Bounded-observe_all xs m in
    ((tt, f), ((λ e. ground arith), Longest-mono _ _ (observe_all xs) (ground arith) l))

-- When all calls have returned, in whatever order they took their operations: the counters.
abbrev pub IsObserved : List (Stage × ℕ) → Registry → Type 0
IsObserved xs m =
    ((s : Stage)
      → ((m.stages s).count ≡ times_of s xs % 2 ^ 64)
        × ((m.stages s).duration ≡ time_of s xs % 2 ^ 64))
    × (m.snapshot_pause_max ≡ longest_pause xs)

pub run-IsObserved :
    (xs : List (Stage × ℕ)) (ks : List ℕ)
    → AllReturned (run ks new_registry (observe_all xs)).1
    → IsObserved xs (run ks new_registry (observe_all xs)).0
run-IsObserved xs ks done =
    let cs = (run ks new_registry (observe_all xs)).1 in
    let asked : observations cs ≡ xs =
      run-observations ks new_registry (observe_all xs) ∙ observations-observe_all xs in
    let (fits, long) = Bounded-observe_all xs new_registry in
    let (fits', low, high, _) =
      run-Bounded (longest_pause xs) ks new_registry (observe_all xs)
        (fits, omega arith, omega arith, long) in
    (
      λ s. (
        run-total_of (λ m. (m.stages s).count) (times s) (advance-times s) refl (no_times s) xs ks _
            (total-times s cs done ∙ ap (times_of s) asked),
        run-total_of (λ m. (m.stages s).duration) (time s) (advance-time s) refl (no_time s) xs ks _
            (total-time s cs done ∙ ap (time_of s) asked),
      ),
      omega (arith, high, longest_pause-le cs _ done fits', ap longest_pause asked),
    )

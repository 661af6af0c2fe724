-- ===== src/Metrics/Totals.antt =====
-- What the calls of `Observe` have added to the counters (go-backend/internal/metrics/metrics.go) after any of their operations.
use prediction_market.Base.{ℕ, zero, suc, ◌+◌, ◌%◌, ◌^◌, ◌≡◌, List, [], ◌∷◌, arith, if◌then◌else◌}
use prediction_market.Metrics.{
  Stage, stage_eq, Registry, Progress, entered, counted, loading, swapping, returned, Call,
  advance_at, advance, step, run,
}

-- A word of the registry, and the amount that each call has added to it: `Adds` says that an
-- operation of a call keeps the word at the start plus the amount.
abbrev pub Adds : (Registry → ℕ) → (Call → ℕ) → Type 0
Adds word part =
    (c : Call) (m : Registry) (a : ℕ)
    → word m ≡ (a + part c) % 2 ^ 64
    → word (advance c m).0 ≡ (a + part (advance c m).1) % 2 ^ 64

abbrev pub total : (Call → ℕ) → List Call → ℕ
total part [] = 0
total part (c ∷ cs) = part c + total part cs

module _ (word : Registry → ℕ) (part : Call → ℕ) where
  step-total :
      Adds word part
      → (i : ℕ) (m : Registry) (cs : List Call) (a : ℕ) → word m ≡ (a + total part cs) % 2 ^ 64
      → word (step i m cs).0 ≡ (a + total part (step i m cs).1) % 2 ^ 64
  unfolding step
  step-total adds i m [] a h = h
  step-total adds zero m (c ∷ cs) a h =
      omega (arith, h, adds c m (a + total part cs) (omega (arith, h)))
  step-total adds (suc i) m (c ∷ cs) a h =
      omega (arith, step-total adds i m cs (a + part c) (omega (arith, h)))

  pub run-total :
      Adds word part
      → (ks : List ℕ) (m : Registry) (cs : List Call) (a : ℕ)
      → word m ≡ (a + total part cs) % 2 ^ 64
      → word (run ks m cs).0 ≡ (a + total part (run ks m cs).1) % 2 ^ 64
  unfolding run
  run-total adds [] m cs a h = h
  run-total adds (k ∷ ks) m cs a h =
      run-total adds ks (step k m cs).0 (step k m cs).1 a (step-total adds k m cs a h)

-- What a call at a position has added
abbrev pub times_at : Progress → ℕ
times_at entered = 0
times_at _ = 1

abbrev pub time_at : Progress → ℕ → ℕ
time_at entered d = 0
time_at counted d = 0
time_at _ d = d

abbrev pub times : Stage → Call → ℕ
times s c = if stage_eq c.stage s then times_at c.at else 0

abbrev pub time : Stage → Call → ℕ
time s c = if stage_eq c.stage s then time_at c.at c.duration else 0

pub advance-times : (s : Stage) → Adds (λ m. (m.stages s).count) (times s)
unfolding advance
advance-times s c m a h = at c.at c.stage c.duration h
  where
    at :
        (p : Progress) (t : Stage) (d : ℕ)
        → (m.stages s).count ≡ (a + (if stage_eq t s then times_at p else 0)) % 2 ^ 64
        → ((advance_at p t d m).0.stages s).count
          ≡ (a + (if stage_eq t s then times_at (advance_at p t d m).1 else 0)) % 2 ^ 64
    at entered t d e = ground arith
    at counted t d e = ground arith
    at loading t d e = ground arith
    at (swapping old) t d e = ground arith
    at returned t d e = e

pub advance-time : (s : Stage) → Adds (λ m. (m.stages s).duration) (time s)
unfolding advance
advance-time s c m a h = at c.at c.stage c.duration h
  where
    at :
        (p : Progress) (t : Stage) (d : ℕ)
        → (m.stages s).duration ≡ (a + (if stage_eq t s then time_at p d else 0)) % 2 ^ 64
        → ((advance_at p t d m).0.stages s).duration
          ≡ (a + (if stage_eq t s then time_at (advance_at p t d m).1 d else 0)) % 2 ^ 64
    at entered t d e = ground arith
    at counted t d e = ground arith
    at loading t d e = ground arith
    at (swapping old) t d e = ground arith
    at returned t d e = e

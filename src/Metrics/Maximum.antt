-- ===== src/Metrics/Maximum.antt =====
-- What the longest pause is (go-backend/internal/metrics/metrics.go) after any operations of the calls of `Observe`.
use prediction_market.Base.{
  ℕ, zero, suc, ◌≤◌, ◌<◌, ◌≡◌, true, List, [], ◌∷◌, nat_eq, arith, Bool-cases, inl, inr, ltb,
}
use prediction_market.Metrics.{
  Stage, stage_eq, snapshot_pause, Registry, Progress, entered, counted, loading, swapping,
  returned, Call, advance_at, advance, step, run,
}

-- The position of a call against the maximum that is stored
abbrev pub FitsAt : Progress → Stage → ℕ → ℕ → Type 0
FitsAt entered s d max = Unit
FitsAt counted s d max = Unit
FitsAt loading s d max = stage_eq s snapshot_pause ≡ true
FitsAt (swapping old) s d max = (old < d) × (stage_eq s snapshot_pause ≡ true)
FitsAt returned s d max = stage_eq s snapshot_pause ≡ true → d ≤ max

abbrev pub Fits : List Call → ℕ → Type 0
Fits [] max = Unit
Fits (c ∷ cs) max = FitsAt c.at c.stage c.duration max × Fits cs max

FitsAt-mono : (p : Progress) (s : Stage) (d a b : ℕ) → a ≤ b → FitsAt p s d a → FitsAt p s d b
FitsAt-mono entered s d a b l h = tt
FitsAt-mono counted s d a b l h = tt
FitsAt-mono loading s d a b l h = h
FitsAt-mono (swapping old) s d a b l h = h
FitsAt-mono returned s d a b l h = λ e. omega (arith, h e)

Fits-mono : (cs : List Call) (a b : ℕ) → a ≤ b → Fits cs a → Fits cs b
Fits-mono [] a b l h = tt
Fits-mono (c ∷ cs) a b l (h, hs) =
    (FitsAt-mono c.at c.stage c.duration a b l h, Fits-mono cs a b l hs)

-- One operation keeps the position right, raises the maximum, and to no more than the longest.
advance_at-FitsAt :
    (p : Progress) (s : Stage) (d most : ℕ) (m : Registry)
    → FitsAt p s d m.snapshot_pause_max
    → (stage_eq s snapshot_pause ≡ true → d ≤ most)
    → m.snapshot_pause_max ≤ most
    → FitsAt (advance_at p s d m).1 s d (advance_at p s d m).0.snapshot_pause_max
      × (m.snapshot_pause_max ≤ (advance_at p s d m).0.snapshot_pause_max)
      × ((advance_at p s d m).0.snapshot_pause_max ≤ most)
unfolding advance_at
advance_at-FitsAt entered s d most m h long l = (tt, omega arith, l)
advance_at-FitsAt counted s d most m h long l = elim (Bool-cases (stage_eq s snapshot_pause)) [
  | inl e ↦ rw e (e, omega arith, l)
  | inr e ↦ rw e (λ t. ground arith, omega arith, l)
]
advance_at-FitsAt loading s d most m h long l = elim (Bool-cases (ltb m.snapshot_pause_max d)) [
  | inl e ↦ rw e ((ground arith, h), omega arith, l)
  | inr e ↦ rw e (λ t. ground arith, omega arith, l)
]
advance_at-FitsAt (swapping old) s d most m h long l =
    elim (Bool-cases (nat_eq m.snapshot_pause_max old)) [
      | inl e ↦ rw e (λ t. omega arith, ground (arith, h.0), long h.1)
      | inr e ↦ rw e (h.1, omega arith, l)
    ]
advance_at-FitsAt returned s d most m h long l = (h, omega arith, l)

abbrev pub Longest : ℕ → List Call → Type 0
Longest most [] = Unit
Longest most (c ∷ cs) =
    (stage_eq c.stage snapshot_pause ≡ true → c.duration ≤ most) × Longest most cs

abbrev pub Bounded : ℕ → ℕ → Registry → List Call → Type 0
Bounded most low m cs =
    Fits cs m.snapshot_pause_max
    × (low ≤ m.snapshot_pause_max)
    × (m.snapshot_pause_max ≤ most)
    × Longest most cs

step-Bounded :
    (most : ℕ) (i : ℕ) (m : Registry) (cs : List Call)
    → Bounded most 0 m cs
    → Bounded most m.snapshot_pause_max (step i m cs).0 (step i m cs).1
unfolding step advance
step-Bounded most i m [] (f, low, high, long) = (tt, omega arith, high, tt)
step-Bounded most zero m (c ∷ cs) ((f, fs), low, high, (long, longs)) =
    let (f', up, high') = advance_at-FitsAt c.at c.stage c.duration most m f long high in
    ((f', Fits-mono cs _ _ up fs), up, high', (long, longs))
step-Bounded most (suc i) m (c ∷ cs) ((f, fs), low, high, (long, longs)) =
    let (fs', up, high', longs') = step-Bounded most i m cs (fs, low, high, longs) in
    ((FitsAt-mono c.at c.stage c.duration _ _ up f, fs'), up, high', (long, longs'))

pub run-Bounded :
    (most : ℕ) (ks : List ℕ) (m : Registry) (cs : List Call)
    → Bounded most 0 m cs
    → Bounded most 0 (run ks m cs).0 (run ks m cs).1
unfolding run
run-Bounded most [] m cs h = h
run-Bounded most (k ∷ ks) m cs h =
    let (fs, up, high, long) = step-Bounded most k m cs h in
    run-Bounded most ks (step k m cs).0 (step k m cs).1 (fs, omega arith, high, long)

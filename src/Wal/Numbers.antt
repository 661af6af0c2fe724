-- ===== src/Wal/Numbers.antt =====
-- Sequence numbers on disk: the last number of a file never passes the state's, and a batch with
-- the next numbers is read back whole.
use prediction_market.Base.{
  ℕ, suc, ◌≤◌, ◌≡◌, refl, ap, fun_ext, arith, Bool, false, Option, none, some, List, [], ◌∷◌, ◌++◌,
  ltb, if◌then◌else◌, get_or, inl, inr, ◌⊎◌,
}
use prediction_market.Int.{pos}
use prediction_market.Ledger.{Service, Event, Error, apply_all}
use prediction_market.Ledger.Sequence.{
  IsConsecutive, last_sequence, sequence-apply_all, failure-apply_all,
}
use prediction_market.Result.{Result, ok, err, ◌>>=◌}
use prediction_market.Machine.{Line, WalFile, Disk, Snapshot, wal_record}
use prediction_market.Wal.{line_events, pending_events, append_line, new_file}
use prediction_market.Wal.Replay.{
  replayed_line, replayed_lines, replayed_lines-append, replayed_file, loaded, recovered,
}

pub Result-cases {ℓ} :
    {A : Type ℓ} (r : Result A) → ((a : A) × (r ≡ ok a)) ⊎ ((e : Error) × (r ≡ err e))
Result-cases (ok a) = inl (a, refl)
Result-cases (err e) = inr (e, refl)

-- A batch with the next numbers is new to the state, all of it.
pending_events-IsConsecutive :
    (es : List Event) (n known previous : ℕ)
    → IsConsecutive n es
    → known ≤ n
    → previous ≤ n
    → (last : ℕ) × (pending_events known previous es ≡ ok (es, last))
unfolding pending_events
pending_events-IsConsecutive [] n known previous h hk hp = (previous, refl)
pending_events-IsConsecutive (e ∷ es) n known previous h hk hp =
    let (last, rest) =
      pending_events-IsConsecutive es (suc n) known e.sequence h.1 (omega arith) (omega arith) in
    (last, ground arith)

-- The last number that was read is one that the state has reached.
pending_events-le :
    (es : List Event) (known previous n : ℕ) (found : List Event) (last : ℕ)
    → pending_events known previous es ≡ ok (found, last)
    → known ≤ n
    → previous ≤ n
    → last ≤ last_sequence n found
unfolding pending_events last_sequence
pending_events-le [] known previous n found last h hk hp = ground arith
pending_events-le (e ∷ es) known previous n found last h hk hp =
    elim (Result-cases (pending_events known e.sequence es)) [
      | inl ((found', last'), rest) ↦ ground (
        arith,
        pending_events-le es known e.sequence (if ltb n e.sequence then e.sequence else n) found'
            last' rest,
        pending_events-le es known e.sequence n found' last' rest,
      )
      | inr (x, rest) ↦ ground arith
    ]

replayed_line-le :
    (l : Line) (s : Service) (previous : ℕ) (t : Service × ℕ)
    → replayed_line s previous l ≡ ok t
    → previous ≤ s.sequence
    → (t.1 ≤ t.0.sequence) × (t.0.failure ≡ s.failure)
unfolding replayed_line
replayed_line-le l s previous t h hp = elim (Result-cases (line_events l)) [
  | inr (x, e) ↦ ground arith
  | inl (events, e) ↦ elim (Result-cases (pending_events s.sequence previous events)) [
    | inr (x, e') ↦ ground arith
    | inl ((found, last), e') ↦ ground (
      arith,
      pending_events-le events s.sequence previous s.sequence found last e',
      sequence-apply_all found s,
      failure-apply_all found s,
    )
  ]
]

pub replayed_lines-le :
    (ls : List Line) (s : Service) (previous : ℕ) (t : Service × ℕ)
    → replayed_lines s previous ls ≡ ok t
    → previous ≤ s.sequence
    → (t.1 ≤ t.0.sequence) × (t.0.failure ≡ s.failure)
unfolding replayed_lines
replayed_lines-le [] s previous t h hp = ground arith
replayed_lines-le (l ∷ ls) s previous t h hp = elim (Result-cases (replayed_line s previous l)) [
  | inr (x, e) ↦ ground arith
  | inl (u, e) ↦
      ground (arith, replayed_line-le l s previous u e hp, replayed_lines-le ls u.0 u.1 t)
]

pub replayed_file-failure :
    (f : Option WalFile) (s t : Service) → replayed_file s f ≡ ok t → t.failure ≡ s.failure
unfolding replayed_file
replayed_file-failure none s t h = ground arith
replayed_file-failure (some f) s t h = elim (Result-cases (replayed_lines s 0 f.lines)) [
  | inr (x, e) ↦ ground arith
  | inl (u, e) ↦ ground (arith, replayed_lines-le f.lines s 0 u e)
]

pub loaded-failure : (state : Option Snapshot) → (loaded state).failure ≡ none
unfolding loaded
loaded-failure none = refl
loaded-failure (some state) = refl

-- A restart comes up without a failure.
pub recovered-failure : (d : Disk) (s : Service) → recovered d ≡ ok s → s.failure ≡ none
unfolding recovered loaded
recovered-failure d s h = elim (Result-cases (replayed_file (loaded d.snapshot) d.previous)) [
  | inr (x, e) ↦ ground arith
  | inl (u, e) ↦ ground (
    arith,
    replayed_file-failure d.previous (loaded d.snapshot) u e,
    replayed_file-failure d.current u s,
    loaded-failure d.snapshot,
  )
]

-- A line with the next numbers is applied whole.
replayed_line-IsConsecutive :
    (e : Event) (es : List Event) (s : Service) (previous : ℕ)
    → IsConsecutive s.sequence (e ∷ es)
    → previous ≤ s.sequence
    → (last : ℕ) × (replayed_line s previous (wal_record (pos 1) (e ∷ es))
        ≡ ok (apply_all s (e ∷ es), last))
unfolding replayed_line line_events
replayed_line-IsConsecutive e es s previous h hp =
    let (last, found) =
      pending_events-IsConsecutive (e ∷ es) s.sequence s.sequence previous h (omega arith) hp in
    (last, rw found refl)

replayed_lines-IsConsecutive :
    (ls : List Line) (e : Event) (es : List Event) (s : Service) (previous : ℕ) (u : Service × ℕ)
    → replayed_lines s previous ls ≡ ok u
    → previous ≤ s.sequence
    → IsConsecutive u.0.sequence (e ∷ es)
    → (last : ℕ) × (replayed_lines s previous (ls ++ wal_record (pos 1) (e ∷ es) ∷ [])
        ≡ ok (apply_all u.0 (e ∷ es), last))
replayed_lines-IsConsecutive ls e es s previous u h hp c =
    let (last, read) =
      replayed_line-IsConsecutive e es u.0 u.1 c (replayed_lines-le ls s previous u h hp).0 in
    (last, rw (replayed_lines-append ls (wal_record (pos 1) (e ∷ es)) s previous, h) read)

replayed_file-append :
    (f : Option WalFile) (e : Event) (es : List Event) (s t : Service)
    → replayed_file s f ≡ ok t
    → (get_or f new_file).torn ≡ false
    → IsConsecutive t.sequence (e ∷ es)
    → replayed_file s (some (append_line (wal_record (pos 1) (e ∷ es)) (get_or f new_file)))
      ≡ ok (apply_all t (e ∷ es))
unfolding replayed_file replayed_lines
replayed_file-append none e es s t h whole c =
    let same : s ≡ t = cc in
    rw same (rw ((replayed_lines-IsConsecutive [] e es t 0 (t, 0) refl (omega arith) c).1) refl)
replayed_file-append (some f) e es s t h whole c =
    elim (Result-cases (replayed_lines s 0 f.lines)) [
      | inr (x, e') ↦ ground arith
      | inl (u, e') ↦
          let same : u.0 ≡ t = ground arith in
          rw
            (
              whole,
              (replayed_lines-IsConsecutive f.lines e es s 0 u e' (omega arith) (rw same c)).1,
            )
            (ap (λ v. ok (apply_all v (e ∷ es))) same)
    ]

-- A batch that is appended to the current log, with the numbers that follow the state's, is
-- applied whole by the next restart.
pub recovered-append :
    (d : Disk) (e : Event) (es : List Event) (s : Service)
    → recovered d ≡ ok s
    → (get_or d.current new_file).torn ≡ false
    → IsConsecutive s.sequence (e ∷ es)
    → recovered (record d {
      current = some (append_line (wal_record (pos 1) (e ∷ es)) (get_or d.current new_file));
    })
      ≡ ok (apply_all s (e ∷ es))
unfolding recovered
recovered-append d e es s h whole c =
    elim (Result-cases (replayed_file (loaded d.snapshot) d.previous)) [
      | inr (x, e') ↦ ground arith
      | inl (u, e') ↦ rw e' (replayed_file-append d.current e es u s (rw e' at h) whole c)
    ]

replayed_file-unwritten :
    (f : Option WalFile) (torn : Bool) (s : Service)
    → replayed_file s (some (record { lines = (get_or f new_file).lines; torn = torn }))
      ≡ replayed_file s f
unfolding replayed_file replayed_lines
replayed_file-unwritten none torn s = refl
replayed_file-unwritten (some f) torn s = refl

-- Creating the current log, or leaving text without a newline at its end, changes nothing for a
-- restart.
pub recovered-unwritten :
    (d : Disk) (torn : Bool)
    → recovered (record d {
      current = some (record { lines = (get_or d.current new_file).lines; torn = torn });
    })
      ≡ recovered d
unfolding recovered
recovered-unwritten d torn =
    ap (λ f. replayed_file (loaded d.snapshot) d.previous >>= f)
      (fun_ext λ s. replayed_file-unwritten d.current torn s)

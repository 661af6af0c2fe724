-- ===== src/Checkpoint/Safety.antt =====
-- A crash at any moment of a checkpoint: what the files rebuild.
use prediction_market.Base.{
  ℕ, ◌≤◌, ◌≡◌, refl, ◌∙◌, sym, ap, arith, Bool, Option, none, some, List, ◌++◌, inl, inr, String,
}
use prediction_market.Dict.{Dict}
use prediction_market.Ledger.{Service, EngineOrderKey}
use prediction_market.Result.{ok}
use prediction_market.Machine.{Line, WalFile, Disk}
use prediction_market.Wal.{index_orders}
use prediction_market.Wal.Replay.{replayed_lines, replayed_file, loaded, recovered}
use prediction_market.Wal.Numbers.{
  Result-cases, replayed_lines-le, replayed_file-failure, loaded-failure,
}
use prediction_market.Wal.Covered.{
  with_ids, replayed_lines-covered, replayed_lines-ge, replayed_lines-append_all,
  replayed_lines-with_ids,
}
use prediction_market.Checkpoint.{snapshot_of, installed, removed_previous}

loaded-snapshot_of :
    (s : Service)
    → s.failure ≡ none
    → loaded (some (snapshot_of s)) ≡ with_ids s (index_orders s.orders)
unfolding loaded snapshot_of
loaded-snapshot_of s h =
    ap (λ f. record (with_ids s (index_orders s.orders)) { failure = f }) (sym h)

replayed_file-none : (s : Service) → replayed_file s none ≡ ok s
unfolding replayed_file
replayed_file-none s = refl

replayed_file-covered :
    (f : Option WalFile) (s t k : Service)
    → replayed_file s f ≡ ok t
    → t.sequence ≤ k.sequence
    → replayed_file k f ≡ ok k
unfolding replayed_file
replayed_file-covered none s t k h le = refl
replayed_file-covered (some f) s t k h le = elim (Result-cases (replayed_lines s 0 f.lines)) [
  | inr (x, e) ↦ absurd (ground arith)
  | inl ((u, last), e) ↦
      let same : u ≡ t = ground arith in
      let reached = replayed_lines-le f.lines s 0 (u, last) e (omega arith) in
      let bound : last ≤ k.sequence = omega (arith, reached.0, ap (λ v. v.sequence) same, le) in
      rw (replayed_lines-covered f.lines s u 0 last k e bound).0 refl
]

-- The state `t` but for the engine's order numbers, which a snapshot does not hold.
abbrev pub Rebuilds : Disk → Service → Type 0
Rebuilds d t = (ids : Dict EngineOrderKey String) × (recovered d ≡ ok (with_ids t ids))

-- What a restart rebuilds in the course of a checkpoint of `k`, when `t` is the state.
pub record IsCrashSafe (d : Disk) (k t : Service) : Type 0 where
  pub before_snapshot : recovered d ≡ ok t
  pub with_snapshot : Rebuilds (installed (snapshot_of k) d) t
  pub without_previous : Rebuilds (removed_previous (installed (snapshot_of k) d)) t

module _ (d : Disk) (s k t : Service) (before since : List Line) (n last : ℕ) (torn : Bool)
    (previous : replayed_file (loaded d.snapshot) d.previous ≡ ok s)
    (current : d.current ≡ some (record { lines = before ++ since; torn = torn }))
    (frozen : replayed_lines s 0 before ≡ ok (k, n))
    (newer : replayed_lines k n since ≡ ok (t, last)) where
  abbrev ids : Dict EngineOrderKey String
  ids = index_orders k.orders

  snapshot_sequence : (n ≤ k.sequence) × (s.sequence ≤ k.sequence)
  snapshot_sequence = (
    (replayed_lines-le before s 0 (k, n) frozen (omega arith)).0,
    replayed_lines-ge before s 0 (k, n) frozen,
  )

  no_failure : k.failure ≡ none
  no_failure =
      (replayed_lines-le before s 0 (k, n) frozen (omega arith)).1
      ∙ replayed_file-failure d.previous (loaded d.snapshot) s previous
      ∙ loaded-failure d.snapshot

  current_over_snapshot :
      (ids' : Dict EngineOrderKey String) × (replayed_file (with_ids k ids) d.current
        ≡ ok (with_ids t ids'))
  unfolding replayed_file
  current_over_snapshot =
      let counted =
        replayed_lines-covered before s k 0 n (with_ids k ids) frozen snapshot_sequence.0 in
      let (ids', rest) = replayed_lines-with_ids since k t n last ids newer in
      (
        ids',
        rw (current, replayed_lines-append_all before since (with_ids k ids) 0, counted.0, rest)
            refl,
      )

  current_over_state : replayed_file s d.current ≡ ok t
  unfolding replayed_file
  current_over_state = rw (current, replayed_lines-append_all before since s 0, frozen, newer) refl

  crash_safe : IsCrashSafe d k t
  unfolding recovered installed removed_previous
  crash_safe =
      let (ids', rest) = current_over_snapshot in
      let counted : replayed_file (with_ids k ids) d.previous ≡ ok (with_ids k ids) =
        replayed_file-covered d.previous (loaded d.snapshot) s (with_ids k ids) previous
          snapshot_sequence.1 in
      record {
        before_snapshot = rw previous current_over_state;
        with_snapshot = (ids', rw (loaded-snapshot_of k no_failure, counted) rest);
        without_previous =
            (ids', rw (loaded-snapshot_of k no_failure, replayed_file-none (with_ids k ids)) rest);
      }

-- Let the logs rebuild `t`: the previous one `s`, then the first lines of the current one the state
-- `k` that a checkpoint has frozen, then the lines that commits have added since. Then a restart
-- rebuilds `t`, but for the engine's order numbers, before the snapshot of `k` is in its place,
-- when it is, and when the previous log is removed after that.
pub checkpoint-IsCrashSafe :
    (d : Disk) (s k t : Service) (before since : List Line) (n last : ℕ) (torn : Bool)
    → replayed_file (loaded d.snapshot) d.previous ≡ ok s
    → d.current ≡ some (record { lines = before ++ since; torn = torn })
    → replayed_lines s 0 before ≡ ok (k, n)
    → replayed_lines k n since ≡ ok (t, last)
    → IsCrashSafe d k t
checkpoint-IsCrashSafe = crash_safe

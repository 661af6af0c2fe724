-- ===== src/Wal/Restart.antt =====
-- `restart` on an outside world that raises no error rebuilds `recovered`: the same state, or the
-- same error.
use prediction_market.Base.{
  ℕ, ◌≡◌, refl, ◌∙◌, sym, ap, fun_ext, Bool, true, false, Option, none, some, List, [], ◌∷◌,
}
use mathlib.Core.Option
use prediction_market.Ledger.{Service, Event, apply_all, empty_service}
use prediction_market.Result.{Result, ok, err}
use prediction_market.Result
use prediction_market.Machine.{
  Machine, Line, WalFile, Disk, Snapshot, Action, pure, ◌>>=◌, ◌>>◌, lift, gets, bind_assoc,
}
use prediction_market.Wal.{
  line_events, pending_events, absorb, replay_line, replay_lines, replay_file, replay_file?,
  restart, project, end_of_file, load_snapshot, restore_snapshot, replay_logs,
}
use prediction_market.Wal.Replay.{
  quiet, replayed_line, replayed_lines, replayed_file, loaded, recovered,
}

abbrev Quiet : Type 0 → Type 0
Quiet A = Action (Unit {0}) A

-- The state in memory at the end of an operation that returned, or its error.
abbrev pub outcome : {A W : Type 0} → Result A × Machine W → Result Service
outcome (ok _, m) = ok m.service
outcome (err e, _) = err e

abbrev at : Machine (Unit {0}) → Service → Machine (Unit {0})
at m s = record m { service = s }

absorb-quiet :
    (es : List Event) (m : Machine (Unit {0}))
    → absorb quiet es m ≡ (ok tt, at m (apply_all m.service es))
unfolding absorb project apply_all
absorb-quiet [] m = refl
absorb-quiet (e ∷ es) m = refl

module _ {B : Type 0} (k : ℕ → Quiet B) (m : Machine (Unit {0})) where
  after_found :
      (r : Result (List Event × ℕ))
      → outcome ((lift r >>= (λ found. absorb quiet found.0 >> pure found.1) >>= k) m)
        ≡ Result.◌>>=◌ r (λ found. outcome (k found.1 (at m (apply_all m.service found.0))))
  after_found (ok (es, n)) = rw (absorb-quiet es m) refl
  after_found (err e) = refl

  after_events :
      (previous : ℕ) (r : Result (List Event))
      → outcome (
          (lift r
              >>= (λ events. gets (λ s. s.sequence) >>= λ known.
                  lift (pending_events known previous events) >>= λ found.
                  absorb quiet found.0 >> pure found.1)
              >>= k)
            m)
        ≡ Result.◌>>=◌ r (λ events.
          Result.◌>>=◌
            (pending_events m.service.sequence previous events)
            (λ found. outcome (k found.1 (at m (apply_all m.service found.0)))))
  after_events previous (ok events) =
      after_found (pending_events m.service.sequence previous events)
  after_events previous (err e) = refl

  after_line :
      (previous : ℕ) (l : Line)
      → outcome ((replay_line quiet previous l >>= k) m)
        ≡ Result.◌>>=◌ (replayed_line m.service previous l) (λ t. outcome (k t.1 (at m t.0)))
  unfolding replay_line replayed_line
  after_line previous l = simp Result.bind_assoc (after_events previous (line_events l))

abbrev whole : WalFile → WalFile
whole f = record { lines = f.lines; torn = false }

module _ {B : Type 0} where
  after_lines :
      (ls : List Line) (k : ℕ → Quiet B) (previous : ℕ) (m : Machine (Unit {0}))
      → outcome ((replay_lines quiet previous ls >>= k) m)
        ≡ Result.◌>>=◌ (replayed_lines m.service previous ls) (λ t. outcome (k t.1 (at m t.0)))
  unfolding replay_lines replayed_lines
  after_lines [] k previous m = refl
  after_lines (l ∷ ls) k previous m =
      ap (λ (n : Quiet B). outcome (n m))
        (bind_assoc (λ n. replay_lines quiet n ls) k (replay_line quiet previous l))
      ∙ after_line (λ n. replay_lines quiet n ls >>= k) m previous l
      ∙ ap (Result.◌>>=◌ (replayed_line m.service previous l))
          (fun_ext λ t. after_lines ls k t.1 (at m t.0))
      ∙ sym (Result.bind_assoc (replayed_line m.service previous l) _ _)

  after_end :
      (lines : List Line) (torn : Bool) (k : WalFile → Quiet B) (m : Machine (Unit {0}))
      → outcome ((end_of_file quiet lines torn >>= k) m)
        ≡ outcome (k (record { lines = lines; torn = false }) m)
  unfolding end_of_file
  after_end lines true k m = refl
  after_end lines false k m = refl

  -- A file, then what follows it with the file as it is left.
  after_file :
      (f : WalFile) (k : WalFile → Quiet B) (m : Machine (Unit {0}))
      → outcome ((replay_file quiet f >>= k) m)
        ≡ Result.◌>>=◌
            (replayed_lines m.service 0 f.lines)
            (λ t. outcome (k (record { lines = f.lines; torn = false }) (at m t.0)))
  unfolding replay_file
  after_file f k m =
      ap (λ (n : Quiet B). outcome (n m))
        (bind_assoc (λ _. end_of_file quiet f.lines f.torn) k (replay_lines quiet 0 f.lines))
      ∙ after_lines f.lines (λ _. end_of_file quiet f.lines f.torn >>= k) 0 m
      ∙ ap (Result.◌>>=◌ (replayed_lines m.service 0 f.lines))
          (fun_ext λ t. after_end f.lines f.torn k (at m t.0))

  -- The file as a restart leaves it: without the text after its last newline.
  after_file? :
      (f : Option WalFile) (k : Option WalFile → Quiet B) (m : Machine (Unit {0}))
      → outcome ((replay_file? quiet f >>= k) m)
        ≡ Result.◌>>=◌ (replayed_file m.service f) (λ s. outcome (k (Option.map whole f) (at m s)))
  unfolding replay_file? replayed_file
  after_file? none k m = refl
  after_file? (some f) k m =
      ap (λ (n : Quiet B). outcome (n m))
        (bind_assoc (λ f'. pure (some f')) k (replay_file quiet f))
      ∙ after_file f (λ f'. pure (some f') >>= k) m
      ∙ sym (Result.bind_assoc (replayed_lines m.service 0 f.lines) _ _)

after_logs :
    (d : Disk) (m : Machine (Unit {0}))
    → outcome (replay_logs quiet d m)
      ≡ Result.◌>>=◌ (replayed_file m.service d.previous) (λ s. replayed_file s d.current)
unfolding replay_logs
after_logs d m =
    after_file? d.previous _ m
    ∙ ap (Result.◌>>=◌ (replayed_file m.service d.previous))
        (fun_ext λ s. after_file? d.current _ _ ∙ Result.bind-ok (replayed_file s d.current))

-- Restarting on an outside world that raises no error gives the recovered state, or the error that
-- a log file's text gives.
pub restart-quiet-recovered :
    (m : Machine (Unit {0})) → outcome (restart quiet m) ≡ recovered m.disk
unfolding restart recovered
restart-quiet-recovered m = from_snapshot m.disk.snapshot
  where
    start : Machine (Unit {0})
    start = record m { service = empty_service }

    from_snapshot :
        (state : Option Snapshot)
        → outcome ((restore_snapshot quiet state >> replay_logs quiet m.disk) start)
          ≡ Result.◌>>=◌
              (replayed_file (loaded state) m.disk.previous)
              (λ s. replayed_file s m.disk.current)
    from_snapshot none = unfold restore_snapshot loaded in after_logs m.disk start
    from_snapshot (some state) =
        unfold restore_snapshot loaded load_snapshot in
        after_logs m.disk (record start { service = loaded (some state) })

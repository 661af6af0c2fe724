-- ===== src/Wal/Replay.antt =====
-- What replaying log files rebuilds: `replayFile` without an outside world, as a function of the
-- lines, and how a file's last line counts.
use prediction_market.Base.{
  ℕ, ◌≡◌, ◌∙◌, sym, ap, fun_ext, true, false, Option, none, some, List, [], ◌∷◌, ◌++◌,
}
use prediction_market.Ledger.{Service, apply_all, empty_service}
use prediction_market.Result.{Result, ok, ◌>>=◌, bind_assoc, bind-ok}
use prediction_market.Machine.{Backend, Line, WalFile, Disk, Snapshot, written}
use prediction_market.Wal.{line_events, pending_events, index_orders}

-- An outside world that raises no error and has neither an engine nor a database.
abbrev pub quiet : Backend (Unit {0})
quiet = record {
  engine = none;
  projector = none;
  disable_engine_batch = false;
  snapshot_configured = true;
  new_id = λ w. ("", w);
  encoded_length = λ l. 0;
  write_line = λ l w. (written, w);
  open_file = λ w. (none, w);
  repair_file = λ w. (none, w);
  scan_error = λ w. (none, w);
  read_snapshot = λ w. (none, w);
}

-- The state and the last number after a line, then after a file.
unfoldable pub replayed_line : Service → ℕ → Line → Result (Service × ℕ)
replayed_line s previous line = line_events line >>= λ events.
    pending_events s.sequence previous events >>= λ found. ok (apply_all s found.0, found.1)

unfoldable pub replayed_lines : Service → ℕ → List Line → Result (Service × ℕ)
replayed_lines s previous [] = ok (s, previous)
replayed_lines s previous (l ∷ ls) = replayed_line s previous l >>= λ t. replayed_lines t.0 t.1 ls

pub replayed_lines-append :
    (ls : List Line) (l : Line) (s : Service) (previous : ℕ)
    → replayed_lines s previous (ls ++ l ∷ [])
      ≡ (replayed_lines s previous ls >>= λ t. replayed_line t.0 t.1 l)
unfolding replayed_lines
replayed_lines-append [] l s previous = bind-ok (replayed_line s previous l)
replayed_lines-append (x ∷ ls) l s previous =
    ap (λ f. replayed_line s previous x >>= f) (fun_ext λ t. replayed_lines-append ls l t.0 t.1)
    ∙ sym (bind_assoc (replayed_line s previous x) _ _)

-- The state that a file adds to; a file that does not exist adds nothing.
unfoldable pub replayed_file : Service → Option WalFile → Result Service
replayed_file s none = ok s
replayed_file s (some f) = replayed_lines s 0 f.lines >>= λ t. ok t.0

unfoldable pub loaded : Option Snapshot → Service
loaded none = empty_service
loaded (some state) = record empty_service {
  sequence = state.sequence;
  markets = state.markets;
  orders = state.orders;
  balances = state.balances;
  positions = state.positions;
  engine_orders = index_orders state.orders;
}

-- What a restart rebuilds from the files: the snapshot, then the previous log, then the current.
unfoldable pub recovered : Disk → Result Service
recovered d = replayed_file (loaded d.snapshot) d.previous >>= λ s. replayed_file s d.current

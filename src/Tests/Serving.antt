-- ===== src/Tests/Serving.antt =====
-- A server that stops while a snapshot is being taken, and one whose environment sets its batch size.
use prediction_market.Base.{
  some, ◌≡◌, refl, String, Bool, true, false, [], ◌∷◌, ◌==◌, eq_string, if◌then◌else◌,
}
use prediction_market.Int.{ℤ, pos}
use prediction_market.Server.Lifecycle.{
  Process, taking, waiting, tick, shut_down, begins, take_snapshot, move, loop_move, stop_move,
}
use prediction_market.Server.Stopped.{IsOrderly, Reached, start, moved, Reached-IsOrderly}
use prediction_market.Server.Stopping.{Ends, play, open_parts, closed_parts, Reached-Ends}
use prediction_market.Server.Settings.{Environment, settings}
use prediction_market.Server.Accepted.{IsSettled, settings-IsSettled}

-- The shutdown begins while the goroutine is in a snapshot.
abbrev interrupted : Process
interrupted = record {
  stop_closed = true;
  loop = taking;
  stop = waiting;
  marks = begins take_snapshot ∷ [];
}

interrupted-Reached : Reached interrupted
unfolding move loop_move stop_move
interrupted-Reached = moved shut_down refl (moved tick refl start)

Reached-IsOrderly_example : IsOrderly interrupted
Reached-IsOrderly_example = Reached-IsOrderly interrupted-Reached

Reached-Ends_example :
    (r : Ends 13 interrupted) × (play r.ended.marks (open_parts false) ≡ some closed_parts)
Reached-Ends_example = Reached-Ends interrupted-Reached refl

abbrev sixteen : String → ℤ × Bool
sixteen text = if text == "16" then (pos 16, false) else (pos 0, true)

abbrev environment : Environment
environment = record {
  getenv = λ key. if key == "ORDER_BATCH_SIZE" then "16" else "";
  atoi = sixteen;
  parse_duration = λ text. (pos 0, true);
}

settings-IsSettled_example : IsSettled environment (settings environment)
settings-IsSettled_example = settings-IsSettled environment

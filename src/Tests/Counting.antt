-- ===== src/Tests/Counting.antt =====
-- The counters of two calls of `Observe` that take turns.
use prediction_market.Base.{ℕ, ◌+◌, ◌*◌, ◌≤◌, ◌≡◌, refl, List, [], ◌∷◌}
use prediction_market.Metrics.{
  Stage, wal, snapshot_pause, new_registry, advance, step, run, observe_all, middleware,
  observed_status,
}
use prediction_market.Metrics.Lockfree.{operations, operations-le}
use prediction_market.Metrics.Observed.{IsObserved, run-IsObserved}

abbrev pauses : List (Stage × ℕ)
pauses = (snapshot_pause, 20) ∷ (wal, 5) ∷ (snapshot_pause, 30) ∷ []

-- Both pauses load the maximum 0, the longer is stored first, and the shorter tries again.
abbrev turns : List ℕ
turns = 0 ∷ 0 ∷ 2 ∷ 2 ∷ 0 ∷ 2 ∷ 2 ∷ 0 ∷ 0 ∷ 1 ∷ 1 ∷ 1 ∷ []

pauses_done : (run turns new_registry (observe_all pauses)).0.snapshot_pause_max ≡ 30
unfolding run step advance
pauses_done = refl

pauses-operations : operations turns new_registry (observe_all pauses) ≡ 11
unfolding operations step advance
pauses-operations = refl

operations-le_example : operations turns new_registry (observe_all pauses) ≤ 3 * (2 * 3 + 5)
operations-le_example = operations-le turns new_registry pauses

run-IsObserved_example : IsObserved pauses (run turns new_registry (observe_all pauses)).0
unfolding run step advance
run-IsObserved_example = run-IsObserved pauses turns (refl, (refl, (refl, tt)))

-- A failed request, and one on the WebSocket
failed_request : (middleware "/health" (503 ∷ []) 7 new_registry).errors ≡ 1
unfolding middleware observed_status
failed_request = refl

ws_request : (middleware "/ws" (503 ∷ []) 7 new_registry).requests ≡ 0
unfolding middleware
ws_request = refl

-- ===== src/Metrics.antt =====
-- The counters of go-backend/internal/metrics/metrics.go, and the stages of go-backend/internal/trading/service.go
-- that they count. A counter is an `atomic.Uint64`, so a call of `Observe` is a sequence of atomic operations, and
-- between two of them other calls may take theirs: `advance` is the next operation of a call, `step` gives it to one of
-- many calls, and `run` follows a schedule. The text that `ServeHTTP` writes, the clock and the goroutines are outside.
pub mod Lockfree
pub mod Totals
pub mod Maximum
pub mod Observed
use prediction_market.Base.{
  ℕ, zero, suc, ◌+◌, ◌%◌, ◌^◌, String, Bool, true, false, List, [], ◌∷◌, leb, ltb, nat_eq, ◌==◌,
  eq_string, if◌then◌else◌,
}

pub data Stage : Type 0 where
  lock_wait wal projection engine quote snapshot_pause : Stage

-- A stage is its number, as `iota` gives it.
abbrev pub stage_number : Stage → ℕ
stage_number lock_wait = 0
stage_number wal = 1
stage_number projection = 2
stage_number engine = 3
stage_number quote = 4
stage_number snapshot_pause = 5

abbrev pub stage_eq : Stage → Stage → Bool
stage_eq s t = nat_eq (stage_number s) (stage_number t)

pub record StageSummary : Type 0 where
  pub count : ℕ
  pub duration : ℕ

pub record Registry : Type 0 where
  pub stages : Stage → StageSummary
  pub snapshot_pause_max : ℕ
  pub requests : ℕ
  pub errors : ℕ
  pub duration : ℕ
  pub orders : ℕ
  pub snapshots : ℕ

-- `New`
abbrev pub new_registry : Registry
new_registry = record {
  stages = λ s. record { count = 0; duration = 0 };
  snapshot_pause_max = 0;
  requests = 0;
  errors = 0;
  duration = 0;
  orders = 0;
  snapshots = 0;
}

-- `Add` of an `atomic.Uint64`
abbrev pub add_uint64 : ℕ → ℕ → ℕ
add_uint64 a b = (a + b) % 2 ^ 64

abbrev change_stage : Stage → (StageSummary → StageSummary) → Registry → Registry
change_stage s f m = record m { stages = λ t. if stage_eq s t then f (m.stages t) else m.stages t }

-- Where a call of `Observe` is: before it counts, before it adds its duration, before it loads the
-- maximum, before it compares and swaps with the maximum that it has loaded, or at its end.
pub data Progress : Type 0 where
  entered : Progress
  counted : Progress
  loading : Progress
  swapping : ℕ → Progress
  returned : Progress

pub record Call : Type 0 where
  pub stage : Stage
  pub duration : ℕ
  pub at : Progress

-- The next atomic operation of a call, by its position
unfoldable pub advance_at : Progress → Stage → ℕ → Registry → Registry × Progress
advance_at entered s d m =
    (change_stage s (λ x. record x { count = add_uint64 x.count 1 }) m, counted)
advance_at counted s d m = (
  change_stage s (λ x. record x { duration = add_uint64 x.duration d }) m,
  if stage_eq s snapshot_pause then loading else returned,
)
advance_at loading s d m =
    (m, if ltb m.snapshot_pause_max d then swapping m.snapshot_pause_max else returned)
advance_at (swapping old) s d m =
    if nat_eq m.snapshot_pause_max old
    then (record m { snapshot_pause_max = d }, returned)
    else (m, loading)
advance_at returned s d m = (m, returned)

unfoldable pub advance : Call → Registry → Registry × Call
unfolding advance_at
advance c m = let (m', p) = advance_at c.at c.stage c.duration m in (m', record c { at = p })

-- One of the calls takes its next operation.
unfoldable pub step : ℕ → Registry → List Call → Registry × List Call
step k m [] = (m, [])
step zero m (c ∷ cs) = let (m', c') = advance c m in (m', c' ∷ cs)
step (suc k) m (c ∷ cs) = let (m', cs') = step k m cs in (m', c ∷ cs')

-- A schedule names the call that is next, each time.
unfoldable pub run : List ℕ → Registry → List Call → Registry × List Call
run [] m cs = (m, cs)
run (k ∷ ks) m cs = let (m', cs') = step k m cs in run ks m' cs'

-- `Observe` begins.
abbrev pub observe : Stage → ℕ → Call
observe s d = record { stage = s; duration = d; at = entered }

abbrev pub observe_all : List (Stage × ℕ) → List Call
observe_all [] = []
observe_all ((s, d) ∷ xs) = observe s d ∷ observe_all xs

-- The status that `statusWriter` holds after the handler's calls of `WriteHeader`
unfoldable pub observed_status : ℕ → List ℕ → ℕ
observed_status status [] = status
observed_status status (s ∷ ss) = observed_status s ss

-- `Middleware`, around a handler that wrote these headers and took this long
unfoldable pub middleware : String → List ℕ → ℕ → Registry → Registry
unfolding observed_status
middleware path written elapsed m = if path == "/ws" then m else record m {
  requests = add_uint64 m.requests 1;
  duration = add_uint64 m.duration elapsed;
  errors = if leb 400 (observed_status 200 written) then add_uint64 m.errors 1 else m.errors;
}

-- `OrderAccepted`
unfoldable pub order_accepted : Registry → Registry
order_accepted m = record m { orders = add_uint64 m.orders 1 }

-- `Snapshot`
unfoldable pub snapshot_taken : Registry → Registry
snapshot_taken m = record m { snapshots = add_uint64 m.snapshots 1 }

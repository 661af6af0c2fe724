-- ===== src/Wal.antt =====
-- The write-ahead log: `next`, `appendMany`, `commitMany`, `project`, `replayFile` and
-- `loadSnapshot` of go-backend/internal/trading/service.go. Clocks and `observe` are left out:
-- they change no state.
pub mod Replay
pub mod Restart
pub mod Faultless
pub mod Numbers
pub mod Durability
pub mod Covered
pub mod Spends
use prediction_market.Base.{
  ℕ, ◌+◌, ◌*◌, ◌%◌, ◌^◌, String, Bool, true, false, ◌&&◌, not, Option, none, some, List, [], ◌∷◌,
  ◌++◌, ltb, leb, nat_eq, ◌==◌, if◌then◌else◌, get_or, eq_string,
}
use prediction_market.Int.{pos, eq_int}
use prediction_market.Dict
use prediction_market.Dict.{Dict}
use prediction_market.Ledger.{
  Event, EventKind, Error, Order, EngineOrderKey, engine_key, eq_engine_key, is_live, apply_all,
  zero_event, empty_service,
}
use prediction_market.Result.{Result, ok, err}
use prediction_market.Machine.{
  Action, Machine, Backend, Projector, each, batched, Line, wal_record, legacy, garbage, WalFile,
  Snapshot, WriteOutcome, written, lost, torn_line, kept, pure, lift, gets, outside, raise_some,
  modify, set_disk, fail, ◌>>=◌, ◌>>◌, Disk,
}

-- `maxWALRecord`
abbrev pub max_wal_record : ℕ
max_wal_record = 64 * 1024 * 1024

abbrev pub new_file : WalFile
new_file = record { lines = []; torn = false }

-- A line that follows text without a newline ends up in one line with it.
abbrev pub append_line : Line → WalFile → WalFile
append_line l f = record { lines = f.lines ++ (if f.torn then garbage else l) ∷ []; torn = false }

-- What a write leaves in the file, and the error that it reports.
unfoldable pub after_write : WriteOutcome → Line → WalFile → WalFile
after_write written l f = append_line l f
after_write (lost e) l f = f
after_write (torn_line e) l f = record { lines = f.lines; torn = true }
after_write (kept e) l f = append_line l f

unfoldable pub write_error : WriteOutcome → Option Error
write_error written = none
write_error (lost e) = some e
write_error (torn_line e) = some e
write_error (kept e) = some e

-- The events of a line: an older one has a single event, which gets an id if it has none.
unfoldable pub line_events : Line → Result (List Event)
line_events garbage = err Error.corrupt_wal
line_events (legacy e hash) = ok ((if e.id == "" then record e { id = hash } else e) ∷ [])
line_events (wal_record version events) =
    -- a record with version 0 decodes to an event with no field set
    if version == pos 0
    then ok (zero_event (EventKind.other "") ∷ [])
    else if version == pos 1
    then elim events [ [] ↦ err Error.invalid_batch | e ∷ es ↦ ok (e ∷ es) ]
    else err Error.invalid_batch

-- The loop over a line's events: those that are newer than the state, and the last number.
unfoldable pub pending_events : ℕ → ℕ → List Event → Result (List Event × ℕ)
pending_events known previous [] = ok ([], previous)
pending_events known previous (e ∷ es) =
    let rest = pending_events known e.sequence es in
    if leb e.sequence previous then err Error.bad_sequence else elim rest [
      | err x ↦ err x
      | ok (found, last) ↦ ok ((if ltb known e.sequence then e ∷ found else found), last)
    ]

-- The order numbers of a snapshot's live orders.
unfoldable pub index_orders : Dict String Order → Dict EngineOrderKey String
unfolding is_live
index_orders [] = []
index_orders ((id, o) ∷ orders) =
    let rest = index_orders orders in
    if not (nat_eq o.engine_id 0) && is_live o.status
    then Dict.insert (engine_key o.market_id o.engine_id) id rest
    else rest

module _ {W : Type 0} (be : Backend W) where
  -- `Service.next`: the next sequence number, and an event id if there is none.
  unfoldable pub next : Event → Action W Event
  next e m =
      let number = (m.service.sequence + 1) % 2 ^ 64 in
      let m' : Machine W = record m { service = record m.service { sequence = number } } in
      let (fresh, w) = be.new_id m.world in
      if e.id == ""
      then (ok (record e { id = fresh; sequence = number }), record m' { world = w })
      else (ok (record e { sequence = number }), m')

  -- `for i := range events { events[i] = s.next(events[i]) }`
  unfoldable pub number_all : List Event → Action W (List Event)
  unfolding next
  number_all [] = pure []
  number_all (e ∷ es) = do e' ← next e; es' ← number_all es; pure (e' ∷ es')

  -- `Service.appendMany`; the file is created at the first write.
  unfoldable pub append_many : List Event → Action W (Option Error)
  unfolding after_write write_error
  append_many events m =
      let line = wal_record (pos 1) events in
      let (outcome, w) = be.write_line line m.world in
      let file = after_write outcome line (get_or m.disk.current new_file) in
      if leb max_wal_record (be.encoded_length line + 1)
      then (ok (some Error.record_too_large), m)
      else (
        ok (write_error outcome),
        record m { disk = record m.disk { current = some file }; world = w },
      )

  -- The calls of a projector that takes one event at a time, up to the first error.
  unfoldable pub project_each : (Event → W → Option Error × W) → List Event → W → Option Error × W
  project_each f [] w = (none, w)
  project_each f (e ∷ es) w =
      let (r, w') = f e w in elim r [ none ↦ project_each f es w' | some x ↦ (some x, w') ]

  -- `Service.project`; without a projector nothing is done.
  unfoldable pub project_by : Option (Projector W) → List Event → Action W (Option Error)
  project_by none events = pure none
  project_by (some (each f)) events = outside (project_each f events)
  project_by (some (batched f)) events = outside (f events)

  unfoldable pub project : List Event → Action W (Option Error)
  unfolding project_by
  project events = project_by be.projector events

  -- `if err != nil { return s.fail(err) }`
  unfoldable pub fail_on : Option Error → Action W (Unit {0})
  unfolding fail
  fail_on none = pure tt
  fail_on (some e) = fail e

  -- `commitMany` once the events are numbered: the log, the projection, then the memory
  unfoldable pub store_batch : List Event → Action W (Unit {0})
  store_batch numbered = do
    fail_on (← append_many numbered)
    fail_on (← project numbered)
    modify (λ s. apply_all s numbered)

  -- `Service.commitMany`
  unfoldable pub commit_many : List Event → Action W (Unit {0})
  commit_many events = do
    raise_some (← gets (λ s. s.failure))
    numbered ← number_all events
    store_batch numbered

  -- `if len(pending) > 0 { project; apply }`
  unfoldable pub absorb : List Event → Action W (Unit {0})
  absorb [] = pure tt
  absorb (e ∷ es) = do raise_some (← project (e ∷ es)); modify (λ s. apply_all s (e ∷ es))

  -- One round of the scan, from the last sequence number of the file's earlier lines.
  unfoldable pub replay_line : ℕ → Line → Action W ℕ
  replay_line previous line = do
    events ← lift (line_events line)
    known ← gets (λ s. s.sequence)
    found ← lift (pending_events known previous events)
    absorb found.0
    pure found.1

  unfoldable pub replay_lines : ℕ → List Line → Action W ℕ
  replay_lines previous [] = pure previous
  replay_lines previous (l ∷ ls) = do previous' ← replay_line previous l; replay_lines previous' ls

  -- The end of the scan. Text after the last newline is cut off, and the file is synced.
  unfoldable pub end_of_file : List Line → Bool → Action W WalFile
  end_of_file lines true = do
    raise_some (← outside be.repair_file)
    pure (record { lines = lines; torn = false })
  end_of_file lines false = do
    raise_some (← outside be.scan_error)
    pure (record { lines = lines; torn = false })

  -- `Service.replayFile` on a file that is there, with the file as it is left
  unfoldable pub replay_file : WalFile → Action W WalFile
  replay_file f = do
    raise_some (← outside be.open_file)
    replay_lines 0 f.lines
    end_of_file f.lines f.torn

  -- a file that does not exist replays to nothing
  unfoldable pub replay_file? : Option WalFile → Action W (Option WalFile)
  replay_file? none = pure none
  replay_file? (some f) = do f' ← replay_file f; pure (some f')

  -- `Service.loadSnapshot` on a file that is there
  unfoldable pub load_snapshot : Snapshot → Action W (Unit {0})
  load_snapshot state = do
    raise_some (← outside be.read_snapshot)
    modify (λ s. record s {
      sequence = state.sequence;
      markets = state.markets;
      orders = state.orders;
      balances = state.balances;
      positions = state.positions;
      engine_orders = index_orders state.orders;
    })

  -- `loadSnapshot`, if a snapshot is configured and there is one
  unfoldable pub restore_snapshot : Option Snapshot → Action W (Unit {0})
  restore_snapshot none = pure tt
  restore_snapshot (some state) = if be.snapshot_configured then load_snapshot state else pure tt

  -- the previous log file, then the current one, each left without torn text
  unfoldable pub replay_logs : Disk → Action W (Unit {0})
  replay_logs d = do
    previous ← replay_file? d.previous
    set_disk (record d { previous = previous })
    current ← replay_file? d.current
    set_disk (record d { previous = previous; current = current })

  -- the part of `NewWithConfig` behind the checks of its configuration
  unfoldable pub restart : Action W (Unit {0})
  restart m =
      let start : Machine W = record m { service = empty_service } in
      (restore_snapshot m.disk.snapshot >> replay_logs m.disk) start

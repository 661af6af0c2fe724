-- ===== src/Server/Lifecycle.antt =====
-- How `NewServer` of go-backend/internal/server/server.go takes snapshots and stops: the goroutine of
-- the periodic snapshots and the function of `RegisterOnShutdown`, which Shutdown runs once, as the
-- moves of two goroutines. The errors of the calls are only written to the log there; the counter
-- of the snapshots is Metrics's, and the time between ticks is not modelled.
use prediction_market.Base.{
  Bool, true, false, Option, none, some, List, [], ◌∷◌, ◌++◌, if◌then◌else◌,
}

pub data Call : Type 0 where
  take_snapshot close_service close_quotes close_engine close_database : Call

pub data Mark : Type 0 where
  begins ends : Call → Mark

-- Where the goroutine is: at its `select`, in `durable.Snapshot`, or gone, with `snapshotDone` closed
pub data Loop : Type 0 where
  selecting taking returned : Loop

-- Where the function of the shutdown is: not started, at `<-snapshotDone`, or behind it, with the
-- calls that it has not ended, in the first of them or before it
pub data Stop : Type 0 where
  serving waiting : Stop
  before within : List Call → Stop

pub record Process : Type 0 where
  -- whether `snapshotStop` is closed
  pub stop_closed : Bool
  pub loop : Loop
  pub stop : Stop
  pub marks : List Mark

abbrev pub new_process : Process
new_process = record { stop_closed = false; loop = selecting; stop = serving; marks = [] }

abbrev pub shutdown_calls : List Call
shutdown_calls = take_snapshot ∷ close_service ∷ close_quotes ∷ close_engine ∷ close_database ∷ []

abbrev pub marked : Mark → Process → Process
marked k p = record p { marks = p.marks ++ k ∷ [] }

pub data Move : Type 0 where
  -- of the goroutine: `<-ticker.C`, the end of the snapshot, and `<-snapshotStop`
  tick taken leave : Move
  -- of the shutdown: `close(snapshotStop)`, `<-snapshotDone`, and the begin and the end of a call
  shut_down go_on begin_call end_call : Move

unfoldable pub loop_move : Move → Loop → Process → Option Process
loop_move tick selecting p = some (marked (begins take_snapshot) (record p { loop = taking }))
loop_move taken taking p = some (marked (ends take_snapshot) (record p { loop = selecting }))
loop_move leave selecting p = if p.stop_closed then some (record p { loop = returned }) else none
loop_move _ _ p = none

unfoldable pub stop_move : Move → Loop → Stop → Process → Option Process
stop_move shut_down l serving p = some (record p { stop_closed = true; stop = waiting })
stop_move go_on returned waiting p = some (record p { stop = before shutdown_calls })
stop_move begin_call l (before (c ∷ cs)) p =
    some (marked (begins c) (record p { stop = within (c ∷ cs) }))
stop_move end_call l (within (c ∷ cs)) p = some (marked (ends c) (record p { stop = before cs }))
stop_move _ _ _ p = none

-- One move, where it can be made
unfoldable pub move : Move → Process → Option Process
move tick p = loop_move tick p.loop p
move taken p = loop_move taken p.loop p
move leave p = loop_move leave p.loop p
move shut_down p = stop_move shut_down p.loop p.stop p
move go_on p = stop_move go_on p.loop p.stop p
move begin_call p = stop_move begin_call p.loop p.stop p
move end_call p = stop_move end_call p.loop p.stop p

unfoldable pub run : List Move → Process → Option Process
run [] p = some p
run (k ∷ ks) p = elim (move k p) [ none ↦ none | some p' ↦ run ks p' ]

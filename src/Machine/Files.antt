-- ===== src/Machine/Files.antt =====
-- The files of the service, line by line as `replayFile` reads them, and the outside world's
-- answers. `encoding/json` is not modelled: a line is what it decodes to.
use prediction_market.Base.{ℕ, String, Bool, Option, List}
use prediction_market.Int.{ℤ}
use prediction_market.Dict.{Dict}
use prediction_market.Ledger.{Event, EngineResult, Error, Market, Order, Positions, Service}
use prediction_market.Result.{Result}

-- One line of a write-ahead log.
pub data Line : Type 0 where
  -- a `walRecord`: its version and its events
  wal_record : ℤ → List Event → Line
  -- an event of the older format, without a version, and the hash of its text
  legacy : Event → String → Line
  -- what `json.Unmarshal` refuses
  garbage : Line

-- A log file: its complete lines, and whether text without a newline follows them.
pub record WalFile : Type 0 where
  pub lines : List Line
  pub torn : Bool

-- The fields of `snapshot`.
pub record Snapshot : Type 0 where
  pub sequence : ℕ
  pub markets : Dict String Market
  pub orders : Dict String Order
  pub balances : Dict String ℤ
  pub positions : Positions

-- The files at WALPath, at WALPath + ".previous" and at SnapshotPath.
pub record Disk : Type 0 where
  pub current : Option WalFile
  pub previous : Option WalFile
  pub snapshot : Option Snapshot

-- How `OpenFile`, `Write` and `Sync` end for one line: it is durable, nothing of it was written,
-- a part of it was, or all of it was and an error was reported all the same.
pub data WriteOutcome : Type 0 where
  written : WriteOutcome
  lost torn_line kept : Error → WriteOutcome

pub record EngineOrder : Type 0 where
  pub symbol : String
  pub price : ℤ
  pub quantity : ℕ
  pub side : String

pub record EngineQuote : Type 0 where
  pub symbol : String
  pub bid : ℤ
  pub ask : ℤ

pub record EngineBatch : Type 0 where
  pub results : List EngineResult
  pub quotes : List EngineQuote

-- `Engine`; the last two fields are the optional interfaces `BatchEngine` and `QuoteEngine`.
pub record Engine (W : Type 0) : Type 0 where
  pub add_book : String → W → Option Error × W
  pub add_order : EngineOrder → W → Result EngineResult × W
  pub remove_order : String → ℕ → W → Result Bool × W
  pub add_orders : Option (List EngineOrder → W → Result EngineBatch × W)
  pub quote : Option (String → W → Result EngineQuote × W)

-- `Projector`, or the `BatchProjector` that it also implements.
pub data Projector (W : Type 0) : Type 0 where
  each : (Event → W → Option Error × W) → Projector W
  batched : (List Event → W → Option Error × W) → Projector W

-- `Config`, and the calls of the system that the service makes.
pub record Backend (W : Type 0) : Type 0 where
  pub engine : Option (Engine W)
  pub projector : Option (Projector W)
  pub disable_engine_batch : Bool
  pub snapshot_configured : Bool
  -- `uuid.NewString`
  pub new_id : W → String × W
  -- the length of `json.Marshal`'s text
  pub encoded_length : Line → ℕ
  pub write_line : Line → W → WriteOutcome × W
  -- `os.Open` of a file that is there, the truncation of a torn file, and `scan.Err`
  pub open_file : W → Option Error × W
  pub repair_file : W → Option Error × W
  pub scan_error : W → Option Error × W
  pub read_snapshot : W → Option Error × W

pub record Machine (W : Type 0) : Type 0 where
  pub service : Service
  pub disk : Disk
  pub world : W

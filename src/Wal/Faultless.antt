-- ===== src/Wal/Faultless.antt =====
-- `restart` on any outside world whose calls raise no error, with a projector or without: it does to the
-- service and the files what it does on the world `quiet`.
use prediction_market.Base.{◌≡◌, true, Option, none, some, List}
use prediction_market.Ledger.{Event}
use prediction_market.Result.{Result}
use prediction_market.Machine.{Machine, Action, Backend, Projector, each, batched}

-- A projector whose calls all succeed
abbrev pub Accepts : {W : Type 0} → Option (Projector W) → Type 0
Accepts none = Unit
Accepts {W} (some (each f)) = (e : Event) (w : W) → (f e w).0 ≡ none
Accepts {W} (some (batched f)) = (es : List Event) (w : W) → (f es w).0 ≡ none

-- A snapshot path is configured, and no call of a restart raises an error.
pub record IsFaultless {W : Type 0} (be : Backend W) : Type 0 where
  pub configured : be.snapshot_configured ≡ true
  pub projects : Accepts be.projector
  pub opens : (w : W) → (be.open_file w).0 ≡ none
  pub repairs : (w : W) → (be.repair_file w).0 ≡ none
  pub scans : (w : W) → (be.scan_error w).0 ≡ none
  pub reads : (w : W) → (be.read_snapshot w).0 ≡ none

-- The machine without its outside world
abbrev pub strip : {W : Type 0} → Machine W → Machine (Unit {0})
strip m = record { service = m.service; disk = m.disk; world = tt }

abbrev stripped : {W A : Type 0} → Result A × Machine W → Result A × Machine (Unit {0})
stripped (r, m) = (r, strip m)

-- An operation that does to the service and the files what another does on no world
record Mirrors {W A : Type 0} (n : Action W A) (q : Action (Unit {0}) A) : Type 0 where
  pub same : (m : Machine W) → stripped (n m) ≡ q (strip m)

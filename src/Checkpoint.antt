-- ===== src/Checkpoint.antt =====
-- go-backend/internal/trading/checkpoint.go. `checkpoint` takes the lock only in its first step, so
-- its three steps are three methods, and commits may come between them.
pub mod Safety
pub mod Freeze
use prediction_market.Base.{Bool, not, Option, none, some}
use prediction_market.Ledger.{Service, Error}
use prediction_market.Result.{ok, err}
use prediction_market.Machine.{
  Action, Backend, Disk, Snapshot, WalFile, pure, gets, outside, raise_if, raise_some, fail, ◌>>=◌,
  ◌>>◌,
}
use prediction_market.Wal.{fail_on, new_file}

-- The calls of the system; an answer is nil or its error. A missing file is no error where the
-- code tests for `os.ErrNotExist`, and without an open log file `sync_log` and `close_log` do
-- nothing.
pub record CheckpointCalls (W : Type 0) : Type 0 where
  pub stat_previous : W → Option Error × W
  pub make_directory : W → Option Error × W
  pub sync_log : W → Option Error × W
  pub close_log : W → Option Error × W
  pub rename_log : W → Option Error × W
  pub sync_directory : W → Option Error × W
  pub create_log : W → Option Error × W
  pub sync_new_log : W → Option Error × W
  -- all that `writeSnapshot` does to the temporary file
  pub write_temporary : W → Option Error × W
  pub rename_snapshot : W → Option Error × W
  pub remove_previous : W → Option Error × W

-- The composite literal `snapshot{...}` of `freezeCheckpoint`.
unfoldable pub snapshot_of : Service → Snapshot
snapshot_of s = record {
  sequence = s.sequence;
  markets = s.markets;
  orders = s.orders;
  balances = s.balances;
  positions = s.positions;
}

-- What the calls do to the files.
unfoldable pub moved_log : Disk → Disk
moved_log d = record d { previous = d.current; current = none }

unfoldable pub created_log : Disk → Disk
created_log d = record d { current = some new_file }

unfoldable pub installed : Snapshot → Disk → Disk
installed state d = record d { snapshot = some state }

unfoldable pub removed_previous : Disk → Disk
removed_previous d = record d { previous = none }

module _ {W : Type 0} where
  -- The files change if the call gave no error; an error latches the failure.
  unfoldable pub change_or_fail : (Disk → Disk) → Option Error → Action W (Unit {0})
  unfolding fail
  change_or_fail change none m = (ok tt, record m { disk = change m.disk })
  change_or_fail change (some e) m = fail e m

  -- The files change if the call gave no error; an error is returned.
  unfoldable pub change_or_raise : (Disk → Disk) → Option Error → Action W (Unit {0})
  change_or_raise change none m = (ok tt, record m { disk = change m.disk })
  change_or_raise change (some e) m = (err e, m)

  module _ (be : Backend W) (calls : CheckpointCalls W) where
    -- `freezeCheckpoint` when there is no previous log: the current one becomes it.
    unfoldable pub rotate_log : Snapshot → Action W Snapshot
    rotate_log state = do
      raise_some (← outside calls.make_directory)
      fail_on be (← outside calls.sync_log)
      fail_on be (← outside calls.close_log)
      change_or_fail moved_log (← outside calls.rename_log)
      fail_on be (← outside calls.sync_directory)
      change_or_fail created_log (← outside calls.create_log)
      fail_on be (← outside calls.sync_new_log)
      fail_on be (← outside calls.sync_directory)
      pure state

    -- the test for a previous log that an earlier checkpoint has left
    unfoldable pub rotate_unless : Option WalFile → Snapshot → Action W Snapshot
    rotate_unless none state = rotate_log state
    rotate_unless (some _) state = pure state

    unfoldable pub rotate_unless_previous : Snapshot → Action W Snapshot
    rotate_unless_previous state m = rotate_unless m.disk.previous state m

    -- `Service.freezeCheckpoint`
    unfoldable pub freeze_checkpoint : Action W Snapshot
    freeze_checkpoint = do
      raise_some (← gets (λ s. s.failure))
      raise_if (not be.snapshot_configured) Error.snapshot_not_configured
      state ← gets snapshot_of
      raise_some (← outside calls.stat_previous)
      rotate_unless_previous state

    -- `writeSnapshot`
    unfoldable pub write_snapshot : Snapshot → Action W (Unit {0})
    write_snapshot state = do
      raise_some (← outside calls.make_directory)
      raise_some (← outside calls.write_temporary)
      change_or_raise (installed state) (← outside calls.rename_snapshot)
      raise_some (← outside calls.sync_directory)

    -- The end of `checkpoint`
    unfoldable pub finish_checkpoint : Action W (Unit {0})
    finish_checkpoint = do
      raise_some (← gets (λ s. s.failure))
      change_or_raise removed_previous (← outside calls.remove_previous)
      raise_some (← outside calls.sync_directory)

    -- `Service.checkpoint`, if nothing comes between its steps
    unfoldable pub checkpoint : Action W (Unit {0})
    checkpoint = do state ← freeze_checkpoint; write_snapshot state; finish_checkpoint

-- ===== src/Checkpoint/Freeze.antt =====
-- `freezeCheckpoint` of go-backend/internal/trading/checkpoint.go, for any answers of the system.
use prediction_market.Base.{◌≡◌, refl, ◌∙◌, ap, Bool, true, false, not, Option, none, some}
use prediction_market.Ledger.{Error}
use prediction_market.Result.{bind-ok}
use prediction_market.Machine.{
  Action, Backend, Machine, Disk, Snapshot, WalFile, fail, outside, raise_some, raise_if, gets,
  ◌>>=◌, ◌>>◌,
}
use prediction_market.Wal.{fail_on}
use prediction_market.Wal.Replay.{recovered, replayed_file, replayed_lines, loaded}
use prediction_market.Checkpoint.{
  CheckpointCalls, snapshot_of, moved_log, created_log, change_or_fail, rotate_log, rotate_unless,
  rotate_unless_previous, freeze_checkpoint,
}

moved_log-recovered : (d : Disk) → d.previous ≡ none → recovered (moved_log d) ≡ recovered d
unfolding recovered moved_log replayed_file
moved_log-recovered d h = rw h (bind-ok (replayed_file (loaded d.snapshot) d.current))

created_log-recovered : (d : Disk) → d.current ≡ none → recovered (created_log d) ≡ recovered d
unfolding recovered created_log replayed_file replayed_lines
created_log-recovered d h = rw h refl

moved_log-NoCurrent : (d : Disk) → (moved_log d).current ≡ none
unfolding moved_log
moved_log-NoCurrent d = refl

-- From files that are as `P` says, the method leaves what a restart would rebuild.
record Keeping {W A : Type 0} (P : Disk → Type 0) (n : Action W A) : Type 0 where
  kept : (m : Machine W) → P m.disk → recovered (n m).1.disk ≡ recovered m.disk

abbrev Anything : Disk → Type 0
Anything d = Unit {0}

abbrev NoPrevious : Disk → Type 0
NoPrevious d = d.previous ≡ none

abbrev NoCurrent : Disk → Type 0
NoCurrent d = d.current ≡ none

module _ {W A : Type 0} (P : Disk → Type 0) (k : Action W A) where
  after_fail_on :
      (be : Backend W) (f : W → Option Error × W)
      → Keeping P k
      → Keeping P (outside f >>= λ e. fail_on be e >> k)
  unfolding fail_on fail
  after_fail_on be f h = record {
    kept = λ m p. let (e, w) = f m.world in go m p e (record m { world = w }) refl;
  }
    where
      go :
          (m : Machine W)
          → P m.disk
          → (e : Option Error) (m' : Machine W) → m'.disk ≡ m.disk
          → recovered ((fail_on be e >> k) m').1.disk ≡ recovered m.disk
      go m p none m' same = h.kept m' (rw same p) ∙ ap recovered same
      go m p (some x) m' same = ap recovered same

  after_raise_some :
      (f : W → Option Error × W) → Keeping P k → Keeping P (outside f >>= λ e. raise_some e >> k)
  after_raise_some f h = record {
    kept = λ m p. let (e, w) = f m.world in go m p e (record m { world = w }) refl;
  }
    where
      go :
          (m : Machine W)
          → P m.disk
          → (e : Option Error) (m' : Machine W) → m'.disk ≡ m.disk
          → recovered ((raise_some e >> k) m').1.disk ≡ recovered m.disk
      go m p none m' same = h.kept m' (rw same p) ∙ ap recovered same
      go m p (some x) m' same = ap recovered same

  after_change :
      (Q : Disk → Type 0) (f : W → Option Error × W) (change : Disk → Disk)
      → ((d : Disk) → P d → (recovered (change d) ≡ recovered d) × Q (change d))
      → Keeping Q k
      → Keeping P (outside f >>= λ e. change_or_fail change e >> k)
  unfolding change_or_fail fail
  after_change Q f change changed h = record {
    kept = λ m p. let (e, w) = f m.world in go m p e (record m { world = w }) refl;
  }
    where
      go :
          (m : Machine W)
          → P m.disk
          → (e : Option Error) (m' : Machine W) → m'.disk ≡ m.disk
          → recovered ((change_or_fail change e >> k) m').1.disk ≡ recovered m.disk
      go m p none m' same =
          let (unchanged, q) = changed m'.disk (rw same p) in
          h.kept (record m' { disk = change m'.disk }) q ∙ unchanged ∙ ap recovered same
      go m p (some x) m' same = ap recovered same

module _ {W : Type 0} (be : Backend W) (calls : CheckpointCalls W) where
  rotate_log-Keeping : (state : Snapshot) → Keeping NoPrevious (rotate_log be calls state)
  unfolding rotate_log
  rotate_log-Keeping state = after_raise_some NoPrevious _ calls.make_directory (
      after_fail_on NoPrevious _ be calls.sync_log (
        after_fail_on NoPrevious _ be calls.close_log (
          after_change NoPrevious _ NoCurrent calls.rename_log moved_log
            (λ d p. (moved_log-recovered d p, moved_log-NoCurrent d))
            (after_fail_on NoCurrent _ be calls.sync_directory (
              after_change NoCurrent _ Anything calls.create_log created_log
                (λ d p. (created_log-recovered d p, tt))
                (after_fail_on Anything _ be calls.sync_new_log (
                  after_fail_on Anything _ be calls.sync_directory
                    (record { kept = λ m p. refl }))))))))

  rotate_unless-kept :
      (previous : Option WalFile) (state : Snapshot) (m : Machine W)
      → m.disk.previous ≡ previous
      → recovered (rotate_unless be calls previous state m).1.disk ≡ recovered m.disk
  unfolding rotate_unless
  rotate_unless-kept none state m is = (rotate_log-Keeping state).kept m is
  rotate_unless-kept (some f) state m is = refl

  rotate_unless_previous-kept :
      (state : Snapshot) (m : Machine W)
      → recovered (rotate_unless_previous be calls state m).1.disk ≡ recovered m.disk
  unfolding rotate_unless_previous
  rotate_unless_previous-kept state m = rotate_unless-kept m.disk.previous state m refl

  frozen :
      (failure : Option Error) (unconfigured : Bool) (m : Machine W)
      → recovered
          ((raise_some failure
              >> (raise_if unconfigured Error.snapshot_not_configured
                  >> (gets snapshot_of >>= λ state. outside calls.stat_previous >>= λ e.
                      raise_some e >> rotate_unless_previous be calls state)))
            m).1.disk
        ≡ recovered m.disk
  frozen (some e) unconfigured m = refl
  frozen none true m = refl
  frozen none false m =
      (after_raise_some Anything _ calls.stat_previous
          (record { kept = λ m' p. rotate_unless_previous-kept (snapshot_of m.service) m' })).kept
        m tt

  -- Whatever the calls of `freezeCheckpoint` answer, and wherever it stops, a restart rebuilds from
  -- the files afterwards what it would have rebuilt from them before.
  pub freeze_checkpoint-recovered :
      (m : Machine W) → recovered (freeze_checkpoint be calls m).1.disk ≡ recovered m.disk
  unfolding freeze_checkpoint
  freeze_checkpoint-recovered m = frozen m.service.failure (not be.snapshot_configured) m

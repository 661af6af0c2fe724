-- ===== src/Tests.antt =====
-- Runs of the model at concrete data: two users, one market, and orders that match.
mod Requests
mod Access
mod Projection
mod Routing
mod Quoting
mod Counting
mod Loading
mod Batching
mod Serving
use prediction_market.Base.{
  ◌+◌, length, Option, ℕ, false, subst, ◌≡◌, refl, arith, true, none, some, List, [], ◌∷◌,
  eq_string, if◌then◌else◌,
}
use prediction_market.Int.{pos, add64, mul64, neg64, int64, ◌+ℤ◌, ◌-ℤ◌, ◌*ℤ◌}
use prediction_market.Dict
use prediction_market.Ledger.{
  Service, Market, Order, Side, Status, Error, Event, EngineTrade, empty_service, zero_order,
  engine_key, eq_engine_key, balance, position, user_positions, apply_all, apply, apply_kind,
  credit, move_shares, store_order, forget_engine_order, is_live, EventKind, zero_event,
}
use prediction_market.Ledger.Range.{InRange, apply_all-InRange}
use prediction_market.Result.{ok, err}
use prediction_market.Machine.{Backend, batched, written, Line, Machine, Disk, wal_record}
use prediction_market.Wal.{
  line_events, pending_events, commit_many, number_all, next, store_batch, append_many, after_write,
  write_error, project, project_by, fail_on, append_line, new_file,
}
use prediction_market.Wal.Numbers.{recovered-append}
use prediction_market.Ledger.Effects.{balance-apply, position-apply, moved}
use prediction_market.Sort.{string_before, place_sorted, sort}
use prediction_market.Wal.Replay.{
  replayed_line, replayed_lines, quiet, recovered, replayed_file, loaded,
}
use prediction_market.Wal.Durability.{IsDurable, IsStamped, Committed, commit_many-Committed}
use prediction_market.Checkpoint.{CheckpointCalls, freeze_checkpoint}
use prediction_market.Checkpoint.Safety.{IsCrashSafe, checkpoint-IsCrashSafe}
use prediction_market.Checkpoint.Freeze.{freeze_checkpoint-recovered}
use prediction_market.Orders.{
  prepare_order, is_buy, same_order, reserved_order, reservation, stake_events, order_event,
}
use prediction_market.Orders.Admission.{
  IsAdmissible, IsAdmissible-prepare_order, prepare_order-IsAdmissible, reserved_events,
}
use prediction_market.Orders.Overdraft.{IsReserved, prepare_order-IsReserved}
use prediction_market.Trades.{find_order, staged_order, build_trade_events}
use prediction_market.Trades.Totals.{IsBalanced}
use prediction_market.Trades.Conservation.{
  taken_by_all, staged_terms, build_trade_events-IsBalanced,
}
use prediction_market.Trading.Accounts.{deposit_event, market_event, release_events}
use prediction_market.Trading.Quotes.{contains}
use prediction_market.Trading.Place.{place_single}
use prediction_market.Trading.Work.{batch, serve, serve-latched}
use prediction_market.Trading.Retry.{IsSame, place_single-known}
use prediction_market.Trading.Resolve.{
  payout_events, resting_ids, withdraw_order, withdraw_all, settle, open_market, resolve_for,
  settle_positions,
}
use prediction_market.Trading.Payout.{IsSettled, settle_positions-IsSettled}
use prediction_market.Trading.Release.{SameFunds, release-reservation}
use prediction_market.Trading.Batch.{Placement}
use prediction_market.Trading.Batch.Queue.{empty_queue, enqueue}
use prediction_market.Trading.Batch.Fifo.{Reached, start, enqueued, IsFifo, Reached-IsFifo}

abbrev rain : Market
rain = record { id = "m1"; symbol = "RAIN"; owner_id = ""; status = Status.open_ }

abbrev pub bid : Order
bid = record zero_order {
  id = "o1";
  user_id = "alice";
  market_id = "m1";
  side = Side.buy_yes;
  price = pos 60;
  quantity = pos 10;
}

abbrev offer : Order
offer = record zero_order {
  id = "o2";
  user_id = "bob";
  market_id = "m1";
  side = Side.buy_no;
  price = pos 45;
  quantity = pos 10;
}

-- The market is open and alice has cash and ten shares of each outcome.
abbrev pub funded : Service
funded = record empty_service {
  markets = ("m1", rain) ∷ [];
  balances = ("alice", pos 1000) ∷ [];
  positions = ("alice", ("m1", record { yes_shares = pos 10; no_shares = pos 10 }) ∷ []) ∷ [];
}

-- Both orders rest in the engine.
abbrev resting : Service
resting = record funded {
  orders = ("o1", bid) ∷ ("o2", offer) ∷ [];
  engine_orders = (engine_key "m1" 1, "o1") ∷ (engine_key "m1" 2, "o2") ∷ [];
}

abbrev no_files : Disk
no_files = record { current = none; previous = none; snapshot = none }

abbrev pub machine_of : Service → Machine (Unit {0})
machine_of s = record { service = s; disk = no_files; world = tt }

pub empty_service-IsDurable : IsDurable (machine_of empty_service)
unfolding recovered replayed_file loaded
empty_service-IsDurable = record { restored = refl; whole = refl }

commit_many-Committed_example :
    (numbered : List Event) × IsStamped 0 (deposit_event "alice" (pos 100) ∷ []) numbered
    × Committed quiet
        (machine_of empty_service)
        numbered
        (commit_many quiet (deposit_event "alice" (pos 100) ∷ []) (machine_of empty_service))
commit_many-Committed_example =
    commit_many-Committed quiet (deposit_event "alice" (pos 100)) [] (machine_of empty_service)
      empty_service-IsDurable (omega arith)

-- A database that takes every batch and counts its events, and a log with one of them
abbrev projecting : Backend ℕ
projecting = record {
  engine = none;
  projector = some (batched (λ es n. (none, n + length es)));
  disable_engine_batch = false;
  snapshot_configured = true;
  new_id = λ n. ("", n);
  encoded_length = λ l. 0;
  write_line = λ l n. (written, n);
  open_file = λ n. (none, n);
  repair_file = λ n. (none, n);
  scan_error = λ n. (none, n);
  read_snapshot = λ n. (none, n);
}

abbrev one_deposit : Machine ℕ
one_deposit = record {
  service = funded;
  disk = record no_files {
    current = some (record {
      lines =
          wal_record (pos 1)
            (record (deposit_event "alice" (pos 100)) { id = "e1"; sequence = 1 } ∷ [])
          ∷ [];
      torn = true;
    });
  };
  world = 0;
}

abbrev matched : List EngineTrade
matched = record { buy_order_id = 1; sell_order_id = 2; price = pos 55; quantity = 10 } ∷ []

build_trade_events-IsBalanced_example :
    IsBalanced
      (build_trade_events resting "m1" matched [] []).0
      (taken_by_all resting "m1" [] (staged_terms resting []) matched)
unfolding find_order staged_order Dict.lookup
build_trade_events-IsBalanced_example = build_trade_events-IsBalanced resting "m1" matched [] [] (
  record {
    buys = refl;
    sells = refl;
    bid = refl;
    bid_bound = omega arith;
    ask = refl;
    ask_bound = omega arith;
    price = refl;
    price_bound = omega arith;
    quantity_bound = omega arith;
  },
  tt,
)

bid-IsAdmissible : IsAdmissible funded bid
unfolding balance Dict.lookup int64 ◌*ℤ◌
bid-IsAdmissible = record {
  has_id = λ h. cc;
  has_user = λ h. cc;
  positive = omega arith;
  fits = omega arith;
  fresh = refl;
  open_market = (rain, refl, refl);
  price_low = omega arith;
  price_high = omega arith;
  covered = omega arith;
}

IsAdmissible-prepare_order_example : prepare_order funded bid ≡ ok (reserved_events funded bid)
IsAdmissible-prepare_order_example = IsAdmissible-prepare_order funded bid bid-IsAdmissible

-- How `funded` came about.
abbrev funding : List Event
funding =
    market_event rain
    ∷ deposit_event "alice" (pos 1000)
    ∷ record (zero_event EventKind.event_position) {
      user_id = "alice";
      market_id = "m1";
      yes_delta = pos 10;
      no_delta = pos 10;
    }
    ∷ []

empty_service-InRange : InRange empty_service
unfolding balance position user_positions Dict.lookup
empty_service-InRange = record {
  cash = λ u. (omega arith, omega arith);
  yes_shares = λ u k. (omega arith, omega arith);
  no_shares = λ u k. (omega arith, omega arith);
}

funding-funded : apply_all empty_service funding ≡ funded
unfolding apply_all apply apply_kind credit move_shares balance position user_positions Dict.lookup
    Dict.insert int64 ◌+ℤ◌
funding-funded = refl

pub funded-InRange : InRange funded
funded-InRange =
    subst (λ (s : Service). InRange s) funding-funded
      (apply_all-InRange funding empty_service empty_service-InRange)

abbrev bid_event : Event
bid_event = order_event (reserved_order funded bid (pos 60) "buy") (neg64 (mul64 (pos 60) (pos 10)))

bid_prepared : prepare_order funded bid ≡ ok (bid_event ∷ [])
unfolding reservation stake_events is_buy reserved_order
bid_prepared = IsAdmissible-prepare_order funded bid bid-IsAdmissible

prepare_order-IsReserved_example : IsReserved funded bid (apply_all funded (bid_event ∷ []))
prepare_order-IsReserved_example =
    prepare_order-IsReserved funded bid bid_event [] funded-InRange (omega arith, omega arith)
      bid_prepared

prepare_order-IsAdmissible_example : IsAdmissible funded bid
prepare_order-IsAdmissible_example =
    prepare_order-IsAdmissible funded bid bid_event [] (omega arith, omega arith) bid_prepared

abbrev stuck : Service
stuck = record funded { failure = some (Error.recovery_required Error.record_too_large) }

abbrev pub request : Placement
request = record { context = none; order = bid }

-- Every call succeeds.
abbrev pub no_error : CheckpointCalls (Unit {0})
no_error =
    let fine : Unit {0} → Option Error × Unit {0} = λ w. (none, w) in
    record {
      stat_previous = fine;
      make_directory = fine;
      sync_log = fine;
      close_log = fine;
      rename_log = fine;
      sync_directory = fine;
      create_log = fine;
      sync_new_log = fine;
      write_temporary = fine;
      rename_snapshot = fine;
      remove_previous = fine;
    }

serve-latched_example :
    (e : Error) × (serve quiet no_error (batch (request ∷ request ∷ [])) (machine_of stuck)
      ≡ (some e ∷ some e ∷ [], machine_of stuck))
serve-latched_example =
    serve-latched quiet no_error (machine_of stuck) (Error.recovery_required Error.record_too_large)
      refl (batch (request ∷ request ∷ []))

place_single-known_example :
    (IsSame bid bid
      → place_single quiet none bid (machine_of resting) ≡ (ok [], machine_of resting))
    × ((IsSame bid bid → ⊥)
        → place_single quiet none bid (machine_of resting)
          ≡ (err Error.order_exists, machine_of resting))
unfolding Dict.lookup
place_single-known_example =
    place_single-known quiet (machine_of resting) bid bid refl (λ h. cc) (λ h. cc) (omega arith)
      (omega arith) refl

settle_positions-IsSettled_example :
    IsSettled funded "m1" true
      ("alice" ∷ [])
      funded
      (apply_all funded (settle_positions funded "m1" true ("alice" ∷ [])))
unfolding contains
settle_positions-IsSettled_example =
    settle_positions-IsSettled funded "m1" true ("alice" ∷ []) funded (refl, tt) funded-InRange

release-reservation_example :
    SameFunds funded (apply_all (apply_all funded (reservation bid)) (release_events bid))
release-reservation_example =
    release-reservation funded bid funded-InRange (omega arith, omega arith) refl

one_request : Reached 2 (request ∷ []) [] (enqueue request empty_queue).1
unfolding enqueue
one_request = enqueued request start

Reached-IsFifo_example : IsFifo (request ∷ []) [] (enqueue request empty_queue).1
Reached-IsFifo_example = Reached-IsFifo (omega arith) one_request

abbrev numbered_deposit : Event
numbered_deposit = record (deposit_event "alice" (pos 100)) { id = "e1"; sequence = 1 }

recovered-append_example :
    recovered (record no_files {
      current = some (append_line (wal_record (pos 1) (numbered_deposit ∷ [])) new_file);
    })
    ≡ ok (apply_all empty_service (numbered_deposit ∷ []))
recovered-append_example =
    recovered-append no_files numbered_deposit [] empty_service empty_service-IsDurable.restored
      refl (refl, tt)

balance-apply_example :
    balance (apply funded numbered_deposit) "alice" ≡ add64 (balance funded "alice") (pos 100)
balance-apply_example = balance-apply funded numbered_deposit "alice"

abbrev bought : Event
bought = record (zero_event EventKind.event_position) {
  user_id = "alice";
  market_id = "m1";
  yes_delta = pos 3;
}

position-apply_example :
    position (apply funded bought) "alice" "m1"
    ≡ moved (position funded "alice" "m1") (pos 3) (pos 0)
position-apply_example = position-apply funded bought "alice" "m1"

-- An order that rests when its market is resolved: the shares that it had reserved come back
-- unpaid.
abbrev sold_out : Service
sold_out = record funded {
  orders =
      (
        "o3",
        record zero_order {
          id = "o3";
          user_id = "alice";
          market_id = "m1";
          side = Side.sell_yes;
          price = pos 70;
          quantity = pos 10;
          status = Status.open_;
        },
      )
      ∷ [];
  positions = ("alice", ("m1", record { yes_shares = pos 0; no_shares = pos 0 }) ∷ []) ∷ [];
}

abbrev settled : Service
settled = (resolve_for quiet none "m1" true "" (machine_of sold_out)).1.service

settled_accounts :
    (position settled "alice" "m1" ≡ record { yes_shares = pos 10; no_shares = pos 0 })
    × (balance settled "alice" ≡ pos 1000)
unfolding resolve_for open_market settle withdraw_all withdraw_order resting_ids release_events
    stake_events is_buy settle_positions payout_events commit_many number_all next store_batch
    append_many after_write write_error project project_by fail_on apply_all apply apply_kind credit
    move_shares store_order forget_engine_order is_live balance position user_positions Dict.lookup
    Dict.insert Dict.delete int64 ◌+ℤ◌ ◌-ℤ◌ ◌*ℤ◌ string_before place_sorted sort
settled_accounts = (refl, refl)

-- A deposit with its number, and the line that holds it.
abbrev deposit_at : ℕ → Event
deposit_at n = record (deposit_event "alice" (pos 100)) { id = "e"; sequence = n }

abbrev line_at : ℕ → Line
line_at n = wal_record (pos 1) (deposit_at n ∷ [])

-- In the course of a checkpoint: the previous log, and a line of the current one that the frozen
-- state counts and one that it does not.
abbrev two_logs : Disk
two_logs = record {
  previous = some (record { lines = line_at 1 ∷ []; torn = false });
  current = some (record { lines = line_at 2 ∷ line_at 3 ∷ []; torn = false });
  snapshot = none;
}

abbrev after_first : Service
after_first = apply_all empty_service (deposit_at 1 ∷ [])

abbrev after_second : Service
after_second = apply_all after_first (deposit_at 2 ∷ [])

abbrev after_third : Service
after_third = apply_all after_second (deposit_at 3 ∷ [])

two_logs_first :
    replayed_file (loaded none) (some (record { lines = line_at 1 ∷ []; torn = false }))
    ≡ ok after_first
unfolding replayed_file loaded replayed_lines replayed_line line_events pending_events
two_logs_first = refl

two_logs_second : replayed_lines after_first 0 (line_at 2 ∷ []) ≡ ok (after_second, 2)
unfolding replayed_lines replayed_line line_events pending_events apply_all apply apply_kind credit
    balance Dict.insert Dict.lookup int64 ◌+ℤ◌
two_logs_second = refl

two_logs_third : replayed_lines after_second 2 (line_at 3 ∷ []) ≡ ok (after_third, 3)
unfolding replayed_lines replayed_line line_events pending_events apply_all apply apply_kind credit
    balance Dict.insert Dict.lookup int64 ◌+ℤ◌
two_logs_third = refl

checkpoint-IsCrashSafe_example : IsCrashSafe two_logs after_second after_third
checkpoint-IsCrashSafe_example =
    checkpoint-IsCrashSafe two_logs after_first after_second after_third (line_at 2 ∷ [])
      (line_at 3 ∷ []) 2 3 false two_logs_first refl two_logs_second two_logs_third

abbrev one_log : Machine (Unit {0})
one_log = record (machine_of after_first) {
  disk = record {
    previous = none;
    current = some (record { lines = line_at 1 ∷ []; torn = false });
    snapshot = none;
  };
}

freeze_checkpoint-recovered_example :
    recovered (freeze_checkpoint quiet no_error one_log).1.disk ≡ recovered one_log.disk
freeze_checkpoint-recovered_example = freeze_checkpoint-recovered quiet no_error one_log

-- ===== src/Trading/Batch.antt =====
-- The first loop of `placeBatchWithQuotes` of go-backend/internal/trading/order_batch.go: which
-- requests of a batch are admitted, and what each request is answered. The child Commit has what
-- follows the loop, the child Queue the queue that the batches are taken from.
pub mod Commit
pub mod Queue
pub mod Fifo
pub mod Solvent
pub mod Grown
pub mod Reserved
pub mod Solvency
use prediction_market.Base.{
  ℕ, zero, suc, ◌+◌, ◌%◌, ◌^◌, String, ◌≡◌, ◌↔◌, Bool, true, false, ◌&&◌, ◌||◌, not, Option, none,
  some, List, [], ◌∷◌, ◌++◌, map, arith, Eq, ◌==◌, nat_eq, if◌then◌else◌, get_or, eq_string, length,
}
use prediction_market.Int.{ℤ, pos, add64, uint32, int32, ltb_ℤ}
use prediction_market.Dict
use prediction_market.Dict.{Dict}
use prediction_market.Ledger.{
  Service, Order, Event, Status, Error, Position, EngineResult, EngineOrderKey, engine_key,
  eq_engine_key, zero_order, zero_position, balance, position,
}
use prediction_market.Result.{Result, ok, err}
use prediction_market.Machine.{
  Action, Machine, Backend, Engine, EngineOrder, EngineBatch, pure, gets, outside, fail, ◌>>=◌,
  ◌>>◌,
}
use prediction_market.Wal.{commit_many}
use prediction_market.Orders.{is_buy, same_order, prepare_order}
use prediction_market.Trades.{Staged, build_trade_events, order_stored}
use prediction_market.Trading.Quotes.{MarketQuote, market_of, read_quotes}
use prediction_market.Trading.Accounts.{Context}
use prediction_market.Trading.Place.{opened_order}

-- `placement`, without its clock and its channel
pub record Placement : Type 0 where
  pub context : Context
  pub order : Order

-- `accountMarket`
pub record AccountMarket : Type 0 where
  pub user : String
  pub market : String

abbrev pub account_market : String → String → AccountMarket
account_market user market = record { user = user; market = market }

abbrev pub account_market_eq : AccountMarket → AccountMarket → Bool
account_market_eq a b = a.user == b.user && a.market == b.market

pub account_market_eq_iff : (a b : AccountMarket) → (account_market_eq a b ≡ true) ↔ (a ≡ b)
account_market_eq_iff a b = (
  λ h. ground (arith, eq_string.equals_iff a.user b.user, eq_string.equals_iff a.market b.market),
  λ h. ground (arith, eq_string.equals_iff a.user b.user, eq_string.equals_iff a.market b.market),
)

instance abbrev pub eq_account_market : Eq AccountMarket
eq_account_market = record { equals = account_market_eq; equals_iff = account_market_eq_iff }

-- What the first loop decides of a request: its outcome at once, the batch's outcome, or the
-- outcome of the earlier request that it repeats.
pub data Verdict : Type 0 where
  decided : Option Error → Verdict
  admitted : Verdict
  alias_of : ℕ → Verdict

-- The variables of the first loop.
pub record Admissions : Type 0 where
  pub initial : List Event
  -- the orders of the admitted requests
  pub orders : List Order
  pub by_id : Dict String (ℕ × Order)
  pub cash : Dict String ℤ
  pub shares : Dict AccountMarket Position

abbrev pub no_admissions : Admissions
no_admissions = record { initial = []; orders = []; by_id = []; cash = []; shares = [] }

-- `events[1]` of a sell order; a buy order has no second event, and it is not asked for.
abbrev pub added_shares : List Event → Position → Position
added_shares [] p = p
added_shares (e ∷ _) p = record {
  yes_shares = add64 p.yes_shares e.yes_delta;
  no_shares = add64 p.no_shares e.no_delta;
}

abbrev pub is_short : Position → Position → Bool
is_short held change =
    ltb_ℤ (add64 held.yes_shares change.yes_shares) (pos 0)
    || ltb_ℤ (add64 held.no_shares change.no_shares) (pos 0)

-- The end of the first loop's body: what the batch reserves already is counted in.
unfoldable pub admit_reserved :
    Service → Admissions → ℕ → Order → Event → List Event → Verdict × Admissions
admit_reserved s a i o e es =
    let reserved = add64 (get_or (Dict.lookup o.user_id a.cash) (pos 0)) e.amount in
    let key = account_market o.user_id o.market_id in
    let before = get_or (Dict.lookup key a.shares) zero_position in
    let after = if is_buy o.side then before else added_shares es before in
    let sequence = (s.sequence + length a.initial + 1) % 2 ^ 64 in
    let numbered : Event = record e { order = record e.order { sequence = sequence } } in
    if ltb_ℤ (add64 (balance s o.user_id) reserved) (pos 0)
    then (decided (some Error.insufficient_balance), a)
    else if not (is_buy o.side) && is_short (position s o.user_id o.market_id) after
    then (decided (some Error.insufficient_shares), a)
    else (
      admitted,
      record {
        initial = a.initial ++ numbered ∷ es;
        orders = a.orders ++ o ∷ [];
        by_id = Dict.insert o.id (i, o) a.by_id;
        cash = Dict.insert o.user_id reserved a.cash;
        shares = Dict.insert key after a.shares;
      },
    )

unfoldable pub admit_prepared :
    Service → Admissions → ℕ → Order → Result (List Event) → Verdict × Admissions
admit_prepared s a i o (err x) = (decided (some x), a)
admit_prepared s a i o (ok []) = (decided none, a)
admit_prepared s a i o (ok (e ∷ es)) = admit_reserved s a i o e es

-- An id that an earlier request of the batch has been admitted with.
unfoldable pub admit_repeated : Admissions → Order → ℕ × Order → Verdict × Admissions
unfolding same_order
admit_repeated a o (original, previous) =
    if same_order previous o then (alias_of original, a) else (decided (some Error.order_exists), a)

-- One round of the first loop.
unfoldable pub admit_request : Service → Admissions → ℕ → Placement → Verdict × Admissions
admit_request s a i request = elim request.context [
  | some e ↦ (decided (some e), a)
  | none ↦ elim (Dict.lookup request.order.id a.by_id) [
    | some original ↦ admit_repeated a request.order original
    | none ↦ admit_prepared s a i request.order (prepare_order s request.order)
  ]
]

unfoldable pub admit_all : Service → Admissions → ℕ → List Placement → List Verdict × Admissions
admit_all s a i [] = ([], a)
admit_all s a i (request ∷ requests) =
    let (verdict, a') = admit_request s a i request in
    let (verdicts, a'') = admit_all s a' (suc i) requests in (verdict ∷ verdicts, a'')

-- `outcomes` before the aliases are filled in, with the error of the batch
abbrev pub outcome_of : Option Error → Verdict → Option Error
outcome_of e (decided x) = x
outcome_of e admitted = e
outcome_of e (alias_of _) = none

-- `outcomes[i]`
abbrev pub outcome_at : List (Option Error) → ℕ → Option Error
outcome_at [] i = none
outcome_at (x ∷ xs) zero = x
outcome_at (x ∷ xs) (suc i) = outcome_at xs i

abbrev pub final_outcome : List (Option Error) → Option Error → Verdict → Option Error
final_outcome first e (alias_of original) = outcome_at first original
final_outcome first e verdict = outcome_of e verdict

unfoldable pub outcomes : List Verdict → Option Error → List (Option Error)
outcomes verdicts e = map (final_outcome (map (outcome_of e) verdicts) e) verdicts

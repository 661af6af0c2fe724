-- ===== src/Trading/Resolve.antt =====
-- `ResolveFor` of go-backend/internal/trading/service.go: the open orders of the market are
-- cancelled, every position is paid out, and the market is closed, in one commit.
use prediction_market.Base.{
  String, Bool, true, false, ◌&&◌, not, Option, none, some, List, [], ◌∷◌, ◌++◌, ◌==◌,
  if◌then◌else◌, get_or, eq_string,
}
use prediction_market.Int.{pos, mul64, neg64, eq_int}
use prediction_market.Dict
use prediction_market.Dict.{Dict}
use prediction_market.Ledger.{
  Service, Market, Order, Position, Event, EventKind, Status, Error, zero_event, zero_order,
  is_open, position,
}
use prediction_market.Result.{ok, err}
use prediction_market.Machine.{
  Action, Backend, pure, raise, gets, outside, raise_if, raise_some, fail, ◌>>=◌, ◌>>◌,
}
use prediction_market.Wal.{commit_many}
use prediction_market.Sort.{sort, string_before}
use prediction_market.Trading.Quotes.{MarketQuote, closed_quote}
use prediction_market.Trading.Accounts.{Context, release_events, is_cancellable, market_event}

-- The ids of the market's orders that rest in the engine.
unfoldable pub resting_ids : String → Dict String Order → List String
resting_ids market_id [] = []
resting_ids market_id ((id, o) ∷ orders) =
    let rest = resting_ids market_id orders in
    if o.market_id == market_id && is_cancellable o.status then id ∷ rest else rest

abbrev pub keys {ℓ} : {V : Type ℓ} → Dict String V → List String
keys [] = []
keys ((k, _) ∷ d) = k ∷ keys d

-- What the market pays for a position when it resolves, and the event that closes the position.
unfoldable pub payout_events : String → Bool → String → Position → List Event
payout_events market_id won user p =
    if p.yes_shares == pos 0 && p.no_shares == pos 0
    then []
    else record (zero_event EventKind.event_position) {
      user_id = user;
      market_id = market_id;
      yes_delta = neg64 p.yes_shares;
      no_delta = neg64 p.no_shares;
      amount = mul64 (if won then p.yes_shares else p.no_shares) (pos 100);
    }
      ∷ []

unfoldable pub settle_positions : Service → String → Bool → List String → List Event
unfolding payout_events
settle_positions s market_id won [] = []
settle_positions s market_id won (user ∷ users) =
    payout_events market_id won user (position s user market_id)
    ++ settle_positions s market_id won users

abbrev pub resolved : Bool → Market → Market
resolved won m = record m { status = if won then Status.resolved_yes else Status.resolved_no }

-- `m, ok := s.markets[id]; !ok || m.Status != Open`
unfoldable pub open_market : String → Service → Option Market
open_market id s = elim (Dict.lookup id s.markets) [
  | none ↦ none
  | some m ↦ if is_open m.status then some m else none
]

module _ {W : Type 0} (be : Backend W) where
  -- `RemoveOrder` of `ResolveFor`
  unfoldable pub withdraw_order : String → Order → Action W (Unit {0})
  unfolding fail
  withdraw_order symbol o = elim be.engine [
    | none ↦ pure tt
    | some engine ↦ do
      removed ← outside (engine.remove_order symbol o.engine_id)
      elim removed [ err e ↦ fail e | ok true ↦ pure tt | ok false ↦ raise Error.engine_rejected ]
  ]

  -- The loop over the sorted ids, with the events that it collects.
  unfoldable pub withdraw_all : String → List String → Action W (List Event)
  withdraw_all symbol [] = pure []
  withdraw_all symbol (id ∷ ids) = do
    o ← gets (λ s. get_or (Dict.lookup id s.orders) zero_order)
    withdraw_order symbol o
    rest ← withdraw_all symbol ids
    pure (release_events o ++ rest)

  unfoldable pub settle : Market → String → Bool → Action W (List MarketQuote)
  settle m id won = do
    s ← gets (λ s. s)
    released ← withdraw_all m.symbol (sort string_before (resting_ids id s.orders))
    commit_many be (
        released
        ++ (settle_positions s id won (sort string_before (keys s.positions))
            ++ market_event (resolved won m) ∷ []))
    sequence ← gets (λ s. s.sequence)
    pure (closed_quote id m.symbol sequence ∷ [])

  -- `Service.ResolveFor`, with the quotes that it publishes; `Resolve` is the call with no owner.
  unfoldable pub resolve_for : Context → String → Bool → String → Action W (List MarketQuote)
  resolve_for ctx id won owner_id = do
    raise_some ctx
    raise_some (← gets (λ s. s.failure))
    elim (← gets (open_market id)) [
      | none ↦ raise Error.market_not_open
      | some m ↦ do
        raise_if (not (m.owner_id == "") && not (m.owner_id == owner_id)) Error.not_market_owner
        settle m id won
    ]

-- ===== src/Projector.antt =====
-- The projector of go-backend/internal/store/projector.go: the events of the log written into tables of
-- PostgreSQL. A table is the list of its rows under their keys, and a statement is what it does to the
-- tables, or an error. The ranges of the column types and the constraints are those of `Migrate`. Once
-- is about batches that are sent again, Statements about what each statement leaves of the accounts,
-- Mirror about what the tables say of the ledger.
pub mod Once
pub mod Statements
pub mod Mirror
use prediction_market.Base.{
  ℕ, ◌^◌, ◌-◌, ◌*◌, String, Bool, true, false, not, ◌&&◌, ◌||◌, Option, none, some, List, [], ◌∷◌,
  ltb, ◌==◌, eq_string, if◌then◌else◌, get_or,
}
use prediction_market.Int.{ℤ, pos, negsuc, ◌+ℤ◌, leb_ℤ, ltb_ℤ, int_eq}
use prediction_market.Dict
use prediction_market.Dict.{Dict}
use prediction_market.Ledger.{
  Market, Order, Trade, Position, Positions, Event, EventKind, Error, Service, user_positions,
  zero_position,
}
use prediction_market.Result.{Result, ok, err, ◌>>=◌, return_if, ◌>>◌}

pub record Tables : Type 0 where
  pub markets : Dict String Market
  pub balances : Dict String ℤ
  pub orders : Dict String Order
  -- the rows of a user, by market
  pub positions : Positions
  pub trades : Dict String (ℕ × Trade)
  pub order_events : Dict String Event

-- The signed integers of `n` bits
abbrev pub in_bits : ℕ → ℤ → Bool
in_bits n x = leb_ℤ (negsuc (2 ^ (n - 1) - 1)) x && leb_ℤ x (pos (2 ^ (n - 1) - 1))

abbrev pub has {ℓ} : {V : Type ℓ} → String → Dict String V → Bool
has id d = elim (Dict.lookup id d) [ none ↦ false | some _ ↦ true ]

-- A statement that a constraint or a range rejects, or its result
unfoldable pub checked : Bool → String → Result Tables → Result Tables
checked true reason result = err (Error.external reason)
checked false reason result = result

-- `nullable` leaves out an empty owner, which a read gives back as the empty text.
abbrev pub symbol_taken : Market → Dict String Market → Bool
symbol_taken m [] = false
symbol_taken m ((id, row) ∷ rows) =
    if not (id == m.id) && row.symbol == m.symbol then true else symbol_taken m rows

-- The row of a market
unfoldable pub put_market : Market → Tables → Result Tables
put_market m t =
    checked (symbol_taken m t.markets) "markets_symbol_key"
      (ok (record t { markets = Dict.insert m.id m t.markets }))

-- `balances.cents`, 0 without a row
unfoldable pub cents : Tables → String → ℤ
cents t user = get_or (Dict.lookup user t.balances) (pos 0)

unfoldable pub store_cents : String → ℤ → Tables → Result Tables
store_cents user total t =
    checked (not (in_bits 64 total)) "bigint out of range"
      (ok (record t { balances = Dict.insert user total t.balances }))

-- A debit that no row covers
unfoldable pub uncovered : String → ℤ → Tables → Bool
unfolding cents
uncovered user delta t =
    ltb_ℤ delta (pos 0) && (not (has user t.balances) || ltb_ℤ (cents t user +ℤ delta) (pos 0))

-- `balance`: a credit is an upsert; a debit changes one row that covers it, or else is an error, which
-- the code does not look for if the user is the empty text.
unfoldable pub change_balance : String → ℤ → Tables → Result Tables
unfolding cents store_cents
change_balance user delta t =
    if uncovered user delta t && user == ""
    then ok t
    else checked (uncovered user delta t) "insufficient projected balance"
        (store_cents user (cents t user +ℤ delta) t)

-- `if e.Amount != 0 { balance(e.UserID, e.Amount) }`
unfoldable pub change_nonzero : String → ℤ → Tables → Result Tables
unfolding change_balance
change_nonzero user delta t = if int_eq delta (pos 0) then ok t else change_balance user delta t

-- The row that an order's statement leaves: of one that is there, three columns change.
abbrev pub updated_row : Option Order → Order → Order
updated_row none o = o
updated_row (some row) o = record row {
  engine_id = o.engine_id;
  filled_quantity = o.filled_quantity;
  status = o.status;
}

-- The columns' ranges and `CHECK`s, and the market that a new row names
abbrev pub bad_order : Order → Tables → Bool
bad_order o t =
    not (in_bits 32 o.quantity)
    || not (in_bits 32 o.filled_quantity)
    || not (in_bits 16 o.engine_price)
    || ltb_ℤ o.price (pos 1)
    || ltb_ℤ (pos 99) o.price
    || ltb_ℤ o.quantity (pos 1)
    || (not (has o.id t.orders) && not (has o.market_id t.markets))

unfoldable pub put_order : Order → Tables → Result Tables
put_order o t = checked (bad_order o t) "orders" (
    ok
      (record t { orders = Dict.insert o.id (updated_row (Dict.lookup o.id t.orders) o) t.orders }))

-- The row of `positions`, zero without one
unfoldable pub shares : Tables → String → String → Position
unfolding user_positions
shares t user market = get_or (Dict.lookup market (user_positions t.positions user)) zero_position

abbrev pub added : Position → ℤ → ℤ → Position
added p yes_delta no_delta = record {
  yes_shares = p.yes_shares +ℤ yes_delta;
  no_shares = p.no_shares +ℤ no_delta;
}

unfoldable pub put_shares : String → String → ℤ → ℤ → Tables → Result Tables
unfolding shares user_positions
put_shares user market yes_delta no_delta t =
    let p = added (shares t user market) yes_delta no_delta in
    checked
      (not (has market t.markets) || not (in_bits 64 p.yes_shares) || not (in_bits 64 p.no_shares))
      "positions"
      (ok (record t {
        positions =
            Dict.insert user (Dict.insert market p (user_positions t.positions user)) t.positions;
      }))

-- `ON CONFLICT DO NOTHING`
unfoldable pub put_trade : Event → Tables → Result Tables
put_trade e t =
    let tr = e.trade in
    checked
      (not (in_bits 64 (pos e.sequence))
        || not (in_bits 16 tr.price)
        || not (in_bits 32 (pos tr.quantity)))
      "trades"
      (if has e.id t.trades
        then ok t
        else checked (not (has tr.market_id t.markets)) "trades_market_id_fkey"
            (ok (record t { trades = Dict.insert e.id (e.sequence, tr) t.trades })))

-- The statements of one event, in their order
unfoldable pub effect : EventKind → Event → Tables → Result Tables
unfolding put_market change_balance put_order change_nonzero put_shares put_trade
effect EventKind.event_market e t = put_market e.market t
effect EventKind.event_balance e t = change_balance e.user_id e.amount t
effect EventKind.event_order e t = put_order e.order t >>= change_nonzero e.user_id e.amount
effect EventKind.event_position e t =
    put_shares e.user_id e.market_id e.yes_delta e.no_delta t >>= change_nonzero e.user_id e.amount
effect EventKind.event_trade e t = put_trade e t
effect (EventKind.other _) e t = ok t

-- The statement that admits new ids: the log of events, and the ids that it returns
unfoldable pub admit : List Event → Dict String Event → Dict String Event × Dict String (Unit {0})
admit [] log = (log, [])
admit (e ∷ es) log =
    let seen = admit es log in
    let (log', ids) = admit es (Dict.insert e.id e log) in
    if has e.id log then seen else (log', Dict.insert e.id tt ids)

-- The loop over the events, with `delete(admitted, e.ID)`
unfoldable pub effects : List Event → Dict String (Unit {0}) → Tables → Result Tables
unfolding effect
effects [] ids t = ok t
effects (e ∷ es) ids t =
    if has e.id ids
    then effect e.kind e t >>= effects es (Dict.delete e.id ids)
    else effects es ids t

-- `(value->>'sequence')::bigint` of every event
unfoldable pub wide_sequence : List Event → Bool
wide_sequence [] = false
wide_sequence (e ∷ es) =
    let rest = wide_sequence es in if not (in_bits 64 (pos e.sequence)) then true else rest

-- The transaction of a batch, up to its end
unfoldable pub projected : List Event → Tables → Result Tables
unfolding admit effects wide_sequence
projected es t =
    let (log, ids) = admit es t.order_events in
    checked (wide_sequence es) "bigint out of range"
      (effects es ids (record t { order_events = log }))

-- How a commit ends: the last may have taken place.
pub data CommitOutcome : Type 0 where
  committed : CommitOutcome
  rolled_back : Error → CommitOutcome
  unknown : Error → CommitOutcome

-- The end of the transaction
unfoldable pub finish : CommitOutcome → Tables → Result Tables → Option Error × Tables
finish outcome t (err e) = (some e, t)
finish committed t (ok t') = (none, t')
finish (rolled_back e) t (ok t') = (some e, t)
finish (unknown e) t (ok t') = (some e, t')

-- `ApplyBatch`, with the error of its connection, if there is one, and the end of its commit
unfoldable pub apply_batch :
    Option Error → CommitOutcome → List Event → Tables → Option Error × Tables
unfolding finish projected
apply_batch connection outcome [] t = (none, t)
apply_batch (some e) outcome (x ∷ es) t = (some e, t)
apply_batch none outcome (x ∷ es) t = finish outcome t (projected (x ∷ es) t)

-- `Apply`
unfoldable pub apply_one : Option Error → CommitOutcome → Event → Tables → Option Error × Tables
unfolding apply_batch
apply_one connection outcome e = apply_batch connection outcome (e ∷ [])

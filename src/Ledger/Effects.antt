-- ===== src/Ledger/Effects.antt =====
-- What one event does to each account: the balances, positions and orders after `apply`.
use prediction_market.Base.{
  ℕ, String, ◌≡◌, refl, ◌∙◌, Bool, true, false, ◌&&◌, arith, ltb, ◌==◌, if◌then◌else◌, eq_string,
}
use prediction_market.Int.{ℤ, add64}
use prediction_market.Dict
use prediction_market.Dict.{Dict, lookup-insert}
use prediction_market.Ledger.{
  Service, Order, Position, Event, EventKind, balance, position, user_positions, credit,
  move_shares, store_order, apply_kind, apply,
}

pub balance-credit :
    (u v : String) (a : ℤ) (s : Service)
    → balance (credit u a s) v ≡ (if u == v then add64 (balance s u) a else balance s v)
unfolding balance credit
balance-credit u v a s = ground (arith, lookup-insert u v (add64 (balance s u) a) s.balances)

pub position-credit :
    (u v n : String) (a : ℤ) (s : Service) → position (credit u a s) v n ≡ position s v n
unfolding position credit
position-credit u v n a s = refl

pub balance-move_shares :
    (u v n : String) (y x : ℤ) (s : Service) → balance (move_shares u n y x s) v ≡ balance s v
unfolding balance move_shares
balance-move_shares u v n y x s = refl

-- The position that a position event leaves.
abbrev pub moved : Position → ℤ → ℤ → Position
moved p y x = record { yes_shares = add64 p.yes_shares y; no_shares = add64 p.no_shares x }

pub position-move_shares :
    (u v m n : String) (y x : ℤ) (s : Service)
    → position (move_shares u m y x s) v n
      ≡ (if u == v && m == n then moved (position s u m) y x else position s v n)
unfolding position move_shares user_positions
position-move_shares u v m n y x s = ground (
  arith,
  lookup-insert u v (Dict.insert m (moved (position s u m) y x) (user_positions s.positions u))
      s.positions,
  lookup-insert m n (moved (position s u m) y x) (user_positions s.positions u),
  eq_string.equals_iff u v,
  eq_string.equals_iff m n,
)

-- The kinds of event that move cash, and those that move shares.
abbrev pub has_cash : EventKind → Bool
has_cash EventKind.event_balance = true
has_cash EventKind.event_order = true
has_cash EventKind.event_position = true
has_cash _ = false

abbrev pub has_shares : EventKind → Bool
has_shares EventKind.event_position = true
has_shares _ = false

balance-store_order :
    (o : Order) (s : Service) (v : String) → balance (store_order o s) v ≡ balance s v
unfolding balance store_order
balance-store_order o s v = refl

position-store_order :
    (o : Order) (s : Service) (v n : String) → position (store_order o s) v n ≡ position s v n
unfolding position store_order
position-store_order o s v n = refl

balance-apply_kind :
    (k : EventKind) (e : Event) (s : Service) (v : String)
    → balance (apply_kind k e s) v
      ≡ (if has_cash k && e.user_id == v then add64 (balance s v) e.amount else balance s v)
unfolding apply_kind
balance-apply_kind EventKind.event_market e s v = unfold balance in refl
balance-apply_kind EventKind.event_balance e s v =
    ground (arith, balance-credit e.user_id v e.amount s, eq_string.equals_iff e.user_id v)
balance-apply_kind EventKind.event_order e s v = ground (
  arith,
  balance-credit e.user_id v e.amount (store_order e.order s),
  balance-store_order e.order s v,
  eq_string.equals_iff e.user_id v,
)
balance-apply_kind EventKind.event_position e s v = ground (
  arith,
  balance-credit e.user_id v e.amount (move_shares e.user_id e.market_id e.yes_delta e.no_delta s),
  balance-move_shares e.user_id v e.market_id e.yes_delta e.no_delta s,
  eq_string.equals_iff e.user_id v,
)
balance-apply_kind EventKind.event_trade e s v = refl
balance-apply_kind (EventKind.other _) e s v = refl

position-apply_kind :
    (k : EventKind) (e : Event) (s : Service) (v n : String)
    → position (apply_kind k e s) v n ≡ (
        if has_shares k && (e.user_id == v && e.market_id == n)
        then moved (position s v n) e.yes_delta e.no_delta
        else position s v n)
unfolding apply_kind
position-apply_kind EventKind.event_market e s v n = unfold position in refl
position-apply_kind EventKind.event_balance e s v n = position-credit e.user_id v n e.amount s
position-apply_kind EventKind.event_order e s v n =
    position-credit e.user_id v n e.amount (store_order e.order s)
    ∙ position-store_order e.order s v n
position-apply_kind EventKind.event_position e s v n = ground (
  arith,
  position-credit e.user_id v n e.amount
      (move_shares e.user_id e.market_id e.yes_delta e.no_delta s),
  position-move_shares e.user_id v e.market_id n e.yes_delta e.no_delta s,
  eq_string.equals_iff e.user_id v,
  eq_string.equals_iff e.market_id n,
)
position-apply_kind EventKind.event_trade e s v n = refl
position-apply_kind (EventKind.other _) e s v n = refl

-- The state that `apply` starts from: the sequence number moves up to the event's.
abbrev pub raised : Service → ℕ → Service
raised s number = if ltb s.sequence number then record s { sequence = number } else s

balance-raised : (s : Service) (number : ℕ) (v : String) → balance (raised s number) v ≡ balance s v
unfolding balance
balance-raised s number v = ground arith

position-raised :
    (s : Service) (number : ℕ) (v n : String) → position (raised s number) v n ≡ position s v n
unfolding position user_positions
position-raised s number v n = ground arith

-- An event moves its amount to its user, if its kind moves cash, and touches no other balance.
pub balance-apply :
    (s : Service) (e : Event) (v : String)
    → balance (apply s e) v
      ≡ (if has_cash e.kind && e.user_id == v then add64 (balance s v) e.amount else balance s v)
unfolding apply
balance-apply s e v =
    cc (balance-apply_kind e.kind e (raised s e.sequence) v, balance-raised s e.sequence v)

-- An event moves its shares in its user's position in its market, and touches no other position.
pub position-apply :
    (s : Service) (e : Event) (v n : String)
    → position (apply s e) v n ≡ (
        if has_shares e.kind && (e.user_id == v && e.market_id == n)
        then moved (position s v n) e.yes_delta e.no_delta
        else position s v n)
unfolding apply
position-apply s e v n =
    cc (position-apply_kind e.kind e (raised s e.sequence) v n, position-raised s e.sequence v n)

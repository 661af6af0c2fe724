-- ===== src/Ledger/Range.antt =====
-- Every amount in the accounts is an `int64`, whatever events are applied; and what credits and
-- share movements do then, without wrap-around.
use prediction_market.Base.{String, List, [], ◌∷◌, ◌==◌, ◌&&◌, eq_string, Bool-cases, inl, inr}
use prediction_market.Int.{IsInt64}
use prediction_market.Int.Laws.{IsInt64-int64}
use prediction_market.Ledger.{Service, Event, balance, position, apply, apply_all}
use prediction_market.Ledger.Effects.{balance-apply, position-apply, has_cash, has_shares}

pub record InRange (s : Service) : Type 0 where
  pub cash : (user : String) → IsInt64 (balance s user)
  pub yes_shares : (user market : String) → IsInt64 (position s user market).yes_shares
  pub no_shares : (user market : String) → IsInt64 (position s user market).no_shares

pub apply-InRange : (s : Service) (e : Event) → InRange s → InRange (apply s e)
apply-InRange s e h = record {
  cash = λ u. elim (Bool-cases (has_cash e.kind && e.user_id == u)) [
    | inl hit ↦ rw (balance-apply s e u, hit) (IsInt64-int64 _)
    | inr miss ↦ rw (balance-apply s e u, miss) (h.cash u)
  ];
  yes_shares = λ u n.
      elim (Bool-cases (has_shares e.kind && (e.user_id == u && e.market_id == n))) [
        | inl hit ↦ rw (position-apply s e u n, hit) (IsInt64-int64 _)
        | inr miss ↦ rw (position-apply s e u n, miss) (h.yes_shares u n)
      ];
  no_shares = λ u n. elim (Bool-cases (has_shares e.kind && (e.user_id == u && e.market_id == n))) [
    | inl hit ↦ rw (position-apply s e u n, hit) (IsInt64-int64 _)
    | inr miss ↦ rw (position-apply s e u n, miss) (h.no_shares u n)
  ];
}

-- If every balance and every number of shares of a state is a 64-bit integer, so it is after any
-- events are applied.
pub apply_all-InRange : (es : List Event) (s : Service) → InRange s → InRange (apply_all s es)
unfolding apply_all
apply_all-InRange [] s h = h
apply_all-InRange (e ∷ es) s h = apply_all-InRange es (apply s e) (apply-InRange s e h)

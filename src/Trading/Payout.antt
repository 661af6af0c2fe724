-- ===== src/Trading/Payout.antt =====
-- What the settlement of `ResolveFor` does to the accounts, one user after another.
use prediction_market.Base.{
  ◌≡◌, refl, arith, String, Bool, true, false, List, [], ◌∷◌, ◌++◌, ◌==◌, ◌&&◌, if◌then◌else◌,
  eq_string, Bool-cases, inl, inr,
}
use prediction_market.Int.{ℤ, pos, add64, mul64, neg64, eq_int, int64, IsInt64, ◌+ℤ◌, ◌-ℤ◌, ◌*ℤ◌}
use prediction_market.Int.Laws.{add64_zero}
use prediction_market.Ledger.{Service, Event, Position, balance, position, apply, apply_all}
use prediction_market.Ledger.Effects.{balance-apply, position-apply, moved}
use prediction_market.Ledger.Range.{InRange, apply_all-InRange}
use prediction_market.Trading.Quotes.{contains}
use prediction_market.Trading.Resolve.{payout_events, settle_positions}

-- The winning shares of a position.
abbrev pub winning : Bool → Position → ℤ
winning won p = if won then p.yes_shares else p.no_shares

-- The position without the shares of `p`.
abbrev pub without : Position → Position → Position
without q p = moved q (neg64 p.yes_shares) (neg64 p.no_shares)

-- The test of the loop: nothing is held.
empty_position :
    (p : Position)
    → (p.yes_shares == pos 0 && p.no_shares == pos 0) ≡ true
    → (p.yes_shares ≡ pos 0) × (p.no_shares ≡ pos 0)
empty_position p h =
    ground (arith, eq_int.equals_iff p.yes_shares (pos 0), eq_int.equals_iff p.no_shares (pos 0))

no_payout :
    (won : Bool) (p : Position)
    → p.yes_shares ≡ pos 0
    → p.no_shares ≡ pos 0
    → mul64 (winning won p) (pos 100) ≡ pos 0
unfolding int64 ◌*ℤ◌
no_payout true p y n = rw y refl
no_payout false p y n = rw n refl

without_nothing :
    (q p : Position)
    → IsInt64 q.yes_shares
    → IsInt64 q.no_shares
    → p.yes_shares ≡ pos 0
    → p.no_shares ≡ pos 0
    → without q p ≡ q
unfolding int64 ◌-ℤ◌ ◌+ℤ◌
without_nothing q p hy hn y n =
    rw (y, n) (cc (add64_zero q.yes_shares hy, add64_zero q.no_shares hn))

module _ (id : String) (won : Bool) (user : String) (p : Position) (t : Service)
    (range : InRange t) where
  balance-payout :
      (v : String)
      → balance (apply_all t (payout_events id won user p)) v
        ≡ (if user == v then add64 (balance t v) (mul64 (winning won p) (pos 100)) else balance t v)
  unfolding payout_events apply_all
  balance-payout v = elim (Bool-cases (p.yes_shares == pos 0 && p.no_shares == pos 0)) [
    | inr held ↦ rw held (balance-apply t _ v)
    | inl empty ↦
        let (y, n) = empty_position p empty in
        rw empty (ground (arith, no_payout won p y n, add64_zero (balance t v) (range.cash v)))
  ]

  position-payout :
      (v k : String)
      → position (apply_all t (payout_events id won user p)) v k
        ≡ (if user == v && id == k then without (position t v k) p else position t v k)
  unfolding payout_events apply_all
  position-payout v k = elim (Bool-cases (p.yes_shares == pos 0 && p.no_shares == pos 0)) [
    | inr held ↦ rw held (position-apply t _ v k)
    | inl empty ↦
        let (y, n) = empty_position p empty in
        rw empty (
          ground (
            arith,
            without_nothing (position t v k) p (range.yes_shares v k) (range.no_shares v k) y n,
          ))
  ]

apply_all-append :
    (es fs : List Event) (s : Service) → apply_all s (es ++ fs) ≡ apply_all (apply_all s es) fs
unfolding apply_all
apply_all-append [] fs s = refl
apply_all-append (e ∷ es) fs s = apply_all-append es fs (apply s e)

-- No user is listed twice.
abbrev pub IsDistinct : List String → Type 0
IsDistinct [] = Unit
IsDistinct (u ∷ us) = (contains u us ≡ false) × IsDistinct us

-- The accounts of `t'` are those of `t` with the listed users paid for their positions of `s`: 100
-- cents for a winning share, and the shares are gone.
pub record IsSettled (s : Service) (id : String) (won : Bool) (users : List String) (t t' : Service)
    : Type 0 where
  pub cash :
      (v : String)
      → balance t' v ≡ (
          if contains v users
          then add64 (balance t v) (mul64 (winning won (position s v id)) (pos 100))
          else balance t v)
  pub shares :
      (v k : String)
      → position t' v k ≡ (
          if contains v users && id == k
          then without (position t v k) (position s v id)
          else position t v k)

-- For distinct users, the events of the settlement, applied to any state whose amounts are 64-bit
-- integers, pay each listed user 100 cents for every winning share of the position that the user
-- had in the state that they were built from, take exactly that position away, and touch no other
-- account. Shares that the state holds beyond that position stay where they are.
pub settle_positions-IsSettled :
    (s : Service) (id : String) (won : Bool) (users : List String) (t : Service)
    → IsDistinct users
    → InRange t
    → IsSettled s id won users t (apply_all t (settle_positions s id won users))
unfolding settle_positions contains apply_all
settle_positions-IsSettled s id won [] t distinct range = record {
  cash = λ v. refl;
  shares = λ v k. refl;
}
settle_positions-IsSettled s id won (user ∷ users) t distinct range =
    let p = position s user id in
    let paid = payout_events id won user p in
    let t' = apply_all t paid in
    let rest =
      settle_positions-IsSettled s id won users t' distinct.1 (apply_all-InRange paid t range) in
    let split = apply_all-append paid (settle_positions s id won users) t in
    record {
      cash = λ v. ground (
        arith,
        split,
        rest.cash v,
        balance-payout id won user p t range v,
        eq_string.equals_iff user v,
        distinct.0,
      );
      shares = λ v k. ground (
        arith,
        split,
        rest.shares v k,
        position-payout id won user p t range v k,
        eq_string.equals_iff user v,
        distinct.0,
      );
    }

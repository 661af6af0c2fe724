-- ===== src/Trading/Batch/Solvent.antt =====
-- The reservations of a batch together (`placeBatchWithQuotes` of
-- go-backend/internal/trading/order_batch.go): what the first loop counts in `cash` and `shares` is
-- what the admitted events take out of the accounts.
use prediction_market.Base.{◌≡◌, refl, sym, String, List, [], ◌∷◌, ◌++◌, get_or, eq_string}
use prediction_market.Int.{ℤ, pos, add64, ◌≤ℤ◌}
use prediction_market.Int.Laws.{add64_zero}
use prediction_market.Dict
use prediction_market.Dict.{Dict, lookup-insert}
use prediction_market.Ledger.{Service, Event, Position, balance, position, apply_all, zero_position}
use prediction_market.Ledger.Range.{InRange}
use prediction_market.Trading.Batch.{account_market, eq_account_market, Admissions, no_admissions}

-- No balance and no number of shares is negative.
pub record IsFunded (s : Service) : Type 0 where
  pub cash : (v : String) → pos 0 ≤ℤ balance s v
  pub yes_shares : (v k : String) → pos 0 ≤ℤ (position s v k).yes_shares
  pub no_shares : (v k : String) → pos 0 ≤ℤ (position s v k).no_shares

-- What the loop has counted for a user, and for a user in a market
abbrev pub cash_of : Admissions → String → ℤ
cash_of a v = get_or (Dict.lookup v a.cash) (pos 0)

abbrev pub shares_of : Admissions → String → String → Position
shares_of a v k = get_or (Dict.lookup (account_market v k) a.shares) zero_position

-- The state after the events that are admitted
abbrev pub later : Service → Admissions → Service
later s a = apply_all s a.initial

-- The loop has counted what its events take, and nothing is overdrawn.
pub record Counts (s : Service) (a : Admissions) : Type 0 where
  pub range : InRange (later s a)
  pub funded : IsFunded (later s a)
  pub cash : (v : String) → balance (later s a) v ≡ add64 (balance s v) (cash_of a v)
  pub yes_shares :
      (v k : String)
      → (position (later s a) v k).yes_shares
        ≡ add64 (position s v k).yes_shares (shares_of a v k).yes_shares
  pub no_shares :
      (v k : String)
      → (position (later s a) v k).no_shares
        ≡ add64 (position s v k).no_shares (shares_of a v k).no_shares

pub apply_all-append :
    (es fs : List Event) (s : Service) → apply_all s (es ++ fs) ≡ apply_all (apply_all s es) fs
unfolding apply_all
apply_all-append [] fs s = refl
apply_all-append (e ∷ es) fs s = apply_all-append es fs _

pub Counts-none : (s : Service) → InRange s → IsFunded s → Counts s no_admissions
unfolding apply_all Dict.lookup
Counts-none s r f = record {
  range = r;
  funded = f;
  cash = λ v. sym (add64_zero (balance s v) (r.cash v));
  yes_shares = λ v k. sym (add64_zero (position s v k).yes_shares (r.yes_shares v k));
  no_shares = λ v k. sym (add64_zero (position s v k).no_shares (r.no_shares v k));
}

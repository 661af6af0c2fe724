-- ===== src/Trading/Batch/Grown.antt =====
-- One more order in what the first loop of `placeBatchWithQuotes` of
-- go-backend/internal/trading/order_batch.go counts: the counts still agree with the events.
use prediction_market.Base.{
  ◌≡◌, refl, ◌∙◌, ap, sym, subst, String, Bool, true, false, ◌&&◌, not, arith, ◌==◌, if◌then◌else◌,
  eq_string,
}
use prediction_market.Int.{ℤ, pos, add64, ◌≤ℤ◌, ltb_ℤ}
use prediction_market.Int.Laws.{add64_zero}
use prediction_market.Int.Assoc.{add64_assoc}
use prediction_market.Ledger.{Service, Order, Position, balance, position, apply_all}
use prediction_market.Ledger.Range.{InRange, apply_all-InRange}
use prediction_market.Ledger.Effects.{moved}
use prediction_market.Orders.{stake_events}
use prediction_market.Orders.Reservation.{balance-stake_events, position-stake_events}
use prediction_market.Trading.Batch.{eq_account_market, Admissions}
use prediction_market.Trading.Batch.Solvent.{Counts, cash_of, shares_of, later}

-- Nothing is negative that passes the test.
pub not_negative : (x : ℤ) → ltb_ℤ x (pos 0) ≡ false → pos 0 ≤ℤ x
not_negative x h = ground arith

-- The change of one number by a part of an order's events
abbrev pub changed : Bool → ℤ → ℤ → ℤ
changed hit counted amount = if hit then add64 counted amount else counted

changed-add64 :
    (hit : Bool) (start counted amount now : ℤ)
    → now ≡ add64 start counted
    → (if hit then add64 now amount else now) ≡ add64 start (changed hit counted amount)
changed-add64 true start counted amount now e =
    ap (λ (x : ℤ). add64 x amount) e ∙ add64_assoc start counted amount
changed-add64 false start counted amount now e = e

three :
    (buys user market : Bool) {P Q : Type 0}
    → (not buys && (user && market)) ≡ true
    → (user ≡ true → P)
    → (market ≡ true → Q)
    → (buys ≡ false) × P × Q
three false true true h p q = (refl, p refl, q refl)
three false true false h p q = absurd (ground arith)
three false false market h p q = absurd (ground arith)
three true user market h p q = absurd (ground arith)

-- A number that stays as it is when the order misses it, and is not negative when the order hits it
spared :
    (hit : Bool) (start counted amount now now' total : ℤ)
    → now ≡ add64 start counted
    → total ≡ changed hit counted amount
    → now' ≡ add64 start total
    → (hit ≡ true → pos 0 ≤ℤ add64 start total)
    → pos 0 ≤ℤ now
    → pos 0 ≤ℤ now'
spared true start counted amount now now' total e k e' solvent h =
    subst (λ (x : ℤ). pos 0 ≤ℤ x) (sym e') (solvent refl)
spared false start counted amount now now' total e k e' solvent h =
    subst (λ (x : ℤ). pos 0 ≤ℤ x) (e ∙ ap (λ (x : ℤ). add64 start x) (sym k) ∙ sym e') h

module _ (s : Service) (a : Admissions) (c : Counts s a) (p : Order) (amount y n : ℤ) where
  abbrev pub taken : Bool → Service
  taken buys = apply_all (later s a) (stake_events buys p amount y n)

  cash-taken :
      (buys : Bool) (v : String)
      → balance (taken buys) v
        ≡ add64
            (balance s v)
            (changed (p.user_id == v) (cash_of a v) (if buys then amount else pos 0))
  cash-taken true v =
      balance-stake_events true p amount y n (later s a) v c.range
      ∙ changed-add64 (p.user_id == v) (balance s v) (cash_of a v) amount (balance (later s a) v)
          (c.cash v)
  cash-taken false v =
      balance-stake_events false p amount y n (later s a) v c.range
      ∙ no_change (p.user_id == v)
      ∙ changed-add64 (p.user_id == v) (balance s v) (cash_of a v) (pos 0) (balance (later s a) v)
          (c.cash v)
    where
      no_change :
          (hit : Bool)
          → balance (later s a) v
            ≡ (if hit then add64 (balance (later s a) v) (pos 0) else balance (later s a) v)
      no_change true = sym (add64_zero (balance (later s a) v) (c.range.cash v))
      no_change false = refl

  -- Whether the order moves shares of this account
  abbrev pub moves : Bool → String → String → Bool
  moves buys v k = not buys && (p.user_id == v && p.market_id == k)

  yes-taken :
      (buys : Bool) (v k : String)
      → (position (taken buys) v k).yes_shares
        ≡ add64
            (position s v k).yes_shares
            (changed (moves buys v k) (shares_of a v k).yes_shares y)
  yes-taken buys v k =
      ap (λ (q : Position). q.yes_shares) (position-stake_events buys p amount y n (later s a) v k)
      ∙ yes_of (moves buys v k)
      ∙ changed-add64 (moves buys v k) (position s v k).yes_shares (shares_of a v k).yes_shares y
          (position (later s a) v k).yes_shares (c.yes_shares v k)
    where
      yes_of :
          (hit : Bool)
          → (if hit
              then moved (position (later s a) v k) y n
              else position (later s a) v k).yes_shares
            ≡ (if hit
                then add64 (position (later s a) v k).yes_shares y
                else (position (later s a) v k).yes_shares)
      yes_of true = refl
      yes_of false = refl

  no-taken :
      (buys : Bool) (v k : String)
      → (position (taken buys) v k).no_shares
        ≡ add64 (position s v k).no_shares (changed (moves buys v k) (shares_of a v k).no_shares n)
  no-taken buys v k =
      ap (λ (q : Position). q.no_shares) (position-stake_events buys p amount y n (later s a) v k)
      ∙ no_of (moves buys v k)
      ∙ changed-add64 (moves buys v k) (position s v k).no_shares (shares_of a v k).no_shares n
          (position (later s a) v k).no_shares (c.no_shares v k)
    where
      no_of :
          (hit : Bool)
          → (if hit
              then moved (position (later s a) v k) y n
              else position (later s a) v k).no_shares
            ≡ (if hit
                then add64 (position (later s a) v k).no_shares n
                else (position (later s a) v k).no_shares)
      no_of true = refl
      no_of false = refl

  -- The admission of an order, as the loop counts it
  pub grown-Counts :
      (buys : Bool) (a' : Admissions)
      → later s a' ≡ taken buys
      → ((v : String)
          → cash_of a' v ≡ changed (p.user_id == v) (cash_of a v) (if buys then amount else pos 0))
      → ((v k : String)
          → (shares_of a' v k).yes_shares ≡ changed (moves buys v k) (shares_of a v k).yes_shares y)
      → ((v k : String)
          → (shares_of a' v k).no_shares ≡ changed (moves buys v k) (shares_of a v k).no_shares n)
      → pos 0 ≤ℤ add64 (balance s p.user_id) (cash_of a' p.user_id)
      → (buys ≡ false
          → (pos 0
              ≤ℤ add64
                  (position s p.user_id p.market_id).yes_shares
                  (shares_of a' p.user_id p.market_id).yes_shares)
            × (pos 0
                ≤ℤ add64
                    (position s p.user_id p.market_id).no_shares
                    (shares_of a' p.user_id p.market_id).no_shares))
      → Counts s a'
  grown-Counts buys a' same cash ys ns solvent held = record {
    range = subst InRange (sym same) (apply_all-InRange _ (later s a) c.range);
    funded = record { cash = funded_cash; yes_shares = funded_yes; no_shares = funded_no };
    cash = cash';
    yes_shares = yes';
    no_shares = no';
  }
    where
      cash' : (v : String) → balance (later s a') v ≡ add64 (balance s v) (cash_of a' v)
      cash' v =
          ap (λ (t : Service). balance t v) same
          ∙ cash-taken buys v
          ∙ ap (λ (x : ℤ). add64 (balance s v) x) (sym (cash v))

      yes' :
          (v k : String)
          → (position (later s a') v k).yes_shares
            ≡ add64 (position s v k).yes_shares (shares_of a' v k).yes_shares
      yes' v k =
          ap (λ (t : Service). (position t v k).yes_shares) same
          ∙ yes-taken buys v k
          ∙ ap (λ (x : ℤ). add64 (position s v k).yes_shares x) (sym (ys v k))

      no' :
          (v k : String)
          → (position (later s a') v k).no_shares
            ≡ add64 (position s v k).no_shares (shares_of a' v k).no_shares
      no' v k =
          ap (λ (t : Service). (position t v k).no_shares) same
          ∙ no-taken buys v k
          ∙ ap (λ (x : ℤ). add64 (position s v k).no_shares x) (sym (ns v k))

      at_account :
          (P : String → String → Type 0) (v k : String)
          → moves buys v k ≡ true
          → (buys ≡ false → P p.user_id p.market_id)
          → P v k
      at_account P v k hit h =
          let (sells, user, market) =
            three buys (p.user_id == v) (p.market_id == k) hit (eq_string.equals_iff p.user_id v).0
              (eq_string.equals_iff p.market_id k).0 in
          subst (λ (w : String). P w k) user
            (subst (λ (w : String). P p.user_id w) market (h sells))

      funded_cash : (v : String) → pos 0 ≤ℤ balance (later s a') v
      funded_cash v =
          spared (p.user_id == v) (balance s v) (cash_of a v) (if buys then amount else pos 0)
            (balance (later s a) v) (balance (later s a') v) (cash_of a' v) (c.cash v) (cash v)
            (cash' v)
            (λ hit.
              subst (λ (w : String). pos 0 ≤ℤ add64 (balance s w) (cash_of a' w))
                ((eq_string.equals_iff p.user_id v).0 hit) solvent)
            (c.funded.cash v)

      funded_yes : (v k : String) → pos 0 ≤ℤ (position (later s a') v k).yes_shares
      funded_yes v k =
          spared (moves buys v k) (position s v k).yes_shares (shares_of a v k).yes_shares y
            (position (later s a) v k).yes_shares (position (later s a') v k).yes_shares
            (shares_of a' v k).yes_shares (c.yes_shares v k) (ys v k) (yes' v k)
            (λ hit.
              at_account
                (λ (w x : String).
                  pos 0 ≤ℤ add64 (position s w x).yes_shares (shares_of a' w x).yes_shares)
                v k hit (λ sells. (held sells).0))
            (c.funded.yes_shares v k)

      funded_no : (v k : String) → pos 0 ≤ℤ (position (later s a') v k).no_shares
      funded_no v k =
          spared (moves buys v k) (position s v k).no_shares (shares_of a v k).no_shares n
            (position (later s a) v k).no_shares (position (later s a') v k).no_shares
            (shares_of a' v k).no_shares (c.no_shares v k) (ns v k) (no' v k)
            (λ hit.
              at_account
                (λ (w x : String).
                  pos 0 ≤ℤ add64 (position s w x).no_shares (shares_of a' w x).no_shares)
                v k hit (λ sells. (held sells).1))
            (c.funded.no_shares v k)

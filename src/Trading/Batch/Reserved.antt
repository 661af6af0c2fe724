-- ===== src/Trading/Batch/Reserved.antt =====
-- The tests of the first loop of `placeBatchWithQuotes` of
-- go-backend/internal/trading/order_batch.go (`admit_reserved`): what passes them is counted.
use prediction_market.Base.{
  ℕ, ◌+◌, ◌%◌, ◌^◌, ◌≡◌, refl, ◌∙◌, ap, sym, subst, String, Bool, true, false, ◌&&◌, ◌||◌, not,
  Option, some, List, [], ◌∷◌, ◌++◌, arith, ◌==◌, if◌then◌else◌, get_or, eq_string, length,
  or_false,
}
use prediction_market.Int.{ℤ, pos, add64, ◌≤ℤ◌, ltb_ℤ}
use prediction_market.Dict
use prediction_market.Dict.{Dict, lookup-insert, lookup-insert_self}
use prediction_market.Ledger.{
  Service, Order, Event, Position, Status, Error, balance, position, zero_position,
}
use prediction_market.Result.{ok}
use prediction_market.Orders.{is_buy, stake_events, order_event, shares_event}
use prediction_market.Trading.Batch.{
  Verdict, account_market, eq_account_market, Admissions, added_shares, is_short, admit_reserved,
  admit_prepared,
}
use prediction_market.Trading.Batch.Solvent.{Counts, apply_all-append, cash_of, shares_of}
use prediction_market.Trading.Batch.Grown.{grown-Counts, changed, not_negative}

-- Two tests that leave everything as it is when they hold
module _ {A : Type 0} (P : Admissions → Type 0) where
  two_tests :
      (t₁ t₂ : Bool) (v₁ v₂ v₃ : A) {a a' : Admissions}
      → P a
      → (t₁ ≡ false → t₂ ≡ false → P a')
      → P (let r : A × Admissions = if t₁ then (v₁, a) else if t₂ then (v₂, a) else (v₃, a') in r.1)
  two_tests true t₂ v₁ v₂ v₃ h k = h
  two_tests false true v₁ v₂ v₃ h k = h
  two_tests false false v₁ v₂ v₃ h k = k refl refl

-- The order of a reservation, whatever its number
abbrev priced : Order → ℤ → String → ℕ → Order
priced o price side sequence = record o {
  engine_price = price;
  engine_side = side;
  status = Status.pending;
  sequence = sequence;
}

-- What the loop has counted when an order is admitted
abbrev grown : Service → Admissions → ℕ → Order → Event → List Event → Admissions
grown s a i o e es =
    let reserved = add64 (cash_of a o.user_id) e.amount in
    let key = account_market o.user_id o.market_id in
    let before = shares_of a o.user_id o.market_id in
    let sequence = (s.sequence + length a.initial + 1) % 2 ^ 64 in
    let numbered : Event = record e { order = record e.order { sequence = sequence } } in
    record {
      initial = a.initial ++ numbered ∷ es;
      orders = a.orders ++ o ∷ [];
      by_id = Dict.insert o.id (i, o) a.by_id;
      cash = Dict.insert o.user_id reserved a.cash;
      shares = Dict.insert key (if is_buy o.side then before else added_shares es before) a.shares;
    }

both :
    (buys short_yes short_no : Bool)
    → buys ≡ false
    → (not buys && (short_yes || short_no)) ≡ false
    → (short_yes ≡ false) × (short_no ≡ false)
both false short_yes short_no e h = or_false short_yes short_no h
both true short_yes short_no e h = absurd (cc e)

kept_if :
    {A : Type 0} (hit buys : Bool) (x y : A) {z : A}
    → buys ≡ true
    → z ≡ (if hit then if buys then x else y else x)
    → z ≡ x
kept_if true true x y e h = h
kept_if false true x y e h = h
kept_if hit false x y e h = absurd (cc e)

added_yes :
    (hit buys : Bool) (p : Position) (e : Event)
    → buys ≡ false
    → (if hit then if buys then p else added_shares (e ∷ []) p else p).yes_shares
      ≡ changed hit p.yes_shares e.yes_delta
added_yes true false p e h = refl
added_yes false false p e h = refl
added_yes hit true p e h = absurd (cc h)

added_no :
    (hit buys : Bool) (p : Position) (e : Event)
    → buys ≡ false
    → (if hit then if buys then p else added_shares (e ∷ []) p else p).no_shares
      ≡ changed hit p.no_shares e.no_delta
added_no true false p e h = refl
added_no false false p e h = refl
added_no hit true p e h = absurd (cc h)

module _ (s : Service) (a : Admissions) (c : Counts s a) (i : ℕ) (o : Order) (price : ℤ)
    (side : String) (number : ℕ) where
  abbrev next : ℕ
  next = (s.sequence + length a.initial + 1) % 2 ^ 64

  -- The cash that is counted
  cash-grown :
      (e : Event) (es : List Event) (v : String)
      → cash_of (grown s a i o e es) v ≡ changed (o.user_id == v) (cash_of a v) e.amount
  cash-grown e es v = ground (
    arith,
    lookup-insert o.user_id v (add64 (cash_of a o.user_id) e.amount) a.cash,
    eq_string.equals_iff o.user_id v,
  )

  shares-grown :
      (e : Event) (es : List Event) (v k : String)
      → shares_of (grown s a i o e es) v k ≡ (
          if o.user_id == v && o.market_id == k
          then if is_buy o.side then shares_of a v k else added_shares es (shares_of a v k)
          else shares_of a v k)
  shares-grown e es v k =
      let key = account_market o.user_id o.market_id in
      let before = shares_of a o.user_id o.market_id in
      ground (
        arith,
        lookup-insert key (account_market v k)
            (if is_buy o.side then before else added_shares es before) a.shares,
        eq_string.equals_iff o.user_id v,
        eq_string.equals_iff o.market_id k,
      )

  -- The tests of the loop
  abbrev lacks_cash : Event → Bool
  lacks_cash e = ltb_ℤ (add64 (balance s o.user_id) (add64 (cash_of a o.user_id) e.amount)) (pos 0)

  abbrev after : List Event → Position
  after es =
      let before = shares_of a o.user_id o.market_id in
      if is_buy o.side then before else added_shares es before

  abbrev lacks_shares : List Event → Bool
  lacks_shares es = not (is_buy o.side) && is_short (position s o.user_id o.market_id) (after es)

  solvent :
      (e : Event) (es : List Event)
      → lacks_cash e ≡ false
      → pos 0 ≤ℤ add64 (balance s o.user_id) (cash_of (grown s a i o e es) o.user_id)
  solvent e es enough =
      subst (λ (x : ℤ). pos 0 ≤ℤ add64 (balance s o.user_id) x)
        (sym (
          ap (λ (x : Option ℤ). get_or x (pos 0))
            (lookup-insert_self o.user_id (add64 (cash_of a o.user_id) e.amount) a.cash)))
        (not_negative _ enough)

  held :
      (e : Event) (es : List Event)
      → is_buy o.side ≡ false
      → lacks_shares es ≡ false
      → (pos 0
          ≤ℤ add64
              (position s o.user_id o.market_id).yes_shares
              (shares_of (grown s a i o e es) o.user_id o.market_id).yes_shares)
        × (pos 0
            ≤ℤ add64
                (position s o.user_id o.market_id).no_shares
                (shares_of (grown s a i o e es) o.user_id o.market_id).no_shares)
  held e es sells fits =
      let (yes_held, no_held) = both (is_buy o.side) _ _ sells fits in
      subst
        (λ (q : Position).
          (pos 0 ≤ℤ add64 (position s o.user_id o.market_id).yes_shares q.yes_shares)
          × (pos 0 ≤ℤ add64 (position s o.user_id o.market_id).no_shares q.no_shares))
        (sym (
          ap (λ (x : Option Position). get_or x zero_position)
            (lookup-insert_self (account_market o.user_id o.market_id) (after es) a.shares)))
        (not_negative _ yes_held, not_negative _ no_held)

  -- A request that passes both tests is counted, and any other leaves the counts as they are.
  admit_reserved-Counts :
      (e : Event) (es : List Event)
      → (lacks_cash e ≡ false → lacks_shares es ≡ false → Counts s (grown s a i o e es))
      → Counts s (admit_reserved s a i o e es).1
  unfolding admit_reserved
  admit_reserved-Counts e es h =
      two_tests (Counts s) (lacks_cash e) (lacks_shares es)
        (Verdict.decided (some Error.insufficient_balance))
        (Verdict.decided (some Error.insufficient_shares)) Verdict.admitted c h

  buy-Counts :
      (amount y n : ℤ)
      → is_buy o.side ≡ true
      → Counts s (admit_reserved s a i o (order_event (priced o price side number) amount) []).1
  unfolding stake_events
  buy-Counts amount y n buys =
      let e = order_event (priced o price side number) amount in
      let same : (v k : String) → shares_of (grown s a i o e []) v k ≡ shares_of a v k = λ v k.
        kept_if (o.user_id == v && o.market_id == k) (is_buy o.side) (shares_of a v k)
          (added_shares [] (shares_of a v k)) buys (shares-grown e [] v k) in
      admit_reserved-Counts e [] (λ enough _.
        grown-Counts s a c (priced o price side next) amount y n true (grown s a i o e [])
          (apply_all-append a.initial (stake_events true (priced o price side next) amount y n) s)
          (cash-grown e []) (λ v k. ap (λ (q : Position). q.yes_shares) (same v k))
          (λ v k. ap (λ (q : Position). q.no_shares) (same v k)) (solvent e [] enough)
          (λ t. absurd (cc t)))

  sell-Counts :
      (y n : ℤ)
      → is_buy o.side ≡ false
      → Counts s
          (admit_reserved s a i o
            (order_event (priced o price side number) (pos 0))
            (shares_event (priced o price side number) y n ∷ [])).1
  unfolding stake_events
  sell-Counts y n sells =
      let e = order_event (priced o price side number) (pos 0) in
      let es : List Event = shares_event (priced o price side number) y n ∷ [] in
      admit_reserved-Counts e es (λ enough fits.
        grown-Counts s a c (priced o price side next) (pos 0) y n false (grown s a i o e es)
          (apply_all-append a.initial (stake_events false (priced o price side next) (pos 0) y n) s)
          (cash-grown e es)
          (λ v k.
            ap (λ (q : Position). q.yes_shares) (shares-grown e es v k)
            ∙ added_yes (o.user_id == v && o.market_id == k) (is_buy o.side) (shares_of a v k)
                (shares_event (priced o price side number) y n) sells)
          (λ v k.
            ap (λ (q : Position). q.no_shares) (shares-grown e es v k)
            ∙ added_no (o.user_id == v && o.market_id == k) (is_buy o.side) (shares_of a v k)
                (shares_event (priced o price side number) y n) sells)
          (solvent e es enough) (λ _. held e es sells fits))

  pub stake-Counts :
      (buys : Bool) (amount y n : ℤ)
      → is_buy o.side ≡ buys
      → Counts s
          (admit_prepared s a i o
            (ok (stake_events buys (priced o price side number) amount y n))).1
  unfolding admit_prepared stake_events
  stake-Counts true amount y n buys = buy-Counts amount y n buys
  stake-Counts false amount y n sells = sell-Counts y n sells

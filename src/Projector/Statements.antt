-- ===== src/Projector/Statements.antt =====
-- What each statement of go-backend/internal/store/projector.go does to the tables of the accounts.
use prediction_market.Base.{
  ◌≡◌, refl, sym, ap, ◌∙◌, subst, arith, String, Bool, true, false, not, ◌&&◌, ◌||◌, ◌==◌,
  eq_string, if◌then◌else◌, inl, inr, ◌⊎◌, Bool-cases, get_or, or_false,
}
use prediction_market.Int.{ℤ, pos, negsuc, ◌+ℤ◌, add64, IsInt64, int_eq, int_eq_iff}
use prediction_market.Int.Laws.{int64_self, add64_zero}
use prediction_market.Dict
use prediction_market.Dict.{Dict, lookup-insert, lookup-delete}
use prediction_market.Ledger.{Event, Order, Market, user_positions}
use prediction_market.Ledger.Effects.{moved}
use prediction_market.Result.{Result, ok, err, ◌>>=◌}
use prediction_market.Projector.{
  Tables, has, in_bits, cents, shares, added, put_market, uncovered, change_balance, change_nonzero,
  store_cents, put_order, put_shares, put_trade,
}
use prediction_market.Projector.Once.{checked-inverse, ok-injective}

pub then-inverse :
    (n : Result Tables) (f : Tables → Result Tables) (t' : Tables)
    → (n >>= f) ≡ ok t'
    → (t : Tables) × (n ≡ ok t) × (f t ≡ ok t')
then-inverse (ok t) f t' h = (t, refl, h)
then-inverse (err e) f t' h = absurd (ground arith)

-- The columns of the accounts are as they were.
pub record SameAccounts (t t' : Tables) : Type 0 where
  pub same_balances : t'.balances ≡ t.balances
  pub same_positions : t'.positions ≡ t.positions

same_after :
    (t t' t'' : Tables)
    → SameAccounts t t'
    → Path (Result Tables) (ok t') (ok t'')
    → SameAccounts t t''
same_after t t' t'' same h = subst (λ (x : Tables). SameAccounts t x) (ok-injective h) same

pub SameAccounts-put_order : (o : Order) (t t' : Tables) → put_order o t ≡ ok t' → SameAccounts t t'
unfolding put_order
SameAccounts-put_order o t t' h =
    same_after t _ t' (record { same_balances = refl; same_positions = refl })
      (checked-inverse _ _ _ t' h).1

pub SameAccounts-put_market :
    (m : Market) (t t' : Tables) → put_market m t ≡ ok t' → SameAccounts t t'
unfolding put_market
SameAccounts-put_market m t t' h =
    same_after t _ t' (record { same_balances = refl; same_positions = refl })
      (checked-inverse _ _ _ t' h).1

put_trade_row :
    (b : Bool) (t t'' t' : Tables) (n : Result Tables)
    → (n ≡ ok t' → SameAccounts t t')
    → (if b then ok t else n) ≡ ok t'
    → SameAccounts t t'
put_trade_row true t t'' t' n k h =
    same_after t t t' (record { same_balances = refl; same_positions = refl }) h
put_trade_row false t t'' t' n k h = k h

pub SameAccounts-put_trade : (e : Event) (t t' : Tables) → put_trade e t ≡ ok t' → SameAccounts t t'
unfolding put_trade
SameAccounts-put_trade e t t' h =
    put_trade_row (has e.id t.trades) t t t' _
      (λ h'.
        same_after t _ t' (record { same_balances = refl; same_positions = refl })
          (checked-inverse _ _ _ t' h').1)
      (checked-inverse _ _ _ t' h).1

IsInt64-in_bits : (x : ℤ) → not (in_bits 64 x) ≡ false → IsInt64 x
IsInt64-in_bits (pos n) h = ground arith
IsInt64-in_bits (negsuc n) h = ground arith

and_false : (b : Bool) → (b && false) ≡ false
and_false true = refl
and_false false = refl

pub else_of : (b : Bool) (x y r : Result Tables) → b ≡ false → (if b then x else y) ≡ r → y ≡ r
else_of true x y r is_false h = cc
else_of false x y r is_false h = h

-- The error that is not looked for does not come up, with a name or without an amount.
skipped :
    (user : String) (delta : ℤ) (t : Tables)
    → (int_eq delta (pos 0) ≡ false → (user == "") ≡ false)
    → (uncovered user delta t && user == "") ≡ false
unfolding uncovered
skipped user delta t named = elim (Bool-cases (int_eq delta (pos 0))) [
  | inl zero_delta ↦ rw ((int_eq_iff delta (pos 0)).0 zero_delta) refl
  | inr moves ↦ rw (named moves) (and_false (uncovered user delta t))
]

-- What is left of a statement for a user with a name, or without an amount
change_balance-named :
    (user : String) (delta : ℤ) (t t' : Tables)
    → (int_eq delta (pos 0) ≡ false → (user == "") ≡ false)
    → change_balance user delta t ≡ ok t'
    → (not (in_bits 64 (cents t user +ℤ delta)) ≡ false)
      × (record t { balances = Dict.insert user (cents t user +ℤ delta) t.balances } ≡ t')
unfolding change_balance store_cents
change_balance-named user delta t t' named h =
    let skip = skipped user delta t named in
    let h' = else_of (uncovered user delta t && user == "") _ _ _ skip h in
    let (wide, done) =
      checked-inverse (not (in_bits 64 (cents t user +ℤ delta))) "bigint out of range" _ t'
        (checked-inverse _ _ _ t' h').1 in
    (wide, ok-injective done)

pub cents-change_balance :
    (user v : String) (delta : ℤ) (t t' : Tables)
    → (int_eq delta (pos 0) ≡ false → (user == "") ≡ false)
    → change_balance user delta t ≡ ok t'
    → cents t' v ≡ (if user == v then add64 (cents t v) delta else cents t v)
unfolding cents
cents-change_balance user v delta t t' named h =
    let total = cents t user +ℤ delta in
    let (wide, done) = change_balance-named user delta t t' named h in
    let held : IsInt64 total = IsInt64-in_bits total wide in
    rw⁻¹ done (
      ground (
        arith,
        lookup-insert user v total t.balances,
        int64_self total held,
        eq_string.equals_iff user v,
      ))

pub positions-change_balance :
    (user : String) (delta : ℤ) (t t' : Tables)
    → (int_eq delta (pos 0) ≡ false → (user == "") ≡ false)
    → change_balance user delta t ≡ ok t'
    → t'.positions ≡ t.positions
positions-change_balance user delta t t' named h =
    sym (ap (λ x. x.positions) (change_balance-named user delta t t' named h).1)

change_nonzero-inverse :
    (b : Bool) (t t' : Tables) (n : Result Tables)
    → (if b then ok t else n) ≡ ok t'
    → ((b ≡ true) × (t ≡ t')) ⊎ (n ≡ ok t')
change_nonzero-inverse true t t' n h = inl (refl, ok-injective h)
change_nonzero-inverse false t t' n h = inr h

cents-change_nonzero :
    (user v : String) (delta : ℤ) (t t' : Tables)
    → (int_eq delta (pos 0) ≡ false → (user == "") ≡ false)
    → ((u : String) → IsInt64 (cents t u))
    → change_nonzero user delta t ≡ ok t'
    → cents t' v ≡ (if user == v then add64 (cents t v) delta else cents t v)
unfolding change_nonzero
cents-change_nonzero user v delta t t' named wide h =
    elim (change_nonzero-inverse (int_eq delta (pos 0)) t t' _ h) [
      | inl (zero_delta, same) ↦ rw⁻¹ same (
          rw ((int_eq_iff delta (pos 0)).0 zero_delta)
            (ground (arith, add64_zero (cents t v) (wide v))))
      | inr changed ↦ cents-change_balance user v delta t t' named changed
    ]

pub positions-change_nonzero :
    (user : String) (delta : ℤ) (t t' : Tables)
    → (int_eq delta (pos 0) ≡ false → (user == "") ≡ false)
    → change_nonzero user delta t ≡ ok t'
    → t'.positions ≡ t.positions
unfolding change_nonzero
positions-change_nonzero user delta t t' named h =
    elim (change_nonzero-inverse (int_eq delta (pos 0)) t t' _ h) [
      | inl (zero_delta, same) ↦ sym (ap (λ x. x.positions) same)
      | inr changed ↦ positions-change_balance user delta t t' named changed
    ]

pub balances-put_shares :
    (user market : String) (y n : ℤ) (t t' : Tables)
    → put_shares user market y n t ≡ ok t'
    → t'.balances ≡ t.balances
unfolding put_shares
balances-put_shares user market y n t t' h =
    sym (ap (λ x. x.balances) (ok-injective (checked-inverse _ _ _ t' h).1))

pub shares-put_shares :
    (user market v m : String) (y n : ℤ) (t t' : Tables)
    → put_shares user market y n t ≡ ok t'
    → shares t' v m ≡ (if user == v && market == m then moved (shares t v m) y n else shares t v m)
unfolding put_shares shares user_positions
shares-put_shares user market v m y n t t' h =
    let p = added (shares t user market) y n in
    let (bad, done) =
      checked-inverse
        (not (has market t.markets)
          || not (in_bits 64 p.yes_shares)
          || not (in_bits 64 p.no_shares))
        _ _ t' h in
    let (known, wide_no) =
      or_false (not (has market t.markets) || not (in_bits 64 p.yes_shares)) _ bad in
    let (found, wide_yes) = or_false (not (has market t.markets)) _ known in
    let is_moved : p ≡ moved (shares t user market) y n =
      rw
        (
          int64_self p.yes_shares (IsInt64-in_bits p.yes_shares wide_yes),
          int64_self p.no_shares (IsInt64-in_bits p.no_shares wide_no),
        )
        refl in
    rw⁻¹ (ok-injective done) (
      ground (
        arith,
        is_moved,
        lookup-insert user v (Dict.insert market p (user_positions t.positions user)) t.positions,
        lookup-insert market m p (user_positions t.positions user),
        eq_string.equals_iff user v,
        eq_string.equals_iff market m,
      ))

pub cents-cash :
    (user v : String) (delta : ℤ) (t t₁ t' : Tables)
    → (int_eq delta (pos 0) ≡ false → (user == "") ≡ false)
    → t₁.balances ≡ t.balances
    → ((u : String) → IsInt64 (cents t u))
    → change_nonzero user delta t₁ ≡ ok t'
    → cents t' v ≡ (if user == v then add64 (cents t v) delta else cents t v)
unfolding cents
cents-cash user v delta t t₁ t' named kept wide h =
    let same : (u : String) → cents t₁ u ≡ cents t u =
      λ u. ap (λ b. get_or (Dict.lookup u b) (pos 0)) kept in
    cents-change_nonzero user v delta t₁ t' named
      (λ u. subst (λ (c : ℤ). IsInt64 c) (sym (same u)) (wide u)) h
    ∙ ap (λ c. if user == v then add64 c delta else c) (same v)

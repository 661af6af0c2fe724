-- ===== src/Trades/Totals.antt =====
-- The cash and the shares that a list of events moves, all accounts together, against what the
-- filled orders had set aside.
use prediction_market.Base.{◌≡◌, refl, List, [], ◌∷◌, ◌++◌}
use prediction_market.Int.{ℤ, pos, ◌+ℤ◌, ◌-ℤ◌, ◌*ℤ◌}
use prediction_market.Int.Laws.{int_laws, scale_parts, parts_eq}
use prediction_market.Ledger.{Event}

abbrev pub total : (Event → ℤ) → List Event → ℤ
total f [] = pos 0
total f (e ∷ es) = f e +ℤ total f es

abbrev pub total_amount : List Event → ℤ
total_amount = total (λ e. e.amount)

abbrev pub total_yes : List Event → ℤ
total_yes = total (λ e. e.yes_delta)

abbrev pub total_no : List Event → ℤ
total_no = total (λ e. e.no_delta)

pub total-append :
    (f : Event → ℤ) (xs ys : List Event) → total f (xs ++ ys) ≡ total f xs +ℤ total f ys
total-append f [] ys = omega int_laws
total-append f (x ∷ xs) ys = omega (int_laws, parts_eq (total-append f xs ys))

-- The cash, the YES shares and the NO shares that orders had set aside.
pub record Taken : Type 0 where
  pub cash : ℤ
  pub yes_shares : ℤ
  pub no_shares : ℤ

abbrev pub nothing : Taken
nothing = record { cash = pos 0; yes_shares = pos 0; no_shares = pos 0 }

abbrev pub both : Taken → Taken → Taken
both a b = record {
  cash = a.cash +ℤ b.cash;
  yes_shares = a.yes_shares +ℤ b.yes_shares;
  no_shares = a.no_shares +ℤ b.no_shares;
}

-- As many YES as NO shares come into being, and the cash given back, with 100 cents for each new
-- pair of shares, is the cash that was set aside.
pub record IsBalanced (events : List Event) (taken : Taken) : Type 0 where
  pub pairs : total_yes events -ℤ taken.yes_shares ≡ total_no events -ℤ taken.no_shares
  pub cash : total_amount events +ℤ pos 100 *ℤ (total_yes events -ℤ taken.yes_shares) ≡ taken.cash

pub IsBalanced-nil : IsBalanced [] nothing
IsBalanced-nil = record { pairs = refl; cash = omega (int_laws, scale_parts) }

pub IsBalanced-append :
    (xs ys : List Event) (a b : Taken)
    → IsBalanced xs a
    → IsBalanced ys b
    → IsBalanced (xs ++ ys) (both a b)
IsBalanced-append xs ys a b h k = record {
  pairs = omega (
    int_laws,
    parts_eq h.pairs,
    parts_eq k.pairs,
    parts_eq (total-append (λ e. e.yes_delta) xs ys),
    parts_eq (total-append (λ e. e.no_delta) xs ys),
  );
  cash = omega (
    int_laws,
    scale_parts,
    parts_eq h.cash,
    parts_eq k.cash,
    parts_eq (total-append (λ e. e.yes_delta) xs ys),
    parts_eq (total-append (λ e. e.amount) xs ys),
  );
}

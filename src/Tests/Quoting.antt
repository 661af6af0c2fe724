-- ===== src/Tests/Quoting.antt =====
-- The comparison of two sequence numbers as decimal texts.
use prediction_market.Base.{◌≡◌, refl, arith, [], ◌∷◌, leb}
use prediction_market.Cache.{is_stale}
use prediction_market.Cache.Decimal.{IsDecimal, AreDigits, value, is_stale-IsDecimal}

-- 9 and 10
nine-IsDecimal : IsDecimal (57 ∷ []) 9
unfolding AreDigits value
nine-IsDecimal = record {
  digits = (omega arith, omega arith, tt);
  leading_digit = 57;
  rest = [];
  text = refl;
  leading = λ h. refl;
  number = refl;
}

ten-IsDecimal : IsDecimal (49 ∷ 48 ∷ []) 10
unfolding AreDigits value
ten-IsDecimal = record {
  digits = (omega arith, omega arith, (omega arith, omega arith, tt));
  leading_digit = 49;
  rest = 48 ∷ [];
  text = refl;
  leading = λ h. absurd (omega (arith, h));
  number = refl;
}

is_stale-IsDecimal_example : is_stale (57 ∷ []) (49 ∷ 48 ∷ []) ≡ leb 10 9
is_stale-IsDecimal_example =
    is_stale-IsDecimal (57 ∷ []) (49 ∷ 48 ∷ []) 9 10 nine-IsDecimal ten-IsDecimal

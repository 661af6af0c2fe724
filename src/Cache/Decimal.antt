-- ===== src/Cache/Decimal.antt =====
-- The comparison of go-backend/internal/cache/redis.go on decimal texts against that of the numbers.
use native.Mathlib.Nat.{pow-succ', mul-le-mul_right, pow-le-pow_right}
use prediction_market.Base.{
  ℕ, suc, ◌+◌, ◌-◌, ◌*◌, ◌^◌, ◌≤◌, ◌<◌, ◌≡◌, refl, sym, ap, ◌∙◌, subst, arith, Bool, true, false,
  List, [], ◌∷◌, length, ltb, leb, if◌then◌else◌, Bool-cases, inl, inr,
}
use prediction_market.Cache.{text_ge, is_stale}

-- The number that a text of digits writes; the byte of "0" is 48.
unfoldable pub value : List ℕ → ℕ
value [] = 0
value (c ∷ cs) = (c - 48) * 10 ^ length cs + value cs

unfoldable pub AreDigits : List ℕ → Type 0
AreDigits [] = Unit
AreDigits (c ∷ cs) = (48 ≤ c) × (c ≤ 57) × AreDigits cs

-- The decimal text of a number: digits, the first not "0" where there is a second.
pub record IsDecimal (cs : List ℕ) (n : ℕ) : Type 0 where
  pub digits : AreDigits cs
  pub leading_digit : ℕ
  pub rest : List ℕ
  pub text : cs ≡ leading_digit ∷ rest
  pub leading : (leading_digit ≡ 48) → rest ≡ []
  pub number : value cs ≡ n

value-below : (cs : List ℕ) → AreDigits cs → value cs < 10 ^ length cs
unfolding value AreDigits
value-below [] h = omega arith
value-below (c ∷ cs) (low, high, h) =
    let below = value-below cs h in
    let most : (c - 48) * 10 ^ length cs ≤ 9 * 10 ^ length cs =
      mul-le-mul_right (10 ^ length cs) (omega (arith, high)) in
    rw (pow-succ' 10 (length cs)) (omega (arith, below, most))

suc_mul : (n P : ℕ) → suc n * P ≡ n * P + P
suc_mul n P = omega arith

digits_step : (a b P x y : ℕ) → 48 ≤ b → b < a → y < P → (b - 48) * P + y < (a - 48) * P + x
digits_step a b P x y low above small =
    let more : suc (b - 48) * P ≤ (a - 48) * P = mul-le-mul_right P (omega (arith, low, above)) in
    omega (arith, more, small, suc_mul (b - 48) P)

-- The first digits decide, or the rest does.
first_digit :
    (a b m n x y : ℕ) (r : Bool)
    → (b < a → n < m)
    → (a < b → m < n)
    → (a ≡ b → (k : ℕ) × (m ≡ k + x) × (n ≡ k + y))
    → r ≡ leb y x
    → (if ltb b a then true else if ltb a b then false else r) ≡ leb n m
first_digit a b m n x y r more less even rest = elim (Bool-cases (ltb b a)) [
  | inl above ↦ ground (arith, above, more)
  | inr not_above ↦ elim (Bool-cases (ltb a b)) [
    | inl below ↦ ground (arith, not_above, below, less)
    | inr not_below ↦
        let same : a ≡ b = ground (arith, not_above, not_below) in
        let (k, first, second) = even same in
        ground (arith, not_above, not_below, rest, first, second)
  ]
]

-- Of two texts of the same length, the later one in the order of texts writes the greater number.
text_ge-value :
    (xs bs : List ℕ)
    → AreDigits xs
    → AreDigits bs
    → length xs ≡ length bs
    → text_ge xs bs ≡ leb (value bs) (value xs)
unfolding text_ge value AreDigits
text_ge-value [] [] ha hb same = refl
text_ge-value [] (b ∷ bs) ha hb same = absurd (omega (arith, same))
text_ge-value (a ∷ xs) [] ha hb same = absurd (omega (arith, same))
text_ge-value (a ∷ xs) (b ∷ bs) ha hb same =
    let rest = text_ge-value xs bs ha.2 hb.2 (omega (arith, same)) in
    let shift : 10 ^ length xs ≡ 10 ^ length bs = ap (λ n. 10 ^ n) (omega (arith, same)) in
    let P = 10 ^ length xs in
    let small_x : value xs < P = value-below xs ha.2 in
    let small_b : value bs < P = rw shift (value-below bs hb.2) in
    rw⁻¹ shift (
      first_digit a b ((a - 48) * P + value xs) ((b - 48) * P + value bs) (value xs) (value bs)
        (text_ge xs bs) (λ above. digits_step a b P (value xs) (value bs) hb.0 above small_b)
        (λ below. digits_step b a P (value bs) (value xs) ha.0 below small_x)
        (λ even. ((a - 48) * P, refl, ap (λ c. (c - 48) * P + value bs) (sym even))) rest)

first_positive : (c : ℕ) → 48 ≤ c → (c ≡ 48 → ⊥) → 1 ≤ c - 48
first_positive c low other = ground (arith, low, other)

-- A longer text without a leading "0" writes a greater number.
decimal-shorter :
    (cs ds : List ℕ) (m n : ℕ) → IsDecimal cs m → IsDecimal ds n → length cs < length ds → m < n
unfolding value AreDigits
decimal-shorter cs ds m n p q shorter =
    let long_c = ap (λ l. length l) p.text in
    let long_d = ap (λ l. length l) q.text in
    let ds_digits : AreDigits (q.leading_digit ∷ q.rest) =
      subst (λ (l : List ℕ). AreDigits l) q.text q.digits in
    let not_zero : q.leading_digit ≡ 48 → ⊥ = λ zero_first.
      omega (arith, shorter, long_c, long_d, ap (λ l. length l) (q.leading zero_first)) in
    let one_or_more : 1 ≤ q.leading_digit - 48 =
      first_positive q.leading_digit ds_digits.0 not_zero in
    let least : 1 * 10 ^ length q.rest ≤ (q.leading_digit - 48) * 10 ^ length q.rest =
      mul-le-mul_right (10 ^ length q.rest) one_or_more in
    let wider : 10 ^ length cs ≤ 10 ^ length q.rest =
      pow-le-pow_right (omega arith) (omega (arith, shorter, long_d)) in
    let below = value-below cs p.digits in
    let written : (q.leading_digit - 48) * 10 ^ length q.rest + value q.rest ≡ n =
      sym (ap (λ l. value l) q.text) ∙ q.number in
    omega (arith, least, wider, below, written, p.number)

-- If the texts are the decimal texts of two numbers, the script leaves the quote that is there exactly
-- if its number is at least the new one.
pub is_stale-IsDecimal :
    (previous next : List ℕ) (m n : ℕ)
    → IsDecimal previous m
    → IsDecimal next n
    → is_stale previous next ≡ leb n m
unfolding is_stale
is_stale-IsDecimal previous next m n p q = ground (
  arith,
  text_ge-value previous next p.digits q.digits,
  p.number,
  q.number,
  decimal-shorter previous next m n p q,
  decimal-shorter next previous n m q p,
)

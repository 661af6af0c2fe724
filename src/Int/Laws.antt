-- ===== src/Int/Laws.antt =====
-- Laws of the integers and of the 64-bit arithmetic, by the two parts of an integer.
use prediction_market.Base.{ℕ, ◌+◌, ◌*◌, ◌^◌, ◌≤◌, ◌<◌, ◌≡◌, ◌-◌, ◌∙◌, ap, arith}
use prediction_market.Int.{
  ℤ, pos, negsuc, pos_part, neg_part, ◌+ℤ◌, ◌-ℤ◌, ◌*ℤ◌, int64, add64, sub64, mul64, neg64, IsInt64,
}

pub +ℤ_parts :
    (a b : ℤ)
    → pos_part (a +ℤ b) + neg_part a + neg_part b ≡ neg_part (a +ℤ b) + pos_part a + pos_part b
unfolding ◌+ℤ◌
+ℤ_parts a b = ground arith

pub -ℤ_parts :
    (a b : ℤ)
    → pos_part (a -ℤ b) + neg_part a + pos_part b ≡ neg_part (a -ℤ b) + pos_part a + neg_part b
unfolding ◌-ℤ◌
-ℤ_parts a b = ground arith

pub eq_of_parts : (a b : ℤ) → pos_part a + neg_part b ≡ pos_part b + neg_part a → a ≡ b
eq_of_parts a b h = ground arith

pub ruleset int_laws = (arith, +ℤ_parts, -ℤ_parts, eq_of_parts)

-- In range the wrap-around does nothing.
pub int64_self : (a : ℤ) → IsInt64 a → int64 a ≡ a
unfolding int64
int64_self a h = ground arith

pub IsInt64-int64 : (a : ℤ) → IsInt64 (int64 a)
unfolding int64
IsInt64-int64 a = ground arith

-- What was taken out and put back leaves the value that was there, wrap-around included.
pub add64_cancel : (a b : ℤ) → IsInt64 a → add64 (add64 a (neg64 b)) b ≡ a
unfolding int64 ◌+ℤ◌ ◌-ℤ◌
add64_cancel a b h = ground arith

pub scale_parts :
    (k : ℕ) (x : ℤ)
    → pos_part (pos k *ℤ x) + k * neg_part x ≡ neg_part (pos k *ℤ x) + k * pos_part x
unfolding ◌*ℤ◌
scale_parts k x = grind arith

-- In range a difference and a product with a quantity do not wrap round.
pub sub64_prices : (p e : ℕ) → p ≤ 100 → e ≤ 100 → sub64 (pos p) (pos e) ≡ pos p -ℤ pos e
sub64_prices p e hp he = int64_self (pos p -ℤ pos e) (unfold ◌-ℤ◌ in ground arith)

times_parts :
    (d : ℤ) (q : ℕ)
    → (pos_part (d *ℤ pos q) ≡ pos_part d * q) × (neg_part (d *ℤ pos q) ≡ neg_part d * q)
unfolding ◌*ℤ◌
times_parts (pos n) q = (grind arith, grind arith)
times_parts (negsuc n) q = (grind arith, grind arith)

le_product : (n q : ℕ) → n ≤ 100 → q < 2 ^ 32 → n * q ≤ 100 * 2 ^ 32
le_product n q hn hq = grind arith

pub mul64_quantity :
    (d : ℤ) (q : ℕ)
    → pos_part d ≤ 100
    → neg_part d ≤ 100
    → q < 2 ^ 32
    → mul64 d (pos q) ≡ d *ℤ pos q
mul64_quantity d q hp hn hq = int64_self (d *ℤ pos q) (
    omega (
      arith,
      (times_parts d q).0,
      (times_parts d q).1,
      le_product (pos_part d) q hp hq,
      le_product (neg_part d) q hn hq,
    ))

price_difference :
    (p e : ℕ)
    → p ≤ 100
    → e ≤ 100
    → (pos_part (pos p -ℤ pos e) ≤ 100) × (neg_part (pos p -ℤ pos e) ≤ 100)
unfolding ◌-ℤ◌
price_difference p e hp he = ground arith

-- A difference of prices times a quantity, by parts.
pub price_product :
    (p e q : ℕ)
    → p ≤ 100
    → e ≤ 100
    → q < 2 ^ 32
    → (pos_part (mul64 (sub64 (pos p) (pos e)) (pos q)) + e * q
        ≡ neg_part (mul64 (sub64 (pos p) (pos e)) (pos q)) + p * q)
price_product p e q hp he hq =
    let d = pos p -ℤ pos e in
    let parts : pos_part d + e ≡ neg_part d + p = omega (arith, -ℤ_parts (pos p) (pos e)) in
    let signs : (pos_part d ≤ 100) × (neg_part d ≤ 100) = price_difference p e hp he in
    rw
      (
        sub64_prices p e hp he,
        mul64_quantity d q signs.0 signs.1 hq,
        (times_parts d q).0,
        (times_parts d q).1,
      )
      (omega (arith, ap (λ (t : ℕ). t * q) parts))

pub engine_product : (e q : ℕ) → e ≤ 100 → q < 2 ^ 32 → mul64 (pos e) (pos q) ≡ pos (e * q)
engine_product e q he hq = mul64_quantity (pos e) q he (omega arith) hq ∙ unfold ◌*ℤ◌ in grind arith

pub complement_price : (e : ℕ) → e ≤ 100 → sub64 (pos 100) (pos e) ≡ pos (100 - e)
unfolding ◌-ℤ◌
complement_price e he = sub64_prices 100 e (omega arith) he ∙ ground arith

-- An equation of integers, as `omega` reads it.
pub parts_eq : {a b : ℤ} → a ≡ b → pos_part a + neg_part b ≡ pos_part b + neg_part a
parts_eq {a} {b} h = rw h (omega arith)

pub add64_zero : (a : ℤ) → IsInt64 a → add64 a (pos 0) ≡ a
unfolding int64 ◌+ℤ◌
add64_zero a h = ground arith

-- ===== src/Int/Assoc.antt =====
-- Addition of 64-bit integers with wrap-around is associative.
use prediction_market.Base.{◌+◌, ◌%◌, ◌^◌, ◌≡◌, refl, arith}
use prediction_market.Int.{ℤ, pos, negsuc, ◌+ℤ◌, int64, uint64, add64}

-- The residue of an integer, as a natural number
residue_sum : (a b : ℤ) → uint64 (a +ℤ b) ≡ (uint64 a + uint64 b) % 2 ^ 64
unfolding ◌+ℤ◌
residue_sum (pos a) (pos b) = ground arith
residue_sum (pos a) (negsuc b) = ground arith
residue_sum (negsuc a) (pos b) = ground arith
residue_sum (negsuc a) (negsuc b) = ground arith

uint64-int64 : (a : ℤ) → uint64 (int64 a) ≡ uint64 a
unfolding int64
uint64-int64 (pos a) = ground arith
uint64-int64 (negsuc a) = ground arith

-- An `int64` is told by its residue.
int64_of_residue : (a b : ℤ) → uint64 a ≡ uint64 b → int64 a ≡ int64 b
unfolding int64
int64_of_residue a b e = rw e refl

pub add64_assoc : (a b c : ℤ) → add64 (add64 a b) c ≡ add64 a (add64 b c)
add64_assoc a b c = int64_of_residue (add64 a b +ℤ c) (a +ℤ add64 b c) (
    omega (
      arith,
      residue_sum (add64 a b) c,
      residue_sum a (add64 b c),
      uint64-int64 (a +ℤ b),
      uint64-int64 (b +ℤ c),
      residue_sum a b,
      residue_sum b c,
    ))

-- ===== src/Sort.antt =====
-- `sort.Strings` and `sort.Slice`: insertion sort by a test for "comes before". The order of texts
-- is that of their code points, which is also that of their UTF-8 bytes.
use Prim.Native.Nat.{Ordering}
use Prim.Native.String.{compare}
use prediction_market.Base.{String, Bool, true, false, List, [], ◌∷◌, if◌then◌else◌}

unfoldable pub string_before : String → String → Bool
string_before a b = elim (compare a b) [ Ordering.lt ↦ true | _ ↦ false ]

module _ {ℓ} {A : Type ℓ} (before : A → A → Bool) where
  unfoldable pub place_sorted : A → List A → List A
  place_sorted x [] = x ∷ []
  place_sorted x (y ∷ ys) =
      let rest = place_sorted x ys in if before y x then y ∷ rest else x ∷ (y ∷ ys)

  unfoldable pub sort : List A → List A
  unfolding place_sorted string_before
  sort [] = []
  sort (x ∷ xs) = place_sorted x (sort xs)

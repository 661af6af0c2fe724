-- ===== src/Cache.antt =====
-- The script `setQuote` of go-backend/internal/cache/redis.go, which keeps the quote with the greater
-- sequence number. A text of the script is the list of its bytes. Decimal is about what its comparison
-- of decimal texts decides.
pub mod Decimal
use prediction_market.Base.{
  ℕ, Bool, true, false, ◌&&◌, ◌||◌, Option, none, some, List, [], ◌∷◌, length, ltb, nat_eq,
  if◌then◌else◌,
}

-- `previous >= next` on texts
unfoldable pub text_ge : List ℕ → List ℕ → Bool
text_ge [] [] = true
text_ge [] (b ∷ bs) = false
text_ge (a ∷ xs) [] = true
text_ge (a ∷ xs) (b ∷ bs) =
    let rest = text_ge xs bs in if ltb b a then true else if ltb a b then false else rest

-- The condition under which the script leaves the quote that is there
unfoldable pub is_stale : List ℕ → List ℕ → Bool
unfolding text_ge
is_stale previous next =
    ltb (length next) (length previous)
    || (nat_eq (length previous) (length next) && text_ge previous next)

-- `decoded.sequence or '0'`
abbrev pub previous_of : Option (List ℕ) → List ℕ
previous_of none = 48 ∷ []
previous_of (some text) = text

-- The script: its answer, and the quote that is left with its sequence number's text
unfoldable pub set_quote {ℓ} :
    {A : Type ℓ} → Option (Option (List ℕ) × A) → List ℕ → A → ℕ × Option (Option (List ℕ) × A)
unfolding is_stale
set_quote none next quote = (1, some (some next, quote))
set_quote (some (text, old)) next quote =
    if is_stale (previous_of text) next then (0, some (text, old)) else (1, some (some next, quote))

-- ===== src/Auth/Text.antt =====
-- What go-backend/internal/auth/service.go uses of Go's `strings`: `Split` at "." and `HasPrefix`
-- with `TrimPrefix`. A text is the list of its characters.
use Prim.Native.Char.{Char, code}
use Prim.Native.String.{String as Text}
use text.Mathlib.TextLemmas.{nil-append, cons-append}
use prediction_market.Base.{
  ◌≡◌, refl, Bool, true, false, Option, none, some, List, [], ◌∷◌, nat_eq, if◌then◌else◌, arith,
}
use Prim.Native.String.{◌++◌}

abbrev pub is_dot : Char → Bool
is_dot c = nat_eq (code c) 46

abbrev pub push : Char → List Text → List Text
push c [] = (Text.◌∷◌ c Text.[]) ∷ []
push c (s ∷ ss) = Text.◌∷◌ c s ∷ ss

-- `strings.Split(s, ".")`
unfoldable pub split_dots : Text → List Text
split_dots Text.[] = Text.[] ∷ []
split_dots (Text.◌∷◌ c s) =
    let rest = split_dots s in if is_dot c then Text.[] ∷ rest else push c rest

unfoldable pub has_dot : Text → Bool
has_dot Text.[] = false
has_dot (Text.◌∷◌ c s) = let rest = has_dot s in if is_dot c then true else rest

-- The text after a prefix, if it has the prefix.
unfoldable pub after_prefix : Text → Text → Option Text
after_prefix Text.[] s = some s
after_prefix (Text.◌∷◌ p ps) Text.[] = none
after_prefix (Text.◌∷◌ p ps) (Text.◌∷◌ c s) =
    let rest = after_prefix ps s in if nat_eq (code p) (code c) then rest else none

pub after_prefix-append : (p s : Text) → after_prefix p (p ++ s) ≡ some s
unfolding after_prefix
after_prefix-append Text.[] s = rw (nil-append s) refl
after_prefix-append (Text.◌∷◌ p ps) s =
    rw (cons-append p ps s) (ground (arith, after_prefix-append ps s))

-- A dot ends a part.
split_dots-dot : (t : Text) → split_dots ("." ++ t) ≡ Text.[] ∷ split_dots t
unfolding split_dots
split_dots-dot t = rw (cons-append (Char.char 46 tt) Text.[] t) (rw (nil-append t) refl)

push_dots :
    (c : Char) (s t : Text) (rest : List Text)
    → is_dot c ≡ false
    → rest ≡ s ∷ split_dots t
    → (if is_dot c then Text.[] ∷ rest else push c rest) ≡ Text.◌∷◌ c s ∷ split_dots t
push_dots c s t rest no_dot h = rw (no_dot, h) refl

-- A part without a dot is the first part.
pub split_dots-append :
    (s t : Text) → has_dot s ≡ false → split_dots (s ++ ("." ++ t)) ≡ s ∷ split_dots t
unfolding split_dots has_dot
split_dots-append Text.[] t h = rw (nil-append ("." ++ t)) (split_dots-dot t)
split_dots-append (Text.◌∷◌ c s) t h =
    let head : is_dot c ≡ false = ground arith in
    let tail : has_dot s ≡ false = ground arith in
    rw (cons-append c s ("." ++ t))
      (push_dots c s t (split_dots (s ++ ("." ++ t))) head (split_dots-append s t tail))

pub split_dots-single : (s : Text) → has_dot s ≡ false → split_dots s ≡ s ∷ []
unfolding split_dots has_dot
split_dots-single Text.[] h = refl
split_dots-single (Text.◌∷◌ c s) h =
    let head : is_dot c ≡ false = ground arith in
    let tail : has_dot s ≡ false = ground arith in rw (head, split_dots-single s tail) refl

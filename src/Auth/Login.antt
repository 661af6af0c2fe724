-- ===== src/Auth/Login.antt =====
-- Whom a login lets in: go-backend/internal/auth/service.go.
use Prim.Native.String.{◌++◌}
use prediction_market.Base.{
  ◌≡◌, refl, ap, ◌∙◌, arith, String, true, false, not, Option, none, some, ◌==◌, eq_string,
  not-false, subst,
}
use prediction_market.Int.{leb_ℤ}
use prediction_market.Result.{Result, ok, err, ◌>>=◌}
use prediction_market.Auth.{Library, AuthService, sign, login, login_row, authenticate}
use prediction_market.Auth.Tokens.{IsStandard, issued, past_error, authenticate-sign}

module _ {W : Type 0} (lib : Library W) (s : AuthService) where
  -- A login has found a row, and its token makes the row's user the caller until it expires.
  pub record IsLogin (email password id token : String) (w : W) : Type 0 where
    pub hash : String
    pub made_at : W
    pub found : lib.find_user (lib.to_lower (lib.trim_space email)) w ≡ (some (id, hash), made_at)
    pub matches : lib.password_matches hash password ≡ true
    pub lets_in :
        (v : W)
        → (id == "") ≡ false
        → leb_ℤ (issued lib s id made_at).expiry (lib.now v).0 ≡ false
        → authenticate lib s ("Bearer " ++ token) v ≡ (ok (some id), (lib.now v).1)

  named_token :
      (r : Result String) (id id' token : String)
      → Path (Result (String × String)) (r >>= λ t. ok (id', t)) (ok (id, token))
      → (id' ≡ id) × (r ≡ ok token)
  named_token (err e) id id' token h = absurd (ground arith)
  named_token (ok t) id id' token h = (cc, cc)

  IsLogin-row :
      (std : IsStandard lib) (email password id token : String) (w w' : W)
      (x : Option (String × String) × W)
      → lib.find_user (lib.to_lower (lib.trim_space email)) w ≡ x
      → login_row lib s password x ≡ (ok (id, token), w')
      → IsLogin email password id token w
  unfolding login_row
  IsLogin-row std email password id token w w' (none, w₁) asked h = absurd (ground arith)
  IsLogin-row std email password id token w w' (some (id', hash), w₁) asked h =
      let (accepted, h') = past_error (not (lib.password_matches hash password)) _ _ h in
      let (same, made) = named_token (sign lib s id' w₁).0 id id' token (ap (λ y. y.0) h') in
      let signed_for : sign lib s id w₁ ≡ (ok token, (sign lib s id w₁).1) =
        subst (λ (i : String). sign lib s i w₁ ≡ (ok token, (sign lib s i w₁).1)) same
          (λ k. (made k, (sign lib s id' w₁).1)) in
      record {
        hash = hash;
        made_at = w₁;
        found = asked ∙ ap (λ i. (some (i, hash), w₁)) same;
        matches = not-false _ accepted;
        lets_in = λ v named fresh.
            authenticate-sign lib s std id token w₁ (sign lib s id w₁).1 v named signed_for fresh;
      }

  -- A login that gives a user and a token has found the user's row by the e-mail in small letters and
  -- without spaces around it, the row's hash matches the password, and the token, in an `Authorization`
  -- header before it expires, makes that user the caller, if the user's id is not empty.
  pub login-IsLogin :
      (std : IsStandard lib) (email password id token : String) (w w' : W)
      → login lib s email password w ≡ (ok (id, token), w')
      → IsLogin email password id token w
  unfolding login
  login-IsLogin std email password id token w w' h =
      IsLogin-row std email password id token w w'
        (lib.find_user (lib.to_lower (lib.trim_space email)) w) refl h

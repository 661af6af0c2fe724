-- ===== src/Auth.antt =====
-- Registration, login and the bearer tokens of go-backend/internal/auth/service.go. What the file
-- takes from libraries (base64, HMAC, JSON, bcrypt, uuid, the clock, PostgreSQL, and Unicode's tables
-- in `strings`) is a record of functions; a byte slice is a text. Text is Go's `strings` on texts,
-- Tokens what the tokens are good for.
pub mod Text
pub mod Tokens
pub mod Login
use Prim.Native.String.{◌++◌, len}
use prediction_market.Base.{
  ℕ, String, Bool, true, false, not, ◌||◌, ◌&&◌, Option, none, some, List, [], ◌∷◌, ltb, ◌==◌,
  eq_string, if◌then◌else◌, get_or,
}
use prediction_market.Int.{ℤ, pos, add64, leb_ℤ}
use prediction_market.Ledger.{Error}
use prediction_market.Result.{Result, ok, err, ◌>>=◌, return_if, ◌>>◌}
use prediction_market.Auth.Text.{split_dots, after_prefix}

pub record Claims : Type 0 where
  pub subject : String
  pub issuer : String
  pub expiry : ℤ

-- The functions of libraries, over the state `W` of the outside.
pub record Library (W : Type 0) : Type 0 where
  pub trim_space : String → String
  pub to_lower : String → String
  -- `base64.RawURLEncoding`
  pub encode : String → String
  pub decode : String → Option String
  -- the HMAC-SHA256 of a message under a key
  pub mac : String → String → String
  -- the JSON text of a token's header
  pub header : String
  pub marshal : Claims → Result String
  pub unmarshal : String → Option Claims
  -- `time.Now().Unix()`
  pub now : W → ℤ × W
  pub new_id : W → String × W
  -- `bcrypt`
  pub hash_password : String → W → Result String × W
  pub password_matches : String → String → Bool
  -- the table of users: the id, e-mail, name and hash of a new row, and the id and hash of an e-mail's
  pub insert_user : String → String → String → String → W → Option Error × W
  pub find_user : String → W → Option (String × String) × W

-- `Service`, but for the database
pub record AuthService : Type 0 where
  pub secret : String
  pub ttl : ℤ

unfoldable pub new_auth : String → Result AuthService
new_auth secret =
    if ltb (len secret) 16
    then err (Error.external "JWT_SECRET must contain at least 16 characters")
    else ok (record { secret = secret; ttl = pos 86400 })

abbrev pub issuer_name : String
issuer_name = "prediction-market-exchange"

-- `RequireOwner`'s context is the subject that `Middleware` put there, if it did.
abbrev pub Caller : Type 0
Caller = Option String

-- `UserID`
unfoldable pub user_id : Caller → String × Bool
user_id caller = elim caller [ none ↦ ("", false) | some id ↦ (id, not (id == "")) ]

-- `RequireOwner`
unfoldable pub require_owner : Caller → String → Result String
unfolding user_id
require_owner caller requested =
    let (id, authenticated) = user_id caller in
    if not authenticated
    then ok requested
    else if not (requested == "") && not (requested == id)
    then err (Error.external "resource belongs to another user")
    else ok id

module _ {W : Type 0} (lib : Library W) (s : AuthService) where
  -- The text that the signature is of
  unfoldable pub unsigned : String → String → String
  unsigned header payload = header ++ ("." ++ payload)

  -- The token of a payload's text
  unfoldable pub signed : String → String
  unfolding unsigned
  signed payload =
      let text = unsigned (lib.encode lib.header) (lib.encode payload) in
      text ++ ("." ++ lib.encode (lib.mac s.secret text))

  -- `Service.sign`
  unfoldable pub sign : String → W → Result String × W
  unfolding signed
  sign id w =
      let (now, w') = lib.now w in
      let claims : Claims = record {
        subject = id;
        issuer = issuer_name;
        expiry = add64 now s.ttl;
      } in
      (lib.marshal claims >>= λ payload. ok (signed payload), w')

  -- `Service.Register`, after its row is in the table
  unfoldable pub register_row : String → Option Error × W → Result (String × String) × W
  unfolding sign
  register_row id (some e, w) = (err (Error.external "email or username already registered"), w)
  register_row id (none, w) = let (token, w') = sign id w in (token >>= λ t. ok (id, t), w')

  -- `Service.Register`, after the password is hashed
  unfoldable pub register_hash : String → String → Result String × W → Result (String × String) × W
  unfolding register_row
  register_hash email username (err e, w) = (err e, w)
  register_hash email username (ok hash, w) =
      let (id, w') = lib.new_id w in register_row id (lib.insert_user id email username hash w')

  -- `Service.Register`
  unfoldable pub register : String → String → String → W → Result (String × String) × W
  unfolding register_hash
  register email username password w =
      let email' = lib.to_lower (lib.trim_space email) in
      let username' = lib.trim_space username in
      if email' == "" || username' == "" || ltb (len password) 8
      then (err (Error.external "email, username, and an 8-character password are required"), w)
      else register_hash email' username' (lib.hash_password password w)

  -- `Service.Login`, with the row of the e-mail
  unfoldable pub login_row : String → Option (String × String) × W → Result (String × String) × W
  unfolding sign
  login_row password (none, w) = (err (Error.external "invalid credentials"), w)
  login_row password (some (id, hash), w) =
      let (token, w') = sign id w in
      if not (lib.password_matches hash password)
      then (err (Error.external "invalid credentials"), w)
      else (token >>= λ t. ok (id, t), w')

  -- `Service.Login`
  unfoldable pub login : String → String → W → Result (String × String) × W
  unfolding login_row
  login email password w =
      login_row password (lib.find_user (lib.to_lower (lib.trim_space email)) w)

  -- The claims of `Service.Parse`, once the payload is decoded
  unfoldable pub read_claims : Option Claims → W → Result Claims × W
  read_claims none w = (err (Error.external "expired or invalid token"), w)
  read_claims (some c) w =
      let (now, w') = lib.now w in
      if c.subject == "" || not (c.issuer == issuer_name)
      then (err (Error.external "expired or invalid token"), w)
      else if leb_ℤ c.expiry now
      then (err (Error.external "expired or invalid token"), w')
      else (ok c, w')

  unfoldable pub read_payload : Option String → W → Result Claims × W
  unfolding read_claims
  read_payload none w = (err (Error.external "invalid token payload"), w)
  read_payload (some payload) w = read_claims (lib.unmarshal payload) w

  -- whether a decoded signature is that of a text
  unfoldable pub signature_holds : String → Option String → Bool
  signature_holds text none = false
  signature_holds text (some signature) = signature == lib.mac s.secret text

  -- The three parts of a token
  unfoldable pub parse_parts : List String → W → Result Claims × W
  unfolding read_payload signature_holds unsigned
  parse_parts (header ∷ payload ∷ signature ∷ []) w =
      if not (signature_holds (unsigned header payload) (lib.decode signature))
      then (err (Error.external "invalid token signature"), w)
      else read_payload (lib.decode payload) w
  parse_parts parts w = (err (Error.external "malformed token"), w)

  -- `Service.Parse`
  unfoldable pub parse : String → W → Result Claims × W
  unfolding parse_parts
  parse token = parse_parts (split_dots token)

  unfoldable pub bearer : Option String → W → Result Claims × W
  unfolding parse
  bearer none w = (err (Error.external "missing bearer token"), w)
  bearer (some token) w = parse token w

  -- `Service.Middleware`: the text of the `Authorization` header, and what the next handler's context
  -- gets; an error is a response 401.
  unfoldable pub authenticate : String → W → Result Caller × W
  unfolding bearer
  authenticate authorization w =
      let (claims, w') = bearer (after_prefix "Bearer " authorization) w in
      (claims >>= λ c. ok (some c.subject), w')

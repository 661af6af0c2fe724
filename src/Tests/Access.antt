-- ===== src/Tests/Access.antt =====
-- Tokens and secured requests at concrete data, with an encoding that escapes dots.
use Prim.Native.Char.{Char, code}
use Prim.Native.String.{String as Text, ◌++◌}
use text.Mathlib.TextEquality.{Char-path}
use prediction_market.Base.{
  [], ◌∷◌, ◌≡◌, ◌↔◌, refl, sym, ap, subst, arith, String, Bool, true, false, ◌&&◌, Option, none,
  some, ◌==◌, eq_string, nat_eq, nat_eq_iff, if◌then◌else◌, Bool-cases, inl, inr,
}
use prediction_market.Int.{pos, int_eq, int_eq_iff, int64, ◌+ℤ◌}
use prediction_market.Ledger.{Error, Side}
use prediction_market.Result.{Result, ok, err}
use prediction_market.Machine.{Machine}
use prediction_market.Wal.Replay.{quiet}
use prediction_market.Auth.{
  Claims, Library, AuthService, issuer_name, sign, signed, parse, authenticate,
}
use prediction_market.Auth.Text.{has_dot, is_dot}
use prediction_market.Auth.Tokens.{
  IsStandard, IsGenuine, parse-IsGenuine, authenticate-sign, claims_at,
}
use prediction_market.Auth.{login, login_row}
use prediction_market.Auth.Login.{IsLogin, login-IsLogin}
use prediction_market.Hub.{new_hub}
use prediction_market.Server.Types.{Server, State}
use prediction_market.Server.Api.{Moment, service_api}
use prediction_market.Trading.Batch.Queue.{empty_queue}
use prediction_market.Server.Routes.{
  SecuredRequest, get_balance, post_order, serve_secured, dispatch,
}
use prediction_market.Server.Own.{Served, serve_secured-Served}
use prediction_market.Server.Latched.{IsRefused, dispatch-latched}
use prediction_market.Tests.{request, funded, machine_of}

abbrev dot : Char
dot = Char.char 46 tt

abbrev flag : Char
flag = Char.char 100 tt

abbrev plain : Char
plain = Char.char 99 tt

-- Two characters for each: a dot is "dd", and any other follows a "c".
escape : Text → Text
escape Text.[] = Text.[]
escape (Text.◌∷◌ c s) =
    let rest = escape s in
    if is_dot c then Text.◌∷◌ flag (Text.◌∷◌ flag rest) else Text.◌∷◌ plain (Text.◌∷◌ c rest)

abbrev then_char : Char → Option Text → Option Text
then_char c none = none
then_char c (some s) = some (Text.◌∷◌ c s)

unescape : Text → Option Text
unescape Text.[] = some Text.[]
unescape (Text.◌∷◌ c Text.[]) = none
unescape (Text.◌∷◌ c (Text.◌∷◌ d s)) =
    let rest = unescape s in if nat_eq (code c) 100 then then_char dot rest else then_char d rest

unescape-escape : (s : Text) → unescape (escape s) ≡ some s
unfolding escape unescape
unescape-escape Text.[] = refl
unescape-escape (Text.◌∷◌ c s) = elim (Bool-cases (is_dot c)) [
  | inl here ↦
      rw (here, unescape-escape s)
        (ap (λ x. some (Text.◌∷◌ x s)) (Char-path dot c (sym ((nat_eq_iff (code c) 46).0 here))))
  | inr other ↦ rw (other, unescape-escape s) refl
]

escape_dots : (s : Text) → has_dot (escape s) ≡ false
unfolding escape has_dot
escape_dots Text.[] = refl
escape_dots (Text.◌∷◌ c s) = elim (Bool-cases (is_dot c)) [
  | inl here ↦ rw (here, escape_dots s) refl
  | inr other ↦ rw (other, escape_dots s) (rw other refl)
]

-- The one user's claims, made at time 0
abbrev alice : Claims
alice = claims_at "alice" (pos 86400)

abbrev same_claims : Claims → Bool
same_claims c = c.subject == "alice" && (c.issuer == issuer_name && int_eq c.expiry (pos 86400))

abbrev library : Library (Unit {0})
library = record {
  trim_space = λ s. s;
  to_lower = λ s. s;
  encode = escape;
  decode = unescape;
  mac = λ key message. key;
  header = "HS256";
  marshal = λ c. if same_claims c then ok "claims" else err (Error.external "json");
  unmarshal = λ t. if t == "claims" then some alice else none;
  now = λ w. (pos 0, w);
  new_id = λ w. ("alice", w);
  hash_password = λ password w. (ok password, w);
  password_matches = λ hash password. hash == password;
  insert_user = λ id email username hash w. (none, w);
  find_user = λ email w. (none, w);
}

marshal_claims :
    (b : Bool) (c : Claims) (t : String)
    → same_claims c ≡ b
    → Path (Result String) (if b then ok "claims" else err (Error.external "json")) (ok t)
    → (if t == "claims" then some alice else none) ≡ some c
marshal_claims true c t same h =
    let text : "claims" ≡ t = cc in
    let this : alice ≡ c = ground (
      arith,
      eq_string.equals_iff c.subject "alice",
      eq_string.equals_iff c.issuer issuer_name,
      int_eq_iff c.expiry (pos 86400),
    ) in
    subst (λ (x : String). (if x == "claims" then some alice else none) ≡ some c) text
      (ap some this)
marshal_claims false c t same h = absurd (ground arith)

library-IsStandard : IsStandard library
library-IsStandard = record {
  decode-encode = unescape-escape;
  encode_dots = escape_dots;
  unmarshal-marshal = λ c t h. marshal_claims (same_claims c) c t refl h;
}

abbrev signing : AuthService
signing = record { secret = "0123456789abcdef"; ttl = pos 86400 }

abbrev token : String
token = signed library signing "claims"

parse-IsGenuine_example :
    (parse library signing token tt ≡ (ok alice, tt)) ↔ IsGenuine library signing token alice tt
parse-IsGenuine_example = parse-IsGenuine library signing token alice tt

token_made : sign library signing "alice" tt ≡ (ok token, tt)
unfolding sign int64 ◌+ℤ◌
token_made = refl

authenticate-sign_example :
    authenticate library signing ("Bearer " ++ token) tt ≡ (ok (some "alice"), tt)
unfolding int64 ◌+ℤ◌
authenticate-sign_example =
    authenticate-sign library signing library-IsStandard "alice" token tt tt tt refl token_made refl

-- Batches of 32 orders, and another client's order in the batch
abbrev busy : Moment
busy = record {
  order_batch_size = pos 32;
  context = none;
  queue = empty_queue;
  ahead = request ∷ [];
  behind = [];
  context_taken = none;
  context_waiting = none;
}

abbrev site : Server (Machine (Unit {0})) (Unit {0})
site = record {
  trading = some (service_api quiet busy);
  engine = none;
  quotes = none;
  auth = some (library, signing);
  database = none;
  new_id = λ w. ("o9", w);
  trim_space = λ s. s;
  to_lower = λ s. s;
}

abbrev idle : State (Machine (Unit {0})) (Unit {0})
idle = record { service = machine_of funded; hub = new_hub; world = tt }

-- A request for another user's balance
serve_secured-Served_example :
    Served site library signing
      ("Bearer " ++ token)
      (get_balance "bob")
      idle
      (serve_secured site ("Bearer " ++ token) (get_balance "bob") idle)
serve_secured-Served_example =
    serve_secured-Served site library signing ("Bearer " ++ token) (get_balance "bob") idle refl

abbrev broken : Error
broken = Error.recovery_required (Error.external "disk full")

abbrev stopped : State (Machine (Unit {0})) (Unit {0})
stopped = record idle { service = machine_of (record funded { failure = some broken }) }

abbrev order_one : SecuredRequest
order_one = post_order (
    some (record {
      id = "o7";
      user_id = "alice";
      market_id = "m1";
      side = Side.buy_yes;
      price = pos 60;
      quantity = pos 1;
    }))

dispatch-latched_example :
    IsRefused order_one stopped.service stopped.hub (dispatch site (some "alice") order_one stopped)
dispatch-latched_example =
    dispatch-latched quiet busy site broken (some "alice") order_one stopped refl refl

-- A table with one user
abbrev registered : Library (Unit {0})
registered = record library {
  find_user = λ email w. (if email == "a@b.c" then some ("alice", "password") else none, w);
}

registered-IsStandard : IsStandard registered
registered-IsStandard = record {
  decode-encode = unescape-escape;
  encode_dots = escape_dots;
  unmarshal-marshal = λ c t h. marshal_claims (same_claims c) c t refl h;
}

logged_in : login registered signing "a@b.c" "password" tt ≡ (ok ("alice", token), tt)
unfolding login login_row sign int64 ◌+ℤ◌
logged_in = refl

login-IsLogin_example : IsLogin registered signing "a@b.c" "password" "alice" token tt
login-IsLogin_example =
    login-IsLogin registered signing registered-IsStandard "a@b.c" "password" "alice" token tt tt
      logged_in

-- ===== src/Load/Client.antt =====
-- The requests of go-backend/cmd/loadtest/main.go: the setup of a run, one order of a worker, and the check of the
-- accounts. A run is over a state `W` of the server and the clock, and what they answer is not restricted. An index out
-- of range, where Go panics, is an error here.
use Prim.Native.String.{◌++◌}
use prediction_market.Base.{
  ℕ, zero, suc, ◌*◌, String, Bool, true, false, List, [], ◌∷◌, Option, none, some, nat_eq, ◌==◌,
  ◌||◌, eq_string, if◌then◌else◌,
}
use prediction_market.Int.{ℤ, eq_int}
use prediction_market.Ledger.{Error}
use prediction_market.Result.{Result, ok, err}

pub record Identity : Type 0 where
  pub id : String
  pub token : String

pub record LoadOrder : Type 0 where
  pub id : String
  pub market : String
  pub side : String
  pub price : ℤ
  pub quantity : ℤ

-- What is sent: nothing, or what is made JSON
pub data Payload : Type 0 where
  nothing : Payload
  registration : (email username password : String) → Payload
  market : (id symbol : String) → Payload
  deposit : (cents : ℤ) → Payload
  place : LoadOrder → Payload

pub record HttpRequest : Type 0 where
  pub method : String
  pub url : String
  pub authorization : String
  pub payload : Payload

pub record HttpResponse : Type 0 where
  pub status : ℕ
  pub body : Result String

pub record Shares : Type 0 where
  pub yes : ℤ
  pub no : ℤ

-- What the generator calls of `net/http`, `encoding/json`, `strconv` and `time`, with the server behind it. An exchange
-- is `client.Do`, and a body what `io.ReadAll` gives.
pub record Outside (W : Type 0) : Type 0 where
  pub new_request : HttpRequest → Option Error
  pub exchange : HttpRequest → W → Result HttpResponse × W
  pub read_identity : String → Result Identity
  pub read_cents : String → Result ℤ
  pub read_shares : String → Result Shares
  pub read_order_id : String → Result String
  pub itoa : ℕ → String
  pub now : W → ℕ
  pub error_text : Error → String

abbrev pub Steps : Type 0 → Type 0 → Type 0
Steps W A = W → Result A × W

module _ {W A B : Type 0} where
  abbrev pub then_go : Result A × W → (A → Steps W B) → Result B × W
  then_go (ok a, w) f = f a w
  then_go (err e, w) f = (err e, w)

  infixl 5 ◌>>=◌ ◌>>◌
  abbrev pub ◌>>=◌ : Steps W A → (A → Steps W B) → Steps W B
  ◌>>=◌ n f w = then_go (n w) f

  abbrev pub ◌>>◌ : Steps W A → Steps W B → Steps W B
  n >> k = n >>= λ _. k

module _ {W A : Type 0} where
  abbrev pub give : A → Steps W A
  give a w = (ok a, w)

  abbrev pub raise : Error → Steps W A
  raise e w = (err e, w)

  abbrev pub give_result : Result A → Steps W A
  give_result r w = (r, w)

-- `if bad { return an error }`
abbrev pub require : {W : Type 0} → Bool → String → Steps W (Unit {0})
require true what w = (ok tt, w)
require false what w = (err (Error.external what), w)

-- The header of a request with a token
abbrev pub bearer_of : String → String
bearer_of token = if token == "" then "" else "Bearer " ++ token

abbrev pub first_token : List Identity → String
first_token [] = ""
first_token (u ∷ us) = u.token

module _ {W : Type 0} (o : Outside W) where
  -- `resp.StatusCode != want`, and the reading of the answer
  unfoldable pub read_answer : {A : Type 0} → ℕ → (String → Result A) → HttpResponse → Result A
  read_answer want read r = elim r.body [
    | err e ↦ err e
    | ok body ↦ if nat_eq r.status want then read body else err (Error.external "unexpected status")
  ]

  unfoldable pub send_request :
      {A : Type 0} → HttpRequest → ℕ → (String → Result A) → Option Error → Steps W A
  unfolding read_answer
  send_request r want read (some e) = raise e
  send_request r want read none = do
    answer ← o.exchange r
    give_result (read_answer want read answer)

  -- `request`
  unfoldable pub request :
      {A : Type 0} → (method url token : String) → Payload → ℕ → (String → Result A) → Steps W A
  unfolding send_request
  request method url token payload want read =
      let r : HttpRequest = record {
        method = method;
        url = url;
        authorization = bearer_of token;
        payload = payload;
      } in
      send_request r want read (o.new_request r)

  abbrev pub no_answer : String → Result (Unit {0})
  no_answer body = ok tt

  abbrev checked_identity : Identity → Steps W Identity
  checked_identity u =
      if u.id == "" || u.token == ""
      then raise (Error.external "invalid registration response")
      else give u

  unfoldable pub register_user : String → String → ℕ → Steps W Identity
  unfolding request
  register_user base stamp i =
      let name = "load-" ++ stamp ++ "-" ++ o.itoa i in
      request "POST" (base ++ "/api/v1/users/register") ""
        (registration (name ++ "@example.com") name "benchmark-password") 201 o.read_identity
      >>= checked_identity

  -- The loop that registers the users, `left` of them from number i
  unfoldable pub register_users : String → String → (left i : ℕ) → Steps W (List Identity)
  unfolding register_user
  register_users base stamp zero i = give []
  register_users base stamp (suc left) i =
      let rest = register_users base stamp left (suc i) in
      register_user base stamp i >>= λ u. rest >>= λ us. give (u ∷ us)

  unfoldable pub create_market : String → String → (token : String) → ℕ → Steps W String
  unfolding request
  create_market base stamp token i =
      let id = "load-" ++ stamp ++ "-" ++ o.itoa i in
      request "POST" (base ++ "/api/v1/markets") token
        (market id ("LOAD_" ++ stamp ++ "_" ++ o.itoa i)) 201 no_answer
      >> give id

  -- The loop that creates the markets
  unfoldable pub create_markets :
      String → String → (token : String) → (left i : ℕ) → Steps W (List String)
  unfolding create_market
  create_markets base stamp token zero i = give []
  create_markets base stamp token (suc left) i =
      let rest = create_markets base stamp token left (suc i) in
      create_market base stamp token i >>= λ id. rest >>= λ ids. give (id ∷ ids)

  -- The loop that gives each user the funding
  unfoldable pub fund_users : String → ℤ → List Identity → Steps W (Unit {0})
  unfolding request
  fund_users base funding [] = give tt
  fund_users base funding (u ∷ us) =
      let rest = fund_users base funding us in
      request "POST" (base ++ "/api/v1/balances/deposit") u.token (deposit funding) 204 no_answer
      >> rest

  -- The setup of `runMarkets`
  unfoldable pub set_up : String → String → Bool → ℕ → ℤ → Steps W (List Identity × List String)
  unfolding register_users create_markets fund_users
  set_up base stamp separate markets funding = do
    users ← register_users base stamp (if separate then 2 * markets else 2) 0
    ids ← create_markets base stamp (first_token users) markets 0
    fund_users base funding users
    give (users, ids)

-- ===== src/Server/Types.antt =====
-- The requests and the responses of go-backend/internal/server/routes.go, and the parts of `Server`.
use prediction_market.Base.{ℕ, String, Bool, Option, none, some, List}
use prediction_market.Int.{ℤ}
use prediction_market.Ledger.{Error, Market, Order, Position, Side}
use prediction_market.Result.{Result}
use prediction_market.Trading.Quotes.{MarketQuote}
use prediction_market.Trading.Batch.Queue.{EnqueueError}
use prediction_market.Auth.{Library, AuthService}
use prediction_market.Hub.{Hub, Quote}

-- The bodies of requests
pub record MarketRequest : Type 0 where
  pub id : String
  pub symbol : String

pub record OrderRequest : Type 0 where
  pub id : String
  pub user_id : String
  pub market_id : String
  pub side : Side
  pub price : ℤ
  pub quantity : ℤ

pub record DepositRequest : Type 0 where
  pub user_id : String
  pub cents : ℤ

pub record CredentialsRequest : Type 0 where
  pub email : String
  pub username : String
  pub password : String

pub record EngineOrderRequest : Type 0 where
  pub symbol : String
  pub price : ℤ
  pub quantity : ℕ
  pub side : String

-- An error of `Place`: the service's, or the order queue's.
pub data PlaceError : Type 0 where
  service : Error → PlaceError
  queue : EnqueueError → PlaceError

pub data Body : Type 0 where
  empty : Body
  -- `http.Error` with a text, and with the text of an error
  text : String → Body
  failed : Error → Body
  not_placed : PlaceError → Body
  user_token : (id token : String) → Body
  market_created : MarketRequest → Body
  order_placed : (id : String) → Body
  cents : ℤ → Body
  shares : Position → Body
  order : Order → Body
  market : Market → Body
  markets : List Market → Body
  quote : Quote → Body
  engine_order : ℕ → Body
  health : (up durable redis engine : Bool) → Body

pub record Response : Type 0 where
  pub status : ℕ
  pub body : Body

abbrev pub respond : ℕ → Body → Response
respond status body = record { status = status; body = body }

-- What the handlers call of `trading.Service`, over its state.
pub record TradingApi (S : Type 0) : Type 0 where
  pub create_market_for : String → String → String → S → Option Error × S
  pub place : Order → S → Option PlaceError × S
  pub cancel : String → String → S → Option Error × S
  pub deposit : String → ℤ → S → Option Error × S
  pub resolve_for : String → Bool → String → S → Option Error × S
  pub quote : String → S → Result MarketQuote × S
  pub balance : String → S → ℤ
  pub position : String → String → S → Position
  pub order : String → S → Option Order
  pub market : String → S → Option Market
  pub markets : S → List Market
  pub health_error : S → Option Error

-- `engine.Gateway`; `ready` is the optional interface that the health check looks for.
pub record Gateway (W : Type 0) : Type 0 where
  pub add_order : EngineOrderRequest → W → Result ℕ × W
  pub best_bid : String → W → Result ℤ × W
  pub best_ask : String → W → Result ℤ × W
  pub ready : Option (W → Option Error × W)

-- `cache.RedisQuotes`
pub record QuoteCache (W : Type 0) : Type 0 where
  pub set_versioned : String → Quote → W → Result Bool × W
  pub get : String → W → Result Quote × W
  pub ping : W → Option Error × W

-- `Server`; a part that is nil is none.
pub record Server (S W : Type 0) : Type 0 where
  pub trading : Option (TradingApi S)
  pub engine : Option (Gateway W)
  pub quotes : Option (QuoteCache W)
  pub auth : Option (Library W × AuthService)
  -- whether the database answers that it is up, if there is one
  pub database : Option (W → Bool × W)
  -- `uuid.NewString`, `strings.TrimSpace`, `strings.ToLower`
  pub new_id : W → String × W
  pub trim_space : String → String
  pub to_lower : String → String

-- What the handlers change
pub record State (S W : Type 0) : Type 0 where
  pub service : S
  pub hub : Hub
  pub world : W

abbrev pub Handler : Type 0 → Type 0 → Type 0
Handler S W = State S W → Response × State S W

module _ {S W : Type 0} where
  -- `http.Error(w, …); return`, and a response that changes nothing
  abbrev pub reply : ℕ → Body → Handler S W
  reply status body st = (respond status body, st)

  -- `if s.trading == nil { http.Error(w, "trading unavailable", 503); return }`
  abbrev pub with_trading : Option (TradingApi S) → (TradingApi S → Handler S W) → Handler S W
  with_trading none next = reply 503 (Body.text "trading unavailable")
  with_trading (some api) next = next api

  -- `if Decode(&req) != nil { http.Error(w, …, 400); return }`
  abbrev pub with_body : {A : Type 0} → Option A → String → (A → Handler S W) → Handler S W
  with_body none message next = reply 400 (Body.text message)
  with_body (some a) message next = next a

  -- `userID, err := auth.RequireOwner(…); if err != nil { http.Error(w, …, 403); return }`
  abbrev pub with_owner : Result String → (String → Handler S W) → Handler S W
  with_owner (Result.err e) next = reply 403 (Body.failed e)
  with_owner (Result.ok user) next = next user

  -- The end of a handler whose call of the service gives an error or nil
  abbrev pub after_call : (Error → Response) → Response → Option Error × S → Handler S W
  after_call bad good (none, s) st = (good, record st { service = s })
  after_call bad good (some e, s) st = (bad e, record st { service = s })

-- ===== src/Server/Routes.antt =====
-- `registerRoutes` of go-backend/internal/server/routes.go: which handler a request gets, and which
-- requests go through the authentication.
use prediction_market.Base.{String, Option, none, some}
use prediction_market.Result.{Result, ok, err}
use prediction_market.Auth.{Library, AuthService, Caller, authenticate}
use prediction_market.Server.Types.{
  MarketRequest, OrderRequest, DepositRequest, Body, Server, Handler, respond,
}
use prediction_market.Server.Handlers.{
  create_market_handler, durable_order_handler, deposit_handler, balance_handler, position_handler,
  order_handler, cancel_order_handler, resolve_market_handler,
}

-- The routes under `r.With(secured)`, with their parameters and bodies
pub data SecuredRequest : Type 0 where
  post_market : Option MarketRequest → SecuredRequest
  post_order : Option OrderRequest → SecuredRequest
  get_order : (id : String) → SecuredRequest
  delete_order : (id user : String) → SecuredRequest
  post_deposit : Option DepositRequest → SecuredRequest
  get_balance : (user : String) → SecuredRequest
  get_position : (user market : String) → SecuredRequest
  post_resolve : (id : String) → (outcome : Option String) → SecuredRequest

module _ {S W : Type 0} (server : Server S W) where
  -- The handler of a route, for a caller
  unfoldable pub dispatch : Caller → SecuredRequest → Handler S W
  unfolding create_market_handler durable_order_handler deposit_handler balance_handler
      position_handler order_handler cancel_order_handler resolve_market_handler
  dispatch caller (post_market body) = create_market_handler server caller body
  dispatch caller (post_order body) = durable_order_handler server caller body
  dispatch caller (get_order id) = order_handler server caller id
  dispatch caller (delete_order id user) = cancel_order_handler server caller id user
  dispatch caller (post_deposit body) = deposit_handler server caller body
  dispatch caller (get_balance user) = balance_handler server caller user
  dispatch caller (get_position user market) = position_handler server caller user market
  dispatch caller (post_resolve id outcome) = resolve_market_handler server caller id outcome

  -- `secured`, after the middleware
  abbrev pub as_caller : SecuredRequest → Result Caller × W → Handler S W
  as_caller r (ok caller, w) st = dispatch caller r (record st { world = w })
  as_caller r (err e, w) st = (respond 401 (Body.failed e), record st { world = w })

  abbrev pub through : Option (Library W × AuthService) → String → SecuredRequest → Handler S W
  through none authorization r st = dispatch none r st
  through (some (lib, auth)) authorization r st =
      as_caller r (authenticate lib auth authorization st.world) st

  -- A secured request with its `Authorization` header
  unfoldable pub serve_secured : String → SecuredRequest → Handler S W
  unfolding dispatch authenticate
  serve_secured = through server.auth

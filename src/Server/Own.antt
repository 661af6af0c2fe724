-- ===== src/Server/Own.antt =====
-- Whom the secured requests of go-backend/internal/server/routes.go act for.
use prediction_market.Base.{
  ◌≡◌, ◌⊎◌, inl, inr, refl, sym, arith, String, true, false, not, ◌&&◌, ◌||◌, Option, none, some,
  ◌==◌, eq_string, equals_refl, subst, if◌then◌else◌, Bool-cases,
}
use prediction_market.Int.{pos}
use prediction_market.Ledger.{Error, Order, zero_order, zero_position}
use prediction_market.Result.{Result, ok, err, ◌>>=◌}
use prediction_market.Auth.{
  Claims, Library, AuthService, user_id, require_owner, bearer, parse, authenticate,
}
use prediction_market.Auth.Text.{after_prefix}
use prediction_market.Auth.Tokens.{IsGenuine, IsGenuine-parse}
use prediction_market.Server.Types.{
  OrderRequest, Body, Response, respond, TradingApi, Server, State, Handler, with_trading,
  with_body, with_owner,
}
use prediction_market.Server.Handlers.{
  create_market_handler, durable_order_handler, deposit_handler, balance_handler, position_handler,
  order_handler, cancel_order_handler, resolve_market_handler, place_as, show_order, after_place,
  published,
}
use prediction_market.Server.Routes.{
  SecuredRequest, post_market, post_order, get_order, delete_order, post_deposit, get_balance,
  get_position, post_resolve, dispatch, as_caller, through, serve_secured,
}

-- Another user's order, of which nothing but its user is left
abbrev pub own_part : String → Order → Order
own_part id o =
    if o.user_id == "" || o.user_id == id then o else record zero_order { user_id = o.user_id }

-- The service as far as it is one user's: a call for another user does nothing.
unfoldable pub restricted : {S : Type 0} → String → TradingApi S → TradingApi S
restricted id api = record api {
  create_market_for = λ market symbol owner s.
      if owner == id then api.create_market_for market symbol owner s else (none, s);
  place = λ o s. if o.user_id == id then api.place o s else (none, s);
  cancel = λ order user s. if user == id then api.cancel order user s else (none, s);
  deposit = λ user cents s. if user == id then api.deposit user cents s else (none, s);
  resolve_for =
      λ market won owner s. if owner == id then api.resolve_for market won owner s else (none, s);
  balance = λ user s. if user == id then api.balance user s else pos 0;
  position = λ user market s. if user == id then api.position user market s else zero_position;
  order = λ order s. elim (api.order order s) [ none ↦ none | some o ↦ some (own_part id o) ];
}

abbrev pub restricted_server : {S W : Type 0} → String → Server S W → Server S W
restricted_server id server = record server {
  trading = elim server.trading [ none ↦ none | some api ↦ some (restricted id api) ];
}

-- A caller is let act for one user only.
require_owner-own :
    (id requested : String)
    → (id == "") ≡ false
    → (require_owner (some id) requested ≡ ok id)
      ⊎ ((e : Error) × (require_owner (some id) requested ≡ err e))
unfolding require_owner user_id
require_owner-own id requested named =
    elim (Bool-cases (not (requested == "") && not (requested == id))) [
      | inl other ↦ inr (Error.external "resource belongs to another user", rw (named, other) refl)
      | inr own ↦ inl (rw (named, own) refl)
    ]

-- Nor to see what is another user's.
require_owner-other :
    (id requested : String)
    → (id == "") ≡ false
    → (requested == "" || requested == id) ≡ false
    → (e : Error) × (require_owner (some id) requested ≡ err e)
unfolding require_owner user_id
require_owner-other id requested named other =
    let denied : (not (requested == "") && not (requested == id)) ≡ true = ground arith in
    (Error.external "resource belongs to another user", rw (named, denied) refl)

with_owner-own :
    {S W : Type 0} (id requested : String) (f g : String → Handler S W) (st : State S W)
    → (id == "") ≡ false
    → f id st ≡ g id st
    → with_owner (require_owner (some id) requested) f st
      ≡ with_owner (require_owner (some id) requested) g st
with_owner-own id requested f g st named same = elim (require_owner-own id requested named) [
  | inl let_in ↦ rw let_in same
  | inr (e, refused) ↦ rw refused refl
]

with_body-own :
    {S W A : Type 0} (body : Option A) (message : String) (f g : A → Handler S W) (st : State S W)
    → ((a : A) → f a st ≡ g a st)
    → with_body body message f st ≡ with_body body message g st
with_body-own none message f g st same = refl
with_body-own (some a) message f g st same = same a

with_trading-own :
    {S W : Type 0} (id : String) (t : Option (TradingApi S)) (f g : TradingApi S → Handler S W)
    (st : State S W)
    → ((api : TradingApi S) → f api st ≡ g (restricted id api) st)
    → with_trading t f st
      ≡ with_trading (elim t [ none ↦ none | some api ↦ some (restricted id api) ]) g st
with_trading-own id none f g st same = refl
with_trading-own id (some api) f g st same = same api

module _ {S W : Type 0} (server : Server S W) (id : String) (named : (id == "") ≡ false) where
  own : id == id ≡ true
  own = equals_refl id

  place_as-own :
      (api : TradingApi S) (req : OrderRequest) (order : String) (st : State S W)
      → place_as server api (some id) req order st
        ≡ place_as (restricted_server id server) (restricted id api) (some id) req order st
  unfolding place_as restricted after_place published
  place_as-own api req order st = with_owner-own id req.user_id _ _ st named (rw own refl)

  show_order-own :
      (found : Option Order) (st : State S W)
      → show_order server (some id) found st
        ≡ show_order
            (restricted_server id server)
            (some id)
            (elim found [ none ↦ none | some o ↦ some (own_part id o) ])
            st
  unfolding show_order
  show_order-own none st = refl
  show_order-own (some o) st = elim (Bool-cases (o.user_id == "" || o.user_id == id)) [
    | inl mine ↦ rw mine refl
    | inr other ↦
        let (e, refused) = require_owner-other id o.user_id named other in rw (other, refused) refl
  ]

  dispatch-own :
      (r : SecuredRequest) (st : State S W)
      → dispatch server (some id) r st ≡ dispatch (restricted_server id server) (some id) r st
  unfolding dispatch restricted create_market_handler user_id deposit_handler balance_handler
      position_handler cancel_order_handler resolve_market_handler order_handler
      durable_order_handler
  dispatch-own (post_market body) st =
      with_trading-own id server.trading _ _ st
        (λ api. with_body-own body "id and symbol are required" _ _ st (λ req. rw own refl))
  dispatch-own (post_order body) st = with_trading-own id server.trading _ _ st (λ api.
      with_body-own body "invalid order" _ _ st (λ req.
        rw
          (
            place_as-own api req (server.new_id st.world).0
                (record st { world = (server.new_id st.world).1 }),
            place_as-own api req req.id st,
          )
          refl))
  dispatch-own (get_order order) st =
      with_trading-own id server.trading _ _ st
        (λ api. show_order-own (api.order order st.service) st)
  dispatch-own (delete_order order user) st =
      with_trading-own id server.trading _ _ st
        (λ api. with_owner-own id user _ _ st named (rw own refl))
  dispatch-own (post_deposit body) st = with_trading-own id server.trading _ _ st (λ api.
      with_body-own body "invalid deposit" _ _ st
        (λ req. with_owner-own id req.user_id _ _ st named (rw own refl)))
  dispatch-own (get_balance user) st =
      with_trading-own id server.trading _ _ st
        (λ api. with_owner-own id user _ _ st named (rw own refl))
  dispatch-own (get_position user market) st =
      with_trading-own id server.trading _ _ st
        (λ api. with_owner-own id user _ _ st named (rw own refl))
  dispatch-own (post_resolve market outcome) st =
      with_trading-own id server.trading _ _ st
        (λ api. with_body-own outcome "outcome must be yes or no" _ _ st (λ won. rw own refl))

module _ {S W : Type 0} (server : Server S W) where
  -- How a server with authentication ends a secured request: it is refused, or its token is genuine
  -- and names a user, and all that it reads or changes of the trading service is that user's.
  pub data Served (lib : Library W) (auth : AuthService) (authorization : String)
      (r : SecuredRequest) (st : State S W) : Response × State S W → Type 0 where
    refused :
        (e : Error) (w : W)
        → Served lib auth authorization r st (respond 401 (Body.failed e), record st { world = w })
    let_in :
        (token : String) (c : Claims) (w : W)
        → after_prefix "Bearer " authorization ≡ some token
        → IsGenuine lib auth token c st.world
        → Served lib auth authorization r st (
            dispatch
              (restricted_server c.subject server)
              (some c.subject)
              r
              (record st { world = w }))

  module _ (lib : Library W) (auth : AuthService) (authorization : String) (r : SecuredRequest)
      (st : State S W) where
    parsed-Served :
        (token : String) (x : Result Claims × W)
        → after_prefix "Bearer " authorization ≡ some token
        → parse lib auth token st.world ≡ x
        → Served lib auth authorization r st
            (as_caller server r (x.0 >>= λ c. ok (some c.subject), x.1) st)
    parsed-Served token (ok c, w) found read =
        let genuine = IsGenuine-parse lib auth token c st.world w read in
        rw (dispatch-own server c.subject genuine.named r (record st { world = w }))
          (let_in token c w found genuine)
    parsed-Served token (err e, w) found read = refused e w

    found-Served :
        (found : Option String)
        → after_prefix "Bearer " authorization ≡ found
        → Served lib auth authorization r st (
            as_caller server r
              (
                (bearer lib auth found st.world).0 >>= λ c. ok (some c.subject),
                (bearer lib auth found st.world).1,
              )
              st)
    unfolding bearer
    found-Served none h = refused _ _
    found-Served (some token) h = parsed-Served token (parse lib auth token st.world) h refl

-- With authentication, a secured request ends in a response 401 that changes neither the trading
-- service nor the hub, or its bearer token is genuine and not expired, and the handler does what it
-- would do with a service in which every operation for a user other than the token's does nothing and
-- every read of another user's account or order shows nothing.
pub serve_secured-Served :
    {S W : Type 0} (server : Server S W) (lib : Library W) (auth : AuthService)
    (authorization : String) (r : SecuredRequest) (st : State S W)
    → server.auth ≡ some (lib, auth)
    → Served server lib auth authorization r st (serve_secured server authorization r st)
unfolding serve_secured authenticate
serve_secured-Served {W = W} server lib auth authorization r st here =
    subst
      (λ (a : Option (Library W × AuthService)).
        Served server lib auth authorization r st (through server a authorization r st))
      (sym here)
      (found-Served server lib auth authorization r st (after_prefix "Bearer " authorization) refl)

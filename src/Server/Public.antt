-- ===== src/Server/Public.antt =====
-- The handlers of go-backend/internal/server/routes.go that need no caller: the users' accounts, the
-- orders of a server without a trading service, quotes and health.
use prediction_market.Base.{
  ℕ, String, Bool, true, false, not, ◌&&◌, ◌||◌, Option, none, some, ◌==◌, eq_string, if◌then◌else◌,
  nat_eq,
}
use prediction_market.Int.{ℤ, pos, ltb_ℤ}
use prediction_market.Ledger.{Error}
use prediction_market.Result.{Result, ok, err}
use prediction_market.Trading.Quotes.{MarketQuote}
use prediction_market.Auth.{Library, AuthService, register, login}
use prediction_market.Hub.{Quote}
use prediction_market.Server.Types.{
  CredentialsRequest, EngineOrderRequest, Body, respond, TradingApi, Gateway, QuoteCache, Server,
  Handler, reply, with_body,
}

abbrev zero_quote : Quote
zero_quote = record { sequence = 0; bid = pos 0; ask = pos 0 }

module _ {S W : Type 0} (server : Server S W) where
  abbrev pub after_auth : ℕ → ℕ → Result (String × String) × W → Handler S W
  after_auth good bad (ok (id, token), w) st =
      (respond good (Body.user_token id token), record st { world = w })
  after_auth good bad (err e, w) st = (respond bad (Body.failed e), record st { world = w })

  unfoldable pub register_handler :
      Library W × AuthService → Option CredentialsRequest → Handler S W
  unfolding register
  register_handler (lib, auth) body = with_body body "invalid registration" (λ req st.
      after_auth 201 400 (register lib auth req.email req.username req.password st.world) st)

  unfoldable pub login_handler : Library W × AuthService → Option CredentialsRequest → Handler S W
  unfolding login
  login_handler (lib, auth) body =
      with_body body "invalid login"
        (λ req st. after_auth 200 401 (login lib auth req.email req.password st.world) st)

  -- `if s.engine == nil { …; return }`
  abbrev pub with_engine : Option (Gateway W) → (Gateway W → Handler S W) → Handler S W
  with_engine none next = reply 503 (Body.text "matching engine is unavailable")
  with_engine (some engine) next = next engine

  abbrev pub after_engine : Result ℕ × W → Handler S W
  after_engine (ok id, w) st = (respond 201 (Body.engine_order id), record st { world = w })
  after_engine (err e, w) st =
      (respond 502 (Body.text "matching engine rejected order"), record st { world = w })

  -- The check of the symbol, the price and the quantity
  unfoldable pub is_bad_order : EngineOrderRequest → Bool
  is_bad_order req =
      server.trim_space req.symbol == ""
      || ltb_ℤ req.price (pos 1)
      || ltb_ℤ (pos 99) req.price
      || nat_eq req.quantity 0

  unfoldable pub place_order_handler : Option EngineOrderRequest → Handler S W
  unfolding is_bad_order
  place_order_handler body = with_engine server.engine (λ engine.
      with_body body "invalid order payload" (λ req st.
        let side = server.to_lower req.side in
        if is_bad_order req
        then (
          respond 400 (Body.text "symbol, price (1-99), and positive quantity are required"),
          st,
        )
        else if not (side == "buy") && not (side == "sell")
        then (respond 400 (Body.text "side must be buy or sell"), st)
        else after_engine
            (engine.add_order (record req { symbol = server.trim_space req.symbol; side = side })
              st.world)
            st))

  -- `SetVersioned` or `Set`, whose answers `quoteHandler` does not read
  unfoldable pub remember_quote : Option (QuoteCache W) → String → Quote → W → W
  remember_quote none symbol value w = w
  remember_quote (some cache) symbol value w = (cache.set_versioned symbol value w).1

  -- The quote of the service
  unfoldable pub after_snapshot : String → Result MarketQuote × S → Handler S W
  unfolding remember_quote
  after_snapshot symbol (err e, s) st =
      (respond 503 (Body.text "quote snapshot unavailable"), record st { service = s })
  after_snapshot symbol (ok q, s) st =
      let value : Quote = record { sequence = q.sequence; bid = q.bid; ask = q.ask } in
      (
        respond 200 (Body.quote value),
        record st { service = s; world = remember_quote server.quotes symbol value st.world },
      )

  -- The quote of a server without a trading service, when the best bid is known
  unfoldable pub after_bid : Gateway W → String → Result ℤ × W → Handler S W
  unfolding remember_quote
  after_bid engine symbol (err e, w) st =
      (respond 502 (Body.text "matching engine unavailable"), record st { world = w })
  after_bid engine symbol (ok bid, w) st =
      let (asked, w') = engine.best_ask symbol w in
      elim asked [
        | err e ↦ (respond 502 (Body.text "matching engine unavailable"), record st { world = w' })
        | ok ask ↦
            let value : Quote = record zero_quote { bid = bid; ask = ask } in
            (
              respond 200 (Body.quote value),
              record st { world = remember_quote server.quotes symbol value w' },
            )
      ]

  unfoldable pub fresh_quote : Gateway W → Option (TradingApi S) → String → Handler S W
  unfolding after_snapshot after_bid
  fresh_quote engine (some api) symbol st = after_snapshot symbol (api.quote symbol st.service) st
  fresh_quote engine none symbol st = after_bid engine symbol (engine.best_bid symbol st.world) st

  -- The answer of Redis, if there is Redis
  unfoldable pub after_cache : Gateway W → String → Result Quote × W → Handler S W
  unfolding fresh_quote
  after_cache engine symbol (ok value, w) st =
      (respond 200 (Body.quote value), record st { world = w })
  after_cache engine symbol (err e, w) st =
      fresh_quote engine server.trading symbol (record st { world = w })

  unfoldable pub ask_cache : Option (QuoteCache W) → String → W → Result Quote × W
  ask_cache none symbol w = (err (Error.external "no cache"), w)
  ask_cache (some cache) symbol w = cache.get symbol w

  unfoldable pub quote_handler : String → Handler S W
  unfolding after_cache ask_cache
  quote_handler symbol =
      with_engine server.engine
        (λ engine st. after_cache engine symbol (ask_cache server.quotes symbol st.world) st)

  unfoldable pub hello_handler : Handler S W
  hello_handler = reply 200 (Body.text "Prediction Market Exchange")

  -- A part of the health check that is not configured is healthy.
  unfoldable pub probe : Option (W → Option Error × W) → W → Bool × W
  probe none w = (true, w)
  probe (some check) w = let (e, w') = check w in (elim e [ none ↦ true | some _ ↦ false ], w')

  unfoldable pub is_durable : Option (TradingApi S) → S → Bool
  is_durable none s = true
  is_durable (some api) s = elim (api.health_error s) [ none ↦ true | some _ ↦ false ]

  abbrev pub ready_of : Option (Gateway W) → Option (W → Option Error × W)
  ready_of none = none
  ready_of (some engine) = engine.ready

  abbrev pub ping_of : Option (QuoteCache W) → Option (W → Option Error × W)
  ping_of none = none
  ping_of (some cache) = some cache.ping

  abbrev pub check_health : Option (W → Bool × W) → Handler S W
  check_health none st = (respond 503 (Body.text "database unavailable"), st)
  check_health (some database) st =
      let (up, w) = database st.world in
      let durable = is_durable server.trading st.service in
      let (redis, w') = probe (ping_of server.quotes) w in
      let (engine, w'') = probe (ready_of server.engine) w' in
      (
        respond (if up && durable && redis && engine then 200 else 503)
            (Body.health up durable redis engine),
        record st { world = w'' },
      )

  unfoldable pub health_handler : Handler S W
  unfolding probe is_durable
  health_handler = check_health server.database

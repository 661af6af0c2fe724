-- ===== src/Server/Handlers.antt =====
-- The handlers that call the trading service, in the order of go-backend/internal/server/routes.go.
use prediction_market.Base.{
  ℕ, String, Bool, true, false, not, ◌&&◌, ◌||◌, Option, none, some, List, [], ◌∷◌, ◌==◌, eq_string,
  if◌then◌else◌,
}
use prediction_market.Ledger.{Error, Market, Order, zero_order}
use prediction_market.Result.{Result, ok, err}
use prediction_market.Trading.Quotes.{MarketQuote}
use prediction_market.Trading.Batch.Queue.{queue_full, context_error}
use prediction_market.Auth.{Caller, user_id, require_owner}
use prediction_market.Hub.{Message, Quote, Payload, publish}
use prediction_market.Server.Types.{
  MarketRequest, OrderRequest, DepositRequest, PlaceError, Body, Response, respond, TradingApi,
  QuoteCache, Server, State, Handler, reply, with_trading, with_body, with_owner, after_call,
}

-- The codes of `Place`'s errors: the service is stopped, its queue is full, or the time is up.
unfoldable pub is_unavailable : PlaceError → Bool
is_unavailable (PlaceError.service (Error.recovery_required e)) = true
is_unavailable (PlaceError.service (Error.external e)) =
    e == "context deadline exceeded" || e == "context canceled"
is_unavailable (PlaceError.queue queue_full) = true
is_unavailable (PlaceError.queue (context_error e)) = true
is_unavailable _ = false

abbrev pub place_status : PlaceError → ℕ
place_status e = if is_unavailable e then 503 else 400

-- The errors of `ResolveFor`
abbrev pub resolve_status : Error → Response
resolve_status Error.not_market_owner = respond 403 (Body.failed Error.not_market_owner)
resolve_status e = respond 404 (Body.failed e)

-- The order of `durableOrderHandler`
abbrev pub requested_order : OrderRequest → String → String → Order
requested_order req id user = record zero_order {
  id = id;
  user_id = user;
  market_id = req.market_id;
  side = req.side;
  price = req.price;
  quantity = req.quantity;
}

abbrev pub market_channel : String → String
market_channel id = Prim.Native.String.◌++◌ "market:" id

module _ {S W : Type 0} (server : Server S W) where
  -- `s.hub.Publish(m)`, and then the rest; `Recoverer` answers a panic.
  unfoldable pub published : Message → Handler S W → Handler S W
  published m next st = elim (publish m st.hub) [
    | none ↦ (respond 500 Body.empty, st)
    | some hub ↦ next (record st { hub = hub })
  ]

  unfoldable pub create_market_handler : Caller → Option MarketRequest → Handler S W
  unfolding user_id
  create_market_handler caller body = with_trading server.trading (λ api.
      with_body body "id and symbol are required" (λ req st.
        if req.id == "" || server.trim_space req.symbol == ""
        then (respond 400 (Body.text "id and symbol are required"), st)
        else after_call (λ e. respond 409 (Body.failed e)) (respond 201 (Body.market_created req))
            (api.create_market_for req.id req.symbol (user_id caller).0 st.service) st))

  -- The end of `durableOrderHandler`
  unfoldable pub after_place : OrderRequest → String → Option PlaceError × S → Handler S W
  unfolding is_unavailable published
  after_place req id (some e, s) st =
      (respond (place_status e) (Body.not_placed e), record st { service = s })
  after_place req id (none, s) st =
      published
        (record {
          channel = market_channel req.market_id;
          kind = "order";
          payload = Payload.order_id id;
        })
        (reply 201 (Body.order_placed id)) (record st { service = s })

  -- `durableOrderHandler`, with the order's id
  unfoldable pub place_as : TradingApi S → Caller → OrderRequest → String → Handler S W
  unfolding require_owner after_place
  place_as api caller req id =
      with_owner (require_owner caller req.user_id)
        (λ user st. after_place req id (api.place (requested_order req id user) st.service) st)

  unfoldable pub durable_order_handler : Caller → Option OrderRequest → Handler S W
  unfolding place_as
  durable_order_handler caller body = with_trading server.trading (λ api.
      with_body body "invalid order" (λ req st.
        let (fresh, w) = server.new_id st.world in
        if req.id == ""
        then place_as api caller req fresh (record st { world = w })
        else place_as api caller req req.id st))

  unfoldable pub deposit_handler : Caller → Option DepositRequest → Handler S W
  unfolding require_owner
  deposit_handler caller body = with_trading server.trading (λ api.
      with_body body "invalid deposit" (λ req.
        with_owner (require_owner caller req.user_id) (λ user st.
          after_call (λ e. respond 400 (Body.failed e)) (respond 204 Body.empty)
            (api.deposit user req.cents st.service) st)))

  unfoldable pub balance_handler : Caller → String → Handler S W
  unfolding require_owner
  balance_handler caller requested = with_trading server.trading (λ api.
      with_owner (require_owner caller requested)
        (λ user st. (respond 200 (Body.cents (api.balance user st.service)), st)))

  unfoldable pub position_handler : Caller → String → String → Handler S W
  unfolding require_owner
  position_handler caller requested market_id = with_trading server.trading (λ api.
      with_owner (require_owner caller requested)
        (λ user st. (respond 200 (Body.shares (api.position user market_id st.service)), st)))

  unfoldable pub show_order : Caller → Option Order → Handler S W
  unfolding require_owner
  show_order caller none = reply 404 (Body.text "order not found")
  show_order caller (some o) =
      with_owner (require_owner caller o.user_id) (λ user. reply 200 (Body.order o))

  unfoldable pub order_handler : Caller → String → Handler S W
  unfolding show_order
  order_handler caller id =
      with_trading server.trading (λ api st. show_order caller (api.order id st.service) st)

  unfoldable pub show_market : Option Market → Handler S W
  show_market none = reply 404 (Body.text "market not found")
  show_market (some m) = reply 200 (Body.market m)

  unfoldable pub market_handler : String → Handler S W
  unfolding show_market
  market_handler id =
      with_trading server.trading (λ api st. show_market (api.market id st.service) st)

  unfoldable pub markets_handler : Handler S W
  markets_handler =
      with_trading server.trading
        (λ api st. (respond 200 (Body.markets (api.markets st.service)), st))

  unfoldable pub cancel_order_handler : Caller → String → String → Handler S W
  unfolding require_owner
  cancel_order_handler caller id requested = with_trading server.trading (λ api.
      with_owner (require_owner caller requested) (λ user st.
        after_call (λ e. respond 400 (Body.failed e)) (respond 204 Body.empty)
          (api.cancel id user st.service) st))

  unfoldable pub resolve_market_handler : Caller → String → Option String → Handler S W
  unfolding user_id
  resolve_market_handler caller id body = with_trading server.trading (λ api.
      with_body body "outcome must be yes or no" (λ outcome st.
        if not (outcome == "yes") && not (outcome == "no")
        then (respond 400 (Body.text "outcome must be yes or no"), st)
        else after_call resolve_status (respond 204 Body.empty)
            (api.resolve_for id (outcome == "yes") (user_id caller).0 st.service) st))

  -- One quote of `publishQuotes`: Redis takes it, or it is dropped.
  unfoldable pub publish_accepted : MarketQuote → Quote → Result Bool → State S W → State S W
  unfolding published
  publish_accepted q value (ok true) st =
      (published
        (record {
          channel = market_channel q.market_id;
          kind = "quote";
          payload = Payload.quote value;
        })
        (reply 200 Body.empty) st).1
  publish_accepted q value (ok false) st = st
  publish_accepted q value (err e) st = st

  unfoldable pub store_quote : Option (QuoteCache W) → String → Quote → W → Result Bool × W
  store_quote none symbol value w = (ok true, w)
  store_quote (some cache) symbol value w = cache.set_versioned symbol value w

  unfoldable pub publish_quotes : List MarketQuote → State S W → State S W
  unfolding publish_accepted store_quote
  publish_quotes [] st = st
  publish_quotes (q ∷ qs) st =
      let value : Quote = record { sequence = q.sequence; bid = q.bid; ask = q.ask } in
      let (accepted, w) = store_quote server.quotes q.symbol value st.world in
      publish_quotes qs (publish_accepted q value accepted (record st { world = w }))

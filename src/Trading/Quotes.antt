-- ===== src/Trading/Quotes.antt =====
-- go-backend/internal/trading/quotes.go: the quotes that follow a commit, and `Service.Quote`.
-- The callback `PublishQuotes` is outside: an operation returns the quotes that it publishes.
use prediction_market.Base.{
  ℕ, String, Bool, true, false, Option, none, some, List, [], ◌∷◌, ◌==◌, if◌then◌else◌, get_or,
  eq_string,
}
use prediction_market.Int.{ℤ, negsuc}
use prediction_market.Dict
use prediction_market.Dict.{Dict}
use prediction_market.Ledger.{Service, Market, Error, zero_market, is_open}
use prediction_market.Result.{Result, ok, err}
use prediction_market.Machine.{
  Action, Backend, EngineQuote, pure, raise, gets, call, raise_some, ◌>>=◌, ◌>>◌,
}

pub record MarketQuote : Type 0 where
  pub market_id : String
  pub symbol : String
  pub bid : ℤ
  pub ask : ℤ
  pub sequence : ℕ

-- `s.markets[id]`, the zero market if there is none
unfoldable pub market_of : Service → String → Market
market_of s id = get_or (Dict.lookup id s.markets) zero_market

abbrev pub market_quote : String → String → EngineQuote → ℕ → MarketQuote
market_quote id symbol q sequence = record {
  market_id = id;
  symbol = symbol;
  bid = q.bid;
  ask = q.ask;
  sequence = sequence;
}

-- The quote of a market that takes no orders.
abbrev pub closed_quote : String → String → ℕ → MarketQuote
closed_quote id symbol sequence = record {
  market_id = id;
  symbol = symbol;
  bid = negsuc 0;
  ask = negsuc 0;
  sequence = sequence;
}

unfoldable pub quotes_by_symbol :
    Dict String EngineQuote → List EngineQuote → Dict String EngineQuote
quotes_by_symbol known [] = known
quotes_by_symbol known (q ∷ qs) = quotes_by_symbol (Dict.insert q.symbol q known) qs

unfoldable pub contains : String → List String → Bool
contains id [] = false
contains id (x ∷ xs) = if x == id then true else contains id xs

-- The market of a symbol, as the loops over `s.markets` find it.
unfoldable pub market_with_symbol : String → Dict String Market → Option (String × Market)
market_with_symbol symbol [] = none
market_with_symbol symbol ((id, m) ∷ markets) =
    if m.symbol == symbol then some (id, m) else market_with_symbol symbol markets

module _ {W : Type 0} (be : Backend W) where
  -- The optional interface `QuoteEngine` of an engine that may be nil.
  abbrev pub quote_engine : Option (String → W → Result EngineQuote × W)
  quote_engine = elim be.engine [ none ↦ none | some e ↦ e.quote ]

  -- The engine's quote of a symbol; an error is none.
  unfoldable pub ask_engine : String → Action W (Option EngineQuote)
  ask_engine symbol = elim quote_engine [
    | none ↦ pure none
    | some ask ↦ λ m.
        let (r, w) = ask symbol m.world in
        (ok (elim r [ ok q ↦ some q | err _ ↦ none ]), record m { world = w })
  ]

  -- The quote of a market: one that came with the batch, or else the engine's.
  unfoldable pub read_quote : Dict String EngineQuote → String → Action W (Option EngineQuote)
  read_quote supplied symbol = elim (Dict.lookup symbol supplied) [
    | some q ↦ pure (some q)
    | none ↦ ask_engine symbol
  ]

  -- The loop of `readQuotes`; a market is read once.
  unfoldable pub read_each :
      Dict String EngineQuote → List String → List String → Action W (List MarketQuote)
  read_each supplied seen [] = pure []
  read_each supplied seen (id ∷ ids) =
      let skip = read_each supplied seen ids in
      let rest = read_each supplied (id ∷ seen) ids in
      if contains id seen then skip else do
        s ← gets (λ s. s)
        q ← read_quote supplied (market_of s id).symbol
        quotes ← rest
        pure (elim q [
          | none ↦ quotes
          | some found ↦ market_quote id (market_of s id).symbol found s.sequence ∷ quotes
        ])

  -- `Service.readQuotes`
  unfoldable pub read_quotes : List String → List EngineQuote → Action W (List MarketQuote)
  read_quotes markets supplied = read_each (quotes_by_symbol [] supplied) [] markets

  unfoldable pub open_quote : String → String → ℕ → Action W MarketQuote
  open_quote symbol id sequence = elim quote_engine [
    | none ↦ raise Error.quote_unavailable
    | some ask ↦ do q ← call (ask symbol); pure (market_quote id symbol q sequence)
  ]

  unfoldable pub quote_market : String → String × Market → Action W MarketQuote
  quote_market symbol (id, m) = do
    sequence ← gets (λ s. s.sequence)
    if is_open m.status
        then open_quote symbol id sequence
        else pure (closed_quote id symbol sequence)

  -- `Service.Quote`
  unfoldable pub quote : String → Action W MarketQuote
  quote symbol = do
    raise_some (← gets (λ s. s.failure))
    s ← gets (λ s. s)
    elim (market_with_symbol symbol s.markets) [
      | none ↦ raise Error.market_not_found
      | some found ↦ quote_market symbol found
    ]

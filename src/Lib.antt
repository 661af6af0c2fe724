-- ===== src/Lib.antt =====
-- The backend of the prediction market, go-backend/internal: the trading service, and the server,
-- the authentication, the database's projection and the fan-out of messages around it.
--
-- Users deposit cash, place orders on the YES and NO shares of markets, cancel them, and are paid
-- when a market is resolved. A matching engine outside the service reports fills. Every change is
-- a batch of events that goes to a write-ahead log, then to a database through a projector, and
-- then into memory; a restart replays the log.
--
-- Files, and the code that they are about (in go-backend/internal/trading):
--   Base, Int, Dict, Result, Sort: shared names, Go's machine integers over integers without
--     bounds, maps as association lists, results, and the order of texts.
--   Ledger and Ledger/Types: the types of service.go, `Service`, and `apply` (`apply_all` is the
--     loop over a batch). Ledger/Effects, Ledger/Sequence and Ledger/Range are proofs about it.
--   Machine: the world of a method. Machine/Files has the log files, the snapshot, the engine, the
--     projector and the other answers from outside; Machine/Steps the monad of the methods, in
--     which what was changed before an error stays changed, and `fail`.
--   Wal: `next`, `appendMany`, `commitMany`, `project`, `replayFile`, `loadSnapshot` and
--     `NewWithConfig` of service.go. Wal/Replay reads the files without an outside world,
--     Wal/Restart and Wal/Faultless compare the two, Wal/Numbers is about sequence numbers and
--     Wal/Durability about commits.
--   Orders: `translate`, `isBuy` and `prepareOrder`. Orders/Admission is about which orders are
--     admitted, Orders/Reservation, Orders/Stake and Orders/Overdraft about what is taken for them.
--   Trades: `buildTradeEvents` and `fillEvents`. Trades/Accounting, Trades/Totals and
--     Trades/Conservation are about the cash and the shares that they move.
--   Trading: the operations. Trading/Quotes is quotes.go, Trading/Accounts `CreateMarketFor`,
--     `Deposit` and `Cancel`, Trading/Place `placeSingle` and `applyTrades`, Trading/Resolve
--     `ResolveFor`, Trading/Recover `RecoverEngine`. Trading/Batch is order_batch.go: the admission
--     of a batch, Trading/Batch/Commit the rest of `placeBatchWithQuotes`, and Trading/Batch/Queue
--     `enqueue` and `drainOrders`. Trading/Latch lists the requests, and Trading/Work
--     these with the batches and the snapshots. Trading/Retry, Trading/Payout, Trading/Release
--     and Trading/Batch/Fifo are proofs about them; Trading/Batch/Solvency is about the cash and the
--     shares that a batch reserves, with Solvent (what the loop counts), Grown (one order more) and
--     Reserved (the loop's tests) beside it.
--   Checkpoint: checkpoint.go, as the three steps between which commits may come.
--     Checkpoint/Safety is about what a restart rebuilds in its course, Checkpoint/Freeze about
--     `freezeCheckpoint`, Wal/Covered about lines that a state has counted already.
--   Trading/Durable and Wal/Spends: proofs that the operations keep the files and the memory
--     together.
--   Trading/Views: the reads of the state and the checks of `NewWithConfig`.
--   Auth (go-backend/internal/auth/service.go): registration, login and tokens. Auth/Text is Go's
--     `strings.Split`, `HasPrefix` and `TrimPrefix`; Auth/Tokens is about which tokens are taken,
--     Auth/Login about whom a login lets in.
--   Hub (go-backend/internal/ws/hub.go): subscriptions and `Publish`; Hub/Channels,
--     Hub/Subscribers, Hub/Sound and Hub/Safety are proofs about it.
--   Cache (go-backend/internal/cache/redis.go): the script that stores a quote; Cache/Decimal is
--     about its comparison of sequence numbers.
--   Projector (go-backend/internal/store/projector.go): `ApplyBatch` as statements on tables.
--     Projector/Once is about batches sent again, Projector/Statements and Projector/Mirror about
--     the tables of the accounts.
--   Router (go-backend/internal/engine): Router/Adapter is `TradingAdapter` of adapter.go and
--     batch.go, Router/Scatter `AddOrders` of router.go over several engines, Router/Single the
--     calls for one symbol of client.go and router.go, Router/Start `NewRouter` and `Close`;
--     Router/Places, Router/Counted, Router/Gather, Router/Routed, Router/Owned and Router/Opened
--     are proofs.
--   Metrics (go-backend/internal/metrics/metrics.go): the counters, and `Observe` as atomic
--     operations that calls take in turns; Metrics/Lockfree, Metrics/Totals, Metrics/Maximum and
--     Metrics/Observed are proofs about it.
--   Load (go-backend/cmd/loadtest/main.go): Load/Jobs the orders of the load generator, Load/Client
--     its requests and the setup, Load/Check `verifyMarkets`, Load/Report percentiles, windows and
--     sums, Load/Run `runMarkets`. Load/Shares, Load/Checks, Load/Walk, Load/Accounted,
--     Load/Verified, Load/Rank, Load/Added and Load/Windows are proofs about them.
--   Server (go-backend/internal/server): of routes.go, Server/Types has the requests, the responses
--     and the interfaces, Server/Handlers the handlers of the trading service and `publishQuotes`,
--     Server/Public the others, Server/Routes the secured routes. Server/Api gives the handlers the
--     service of Trading, with `Place`, which takes an order by itself or through the queue;
--     Server/Own and Server/Latched are proofs. Of `NewServer` (server.go), Server/Settings is what
--     it reads of the environment, with the proof Server/Accepted, and Server/Lifecycle the
--     periodic snapshots and the shutdown, as moves of two goroutines, with the proofs
--     Server/Stopped and Server/Stopping.
--   Tests and its children: runs at concrete data.
--
-- An operation is a function from a machine (the service, its files, the outside world) to a
-- result and a machine. The engine, the projector, the ids of `uuid`, the length of the encoded
-- JSON and the way a write to a file ends are parameters, functions on an outside world of any
-- type. Locks are not modelled: an operation that holds the service's lock is one step. Loops over
-- lists are structural recursion, so there is no fuel. A `range` over a map takes the entries in
-- the order of the association list. Amounts, quantities and sequence numbers wrap round as in Go.
--
-- A handler takes a request as the router and the JSON decoder have read it; what it changes is the
-- service, the hub and the outside (Redis, the engines, the users' table). A library's function
-- (base64, HMAC, JSON, bcrypt, uuid, the clock, Unicode's tables) is a field of a record.
--
-- The loop that feeds the load generator's workers has a number of rounds as fuel and stops by a
-- test that is an argument, the number of orders or the clock; its theorems hold for any of both.
--
-- Not modelled: the text of the log and of the snapshot (a line is what `encoding/json` makes of
-- it), clocks and `observe`, the callback of published quotes (an operation returns them), the file
-- handle that `Close` closes, the statements of `Migrate`, the calls with which `NewServer` starts
-- the parts, the calls of the Redis client, the text that `ServeHTTP` of the metrics prints, the
-- flags and the rates of the load generator and what it reads of `/metrics`, and the command that
-- serves the API.
pub mod Base
pub mod Int
pub mod Dict
pub mod Ledger
pub mod Result
pub mod Machine
pub mod Wal
pub mod Sort
pub mod Orders
pub mod Trades
pub mod Trading
pub mod Checkpoint
pub mod Auth
pub mod Hub
pub mod Router
pub mod Cache
pub mod Projector
pub mod Server
pub mod Metrics
pub mod Load
pub mod Tests

-- ===== src/Server.antt =====
-- The HTTP handlers of go-backend/internal/server/routes.go. A handler takes a request as the router
-- and `encoding/json` have read it (none for a body that does not decode) and gives the response and
-- what it leaves behind: the trading service's state, the hub, and the outside (the engines, Redis, the
-- users' database). Types has the requests, the responses and the interfaces, Handlers and Public the
-- handlers, Routes the secured routes, and Api the trading service behind the handlers. Own is about
-- whom a request acts for, Latched about a service that has stopped. Settings and Lifecycle are
-- `NewServer` of server.go: the environment, and the snapshots with the shutdown.
pub mod Types
pub mod Handlers
pub mod Public
pub mod Routes
pub mod Own
pub mod Api
pub mod Latched
pub mod Lifecycle
pub mod Stopped
pub mod Stopping
pub mod Settings
pub mod Accepted

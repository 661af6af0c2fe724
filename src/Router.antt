-- ===== src/Router.antt =====
-- The clients of the matching engines, go-backend/internal/engine: Adapter is the adapter of adapter.go
-- and batch.go, which turns the service's orders into protobuf messages and back, Scatter the router of
-- router.go over several engines. Places, Counted, Gather and Routed are proofs about a routed batch.
-- An engine is what its generated gRPC client answers, over a state of any type.
pub mod Adapter
pub mod Scatter
pub mod Single
pub mod Owned
pub mod Start
pub mod Opened
pub mod Counted
pub mod Places
pub mod Gather
pub mod Routed

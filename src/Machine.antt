-- ===== src/Machine.antt =====
-- The running backend as explicit state: the service's memory, the files that it keeps, and a
-- world `W` for everything outside (the engines, PostgreSQL, the system). The outside answers
-- through a `Backend`, and what it may answer is not restricted. The interfaces are those of
-- go-backend/internal/trading/service.go (`Engine`, `BatchEngine`, `QuoteEngine`, `Projector`,
-- `BatchProjector`, `Config`); the children are the files and the actions over the state.
mod Files
mod Steps
pub use Files.*
unfoldable pub use Steps.*

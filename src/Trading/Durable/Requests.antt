-- ===== src/Trading/Durable/Requests.antt =====
-- A request to the service of go-backend/internal/trading, from a durable state.
use prediction_market.Base.{arith}
use prediction_market.Machine.{Action, Backend, pure, ◌>>◌}
use prediction_market.Wal.Spends.{IsSized, Spends, Spends-bind, Spends-le, Spends-pure}
use prediction_market.Trading.Latch.{
  Request, create_market, deposit_cents, place_order, cancel_request, resolve_request,
  recover_request, quote_request, handle,
}
use prediction_market.Trading.Durable.{
  Spends-quote, Spends-deposit, Spends-create_market_for, Spends-cancel,
}
use prediction_market.Trading.Durable.Place.{Spends-place_single}
use prediction_market.Trading.Durable.Resolve.{Spends-resolve_for}

-- All requests but `RecoverEngine`, which the server makes once, before it serves any other.
abbrev pub IsServing : Request → Type 0
IsServing (recover_request ctx) = ⊥
IsServing _ = Unit

module _ {W : Type 0} (be : Backend W) (sized : IsSized be) where
  Spends-unit : {A : Type 0} (n : Action W A) → Spends be 2 n → Spends be 2 (n >> pure tt)
  Spends-unit n h = Spends-bind be 2 0 n _ h (λ _. Spends-pure be tt)

  pub Spends-handle : (r : Request) → IsServing r → Spends be 2 (handle be r)
  unfolding handle
  Spends-handle (create_market id symbol owner_id) serving =
      Spends-le be 1 2 _ (omega arith) (Spends-create_market_for be sized id symbol owner_id)
  Spends-handle (deposit_cents user cents) serving =
      Spends-le be 1 2 _ (omega arith) (Spends-deposit be sized user cents)
  Spends-handle (place_order ctx o) serving = Spends-unit _ (Spends-place_single be sized ctx o)
  Spends-handle (cancel_request ctx id user) serving =
      Spends-unit _ (Spends-le be 1 2 _ (omega arith) (Spends-cancel be sized ctx id user))
  Spends-handle (resolve_request ctx id won owner_id) serving =
      Spends-unit _
        (Spends-le be 1 2 _ (omega arith) (Spends-resolve_for be sized ctx id won owner_id))
  Spends-handle (recover_request ctx) serving = absurd serving
  Spends-handle (quote_request symbol) serving =
      Spends-unit _ (Spends-le be 0 2 _ (omega arith) (Spends-quote be symbol))

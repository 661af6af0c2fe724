-- ===== src/Trading/Latch.antt =====
-- The requests that the service of go-backend/internal/trading takes, and what a latched failure
-- (`s.failure`) does to them.
use prediction_market.Base.{
  ◌≡◌, refl, String, Bool, ◌||◌, Bool-cases, inl, inr, none, some, ◌==◌, eq_string,
}
use prediction_market.Int.{ℤ, pos, leb_ℤ}
use prediction_market.Ledger.{Order, Error}
use prediction_market.Result.{err}
use prediction_market.Machine.{Action, Backend, Machine, pure, ◌>>◌}
use prediction_market.Trading.Quotes.{quote}
use prediction_market.Trading.Accounts.{Context, create_market_for, deposit, cancel}
use prediction_market.Trading.Place.{place_single}
use prediction_market.Trading.Resolve.{resolve_for}
use prediction_market.Trading.Recover.{recover_engine}

pub data Request : Type 0 where
  create_market : (id symbol owner_id : String) → Request
  deposit_cents : (user : String) (cents : ℤ) → Request
  place_order : Context → Order → Request
  cancel_request : Context → (id user : String) → Request
  resolve_request : Context → (id : String) (won : Bool) (owner_id : String) → Request
  recover_request : Context → Request
  quote_request : (symbol : String) → Request

module _ {W : Type 0} (be : Backend W) where
  -- The operation that a request calls; the quotes it gives are left out.
  unfoldable pub handle : Request → Action W (Unit {0})
  handle (create_market id symbol owner_id) = create_market_for be id symbol owner_id
  handle (deposit_cents user cents) = deposit be user cents
  handle (place_order ctx o) = place_single be ctx o >> pure tt
  handle (cancel_request ctx id user) = cancel be ctx id user >> pure tt
  handle (resolve_request ctx id won owner_id) = resolve_for be ctx id won owner_id >> pure tt
  handle (recover_request ctx) = recover_engine be ctx >> pure tt
  handle (quote_request symbol) = quote be symbol >> pure tt

  module _ (m : Machine W) (f : Error) (stuck : m.service.failure ≡ some f) where
    -- While a failure is latched, each of these ends in an error and changes nothing; batches and
    -- snapshots are in Work.
    pub handle-latched : (r : Request) → (e : Error) × (handle r m ≡ (err e, m))
    unfolding handle create_market_for deposit place_single cancel resolve_for recover_engine quote
    handle-latched (create_market id symbol owner_id) = (f, rw stuck refl)
    handle-latched (deposit_cents user cents) =
        elim (Bool-cases (user == "" || leb_ℤ cents (pos 0))) [
          | inl bad ↦ (Error.bad_deposit, rw bad refl)
          | inr good ↦ (f, rw (good, stuck) refl)
        ]
    handle-latched (place_order none o) = (f, rw stuck refl)
    handle-latched (place_order (some e) o) = (e, refl)
    handle-latched (cancel_request none id user) = (f, rw stuck refl)
    handle-latched (cancel_request (some e) id user) = (e, refl)
    handle-latched (resolve_request none id won owner_id) = (f, rw stuck refl)
    handle-latched (resolve_request (some e) id won owner_id) = (e, refl)
    handle-latched (recover_request none) = (f, rw stuck refl)
    handle-latched (recover_request (some e)) = (e, refl)
    handle-latched (quote_request symbol) = (f, rw stuck refl)

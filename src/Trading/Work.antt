-- ===== src/Trading/Work.antt =====
-- All that changes the service of go-backend/internal/trading once it runs: the requests, the batches
-- that `drainOrders` takes from the order queue (in which `Place` puts an order if OrderBatchSize is
-- more than 1), and snapshots. Then what a latched failure (`s.failure`) does to them.
use prediction_market.Base.{◌≡◌, refl, ap, Option, some, List, [], ◌∷◌, map}
use prediction_market.Ledger.{Error}
use prediction_market.Result.{Result, error_of}
use prediction_market.Machine.{Action, Backend, Machine}
use prediction_market.Checkpoint.{CheckpointCalls, freeze_checkpoint, checkpoint}
use prediction_market.Trading.Batch.{Placement}
use prediction_market.Trading.Batch.Commit.{place_batch}
use prediction_market.Trading.Latch.{Request, handle, handle-latched}

pub data Work : Type 0 where
  request : Request → Work
  -- the orders of one round of `drainOrders`
  batch : List Placement → Work
  snapshot : Work

module _ {W : Type 0} (be : Backend W) (calls : CheckpointCalls W) where
  abbrev pub answered : {A : Type 0} → Action W A → Machine W → List (Option Error) × Machine W
  answered n m = let (r, m') = n m in (error_of r ∷ [], m')

  -- Each client's answer, nil or an error
  unfoldable pub serve : Work → Machine W → List (Option Error) × Machine W
  serve (request r) m = answered (handle be r) m
  serve (batch requests) m = let (told, m') = place_batch be requests m in (told.0, m')
  serve snapshot m = answered (checkpoint be calls) m

  -- One after another, with the answers left out
  unfoldable pub serve_all : List Work → Machine W → Machine W
  serve_all [] m = m
  serve_all (x ∷ xs) m = serve_all xs (serve x m).1

  -- The same error for every client
  abbrev pub refused : Error → Work → List (Option Error)
  refused e (request r) = some e ∷ []
  refused e (batch requests) = map (λ _. some e) requests
  refused e snapshot = some e ∷ []

  -- While a failure is latched, every request (create a market, deposit, place an order by itself,
  -- cancel, resolve, recover, quote), every batch of orders from the queue and every snapshot is
  -- answered with an error, each order of a batch too, and changes nothing: not the service, not the
  -- files, not the engine or the database.
  pub serve-latched :
      (m : Machine W) (f : Error)
      → m.service.failure ≡ some f
      → (x : Work) → (e : Error) × (serve x m ≡ (refused e x, m))
  unfolding serve place_batch checkpoint freeze_checkpoint
  serve-latched m f stuck (request r) =
      let (e, same) = handle-latched be m f stuck r in
      (e, ap (λ (x : Result (Unit {0}) × Machine W). (error_of x.0 ∷ [], x.1)) same)
  serve-latched m f stuck (batch requests) = (f, rw stuck refl)
  serve-latched m f stuck snapshot = (f, rw stuck refl)

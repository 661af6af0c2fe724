-- ===== src/Tests/Projection.antt =====
-- Events that the tables take, and messages of a hub, at concrete data.
use prediction_market.Base.{ℕ, true, arith, ◌≡◌, refl, Option, none, some, List, [], ◌∷◌}
use prediction_market.Int.{pos, ◌+ℤ◌}
use prediction_market.Dict
use prediction_market.Ledger.{
  Event, Error, apply_all, empty_service, balance, position, user_positions,
}
use prediction_market.Ledger.Range.{InRange}
use prediction_market.Result.{ok}
use prediction_market.Trading.Accounts.{deposit_event}
use prediction_market.Projector.{
  Tables, CommitOutcome, committed, rolled_back, unknown, projected, apply_batch, admit, effects,
  effect, uncovered, change_balance, store_cents, checked, cents, shares, wide_sequence,
}
use prediction_market.Projector.Once.{attempt_all, apply_batch-once}
use prediction_market.Projector.Mirror.{IsMirror, fresh_events, projected-IsMirror}
use prediction_market.Hub.{
  Hub, Message, Payload, new_hub, subscribers_of, subscribe, unsubscribe, end_subscription, publish,
}
use prediction_market.Hub.Subscribers.{Subscribed}
use prediction_market.Hub.Sound.{IsSound, nobody, with, without}
use prediction_market.Hub.Safety.{start, subscribed, unsubscribed, Reached-publish}

abbrev no_rows : Tables
no_rows = record {
  markets = [];
  balances = [];
  orders = [];
  positions = [];
  trades = [];
  order_events = [];
}

abbrev paid : Event
paid = record (deposit_event "alice" (pos 100)) { id = "e1"; sequence = 1 }

abbrev paid_rows : Tables
paid_rows = record no_rows { balances = ("alice", pos 100) ∷ []; order_events = ("e1", paid) ∷ [] }

paid_once : projected (paid ∷ paid ∷ []) no_rows ≡ ok paid_rows
unfolding projected admit effects effect change_balance uncovered store_cents checked cents
    wide_sequence Dict.lookup Dict.insert Dict.delete ◌+ℤ◌
paid_once = refl

-- A commit that is lost, and one that takes place but is reported as an error
abbrev two_attempts : List (Option Error × CommitOutcome)
two_attempts =
    (none, rolled_back (Error.external "connection reset"))
    ∷ (none, unknown (Error.external "timeout"))
    ∷ []

apply_batch-once_example :
    apply_batch none committed
      (paid ∷ paid ∷ [])
      (attempt_all two_attempts (paid ∷ paid ∷ []) no_rows)
    ≡ (none, paid_rows)
apply_batch-once_example =
    apply_batch-once paid (paid ∷ []) no_rows paid_rows two_attempts paid_once

no_rows-IsMirror : IsMirror no_rows empty_service
unfolding cents shares balance position user_positions Dict.lookup
no_rows-IsMirror = record { cash = λ user. refl; held = λ user market. refl }

empty_service-InRange : InRange empty_service
unfolding balance position user_positions Dict.lookup
empty_service-InRange = record {
  cash = λ user. (omega arith, omega arith);
  yes_shares = λ user market. (omega arith, omega arith);
  no_shares = λ user market. (omega arith, omega arith);
}

projected-IsMirror_example :
    IsMirror paid_rows (apply_all empty_service (fresh_events [] (paid ∷ paid ∷ [])))
projected-IsMirror_example =
    projected-IsMirror (paid ∷ paid ∷ []) no_rows paid_rows empty_service
      ((λ moves some_cents. refl), ((λ moves some_cents. refl), tt)) no_rows-IsMirror
      empty_service-InRange paid_once

-- A first subscription, of which the channel is not closed yet, and a second one
abbrev watched : Hub
watched =
    (subscribe "market:m1" (pos 0)
      (unsubscribe "market:m1" 0 (subscribe "market:m1" (pos 0) new_hub).1)).1

first_there : Subscribed "market:m1" 0 (subscribe "market:m1" (pos 0) new_hub).1
unfolding subscribe subscribers_of Dict.lookup Dict.insert
first_there = refl

abbrev news : Message
news = record { channel = "market:m1"; kind = "order"; payload = Payload.order_id "o1" }

Reached-publish_example :
    ((h : Hub) × (publish news watched ≡ some h) × IsSound (with 0 nobody) h)
    × ((ch : ℕ)
        → with 0 nobody ch ≡ true
        → (h : Hub) × (end_subscription ch watched ≡ some h)
          × IsSound (without ch (with 0 nobody)) h)
Reached-publish_example = Reached-publish news watched (
    subscribed "market:m1" (pos 0) _
      (unsubscribed "market:m1" 0 _ first_there (subscribed "market:m1" (pos 0) new_hub start)))

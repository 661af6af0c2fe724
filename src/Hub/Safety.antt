-- ===== src/Hub/Safety.antt =====
-- The hub of go-backend/internal/ws/hub.go after any calls of it: what its channels hold, and that a
-- send finds its channel open.
use prediction_market.Base.{ℕ, ◌≡◌, subst, String, Bool, true, some}
use prediction_market.Int.{ℤ}
use prediction_market.Hub.{
  Hub, Message, new_hub, subscribe, unsubscribe, end_subscription, publish, receive,
}
use prediction_market.Hub.Subscribers.{Subscribed}
use prediction_market.Hub.Sound.{
  IsSound, nobody, with, without, IsSound-new_hub, IsSound-subscribe, IsSound-unsubscribe,
  end_subscription-IsSound, IsSound-receive, publish-IsSound,
}

-- The hubs that any calls lead to, with the channels whose subscriptions are taken out and that are
-- not closed yet: a subscription ends at most once, other calls come between its two parts, and a send
-- or a close that panics leads nowhere.
pub data Reached : (ℕ → Bool) → Hub → Type 0 where
  start : Reached nobody new_hub
  subscribed :
      {leaving : ℕ → Bool} (topic : String) (capacity : ℤ) (h : Hub)
      → Reached leaving h
      → Reached leaving (subscribe topic capacity h).1
  unsubscribed :
      {leaving : ℕ → Bool} (topic : String) (ch : ℕ) (h : Hub)
      → Subscribed topic ch h
      → Reached leaving h
      → Reached (with ch leaving) (unsubscribe topic ch h)
  ended :
      {leaving : ℕ → Bool} (ch : ℕ) (h h' : Hub)
      → leaving ch ≡ true
      → end_subscription ch h ≡ some h'
      → Reached leaving h
      → Reached (without ch leaving) h'
  published :
      {leaving : ℕ → Bool} (m : Message) (h h' : Hub)
      → publish m h ≡ some h'
      → Reached leaving h
      → Reached leaving h'
  received :
      {leaving : ℕ → Bool} (ch : ℕ) (h : Hub) → Reached leaving h → Reached leaving (receive ch h)

pub Reached-IsSound : {leaving : ℕ → Bool} {h : Hub} → Reached leaving h → IsSound leaving h
Reached-IsSound start = IsSound-new_hub
Reached-IsSound (subscribed {leaving} topic capacity h r) =
    IsSound-subscribe leaving topic capacity h (Reached-IsSound r)
Reached-IsSound (unsubscribed {leaving} topic ch h s r) =
    IsSound-unsubscribe leaving topic ch h s (Reached-IsSound r)
Reached-IsSound (ended {leaving} ch h h' is_left done r) =
    let (g, same, sound) = end_subscription-IsSound leaving ch h is_left (Reached-IsSound r) in
    subst (λ (x : Hub). IsSound (without ch leaving) x) (cc (done, same)) sound
Reached-IsSound (published {leaving} m h h' done r) =
    let (g, same, sound) = publish-IsSound leaving m h (Reached-IsSound r) in
    subst (λ (x : Hub). IsSound leaving x) (cc (done, same)) sound
Reached-IsSound (received {leaving} ch h r) = IsSound-receive leaving ch h (Reached-IsSound r)

-- In every hub that any calls lead to, `Publish` of any message returns, never sending on a closed
-- channel, and leads to a hub in which each subscriber's channel is open and holds at most its
-- capacity, and the end of each subscription that is taken out closes its channel, which is not
-- closed.
pub Reached-publish :
    {leaving : ℕ → Bool} (m : Message) (h : Hub)
    → Reached leaving h
    → ((h' : Hub) × (publish m h ≡ some h') × IsSound leaving h')
      × ((ch : ℕ)
          → leaving ch ≡ true
          → (h' : Hub) × (end_subscription ch h ≡ some h') × IsSound (without ch leaving) h')
Reached-publish {leaving} m h r =
    let sound = Reached-IsSound r in
    (
      publish-IsSound leaving m h sound,
      λ ch is_left. end_subscription-IsSound leaving ch h is_left sound,
    )

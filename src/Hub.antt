-- ===== src/Hub.antt =====
-- The fan-out of messages to the subscribers of a channel: go-backend/internal/ws/hub.go and http.go.
-- A Go channel is a number that stands for its address, and its buffer. Quote is the value of
-- go-backend/internal/cache/quotes.go that a message may carry, but for its time. Channels,
-- Subscribers, Sound and Safety are proofs about the hub.
pub mod Channels
pub mod Subscribers
pub mod Sound
pub mod Safety
use prediction_market.Base.{
  ℕ, suc, String, Bool, true, false, ◌||◌, Option, none, some, List, [], ◌∷◌, ◌++◌, length, ltb,
  get_or, ◌==◌, eq_string, eq_nat, if◌then◌else◌,
}
use prediction_market.Int.{ℤ, pos, ltb_ℤ, pos_part}
use prediction_market.Dict
use prediction_market.Dict.{Dict}

pub record Quote : Type 0 where
  pub sequence : ℕ
  pub bid : ℤ
  pub ask : ℤ

pub data Payload : Type 0 where
  order_id : String → Payload
  quote : Quote → Payload

pub record Message : Type 0 where
  pub channel : String
  pub kind : String
  pub payload : Payload

-- A Go channel
pub record Chan : Type 0 where
  pub capacity : ℕ
  pub buffer : List Message
  pub closed : Bool

pub record Hub : Type 0 where
  pub subscribers : Dict String (Dict ℕ (Unit {0}))
  pub chans : Dict ℕ Chan
  -- the address of the next channel
  pub next_chan : ℕ

-- `NewHub`
abbrev pub new_hub : Hub
new_hub = record { subscribers = []; chans = []; next_chan = 0 }

unfoldable pub subscribers_of : String → Hub → Dict ℕ (Unit {0})
subscribers_of channel h = get_or (Dict.lookup channel h.subscribers) []

-- `Subscribe`: the channel's address, and the hub
unfoldable pub subscribe : String → ℤ → Hub → ℕ × Hub
unfolding subscribers_of
subscribe channel capacity h =
    let size = if ltb_ℤ capacity (pos 1) then 1 else pos_part capacity in
    let ch = h.next_chan in
    (
      ch,
      record {
        subscribers =
            Dict.insert channel (Dict.insert ch tt (subscribers_of channel h)) h.subscribers;
        chans = Dict.insert ch (record { capacity = size; buffer = []; closed = false }) h.chans;
        next_chan = suc ch;
      },
    )

-- `close(ch)`
abbrev pub close : Chan → Chan
close c = record c { closed = true }

-- none for the panic of a close of a closed channel
unfoldable pub closed_chan : ℕ → Option Chan → Dict ℕ Chan → Option (Dict ℕ Chan)
closed_chan ch none chans = none
closed_chan ch (some c) chans = if c.closed then none else some (Dict.insert ch (close c) chans)

unfoldable pub close_chan : ℕ → Dict ℕ Chan → Option (Dict ℕ Chan)
unfolding closed_chan
close_chan ch chans = closed_chan ch (Dict.lookup ch chans) chans

-- `if len(set) == 0 { delete(h.subscribers, channel) }`
unfoldable pub keep_set :
    String → Dict ℕ (Unit {0}) → Dict String (Dict ℕ (Unit {0})) → Dict String (Dict ℕ (Unit {0}))
keep_set channel [] subscribers = Dict.delete channel subscribers
keep_set channel (x ∷ left) subscribers = Dict.insert channel (x ∷ left) subscribers

unfoldable pub drop_from :
    String
    → ℕ
    → Option (Dict ℕ (Unit {0}))
    → Dict String (Dict ℕ (Unit {0}))
    → Dict String (Dict ℕ (Unit {0}))
unfolding keep_set
drop_from channel ch none subscribers = subscribers
drop_from channel ch (some set) subscribers = keep_set channel (Dict.delete ch set) subscribers

-- The function that `Subscribe` gives to cancel a subscription: its part under the lock, and then
-- `close(ch)`, which is not under the lock
unfoldable pub unsubscribe : String → ℕ → Hub → Hub
unfolding drop_from
unsubscribe channel ch h = record h {
  subscribers = drop_from channel ch (Dict.lookup channel h.subscribers) h.subscribers;
}

unfoldable pub end_subscription : ℕ → Hub → Option Hub
unfolding close_chan
end_subscription ch h = elim (close_chan ch h.chans) [
  | none ↦ none
  | some chans ↦ some (record h { chans = chans })
]

-- `select { case ch <- m: default: }`: none for the panic of a send on a closed channel.
unfoldable pub offer : Message → Option Chan → Option Chan
offer m none = none
offer m (some c) =
    if c.closed
    then none
    else if ltb (length c.buffer) c.capacity
    then some (record c { buffer = c.buffer ++ m ∷ [] })
    else some c

abbrev pub store_chan : ℕ → Option Chan → Dict ℕ Chan → Option (Dict ℕ Chan)
store_chan ch none chans = none
store_chan ch (some c) chans = some (Dict.insert ch c chans)

abbrev pub then_offer :
    Option (Dict ℕ Chan) → (Dict ℕ Chan → Option (Dict ℕ Chan)) → Option (Dict ℕ Chan)
then_offer none f = none
then_offer (some chans) f = f chans

-- The loop over a channel's subscribers
unfoldable pub offer_all : Message → Dict ℕ (Unit {0}) → Dict ℕ Chan → Option (Dict ℕ Chan)
unfolding offer
offer_all m [] chans = some chans
offer_all m ((ch, _) ∷ set) chans =
    then_offer (store_chan ch (offer m (Dict.lookup ch chans)) chans) (offer_all m set)

abbrev pub with_chans : Hub → Option (Dict ℕ Chan) → Option Hub
with_chans h none = none
with_chans h (some chans) = some (record h { chans = chans })

-- `Publish`: none if it panics
unfoldable pub publish : Message → Hub → Option Hub
unfolding offer_all subscribers_of
publish m h = with_chans h (offer_all m (subscribers_of m.channel h) h.chans)

-- The rest of a buffer, after a message is taken out of it
abbrev pub rest_of : List Message → List Message
rest_of [] = []
rest_of (m ∷ left) = left

unfoldable pub receive_from : ℕ → Option Chan → Hub → Hub
receive_from ch none h = h
receive_from ch (some c) h = record h {
  chans = Dict.insert ch (record c { buffer = rest_of c.buffer }) h.chans;
}

-- `<-ch` on a channel with a message in its buffer
unfoldable pub receive : ℕ → Hub → Hub
unfolding receive_from
receive ch h = receive_from ch (Dict.lookup ch h.chans) h

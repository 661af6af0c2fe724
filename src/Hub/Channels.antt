-- ===== src/Hub/Channels.antt =====
-- Sends and receives on the Go channels of go-backend/internal/ws/hub.go.
use prediction_market.Base.{
  ℕ, suc, ◌≤◌, ◌≡◌, refl, sym, ap, ◌∙◌, arith, false, some, List, [], ◌∷◌, ◌++◌, length, ltb, ◌==◌,
  eq_string, eq_nat, equals_refl, Bool-cases, inl, inr,
}
use prediction_market.Dict
use prediction_market.Dict.{Dict, lookup-insert, lookup-delete, lookup-insert_self}
use prediction_market.Hub.{Chan, Message, offer, offer_all, rest_of}

-- A channel is open, and holds at most what it has room for.
pub record IsOpen (ch : ℕ) (chans : Dict ℕ Chan) : Type 0 where
  pub chan : Chan
  pub found : Dict.lookup ch chans ≡ some chan
  pub sending : chan.closed ≡ false
  pub bounded : length chan.buffer ≤ chan.capacity

length-append_one : (ms : List Message) (m : Message) → length (ms ++ m ∷ []) ≡ suc (length ms)
length-append_one [] m = refl
length-append_one (x ∷ ms) m = ap suc (length-append_one ms m)

-- An entry that is open replaces one, and the others stay open.
pub IsOpen-insert :
    (ch : ℕ) (c : Chan) (chans : Dict ℕ Chan)
    → c.closed ≡ false
    → length c.buffer ≤ c.capacity
    → (j : ℕ) → IsOpen j chans
    → IsOpen j (Dict.insert ch c chans)
IsOpen-insert ch c chans sending bounded j o = elim (Bool-cases (ch == j)) [
  | inl same ↦ record {
    chan = c;
    found = rw (lookup-insert ch j c chans, same) refl;
    sending = sending;
    bounded = bounded;
  }
  | inr other ↦ record {
    chan = o.chan;
    found = rw (lookup-insert ch j c chans, other) o.found;
    sending = o.sending;
    bounded = o.bounded;
  }
]

-- A message goes into a buffer with room, and else nowhere.
offer-open :
    (m : Message) (c : Chan)
    → c.closed ≡ false
    → length c.buffer ≤ c.capacity
    → (c' : Chan) × (offer m (some c) ≡ some c')
      × (c'.closed ≡ false)
      × (length c'.buffer ≤ c'.capacity)
unfolding offer
offer-open m c sending bounded = elim (Bool-cases (ltb (length c.buffer) c.capacity)) [
  | inl room ↦ (
    record c { buffer = c.buffer ++ m ∷ [] },
    rw (sending, room) refl,
    sending,
    ground (arith, length-append_one c.buffer m),
  )
  | inr full ↦ (c, rw (sending, full) refl, sending, bounded)
]

later :
    (j ch : ℕ) (u : Unit {0}) (set : Dict ℕ (Unit {0}))
    → Dict.lookup j set ≡ some tt
    → Dict.lookup j ((ch, u) ∷ set) ≡ some tt
unfolding Dict.lookup
later j ch u set h = ground arith

abbrev pub Keeps : Dict ℕ Chan → Dict ℕ Chan → Type 0
Keeps chans chans' = (j : ℕ) → IsOpen j chans → IsOpen j chans'

pub offer_all-open :
    (m : Message) (set : Dict ℕ (Unit {0})) (chans : Dict ℕ Chan)
    → ((j : ℕ) → Dict.lookup j set ≡ some tt → IsOpen j chans)
    → (chans' : Dict ℕ Chan) × (offer_all m set chans ≡ some chans') × Keeps chans chans'
unfolding offer_all Dict.lookup
offer_all-open m [] chans all_open = (chans, refl, λ j o. o)
offer_all-open m ((ch, u) ∷ set) chans all_open =
    let o = all_open ch (rw (equals_refl ch) refl) in
    let (c', taken, sending, bounded) = offer-open m o.chan o.sending o.bounded in
    let keeps = IsOpen-insert ch c' chans sending bounded in
    let (chans', done, keeps') =
      offer_all-open m set (Dict.insert ch c' chans)
        (λ j h. keeps j (all_open j (later j ch u set h))) in
    (chans', rw (o.found, taken) done, λ j o'. keeps' j (keeps j o'))

-- A channel is replaced by one with the same room and no more in it.
pub IsOpen-replace :
    (ch : ℕ) (c c' : Chan) (chans : Dict ℕ Chan)
    → Dict.lookup ch chans ≡ some c
    → c'.closed ≡ c.closed
    → c'.capacity ≡ c.capacity
    → length c'.buffer ≤ length c.buffer
    → (j : ℕ) → IsOpen j chans
    → IsOpen j (Dict.insert ch c' chans)
IsOpen-replace ch c c' chans found closed capacity shorter j o = elim (Bool-cases (ch == j)) [
  | inl same ↦
      let this : o.chan ≡ c = ground (arith, o.found, found, (eq_nat.equals_iff ch j).0 same) in
      record {
        chan = c';
        found = rw (lookup-insert ch j c' chans, same) refl;
        sending = closed ∙ sym (ap (λ x. x.closed) this) ∙ o.sending;
        bounded = omega (
          arith,
          ap (λ x. length x.buffer) this,
          ap (λ x. x.capacity) this,
          o.bounded,
          capacity,
          shorter,
        );
      }
  | inr other ↦ record {
    chan = o.chan;
    found = rw (lookup-insert ch j c' chans, other) o.found;
    sending = o.sending;
    bounded = o.bounded;
  }
]

pub rest_of-shorter : (ms : List Message) → length (rest_of ms) ≤ length ms
rest_of-shorter [] = omega arith
rest_of-shorter (m ∷ ms) = omega arith

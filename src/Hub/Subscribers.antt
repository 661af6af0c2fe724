-- ===== src/Hub/Subscribers.antt =====
-- The subscribers of go-backend/internal/ws/hub.go after a subscription and after the end of one.
use prediction_market.Base.{
  ℕ, ◌≡◌, refl, sym, ap, ◌∙◌, arith, String, Bool, true, false, Option, none, some, [], ◌∷◌, get_or,
  ◌==◌, eq_string, eq_nat, ◌⊎◌, if◌then◌else◌, Bool-cases, inl, inr,
}
use prediction_market.Int.{ℤ}
use prediction_market.Dict
use prediction_market.Dict.{Dict, lookup-insert, lookup-delete, lookup-insert_self}
use prediction_market.Hub.{Hub, subscribers_of, subscribe, unsubscribe, drop_from, keep_set}

-- A channel receives the messages of a topic.
abbrev pub Subscribed : String → ℕ → Hub → Type 0
Subscribed topic ch h = Dict.lookup ch (subscribers_of topic h) ≡ some tt

-- After a subscription: the new channel, or one that was there.
pub Subscribed-subscribe :
    (topic : String) (capacity : ℤ) (h : Hub) (t : String) (j : ℕ)
    → Subscribed t j (subscribe topic capacity h).1
    → ((h.next_chan ≡ j) × (topic ≡ t)) ⊎ Subscribed t j h
unfolding subscribe subscribers_of
Subscribed-subscribe topic capacity h t j s =
    let set = Dict.insert h.next_chan tt (subscribers_of topic h) in
    ground (
      arith,
      lookup-insert topic t set h.subscribers,
      lookup-insert h.next_chan j tt (subscribers_of topic h),
      eq_nat.equals_iff h.next_chan j,
      eq_string.equals_iff topic t,
    )

no_subscriber : (j : ℕ) (set : Dict ℕ (Unit {0})) → set ≡ [] → Dict.lookup j set ≡ some tt → ⊥
unfolding Dict.lookup
no_subscriber j [] empty s = absurd (ground arith)
no_subscriber j (x ∷ set) empty s = absurd (ground arith)

Subscribed-keep_set :
    (topic t : String) (ch j : ℕ) (subs : Dict String (Dict ℕ (Unit {0})))
    (left : Dict ℕ (Unit {0}))
    → Dict.lookup j (get_or (Dict.lookup t (keep_set topic left subs)) []) ≡ some tt
    → Dict.lookup j (if topic == t then left else get_or (Dict.lookup t subs) []) ≡ some tt
unfolding keep_set
Subscribed-keep_set topic t ch j subs [] s = ground (arith, lookup-delete topic t subs)
Subscribed-keep_set topic t ch j subs (x ∷ left) s =
    ground (arith, lookup-insert topic t (x ∷ left) subs)

-- What is left of one topic's subscribers, and the other topics'
Subscribed-rest :
    (b : Bool) (ch j : ℕ) (set rest : Dict ℕ (Unit {0}))
    → (b ≡ true → rest ≡ set)
    → Dict.lookup j (if b then Dict.delete ch set else rest) ≡ some tt
    → (Dict.lookup j rest ≡ some tt) × (((ch == j) ≡ false) ⊎ (b ≡ false))
Subscribed-rest true ch j set rest same s =
    let rest_is_set = same refl in
    elim (Bool-cases (ch == j)) [
      | inl gone ↦ absurd (ground (arith, lookup-delete ch j set, s, gone))
      | inr other ↦ (ground (arith, lookup-delete ch j set, s, other, rest_is_set), inl other)
    ]
Subscribed-rest false ch j set rest same s = (s, inr refl)

Subscribed-drop_from :
    (topic : String) (ch : ℕ) (t : String) (j : ℕ) (subs : Dict String (Dict ℕ (Unit {0})))
    (found : Option (Dict ℕ (Unit {0})))
    → Dict.lookup topic subs ≡ found
    → Dict.lookup j (get_or (Dict.lookup t (drop_from topic ch found subs)) []) ≡ some tt
    → (Dict.lookup j (get_or (Dict.lookup t subs) []) ≡ some tt)
      × (((ch == j) ≡ false) ⊎ ((topic == t) ≡ false))
unfolding drop_from
Subscribed-drop_from topic ch t j subs none found s = elim (Bool-cases (topic == t)) [
  | inl same ↦ absurd (
      no_subscriber j (get_or (Dict.lookup t subs) [])
        (ap (λ x. get_or x [])
          (ap (λ x. Dict.lookup x subs) (sym ((eq_string.equals_iff topic t).0 same)) ∙ found))
        s)
  | inr other ↦ (s, inr other)
]
Subscribed-drop_from topic ch t j subs (some set) found s =
    Subscribed-rest (topic == t) ch j set (get_or (Dict.lookup t subs) [])
      (λ same.
        ap (λ x. get_or x [])
          (ap (λ x. Dict.lookup x subs) (sym ((eq_string.equals_iff topic t).0 same)) ∙ found))
      (Subscribed-keep_set topic t ch j subs (Dict.delete ch set) s)

-- After the end of a subscription: one that was there, but not that one.
pub Subscribed-unsubscribe :
    (topic : String) (ch : ℕ) (h : Hub) (t : String) (j : ℕ)
    → Subscribed t j (unsubscribe topic ch h)
    → Subscribed t j h × (((ch == j) ≡ false) ⊎ ((topic == t) ≡ false))
unfolding unsubscribe subscribers_of
Subscribed-unsubscribe topic ch h t j s =
    Subscribed-drop_from topic ch t j h.subscribers (Dict.lookup topic h.subscribers) refl s

-- ===== src/Hub/Sound.antt =====
-- What holds of the hub of go-backend/internal/ws/hub.go between its calls, and what each call makes
-- of it.
use prediction_market.Base.{
  ℕ, ◌<◌, ◌≡◌, refl, subst, sym, ap, ◌∙◌, arith, String, Bool, true, false, Bool-cases, Option,
  none, some, [], ◌==◌, eq_string, eq_nat, if◌then◌else◌, inl, inr,
}
use prediction_market.Int.{ℤ, pos, ltb_ℤ, pos_part}
use prediction_market.Dict
use prediction_market.Dict.{Dict, lookup-insert, lookup-delete, lookup-insert_self}
use prediction_market.Hub.{
  Hub, Chan, Message, new_hub, subscribers_of, subscribe, unsubscribe, closed_chan, receive_from,
  end_subscription, close_chan, close, publish, receive, rest_of,
}
use prediction_market.Hub.Channels.{
  IsOpen, IsOpen-insert, offer_all-open, IsOpen-replace, rest_of-shorter,
}
use prediction_market.Hub.Subscribers.{Subscribed, Subscribed-subscribe, Subscribed-unsubscribe}

-- Every subscriber's channel is open, was made before, and has one topic. A channel whose subscription
-- is taken out, but which is not closed yet, is open and has no topic.
pub record IsSound (leaving : ℕ → Bool) (h : Hub) : Type 0 where
  pub topic_of : ℕ → String
  pub owned : (topic : String) (ch : ℕ) → Subscribed topic ch h → topic_of ch ≡ topic
  pub made : (topic : String) (ch : ℕ) → Subscribed topic ch h → ch < h.next_chan
  pub open_ : (topic : String) (ch : ℕ) → Subscribed topic ch h → IsOpen ch h.chans
  pub left :
      (ch : ℕ)
      → leaving ch ≡ true
      → (ch < h.next_chan) × ((topic : String) → Subscribed topic ch h → ⊥) × IsOpen ch h.chans

abbrev pub nobody : ℕ → Bool
nobody ch = false

-- With one channel more, and without one
abbrev pub with : ℕ → (ℕ → Bool) → ℕ → Bool
with ch leaving j = if ch == j then true else leaving j

abbrev pub without : ℕ → (ℕ → Bool) → ℕ → Bool
without ch leaving j = if ch == j then false else leaving j

pub IsSound-new_hub : IsSound nobody new_hub
unfolding subscribers_of Dict.lookup
IsSound-new_hub = record {
  topic_of = λ ch. "";
  owned = λ topic ch h. absurd (ground arith);
  made = λ topic ch h. absurd (ground arith);
  open_ = λ topic ch h. absurd (ground arith);
  left = λ ch h. absurd (cc h);
}

pub IsSound-subscribe :
    (leaving : ℕ → Bool) (topic : String) (capacity : ℤ) (h : Hub)
    → IsSound leaving h
    → IsSound leaving (subscribe topic capacity h).1
unfolding subscribe
IsSound-subscribe leaving topic capacity h sound = record {
  topic_of = λ j. if h.next_chan == j then topic else sound.topic_of j;
  owned = λ t j s. elim (Subscribed-subscribe topic capacity h t j s) [
    | inl (new, same) ↦ rw ((eq_nat.equals_iff h.next_chan j).1 new) same
    | inr old ↦ ground (arith, sound.made t j old, sound.owned t j old)
  ];
  made = λ t j s. elim (Subscribed-subscribe topic capacity h t j s) [
    | inl (new, same) ↦ omega (arith, new)
    | inr old ↦ omega (arith, sound.made t j old)
  ];
  open_ = λ t j s. elim (Subscribed-subscribe topic capacity h t j s) [
    | inl (new, same) ↦
        subst (λ (i : ℕ). IsOpen i (subscribe topic capacity h).1.chans) new
          (record {
            chan = record {
              capacity = if ltb_ℤ capacity (pos 1) then 1 else pos_part capacity;
              buffer = [];
              closed = false;
            };
            found = lookup-insert_self h.next_chan _ h.chans;
            sending = refl;
            bounded = omega arith;
          })
    | inr old ↦ IsOpen-insert h.next_chan _ h.chans refl (omega arith) j (sound.open_ t j old)
  ];
  left = λ j is_left.
      let (made, alone, opened) = sound.left j is_left in
      (
        omega (arith, made),
        λ t s. elim (Subscribed-subscribe topic capacity h t j s) [
          | inl (new, same) ↦ absurd (omega (arith, made, new))
          | inr old ↦ alone t old
        ],
        IsOpen-insert h.next_chan _ h.chans refl (omega arith) j opened,
      );
}

pub IsSound-unsubscribe :
    (leaving : ℕ → Bool) (topic : String) (ch : ℕ) (h : Hub)
    → Subscribed topic ch h
    → IsSound leaving h
    → IsSound (with ch leaving) (unsubscribe topic ch h)
unfolding unsubscribe
IsSound-unsubscribe leaving topic ch h subscribed sound = record {
  topic_of = sound.topic_of;
  owned = λ t j s. sound.owned t j (Subscribed-unsubscribe topic ch h t j s).0;
  made = λ t j s. sound.made t j (Subscribed-unsubscribe topic ch h t j s).0;
  open_ = λ t j s. sound.open_ t j (Subscribed-unsubscribe topic ch h t j s).0;
  left = λ j is_left. elim (Bool-cases (ch == j)) [
    | inl this ↦
        let same : ch ≡ j = (eq_nat.equals_iff ch j).0 this in
        (
          omega (arith, same, sound.made topic ch subscribed),
          λ t s.
              let (old, ended) = Subscribed-unsubscribe topic ch h t j s in
              ground (
                arith,
                ended,
                this,
                same,
                sound.owned t j old,
                sound.owned topic ch subscribed,
                eq_string.equals_iff topic t,
              ),
          subst (λ (i : ℕ). IsOpen i h.chans) same (sound.open_ topic ch subscribed),
        )
    | inr other ↦
        let (made, alone, opened) = sound.left j (rw other at is_left) in
        (made, λ t s. alone t (Subscribed-unsubscribe topic ch h t j s).0, opened)
  ];
}

-- A channel that is closed does not concern another.
IsOpen-close :
    (ch j : ℕ) (c : Chan) (chans : Dict ℕ Chan)
    → (ch == j) ≡ false
    → IsOpen j chans
    → IsOpen j (Dict.insert ch (close c) chans)
IsOpen-close ch j c chans other o = record {
  chan = o.chan;
  found = rw (lookup-insert ch j (close c) chans, other) o.found;
  sending = o.sending;
  bounded = o.bounded;
}

closed_chan-open :
    (ch : ℕ) (c : Chan) (chans : Dict ℕ Chan)
    → c.closed ≡ false
    → closed_chan ch (some c) chans ≡ some (Dict.insert ch (close c) chans)
unfolding closed_chan
closed_chan-open ch c chans h =
    ap (λ (b : Bool). if b then none else some (Dict.insert ch (close c) chans)) h

pub end_subscription-IsSound :
    (leaving : ℕ → Bool) (ch : ℕ) (h : Hub)
    → leaving ch ≡ true
    → IsSound leaving h
    → (h' : Hub) × (end_subscription ch h ≡ some h') × IsSound (without ch leaving) h'
unfolding end_subscription close_chan subscribers_of
end_subscription-IsSound leaving ch h is_left sound =
    let (made, alone, o) = sound.left ch is_left in
    (
      record h { chans = Dict.insert ch (close o.chan) h.chans },
      ap
          (λ (x : Option (Dict ℕ Chan)). elim x [
            | none ↦ none
            | some chans ↦ some (record h { chans = chans })
          ])
          (ap (λ (x : Option Chan). closed_chan ch x h.chans) o.found
            ∙ closed_chan-open ch o.chan h.chans o.sending),
      record {
        topic_of = sound.topic_of;
        owned = sound.owned;
        made = sound.made;
        open_ = λ t j s. elim (Bool-cases (ch == j)) [
          | inl this ↦ absurd (
              alone t
                (subst (λ (i : ℕ). Subscribed t i h) (sym ((eq_nat.equals_iff ch j).0 this)) s))
          | inr other ↦ IsOpen-close ch j o.chan h.chans other (sound.open_ t j s)
        ];
        left = λ j j_left. elim (Bool-cases (ch == j)) [
          | inl this ↦ absurd (cc (rw this at j_left))
          | inr other ↦
              let (made', alone', opened) = sound.left j (rw other at j_left) in
              (made', alone', IsOpen-close ch j o.chan h.chans other opened)
        ];
      },
    )

IsSound-receive_from :
    (leaving : ℕ → Bool) (ch : ℕ) (o : Option Chan) (h : Hub)
    → Dict.lookup ch h.chans ≡ o
    → IsSound leaving h
    → IsSound leaving (receive_from ch o h)
unfolding receive_from subscribers_of
IsSound-receive_from leaving ch none h found sound = sound
IsSound-receive_from leaving ch (some c) h found sound =
    let keeps : (j : ℕ)
        → IsOpen j h.chans
        → IsOpen j (Dict.insert ch (record c { buffer = rest_of c.buffer }) h.chans) =
      λ j o.
        IsOpen-replace ch c (record c { buffer = rest_of c.buffer }) h.chans found refl refl
          (rest_of-shorter c.buffer) j o in
    record {
      topic_of = sound.topic_of;
      owned = sound.owned;
      made = sound.made;
      open_ = λ t j s. keeps j (sound.open_ t j s);
      left = λ j is_left.
          let (made, alone, opened) = sound.left j is_left in (made, alone, keeps j opened);
    }

pub IsSound-receive :
    (leaving : ℕ → Bool) (ch : ℕ) (h : Hub) → IsSound leaving h → IsSound leaving (receive ch h)
unfolding receive
IsSound-receive leaving ch h sound =
    IsSound-receive_from leaving ch (Dict.lookup ch h.chans) h refl sound

pub publish-IsSound :
    (leaving : ℕ → Bool) (m : Message) (h : Hub)
    → IsSound leaving h
    → (h' : Hub) × (publish m h ≡ some h') × IsSound leaving h'
unfolding publish
publish-IsSound leaving m h sound =
    let (chans', done, keeps) =
      offer_all-open m (subscribers_of m.channel h) h.chans (sound.open_ m.channel) in
    (
      record h { chans = chans' },
      rw done refl,
      record {
        topic_of = sound.topic_of;
        owned = sound.owned;
        made = sound.made;
        open_ = λ t j s. keeps j (sound.open_ t j s);
        left = λ j is_left.
            let (made, alone, opened) = sound.left j is_left in (made, alone, keeps j opened);
      },
    )

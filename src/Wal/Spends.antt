-- ===== src/Wal/Spends.antt =====
-- Methods of the service on a durable state, and how the sequence numbers that they may use add up.
use prediction_market.Base.{
  ℕ, suc, ◌+◌, ◌*◌, ◌^◌, ◌%◌, ◌≤◌, ◌<◌, ◌≡◌, ◌⊎◌, inl, inr, refl, ap, arith, Bool, true, false,
  Option, none, some, List, [], ◌∷◌, leb, ltb, ◌-◌, if◌then◌else◌, length, Bool-cases, ◌==◌,
  eq_string,
}
use prediction_market.Int.{pos}
use prediction_market.Ledger.{Service, Event, Error}
use prediction_market.Ledger.{apply_all}
use prediction_market.Ledger.Sequence.{
  IsConsecutive, sequence-apply_all, last_sequence-IsConsecutive,
}
use prediction_market.Result.{Result, ok, err}
use prediction_market.Machine.{
  Action, Machine, Backend, wal_record, pure, raise, lift, gets, outside, call, raise_if,
  raise_some, fail, continue, ◌>>=◌, raise_some-none,
}
use prediction_market.Wal.{
  max_wal_record, next, number_all, append_many, fail_on, store_batch, commit_many,
}
use prediction_market.Wal.Replay.{recovered}
use prediction_market.Wal.Numbers.{recovered-failure}
use prediction_market.Wal.Durability.{
  IsDurable, IsLatched, Committed, numbered_at, commit_many-Committed,
}

-- A failure is latched, and the files rebuild some state.
pub record IsStopped {W : Type 0} (be : Backend W) (m : Machine W) : Type 0 where
  pub latched : IsLatched be m
  pub rebuilt : (s : Service) × (recovered m.disk ≡ ok s)

-- Sequence numbers are left for `k` lines of the log, each of which has less than `max_wal_record`
-- events.
abbrev pub HasRoom : {W : Type 0} → ℕ → Machine W → Type 0
HasRoom k m = m.service.sequence + k * max_wal_record < 2 ^ 64

-- The encoded text of a line is at least as long as the number of its events.
abbrev pub IsSized : {W : Type 0} → Backend W → Type 0
IsSized be = (es : List Event) → length es ≤ be.encoded_length (wal_record (pos 1) es)

module _ {W : Type 0} (be : Backend W) where
  -- A method has ended: after a success the machine is durable, after an error it is durable or
  -- stopped.
  abbrev pub Ends : {A : Type 0} → ℕ → Result A × Machine W → Type 0
  Ends k (ok _, m) = IsDurable m × HasRoom k m
  Ends k (err _, m) = (IsDurable m × HasRoom k m) ⊎ IsStopped be m

  -- The method writes at most `c` lines.
  pub record Spends {A : Type 0} (c : ℕ) (n : Action W A) : Type 0 where
    pub ends : (j : ℕ) (m : Machine W) → IsDurable m → HasRoom (c + j) m → Ends j (n m)

  continue-Ends :
      {A B : Type 0} (d j : ℕ) (f : A → Action W B)
      → ((a : A) → Spends d (f a))
      → (x : Result A × Machine W) → Ends (d + j) x
      → Ends j (continue x.0 f x.1)
  continue-Ends d j f h (ok a, m) e = (h a).ends j m e.0 e.1
  continue-Ends d j f h (err x, m) (inl (durable, room)) = inl (durable, omega (arith, room))
  continue-Ends d j f h (err x, m) (inr stopped) = inr stopped

  pub Spends-bind :
      {A B : Type 0} (c d : ℕ) (n : Action W A) (f : A → Action W B)
      → Spends c n
      → ((a : A) → Spends d (f a))
      → Spends (c + d) (n >>= f)
  Spends-bind c d n f h k = record {
    ends = λ j m durable room.
        continue-Ends d j f k (n m) (h.ends (d + j) m durable (omega (arith, room)));
  }

  pub Spends-pure : {A : Type 0} (a : A) → Spends 0 (pure {W = W} a)
  Spends-pure a = record { ends = λ j m durable room. (durable, omega (arith, room)) }

  pub Spends-raise : {A : Type 0} (e : Error) → Spends {A = A} 0 (raise e)
  Spends-raise e = record { ends = λ j m durable room. inl (durable, omega (arith, room)) }

  pub Spends-fail : {A : Type 0} (e : Error) → Spends {A = A} 0 (fail e)
  unfolding fail
  Spends-fail e = record {
    ends = λ j m durable room. inr (record {
      latched = (Error.recovery_required e, refl);
      rebuilt = (m.service, durable.restored);
    });
  }

  pub Spends-gets : {A : Type 0} (f : Service → A) → Spends 0 (gets {W = W} f)
  Spends-gets f = record { ends = λ j m durable room. (durable, omega (arith, room)) }

  pub Spends-outside : {A : Type 0} (f : W → A × W) → Spends 0 (outside f)
  Spends-outside f = record {
    ends = λ j m durable room.
        (record { restored = durable.restored; whole = durable.whole }, omega (arith, room));
  }

  pub Spends-lift : {A : Type 0} (r : Result A) → Spends 0 (lift {W = W} r)
  Spends-lift (ok a) = record { ends = λ j m durable room. (durable, omega (arith, room)) }
  Spends-lift (err e) = record { ends = λ j m durable room. inl (durable, omega (arith, room)) }

  pub Spends-raise_if : (b : Bool) (e : Error) → Spends 0 (raise_if {W = W} b e)
  Spends-raise_if true e = record { ends = λ j m durable room. inl (durable, omega (arith, room)) }
  Spends-raise_if false e = record { ends = λ j m durable room. (durable, omega (arith, room)) }

  pub Spends-raise_some : (e : Option Error) → Spends 0 (raise_some {W = W} e)
  Spends-raise_some (some e) = record {
    ends = λ j m durable room. inl (durable, omega (arith, room));
  }
  Spends-raise_some none = record { ends = λ j m durable room. (durable, omega (arith, room)) }

  -- Numbering changes the sequence number and the outside world, and keeps the length.
  next-kept :
      (e : Event) (m : Machine W)
      → (e' : Event) × (n : ℕ) × (w : W) × (next be e m ≡ (ok e', numbered_at m n w))
  unfolding next
  next-kept e m =
      let n = (m.service.sequence + 1) % 2 ^ 64 in
      elim (Bool-cases (e.id == "")) [
        | inl blank ↦ (
          record e { id = (be.new_id m.world).0; sequence = n },
          n,
          (be.new_id m.world).1,
          rw blank refl,
        )
        | inr named ↦ (record e { sequence = n }, n, m.world, rw named refl)
      ]

  number_all-kept :
      (es : List Event) (m : Machine W)
      → (numbered : List Event) × (n : ℕ) × (w : W) × (number_all be es m
          ≡ (ok numbered, numbered_at m n w))
        × (length numbered ≡ length es)
  unfolding number_all
  number_all-kept [] m = ([], m.service.sequence, m.world, refl, refl)
  number_all-kept (e ∷ es) m =
      let (e', n, w, one) = next-kept e m in
      let (es', n', w', rest, same) = number_all-kept es (numbered_at m n w) in
      (e' ∷ es', n', w', rw (one, rest) refl, ap suc same)

  -- A batch that is too long for a line is refused before it is written.
  refused :
      (numbered : List Event) (m : Machine W) (n : ℕ) (w : W)
      → IsSized be
      → max_wal_record ≤ length numbered
      → IsDurable m
      → IsStopped be (store_batch be numbered (numbered_at m n w)).1
        × ((store_batch be numbered (numbered_at m n w)).0
            ≡ err (Error.recovery_required Error.record_too_large))
  unfolding store_batch append_many fail_on fail
  refused numbered m n w sized long durable =
      let large : leb max_wal_record (be.encoded_length (wal_record (pos 1) numbered) + 1) ≡ true =
        ground (arith, sized numbered) in
      rw large (
        record {
          latched = (Error.recovery_required Error.record_too_large, refl);
          rebuilt = (m.service, durable.restored);
        },
        refl,
      )

  module _ (e : Event) (es : List Event) (m : Machine W) (j : ℕ) (room : HasRoom (1 + j) m) where
    Committed-Ends :
        (numbered : List Event) (x : Result (Unit {0}) × Machine W)
        → length numbered < max_wal_record
        → IsConsecutive m.service.sequence numbered
        → Committed be m numbered x
        → Ends j x
    Committed-Ends numbered (ok _, m') short c (durable, applied) = (
      durable,
      omega (
        arith,
        room,
        short,
        ap (λ s. s.sequence) applied,
        sequence-apply_all numbered m.service,
        last_sequence-IsConsecutive numbered m.service.sequence c,
      ),
    )
    Committed-Ends numbered (err _, m') short c (inl before, latched) =
        inr (record { latched = latched; rebuilt = (m.service, before) })
    Committed-Ends numbered (err _, m') short c (inr behind, latched) =
        inr (record { latched = latched; rebuilt = (apply_all m.service numbered, behind) })

    refused-Ends :
        (x : Result (Unit {0}) × Machine W) (x' : Error)
        → IsStopped be x.1
        → x.0 ≡ err x'
        → Ends j x
    refused-Ends (ok a, m') x' stopped is = absurd (ground arith)
    refused-Ends (err a, m') x' stopped is = inr stopped

    commit_many-Ends : IsSized be → IsDurable m → Ends j (commit_many be (e ∷ es) m)
    unfolding commit_many
    commit_many-Ends sized durable = elim (Bool-cases (ltb (length (e ∷ es)) max_wal_record)) [
      | inl short ↦
          let (numbered, stamped, done) =
            commit_many-Committed be e es m durable (ground (arith, room)) in
          Committed-Ends numbered (commit_many be (e ∷ es) m) (ground (arith, stamped.same_length))
            stamped.consecutive done
      | inr long ↦
          let (numbered, n, w, stamped, same) = number_all-kept (e ∷ es) m in
          let (stopped, is) = refused numbered m n w sized (ground (arith, same)) durable in
          rw
            (
              raise_some-none (number_all be (e ∷ es) >>= store_batch be) m m.service.failure
                  (recovered-failure m.disk m.service durable.restored),
              stamped,
            )
            (refused-Ends (store_batch be numbered (numbered_at m n w))
              (Error.recovery_required Error.record_too_large) stopped is)
    ]

  pub Spends-commit_many :
      (e : Event) (es : List Event) → IsSized be → Spends 1 (commit_many be (e ∷ es))
  Spends-commit_many e es sized = record {
    ends = λ j m durable room. commit_many-Ends e es m j room sized durable;
  }

  -- A step that writes nothing, and what follows it.
  pub Spends-free :
      {A B : Type 0} (c : ℕ) (n : Action W A) (f : A → Action W B)
      → Spends 0 n
      → ((a : A) → Spends c (f a))
      → Spends c (n >>= f)
  Spends-free c n f h k = record {
    ends = λ j m durable room.
        continue-Ends c j f k (n m) (h.ends (c + j) m durable (omega (arith, room)));
  }

  pub Spends-if :
      {A : Type 0} (c : ℕ) (b : Bool) (x y : Action W A)
      → Spends c x
      → Spends c y
      → Spends c (if b then x else y)
  Spends-if c true x y h k = h
  Spends-if c false x y h k = k

  pub Spends-le : {A : Type 0} (c d : ℕ) (n : Action W A) → c ≤ d → Spends c n → Spends d n
  Spends-le c d n le h = record {
    ends =
        λ j m durable room. fewer j (n m) (h.ends (d - c + j) m durable (grind (arith, room, le)));
  }
    where
      fewer : {A : Type 0} (j : ℕ) (x : Result A × Machine W) → Ends (d - c + j) x → Ends j x
      fewer j (ok a, m) (durable, room) = (durable, grind (arith, room))
      fewer j (err e, m) (inl (durable, room)) = inl (durable, grind (arith, room))
      fewer j (err e, m) (inr stopped) = inr stopped

  pub Spends-Option :
      {A B : Type 0} (c : ℕ) (o : Option B) (x : Action W A) (f : B → Action W A)
      → Spends c x
      → ((b : B) → Spends c (f b))
      → Spends c (elim o [ none ↦ x | some b ↦ f b ])
  Spends-Option c none x f h k = h
  Spends-Option c (some b) x f h k = k b

  pub Spends-Result :
      {A B : Type 0} (c : ℕ) (r : Result B) (f : Error → Action W A) (g : B → Action W A)
      → ((e : Error) → Spends c (f e))
      → ((b : B) → Spends c (g b))
      → Spends c (elim r [ err e ↦ f e | ok b ↦ g b ])
  Spends-Result c (err e) f g h k = h e
  Spends-Result c (ok b) f g h k = k b

  -- A call of the outside that may fail.
  pub Spends-call : {A : Type 0} (f : W → Result A × W) → Spends 0 (call f)
  Spends-call f = record {
    ends = λ j m durable room. elim_call j m durable room (f m.world).0 (f m.world).1;
  }
    where
      elim_call :
          {A : Type 0} (j : ℕ) (m : Machine W)
          → IsDurable m
          → HasRoom (0 + j) m
          → (r : Result A) (w : W) → Ends j (r, record m { world = w })
      elim_call j m durable room (ok a) w =
          (record { restored = durable.restored; whole = durable.whole }, omega (arith, room))
      elim_call j m durable room (err e) w =
          inl (record { restored = durable.restored; whole = durable.whole }, omega (arith, room))

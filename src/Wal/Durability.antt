-- ===== src/Wal/Durability.antt =====
-- `commitMany` against a restart: a batch that is acknowledged is rebuilt from the files, and one
-- that is not is either rebuilt whole or not at all.
use prediction_market.Base.{
  ℕ, suc, ◌+◌, ◌%◌, ◌^◌, ◌<◌, ◌≡◌, refl, ◌∙◌, sym, ap, arith, true, false, Option, none, some, List,
  [], ◌∷◌, map, leb, length, get_or, inl, inr, Bool-cases, ◌⊎◌, ◌==◌, eq_string,
}
use native.Mathlib.Nat.{add-zero}
use prediction_market.Int.{pos}
use prediction_market.Ledger.{Event, Error, apply_all}
use prediction_market.Ledger.Sequence.{unstamped, IsConsecutive, apply_all-counted}
use prediction_market.Result.{Result, ok, err}
use prediction_market.Machine.{
  Machine, Backend, Projector, each, batched, wal_record, written, lost, torn_line, kept,
  WriteOutcome, ◌>>=◌, ◌>>◌, fail, modify, raise_some-none,
}
use prediction_market.Wal.{
  append_line, new_file, next, number_all, append_many, project_each, project_by, project, fail_on,
  store_batch, commit_many, after_write, write_error, max_wal_record,
}
use prediction_market.Wal.Replay.{recovered}
use prediction_market.Wal.Numbers.{recovered-append, recovered-failure, recovered-unwritten}

-- The events of a commit as they are written: the next sequence numbers, and nothing else changed
-- but the ids.
pub record IsStamped (n : ℕ) (events numbered : List Event) : Type 0 where
  pub consecutive : IsConsecutive n numbered
  pub same : map unstamped numbered ≡ map unstamped events
  pub same_length : length numbered ≡ length events

suc-shift : (n k : ℕ) → suc n + k ≡ n + suc k
suc-shift n k = omega arith

module _ {W : Type 0} where
  -- A restart would rebuild the state in memory, and the log ends with a whole line.
  pub record IsDurable (m : Machine W) : Type 0 where
    pub restored : recovered m.disk ≡ ok m.service
    pub whole : (get_or m.disk.current new_file).torn ≡ false

  abbrev pub numbered_at : Machine W → ℕ → W → Machine W
  numbered_at m n w = record m { service = record m.service { sequence = n }; world = w }

  module _ (be : Backend W) where
    next_lem :
        (e : Event) (m : Machine W)
        → m.service.sequence + 1 < 2 ^ 64
        → (e' : Event) × (w : W) × (next be e m ≡ (ok e', numbered_at m (suc m.service.sequence) w))
          × (e'.sequence ≡ suc m.service.sequence)
          × (unstamped e' ≡ unstamped e)
    unfolding next
    next_lem e m h =
        let n = suc m.service.sequence in
        let counted : (m.service.sequence + 1) % 2 ^ 64 ≡ n = omega arith in
        elim (Bool-cases (e.id == "")) [
          | inl blank ↦ (
            record e { id = (be.new_id m.world).0; sequence = n },
            (be.new_id m.world).1,
            rw (blank, counted) refl,
            refl,
            refl,
          )
          | inr named ↦ (record e { sequence = n }, m.world, rw (named, counted) refl, refl, refl)
        ]

    number_all-IsStamped :
        (es : List Event) (m : Machine W)
        → m.service.sequence + length es < 2 ^ 64
        → (numbered : List Event) × (w : W) × (number_all be es m
            ≡ (ok numbered, numbered_at m (m.service.sequence + length es) w))
          × IsStamped m.service.sequence es numbered
    unfolding number_all
    number_all-IsStamped [] m h = (
      [],
      m.world,
      rw add-zero refl,
      record { consecutive = tt; same = refl; same_length = refl },
    )
    number_all-IsStamped (e ∷ es) m h =
        let n = m.service.sequence in
        let (e', w, stamped, number, same) = next_lem e m (omega arith) in
        let (es', w', rest, done) =
          number_all-IsStamped es (numbered_at m (suc n) w) (omega arith) in
        (
          e' ∷ es',
          w',
          rw (stamped, rest, suc-shift n (length es)) refl,
          record {
            consecutive = (number, done.consecutive);
            same = cc (same, done.same);
            same_length = omega (arith, done.same_length);
          },
        )

    -- A failed commit leaves its error in memory.
    abbrev pub IsLatched : Machine W → Type 0
    IsLatched m = (e : Error) × (m.service.failure ≡ some e)

    -- What a commit of `events` may end in, from the machine `m`: the batch is durable and applied
    -- in memory, or the failure is latched and a restart finds the batch whole or not at all.
    abbrev pub Committed : Machine W → List Event → Result (Unit {0}) × Machine W → Type 0
    Committed m numbered (ok _, m') = IsDurable m' × (m'.service ≡ apply_all m.service numbered)
    Committed m numbered (err _, m') =
        ((recovered m'.disk ≡ ok m.service)
          ⊎ (recovered m'.disk ≡ ok (apply_all m.service numbered)))
        × IsLatched m'

    project_by-world :
        (p : Option (Projector W)) (es : List Event) (m : Machine W)
        → (r : Option Error) × (w : W) × (project_by be p es m ≡ (ok r, record m { world = w }))
    unfolding project_by
    project_by-world none es m = (none, m.world, refl)
    project_by-world (some (each f)) es m =
        let (r, w) = project_each be f es m.world in (r, w, refl)
    project_by-world (some (batched f)) es m = let (r, w) = f es m.world in (r, w, refl)

    -- The projection changes nothing but the outside world.
    project-world :
        (es : List Event) (m : Machine W)
        → (r : Option Error) × (w : W) × (project be es m ≡ (ok r, record m { world = w }))
    unfolding project
    project-world = project_by-world be.projector

    -- After the line is in the file the projection decides.
    decided :
        (e : Event) (es : List Event) (m m' : Machine W) (r : Option Error)
        → m'.service ≡ record m.service { sequence = m.service.sequence + length (e ∷ es) }
        → recovered m'.disk ≡ ok (apply_all m.service (e ∷ es))
        → (get_or m'.disk.current new_file).torn ≡ false
        → IsConsecutive m.service.sequence (e ∷ es)
        → Committed m (e ∷ es) ((fail_on be r >> modify (λ s. apply_all s (e ∷ es))) m')
    unfolding fail_on fail
    decided e es m m' none same saved whole c =
        let applied : apply_all m'.service (e ∷ es) ≡ apply_all m.service (e ∷ es) =
          rw same (apply_all-counted (e ∷ es) m.service c) in
        (record { restored = saved ∙ ap ok (sym applied); whole = whole }, applied)
    decided e es m m' (some x) same saved whole c = (inr saved, (Error.recovery_required x, refl))

    -- What the write leaves of a batch: the line decides.
    after_write_lem :
        (o : WriteOutcome) (e : Event) (es : List Event) (m : Machine W) (w : W)
        → IsDurable m
        → IsConsecutive m.service.sequence (e ∷ es)
        → Committed m (e ∷ es) (
            (fail_on be (write_error o)
                >> (project be (e ∷ es) >>= λ r.
                    fail_on be r >> modify (λ s. apply_all s (e ∷ es))))
              (record (numbered_at m (m.service.sequence + length (e ∷ es)) w) {
                disk = record m.disk {
                  current = some (
                      after_write o (wal_record (pos 1) (e ∷ es)) (get_or m.disk.current new_file));
                };
              }))
    unfolding write_error after_write fail_on fail
    after_write_lem written e es m w d c =
        let line = wal_record (pos 1) (e ∷ es) in
        let m' : Machine W = record (numbered_at m (m.service.sequence + length (e ∷ es)) w) {
          disk = record m.disk {
            current = some (append_line line (get_or m.disk.current new_file));
          };
        } in
        let (r, w', projected) = project-world (e ∷ es) m' in
        rw projected (
          decided e es m (record m' { world = w' }) r refl
            (recovered-append m.disk e es m.service d.restored d.whole c) refl c)
    after_write_lem (lost x) e es m w d c =
        (inl (recovered-unwritten m.disk _ ∙ d.restored), (Error.recovery_required x, refl))
    after_write_lem (torn_line x) e es m w d c =
        (inl (recovered-unwritten m.disk true ∙ d.restored), (Error.recovery_required x, refl))
    after_write_lem (kept x) e es m w d c = (
      inr (recovered-append m.disk e es m.service d.restored d.whole c),
      (Error.recovery_required x, refl),
    )

    store_batch-Committed :
        (e : Event) (es : List Event) (m : Machine W) (w : W)
        → IsDurable m
        → IsConsecutive m.service.sequence (e ∷ es)
        → Committed m
            (e ∷ es)
            (store_batch be (e ∷ es) (numbered_at m (m.service.sequence + length (e ∷ es)) w))
    unfolding store_batch append_many fail_on fail
    store_batch-Committed e es m w d c =
        let line = wal_record (pos 1) (e ∷ es) in
        elim (Bool-cases (leb max_wal_record (be.encoded_length line + 1))) [
          | inl large ↦
              rw large (inl d.restored, (Error.recovery_required Error.record_too_large, refl))
          | inr fits ↦
              rw fits (after_write_lem (be.write_line line w).0 e es m (be.write_line line w).1 d c)
        ]

    store_numbered :
        (numbered : List Event) (k : ℕ) (m : Machine W) (w : W)
        → length numbered ≡ suc k
        → IsDurable m
        → IsConsecutive m.service.sequence numbered
        → Committed m numbered
            (store_batch be numbered (numbered_at m (m.service.sequence + suc k) w))
    store_numbered [] k m w size d c = absurd (omega (arith, size))
    store_numbered (e ∷ es) k m w size d c = rw (← size) (store_batch-Committed e es m w d c)

-- From a durable state with sequence numbers left, a commit of at least one event numbers the events on and
-- ends in one of two ways. It returns, the batch is applied in memory, and a restart rebuilds that
-- state. Or it fails, the failure is latched, and a restart rebuilds the state from before the
-- commit or the one with the whole batch applied, never a part of it. This is for any answers of
-- the file system and of the projector.
pub commit_many-Committed :
    {W : Type 0} (be : Backend W) (e : Event) (es : List Event) (m : Machine W)
    → IsDurable m
    → m.service.sequence + length (e ∷ es) < 2 ^ 64
    → (numbered : List Event) × IsStamped m.service.sequence (e ∷ es) numbered
      × Committed be m numbered (commit_many be (e ∷ es) m)
unfolding commit_many
commit_many-Committed be e es m d room =
    let (numbered, w, stamped, done) = number_all-IsStamped be (e ∷ es) m room in
    (
      numbered,
      done,
      rw
          (
            raise_some-none (number_all be (e ∷ es) >>= store_batch be) m m.service.failure
                (recovered-failure m.disk m.service d.restored),
            stamped,
          )
          (store_numbered be numbered (length es) m w done.same_length d done.consecutive),
    )

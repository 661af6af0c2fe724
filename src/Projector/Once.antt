-- ===== src/Projector/Once.antt =====
-- Batches that go-backend/internal/store/projector.go is sent more than once.
use prediction_market.Base.{
  ◌≡◌, refl, sym, ap, subst, arith, String, Bool, true, false, not, ◌&&◌, ◌||◌, Option, none, some,
  List, [], ◌∷◌, ◌==◌, eq_string, if◌then◌else◌, equals_refl,
}
use prediction_market.Int.{ℤ}
use prediction_market.Dict
use prediction_market.Dict.{Dict, lookup-insert, lookup-delete}
use prediction_market.Ledger.{Event, EventKind, Error}
use prediction_market.Result.{Result, ok, err, ◌>>=◌}
use prediction_market.Projector.{
  Tables, has, checked, put_market, uncovered, change_balance, change_nonzero, store_cents,
  put_order, put_shares, put_trade, effect, admit, effects, wide_sequence, projected, CommitOutcome,
  committed, rolled_back, unknown, finish, apply_batch,
}

abbrev pub mentions : String → List Event → Bool
mentions id [] = false
mentions id (e ∷ es) = if e.id == id then true else mentions id es

pub has-insert {ℓ} :
    {V : Type ℓ} (k j : String) (v : V) (d : Dict String V)
    → has j (Dict.insert k v d) ≡ (if k == j then true else has j d)
has-insert k j v d = ground (arith, lookup-insert k j v d)

pub has-delete {ℓ} :
    {V : Type ℓ} (k j : String) (d : Dict String V)
    → has j (Dict.delete k d) ≡ (if k == j then false else has j d)
has-delete k j d = ground (arith, lookup-delete k j d)

-- After the admission, the log has the ids that it had and those of the batch.
pub has-admit :
    (es : List Event) (log : Dict String Event) (j : String)
    → has j (admit es log).0 ≡ (has j log || mentions j es)
unfolding admit
has-admit [] log j = ground arith
has-admit (e ∷ es) log j = ground (
  arith,
  has-admit es log j,
  has-admit es (Dict.insert e.id e log) j,
  has-insert e.id j e log,
  eq_string.equals_iff e.id j,
)

-- The ids that the admission returns are those of the batch that the log did not have.
pub admitted-admit :
    (es : List Event) (log : Dict String Event) (j : String)
    → has j (admit es log).1 ≡ (not (has j log) && mentions j es)
unfolding admit
admitted-admit [] log j = unfold Dict.lookup in ground arith
admitted-admit (e ∷ es) log j = ground (
  arith,
  admitted-admit es log j,
  admitted-admit es (Dict.insert e.id e log) j,
  has-insert e.id j e log,
  has-insert e.id j tt (admit es (Dict.insert e.id e log)).1,
  eq_string.equals_iff e.id j,
)

pub ok-injective : {t t' : Tables} → Path (Result Tables) (ok t) (ok t') → t ≡ t'
ok-injective h = cc

-- What the tables say was applied is as it was, unless there is an error.
record Keeps (log : Dict String Event) (n : Result Tables) : Type 0 where
  kept : (t : Tables) → n ≡ ok t → t.order_events ≡ log

Keeps-ok : (t : Tables) → Keeps t.order_events (ok t)
Keeps-ok t = record { kept = λ t' h. sym (ap (λ x. x.order_events) (ok-injective h)) }

Keeps-checked :
    (log : Dict String Event) (b : Bool) (reason : String) (n : Result Tables)
    → Keeps log n
    → Keeps log (checked b reason n)
unfolding checked
Keeps-checked log true reason n h = record { kept = λ t same. absurd (ground arith) }
Keeps-checked log false reason n h = h

Keeps-then :
    (log : Dict String Event) (n : Result Tables) (f : Tables → Result Tables)
    → Keeps log n
    → ((t : Tables) → t.order_events ≡ log → Keeps log (f t))
    → Keeps log (n >>= f)
Keeps-then log (err e) f h k = record { kept = λ t same. absurd (ground arith) }
Keeps-then log (ok t) f h k = k t (h.kept t refl)

Keeps-if :
    (log : Dict String Event) (b : Bool) (n k : Result Tables)
    → Keeps log n
    → Keeps log k
    → Keeps log (if b then n else k)
Keeps-if log true n k h h' = h
Keeps-if log false n k h h' = h'

Keeps-change_balance :
    (user : String) (delta : ℤ) (t : Tables) → Keeps t.order_events (change_balance user delta t)
unfolding change_balance store_cents
Keeps-change_balance user delta t =
    Keeps-if t.order_events (uncovered user delta t && user == "") (ok t) _ (Keeps-ok t)
      (Keeps-checked t.order_events _ _ _ (Keeps-checked t.order_events _ _ _ (Keeps-ok _)))

Keeps-change_nonzero :
    (user : String) (delta : ℤ) (t : Tables) → Keeps t.order_events (change_nonzero user delta t)
unfolding change_nonzero
Keeps-change_nonzero user delta t =
    Keeps-if t.order_events _ (ok t) _ (Keeps-ok t) (Keeps-change_balance user delta t)

Keeps-cash :
    (log : Dict String Event) (e : Event) (n : Result Tables)
    → Keeps log n
    → Keeps log (n >>= change_nonzero e.user_id e.amount)
Keeps-cash log e n h = Keeps-then log n _ h (λ t same.
    subst (λ (l : Dict String Event). Keeps l (change_nonzero e.user_id e.amount t)) same
      (Keeps-change_nonzero e.user_id e.amount t))

Keeps-effect : (k : EventKind) (e : Event) (t : Tables) → Keeps t.order_events (effect k e t)
unfolding effect put_market put_order put_shares put_trade
Keeps-effect EventKind.event_market e t = Keeps-checked t.order_events _ _ _ (Keeps-ok _)
Keeps-effect EventKind.event_balance e t = Keeps-change_balance e.user_id e.amount t
Keeps-effect EventKind.event_order e t =
    Keeps-cash t.order_events e _ (Keeps-checked t.order_events _ _ _ (Keeps-ok _))
Keeps-effect EventKind.event_position e t =
    Keeps-cash t.order_events e _ (Keeps-checked t.order_events _ _ _ (Keeps-ok _))
Keeps-effect EventKind.event_trade e t = Keeps-checked t.order_events _ _ _ (
    Keeps-if t.order_events _ (ok t) _ (Keeps-ok t)
      (Keeps-checked t.order_events _ _ _ (Keeps-ok _)))
Keeps-effect (EventKind.other _) e t = Keeps-ok t

Keeps-effects :
    (log : Dict String Event) (es : List Event) (ids : Dict String (Unit {0})) (t : Tables)
    → t.order_events ≡ log
    → Keeps log (effects es ids t)
unfolding effects
Keeps-effects log [] ids t h = subst (λ (l : Dict String Event). Keeps l (ok t)) h (Keeps-ok t)
Keeps-effects log (e ∷ es) ids t h =
    Keeps-if log _ _ _
      (Keeps-then log _ _
        (subst (λ (l : Dict String Event). Keeps l (effect e.kind e t)) h (Keeps-effect e.kind e t))
        (Keeps-effects log es (Dict.delete e.id ids)))
      (Keeps-effects log es ids t h)

-- Nothing of a batch is admitted that the log has.
admit-known :
    (es : List Event) (log : Dict String Event)
    → ((j : String) → mentions j es ≡ true → has j log ≡ true)
    → admit es log ≡ (log, [])
unfolding admit
admit-known [] log known = refl
admit-known (e ∷ es) log known =
    rw (known e.id (rw (equals_refl e.id) refl))
      (admit-known es log (λ j h. known j (ground arith)))

effects-none : (es : List Event) (t : Tables) → effects es [] t ≡ ok t
unfolding effects Dict.lookup
effects-none [] t = refl
effects-none (e ∷ es) t = effects-none es t

pub checked-inverse :
    (b : Bool) (reason : String) (n : Result Tables) (t : Tables)
    → checked b reason n ≡ ok t
    → (b ≡ false) × (n ≡ ok t)
unfolding checked
checked-inverse true reason n t h = absurd (ground arith)
checked-inverse false reason n t h = (refl, h)

projected-inverse :
    (es : List Event) (t t' : Tables)
    → projected es t ≡ ok t'
    → (wide_sequence es ≡ false) × (t'.order_events ≡ (admit es t.order_events).0)
unfolding projected
projected-inverse es t t' h =
    let log = (admit es t.order_events).0 in
    let (narrow, done) = checked-inverse (wide_sequence es) "bigint out of range" _ t' h in
    (
      narrow,
      (Keeps-effects log es (admit es t.order_events).1 (record t { order_events = log }) refl).kept
          t' done,
    )

-- A batch that was projected changes nothing when it is projected again.
pub projected-again :
    (es : List Event) (t t' : Tables) → projected es t ≡ ok t' → projected es t' ≡ ok t'
unfolding projected
projected-again es t t' h =
    let (narrow, log) = projected-inverse es t t' h in
    let known =
      admit-known es t'.order_events
        (λ j said. rw log (ground (arith, has-admit es t.order_events j, said))) in
    unfold checked in rw (narrow, known) (effects-none es t')

-- Attempts to apply a batch, one after another, whatever becomes of each
unfoldable pub attempt_all : List (Option Error × CommitOutcome) → List Event → Tables → Tables
unfolding apply_batch
attempt_all [] es t = t
attempt_all ((connection, outcome) ∷ attempts) es t =
    attempt_all attempts es (apply_batch connection outcome es t).1

module _ (e : Event) (es : List Event) (t' : Tables) where
  -- Between attempts, the tables are those from which the batch gives the result.
  attempt-ready :
      (connection : Option Error) (outcome : CommitOutcome) (t : Tables)
      → projected (e ∷ es) t ≡ ok t'
      → projected (e ∷ es) (apply_batch connection outcome (e ∷ es) t).1 ≡ ok t'
  unfolding apply_batch finish
  attempt-ready (some x) outcome t ready = ready
  attempt-ready none committed t ready = rw ready (projected-again (e ∷ es) t t' ready)
  attempt-ready none (rolled_back x) t ready = rw ready ready
  attempt-ready none (unknown x) t ready = rw ready (projected-again (e ∷ es) t t' ready)

  attempt_all-ready :
      (attempts : List (Option Error × CommitOutcome)) (t : Tables)
      → projected (e ∷ es) t ≡ ok t'
      → projected (e ∷ es) (attempt_all attempts (e ∷ es) t) ≡ ok t'
  unfolding attempt_all
  attempt_all-ready [] t ready = ready
  attempt_all-ready ((connection, outcome) ∷ attempts) t ready =
      attempt_all-ready attempts (apply_batch connection outcome (e ∷ es) t).1
        (attempt-ready connection outcome t ready)

-- If the tables take a batch of events, then after any attempts to apply it, failed before the
-- transaction, rolled back, committed, or committed with an error, a successful call of `ApplyBatch`
-- ends with the batch applied exactly once.
pub apply_batch-once :
    (e : Event) (es : List Event) (t t' : Tables) (attempts : List (Option Error × CommitOutcome))
    → projected (e ∷ es) t ≡ ok t'
    → apply_batch none committed (e ∷ es) (attempt_all attempts (e ∷ es) t) ≡ (none, t')
unfolding apply_batch finish
apply_batch-once e es t t' attempts taken = rw (attempt_all-ready e es t' attempts t taken) refl

-- ===== src/Ledger/Sequence.antt =====
-- The sequence number under `apply`: no other field depends on it, and a batch with consecutive
-- numbers raises it by its length.
use prediction_market.Base.{
  ℕ, suc, ◌+◌, ◌≤◌, ◌≡◌, refl, ◌∙◌, sym, arith, ltb, List, [], ◌∷◌, map, if◌then◌else◌, length, ap,
  Bool-cases, inl, inr,
}
use prediction_market.Ledger.{
  Service, Event, EventKind, apply_kind, apply, apply_all, credit, move_shares, store_order,
}

-- The events' effects without their sequence numbers.
pub effects : Service → List Event → Service
effects s [] = s
effects s (e ∷ es) = effects (apply_kind e.kind e s) es

unfoldable pub last_sequence : ℕ → List Event → ℕ
last_sequence n [] = n
last_sequence n (e ∷ es) = last_sequence (if ltb n e.sequence then e.sequence else n) es

abbrev at : Service → ℕ → Service
at s n = record s { sequence = n }

apply_kind-at :
    (k : EventKind) (e : Event) (s : Service) (n : ℕ)
    → apply_kind k e (at s n) ≡ at (apply_kind k e s) n
unfolding apply_kind credit move_shares store_order
apply_kind-at EventKind.event_market e s n = refl
apply_kind-at _ e s n = refl

effects-at : (es : List Event) (s : Service) (n : ℕ) → effects (at s n) es ≡ at (effects s es) n
unfolding effects
effects-at [] s n = refl
effects-at (e ∷ es) s n =
    ap (λ t. effects t es) (apply_kind-at e.kind e s n) ∙ effects-at es (apply_kind e.kind e s) n

apply-at :
    (s : Service) (e : Event)
    → apply s e
      ≡ at (apply_kind e.kind e s) (if ltb s.sequence e.sequence then e.sequence else s.sequence)
unfolding apply
apply-at s e = elim (Bool-cases (ltb s.sequence e.sequence)) [
  | inl newer ↦ rw newer (apply_kind-at e.kind e s e.sequence)
  | inr older ↦ rw older (apply_kind-at e.kind e s s.sequence)
]

pub apply_all-effects :
    (es : List Event) (s : Service)
    → apply_all s es ≡ record (effects s es) { sequence = last_sequence s.sequence es }
unfolding apply_all effects last_sequence
apply_all-effects [] s = refl
apply_all-effects (e ∷ es) s =
    let n = if ltb s.sequence e.sequence then e.sequence else s.sequence in
    ap (λ t. apply_all t es) (apply-at s e)
    ∙ apply_all-effects es (at (apply_kind e.kind e s) n)
    ∙ ap (λ t. at t (last_sequence n es)) (effects-at es (apply_kind e.kind e s) n)

-- The events have the numbers that follow `n`, one by one.
abbrev pub IsConsecutive : ℕ → List Event → Type 0
IsConsecutive n [] = Unit
IsConsecutive n (e ∷ es) = (e.sequence ≡ suc n) × IsConsecutive (suc n) es

pub last_sequence-IsConsecutive :
    (es : List Event) (n : ℕ) → IsConsecutive n es → last_sequence n es ≡ n + length es
unfolding last_sequence
last_sequence-IsConsecutive [] n h = omega arith
last_sequence-IsConsecutive (e ∷ es) n h =
    ground (arith, last_sequence-IsConsecutive es (suc n) h.1)

-- Numbers that the state has reached do not move it.
pub last_sequence_known :
    (es : List Event) (n m : ℕ) → IsConsecutive n es → n + length es ≤ m → last_sequence m es ≡ m
unfolding last_sequence
last_sequence_known [] n m h le = refl
last_sequence_known (e ∷ es) n m h le = ground (arith, last_sequence_known es (suc n) m h.1)

-- A batch whose numbers are those that follow the state's, one by one, gives the same state when
-- the state has counted them already as when it has not.
pub apply_all-counted :
    (es : List Event) (s : Service)
    → IsConsecutive s.sequence es
    → apply_all (record s { sequence = s.sequence + length es }) es ≡ apply_all s es
apply_all-counted es s h =
    let m = s.sequence + length es in
    apply_all-effects es (at s m)
    ∙ ap (λ t. at t (last_sequence m es)) (effects-at es s m)
    ∙ ap (λ n. at (effects s es) n)
        (last_sequence_known es s.sequence m h (omega arith)
          ∙ sym (last_sequence-IsConsecutive es s.sequence h))
    ∙ sym (apply_all-effects es s)

failure-apply_kind :
    (k : EventKind) (e : Event) (s : Service) → (apply_kind k e s).failure ≡ s.failure
unfolding apply_kind credit move_shares store_order
failure-apply_kind EventKind.event_market e s = refl
failure-apply_kind _ e s = refl

failure-effects : (es : List Event) (s : Service) → (effects s es).failure ≡ s.failure
unfolding effects
failure-effects [] s = refl
failure-effects (e ∷ es) s =
    failure-effects es (apply_kind e.kind e s) ∙ failure-apply_kind e.kind e s

-- Events neither raise nor clear a failure.
pub failure-apply_all : (es : List Event) (s : Service) → (apply_all s es).failure ≡ s.failure
failure-apply_all es s = ap (λ t. t.failure) (apply_all-effects es s) ∙ failure-effects es s

pub sequence-apply_all :
    (es : List Event) (s : Service) → (apply_all s es).sequence ≡ last_sequence s.sequence es
sequence-apply_all es s = ap (λ t. t.sequence) (apply_all-effects es s)

-- An event without the number and the id that a commit gives it.
abbrev pub unstamped : Event → Event
unstamped e = record e { id = ""; sequence = 0 }

apply_kind-unstamped :
    (k : EventKind) (e : Event) (s : Service) → apply_kind k e s ≡ apply_kind k (unstamped e) s
unfolding apply_kind
apply_kind-unstamped EventKind.event_market e s = refl
apply_kind-unstamped _ e s = refl

effects-map-unstamped :
    (es : List Event) (s : Service) → effects s es ≡ effects s (map unstamped es)
unfolding effects
effects-map-unstamped [] s = refl
effects-map-unstamped (e ∷ es) s =
    ap (λ t. effects t es) (apply_kind-unstamped e.kind e s)
    ∙ effects-map-unstamped es (apply_kind e.kind (unstamped e) s)

-- Numbers and ids make no difference to what a batch does, but for the sequence number.
pub effects-unstamped :
    (es fs : List Event) (s : Service)
    → map unstamped es ≡ map unstamped fs
    → effects s es ≡ effects s fs
effects-unstamped es fs s h =
    effects-map-unstamped es s ∙ ap (effects s) h ∙ sym (effects-map-unstamped fs s)

-- The two states differ in their sequence numbers at most.
abbrev pub SameAccounts : Service → Service → Type 0
SameAccounts s t = record s { sequence = 0 } ≡ record t { sequence = 0 }

pub apply_all-unstamped :
    (es fs : List Event) (s : Service)
    → map unstamped es ≡ map unstamped fs
    → SameAccounts (apply_all s es) (apply_all s fs)
apply_all-unstamped es fs s h =
    ap (λ t. at t 0) (apply_all-effects es s)
    ∙ ap (λ t. at t 0) (effects-unstamped es fs s h)
    ∙ sym (ap (λ t. at t 0) (apply_all-effects fs s))

-- ===== src/Wal/Covered.antt =====
-- Replaying what a state has counted already: the lines are checked as before, and nothing is
-- applied twice.
use prediction_market.Base.{
  ℕ, ◌≤◌, ◌≡◌, refl, arith, List, [], ◌∷◌, ◌++◌, ltb, inl, inr, Bool-cases, String,
}
use prediction_market.Dict.{Dict}
use prediction_market.Ledger.{
  Service, Event, EventKind, EngineOrderKey, apply, apply_kind, apply_all, credit, move_shares,
  store_order, balance, position, user_positions,
}
use prediction_market.Ledger.Sequence.{last_sequence, sequence-apply_all}
use prediction_market.Result.{ok, ◌>>=◌}
use prediction_market.Machine.{Line}
use prediction_market.Wal.{line_events, pending_events}
use prediction_market.Wal.Replay.{replayed_line, replayed_lines}
use prediction_market.Wal.Numbers.{Result-cases}

pending_events-covered :
    (es : List Event) (known previous k : ℕ) (found : List Event) (last : ℕ)
    → pending_events known previous es ≡ ok (found, last)
    → last ≤ k
    → (pending_events k previous es ≡ ok ([], last)) × (previous ≤ last)
unfolding pending_events
pending_events-covered [] known previous k found last h le = ground arith
pending_events-covered (e ∷ es) known previous k found last h le =
    elim (Result-cases (pending_events known e.sequence es)) [
      | inr (x, rest) ↦ absurd (ground arith)
      | inl ((found', last'), rest) ↦
          let same : last' ≡ last = ground arith in
          ground (
            arith,
            pending_events-covered es known e.sequence k found' last' rest
                (omega (arith, same, le)),
          )
    ]

replayed_line-covered :
    (l : Line) (s t : Service) (previous : ℕ) (last : ℕ) (k : Service)
    → replayed_line s previous l ≡ ok (t, last)
    → last ≤ k.sequence
    → (replayed_line k previous l ≡ ok (k, last)) × (previous ≤ last)
unfolding replayed_line apply_all
replayed_line-covered l s t previous last k h le = elim (Result-cases (line_events l)) [
  | inr (x, e) ↦ absurd (ground arith)
  | inl (events, e) ↦ elim (Result-cases (pending_events s.sequence previous events)) [
    | inr (x, e') ↦ absurd (ground arith)
    | inl ((found, last'), e') ↦
        let same : last' ≡ last = ground arith in
        let covered =
          pending_events-covered events s.sequence previous k.sequence found last' e'
            (omega (arith, same, le)) in
        (rw (e, covered.0, same) refl, omega (arith, covered.1, same))
  ]
]

pub replayed_lines-covered :
    (ls : List Line) (s t : Service) (previous last : ℕ) (k : Service)
    → replayed_lines s previous ls ≡ ok (t, last)
    → last ≤ k.sequence
    → (replayed_lines k previous ls ≡ ok (k, last)) × (previous ≤ last)
unfolding replayed_lines
replayed_lines-covered [] s t previous last k h le = ground arith
replayed_lines-covered (l ∷ ls) s t previous last k h le =
    elim (Result-cases (replayed_line s previous l)) [
      | inr (x, e) ↦ absurd (ground arith)
      | inl ((u, n), e) ↦
          let rest = replayed_lines-covered ls u t n last k (ground arith) le in
          let line = replayed_line-covered l s u previous n k e (omega (arith, rest.1, le)) in
          (rw line.0 rest.0, omega (arith, line.1, rest.1))
    ]

pub replayed_lines-append_all :
    (ls ms : List Line) (s : Service) (previous : ℕ)
    → replayed_lines s previous (ls ++ ms)
      ≡ (replayed_lines s previous ls >>= λ t. replayed_lines t.0 t.1 ms)
unfolding replayed_lines
replayed_lines-append_all [] ms s previous = refl
replayed_lines-append_all (l ∷ ls) ms s previous =
    elim (Result-cases (replayed_line s previous l)) [
      | inl (t, e) ↦ rw e (replayed_lines-append_all ls ms t.0 t.1)
      | inr (x, e) ↦ rw e refl
    ]

-- The engine's order numbers, which a snapshot does not hold.
abbrev pub with_ids : Service → Dict EngineOrderKey String → Service
with_ids s ids = record s { engine_orders = ids }

apply-with_ids :
    (s : Service) (e : Event) (ids : Dict EngineOrderKey String)
    → (ids' : Dict EngineOrderKey String) × (apply (with_ids s ids) e ≡ with_ids (apply s e) ids')
unfolding apply
apply-with_ids s e ids = elim (Bool-cases (ltb s.sequence e.sequence)) [
  | inl newer ↦ rw newer (go e.kind (record s { sequence = e.sequence }))
  | inr older ↦ rw older (go e.kind s)
]
  where
    go :
        (kind : EventKind) (t : Service)
        → (ids' : Dict EngineOrderKey String) × (apply_kind kind e (with_ids t ids)
            ≡ with_ids (apply_kind kind e t) ids')
    go EventKind.event_market t = (ids, unfold apply_kind in refl)
    go EventKind.event_balance t = (ids, unfold apply_kind credit balance in refl)
    go EventKind.event_order t = (
      (store_order e.order (with_ids t ids)).engine_orders,
      unfold apply_kind credit store_order balance in refl,
    )
    go EventKind.event_position t =
        (ids, unfold apply_kind credit move_shares balance position user_positions in refl)
    go EventKind.event_trade t = (ids, unfold apply_kind in refl)
    go (EventKind.other x) t = (ids, unfold apply_kind in refl)

apply_all-with_ids :
    (es : List Event) (s : Service) (ids : Dict EngineOrderKey String)
    → (ids' : Dict EngineOrderKey String) × (apply_all (with_ids s ids) es
        ≡ with_ids (apply_all s es) ids')
unfolding apply_all
apply_all-with_ids [] s ids = (ids, refl)
apply_all-with_ids (e ∷ es) s ids =
    let (ids', one) = apply-with_ids s e ids in
    let (ids'', rest) = apply_all-with_ids es (apply s e) ids' in (ids'', rw one rest)

replayed_line-with_ids :
    (l : Line) (s t : Service) (previous last : ℕ) (ids : Dict EngineOrderKey String)
    → replayed_line s previous l ≡ ok (t, last)
    → (ids' : Dict EngineOrderKey String) × (replayed_line (with_ids s ids) previous l
        ≡ ok (with_ids t ids', last))
unfolding replayed_line
replayed_line-with_ids l s t previous last ids h = elim (Result-cases (line_events l)) [
  | inr (x, e) ↦ absurd (ground arith)
  | inl (events, e) ↦ elim (Result-cases (pending_events s.sequence previous events)) [
    | inr (x, e') ↦ absurd (ground arith)
    | inl ((found, last'), e') ↦
        let (ids', after) = apply_all-with_ids found s ids in
        let same_state : apply_all s found ≡ t = ground arith in
        let same_last : last' ≡ last = ground arith in
        (ids', rw (e, e', after, same_state, same_last) refl)
  ]
]

pub replayed_lines-with_ids :
    (ls : List Line) (s t : Service) (previous last : ℕ) (ids : Dict EngineOrderKey String)
    → replayed_lines s previous ls ≡ ok (t, last)
    → (ids' : Dict EngineOrderKey String) × (replayed_lines (with_ids s ids) previous ls
        ≡ ok (with_ids t ids', last))
unfolding replayed_lines
replayed_lines-with_ids [] s t previous last ids h =
    let same_state : s ≡ t = cc in
    let same_last : previous ≡ last = cc in (ids, rw (same_state, same_last) refl)
replayed_lines-with_ids (l ∷ ls) s t previous last ids h =
    elim (Result-cases (replayed_line s previous l)) [
      | inr (x, e) ↦ absurd (ground arith)
      | inl ((u, n), e) ↦
          let (ids', line) = replayed_line-with_ids l s u previous n ids e in
          let (ids'', rest) = replayed_lines-with_ids ls u t n last ids' (ground arith) in
          (ids'', rw line rest)
    ]

last_sequence-ge : (es : List Event) (n : ℕ) → n ≤ last_sequence n es
unfolding last_sequence
last_sequence-ge [] n = omega arith
last_sequence-ge (e ∷ es) n = ground (arith, last_sequence-ge es n, last_sequence-ge es e.sequence)

replayed_line-ge :
    (l : Line) (s : Service) (previous : ℕ) (t : Service × ℕ)
    → replayed_line s previous l ≡ ok t
    → s.sequence ≤ t.0.sequence
unfolding replayed_line
replayed_line-ge l s previous t h = elim (Result-cases (line_events l)) [
  | inr (x, e) ↦ absurd (ground arith)
  | inl (events, e) ↦ elim (Result-cases (pending_events s.sequence previous events)) [
    | inr (x, e') ↦ absurd (ground arith)
    | inl ((found, last), e') ↦
        ground (arith, sequence-apply_all found s, last_sequence-ge found s.sequence)
  ]
]

-- Replaying never takes the sequence number back.
pub replayed_lines-ge :
    (ls : List Line) (s : Service) (previous : ℕ) (t : Service × ℕ)
    → replayed_lines s previous ls ≡ ok t
    → s.sequence ≤ t.0.sequence
unfolding replayed_lines
replayed_lines-ge [] s previous t h = ground arith
replayed_lines-ge (l ∷ ls) s previous t h = elim (Result-cases (replayed_line s previous l)) [
  | inr (x, e) ↦ absurd (ground arith)
  | inl (u, e) ↦ ground (arith, replayed_line-ge l s previous u e, replayed_lines-ge ls u.0 u.1 t)
]

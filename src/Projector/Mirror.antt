-- ===== src/Projector/Mirror.antt =====
-- What the tables of go-backend/internal/store/projector.go say of the accounts, against the ledger of
-- go-backend/internal/trading/service.go.
use prediction_market.Base.{
  ◌≡◌, refl, sym, ap, ◌∙◌, subst, arith, String, Bool, true, false, not, ◌&&◌, List, [], ◌∷◌, ◌==◌,
  eq_string, if◌then◌else◌, Bool-cases, inl, inr, equals_refl, get_or,
}
use prediction_market.Int.{ℤ, pos, add64, IsInt64, int_eq}
use prediction_market.Dict
use prediction_market.Dict.{Dict, lookup-insert, lookup-delete}
use prediction_market.Ledger.{
  Service, Event, EventKind, balance, position, user_positions, zero_position, apply, apply_all,
}
use prediction_market.Ledger.Effects.{balance-apply, position-apply, has_cash, has_shares, moved}
use prediction_market.Ledger.Range.{InRange, apply-InRange}
use prediction_market.Result.{Result, ok}
use prediction_market.Projector.{
  Tables, has, cents, shares, put_order, put_shares, effect, admit, effects, wide_sequence,
  projected,
}
use prediction_market.Projector.Statements.{
  then-inverse, else_of, SameAccounts-put_order, SameAccounts-put_market, SameAccounts-put_trade,
  cents-change_balance, positions-change_balance, positions-change_nonzero, balances-put_shares,
  shares-put_shares, cents-cash,
}
use prediction_market.Projector.Once.{
  mentions, has-insert, has-delete, admitted-admit, checked-inverse, ok-injective,
}

-- The tables say of every account what the ledger says.
pub record IsMirror (t : Tables) (s : Service) : Type 0 where
  pub cash : (user : String) → cents t user ≡ balance s user
  pub held : (user market : String) → shares t user market ≡ position s user market

-- The events of a batch that were not applied before, each once
unfoldable pub fresh_events : Dict String Event → List Event → List Event
fresh_events log [] = []
fresh_events log (e ∷ es) =
    let seen = fresh_events log es in
    let rest = fresh_events (Dict.insert e.id e log) es in if has e.id log then seen else e ∷ rest

-- What the statements of an event do to a user's cash
cents-effect :
    (k : EventKind) (e : Event) (v : String) (t t' : Tables)
    → (has_cash k ≡ true → int_eq e.amount (pos 0) ≡ false → (e.user_id == "") ≡ false)
    → ((u : String) → IsInt64 (cents t u))
    → effect k e t ≡ ok t'
    → cents t' v ≡ (if has_cash k && e.user_id == v then add64 (cents t v) e.amount else cents t v)
unfolding effect cents
cents-effect EventKind.event_market e v t t' named wide h =
    ap (λ b. get_or (Dict.lookup v b) (pos 0))
      (SameAccounts-put_market e.market t t' h).same_balances
cents-effect EventKind.event_balance e v t t' named wide h =
    cents-change_balance e.user_id v e.amount t t' (named refl) h
cents-effect EventKind.event_order e v t t' named wide h =
    let (t₁, placed, h') = then-inverse (put_order e.order t) _ t' h in
    cents-cash e.user_id v e.amount t t₁ t' (named refl)
      (SameAccounts-put_order e.order t t₁ placed).same_balances wide h'
cents-effect EventKind.event_position e v t t' named wide h =
    let (t₁, placed, h') =
      then-inverse (put_shares e.user_id e.market_id e.yes_delta e.no_delta t) _ t' h in
    cents-cash e.user_id v e.amount t t₁ t' (named refl)
      (balances-put_shares e.user_id e.market_id e.yes_delta e.no_delta t t₁ placed) wide h'
cents-effect EventKind.event_trade e v t t' named wide h =
    ap (λ b. get_or (Dict.lookup v b) (pos 0)) (SameAccounts-put_trade e t t' h).same_balances
cents-effect (EventKind.other _) e v t t' named wide h = sym (ap (λ x. cents x v) (ok-injective h))

-- What they do to a user's position
shares-effect :
    (k : EventKind) (e : Event) (v m : String) (t t' : Tables)
    → (has_cash k ≡ true → int_eq e.amount (pos 0) ≡ false → (e.user_id == "") ≡ false)
    → effect k e t ≡ ok t'
    → shares t' v m ≡ (
        if has_shares k && (e.user_id == v && e.market_id == m)
        then moved (shares t v m) e.yes_delta e.no_delta
        else shares t v m)
unfolding effect shares
shares-effect EventKind.event_market e v m t t' named h =
    ap (λ b. get_or (Dict.lookup m (user_positions b v)) zero_position)
      (SameAccounts-put_market e.market t t' h).same_positions
shares-effect EventKind.event_balance e v m t t' named h =
    ap (λ b. get_or (Dict.lookup m (user_positions b v)) zero_position)
      (positions-change_balance e.user_id e.amount t t' (named refl) h)
shares-effect EventKind.event_order e v m t t' named h =
    let (t₁, placed, h') = then-inverse (put_order e.order t) _ t' h in
    ap (λ b. get_or (Dict.lookup m (user_positions b v)) zero_position)
      (positions-change_nonzero e.user_id e.amount t₁ t' (named refl) h'
        ∙ (SameAccounts-put_order e.order t t₁ placed).same_positions)
shares-effect EventKind.event_position e v m t t' named h =
    let (t₁, placed, h') =
      then-inverse (put_shares e.user_id e.market_id e.yes_delta e.no_delta t) _ t' h in
    ap (λ b. get_or (Dict.lookup m (user_positions b v)) zero_position)
      (positions-change_nonzero e.user_id e.amount t₁ t' (named refl) h')
    ∙ shares-put_shares e.user_id e.market_id v m e.yes_delta e.no_delta t t₁ placed
shares-effect EventKind.event_trade e v m t t' named h =
    ap (λ b. get_or (Dict.lookup m (user_positions b v)) zero_position)
      (SameAccounts-put_trade e t t' h).same_positions
shares-effect (EventKind.other _) e v m t t' named h = sym (ap (λ x. shares x v m) (ok-injective h))

-- Every event that moves cash, whose amount is not 0, names a user.
abbrev pub AllNamed : List Event → Type 0
AllNamed [] = Unit
AllNamed (e ∷ es) =
    (has_cash e.kind ≡ true → int_eq e.amount (pos 0) ≡ false → (e.user_id == "") ≡ false)
    × AllNamed es

-- The statements of an event do to the accounts what `apply` does.
IsMirror-effect :
    (e : Event) (t t' : Tables) (s : Service)
    → (has_cash e.kind ≡ true → int_eq e.amount (pos 0) ≡ false → (e.user_id == "") ≡ false)
    → IsMirror t s
    → InRange s
    → effect e.kind e t ≡ ok t'
    → IsMirror t' (apply s e)
IsMirror-effect e t t' s named mirror range h = record {
  cash = λ v.
      cents-effect e.kind e v t t' named
        (λ u. subst (λ (c : ℤ). IsInt64 c) (sym (mirror.cash u)) (range.cash u)) h
      ∙ ap (λ c. if has_cash e.kind && e.user_id == v then add64 c e.amount else c) (mirror.cash v)
      ∙ sym (balance-apply s e v);
  held = λ v m.
      shares-effect e.kind e v m t t' named h
      ∙ ap
          (λ p.
            if has_shares e.kind && (e.user_id == v && e.market_id == m)
            then moved p e.yes_delta e.no_delta
            else p)
          (mirror.held v m)
      ∙ sym (position-apply s e v m);
}

-- The ids that are left to apply: those of the events to come that the log does not have.
abbrev Left : Dict String (Unit {0}) → Dict String Event → List Event → Type 0
Left ids log es = (j : String) → has j ids ≡ (not (has j log) && mentions j es)

Left-known :
    (ids : Dict String (Unit {0})) (log : Dict String Event) (e : Event) (es : List Event)
    → has e.id log ≡ true
    → Left ids log (e ∷ es)
    → Left ids log es
Left-known ids log e es known left j = ground (arith, left j, known, eq_string.equals_iff e.id j)

Left-fresh :
    (ids : Dict String (Unit {0})) (log : Dict String Event) (e : Event) (es : List Event)
    → Left ids log (e ∷ es)
    → Left (Dict.delete e.id ids) (Dict.insert e.id e log) es
Left-fresh ids log e es left j =
    ground
      (arith, left j, has-delete e.id j ids, has-insert e.id j e log, eq_string.equals_iff e.id j)

admitted_now :
    (ids : Dict String (Unit {0})) (log : Dict String Event) (e : Event) (es : List Event)
    → Left ids log (e ∷ es)
    → has e.id ids ≡ not (has e.id log)
admitted_now ids log e es left = ground (arith, left e.id, equals_refl e.id)

then_of : (b : Bool) (x y r : Result Tables) → b ≡ true → (if b then x else y) ≡ r → x ≡ r
then_of true x y r is_true h = h
then_of false x y r is_true h = cc

IsMirror-effects :
    (es : List Event) (ids : Dict String (Unit {0})) (log : Dict String Event) (t t' : Tables)
    (s : Service)
    → AllNamed es
    → Left ids log es
    → IsMirror t s
    → InRange s
    → effects es ids t ≡ ok t'
    → IsMirror t' (apply_all s (fresh_events log es))
unfolding effects fresh_events apply_all
IsMirror-effects [] ids log t t' s named left mirror range h =
    subst (λ (x : Tables). IsMirror x s) (ok-injective h) mirror
IsMirror-effects (e ∷ es) ids log t t' s named left mirror range h =
    elim (Bool-cases (has e.id log)) [
      | inl known ↦
          let seen : has e.id ids ≡ false = admitted_now ids log e es left ∙ ap not known in
          rw known (
            IsMirror-effects es ids log t t' s named.1 (Left-known ids log e es known left) mirror
              range (else_of (has e.id ids) _ _ _ seen h))
      | inr new ↦
          let admitted : has e.id ids ≡ true = admitted_now ids log e es left ∙ ap not new in
          let (t₁, done, h') =
            then-inverse (effect e.kind e t) _ t' (then_of (has e.id ids) _ _ _ admitted h) in
          rw new (
            IsMirror-effects es (Dict.delete e.id ids) (Dict.insert e.id e log) t₁ t' (apply s e)
              named.1 (Left-fresh ids log e es left)
              (IsMirror-effect e t t₁ s named.0 mirror range done) (apply-InRange s e range) h')
    ]

-- If the tables say of every account what the ledger says, whose amounts are 64-bit integers, and a
-- batch, of which every event that moves cash (of an amount that is not 0) names a user, is projected
-- without an error, the tables say afterwards of every balance and position what the ledger says after it has applied the events of the batch that were not projected before, each once.
pub projected-IsMirror :
    (es : List Event) (t t' : Tables) (s : Service)
    → AllNamed es
    → IsMirror t s
    → InRange s
    → projected es t ≡ ok t'
    → IsMirror t' (apply_all s (fresh_events t.order_events es))
unfolding projected cents shares
projected-IsMirror es t t' s named mirror range h =
    let (log, ids) = admit es t.order_events in
    IsMirror-effects es ids t.order_events (record t { order_events = log }) t' s named
      (admitted-admit es t.order_events) (record { cash = mirror.cash; held = mirror.held }) range
      (checked-inverse (wide_sequence es) _ _ t' h).1

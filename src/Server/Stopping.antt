-- ===== src/Server/Stopping.antt =====
-- A shutdown comes to its end (go-backend/internal/server/server.go).
use mathlib.Core.List.{append_assoc, append-nil}
use prediction_market.Base.{
  if◌then◌else◌, zero, ℕ, suc, ◌+◌, ◌*◌, ◌≤◌, ◌≡◌, refl, ◌∙◌, sym, ap, subst, arith, Bool, true,
  false, not, ◌&&◌, Option, none, some, List, [], ◌∷◌, ◌++◌, length,
}
use prediction_market.Server.Lifecycle.{
  Call, take_snapshot, close_service, close_quotes, close_engine, close_database, begins, ends,
  Mark, Loop, selecting, taking, returned, Stop, serving, waiting, before, within, Process,
  shutdown_calls, Move, tick, taken, leave, go_on, begin_call, end_call, loop_move, stop_move, move,
  run,
}
use prediction_market.Server.Stopped.{
  periodic, whole, begun, Shape, IsOrderly, Reached, Kept, process, move-Kept, Reached-IsOrderly,
}

abbrev pub is_tick : Move → Bool
is_tick tick = true
is_tick _ = false

abbrev pub WithoutTicks : List Move → Type 0
WithoutTicks [] = Unit
WithoutTicks (k ∷ ks) = (is_tick k ≡ false) × WithoutTicks ks

-- At most n moves, none of them a tick, that end the goroutine and the shutdown
pub record Ends (n : ℕ) (p : Process) : Type 0 where
  pub moves : List Move
  pub few : length moves ≤ n
  pub without_ticks : WithoutTicks moves
  pub ended : Process
  pub runs : run moves p ≡ some ended
  pub loop : ended.loop ≡ returned
  pub stop : ended.stop ≡ before []

Ends-move :
    {n : ℕ} {p p' : Process} (k : Move)
    → is_tick k ≡ false
    → move k p ≡ some p'
    → Ends n p'
    → Ends (suc n) p
unfolding run
Ends-move {n} {p} {p'} k other e r = record {
  moves = k ∷ r.moves;
  few = omega (arith, r.few);
  without_ticks = (other, r.without_ticks);
  ended = r.ended;
  runs = ap (λ (o : Option Process). elim o [ none ↦ none | some q ↦ run r.moves q ]) e ∙ r.runs;
  loop = r.loop;
  stop = r.stop;
}

Ends-mono : {m n : ℕ} {p : Process} → m ≤ n → Ends m p → Ends n p
Ends-mono h r = record {
  moves = r.moves;
  few = omega (arith, h, r.few);
  without_ticks = r.without_ticks;
  ended = r.ended;
  runs = r.runs;
  loop = r.loop;
  stop = r.stop;
}

Ends-before :
    (b : Bool) (cs : List Call) (ms : List Mark)
    → Ends (2 * length cs) (process b returned (before cs) ms)
unfolding run move stop_move
Ends-before b [] ms = record {
  moves = [];
  few = omega arith;
  without_ticks = tt;
  ended = process b returned (before []) ms;
  runs = refl;
  loop = refl;
  stop = refl;
}
Ends-before b (c ∷ cs) ms =
    Ends-mono (omega arith)
      (Ends-move begin_call refl refl (Ends-move end_call refl refl (Ends-before b cs _)))

length-append : (cs ds : List Call) → length (cs ++ ds) ≡ length cs + length ds
length-append [] ds = omega arith
length-append (c ∷ cs) ds = omega (arith, length-append cs ds)

few_left : (done cs : List Call) → done ++ cs ≡ shutdown_calls → length cs ≤ 5
few_left done cs e = omega (arith, sym (length-append done cs) ∙ ap (λ (x : List Call). length x) e)

Ends-waiting : (b : Bool) (ms : List Mark) → Ends 11 (process b returned waiting ms)
unfolding move stop_move
Ends-waiting b ms = Ends-move go_on refl refl (Ends-before b shutdown_calls ms)

Ends-selecting : (b : Bool) (ms : List Mark) → b ≡ true → Ends 12 (process b selecting waiting ms)
unfolding move loop_move
Ends-selecting true ms e = Ends-move leave refl refl (Ends-waiting true ms)
Ends-selecting false ms e = absurd (cc e)

-- From wherever the shutdown is
IsOrderly-Ends :
    (b : Bool) (l : Loop) (t : Stop) (ms : List Mark)
    → begun t ≡ true
    → IsOrderly (process b l t ms)
    → Ends 13 (process b l t ms)
unfolding move loop_move stop_move
IsOrderly-Ends b l serving ms h o = absurd (cc h)
IsOrderly-Ends b selecting waiting ms h o = Ends-mono (omega arith) (Ends-selecting b ms o.closed)
IsOrderly-Ends b taking waiting ms h o = Ends-move taken refl refl (Ends-selecting b _ o.closed)
IsOrderly-Ends b returned waiting ms h o = Ends-mono (omega arith) (Ends-waiting b ms)
IsOrderly-Ends b selecting (before cs) ms h o = absurd o.shape
IsOrderly-Ends b taking (before cs) ms h o = absurd o.shape
IsOrderly-Ends b returned (before cs) ms h o =
    let (n, done, all, e) = o.shape in
    let few = few_left done cs all in Ends-mono (omega (arith, few)) (Ends-before b cs ms)
IsOrderly-Ends b selecting (within []) ms h o = absurd o.shape
IsOrderly-Ends b taking (within []) ms h o = absurd o.shape
IsOrderly-Ends b returned (within []) ms h o = absurd o.shape
IsOrderly-Ends b selecting (within (c ∷ cs)) ms h o = absurd o.shape
IsOrderly-Ends b taking (within (c ∷ cs)) ms h o = absurd o.shape
IsOrderly-Ends b returned (within (c ∷ cs)) ms h o =
    let (n, done, all, e) = o.shape in
    let few = few_left done (c ∷ cs) all in
    Ends-mono (omega (arith, few)) (Ends-move end_call refl refl (Ends-before b cs _))

run-Kept : (ks : List Move) (p : Process) → IsOrderly p → Kept (run ks p)
unfolding run
run-Kept [] p o = o
run-Kept (k ∷ ks) p o = continue (λ q h. run-Kept ks q h) (move k p) (move-Kept k p o)
  where
    continue :
        ((q : Process) → IsOrderly q → Kept (run ks q))
        → (q : Option Process) → Kept q
        → Kept (elim q [ none ↦ none | some p' ↦ run ks p' ])
    continue rest none h = tt
    continue rest (some p') h = rest p' h

finished :
    (l : Loop) (t : Stop) (ms : List Mark)
    → l ≡ returned
    → t ≡ before []
    → Shape l t ms
    → (n : ℕ) × (ms ≡ periodic n ++ whole shutdown_calls)
finished l t ms le te shape =
    let last : Shape returned (before []) ms =
      subst (λ (x : Stop). Shape returned x ms) te (subst (λ (x : Loop). Shape x t ms) le shape) in
    let (n, done, all, e) = last in
    (n, e ∙ ap (λ (x : List Call). periodic n ++ whole x) (sym (append-nil done) ∙ all))

-- What is open, whether a snapshot has been taken, and whether a call is being made
pub record Parts : Type 0 where
  pub service : Bool
  pub saved : Bool
  pub quotes : Bool
  pub engine : Bool
  pub database : Bool
  pub busy : Bool

-- A snapshot needs an open service. The service is closed once, after a snapshot. Redis, the engines
-- and the database are closed once, when the service is closed: its workers use them until then.
abbrev pub may_begin : Call → Parts → Bool
may_begin take_snapshot x = x.service
may_begin close_service x = x.service && x.saved
may_begin close_quotes x = x.quotes && not x.service
may_begin close_engine x = x.engine && not x.service
may_begin close_database x = x.database && not x.service

abbrev pub after_call : Call → Parts → Parts
after_call take_snapshot x = record x { saved = true }
after_call close_service x = record x { service = false }
after_call close_quotes x = record x { quotes = false }
after_call close_engine x = record x { engine = false }
after_call close_database x = record x { database = false }

-- The calls, in turn: none if one begins during another, or when it may not
unfoldable pub play : List Mark → Parts → Option Parts
play [] x = some x
play (begins c ∷ ms) x =
    let rest = play ms (record x { busy = true }) in
    if not x.busy && may_begin c x then rest else none
play (ends c ∷ ms) x =
    let rest = play ms (after_call c (record x { busy = false })) in if x.busy then rest else none

abbrev pub open_parts : Bool → Parts
open_parts saved = record {
  service = true;
  saved = saved;
  quotes = true;
  engine = true;
  database = true;
  busy = false;
}

abbrev pub closed_parts : Parts
closed_parts = record {
  service = false;
  saved = true;
  quotes = false;
  engine = false;
  database = false;
  busy = false;
}

play-snapshot :
    (ms : List Mark) (saved : Bool)
    → play (begins take_snapshot ∷ ends take_snapshot ∷ ms) (open_parts saved)
      ≡ play ms (open_parts true)
unfolding play
play-snapshot ms saved = refl

-- Whole snapshots, one after another
play-periodic :
    (n : ℕ) (ms : List Mark) (saved : Bool)
    → (later : Bool) × (play (periodic n ++ ms) (open_parts saved) ≡ play ms (open_parts later))
play-periodic zero ms saved = (saved, refl)
play-periodic (suc n) ms saved =
    let (later, e) = play-periodic n (begins take_snapshot ∷ ends take_snapshot ∷ ms) saved in
    (
      true,
      ap (λ (x : List Mark). play x (open_parts saved))
            (append_assoc (periodic n) (begins take_snapshot ∷ ends take_snapshot ∷ []) ms)
          ∙ e
          ∙ play-snapshot ms later,
    )

play-shutdown : (saved : Bool) → play (whole shutdown_calls) (open_parts saved) ≡ some closed_parts
unfolding play
play-shutdown saved = refl

-- Once a shutdown has begun, at any moment of any order of the moves, there are at most thirteen
-- moves, none of them a tick, that end it, and the calls of the whole life are then in order: none
-- begins before the one before it has ended, every snapshot is of an open service, the service is
-- closed once and after a snapshot, and Redis, the engines and the database are closed once and after
-- the service.
pub Reached-Ends :
    {p : Process}
    → Reached p
    → begun p.stop ≡ true
    → (r : Ends 13 p) × (play r.ended.marks (open_parts false) ≡ some closed_parts)
Reached-Ends {p} reached h =
    let o = Reached-IsOrderly reached in
    let r = IsOrderly-Ends p.stop_closed p.loop p.stop p.marks h o in
    let last = subst (λ (q : Option Process). Kept q) r.runs (run-Kept r.moves p o) in
    let (n, e) = finished r.ended.loop r.ended.stop r.ended.marks r.loop r.stop last.shape in
    let (later, done) = play-periodic n (whole shutdown_calls) false in
    (r, ap (λ (x : List Mark). play x (open_parts false)) e ∙ done ∙ play-shutdown later)

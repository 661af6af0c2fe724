-- ===== src/Server/Stopped.antt =====
-- The end of a server (go-backend/internal/server/server.go), in every order of its moves.
use mathlib.Core.List.{append_assoc, append-nil}
use prediction_market.Base.{
  ℕ, zero, suc, ◌≡◌, refl, ◌∙◌, sym, ap, subst, Bool, true, false, Option, none, some, List, [],
  ◌∷◌, ◌++◌,
}
use prediction_market.Server.Lifecycle.{
  Call, take_snapshot, Mark, begins, ends, Loop, selecting, taking, returned, Stop, serving,
  waiting, before, within, Process, new_process, shutdown_calls, Move, tick, taken, leave,
  shut_down, go_on, begin_call, end_call, loop_move, stop_move, move,
}

-- n snapshots, one after the other
abbrev pub periodic : ℕ → List Mark
periodic zero = []
periodic (suc n) = periodic n ++ begins take_snapshot ∷ ends take_snapshot ∷ []

-- The calls, one after the other
abbrev pub whole : List Call → List Mark
whole [] = []
whole (c ∷ cs) = begins c ∷ ends c ∷ whole cs

-- What has been called when the goroutine and the shutdown are where they are
abbrev pub Shape : Loop → Stop → List Mark → Type 0
Shape selecting serving ms = (n : ℕ) × (ms ≡ periodic n)
Shape selecting waiting ms = (n : ℕ) × (ms ≡ periodic n)
Shape taking serving ms = (n : ℕ) × (ms ≡ periodic n ++ begins take_snapshot ∷ [])
Shape taking waiting ms = (n : ℕ) × (ms ≡ periodic n ++ begins take_snapshot ∷ [])
Shape returned waiting ms = (n : ℕ) × (ms ≡ periodic n)
Shape returned (before cs) ms =
    (n : ℕ) × (done : List Call) × (done ++ cs ≡ shutdown_calls) × (ms ≡ periodic n ++ whole done)
Shape returned (within (c ∷ cs)) ms =
    (n : ℕ) × (done : List Call) × (done ++ c ∷ cs ≡ shutdown_calls)
    × (ms ≡ (periodic n ++ whole done) ++ begins c ∷ [])
Shape _ _ ms = ⊥

-- The channel is closed when the shutdown has begun
abbrev pub begun : Stop → Bool
begun serving = false
begun _ = true

pub record IsOrderly (p : Process) : Type 0 where
  pub shape : Shape p.loop p.stop p.marks
  pub closed : p.stop_closed ≡ begun p.stop

-- What any moves lead to
pub data Reached : Process → Type 0 where
  start : Reached new_process
  moved : {p p' : Process} (k : Move) → move k p ≡ some p' → Reached p → Reached p'

whole-append :
    (cs : List Call) (c : Call) → whole (cs ++ c ∷ []) ≡ whole cs ++ begins c ∷ ends c ∷ []
whole-append [] c = refl
whole-append (x ∷ cs) c = ap (λ ms. begins x ∷ ends x ∷ ms) (whole-append cs c)

abbrev pub process : Bool → Loop → Stop → List Mark → Process
process b l t ms = record { stop_closed = b; loop = l; stop = t; marks = ms }

-- A move that cannot be made leads nowhere.
abbrev pub Kept : Option Process → Type 0
Kept none = Unit
Kept (some p) = IsOrderly p

tick-Kept :
    (b : Bool) (l : Loop) (t : Stop) (ms : List Mark)
    → IsOrderly (process b l t ms)
    → Kept (loop_move tick l (process b l t ms))
unfolding loop_move
tick-Kept b taking t ms o = tt
tick-Kept b returned t ms o = tt
tick-Kept b selecting serving ms o =
    let (n, e) = o.shape in
    record { shape = (n, ap (λ x. x ++ begins take_snapshot ∷ []) e); closed = o.closed }
tick-Kept b selecting waiting ms o =
    let (n, e) = o.shape in
    record { shape = (n, ap (λ x. x ++ begins take_snapshot ∷ []) e); closed = o.closed }
tick-Kept b selecting (before cs) ms o = absurd o.shape
tick-Kept b selecting (within cs) ms o = absurd o.shape

round :
    (n : ℕ) (ms : List Mark)
    → ms ≡ periodic n ++ begins take_snapshot ∷ []
    → ms ++ ends take_snapshot ∷ [] ≡ periodic (suc n)
round n ms e =
    ap (λ x. x ++ ends take_snapshot ∷ []) e
    ∙ append_assoc (periodic n) (begins take_snapshot ∷ []) (ends take_snapshot ∷ [])

taken-Kept :
    (b : Bool) (l : Loop) (t : Stop) (ms : List Mark)
    → IsOrderly (process b l t ms)
    → Kept (loop_move taken l (process b l t ms))
unfolding loop_move
taken-Kept b selecting t ms o = tt
taken-Kept b returned t ms o = tt
taken-Kept b taking serving ms o =
    let (n, e) = o.shape in record { shape = (suc n, round n ms e); closed = o.closed }
taken-Kept b taking waiting ms o =
    let (n, e) = o.shape in record { shape = (suc n, round n ms e); closed = o.closed }
taken-Kept b taking (before cs) ms o = absurd o.shape
taken-Kept b taking (within cs) ms o = absurd o.shape

leave-Kept :
    (b : Bool) (l : Loop) (t : Stop) (ms : List Mark)
    → IsOrderly (process b l t ms)
    → Kept (loop_move leave l (process b l t ms))
unfolding loop_move
leave-Kept false selecting t ms o = tt
leave-Kept false taking t ms o = tt
leave-Kept false returned t ms o = tt
leave-Kept true taking t ms o = tt
leave-Kept true returned t ms o = tt
leave-Kept true selecting serving ms o = absurd (cc o.closed)
leave-Kept true selecting waiting ms o = record { shape = o.shape; closed = o.closed }
leave-Kept true selecting (before cs) ms o = absurd o.shape
leave-Kept true selecting (within cs) ms o = absurd o.shape

shut_down-Kept :
    (b : Bool) (l : Loop) (t : Stop) (ms : List Mark)
    → IsOrderly (process b l t ms)
    → Kept (stop_move shut_down l t (process b l t ms))
unfolding stop_move
shut_down-Kept b selecting serving ms o = record { shape = o.shape; closed = refl }
shut_down-Kept b taking serving ms o = record { shape = o.shape; closed = refl }
shut_down-Kept b returned serving ms o = absurd o.shape
shut_down-Kept b l waiting ms o = tt
shut_down-Kept b l (before cs) ms o = tt
shut_down-Kept b l (within cs) ms o = tt

go_on-Kept :
    (b : Bool) (l : Loop) (t : Stop) (ms : List Mark)
    → IsOrderly (process b l t ms)
    → Kept (stop_move go_on l t (process b l t ms))
unfolding stop_move
go_on-Kept b selecting t ms o = tt
go_on-Kept b taking t ms o = tt
go_on-Kept b returned serving ms o = tt
go_on-Kept b returned waiting ms o =
    let (n, e) = o.shape in
    record { shape = (n, [], refl, e ∙ sym (append-nil (periodic n))); closed = o.closed }
go_on-Kept b returned (before cs) ms o = tt
go_on-Kept b returned (within cs) ms o = tt

begin_call-Kept :
    (b : Bool) (l : Loop) (t : Stop) (ms : List Mark)
    → IsOrderly (process b l t ms)
    → Kept (stop_move begin_call l t (process b l t ms))
unfolding stop_move
begin_call-Kept b l serving ms o = tt
begin_call-Kept b l waiting ms o = tt
begin_call-Kept b l (before []) ms o = tt
begin_call-Kept b selecting (before (c ∷ cs)) ms o = absurd o.shape
begin_call-Kept b taking (before (c ∷ cs)) ms o = absurd o.shape
begin_call-Kept b returned (before (c ∷ cs)) ms o =
    let (n, done, all, e) = o.shape in
    record { shape = (n, done, all, ap (λ x. x ++ begins c ∷ []) e); closed = o.closed }
begin_call-Kept b l (within cs) ms o = tt

whole_one :
    (n : ℕ) (done : List Call) (c : Call) (ms : List Mark)
    → ms ≡ (periodic n ++ whole done) ++ begins c ∷ []
    → ms ++ ends c ∷ [] ≡ periodic n ++ whole (done ++ c ∷ [])
whole_one n done c ms e =
    ap (λ x. x ++ ends c ∷ []) e
    ∙ append_assoc (periodic n ++ whole done) (begins c ∷ []) (ends c ∷ [])
    ∙ append_assoc (periodic n) (whole done) (begins c ∷ ends c ∷ [])
    ∙ ap (λ x. periodic n ++ x) (sym (whole-append done c))

end_call-Kept :
    (b : Bool) (l : Loop) (t : Stop) (ms : List Mark)
    → IsOrderly (process b l t ms)
    → Kept (stop_move end_call l t (process b l t ms))
unfolding stop_move
end_call-Kept b l serving ms o = tt
end_call-Kept b l waiting ms o = tt
end_call-Kept b l (before cs) ms o = tt
end_call-Kept b l (within []) ms o = tt
end_call-Kept b selecting (within (c ∷ cs)) ms o = absurd o.shape
end_call-Kept b taking (within (c ∷ cs)) ms o = absurd o.shape
end_call-Kept b returned (within (c ∷ cs)) ms o =
    let (n, done, all, e) = o.shape in
    record {
      shape = (n, done ++ c ∷ [], append_assoc done (c ∷ []) cs ∙ all, whole_one n done c ms e);
      closed = o.closed;
    }

pub move-Kept : (k : Move) (p : Process) → IsOrderly p → Kept (move k p)
unfolding move
move-Kept tick p o = tick-Kept p.stop_closed p.loop p.stop p.marks o
move-Kept taken p o = taken-Kept p.stop_closed p.loop p.stop p.marks o
move-Kept leave p o = leave-Kept p.stop_closed p.loop p.stop p.marks o
move-Kept shut_down p o = shut_down-Kept p.stop_closed p.loop p.stop p.marks o
move-Kept go_on p o = go_on-Kept p.stop_closed p.loop p.stop p.marks o
move-Kept begin_call p o = begin_call-Kept p.stop_closed p.loop p.stop p.marks o
move-Kept end_call p o = end_call-Kept p.stop_closed p.loop p.stop p.marks o

-- In every order of the moves, the calls up to any moment are some periodic snapshots, one ended
-- before the next begins, and then, when the goroutine has returned, the calls of the shutdown in
-- their order: a last snapshot, and the ends of the trading service, Redis, the engines and the
-- database.
pub Reached-IsOrderly : {p : Process} → Reached p → IsOrderly p
Reached-IsOrderly start = record { shape = (0, refl); closed = refl }
Reached-IsOrderly (moved {p} k e r) =
    subst (λ (o : Option Process). Kept o) e (move-Kept k p (Reached-IsOrderly r))

-- ===== src/Trading/Batch/Solvency.antt =====
-- No batch overdraws an account: the first loop of `placeBatchWithQuotes` of
-- go-backend/internal/trading/order_batch.go, request by request.
use prediction_market.Base.{
  ℕ, suc, ◌≡◌, refl, ◌∙◌, sym, subst, Option, none, some, List, [], ◌∷◌, eq_string, inl, inr,
  Bool-cases,
}
use prediction_market.Int.{IsInt64}
use prediction_market.Dict
use prediction_market.Dict.{Dict, lookup-insert, lookup-insert_self}
use prediction_market.Ledger.{Service, Order, Event, Error, apply_all}
use prediction_market.Ledger.Range.{InRange}
use prediction_market.Result.{Result, ok, err}
use prediction_market.Orders.{same_order, is_buy, prepare_order, reservation, reserved_order}
use prediction_market.Orders.Admission.{
  prepare_order-IsAdmissible, IsAdmissible-prepare_order, reserved_events,
}
use prediction_market.Trading.Batch.{
  Placement, Verdict, eq_account_market, Admissions, no_admissions, admit_prepared, admit_repeated,
  admit_request, admit_all,
}
use prediction_market.Trading.Batch.Solvent.{IsFunded, Counts, Counts-none}
use prediction_market.Trading.Batch.Reserved.{stake-Counts}

-- The quantities are of Go's `int`.
abbrev pub FitInt64 : List Placement → Type 0
FitInt64 [] = Unit
FitInt64 (request ∷ requests) = IsInt64 request.order.quantity × FitInt64 requests

module _ (s : Service) where
  -- One order, for whatever `prepareOrder` gives
  prepared-Counts :
      (a : Admissions) (i : ℕ) (o : Order)
      → Counts s a
      → IsInt64 o.quantity
      → (r : Result (List Event)) → prepare_order s o ≡ r
      → Counts s (admit_prepared s a i o r).1
  unfolding admit_prepared reservation reserved_order
  prepared-Counts a i o c fits (err x) e = c
  prepared-Counts a i o c fits (ok []) e = c
  prepared-Counts a i o c fits (ok (x ∷ xs)) e =
      let admitted = IsAdmissible-prepare_order s o (prepare_order-IsAdmissible s o x xs fits e) in
      let same : ok (reserved_events s o) ≡ ok (x ∷ xs) = sym admitted ∙ e in
      subst (λ (r : Result (List Event)). Counts s (admit_prepared s a i o r).1) same
        (stake-Counts s a c i o _ _ _ (is_buy o.side) _ _ _ refl)

  admit_repeated-Counts :
      (a : Admissions) (o : Order) (original : ℕ × Order)
      → Counts s a
      → Counts s (admit_repeated a o original).1
  unfolding admit_repeated
  admit_repeated-Counts a o (i, previous) c = elim (Bool-cases (same_order previous o)) [
    | inl e ↦ rw e c
    | inr e ↦ rw e c
  ]

  admit_request-Counts :
      (a : Admissions) (i : ℕ) (request : Placement)
      → Counts s a
      → IsInt64 request.order.quantity
      → Counts s (admit_request s a i request).1
  unfolding admit_request
  admit_request-Counts a i request c fits =
      new_request request.context (Dict.lookup request.order.id a.by_id)
    where
      new_request :
          (context : Option Error) (known : Option (ℕ × Order))
          → Counts s (
              let r : Verdict × Admissions = elim context [
                | some e ↦ (Verdict.decided (some e), a)
                | none ↦ elim known [
                  | some original ↦ admit_repeated a request.order original
                  | none ↦ admit_prepared s a i request.order (prepare_order s request.order)
                ]
              ] in
              r.1)
      new_request (some e) known = c
      new_request none (some original) = admit_repeated-Counts a request.order original c
      new_request none none = prepared-Counts a i request.order c fits _ refl

  admit_all-Counts :
      (a : Admissions) (i : ℕ) (requests : List Placement)
      → Counts s a
      → FitInt64 requests
      → Counts s (admit_all s a i requests).1
  unfolding admit_all
  admit_all-Counts a i [] c fits = c
  admit_all-Counts a i (request ∷ requests) c (fit, fits) =
      admit_all-Counts (admit_request s a i request).1 (suc i) requests
        (admit_request-Counts a i request c fit) fits

-- If all amounts in the accounts are 64-bit integers and none is negative, and the quantities of the
-- requests are 64-bit integers, no balance and no number of shares is negative after the events that
-- the first loop of placeBatchWithQuotes admits of a batch of any requests, of one user or of many.
pub admit_all-IsFunded :
    (s : Service) (requests : List Placement)
    → InRange s
    → IsFunded s
    → FitInt64 requests
    → IsFunded (apply_all s (admit_all s no_admissions 0 requests).1.initial)
admit_all-IsFunded s requests range funded fits =
    (admit_all-Counts s no_admissions 0 requests (Counts-none s range funded) fits).funded

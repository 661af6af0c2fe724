-- ===== src/Server/Latched.antt =====
-- The server of go-backend/internal/server while the trading service has a latched failure.
use prediction_market.Base.{
  ◌≤◌, ◌≡◌, refl, sym, ap, subst, ◌∙◌, arith, String, Bool, true, false, not, ◌&&◌, ◌||◌, Option,
  none, some, ◌==◌, eq_string, if◌then◌else◌, List, [], ◌∷◌, ◌++◌, length, map, Bool-cases, inl,
  inr,
}
use prediction_market.Ledger.{Error, Order}
use prediction_market.Result.{Result, ok, err, error_of}
use prediction_market.Machine.{Backend, Machine, pure, continue}
use prediction_market.Auth.{Caller, require_owner, user_id}
use prediction_market.Hub.{Hub}
use prediction_market.Trading.Place.{place_single}
use prediction_market.Trading.Accounts.{Context, cancel}
use prediction_market.Trading.Resolve.{resolve_for}
use prediction_market.Trading.Latch.{
  create_market, deposit_cents, place_order, cancel_request, resolve_request, handle,
  handle-latched,
}
use prediction_market.Server.Types.{
  Body, OrderRequest, PlaceError, Response, respond, Server, State, Handler, with_body, with_owner,
  after_call,
}
use prediction_market.Trading.Views
use prediction_market.Trading.Quotes.{MarketQuote}
use prediction_market.Server.Api.{Moment, service_api, place_answer, waited, place_queued, place}
use prediction_market.Int.{pos, ltb_ℤ}
use prediction_market.Trading.Batch.{Placement, outcome_at}
use prediction_market.Trading.Batch.Commit.{place_batch}
use prediction_market.Trading.Batch.Queue.{EnqueueError, enqueue}
use prediction_market.Server.Handlers.{
  create_market_handler, durable_order_handler, deposit_handler, balance_handler, position_handler,
  order_handler, cancel_order_handler, resolve_market_handler, place_as, requested_order,
  show_order, after_place, resolve_status,
}
use prediction_market.Server.Routes.{
  SecuredRequest, post_market, post_order, get_order, delete_order, post_deposit, get_balance,
  get_position, post_resolve, dispatch,
}

-- The requests that ask for a change
abbrev pub IsChange : SecuredRequest → Type 0
IsChange (get_order id) = ⊥
IsChange (get_balance user) = ⊥
IsChange (get_position user market) = ⊥
IsChange _ = Unit

-- The service and the hub are as they were, and a change was answered with an error.
pub record IsRefused {V W : Type 0} (r : SecuredRequest) (s : Machine V) (hub : Hub)
    (x : Response × State (Machine V) W) : Type 0 where
  pub service_kept : x.1.service ≡ s
  pub hub_kept : x.1.hub ≡ hub
  pub told : IsChange r → 400 ≤ x.0.status

-- The end of a method is an error where the method with its value left out ends in it.
answer-then :
    {V A : Type 0} (e : Error) (m : Machine V) (x : Result A × Machine V)
    → continue x.0 (λ _. pure tt) x.1 ≡ (err e, m)
    → Path (Option Error × Machine V) (error_of x.0, x.1) (some e, m)
answer-then e m (ok a, m') h = absurd (ground arith)
answer-then e m (err e', m') h = cc

module _ {V W : Type 0} (r : SecuredRequest) (st : State (Machine V) W) where
  abbrev Refused : Response × State (Machine V) W → Type 0
  Refused = IsRefused r st.service st.hub

  Refused-with_body :
      {A : Type 0} (body : Option A) (message : String) (next : A → Handler (Machine V) W)
      → ((a : A) → Refused (next a st))
      → Refused (with_body body message next st)
  Refused-with_body none message next h = record {
    service_kept = refl;
    hub_kept = refl;
    told = λ _. omega arith;
  }
  Refused-with_body (some a) message next h = h a

  Refused-with_owner :
      (owner : Result String) (next : String → Handler (Machine V) W)
      → ((user : String) → Refused (next user st))
      → Refused (with_owner owner next st)
  Refused-with_owner (err e) next h = record {
    service_kept = refl;
    hub_kept = refl;
    told = λ _. omega arith;
  }
  Refused-with_owner (ok user) next h = h user

  Refused-call :
      (bad : Error → Response) (good : Response) (x : Option Error × Machine V) (e : Error)
      → x ≡ (some e, st.service)
      → ((e' : Error) → 400 ≤ (bad e').status)
      → Refused (after_call bad good x st)
  Refused-call bad good x e same h =
      subst (λ (y : Option Error × Machine V). Refused (after_call bad good y st)) (sym same)
        (record { service_kept = refl; hub_kept = refl; told = λ _. h e })

  Refused-if :
      (b : Bool) (x y : Response × State (Machine V) W)
      → Refused x
      → Refused y
      → Refused (if b then x else y)
  Refused-if true x y h k = h
  Refused-if false x y h k = k

place_status_bad : (b : Bool) → 400 ≤ (if b then 503 else 400)
place_status_bad true = omega arith
place_status_bad false = omega arith

resolve_status_bad : (e : Error) → 400 ≤ (resolve_status e).status
resolve_status_bad e = ground arith

module _ {V W : Type 0} (be : Backend V) (now : Moment) (server : Server (Machine V) W)
    (f : Error) where
  -- An order in a batch, wherever it stands
  outcome-refused :
      (ahead behind : List Placement) (p : Placement)
      → outcome_at (map (λ _. some f) (ahead ++ p ∷ behind)) (length ahead) ≡ some f
  outcome-refused [] behind p = refl
  outcome-refused (x ∷ ahead) behind p = outcome-refused ahead behind p

  batch-refused :
      (requests : List Placement) (m : Machine V)
      → m.service.failure ≡ some f
      → place_batch be requests m ≡ ((map (λ _. some f) requests, []), m)
  unfolding place_batch
  batch-refused requests m stuck = rw stuck refl

  queued-refused :
      (o : Order) (m : Machine V)
      → m.service.failure ≡ some f
      → (e : PlaceError) × (place_queued be now o m ≡ (some e, m))
  unfolding place_queued
  queued-refused o m stuck =
      by_queue (enqueue (record { context = now.context; order = o }) now.queue).0
    where
      by_context :
          (waiting : Context)
          → (e : PlaceError) × (place_answer (waited waiting (some f), m) ≡ (some e, m))
      by_context none = (PlaceError.service f, refl)
      by_context (some x) = (PlaceError.service x, refl)

      by_queue :
          (r : Option EnqueueError)
          → (e : PlaceError) × ((elim r [
            | some e' ↦ (some (PlaceError.queue e'), m)
            | none ↦
                let requests =
                  now.ahead ++ record { context = now.context_taken; order = o } ∷ now.behind in
                let (told, m') = place_batch be requests m in
                place_answer (waited now.context_waiting (outcome_at told.0 (length now.ahead)), m')
          ])
              ≡ (some e, m))
      by_queue (some e') = (PlaceError.queue e', refl)
      by_queue none =
          let (e, told) = by_context now.context_waiting in
          let p : Placement = record { context = now.context_taken; order = o } in
          (
            e,
            ap
                  (λ (x : (List (Option Error) × List MarketQuote) × Machine V).
                    place_answer
                      (waited now.context_waiting (outcome_at x.0.0 (length now.ahead)), x.1))
                  (batch-refused (now.ahead ++ p ∷ now.behind) m stuck)
                ∙ ap (λ (x : Option Error). place_answer (waited now.context_waiting x, m))
                    (outcome-refused now.ahead now.behind p)
                ∙ told,
          )

  place-refused :
      (o : Order) (m : Machine V)
      → m.service.failure ≡ some f
      → (e : PlaceError) × (place be now o m ≡ (some e, m))
  unfolding place handle
  place-refused o m stuck = elim (Bool-cases (ltb_ℤ (pos 1) now.order_batch_size)) [
    | inl many ↦ rw many (queued-refused o m stuck)
    | inr one ↦
        let (e, same) = handle-latched be m f stuck (place_order now.context o) in
        let told = answer-then e m (place_single be now.context o m) same in
        rw (one, told) (PlaceError.service e, refl)
  ]

  Refused-place :
      (r : SecuredRequest) (caller : Caller) (req : OrderRequest) (id : String)
      (st : State (Machine V) W)
      → st.service.service.failure ≡ some f
      → Refused r st (place_as server (service_api be now) caller req id st)
  unfolding place_as after_place service_api
  Refused-place r caller req id st stuck =
      Refused-with_owner r st (require_owner caller req.user_id) _ (λ user.
        let (e, same) = place-refused (requested_order req id user) st.service stuck in
        subst (λ (y : Option PlaceError × Machine V). Refused r st (after_place server req id y st))
          (sym same)
          (record { service_kept = refl; hub_kept = refl; told = λ _. place_status_bad _ }))

  unit_answer :
      (m : Machine V) (e : Error) (x : Result (Unit {0}) × Machine V)
      → x ≡ (err e, m)
      → Path (Option Error × Machine V) (error_of x.0, x.1) (some e, m)
  unit_answer m e x h = ap (λ y. (error_of y.0, y.1)) h

  shown :
      (r : SecuredRequest) (caller : Caller) (found : Option Order) (st : State (Machine V) W)
      → (IsChange r → ⊥)
      → Refused r st (show_order server caller found st)
  unfolding show_order
  shown r caller none st read = record {
    service_kept = refl;
    hub_kept = refl;
    told = λ x. absurd (read x);
  }
  shown r caller (some o) st read =
      Refused-with_owner r st (require_owner caller o.user_id) _
        (λ user. record { service_kept = refl; hub_kept = refl; told = λ x. absurd (read x) })

  -- While the trading service has a latched failure, a request that the authentication let through
  -- leaves the service's state, its files and engine and the hub as they are, and a request for a change
  -- is answered with a code of 400 or more. This is for any size of the order batches, any orders of
  -- other clients in the batch, any state of the order queue, and any end of the request's context.
  pub dispatch-latched :
      (caller : Caller) (r : SecuredRequest) (st : State (Machine V) W)
      → st.service.service.failure ≡ some f
      → server.trading ≡ some (service_api be now)
      → Refused r st (dispatch server caller r st)
  unfolding dispatch create_market_handler deposit_handler balance_handler position_handler
      order_handler show_order cancel_order_handler resolve_market_handler durable_order_handler
      service_api handle
  dispatch-latched caller (post_market body) st stuck here =
      let r = post_market body in
      rw here (
        Refused-with_body r st body "id and symbol are required" _ (λ req.
          let owner = (user_id caller).0 in
          let (e, same) =
            handle-latched be st.service f stuck (create_market req.id req.symbol owner) in
          Refused-if r st (req.id == "" || server.trim_space req.symbol == "")
            (respond 400 (Body.text "id and symbol are required"), st) _
            (record { service_kept = refl; hub_kept = refl; told = λ _. omega arith })
            (Refused-call r st (λ x. respond 409 (Body.failed x))
              (respond 201 (Body.market_created req)) _ e (unit_answer st.service e _ same)
              (λ e'. omega arith))))
  dispatch-latched caller (post_order body) st stuck here =
      let r = post_order body in
      rw here (
        Refused-with_body r st body "invalid order" _ (λ req.
          let w = (server.new_id st.world).1 in
          Refused-if r st (req.id == "") _ _
            (Refused-place r caller req (server.new_id st.world).0 (record st { world = w }) stuck)
            (Refused-place r caller req req.id st stuck)))
  dispatch-latched caller (get_order id) st stuck here =
      rw here (shown (get_order id) caller (Views.order id st.service.service) st (λ x. absurd x))
  dispatch-latched caller (delete_order id user) st stuck here =
      let r = delete_order id user in
      rw here (
        Refused-with_owner r st (require_owner caller user) _ (λ user'.
          let (e, same) =
            handle-latched be st.service f stuck (cancel_request now.context id user') in
          Refused-call r st (λ x. respond 400 (Body.failed x)) (respond 204 Body.empty) _ e
            (answer-then e st.service (cancel be now.context id user' st.service) same)
            (λ e'. omega arith)))
  dispatch-latched caller (post_deposit body) st stuck here =
      let r = post_deposit body in
      rw here (
        Refused-with_body r st body "invalid deposit" _ (λ req.
          Refused-with_owner r st (require_owner caller req.user_id) _ (λ user.
            let (e, same) = handle-latched be st.service f stuck (deposit_cents user req.cents) in
            Refused-call r st (λ x. respond 400 (Body.failed x)) (respond 204 Body.empty) _ e
              (unit_answer st.service e _ same) (λ e'. omega arith))))
  dispatch-latched caller (get_balance user) st stuck here =
      let r = get_balance user in
      rw here (
        Refused-with_owner r st (require_owner caller user) _
          (λ user'. record { service_kept = refl; hub_kept = refl; told = λ x. absurd x }))
  dispatch-latched caller (get_position user market) st stuck here =
      let r = get_position user market in
      rw here (
        Refused-with_owner r st (require_owner caller user) _
          (λ user'. record { service_kept = refl; hub_kept = refl; told = λ x. absurd x }))
  dispatch-latched caller (post_resolve id outcome) st stuck here =
      let r = post_resolve id outcome in
      rw here (
        Refused-with_body r st outcome "outcome must be yes or no" _ (λ won.
          let owner = (user_id caller).0 in
          let (e, same) =
            handle-latched be st.service f stuck
              (resolve_request now.context id (won == "yes") owner) in
          Refused-if r st (not (won == "yes") && not (won == "no"))
            (respond 400 (Body.text "outcome must be yes or no"), st) _
            (record { service_kept = refl; hub_kept = refl; told = λ _. omega arith })
            (Refused-call r st resolve_status (respond 204 Body.empty) _ e
              (answer-then e st.service
                (resolve_for be now.context id (won == "yes") owner st.service) same)
              resolve_status_bad)))

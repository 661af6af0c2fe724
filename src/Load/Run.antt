-- ===== src/Load/Run.antt =====
-- `runMarkets` and the arguments of go-backend/cmd/loadtest/main.go. The workers take the jobs in some order, which is
-- an argument; what they read of `/metrics` before, after and during the run is left out.
use Prim.Native.String.{◌++◌}
use prediction_market.Base.{
  get_elem?, ℕ, ◌-◌, ◌%◌, ◌^◌, String, Bool, true, false, not, List, [], ◌∷◌, Option, none, some,
  length, nat_eq, ltb, ◌==◌, ◌||◌, ◌&&◌, eq_string, if◌then◌else◌,
}
use prediction_market.Int.{ℤ, pos, mul64, ltb_ℤ}
use prediction_market.Ledger.{Error}
use prediction_market.Result.{Result, ok, err}
use prediction_market.Load.Jobs.{job_market, job_user, job_side, feed}
use prediction_market.Load.Client.{
  Identity, LoadOrder, HttpResponse, Outside, Steps, ◌>>=◌, give, place, set_up,
}
use prediction_market.Load.Check.{verify_markets}
use prediction_market.Sort.{sort}
use prediction_market.Load.Report.{
  Sample, Window, windows, Summary, summarize, successful, percentile,
}

-- The levels of concurrency: `strings.Split` at commas, `strings.TrimSpace` and `strconv.Atoi` are given.
unfoldable pub parse_counts :
    (trim : String → String) (atoi : String → Option ℤ) → List String → Result (List ℤ)
parse_counts trim atoi [] = ok []
parse_counts trim atoi (part ∷ parts) =
    let rest = parse_counts trim atoi parts in
    elim (atoi (trim part)) [
      | none ↦ err (Error.external "invalid concurrency")
      | some n ↦
          if ltb_ℤ n (pos 1)
          then err (Error.external "invalid concurrency")
          else elim rest [ err e ↦ err e | ok counts ↦ ok (n ∷ counts) ]
    ]

-- `parseLevels`
unfoldable pub parse_levels :
    (split : String → List String) (trim : String → String) (atoi : String → Option ℤ)
    → (fallback : String) → String
    → Result (List ℤ)
unfolding parse_counts
parse_levels split trim atoi fallback s =
    parse_counts trim atoi (split (if s == "" then fallback else s))

-- The test of `main` on its other arguments
unfoldable pub bad_arguments :
    (orders repeats : ℕ) (duration : ℤ) (markets : ℕ) (scope : String) → Bool
bad_arguments orders repeats duration markets scope =
    ltb orders 2
    || not (nat_eq (orders % 2) 0)
    || ltb repeats 1
    || ltb_ℤ duration (pos 0)
    || ltb markets 1
    || not (scope == "shared") && not (scope == "independent")

-- `funding`
unfoldable pub funding_of : (orders duration : ℕ) → ℤ
funding_of orders duration = if ltb 0 duration then pos (2 ^ 50) else mul64 (pos orders) (pos 100)

pub record Report : Type 0 where
  pub orders : ℕ
  pub summary : Summary
  pub succeeded : ℕ
  pub p50 : Option ℕ
  pub p95 : Option ℕ
  pub p99 : Option ℕ
  pub windows : Option (List Window)
  pub verified : Bool
  pub verification_error : Option Error

abbrev pub no_summary : Summary
no_summary = record { statuses = []; failures = 0; errors = []; latencies = [] }

-- What `runMarkets` reports of its samples, before the check; the sorted latencies give the percentiles.
unfoldable pub report_of : ℕ → List Sample → (elapsed width : ℕ) → Report
report_of count samples elapsed width =
    let summary = summarize samples no_summary in
    let latencies = sort ltb summary.latencies in
    record {
      orders = count;
      summary = summary;
      succeeded = successful count summary;
      p50 = percentile latencies 50;
      p95 = percentile latencies 95;
      p99 = percentile latencies 99;
      windows = windows samples elapsed width;
      verified = false;
      verification_error = none;
    }

-- Whether a run makes `main` fail
unfoldable pub run_failed : Report → Bool
run_failed r = ltb 0 r.summary.failures || not r.verified

-- The end of `runMarkets`, when there are no failures
abbrev pub with_check : Report → Result (Unit {0}) → Report
with_check r (ok _) = record r { verified = true }
with_check r (err e) = record r { verification_error = some e }

module _ {W : Type 0} (o : Outside W) (base stamp : String) where
  -- The order of job i
  abbrev job_order : String → ℕ → LoadOrder
  job_order market i = record {
    id = "load-order-" ++ stamp ++ "-" ++ o.itoa i;
    market = market;
    side = job_side i;
    price = pos 50;
    quantity = pos 1;
  }

  -- `err` of an acknowledgement that was read, as text, "" if there is none
  unfoldable pub acknowledged : String → Result String → String
  acknowledged id (err e) = "invalid order acknowledgement"
  acknowledged id (ok got) = if got == id then "" else "invalid order acknowledgement"

  -- `status` and `err` of a worker, as texts
  unfoldable pub outcome : String → Result HttpResponse → String × String
  unfolding acknowledged
  outcome id (err e) = ("transport_error", o.error_text e)
  outcome id (ok r) = (
    o.itoa r.status,
    elim r.body [
      | err e ↦ o.error_text e
      | ok body ↦
          if nat_eq r.status 201 then acknowledged id (o.read_order_id body) else "HTTP status"
    ],
  )

  -- What a worker does for job i
  unfoldable pub submit_order : (start i : ℕ) → Option String → Option Identity → Steps W Sample
  unfolding outcome
  submit_order start i (some market) (some u) w =
      let order = job_order market i in
      let (answer, w') =
        o.exchange
          (record {
            method = "POST";
            url = base ++ "/api/v1/trading/orders";
            authorization = "Bearer " ++ u.token;
            payload = place order;
          })
          w in
      let (status, error) = outcome order.id answer in
      (
        ok (record {
          latency = o.now w' - o.now w;
          end = o.now w' - start;
          status = status;
          error = error;
        }),
        w',
      )
  submit_order start i _ _ w = (err (Error.external "index out of range"), w)

  -- The jobs, as the workers take them
  unfoldable pub submit_all :
      Bool → List Identity → List String → (start : ℕ) → List ℕ → Steps W (List Sample)
  unfolding submit_order
  submit_all separate users markets start [] = give []
  submit_all separate users markets start (i ∷ is) =
      let rest = submit_all separate users markets start is in
      do
        s ←
            submit_order start i (get_elem? markets (job_market (length markets) i))
              (get_elem? users (job_user separate (length markets) i))
        ss ← rest
        give (s ∷ ss)

  unfoldable pub check_accounts :
      Bool → List String → List Identity → ℤ → ℕ → Report → Steps W Report
  check_accounts separate markets users funding count r w =
      if nat_eq r.summary.failures 0
      then (let (checked, w') = verify_markets o base separate markets users funding count w in
          (ok (with_check r checked), w'))
      else (ok r, w)

  -- What is measured: the jobs that were fed, as the workers take them
  unfoldable pub measure :
      Bool → List String → List Identity → ℤ → (width count : ℕ) → List ℕ → Steps W Report
  unfolding submit_all report_of check_accounts
  measure separate markets users funding width count served w =
      let start = o.now w in
      (submit_all separate users markets start served >>= λ samples w'.
      check_accounts separate markets users funding count
        (report_of count samples (o.now w' - start) width) w')
        w

  -- `runMarkets`, with what feeds the workers and the order in which they take the jobs
  unfoldable pub run_markets :
      (scope : String)
      → (markets orders duration rounds : ℕ) → (stop : ℕ → Bool) → (taken : List ℕ → List ℕ)
      → Steps W Report
  unfolding measure funding_of
  run_markets scope markets orders duration rounds stop taken = do
    let separate = scope == "independent"
    let funding = funding_of orders duration
    let jobs = feed rounds stop 0
    (users, ids) ← set_up o base stamp separate markets funding
    measure separate ids users funding 10000000000 (length jobs) (taken jobs)

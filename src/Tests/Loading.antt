-- ===== src/Tests/Loading.antt =====
-- A run of the load generator against a small server, at concrete data.
use prediction_market.Base.{
  leb, ℕ, suc, ◌*◌, ◌≤◌, ◌<◌, ◌≡◌, ◌↔◌, refl, arith, String, true, false, List, [], ◌∷◌, length,
  none, some, nat_eq, ltb, ◌==◌, eq_string, if◌then◌else◌,
}
use prediction_market.Dict
use prediction_market.Int.{pos, int64, ◌-ℤ◌, ◌*ℤ◌}
use prediction_market.Result.{Result, ok}
use prediction_market.Sort.{sort}
use prediction_market.Load.Jobs.{expected_pairs, market_indices, feed, enough_orders}
use prediction_market.Load.Client.{
  set_up, Identity, HttpResponse, Payload, registration, place, Outside, request,
}
use prediction_market.Load.Check.{read_balance, read_position, verify_markets}
use prediction_market.Load.Walk.{AllRest}
use prediction_market.Load.Accounted.{IsAccounted, verify_markets-IsAccounted}
use prediction_market.Load.Report.{Sample, Window, percentile, windows, summarize}
use prediction_market.Load.Rank.{percentile-IsNearestRank}
use prediction_market.Load.Windows.{IsPartition, windows-IsPartition}
use prediction_market.Load.Shares.{count_if}
use prediction_market.Load.Run.{Report, run_markets, funding_of, submit_all, check_accounts}
use prediction_market.Load.Verified.{run_markets-verified}

-- The state counts the changes, and is the clock.
abbrev posted : Payload → ℕ → Result HttpResponse × ℕ
posted (registration email name password) n =
    (ok (record { status = 201; body = ok (if nat_eq n 0 then "yes" else "no") }), suc n)
posted (place order) n = (ok (record { status = 201; body = ok order.id }), suc n)
posted (Payload.market id symbol) n = (ok (record { status = 201; body = ok "" }), n)
posted _ n = (ok (record { status = 204; body = ok "" }), n)

abbrev shown : String → Result HttpResponse
shown url = ok (record {
  status = 200;
  body = ok (if url == "/api/v1/positions/yes/load-t-0" then "yes" else "no");
})

abbrev server : Outside ℕ
server = record {
  new_request = λ r. none;
  exchange = λ r n. if r.method == "GET" then (shown r.url, n) else posted r.payload n;
  read_identity = λ body. ok (record { id = body; token = "t" });
  read_cents = λ body. ok (pos 300);
  read_shares = λ body. ok (
      if body == "yes"
      then record { yes = pos 2; no = pos 0 }
      else record { yes = pos 0; no = pos 2 });
  read_order_id = λ body. ok body;
  itoa = λ n. if nat_eq n 0 then "0" else "1";
  now = λ n. n;
  error_text = λ e. "error";
}

server-rests : (n : ℕ) → AllRest server "" n
unfolding read_balance read_position request
server-rests n = (λ u. refl, λ u market. refl)

abbrev played : Report
played = record {
  orders = 4;
  summary = record {
    statuses = ("1", 4) ∷ [];
    failures = 0;
    errors = [];
    latencies = 1 ∷ 1 ∷ 1 ∷ 1 ∷ [];
  };
  succeeded = 4;
  p50 = some 1;
  p95 = some 1;
  p99 = some 1;
  windows = some (record { start = 0; duration = 4; orders = 4; failures = 0; p99 = 1 } ∷ []);
  verified = true;
  verification_error = none;
}

four_orders :
    run_markets server "" "t" "shared" 1 4 0 4 (enough_orders 4) (λ jobs. jobs) 0 ≡ (ok played, 6)
unfolding run_markets feed set_up submit_all check_accounts verify_markets summarize windows int64
    ◌-ℤ◌ ◌*ℤ◌ expected_pairs market_indices Dict.insert sort Dict.lookup
four_orders = refl

run_markets-verified_example :
    (played.summary.failures ≡ 0)
    × (users : List Identity) × (ids : List String) × (ready : ℕ) × (set_up server "" "t" false 1
          (funding_of 4 0)
          0
        ≡ (ok (users, ids), ready))
    × (length users ≡ 2)
    × (length ids ≡ 1)
    × IsAccounted server "" false ids users (funding_of 4 0) (feed 4 (enough_orders 4) 0) 6
run_markets-verified_example =
    run_markets-verified server "" "t" "shared" server-rests 1 4 0 4 (enough_orders 4)
      (λ jobs. jobs) 0 6 played (omega arith) four_orders refl

abbrev two_users : List Identity
two_users = record { id = "yes"; token = "t" } ∷ record { id = "no"; token = "t" } ∷ []

verify_markets-IsAccounted_example :
    (verify_markets server "" false
        ("load-t-0" ∷ [])
        two_users
        (pos 400)
        (length (feed 4 (enough_orders 4) 0))
        6
      ≡ (ok tt, 6))
    ↔ IsAccounted server "" false
        ("load-t-0" ∷ [])
        two_users
        (pos 400)
        (feed 4 (enough_orders 4) 0)
        6
verify_markets-IsAccounted_example =
    verify_markets-IsAccounted server "" 6 (server-rests 6) false ("load-t-0" ∷ []) two_users
      (pos 400) (omega arith) refl 4 (enough_orders 4)

abbrev two_samples : List Sample
two_samples =
    record { latency = 5; end = 9; status = "201"; error = "" }
    ∷ record { latency = 7; end = 12; status = "503"; error = "HTTP 503" }
    ∷ []

two_windows :
    windows two_samples 12 10
    ≡ some (
        record { start = 0; duration = 10; orders = 1; failures = 0; p99 = 5 }
        ∷ record { start = 10; duration = 2; orders = 1; failures = 1; p99 = 7 }
        ∷ [])
unfolding windows sort
two_windows = refl

windows-IsPartition_example :
    (ws : List Window) × (windows two_samples 12 10 ≡ some ws) × IsPartition two_samples 12 10 ws
windows-IsPartition_example = windows-IsPartition two_samples 12 10 (omega arith) (omega arith)

percentile-IsNearestRank_example :
    (d : ℕ) × (percentile (sort ltb (4 ∷ 1 ∷ 3 ∷ 2 ∷ [])) 50 ≡ some d)
    × (0 < count_if (λ x. nat_eq x d) (4 ∷ 1 ∷ 3 ∷ 2 ∷ []))
    × (count_if (λ x. ltb x d) (4 ∷ 1 ∷ 3 ∷ 2 ∷ []) * 100 < 200)
    × (200 ≤ count_if (λ x. leb x d) (4 ∷ 1 ∷ 3 ∷ 2 ∷ []) * 100)
percentile-IsNearestRank_example =
    percentile-IsNearestRank (4 ∷ 1 ∷ 3 ∷ 2 ∷ []) 50 (omega arith) (omega arith) (omega arith)

median : percentile (sort ltb (4 ∷ 1 ∷ 3 ∷ 2 ∷ [])) 50 ≡ some 2
unfolding percentile sort
median = refl

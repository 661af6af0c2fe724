-- ===== src/Load/Report.antt =====
-- What go-backend/cmd/loadtest/main.go computes from the samples of a run: percentiles, windows and sums. Durations are
-- nanoseconds; the divisions that make seconds and rates of them, in floating point, are left out. `none` is a panic.
use Prim.Native.Nat.{◌/◌}
use prediction_market.Base.{
  get_elem?, ℕ, zero, suc, ◌+◌, ◌-◌, ◌*◌, String, Bool, not, List, [], ◌∷◌, ◌++◌, Option, none,
  some, length, get_or, ltb, leb, ◌==◌, eq_string, if◌then◌else◌,
}
use prediction_market.Dict
use prediction_market.Sort.{sort}

pub record Sample : Type 0 where
  pub latency : ℕ
  pub end : ℕ
  pub status : String
  pub error : String

pub record Window : Type 0 where
  pub start : ℕ
  pub duration : ℕ
  pub orders : ℕ
  pub failures : ℕ
  pub p99 : ℕ

-- `percentile`, of sorted latencies
unfoldable pub percentile : List ℕ → ℕ → Option ℕ
percentile [] p = some 0
percentile (x ∷ xs) p = get_elem? (x ∷ xs) ((length (x ∷ xs) * p + 99) / 100 - 1)

abbrev pub has_failed : Sample → Bool
has_failed s = not (s.error == "")

-- The empty windows, `left` of them from number i, each with no latencies yet
unfoldable pub empty_windows : (elapsed width : ℕ) → (left i : ℕ) → List (Window × List ℕ)
empty_windows elapsed width zero i = []
empty_windows elapsed width (suc left) i =
    (
      record {
        start = i * width;
        duration = if ltb (elapsed - i * width) width then elapsed - i * width else width;
        orders = 0;
        failures = 0;
        p99 = 0;
      },
      [],
    )
    ∷ empty_windows elapsed width left (suc i)

abbrev pub add_to : Sample → Window × List ℕ → Window × List ℕ
add_to s (w, latencies) = (
  record w {
    orders = w.orders + 1;
    failures = if has_failed s then w.failures + 1 else w.failures;
  },
  latencies ++ s.latency ∷ [],
)

-- `out[i]` and `latencies[i]` of a sample
unfoldable pub add_at : ℕ → Sample → List (Window × List ℕ) → Option (List (Window × List ℕ))
add_at i s [] = none
add_at zero s (w ∷ ws) = some (add_to s w ∷ ws)
add_at (suc i) s (w ∷ ws) =
    let rest = add_at i s ws in elim rest [ none ↦ none | some found ↦ some (w ∷ found) ]

-- The window of a sample: the last, for one that ended after the jobs
abbrev pub window_of : (width n : ℕ) → Sample → ℕ
window_of width n s = let i = s.end / width in if leb n i then n - 1 else i

unfoldable pub add_samples :
    (width n : ℕ) → List Sample → List (Window × List ℕ) → Option (List (Window × List ℕ))
unfolding add_at
add_samples width n [] ws = some ws
add_samples width n (s ∷ ss) ws = elim (add_at (window_of width n s) s ws) [
  | none ↦ none
  | some found ↦ add_samples width n ss found
]

-- The loop that sorts the latencies of each window
unfoldable pub close_windows : List (Window × List ℕ) → Option (List Window)
unfolding percentile
close_windows [] = some []
close_windows ((w, latencies) ∷ ws) =
    let rest = close_windows ws in
    elim (percentile (sort ltb latencies) 99) [
      | none ↦ none
      | some p ↦ elim rest [ none ↦ none | some found ↦ some (record w { p99 = p } ∷ found) ]
    ]

-- `windows`
unfoldable pub windows : List Sample → (elapsed width : ℕ) → Option (List Window)
unfolding empty_windows add_samples close_windows
windows samples elapsed width =
    let n = (elapsed + width - 1) / width in
    elim (add_samples width n samples (empty_windows elapsed width n 0)) [
      | none ↦ none
      | some ws ↦ close_windows ws
    ]

pub record Summary : Type 0 where
  pub statuses : List (String × ℕ)
  pub failures : ℕ
  pub errors : List String
  pub latencies : List ℕ

abbrev count_status : String → List (String × ℕ) → List (String × ℕ)
count_status status m = Dict.insert status (get_or (Dict.lookup status m) 0 + 1) m

-- The loop over the samples
unfoldable pub summarize : List Sample → Summary → Summary
summarize [] r = r
summarize (s ∷ ss) r =
    let failed = has_failed s in
    summarize ss (record {
      statuses = count_status s.status r.statuses;
      failures = if failed then r.failures + 1 else r.failures;
      errors =
          if failed
          then if ltb (length r.errors) 5 then r.errors ++ s.error ∷ [] else r.errors
          else r.errors;
      latencies = r.latencies ++ s.latency ∷ [];
    })

-- `r.Successful`
abbrev pub successful : ℕ → Summary → ℕ
successful count r = count - r.failures

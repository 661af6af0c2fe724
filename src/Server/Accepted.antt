-- ===== src/Server/Accepted.antt =====
-- Whatever the environment says, the settings of a server (go-backend/internal/server/server.go) are
-- within their bounds.
use prediction_market.Base.{
  ◌≡◌, ◌≢◌, refl, arith, String, Bool, true, false, not, ◌&&◌, ◌||◌, Option, none, some, ◌==◌,
  eq_string, if◌then◌else◌, Bool-cases, inl, inr,
}
use prediction_market.Int.{ℤ, pos, ltb_ℤ, int_eq, int_eq_iff, ◌≤ℤ◌}
use prediction_market.Result.{ok}
use prediction_market.Trading.Views.{config_checks}
use prediction_market.Server.Settings.{
  Environment, env_or, port, order_batch_size, snapshot_interval, engine_addresses, Settings,
  settings,
}

-- Whether the variable of the batch size is unset, or a number from 1 to 32
abbrev pub is_batch_size : Environment → Bool
is_batch_size env =
    let text = env.getenv "ORDER_BATCH_SIZE" in
    let (value, failed) = env.atoi text in
    text == "" || (not failed && (ltb_ℤ (pos 0) value && ltb_ℤ value (pos 33)))

pub record IsAccepted (env : Environment) (s : Settings) : Type 0 where
  pub valid : is_batch_size env ≡ true
  pub port : s.port ≢ pos 0
  pub batch_low : pos 1 ≤ℤ s.trading.order_batch_size
  pub batch_high : s.trading.order_batch_size ≤ℤ pos 32
  pub config : config_checks s.trading.order_batch_size s.trading.wal_path ≡ ok tt
  pub interval : pos 1 ≤ℤ s.interval
  pub engines : s.engines ≢ ""
  pub secret : s.secret ≢ ""

-- What the environment settles: settings within their bounds, or a panic for a bad batch size
abbrev pub IsSettled : Environment → Option Settings → Type 0
IsSettled env none = is_batch_size env ≡ false
IsSettled env (some s) = IsAccepted env s

nonzero : (value : ℤ) → (if int_eq value (pos 0) then pos 8080 else value) ≢ pos 0
nonzero value h = ground (arith, int_eq_iff value (pos 0))

positive :
    (unset failed : Bool) (parsed : ℤ)
    → pos 1 ≤ℤ (
        if not unset
        then if not failed && ltb_ℤ (pos 0) parsed then parsed else pos 30000000000
        else pos 30000000000)
positive unset failed parsed = ground arith

filled :
    (value fallback : String) → fallback ≢ "" → (if not (value == "") then value else fallback) ≢ ""
filled value fallback h e = ground (arith, eq_string.equals_iff value "", h)

-- The batch size that a text gives
abbrev chosen : Bool → Bool → ℤ → Option ℤ
chosen unset failed value =
    if not unset
    then if failed || ltb_ℤ value (pos 1) || ltb_ℤ (pos 32) value then none else some value
    else some (pos 32)

abbrev IsChosen : Bool → Bool → ℤ → Option ℤ → Type 0
IsChosen unset failed value none =
    (unset || (not failed && (ltb_ℤ (pos 0) value && ltb_ℤ value (pos 33)))) ≡ false
IsChosen unset failed value (some size) =
    ((unset || (not failed && (ltb_ℤ (pos 0) value && ltb_ℤ value (pos 33)))) ≡ true)
    × (pos 1 ≤ℤ size)
    × (size ≤ℤ pos 32)

chosen-IsChosen :
    (unset failed : Bool) (value : ℤ) → IsChosen unset failed value (chosen unset failed value)
chosen-IsChosen true failed value = (refl, omega arith, omega arith)
chosen-IsChosen false true value = refl
chosen-IsChosen false false value =
    elim (Bool-cases (ltb_ℤ value (pos 1) || ltb_ℤ (pos 32) value)) [
      | inl bad ↦ rw bad (ground arith)
      | inr good ↦ rw good (ground arith, ground arith, ground arith)
    ]

config_checks-ok :
    (size : ℤ) → pos 1 ≤ℤ size → size ≤ℤ pos 32 → config_checks size "data/orders.wal" ≡ ok tt
unfolding config_checks
config_checks-ok size low high =
    let size_fits : (ltb_ℤ size (pos 0) || ltb_ℤ (pos 32) size) ≡ false = ground arith in
    rw size_fits refl

-- In any environment, NewServer panics for the batch size exactly if it is set to something that is
-- not a number from 1 to 32, and else it takes a port that is not 0, a batch size that NewWithConfig
-- does not refuse and that is from 1 to 32, a positive time between snapshots, and texts that are not
-- empty for the engines and the secret.
pub settings-IsSettled : (env : Environment) → IsSettled env (settings env)
unfolding settings port snapshot_interval engine_addresses env_or order_batch_size
settings-IsSettled env =
    let text = env.getenv "ORDER_BATCH_SIZE" in
    let (value, failed) = env.atoi text in
    sized (chosen (text == "") failed value) (chosen-IsChosen (text == "") failed value)
  where
    sized :
        (size : Option ℤ)
        → IsChosen
            (env.getenv "ORDER_BATCH_SIZE" == "")
            (env.atoi (env.getenv "ORDER_BATCH_SIZE")).1
            (env.atoi (env.getenv "ORDER_BATCH_SIZE")).0
            size
        → IsSettled env (elim size [
          | none ↦ none
          | some size ↦ some (record {
            port = port env;
            engines = engine_addresses env;
            secret = env_or env "JWT_SECRET" "development-secret-change-me";
            redis = env_or env "REDIS_ADDR" "localhost:6379";
            trading = record { wal_path = "data/orders.wal"; order_batch_size = size };
            disable_engine_batch = env_or env "ENGINE_RPC_BATCH" "true" == "false";
            interval = snapshot_interval env;
          })
        ])
    sized none h = h
    sized (some size) (valid, low, high) = record {
      valid = valid;
      port = nonzero (env.atoi (env.getenv "PORT")).0;
      batch_low = low;
      batch_high = high;
      config = config_checks-ok size low high;
      interval =
          positive (env.getenv "SNAPSHOT_INTERVAL" == "")
            (env.parse_duration (env.getenv "SNAPSHOT_INTERVAL")).1
            (env.parse_duration (env.getenv "SNAPSHOT_INTERVAL")).0;
      engines =
          filled (env.getenv "ENGINE_ADDRS") _
            (filled (env.getenv "ENGINE_ADDR") "localhost:50051" (λ e. cc));
      secret = filled (env.getenv "JWT_SECRET") "development-secret-change-me" (λ e. cc);
    }

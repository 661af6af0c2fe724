-- ===== src/Server/Settings.antt =====
-- What `NewServer` of go-backend/internal/server/server.go reads from the environment. `os.Getenv`,
-- `strconv.Atoi` and `time.ParseDuration` are given: the last two give a number and whether there
-- was an error.
use prediction_market.Base.{
  String, Bool, not, ◌&&◌, ◌||◌, Option, none, some, ◌==◌, eq_string, if◌then◌else◌,
}
use prediction_market.Int.{ℤ, pos, ltb_ℤ, int_eq}

pub record Environment : Type 0 where
  pub getenv : String → String
  pub atoi : String → ℤ × Bool
  pub parse_duration : String → ℤ × Bool

-- `envOr`
unfoldable pub env_or : Environment → String → String → String
env_or env key fallback =
    let value = env.getenv key in if not (value == "") then value else fallback

-- The number that is there in spite of an error is taken.
unfoldable pub port : Environment → ℤ
port env =
    let value = (env.atoi (env.getenv "PORT")).0 in if int_eq value (pos 0) then pos 8080 else value

-- The size of the batches, none where NewServer panics
unfoldable pub order_batch_size : Environment → Option ℤ
order_batch_size env =
    let configured = env.getenv "ORDER_BATCH_SIZE" in
    if not (configured == "")
    then (let (value, failed) = env.atoi configured in
        if failed || ltb_ℤ value (pos 1) || ltb_ℤ (pos 32) value then none else some value)
    else some (pos 32)

-- The time between the snapshots, in nanoseconds
unfoldable pub snapshot_interval : Environment → ℤ
snapshot_interval env =
    let configured = env.getenv "SNAPSHOT_INTERVAL" in
    let usual = pos 30000000000 in
    if not (configured == "")
    then (let (parsed, failed) = env.parse_duration configured in
        if not failed && ltb_ℤ (pos 0) parsed then parsed else usual)
    else usual

unfoldable pub engine_addresses : Environment → String
engine_addresses env = env_or env "ENGINE_ADDRS" (env_or env "ENGINE_ADDR" "localhost:50051")

-- Two fields of `trading.Config`
pub record TradingConfig : Type 0 where
  pub wal_path : String
  pub order_batch_size : ℤ

pub record Settings : Type 0 where
  pub port : ℤ
  pub engines : String
  pub secret : String
  pub redis : String
  pub trading : TradingConfig
  pub disable_engine_batch : Bool
  pub interval : ℤ

-- All that NewServer reads, none where the batch size makes it panic
unfoldable pub settings : Environment → Option Settings
settings env = elim (order_batch_size env) [
  | none ↦ none
  | some size ↦ some (record {
    port = port env;
    engines = engine_addresses env;
    secret = env_or env "JWT_SECRET" "development-secret-change-me";
    redis = env_or env "REDIS_ADDR" "localhost:6379";
    trading = record { wal_path = "data/orders.wal"; order_batch_size = size };
    disable_engine_batch = env_or env "ENGINE_RPC_BATCH" "true" == "false";
    interval = snapshot_interval env;
  })
]

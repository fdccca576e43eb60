-- ===== src/Config/Env.antt =====
-- `applyEnvOverrides` of internal/config/config.go. The environment is a function from names, as
-- os.LookupEnv reads it after the .env file has been loaded into it.
use circle_wallet_service.Prelude.{
  ℕ, Option, none, some, String, ◌==◌, ℤ, pos, if◌then◌else◌, Result, ok, err, ◌>>=◌,
}
use circle_wallet_service.Text.{runes, trim_space}
use circle_wallet_service.Strconv.{parse_uint, atoi, parse_bool}
use circle_wallet_service.Config.{Config}

abbrev pub Environ : Type 0
Environ = String → Option String

-- Why the settings are refused: the file, a variable that does not parse, or a setting.
pub data LoadError : Type 0 where
  unreadable : String → String → LoadError
  bad_yaml : String → String → LoadError
  bad_variable : String → LoadError
  bad_setting : String → LoadError

-- How the value of a variable is read.
abbrev pub verbatim : String → Option String
verbatim v = some v

abbrev pub trimmed : String → Option String
trimmed v = some (trim_space v)

unfoldable pub read_port : String → Option ℤ
read_port v = let text = trim_space v in if text == "" then some (pos 0) else atoi (runes text)

unfoldable pub read_int : String → Option ℤ
read_int v = atoi (runes (trim_space v))

-- A number of 8 and of 64 bits.
unfoldable pub read_uint8 : String → Option ℕ
read_uint8 v = parse_uint 256 (runes (trim_space v))

unfoldable pub read_uint64 : String → Option ℕ
read_uint64 v = parse_uint 18446744073709551616 (runes (trim_space v))

read_or_refuse : {A : Type 0} → String → Option A → Result LoadError A
read_or_refuse name none = err (bad_variable name)
read_or_refuse name (some a) = ok a

-- if v, ok := os.LookupEnv(name); ok { field = read(v) }
unfoldable pub override :
    {A : Type 0} → Environ → String → (String → Option A) → A → Result LoadError A
unfolding read_or_refuse
override {A} look name read field = elim (look name) as (λ _. Result LoadError A) [
  | none ↦ ok field
  | some v ↦ read_or_refuse name (read v)
]

unfoldable pub apply_env_overrides : Environ → Config → Result LoadError Config
apply_env_overrides look c = do
  server_key ← override look "API_KEY" verbatim c.server.api_key
  dsn ← override look "MYSQL_DSN" trimmed c.mysql.dsn
  circle_key ← override look "CIRCLE_API_KEY" verbatim c.circle.api_key
  secret ← override look "CIRCLE_ENTITY_SECRET" verbatim c.circle.entity_secret
  port ← override look "SERVER_PORT" read_port c.server.port
  testing ← override look "TESTING_MODE" parse_bool c.server.testing_mode
  node_url ← override look "APTOS_NODE_URL" trimmed c.aptos.node_url
  aptos_key ← override look "APTOS_API_KEY" trimmed c.aptos.api_key
  chain_id ← override look "APTOS_CHAIN_ID" read_uint8 c.aptos.chain_id
  url ← override look "WEBHOOK_URL" trimmed c.webhook.global_url
  signing ← override look "WEBHOOK_SIGNING_SECRET" verbatim c.webhook.signing_secret
  gas ← override look "MAX_GAS_AMOUNT" read_uint64 c.transaction.max_gas_amount
  expiration ← override look "TXN_EXPIRATION_SECONDS" read_int c.transaction.expiration_seconds
  simulate ← override look "SIMULATE_BEFORE_SUBMIT" parse_bool c.submitter.simulate_before_submit
  calibrate ←
      override look "CALIBRATE_GAS_FROM_SIMULATION" parse_bool
        c.submitter.calibrate_gas_from_simulation
  retry ←
      override look "SUBMITTER_MAX_RETRY_DURATION_SECONDS" read_int
        c.submitter.max_retry_duration_seconds
  ok (record c {
    server = record { port = port; testing_mode = testing; api_key = server_key };
    mysql = record { dsn = dsn };
    aptos = record { node_url = node_url; chain_id = chain_id; api_key = aptos_key };
    circle = record { api_key = circle_key; entity_secret = secret };
    transaction = record { max_gas_amount = gas; expiration_seconds = expiration };
    submitter = record c.submitter {
      simulate_before_submit = simulate;
      calibrate_gas_from_simulation = calibrate;
      max_retry_duration_seconds = retry;
    };
    webhook = record c.webhook { global_url = url; signing_secret = signing };
  })

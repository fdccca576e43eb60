-- ===== src/Config/Load.antt =====
-- `Load` and `validate` of internal/config/config.go. The file system and the YAML decoder are
-- parameters; the environment is the one after godotenv.Load.
use circle_wallet_service.Prelude.{
  Bool, true, false, not, ◌&&◌, ◌||◌, none, some, String, ◌==◌, nat_eq, is_positive, if◌then◌else◌,
  Result, ok, err, ◌>>=◌, ◌>>◌,
}
use circle_wallet_service.Config.{Config, default_config}
use circle_wallet_service.Config.Env.{
  Environ, LoadError, unreadable, bad_yaml, bad_setting, apply_env_overrides,
}

-- os.ReadFile
pub data FileRead : Type 0 where
  not_there : FileRead
  cannot_read : String → FileRead
  contents : String → FileRead

-- The files, and yaml.Unmarshal of a text over settings.
pub record Files : Type 0 where
  pub read_file : String → FileRead
  pub unmarshal : String → Config → Result String Config

abbrev require : Bool → String → Result LoadError (Unit {0})
require true what = ok tt
require false what = err (bad_setting what)

unfoldable pub validate : Config → Result LoadError (Unit {0})
validate c = do
  require (not (c.mysql.dsn == "")) "MYSQL_DSN is required"
  require (not (c.server.api_key == "" && not c.server.testing_mode))
      "API_KEY is required unless TESTING_MODE is enabled"
  require (c.server.testing_mode || not (c.circle.api_key == "")) "CIRCLE_API_KEY is required"
  require (c.server.testing_mode || not (c.circle.entity_secret == ""))
      "CIRCLE_ENTITY_SECRET is required"
  require (not (nat_eq c.transaction.max_gas_amount 0)) "MAX_GAS_AMOUNT must be greater than 0"
  require (is_positive c.transaction.expiration_seconds)
      "TXN_EXPIRATION_SECONDS must be greater than 0"
  require (not (nat_eq c.aptos.chain_id 0)) "APTOS_CHAIN_ID must be greater than 0"
  require (not c.rate_limit.per_wallet)
      "rate_limit.per_wallet is not yet implemented; leave it false"

-- os.Getenv(key), else the default
unfoldable pub env : Environ → String → String → String
env look key fallback = elim (look key) as (λ _. String) [
  | none ↦ fallback
  | some v ↦ if v == "" then fallback else v
]

-- The settings of the file over the defaults.
from_file : Files → String → FileRead → Result LoadError Config
from_file files path not_there = ok default_config
from_file files path (cannot_read why) = err (unreadable path why)
from_file files path (contents text) =
    elim (files.unmarshal text default_config) as (λ _. Result LoadError Config) [
      | err why ↦ err (bad_yaml path why)
      | ok c ↦ ok c
    ]

unfoldable pub base_config : Files → Environ → Result LoadError Config
unfolding from_file env
base_config files look =
    let path = env look "CONFIG_PATH" "config.yaml" in from_file files path (files.read_file path)

unfoldable pub load : Files → Environ → Result LoadError Config
load files look = do
  base ← base_config files look
  c ← apply_env_overrides look base
  validate c
  ok c

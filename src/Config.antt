-- ===== src/Config.antt =====
-- internal/config/config.go: the settings of the service. This file has the records and the defaults.
pub mod Env
pub mod Load
pub mod Getters
pub mod Overrides
pub mod Retention
use circle_wallet_service.Prelude.{ℕ, Bool, true, false, String, ℤ, pos}

pub record ServerConfig : Type 0 where
  pub port : ℤ
  pub testing_mode : Bool
  pub api_key : String

pub record MysqlConfig : Type 0 where
  pub dsn : String

-- `chain_id` is a uint8.
pub record AptosConfig : Type 0 where
  pub node_url : String
  pub chain_id : ℕ
  pub api_key : String

pub record CircleConfig : Type 0 where
  pub api_key : String
  pub entity_secret : String

-- `max_gas_amount` is a uint64.
pub record TransactionConfig : Type 0 where
  pub max_gas_amount : ℕ
  pub expiration_seconds : ℤ

pub record SubmitterConfig : Type 0 where
  pub poll_interval_ms : ℤ
  pub max_retry_duration_seconds : ℤ
  pub retry_interval_seconds : ℤ
  pub retry_jitter_seconds : ℤ
  pub stale_processing_seconds : ℤ
  pub recovery_tick_seconds : ℤ
  pub signing_pipeline_depth : ℤ
  pub max_active_sender_workers : ℤ
  pub simulate_before_submit : Bool
  pub calibrate_gas_from_simulation : Bool
  pub circle_sign_timeout_seconds : ℤ
  pub aptos_build_timeout_seconds : ℤ
  pub aptos_simulate_timeout_seconds : ℤ
  pub aptos_submit_timeout_seconds : ℤ
  pub aptos_account_lookup_timeout_seconds : ℤ

pub record PollerConfig : Type 0 where
  pub interval_seconds : ℤ
  pub rpc_requests_per_second : ℤ
  pub rpc_burst : ℤ
  pub page_size : ℤ
  pub sweep_concurrency : ℤ

pub record WebhookConfig : Type 0 where
  pub global_url : String
  pub max_retries : ℤ
  pub timeout_seconds : ℤ
  pub signing_secret : String
  pub delivery_concurrency : ℤ

pub record ArchiveConfig : Type 0 where
  pub enabled : Bool
  pub tick_seconds : ℤ
  pub retention_days : ℤ
  pub idempotency_retention_days : ℤ
  pub batch_size : ℤ

pub record RateLimitConfig : Type 0 where
  pub enabled : Bool
  pub requests_per_second : ℤ
  pub burst : ℤ
  pub per_wallet : Bool

pub record Config : Type 0 where
  pub server : ServerConfig
  pub mysql : MysqlConfig
  pub aptos : AptosConfig
  pub circle : CircleConfig
  pub transaction : TransactionConfig
  pub submitter : SubmitterConfig
  pub poller : PollerConfig
  pub webhook : WebhookConfig
  pub archive : ArchiveConfig
  pub rate_limit : RateLimitConfig

abbrev pub default_max_active_sender_workers : ℕ
default_max_active_sender_workers = 128

unfoldable pub default_config : Config
default_config = record {
  server = record { port = pos 8080; testing_mode = false; api_key = "" };
  mysql = record { dsn = "" };
  aptos = record { node_url = "https://api.testnet.aptoslabs.com/v1"; chain_id = 2; api_key = "" };
  circle = record { api_key = ""; entity_secret = "" };
  transaction = record { max_gas_amount = 2000000; expiration_seconds = pos 60 };
  submitter = record {
    poll_interval_ms = pos 200;
    max_retry_duration_seconds = pos 300;
    retry_interval_seconds = pos 5;
    retry_jitter_seconds = pos 2;
    stale_processing_seconds = pos 120;
    recovery_tick_seconds = pos 30;
    signing_pipeline_depth = pos 4;
    max_active_sender_workers = pos default_max_active_sender_workers;
    simulate_before_submit = true;
    calibrate_gas_from_simulation = true;
    circle_sign_timeout_seconds = pos 15;
    aptos_build_timeout_seconds = pos 10;
    aptos_simulate_timeout_seconds = pos 30;
    aptos_submit_timeout_seconds = pos 10;
    aptos_account_lookup_timeout_seconds = pos 10;
  };
  poller = record {
    interval_seconds = pos 5;
    rpc_requests_per_second = pos 10;
    rpc_burst = pos 10;
    page_size = pos 500;
    sweep_concurrency = pos 10;
  };
  webhook = record {
    global_url = "";
    max_retries = pos 5;
    timeout_seconds = pos 10;
    signing_secret = "";
    delivery_concurrency = pos 4;
  };
  archive = record {
    enabled = false;
    tick_seconds = pos 300;
    retention_days = pos 30;
    idempotency_retention_days = pos 7;
    batch_size = pos 1000;
  };
  rate_limit = record {
    enabled = false;
    requests_per_second = pos 100;
    burst = pos 200;
    per_wallet = false;
  };
}

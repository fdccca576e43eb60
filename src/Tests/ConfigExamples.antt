-- ===== src/Tests/ConfigExamples.antt =====
-- The theorems on the settings, at a file that is not there and six variables.
use circle_wallet_service.Prelude.{
  ◌-◌, ◌⊎◌, ◌≡◌, refl, true, false, none, some, [], ◌∷◌, String, ◌==◌, pos, negsuc, if◌then◌else◌,
  ok, err,
}
use circle_wallet_service.GoMap.{lookup}
use circle_wallet_service.Text.{runes, trim_space}
use circle_wallet_service.Strconv.{parse_uint, atoi}
use circle_wallet_service.Memory.{new_memory_store}
use circle_wallet_service.Memory.Purge.{aged_at}
use circle_wallet_service.MemoryQueue.Invariant.{run, run-IsWell, new-IsWell, creates}
use circle_wallet_service.Submitter.{World}
use circle_wallet_service.Archive.{new, clear_stage, purge_stage}
use circle_wallet_service.Config.{Config, default_config}
use circle_wallet_service.Config.Env.{
  Environ, bad_variable, override, apply_env_overrides, read_port, read_uint64,
}
use circle_wallet_service.Config.Load.{Files, not_there, validate, env, base_config, load}
use circle_wallet_service.Config.Overrides.{IsOverridden, IsValid, load_exact}
use circle_wallet_service.Config.Retention.{archive_config, kept_for, archiver_keeps}
use circle_wallet_service.Tests.Samples.{first}

reads_signs :
    (atoi (runes "-42") ≡ some (negsuc 41))
    × (atoi (runes "+7") ≡ some (pos 7))
    × (atoi (runes "-") ≡ none)
    × (atoi (runes "9223372036854775808") ≡ none)
    × (parse_uint 256 (runes "256") ≡ none)
    × (trim_space "  a b " ≡ "a b")
unfolding atoi trim_space parse_uint
reads_signs = (refl, refl, refl, refl, refl, refl)

abbrev pub no_files : Files
no_files = record { read_file = λ _. not_there; unmarshal = λ _ c. ok c }

abbrev pub variables : String → Environ
variables port name =
    if name == "MYSQL_DSN"
    then some " db "
    else if name == "API_KEY"
    then some "key"
    else if name == "CIRCLE_API_KEY"
    then some "circle"
    else if name == "CIRCLE_ENTITY_SECRET"
    then some "secret"
    else if name == "SERVER_PORT"
    then some port
    else if name == "MAX_GAS_AMOUNT"
    then some "500"
    else none

abbrev pub settings : Config
settings = record default_config {
  server = record { port = pos 9000; testing_mode = false; api_key = "key" };
  mysql = record { dsn = "db" };
  circle = record { api_key = "circle"; entity_secret = "secret" };
  transaction = record { max_gas_amount = 500; expiration_seconds = pos 60 };
}

refuses_port : load no_files (variables "90x0") ≡ err (bad_variable "SERVER_PORT")
unfolding load base_config env default_config apply_env_overrides override trim_space read_port atoi
refuses_port = refl

pub loads : load no_files (variables "9000") ≡ ok settings
unfolding load base_config env default_config apply_env_overrides override trim_space read_port atoi
    read_uint64 parse_uint validate
loads = refl

load_exact_example :
    (base : Config) × ((base_config no_files (variables "9000") ≡ ok base)
      × (IsOverridden (variables "9000") base settings × IsValid settings))
load_exact_example = (load_exact no_files (variables "9000") settings).0 loads

abbrev w0 : World
w0 = record {
  clock = 2592000000000090;
  store = run (creates 60 first ∷ []) (new_memory_store 1000);
  faults = [];
  notified = [];
  broadcasts = [];
}

-- Settings whose retention overflows.
abbrev forever : Config
forever = record default_config {
  archive = record default_config.archive { retention_days = pos 200000 };
}

archiver_keeps_example :
    ((clear_stage (new (archive_config forever)) w0).0 ≡ true)
    × (((purge_stage (new (archive_config forever)) w0).0 ≡ true)
        × ((aged_at (w0.clock - kept_for forever) "t1" w0.store ≡ true)
            ⊎ (lookup "t1" (purge_stage (new (archive_config forever)) w0).1.store.records
                ≡ lookup "t1" w0.store.records)))
archiver_keeps_example =
    archiver_keeps forever w0 "t1"
      (run-IsWell (creates 60 first ∷ []) (new_memory_store 1000) (new-IsWell 1000)).indexed

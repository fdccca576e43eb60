-- ===== src/Mysql.antt =====
-- internal/store/mysql: the store over a MySQL database. A method runs its statements in one
-- transaction, so it is one function of the tables: it commits, or it fails and changes nothing. What
-- the statements rely on of the server is the record `Engine`. Ids and sender addresses are lower-case
-- text (uuid.New and the canonical form that the handler writes), so `=` on them is equality.
pub mod Rows
pub mod Tables
pub mod Crud
pub mod Outbox
pub mod Queue
pub mod Contract
pub mod Runs
use circle_wallet_service.Prelude.{ℕ, ◌≤◌, ◌<◌, ◌-◌, ◌≡◌, Bool, Option, none, some, List, String}
use circle_wallet_service.GoMap.{GoMap}
use circle_wallet_service.Store.{TxnStatus}
use circle_wallet_service.Webhook.{DeliveryRecord}

pub record Engine : Type 0 where
  -- a - b on BIGINT UNSIGNED; `none` is the error 1690, out of range
  pub sub_unsigned : ℕ → ℕ → Option ℕ
  -- the time that a TIMESTAMP column keeps of a time
  pub timestamp : ℕ → ℕ
  -- the text that a JSON column gives back; `none` where it is refused
  pub json : String → Option String
  -- `=` on VARCHAR, by the collation of the column
  pub same_text : String → String → Bool

-- What MySQL documents of subtraction, unless the mode NO_UNSIGNED_SUBTRACTION is set.
pub record Subtracts (e : Engine) : Type 0 where
  pub within : (a b : ℕ) → b ≤ a → e.sub_unsigned a b ≡ some (a - b)
  pub beyond : (a b : ℕ) → a < b → e.sub_unsigned a b ≡ none

-- A row of `transactions`. A column that may be NULL is an option.
pub record Row : Type 0 where
  pub id : String
  pub sender_address : String
  pub wallet_id : String
  pub fee_payer_wallet_id : Option String
  pub fee_payer_address : Option String
  pub status : TxnStatus
  pub sequence_number : Option ℕ
  pub function_id : String
  pub payload_json : String
  pub max_gas_amount : Option ℕ
  pub idempotency_key : Option String
  pub txn_hash : Option String
  pub error_message : Option String
  pub webhook_url : Option String
  pub attempt_count : ℕ
  pub last_error : Option String
  pub failure_kind : Option String
  pub vm_status : Option String
  pub created_at : ℕ
  pub updated_at : ℕ
  pub expires_at : ℕ

-- The tables: `transactions` and `webhook_deliveries` in any order, `account_sequences` by its key.
pub record Database : Type 0 where
  pub transactions : List Row
  pub account_sequences : GoMap ℕ
  pub webhook_deliveries : List DeliveryRecord

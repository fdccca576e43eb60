-- ===== src/Store.antt =====
-- internal/store/store.go: the transaction record, its status, and the errors of a store.
-- A `time.Time` is a number of nanoseconds since the zero time, `*uint64` is an option, and a copy
-- of a record is the record itself, since a value here is never mutated.
use circle_wallet_service.Prelude.{ℕ, Bool, true, false, ◌||◌, Option, none, some, String}

pub data TxnStatus : Type 0 where
  queued processing submitted confirmed failed expired : TxnStatus

-- Go's `==` on two statuses.
abbrev pub status_eq : TxnStatus → TxnStatus → Bool
status_eq queued queued = true
status_eq processing processing = true
status_eq submitted submitted = true
status_eq confirmed confirmed = true
status_eq failed failed = true
status_eq expired expired = true
status_eq _ _ = false

pub record TransactionRecord : Type 0 where
  pub id : String
  pub idempotency_key : String
  pub status : TxnStatus
  pub txn_hash : String
  pub sender_address : String
  pub function_id : String
  pub wallet_id : String
  pub fee_payer_wallet_id : String
  pub fee_payer_address : String
  pub payload_json : String
  pub sequence_number : Option ℕ
  pub max_gas_amount : Option ℕ
  pub error_message : String
  pub webhook_url : String
  pub attempt_count : ℕ
  pub last_error : String
  pub failure_kind : String
  pub vm_status : String
  pub created_at : ℕ
  pub updated_at : ℕ
  pub expires_at : ℕ

abbrev pub is_terminal : TxnStatus → Bool
is_terminal s = status_eq s confirmed || status_eq s failed || status_eq s expired

pub data StoreError : Type 0 where
  already_exists not_found idempotency_conflict database cancelled : StoreError

-- A deep copy: the pointer fields are copied by value.
unfoldable pub clone : TransactionRecord → TransactionRecord
clone r = record r {
  sequence_number = elim r.sequence_number [ none ↦ none | some v ↦ some v ];
  max_gas_amount = elim r.max_gas_amount [ none ↦ none | some v ↦ some v ];
}

-- ===== src/Mysql/Rows.antt =====
-- How internal/store/mysql/mysql.go writes a record to a row and reads it back.
use circle_wallet_service.Prelude.{
  ℕ, ◌≡◌, refl, Bool, true, ◌&&◌, Option, none, some, List, [], ◌∷◌, String, ◌==◌, eq_iff, ltb,
  arith, if◌then◌else◌, Result, ok, err, Bool-cases, Option-cases, inl, inr,
}
use circle_wallet_service.Text.{runes, is_space}
use circle_wallet_service.Store.{TransactionRecord, StoreError, database}
use circle_wallet_service.Mysql.{Engine, Row}

abbrev pub null_str : String → Option String
null_str s = if s == "" then none else some s

-- COALESCE(column, '')
abbrev pub coalesce : Option String → String
coalesce none = ""
coalesce (some s) = s

all_space : List ℕ → Bool
unfolding is_space
all_space [] = true
all_space (c ∷ text) = is_space c && all_space text

-- strings.TrimSpace(s) == ""
unfoldable pub is_blank : String → Bool
unfolding all_space
is_blank s = all_space (runes s)

-- An int64 that is bound to a BIGINT UNSIGNED column must not be negative.
unfoldable pub fits : Option ℕ → Bool
fits none = true
fits (some n) = ltb n 9223372036854775808

-- The columns that a record is written to, with the payload as the server lays it out.
unfoldable pub columns : Engine → TransactionRecord → String → Row
columns engine rec payload = record {
  id = rec.id;
  sender_address = rec.sender_address;
  wallet_id = rec.wallet_id;
  fee_payer_wallet_id = null_str rec.fee_payer_wallet_id;
  fee_payer_address = null_str rec.fee_payer_address;
  status = rec.status;
  sequence_number = rec.sequence_number;
  function_id = rec.function_id;
  payload_json = payload;
  max_gas_amount = rec.max_gas_amount;
  idempotency_key = if is_blank rec.idempotency_key then none else some rec.idempotency_key;
  txn_hash = null_str rec.txn_hash;
  error_message = null_str rec.error_message;
  webhook_url = null_str rec.webhook_url;
  attempt_count = rec.attempt_count;
  last_error = null_str rec.last_error;
  failure_kind = null_str rec.failure_kind;
  vm_status = null_str rec.vm_status;
  created_at = engine.timestamp rec.created_at;
  updated_at = engine.timestamp rec.updated_at;
  expires_at = engine.timestamp rec.expires_at;
}

-- The row, unless the server refuses a value.
unfoldable pub row_of : Engine → TransactionRecord → Result StoreError Row
unfolding fits
row_of engine rec =
    if fits rec.sequence_number && fits rec.max_gas_amount
    then elim (engine.json rec.payload_json) as (λ _. Result StoreError Row) [
      | none ↦ err database
      | some payload ↦ ok (columns engine rec payload)
    ]
    else err database

unfoldable pub scan_record : Row → TransactionRecord
scan_record row = record {
  id = row.id;
  idempotency_key = coalesce row.idempotency_key;
  status = row.status;
  txn_hash = coalesce row.txn_hash;
  sender_address = row.sender_address;
  function_id = row.function_id;
  wallet_id = row.wallet_id;
  fee_payer_wallet_id = coalesce row.fee_payer_wallet_id;
  fee_payer_address = coalesce row.fee_payer_address;
  payload_json = row.payload_json;
  sequence_number = row.sequence_number;
  max_gas_amount = row.max_gas_amount;
  error_message = coalesce row.error_message;
  webhook_url = coalesce row.webhook_url;
  attempt_count = row.attempt_count;
  last_error = coalesce row.last_error;
  failure_kind = coalesce row.failure_kind;
  vm_status = coalesce row.vm_status;
  created_at = row.created_at;
  updated_at = row.updated_at;
  expires_at = row.expires_at;
}

coalesce-null_str : (s : String) → coalesce (null_str s) ≡ s
coalesce-null_str s = ground (arith, eq_iff s "")

-- What the columns keep of a record.
abbrev pub stored : Engine → TransactionRecord → String → TransactionRecord
stored engine rec payload = record rec {
  payload_json = payload;
  idempotency_key = if is_blank rec.idempotency_key then "" else rec.idempotency_key;
  created_at = engine.timestamp rec.created_at;
  updated_at = engine.timestamp rec.updated_at;
  expires_at = engine.timestamp rec.expires_at;
}

pub scan_record-columns :
    (engine : Engine) (rec : TransactionRecord) (payload : String)
    → scan_record (columns engine rec payload) ≡ stored engine rec payload
unfolding scan_record columns
scan_record-columns engine rec payload = rw (coalesce-null_str rec.fee_payer_wallet_id) (
    rw (coalesce-null_str rec.fee_payer_address) (
      rw (coalesce-null_str rec.txn_hash) (
        rw (coalesce-null_str rec.error_message) (
          rw (coalesce-null_str rec.webhook_url) (
            rw (coalesce-null_str rec.last_error) (
              rw (coalesce-null_str rec.failure_kind) (
                rw (coalesce-null_str rec.vm_status)
                  (elim (Bool-cases (is_blank rec.idempotency_key)) [
                    | inl e ↦ rw e refl
                    | inr e ↦ rw e refl
                  ]))))))))

-- A record that the server takes has numbers that fit and a payload that it takes.
pub row_of-columns :
    (engine : Engine) (rec : TransactionRecord) {row : Row}
    → row_of engine rec ≡ ok row
    → (payload : String) × ((engine.json rec.payload_json ≡ some payload)
        × (row ≡ columns engine rec payload))
unfolding row_of
row_of-columns engine rec h = elim (Option-cases (engine.json rec.payload_json)) [
  | inl e ↦ absurd (ground arith)
  | inr (payload, e) ↦ (payload, (e, ground arith))
]

-- ===== src/Webhook/Notify.antt =====
-- internal/webhook/notifier.go: the notifier that writes to the outbox.
use circle_wallet_service.Prelude.{
  ℕ, ◌≡◌, true, Option, none, some, String, ◌==◌, arith, if◌then◌else◌, Result, ok, err, is_set,
}
use circle_wallet_service.Store.{TxnStatus, TransactionRecord, StoreError}
use circle_wallet_service.Webhook.{target, new_delivery}
use circle_wallet_service.Mysql.{Engine, Database}
use circle_wallet_service.Mysql.Tables.{row_with}
use circle_wallet_service.Mysql.Outbox.{create_delivery, delivery_with, delivery_row}

pub record Payload : Type 0 where
  pub transaction_id : String
  pub status : TxnStatus
  pub txn_hash : String
  pub error_message : String
  pub failure_kind : String
  pub vm_status : String
  pub sender_address : String
  pub function_id : String
  pub timestamp : ℕ

abbrev pub payload_of : ℕ → TransactionRecord → Payload
payload_of now rec = record {
  transaction_id = rec.id;
  status = rec.status;
  txn_hash = rec.txn_hash;
  error_message = rec.error_message;
  failure_kind = rec.failure_kind;
  vm_status = rec.vm_status;
  sender_address = rec.sender_address;
  function_id = rec.function_id;
  timestamp = now;
}

-- An insert that fails is only logged.
abbrev inserted : Database → Result StoreError Database → Database
inserted db (ok t) = t
inserted db (err e) = db

-- `marshal` is json.Marshal, and `name` the fresh id.
unfoldable pub notify :
    Engine
    → (Payload → Option String)
    → String
    → ℕ
    → String
    → TransactionRecord
    → Database
    → Database
notify engine marshal global now name rec db = elim (target global rec) as (λ _. Database) [
  | none ↦ db
  | some url ↦ elim (marshal (payload_of now rec)) as (λ _. Database) [
    | none ↦ db
    | some body ↦ inserted db (create_delivery engine (new_delivery now name url body rec) db)
  ]
]

-- A notification of a record that has a URL, its own or the global one, and a row, adds one delivery to
-- the outbox under its fresh id, pending, not yet attempted and due at once, and leaves the other
-- deliveries alone, if the payload can be marshalled and stored.
pub notify_enqueues :
    (engine : Engine) (marshal : Payload → Option String) (global : String) (now : ℕ)
    (name url body laid : String) (rec : TransactionRecord) (db : Database)
    → target global rec ≡ some url
    → marshal (payload_of now rec) ≡ some body
    → engine.json body ≡ some laid
    → delivery_with name db.webhook_deliveries ≡ none
    → is_set (row_with rec.id db.transactions) ≡ true
    → (id : String)
    → delivery_with id (notify engine marshal global now name rec db).webhook_deliveries ≡ (
        if name == id
        then some (delivery_row engine (new_delivery now name url body rec) laid)
        else delivery_with id db.webhook_deliveries)
unfolding notify create_delivery delivery_with new_delivery
notify_enqueues engine marshal global now name url body laid rec db aim json kept fresh stands id =
    rw (notify, aim, json, create_delivery, kept, fresh, stands) (ground arith)

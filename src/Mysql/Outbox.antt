-- ===== src/Mysql/Outbox.antt =====
-- internal/store/mysql/webhook.go: the table `webhook_deliveries`.
pub mod Claims
pub mod Stuck
pub mod Distinct
use circle_wallet_service.Prelude.{
  ℕ, ◌+◌, ◌*◌, ◌/◌, Bool, true, false, not, ◌&&◌, ◌||◌, Option, none, some, List, [], ◌∷◌, String,
  ◌==◌, map, ltb, leb, nat_eq, take, length, if◌then◌else◌, Result, ok, err, is_set,
}
use circle_wallet_service.Store.{StoreError, database}
use circle_wallet_service.Webhook.{DeliveryStatus, pending, delivering, delivery_eq, DeliveryRecord}
use circle_wallet_service.Mysql.{Engine, Row, Database}
use circle_wallet_service.Mysql.Tables.{row_with}
use circle_wallet_service.Mysql.Queue.{whole_seconds}

-- SELECT ... WHERE id = ?
unfoldable pub delivery_with : String → List DeliveryRecord → Option DeliveryRecord
delivery_with id [] = none
delivery_with id (d ∷ ds) = if d.id == id then some d else delivery_with id ds

abbrev rounded : Engine → Option ℕ → Option ℕ
rounded engine none = none
rounded engine (some t) = some (engine.timestamp t)

-- The columns that a delivery is written to.
abbrev pub delivery_row : Engine → DeliveryRecord → String → DeliveryRecord
delivery_row engine rec payload = record rec {
  payload = payload;
  last_attempt_at = rounded engine rec.last_attempt_at;
  next_retry_at = engine.timestamp rec.next_retry_at;
  created_at = engine.timestamp rec.created_at;
}

-- The id must be new and the transaction must have its row.
unfoldable pub create_delivery : Engine → DeliveryRecord → Database → Result StoreError Database
create_delivery engine rec db =
    elim (engine.json rec.payload) as (λ _. Result StoreError Database) [
      | none ↦ err database
      | some payload ↦
          if not (is_set (delivery_with rec.id db.webhook_deliveries))
            && is_set (row_with rec.transaction_id db.transactions)
          then ok (record db {
            webhook_deliveries = delivery_row engine rec payload ∷ db.webhook_deliveries;
          })
          else err database
    ]

unfoldable pub update_deliveries :
    (DeliveryRecord → Bool)
    → (DeliveryRecord → DeliveryRecord)
    → List DeliveryRecord
    → List DeliveryRecord
update_deliveries p f [] = []
update_deliveries p f (d ∷ ds) = (if p d then f d else d) ∷ update_deliveries p f ds

unfoldable pub count_deliveries : (DeliveryRecord → Bool) → List DeliveryRecord → ℕ
count_deliveries p [] = 0
count_deliveries p (d ∷ ds) = let rest = count_deliveries p ds in if p d then rest + 1 else rest

-- last_attempt_at < t, which NULL does not satisfy
unfoldable pub is_stale_delivery : ℕ → ℕ → DeliveryRecord → Bool
is_stale_delivery now age d =
    delivery_eq d.status delivering
    && elim d.last_attempt_at [ none ↦ false | some t ↦ ltb (t + age) now ]

unfoldable pub recover_stale_deliveries : ℕ → ℕ → Database → Database × ℕ
unfolding is_stale_delivery
recover_stale_deliveries now older_than db =
    let stale = is_stale_delivery now (whole_seconds older_than) in
    (
      record db {
        webhook_deliveries =
            update_deliveries stale (λ d. record d { status = pending }) db.webhook_deliveries;
      },
      count_deliveries stale db.webhook_deliveries,
    )

unfoldable pub is_due : ℕ → DeliveryRecord → Bool
is_due now d = delivery_eq d.status pending && leb d.next_retry_at now

-- ORDER BY next_retry_at ASC
pub due_into : DeliveryRecord → List DeliveryRecord → List DeliveryRecord
due_into d [] = d ∷ []
due_into d (x ∷ xs) = if leb d.next_retry_at x.next_retry_at then d ∷ x ∷ xs else x ∷ due_into d xs

pub due_order : ℕ → List DeliveryRecord → List DeliveryRecord
unfolding due_into is_due
due_order now [] = []
due_order now (d ∷ ds) =
    let rest = due_order now ds in if is_due now d then due_into d rest else rest

-- WHERE id IN (...)
pub is_among : List DeliveryRecord → DeliveryRecord → Bool
is_among [] d = false
is_among (x ∷ xs) d = x.id == d.id || is_among xs d

abbrev pub set_delivering : DeliveryRecord → DeliveryRecord
set_delivering d = record d { status = delivering }

unfoldable pub claim_pending_deliveries : ℕ → ℕ → Database → List DeliveryRecord × Database
unfolding due_order is_among
claim_pending_deliveries now limit db =
    let out = take limit (due_order now db.webhook_deliveries) in
    (
      map set_delivering out,
      record db {
        webhook_deliveries = update_deliveries (is_among out) set_delivering db.webhook_deliveries;
      },
    )

-- The columns of `SET`.
abbrev pub set_outcome : Engine → DeliveryRecord → DeliveryRecord → DeliveryRecord
set_outcome engine rec d = record d {
  status = rec.status;
  attempts = rec.attempts;
  last_attempt_at = rounded engine rec.last_attempt_at;
  last_error = rec.last_error;
  next_retry_at = engine.timestamp rec.next_retry_at;
}

unfoldable pub update_delivery : Engine → DeliveryRecord → Database → Database
update_delivery engine rec db = record db {
  webhook_deliveries =
      update_deliveries (λ d. d.id == rec.id) (set_outcome engine rec) db.webhook_deliveries;
}

-- ORDER BY created_at
created_into : DeliveryRecord → List DeliveryRecord → List DeliveryRecord
created_into d [] = d ∷ []
created_into d (x ∷ xs) =
    if leb d.created_at x.created_at then d ∷ x ∷ xs else x ∷ created_into d xs

of_transaction : String → List DeliveryRecord → List DeliveryRecord
unfolding created_into
of_transaction txn [] = []
of_transaction txn (d ∷ ds) =
    let rest = of_transaction txn ds in
    if d.transaction_id == txn then created_into d rest else rest

unfoldable pub list_by_transaction_id : String → Database → List DeliveryRecord
unfolding of_transaction
list_by_transaction_id txn db = of_transaction txn db.webhook_deliveries

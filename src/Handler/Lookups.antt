-- ===== src/Handler/Lookups.antt =====
-- internal/handler/transaction.go and webhook.go: one row, and the deliveries of a row.
use circle_wallet_service.Prelude.{
  ℕ, Option, none, some, List, String, ◌==◌, if◌then◌else◌, Result, ok, err,
}
use circle_wallet_service.Store.{TransactionRecord, StoreError}
use circle_wallet_service.Handler.Backend.{Backend}
use circle_wallet_service.Webhook.{DeliveryRecord}

-- What the handlers write: an error, a row, or deliveries.
pub data Lookup : Type 0 where
  refused : ℕ → String → Lookup
  found : TransactionRecord → Lookup
  listed : List DeliveryRecord → Lookup

module _ (store : Backend) where
  open store use {World}

  shown : Result StoreError (Option TransactionRecord) × World → Lookup × World
  shown (err e, w) = (refused 500 "failed to retrieve transaction", w)
  shown (ok none, w) = (refused 404 "transaction not found", w)
  shown (ok (some rec), w) = (found rec, w)

  unfoldable pub get_transaction : String → World → Lookup × World
  unfolding shown
  get_transaction id w =
      if id == "" then (refused 400 "missing transaction id", w) else shown (store.get id w)

-- The answer of the outbox is a parameter.
unfoldable pub list_webhook_deliveries :
    (String → Result StoreError (List DeliveryRecord)) → String → Lookup
list_webhook_deliveries list txn_id =
    if txn_id == "" then refused 400 "missing transaction id" else elim (list txn_id) [
      | err e ↦ refused 500 "failed to list webhook deliveries"
      | ok records ↦ listed records
    ]

-- ===== src/Submitter/Submit.antt =====
-- `submitSigned` and `updateWithRetry` of internal/submitter/submitter.go.
pub mod Broadcasts
use circle_wallet_service.Prelude.{
  ℕ, zero, suc, ◌+◌, ◌-◌, Bool, true, false, not, ◌&&◌, ◌||◌, Option, none, some, List, [], ◌∷◌,
  String, ◌==◌, ltb, if◌then◌else◌, Result, ok, err,
}
use circle_wallet_service.Text.{concat}
use circle_wallet_service.Store.{
  TransactionRecord, StoreError, TxnStatus, database, already_exists, not_found,
  idempotency_conflict, cancelled, processing, submitted,
}
use circle_wallet_service.Memory.{update_if_status}
use circle_wallet_service.Submitter.{
  World, Broadcast, attempt, queue_update, mark_permanent_failure, requeue_transient,
  is_sequence_error,
}
use circle_wallet_service.Submitter.Remote.{Remote}
use circle_wallet_service.Submitter.Prepare.{Settings, SignedItem, reconcile_and_requeue}

-- The text of a store's error.
store_error_text : StoreError → String
store_error_text already_exists = "record already exists"
store_error_text not_found = "record not found"
store_error_text idempotency_conflict = "idempotency key already exists"
store_error_text database = "database error"
store_error_text cancelled = "context canceled"

retry_after : (World → Bool × World) → Result StoreError (Unit {0}) × World → Bool × World
retry_after again (ok _, w) = (true, w)
retry_after again (err cancelled, w) = (false, w)
retry_after again (err already_exists, w) = again w
retry_after again (err not_found, w) = again w
retry_after again (err idempotency_conflict, w) = again w
retry_after again (err database, w) = again w

-- for i := range maxAttempts: a cancelled context ends the loop, another error is tried again. The
-- answer is whether the row was written.
update_attempts : ℕ → TransactionRecord → World → Bool × World
unfolding retry_after
update_attempts zero rec w = (false, w)
update_attempts (suc n) rec w = retry_after (update_attempts n rec) (queue_update rec w)

unfoldable pub update_with_retry : TransactionRecord → World → Bool × World
unfolding update_attempts
update_with_retry = update_attempts 5

pub hashed_row : ℕ → String → TransactionRecord → TransactionRecord
hashed_row now h rec = record rec { txn_hash = h; updated_at = now }

-- The hash of a row that was accepted: the node's, if it returned another.
pub accepted_hash : String → String → String
accepted_hash own server = if not (server == "") && not (server == own) then server else own

pub submitted_row : ℕ → String → TransactionRecord → TransactionRecord
submitted_row now h rec = record rec {
  status = submitted;
  txn_hash = h;
  updated_at = now;
  last_error = "";
}

module _ (api : Remote) (cfg : Settings) where
  open api use {Signed, submit, parse_address}

  -- After the post was refused: nothing is on the chain, and the hash is cleared.
  submit_failed : TransactionRecord → String → World → World
  submit_failed rec e w =
      if is_sequence_error e
      then elim (parse_address rec.sender_address) [
        | ok sender ↦ reconcile_and_requeue api cfg rec sender w
        | err _ ↦ requeue_transient rec e w
      ]
      else if ltb cfg.max_retry_duration (w.clock - rec.created_at)
      then mark_permanent_failure rec "submit" e w
      else requeue_transient rec e w

  -- After the post: the answer of the node decides.
  posted : SignedItem Signed → TransactionRecord → Result String String → World → Bool × World
  unfolding submit_failed accepted_hash submitted_row
  posted item rec (err e) w = (false, submit_failed (record rec { txn_hash = "" }) e w)
  posted item rec (ok server) w =
      update_with_retry (submitted_row w.clock (accepted_hash item.hash server) rec) w

  post : SignedItem Signed → TransactionRecord → World → Bool × World
  unfolding posted
  post item rec w = posted item rec (submit item.signed_txn) (record w {
    broadcasts = record { id = rec.id; seq = item.seq_num; hash = item.hash } ∷ w.broadcasts;
  })

  -- After the hash was persisted, or was not.
  persisted : SignedItem Signed → TransactionRecord → Result StoreError Bool × World → Bool × World
  unfolding post store_error_text
  persisted item rec (err e, w) = (
    false,
    requeue_transient (record rec { txn_hash = "" })
        (concat "persist pre-submit hash: " (store_error_text e)) w,
  )
  persisted item rec (ok false, w) = (false, w)
  persisted item rec (ok true, w) = post item rec w

  unfoldable pub submit_signed : SignedItem Signed → World → Bool × World
  unfolding persisted hashed_row
  submit_signed item w =
      let row = hashed_row w.clock item.hash item.rec in
      persisted item row (attempt (update_if_status w.clock row processing) w)

-- ===== src/Submitter/Worker.antt =====
-- The rest of a sender's worker in internal/submitter/submitter.go: the producer's turn, the drain
-- after a failure, and the sweep at the end.
pub mod Quiet
use circle_wallet_service.Prelude.{
  Bool, true, ◌&&◌, Option, none, some, List, [], ◌∷◌, String, ◌==◌, if◌then◌else◌, Result, ok, err,
}
use circle_wallet_service.Store.{TransactionRecord, StoreError}
use circle_wallet_service.MemoryQueue.{claim_next_queued_for_sender}
use circle_wallet_service.Submitter.{
  World, attempt, queue_list_processing, queue_reconcile, requeue_record,
}
use circle_wallet_service.Submitter.Remote.{Remote}
use circle_wallet_service.Submitter.Prepare.{Settings, SignedItem, prepare_record, chain_sequence}
use circle_wallet_service.Submitter.Submit.{submit_signed}

-- if rec.SenderAddress != senderAddress || rec.TxnHash != "" { continue }
is_orphan : String → TransactionRecord → Bool
is_orphan addr rec = rec.sender_address == addr && rec.txn_hash == ""

sweep_rows : String → List TransactionRecord → World → World
unfolding is_orphan
sweep_rows addr [] w = w
sweep_rows addr (r ∷ rs) w = sweep_rows addr rs (if is_orphan addr r then requeue_record r w else w)

sweep_listed : String → Result StoreError (List TransactionRecord) × World → World
unfolding sweep_rows
sweep_listed addr (ok rs, w) = sweep_rows addr rs w
sweep_listed addr (err e, w) = w

unfoldable pub sweep_orphaned_processing : String → World → World
unfolding sweep_listed
sweep_orphaned_processing addr w = sweep_listed addr (queue_list_processing w)

-- One turn of the producer's loop: it ends, it goes round again, or it has an item to send.
pub data Turn (Signed : Type 0) : Type 0 where
  ends : Turn Signed
  again : Bool → Turn Signed
  sends : SignedItem Signed → Turn Signed

module _ (api : Remote) (cfg : Settings) where
  open api use {Signed, parse_address}

  turn_of : Option (SignedItem Signed) × Bool × World → Turn Signed × World
  turn_of (some item, _, w) = (sends item, w)
  turn_of (none, transient, w) = (again transient, w)

  claimed_turn : Result StoreError (Option TransactionRecord) × World → Turn Signed × World
  unfolding turn_of
  claimed_turn (err e, w) = (again true, w)
  claimed_turn (ok none, w) = (ends, w)
  claimed_turn (ok (some rec), w) = turn_of (prepare_record api cfg rec w)

  -- The claim, the preparation, and what comes of it; `again true` is after a pause.
  unfoldable pub producer_turn : String → World → Turn Signed × World
  unfolding claimed_turn
  producer_turn addr w =
      claimed_turn (attempt (λ s. ok (claim_next_queued_for_sender w.clock addr s)) w)

  requeue_items : List (SignedItem Signed) → World → World
  requeue_items [] w = w
  requeue_items (item ∷ items) w = requeue_items items (requeue_record item.rec w)

  -- The items still in the channel go back to the queue, then the counter is raised to the chain's.
  unfoldable pub drain_pipeline : List (SignedItem Signed) → String → World → World
  unfolding requeue_items
  drain_pipeline items addr w =
      let w' = requeue_items items w in
      elim (parse_address addr) [
        | err e ↦ w'
        | ok sender ↦ elim (chain_sequence api cfg sender) [
          | err e ↦ w'
          | ok chain_seq ↦ queue_reconcile addr chain_seq w'
        ]
      ]

  -- The consumer's loop over the items in the channel: it stops at the first failure, and hands the
  -- items left to the drain.
  consume : List (SignedItem Signed) → World → Option (List (SignedItem Signed)) × World
  consume [] w = (none, w)
  consume (item ∷ items) w =
      let next = submit_signed api cfg item w in
      let rest = consume items next.1 in if next.0 then rest else (some items, next.1)

  drain_if_failed : String → Option (List (SignedItem Signed)) × World → World
  unfolding drain_pipeline
  drain_if_failed addr (none, w) = w
  drain_if_failed addr (some items, w) = drain_pipeline items addr w

  -- `runSenderWorker` where the producer has filled the channel before the consumer runs.
  unfoldable pub finish_worker : List (SignedItem Signed) → String → World → World
  unfolding consume drain_if_failed
  finish_worker items addr w =
      sweep_orphaned_processing addr (drain_if_failed addr (consume items w))

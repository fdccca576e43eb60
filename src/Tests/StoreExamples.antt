-- ===== src/Tests/StoreExamples.antt =====
-- The theorems on the in-memory store, on the sample stores.
use circle_wallet_service.Prelude.{false, ◌≡◌, refl, true, some, List, [], ◌∷◌, String, arith, ok}
use circle_wallet_service.GoMap.{lookup, keys, insert, delete}
use circle_wallet_service.Store.{TransactionRecord, queued, processing}
use circle_wallet_service.Memory.{
  MemoryStore, new_memory_store, create, update_if_status, replace, purge_terminal_older_than,
  batch_loop,
}
use circle_wallet_service.Memory.Distinct.{OneEach}
use circle_wallet_service.Memory.Crud.{update_if_status-once}
use circle_wallet_service.MemoryQueue.{
  candidate, is_queued_for, older, claim_next_queued_for_sender, next_sequence, release_sequence,
  is_stale, is_shifted, recover_stale_processing, shift_sender_sequences,
}
use circle_wallet_service.MemoryQueue.Claims.{Taken, claim_fifo, claim-release}
use circle_wallet_service.MemoryQueue.Invariant.{Call, creates, step, run, run_unique_keys}
use circle_wallet_service.MemoryQueue.Requeues.{Requeued, rows_where, recover_exact, shift_exact}
use circle_wallet_service.Tests.Samples.{first, second, waiting, flying, aging}

abbrev claimed : TransactionRecord
claimed = record first { status = processing; sequence_number = some 7; updated_at = 50 }

abbrev after_claim : MemoryStore
after_claim = record waiting {
  records = ("t2", second) ∷ ("t1", claimed) ∷ [];
  sequences = ("0xa", 8) ∷ [];
}

-- The older row is claimed, though the newer one comes first in the map.
claims_older : claim_next_queued_for_sender 50 "0xa" waiting ≡ (some claimed, after_claim)
unfolding claim_next_queued_for_sender candidate keys lookup insert is_queued_for older
claims_older = refl

claim_fifo_example : Taken 50 "0xa" waiting after_claim claimed
claim_fifo_example = claim_fifo 50 "0xa" waiting after_claim claimed claims_older

recover_exact_example :
    Requeued (is_stale 10) 40 flying (recover_stale_processing 40 30 flying).0
    × ((recover_stale_processing 40 30 flying).1 ≡ rows_where (is_stale 10) flying)
recover_exact_example = recover_exact 40 30 flying (unfold lookup in (refl, (refl, tt)))

shift_exact_example :
    Requeued (is_shifted "0xa" 4) 40 flying (shift_sender_sequences 40 "0xa" 4 flying)
shift_exact_example = shift_exact 40 "0xa" 4 flying (unfold lookup in (refl, (refl, tt)))

purges_one : (purge_terminal_older_than 5 10 aging).1 ≡ 1
unfolding purge_terminal_older_than keys lookup batch_loop delete
purges_one = refl

abbrev stored : MemoryStore
stored = record {
  records = ("t1", record first { created_at = 60; updated_at = 60 }) ∷ [];
  idempotency_idx = ("k1", "t1") ∷ [];
  sequences = [];
  ttl = 1000;
}

creates_first : create 60 first (new_memory_store 1000) ≡ ok stored
unfolding create new_memory_store lookup insert
creates_first = refl

abbrev again : TransactionRecord
again = record second { idempotency_key = "k1" }

abbrev history : List Call
history = creates 60 first ∷ []

runs_to_stored : run history (new_memory_store 1000) ≡ stored
unfolding run step create new_memory_store lookup insert
runs_to_stored = refl

abbrev moved : TransactionRecord
moved = record first { status = processing }

abbrev after_move : MemoryStore
after_move = record waiting {
  records = ("t2", second) ∷ ("t1", record moved { updated_at = 80 }) ∷ [];
}

moves_once : update_if_status 80 moved queued waiting ≡ ok (true, after_move)
unfolding update_if_status lookup insert replace
moves_once = refl

update_if_status-once_example : update_if_status 90 moved queued after_move ≡ ok (false, after_move)
update_if_status-once_example =
    update_if_status-once 80 90 moved moved queued waiting refl refl moves_once

run_unique_keys_example :
    (◌≡◌ {A = String} "t1" "t1") × OneEach (run history (new_memory_store 1000))
run_unique_keys_example =
    run_unique_keys 1000 history "t1" "t1" "k1" refl (rw runs_to_stored (unfold lookup in refl))
      (rw runs_to_stored (unfold lookup in refl))

claim-release_example :
    next_sequence "0xa" (release_sequence "0xa" after_claim) ≡ next_sequence "0xa" waiting
claim-release_example =
    claim-release 50 "0xa" waiting after_claim claimed "0xa" claims_older
      (unfold lookup in omega arith)

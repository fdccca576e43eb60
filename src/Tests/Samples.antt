-- ===== src/Tests/Samples.antt =====
-- Sample rows and stores. Durations and times are small numbers.
use circle_wallet_service.Prelude.{ℕ, ◌+◌, Option, none, some, [], ◌∷◌, String}
use circle_wallet_service.Store.{TransactionRecord, TxnStatus, queued, processing, failed}
use circle_wallet_service.Memory.{MemoryStore}

abbrev pub row : String → String → TxnStatus → Option ℕ → ℕ → TransactionRecord
row name key status seq now = record {
  id = name;
  idempotency_key = key;
  status = status;
  txn_hash = "";
  sender_address = "0xa";
  function_id = "0x1::coin::transfer";
  wallet_id = "w1";
  fee_payer_wallet_id = "";
  fee_payer_address = "";
  payload_json = "{}";
  sequence_number = seq;
  max_gas_amount = none;
  error_message = "";
  webhook_url = "";
  attempt_count = 0;
  last_error = "";
  failure_kind = "";
  vm_status = "";
  created_at = now;
  updated_at = now;
  expires_at = now + 100;
}

abbrev pub first : TransactionRecord
first = row "t1" "k1" queued none 10

abbrev pub second : TransactionRecord
second = row "t2" "" queued none 20

abbrev pub held : TransactionRecord
held = row "t3" "" processing (some 4) 5

abbrev pub later : TransactionRecord
later = row "t4" "" processing (some 5) 30

abbrev pub dead : TransactionRecord
dead = row "t5" "" failed none 1

-- Two queued rows, the newer one first.
abbrev pub waiting : MemoryStore
waiting = record {
  records = ("t2", second) ∷ ("t1", first) ∷ [];
  idempotency_idx = ("k1", "t1") ∷ [];
  sequences = ("0xa", 7) ∷ [];
  ttl = 1000;
}

-- Two rows in flight, with the counter past them.
abbrev pub flying : MemoryStore
flying = record {
  records = ("t3", held) ∷ ("t4", later) ∷ [];
  idempotency_idx = [];
  sequences = ("0xa", 6) ∷ [];
  ttl = 1000;
}

abbrev pub aging : MemoryStore
aging = record {
  records = ("t5", dead) ∷ ("t1", first) ∷ [];
  idempotency_idx = ("k1", "t1") ∷ [];
  sequences = [];
  ttl = 1000;
}

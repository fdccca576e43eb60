-- ===== src/Memory/Clears.antt =====
-- How much one batch of `ClearIdempotencyOlderThan` in internal/store/memory.go does.
use circle_wallet_service.Prelude.{
  ℕ, ◌+◌, ◌≤◌, ◌≡◌, refl, Option, none, some, String, arith, Bool-cases, inl, inr, length, ◌==◌,
}
use circle_wallet_service.GoMap.{lookup, keys, length-delete}
use circle_wallet_service.Store.{TransactionRecord}
use circle_wallet_service.Memory.{MemoryStore, is_aged, clear_row, clear_idempotency_older_than}
use circle_wallet_service.Memory.Batches.{batch_loop_pays}
use circle_wallet_service.Memory.Index.{IsIndexed}
use circle_wallet_service.Memory.Sweeps.{clear_row-IsIndexed}

clear_row-pays :
    (cutoff : ℕ) (id : String) (o : Option TransactionRecord) (s : MemoryStore) (n : ℕ)
    → lookup id s.records ≡ o
    → IsIndexed s
    → (length (clear_row cutoff id o (s, n)).0.idempotency_idx + (clear_row cutoff id o (s, n)).1
        ≤ length s.idempotency_idx + n)
      × (n ≤ (clear_row cutoff id o (s, n)).1)
      × ((clear_row cutoff id o (s, n)).1 ≤ n + 1)
unfolding clear_row
clear_row-pays cutoff id none s n e v = omega arith
clear_row-pays cutoff id (some r) s n e v = elim (Bool-cases (r.idempotency_key == "")) [
  | inl k ↦ rw k (omega arith)
  | inr k ↦ elim (Bool-cases (is_aged cutoff r)) [
    | inl a ↦
        let there : lookup r.idempotency_key s.idempotency_idx ≡ some id =
          v.complete id r.idempotency_key (ground (arith, e)) k in
        let less = length-delete r.idempotency_key s.idempotency_idx there in
        rw (k, a) (omega (arith, less))
    | inr a ↦ rw (k, a) (omega arith)
  ]
]

-- With the index in order, a batch frees as many keys as it reports.
pub clear_bounded :
    (cutoff limit : ℕ) (s : MemoryStore)
    → IsIndexed s
    → let (t, n) = clear_idempotency_older_than cutoff limit s in
      length t.idempotency_idx + n ≤ length s.idempotency_idx
unfolding clear_idempotency_older_than
clear_bounded cutoff limit s v =
    let p =
      batch_loop_pays (clear_row cutoff) IsIndexed (λ t. length t.idempotency_idx)
        (λ id t n. clear_row-IsIndexed cutoff id (lookup id t.records) t n refl)
        (λ id t n. clear_row-pays cutoff id (lookup id t.records) t n refl) limit (keys s.records) s
        0 v in
    omega (arith, p.0)

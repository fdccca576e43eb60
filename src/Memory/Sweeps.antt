-- ===== src/Memory/Sweeps.antt =====
-- The three methods of internal/store/memory.go that walk the records and drop or clear rows.
use circle_wallet_service.Prelude.{
  ℕ, ◌-◌, ltb, ◌≡◌, refl, Option, none, some, List, [], ◌∷◌, String, ◌==◌, Bool-cases, inl, inr,
}
use circle_wallet_service.GoMap.{lookup, keys}
use circle_wallet_service.Store.{TransactionRecord}
use circle_wallet_service.Memory.{
  MemoryStore, is_aged, purge_row, purge_terminal_older_than, clear_row,
  clear_idempotency_older_than, evict_row, evict_loop, evict,
}
use circle_wallet_service.Memory.Batches.{batch_loop_inv}
use circle_wallet_service.Memory.Index.{IsIndexed, forget-IsIndexed, unkey-IsIndexed}

purge_row-IsIndexed :
    (cutoff : ℕ) (id : String) (o : Option TransactionRecord) (s : MemoryStore) (n : ℕ)
    → lookup id s.records ≡ o
    → IsIndexed s
    → IsIndexed (purge_row cutoff id o (s, n)).0
unfolding purge_row
purge_row-IsIndexed cutoff id none s n e v = v
purge_row-IsIndexed cutoff id (some rec) s n e v = elim (Bool-cases (is_aged cutoff rec)) [
  | inl a ↦ rw a (forget-IsIndexed id rec s v e)
  | inr a ↦ rw a v
]

pub clear_row-IsIndexed :
    (cutoff : ℕ) (id : String) (o : Option TransactionRecord) (s : MemoryStore) (n : ℕ)
    → lookup id s.records ≡ o
    → IsIndexed s
    → IsIndexed (clear_row cutoff id o (s, n)).0
unfolding clear_row
clear_row-IsIndexed cutoff id none s n e v = v
clear_row-IsIndexed cutoff id (some rec) s n e v = elim (Bool-cases (rec.idempotency_key == "")) [
  | inl a ↦ rw a v
  | inr a ↦ elim (Bool-cases (is_aged cutoff rec)) [
    | inl b ↦ rw (a, b) (unkey-IsIndexed id rec s v e a)
    | inr b ↦ rw (a, b) v
  ]
]

pub purge-IsIndexed :
    (cutoff limit : ℕ) (s : MemoryStore)
    → IsIndexed s
    → IsIndexed (purge_terminal_older_than cutoff limit s).0
unfolding purge_terminal_older_than
purge-IsIndexed cutoff limit s =
    batch_loop_inv IsIndexed (purge_row cutoff)
      (λ id t n. purge_row-IsIndexed cutoff id (lookup id t.records) t n refl) limit
      (keys s.records) s 0

pub clear-IsIndexed :
    (cutoff limit : ℕ) (s : MemoryStore)
    → IsIndexed s
    → IsIndexed (clear_idempotency_older_than cutoff limit s).0
unfolding clear_idempotency_older_than
clear-IsIndexed cutoff limit s =
    batch_loop_inv IsIndexed (clear_row cutoff)
      (λ id t n. clear_row-IsIndexed cutoff id (lookup id t.records) t n refl) limit
      (keys s.records) s 0

evict_row-IsIndexed :
    (cutoff : ℕ) (id : String) (o : Option TransactionRecord) (s : MemoryStore)
    → lookup id s.records ≡ o
    → IsIndexed s
    → IsIndexed (evict_row cutoff id o s)
unfolding evict_row
evict_row-IsIndexed cutoff id none s e v = v
evict_row-IsIndexed cutoff id (some rec) s e v = elim (Bool-cases (ltb rec.created_at cutoff)) [
  | inl a ↦ rw a (forget-IsIndexed id rec s v e)
  | inr a ↦ rw a v
]

evict_loop-IsIndexed :
    (cutoff : ℕ) (ids : List String) (s : MemoryStore)
    → IsIndexed s
    → IsIndexed (evict_loop cutoff ids s)
unfolding evict_loop
evict_loop-IsIndexed cutoff [] s v = v
evict_loop-IsIndexed cutoff (id ∷ ids) s v =
    evict_loop-IsIndexed cutoff ids (evict_row cutoff id (lookup id s.records) s)
      (evict_row-IsIndexed cutoff id (lookup id s.records) s refl v)

pub evict-IsIndexed : (now : ℕ) (s : MemoryStore) → IsIndexed s → IsIndexed (evict now s)
unfolding evict
evict-IsIndexed now s = evict_loop-IsIndexed (now - s.ttl) (keys s.records) s

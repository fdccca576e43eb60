-- ===== src/Memory/Distinct.antt =====
-- The ids of the records, under the methods of internal/store/memory.go.
use circle_wallet_service.Prelude.{
  ℕ, ◌-◌, ltb, ◌≡◌, Bool, Option, none, some, List, [], ◌∷◌, arith, String, ◌==◌, Option-cases,
  Bool-cases, inl, inr, ok,
}
use circle_wallet_service.GoMap.{
  lookup, insert, keys, IsDistinct, insert-IsDistinct, delete-IsDistinct,
}
use circle_wallet_service.Store.{TransactionRecord, TxnStatus, clone}
use circle_wallet_service.Memory.{
  MemoryStore, create, replace, update, update_if_status, is_aged, forget, purge_row,
  purge_terminal_older_than, clear_row, clear_idempotency_older_than, evict_row, evict_loop, evict,
}
use circle_wallet_service.Memory.Batches.{batch_loop_inv}
use circle_wallet_service.Memory.Index.{update_if_status_cases}

abbrev pub OneEach : MemoryStore → Type 0
OneEach s = IsDistinct s.records

pub create-OneEach :
    (now : ℕ) (rec : TransactionRecord) (s : MemoryStore) {t : MemoryStore}
    → OneEach s
    → create now rec s ≡ ok t
    → OneEach t
unfolding create
create-OneEach now rec s {t} d h =
    let e : t.records
        ≡ insert rec.id (record (clone rec) { created_at = now; updated_at = now }) s.records =
      ground arith in
    rw e (
      insert-IsDistinct rec.id (record (clone rec) { created_at = now; updated_at = now }) s.records
        d)

pub replace-OneEach :
    (now : ℕ) (old rec : TransactionRecord) (s : MemoryStore) {t : MemoryStore}
    → OneEach s
    → replace now old rec s ≡ ok t
    → OneEach t
unfolding replace
replace-OneEach now old rec s {t} d h =
    let e : t.records ≡ insert rec.id (record (clone rec) { updated_at = now }) s.records =
      ground arith in
    rw e (insert-IsDistinct rec.id (record (clone rec) { updated_at = now }) s.records d)

pub update-OneEach :
    (now : ℕ) (rec : TransactionRecord) (s : MemoryStore) {t : MemoryStore}
    → OneEach s
    → update now rec s ≡ ok t
    → OneEach t
unfolding update
update-OneEach now rec s {t} d h = elim (Option-cases (lookup rec.id s.records)) [
  | inl e ↦ absurd (ground arith)
  | inr (old, e) ↦ replace-OneEach now old rec s {t = t} d (ground arith)
]

pub update_if_status-OneEach :
    (now : ℕ) (rec : TransactionRecord) (expected : TxnStatus) (s : MemoryStore) {t : MemoryStore}
    {b : Bool}
    → OneEach s
    → update_if_status now rec expected s ≡ ok (b, t)
    → OneEach t
update_if_status-OneEach now rec expected s d h =
    elim (update_if_status_cases now rec expected s h) [
      | inl (old, _, _, _, done) ↦ replace-OneEach now old rec s d done
      | inr (_, same) ↦ rw same d
    ]

forget-OneEach :
    (id : String) (rec : TransactionRecord) (s : MemoryStore)
    → OneEach s
    → OneEach (forget id rec s)
unfolding forget
forget-OneEach id rec s d = delete-IsDistinct id s.records d

purge_row-OneEach :
    (cutoff : ℕ) (id : String) (o : Option TransactionRecord) (s : MemoryStore) (n : ℕ)
    → OneEach s
    → OneEach (purge_row cutoff id o (s, n)).0
unfolding purge_row
purge_row-OneEach cutoff id none s n d = d
purge_row-OneEach cutoff id (some rec) s n d = elim (Bool-cases (is_aged cutoff rec)) [
  | inl a ↦ rw a (forget-OneEach id rec s d)
  | inr a ↦ rw a d
]

clear_row-OneEach :
    (cutoff : ℕ) (id : String) (o : Option TransactionRecord) (s : MemoryStore) (n : ℕ)
    → OneEach s
    → OneEach (clear_row cutoff id o (s, n)).0
unfolding clear_row
clear_row-OneEach cutoff id none s n d = d
clear_row-OneEach cutoff id (some rec) s n d = elim (Bool-cases (rec.idempotency_key == "")) [
  | inl a ↦ rw a d
  | inr a ↦ elim (Bool-cases (is_aged cutoff rec)) [
    | inl b ↦ rw (a, b) (insert-IsDistinct id (record rec { idempotency_key = "" }) s.records d)
    | inr b ↦ rw (a, b) d
  ]
]

pub purge-OneEach :
    (cutoff limit : ℕ) (s : MemoryStore)
    → OneEach s
    → OneEach (purge_terminal_older_than cutoff limit s).0
unfolding purge_terminal_older_than
purge-OneEach cutoff limit s =
    batch_loop_inv OneEach (purge_row cutoff)
      (λ id t n. purge_row-OneEach cutoff id (lookup id t.records) t n) limit (keys s.records) s 0

pub clear-OneEach :
    (cutoff limit : ℕ) (s : MemoryStore)
    → OneEach s
    → OneEach (clear_idempotency_older_than cutoff limit s).0
unfolding clear_idempotency_older_than
clear-OneEach cutoff limit s =
    batch_loop_inv OneEach (clear_row cutoff)
      (λ id t n. clear_row-OneEach cutoff id (lookup id t.records) t n) limit (keys s.records) s 0

evict_row-OneEach :
    (cutoff : ℕ) (id : String) (o : Option TransactionRecord) (s : MemoryStore)
    → OneEach s
    → OneEach (evict_row cutoff id o s)
unfolding evict_row
evict_row-OneEach cutoff id none s d = d
evict_row-OneEach cutoff id (some rec) s d = elim (Bool-cases (ltb rec.created_at cutoff)) [
  | inl a ↦ rw a (forget-OneEach id rec s d)
  | inr a ↦ rw a d
]

evict_loop-OneEach :
    (cutoff : ℕ) (ids : List String) (s : MemoryStore)
    → OneEach s
    → OneEach (evict_loop cutoff ids s)
unfolding evict_loop
evict_loop-OneEach cutoff [] s d = d
evict_loop-OneEach cutoff (id ∷ ids) s d =
    evict_loop-OneEach cutoff ids (evict_row cutoff id (lookup id s.records) s)
      (evict_row-OneEach cutoff id (lookup id s.records) s d)

pub evict-OneEach : (now : ℕ) (s : MemoryStore) → OneEach s → OneEach (evict now s)
unfolding evict
evict-OneEach now s = evict_loop-OneEach (now - s.ttl) (keys s.records) s

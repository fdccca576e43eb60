-- ===== src/Memory/Index.antt =====
-- The idempotency index of internal/store/memory.go, and the methods that write it.
use circle_wallet_service.Prelude.{
  ℕ, ◌≡◌, Bool, true, false, Option, none, some, arith, String, ◌==◌, eq_iff, ◌⊎◌, ok, Option-cases,
  Bool-cases, inl, inr,
}
use circle_wallet_service.GoMap.{GoMap, lookup, insert, delete, lookup-insert, lookup-delete}
use circle_wallet_service.Store.{TransactionRecord, TxnStatus, status_eq, clone}
use circle_wallet_service.Memory.{MemoryStore, create, replace, update, update_if_status, forget}

-- The key of the record with an id.
abbrev pub key_at : String → GoMap TransactionRecord → Option String
key_at id m = elim (lookup id m) [ none ↦ none | some r ↦ some r.idempotency_key ]

pub record IsIndexed (s : MemoryStore) : Type 0 where
  pub points_back :
      (k id : String) → lookup k s.idempotency_idx ≡ some id → key_at id s.records ≡ some k
  pub never_empty : (k id : String) → lookup k s.idempotency_idx ≡ some id → (k == "") ≡ false
  pub complete :
      (id k : String)
      → key_at id s.records ≡ some k
      → (k == "") ≡ false
      → lookup k s.idempotency_idx ≡ some id

pub create-IsIndexed :
    (now : ℕ) (rec : TransactionRecord) (s : MemoryStore) {t : MemoryStore}
    → IsIndexed s
    → create now rec s ≡ ok t
    → IsIndexed t
unfolding create
create-IsIndexed now rec s {t} v h = record {
  points_back = λ k id p. ground (
    arith,
    eq_iff rec.id id,
    eq_iff rec.idempotency_key k,
    lookup-insert rec.id id (record (clone rec) { created_at = now; updated_at = now }) s.records,
    lookup-insert rec.idempotency_key k rec.id s.idempotency_idx,
    v.points_back k id,
  );
  never_empty = λ k id p. ground (
    arith,
    eq_iff rec.idempotency_key k,
    lookup-insert rec.idempotency_key k rec.id s.idempotency_idx,
    v.never_empty k id,
  );
  complete = λ id k p q. ground (
    arith,
    eq_iff rec.id id,
    eq_iff rec.idempotency_key k,
    lookup-insert rec.id id (record (clone rec) { created_at = now; updated_at = now }) s.records,
    lookup-insert rec.idempotency_key k rec.id s.idempotency_idx,
    v.complete id k,
  );
}

replace-IsIndexed :
    (now : ℕ) (old rec : TransactionRecord) (s : MemoryStore) {t : MemoryStore}
    → IsIndexed s
    → lookup rec.id s.records ≡ some old
    → replace now old rec s ≡ ok t
    → IsIndexed t
unfolding replace
replace-IsIndexed now old rec s {t} v found h = record {
  points_back = λ k id p. ground (
    arith,
    eq_iff rec.id id,
    eq_iff rec.idempotency_key k,
    eq_iff old.idempotency_key k,
    lookup-insert rec.id id (record (clone rec) { updated_at = now }) s.records,
    lookup-insert rec.idempotency_key k rec.id s.idempotency_idx,
    lookup-insert rec.idempotency_key k rec.id (delete old.idempotency_key s.idempotency_idx),
    lookup-delete old.idempotency_key k s.idempotency_idx,
    v.points_back k id,
    v.never_empty k id,
    eq_iff old.idempotency_key rec.idempotency_key,
  );
  never_empty = λ k id p. ground (
    arith,
    eq_iff rec.idempotency_key k,
    lookup-insert rec.idempotency_key k rec.id s.idempotency_idx,
    lookup-insert rec.idempotency_key k rec.id (delete old.idempotency_key s.idempotency_idx),
    lookup-delete old.idempotency_key k s.idempotency_idx,
    v.never_empty k id,
  );
  complete = λ id k p q. ground (
    arith,
    eq_iff rec.id id,
    eq_iff rec.idempotency_key k,
    eq_iff old.idempotency_key k,
    lookup-insert rec.id id (record (clone rec) { updated_at = now }) s.records,
    lookup-insert rec.idempotency_key k rec.id s.idempotency_idx,
    lookup-insert rec.idempotency_key k rec.id (delete old.idempotency_key s.idempotency_idx),
    lookup-delete old.idempotency_key k s.idempotency_idx,
    v.complete id k,
    v.complete rec.id k,
    eq_iff id rec.id,
    eq_iff old.idempotency_key rec.idempotency_key,
  );
}

pub update-IsIndexed :
    (now : ℕ) (rec : TransactionRecord) (s : MemoryStore) {t : MemoryStore}
    → IsIndexed s
    → update now rec s ≡ ok t
    → IsIndexed t
unfolding update
update-IsIndexed now rec s v h = elim (Option-cases (lookup rec.id s.records)) [
  | inl e ↦ absurd (ground arith)
  | inr (old, e) ↦ replace-IsIndexed now old rec s v e (ground arith)
]

-- A conditional update either replaces a row of the expected status, or changes nothing.
pub update_if_status_cases :
    (now : ℕ) (rec : TransactionRecord) (expected : TxnStatus) (s : MemoryStore) {t : MemoryStore}
    {b : Bool}
    → update_if_status now rec expected s ≡ ok (b, t)
    → ((old : TransactionRecord) × (b ≡ true)
        × (lookup rec.id s.records ≡ some old)
        × (status_eq old.status expected ≡ true)
        × (replace now old rec s ≡ ok t))
      ⊎ ((b ≡ false) × (t ≡ s))
unfolding update_if_status
update_if_status_cases now rec expected s h = elim (Option-cases (lookup rec.id s.records)) [
  | inl e ↦ inr (ground arith)
  | inr (old, e) ↦ elim (Bool-cases (status_eq old.status expected)) [
    | inl m ↦ inl (old, ground arith, e, m, ground arith)
    | inr m ↦ inr (ground arith)
  ]
]

pub update_if_status-IsIndexed :
    (now : ℕ) (rec : TransactionRecord) (expected : TxnStatus) (s : MemoryStore) {t : MemoryStore}
    {b : Bool}
    → IsIndexed s
    → update_if_status now rec expected s ≡ ok (b, t)
    → IsIndexed t
update_if_status-IsIndexed now rec expected s v h =
    elim (update_if_status_cases now rec expected s h) [
      | inl (old, _, found, _, done) ↦ replace-IsIndexed now old rec s v found done
      | inr (_, same) ↦ rw same v
    ]

-- The maps without the row of an id.
pub forget-IsIndexed :
    (id : String) (rec : TransactionRecord) (s : MemoryStore)
    → IsIndexed s
    → lookup id s.records ≡ some rec
    → IsIndexed (forget id rec s)
unfolding forget
forget-IsIndexed id rec s v found = record {
  points_back = λ k j p. ground (
    arith,
    eq_iff id j,
    eq_iff rec.idempotency_key k,
    lookup-delete id j s.records,
    lookup-delete rec.idempotency_key k s.idempotency_idx,
    v.points_back k j,
    v.never_empty k j,
  );
  never_empty = λ k j p.
      ground (arith, lookup-delete rec.idempotency_key k s.idempotency_idx, v.never_empty k j);
  complete = λ j k p q. ground (
    arith,
    eq_iff id j,
    eq_iff rec.idempotency_key k,
    lookup-delete id j s.records,
    lookup-delete rec.idempotency_key k s.idempotency_idx,
    v.complete j k,
    v.complete id k,
  );
}

pub unkey-IsIndexed :
    (id : String) (rec : TransactionRecord) (s : MemoryStore)
    → IsIndexed s
    → lookup id s.records ≡ some rec
    → (rec.idempotency_key == "") ≡ false
    → IsIndexed (record s {
      records = insert id (record rec { idempotency_key = "" }) s.records;
      idempotency_idx = delete rec.idempotency_key s.idempotency_idx;
    })
unkey-IsIndexed id rec s v found keyed = record {
  points_back = λ k j p. ground (
    arith,
    eq_iff id j,
    eq_iff rec.idempotency_key k,
    lookup-insert id j (record rec { idempotency_key = "" }) s.records,
    lookup-delete rec.idempotency_key k s.idempotency_idx,
    v.points_back k j,
    v.never_empty k j,
  );
  never_empty = λ k j p.
      ground (arith, lookup-delete rec.idempotency_key k s.idempotency_idx, v.never_empty k j);
  complete = λ j k p q. ground (
    arith,
    eq_iff id j,
    eq_iff rec.idempotency_key k,
    eq_iff k "",
    lookup-insert id j (record rec { idempotency_key = "" }) s.records,
    lookup-delete rec.idempotency_key k s.idempotency_idx,
    v.complete j k,
    v.complete id k,
  );
}

-- A row written over itself with its key kept.
pub rewrite-IsIndexed :
    (id : String) (rec row : TransactionRecord) (s : MemoryStore) (seqs : GoMap ℕ)
    → IsIndexed s
    → lookup id s.records ≡ some rec
    → row.idempotency_key ≡ rec.idempotency_key
    → IsIndexed (record s { records = insert id row s.records; sequences = seqs })
rewrite-IsIndexed id rec row s seqs v found same = record {
  points_back =
      λ k j p. ground (arith, eq_iff id j, lookup-insert id j row s.records, v.points_back k j);
  never_empty = v.never_empty;
  complete =
      λ j k p q. ground (arith, eq_iff id j, lookup-insert id j row s.records, v.complete j k);
}

-- ===== src/Memory/Crud.antt =====
-- What the single-record methods of internal/store/memory.go do on every branch.
use circle_wallet_service.Prelude.{
  ℕ, ◌≡◌, true, false, none, some, arith, String, ◌==◌, eq_iff, if◌then◌else◌, Option-cases,
  Bool-cases, inl, inr, ◌⊎◌, ok, err,
}
use circle_wallet_service.GoMap.{insert, lookup, lookup-insert}
use circle_wallet_service.Store.{
  TransactionRecord, TxnStatus, status_eq, clone, idempotency_conflict,
}
use circle_wallet_service.Memory.{
  key_taken, index_key, drop_old_key, MemoryStore, create, replace, update, update_if_status, get,
  get_by_idempotency_key,
}
use circle_wallet_service.Memory.Index.{IsIndexed, key_at, update_if_status_cases}

pub clone_lem : (r : TransactionRecord) → clone r ≡ r
unfolding clone
clone_lem r = ground arith

pub get_lem : (id : String) (s : MemoryStore) → get id s ≡ lookup id s.records
unfolding get
get_lem id s = elim (Option-cases (lookup id s.records)) [
  | inl e ↦ ground arith
  | inr (r, e) ↦ ground (arith, clone_lem r)
]

-- The write of `replace`, seen through a lookup.
pub lookup-replace :
    (now : ℕ) (old rec : TransactionRecord) (s : MemoryStore) (id : String) {t : MemoryStore}
    → replace now old rec s ≡ ok t
    → lookup id t.records
      ≡ (if rec.id == id then some (record rec { updated_at = now }) else lookup id s.records)
unfolding replace
lookup-replace now old rec s id h =
    ground
      (arith, lookup-insert rec.id id (record rec { updated_at = now }) s.records, clone_lem rec)

create-lookup :
    (now : ℕ) (rec : TransactionRecord) (s : MemoryStore) (id : String) {t : MemoryStore}
    → create now rec s ≡ ok t
    → lookup id t.records ≡ (
        if rec.id == id
        then some (record rec { created_at = now; updated_at = now })
        else lookup id s.records)
unfolding create
create-lookup now rec s id h = ground (
  arith,
  clone_lem rec,
  lookup-insert rec.id id (record rec { created_at = now; updated_at = now }) s.records,
)

create-index :
    (now : ℕ) (rec : TransactionRecord) (s : MemoryStore) {t : MemoryStore}
    → create now rec s ≡ ok t
    → (rec.idempotency_key == "") ≡ false
    → lookup rec.idempotency_key t.idempotency_idx ≡ some rec.id
unfolding create
create-index now rec s h keyed = ground (
  arith,
  eq_iff rec.idempotency_key rec.idempotency_key,
  lookup-insert rec.idempotency_key rec.idempotency_key rec.id s.idempotency_idx,
)

create-free :
    (now : ℕ) (rec : TransactionRecord) (s : MemoryStore) {t : MemoryStore}
    → create now rec s ≡ ok t
    → lookup rec.id s.records ≡ none
unfolding create
create-free now rec s h = ground arith

-- A create that succeeds found its id free; it stored the record at the current time under its id,
-- and under its key if it has one, and it leaves every other id alone.
pub create-get :
    (now : ℕ) (rec : TransactionRecord) (s : MemoryStore) {t : MemoryStore}
    → create now rec s ≡ ok t
    → (get rec.id s ≡ none)
      × ((id : String)
          → get id t ≡ (
              if rec.id == id
              then some (record rec { created_at = now; updated_at = now })
              else get id s))
      × (((rec.idempotency_key == "") ≡ true)
          ⊎ (get_by_idempotency_key rec.idempotency_key t ≡ get rec.id t))
create-get now rec s {t} h = (
  rw (get_lem rec.id s) (create-free now rec s h),
  λ id. rw (get_lem id t, get_lem id s) (create-lookup now rec s id h),
  elim (Bool-cases (rec.idempotency_key == "")) [
    | inl e ↦ inl e
    | inr e ↦ inr (unfold get_by_idempotency_key in ground (arith, create-index now rec s h e))
  ],
)

-- With the index in order, a second create under a key that a stored record carries is refused with
-- the idempotency conflict, and a lookup of the key finds that record.
pub create-conflict :
    (now : ℕ) (rec : TransactionRecord) (s : MemoryStore) (id : String)
    → IsIndexed s
    → lookup rec.id s.records ≡ none
    → (rec.idempotency_key == "") ≡ false
    → key_at id s.records ≡ some rec.idempotency_key
    → (create now rec s ≡ err idempotency_conflict)
      × (get_by_idempotency_key rec.idempotency_key s ≡ get id s)
create-conflict now rec s id v free keyed owner =
    let found = v.complete id rec.idempotency_key owner keyed in
    (
      (unfold create in ground (arith, found)),
      (unfold get_by_idempotency_key in ground (arith, found)),
    )

-- Two writers that both read a row in a status and write it conditionally on that status: if the
-- first write takes the row out of the status, the second changes nothing and reports false.
pub update_if_status-once :
    (now later : ℕ) (first second : TransactionRecord) (expected : TxnStatus) (s : MemoryStore)
    {t : MemoryStore}
    → first.id ≡ second.id
    → status_eq first.status expected ≡ false
    → update_if_status now first expected s ≡ ok (true, t)
    → update_if_status later second expected t ≡ ok (false, t)
update_if_status-once now later first second expected s {t} same moved won =
    elim (update_if_status_cases now first expected s won) [
      | inl (old, _, _, _, done) ↦
          let there = lookup-replace now old first s second.id done in
          unfold update_if_status in ground (arith, there, eq_iff first.id second.id)
      | inr (lost, _) ↦ cc
    ]

-- An update that succeeds wrote the row under its id, which was there, and nothing else.
pub lookup-update :
    (now : ℕ) (rec : TransactionRecord) (s : MemoryStore) (id : String) {t : MemoryStore}
    → update now rec s ≡ ok t
    → lookup id t.records
      ≡ (if rec.id == id then some (record rec { updated_at = now }) else lookup id s.records)
lookup-update now rec s id {t} h = elim (Option-cases (lookup rec.id s.records)) [
  | inl e ↦ absurd (unfold update in ground arith)
  | inr (old, e) ↦ lookup-replace now old rec s id {t = t} (unfold update in ground arith)
]

-- With the index in order, a conditional write over a row in the expected status that carries the
-- same key is done.
pub update_if_status-done :
    (now : ℕ) (rec old : TransactionRecord) (expected : TxnStatus) (s : MemoryStore)
    → IsIndexed s
    → lookup rec.id s.records ≡ some old
    → status_eq old.status expected ≡ true
    → old.idempotency_key ≡ rec.idempotency_key
    → (t : MemoryStore) × (update_if_status now rec expected s ≡ ok (true, t))
update_if_status-done now rec old expected s v found was same =
    let free : key_taken s.idempotency_idx rec.idempotency_key (some rec.id) ≡ false =
      unfold key_taken in
      ground (arith, found, same, eq_iff rec.id rec.id, v.complete rec.id rec.idempotency_key) in
    (
      record s {
        records = insert rec.id (record (clone rec) { updated_at = now }) s.records;
        idempotency_idx =
            index_key (drop_old_key s.idempotency_idx old.idempotency_key rec.idempotency_key)
              rec.idempotency_key rec.id;
      },
      unfold update_if_status replace in ground (arith, found, was, free),
    )

-- ===== src/Memory.antt =====
-- internal/store/memory.go: the in-memory store. Each method runs under the store's mutex, so it is
-- one function; the time that it reads is an argument. The maps of records are walked by key.
pub mod Index
pub mod Batches
pub mod Crud
pub mod Sweeps
pub mod Purge
pub mod Distinct
pub mod Pages
pub mod Clears
use circle_wallet_service.Prelude.{
  ℕ, ◌+◌, ◌-◌, Bool, true, false, not, ◌&&◌, ◌||◌, Option, none, some, List, [], ◌∷◌, String, ◌==◌,
  str_lt, ltb, leb, nat_eq, length, take, if◌then◌else◌, Result, ok, err,
}
use circle_wallet_service.GoMap.{GoMap, lookup, insert, delete, keys}
use circle_wallet_service.Store.{
  TxnStatus, status_eq, TransactionRecord, is_terminal, clone, StoreError, already_exists,
  not_found, idempotency_conflict,
}

pub record MemoryStore : Type 0 where
  pub records : GoMap TransactionRecord
  -- idempotency_key -> record id
  pub idempotency_idx : GoMap String
  -- sender_address -> next_sequence
  pub sequences : GoMap ℕ
  pub ttl : ℕ

unfoldable pub new_memory_store : ℕ → MemoryStore
new_memory_store ttl = record { records = []; idempotency_idx = []; sequences = []; ttl = ttl }

-- Whether a key is set and is taken by another record.
key_taken : GoMap String → String → Option String → Bool
key_taken idx key except = not (key == "") && elim (lookup key idx) [
  | none ↦ false
  | some owner ↦ elim except [ none ↦ true | some id ↦ not (owner == id) ]
]

-- if cp.IdempotencyKey != "" { s.idempotencyIdx[cp.IdempotencyKey] = cp.ID }
index_key : GoMap String → String → String → GoMap String
index_key idx key id = if key == "" then idx else insert key id idx

-- if old.IdempotencyKey != "" && old.IdempotencyKey != rec.IdempotencyKey { delete(..) }
drop_old_key : GoMap String → String → String → GoMap String
drop_old_key idx old new = if not (old == "") && not (old == new) then delete old idx else idx

unfoldable pub create : ℕ → TransactionRecord → MemoryStore → Result StoreError MemoryStore
unfolding key_taken index_key clone
create now rec s = elim (lookup rec.id s.records) [
  | some _ ↦ err already_exists
  | none ↦
      if key_taken s.idempotency_idx rec.idempotency_key none
      then err idempotency_conflict
      else let cp = record (clone rec) { created_at = now; updated_at = now } in
        ok (record s {
          records = insert rec.id cp s.records;
          idempotency_idx = index_key s.idempotency_idx rec.idempotency_key rec.id;
        })
]

-- The shared tail of `Update` and `UpdateIfStatus`, under the lock: from the uniqueness test on.
unfoldable pub replace :
    ℕ → TransactionRecord → TransactionRecord → MemoryStore → Result StoreError MemoryStore
unfolding key_taken index_key drop_old_key clone
replace now old rec s =
    if key_taken s.idempotency_idx rec.idempotency_key (some rec.id)
    then err idempotency_conflict
    else ok (record s {
      records = insert rec.id (record (clone rec) { updated_at = now }) s.records;
      idempotency_idx =
          index_key (drop_old_key s.idempotency_idx old.idempotency_key rec.idempotency_key)
            rec.idempotency_key rec.id;
    })

unfoldable pub update : ℕ → TransactionRecord → MemoryStore → Result StoreError MemoryStore
update now rec s = elim (lookup rec.id s.records) [
  | none ↦ err not_found
  | some old ↦ replace now old rec s
]

abbrev pub with_answer :
    Bool → Result StoreError MemoryStore → Result StoreError (Bool × MemoryStore)
with_answer b (ok s) = ok (b, s)
with_answer b (err e) = err e

unfoldable pub update_if_status :
    ℕ → TransactionRecord → TxnStatus → MemoryStore → Result StoreError (Bool × MemoryStore)
update_if_status now rec expected s = elim (lookup rec.id s.records) [
  | none ↦ ok (false, s)
  | some old ↦
      if status_eq old.status expected
      then with_answer true (replace now old rec s)
      else ok (false, s)
]

unfoldable pub get : String → MemoryStore → Option TransactionRecord
unfolding clone
get id s = elim (lookup id s.records) [ none ↦ none | some rec ↦ some (clone rec) ]

unfoldable pub get_by_idempotency_key : String → MemoryStore → Option TransactionRecord
unfolding get
get_by_idempotency_key key s =
    if key == ""
    then none
    else elim (lookup key s.idempotency_idx) [ none ↦ none | some id ↦ get id s ]

-- for id, rec := range s.records { if keep(rec) { result = append(result, rec.clone()) } }
select : (TransactionRecord → Bool) → List String → GoMap TransactionRecord → List TransactionRecord
unfolding clone
select keep [] m = []
select keep (id ∷ ids) m =
    let rest = select keep ids m in
    elim (lookup id m) [ none ↦ rest | some rec ↦ if keep rec then clone rec ∷ rest else rest ]

unfoldable pub list_by_status : TxnStatus → MemoryStore → List TransactionRecord
unfolding select
list_by_status status s = select (λ r. status_eq r.status status) (keys s.records) s.records

-- The order of a page: by (updated_at, id).
unfoldable pub row_before : TransactionRecord → TransactionRecord → Bool
row_before a b =
    if nat_eq a.updated_at b.updated_at then str_lt a.id b.id else ltb a.updated_at b.updated_at

-- Strictly after the cursor (afterUpdatedAt, afterID).
unfoldable pub after_cursor : ℕ → String → TransactionRecord → Bool
after_cursor t id r =
    not (ltb r.updated_at t) && not (nat_eq r.updated_at t && (str_lt r.id id || r.id == id))

-- sort.Slice(matched, less)
sort_into : TransactionRecord → List TransactionRecord → List TransactionRecord
sort_into r [] = r ∷ []
sort_into r (x ∷ xs) = if row_before r x then r ∷ x ∷ xs else x ∷ sort_into r xs

sort_rows : List TransactionRecord → List TransactionRecord
sort_rows [] = []
sort_rows (r ∷ rs) = sort_into r (sort_rows rs)

-- if limit > 0 && len(matched) > limit { matched = matched[:limit] }
first_page : ℕ → List TransactionRecord → List TransactionRecord
first_page limit rows = if ltb 0 limit && ltb limit (length rows) then take limit rows else rows

unfoldable pub list_by_status_paged :
    TxnStatus → ℕ → ℕ → String → MemoryStore → List TransactionRecord
unfolding select after_cursor sort_into sort_rows first_page row_before
list_by_status_paged status limit t id s = first_page limit (
    sort_rows
      (select (λ r. status_eq r.status status && after_cursor t id r) (keys s.records) s.records))

pub limit_reached : ℕ → ℕ → Bool
limit_reached limit count = ltb 0 limit && leb limit count

unfoldable pub is_aged : ℕ → TransactionRecord → Bool
is_aged cutoff rec = is_terminal rec.status && ltb rec.updated_at cutoff

-- The index and the records without a record.
pub forget : String → TransactionRecord → MemoryStore → MemoryStore
forget id rec s = record s {
  records = delete id s.records;
  idempotency_idx =
      if rec.idempotency_key == ""
      then s.idempotency_idx
      else delete rec.idempotency_key s.idempotency_idx;
}

purge_row : ℕ → String → Option TransactionRecord → MemoryStore × ℕ → MemoryStore × ℕ
unfolding is_aged forget
purge_row cutoff id none (s, n) = (s, n)
purge_row cutoff id (some rec) (s, n) =
    if is_aged cutoff rec then (forget id rec s, n + 1) else (s, n)

-- for id, rec := range s.records { if limit > 0 && n >= limit { break }; row(id, rec) }
unfoldable pub batch_loop :
    (String → Option TransactionRecord → MemoryStore × ℕ → MemoryStore × ℕ)
    → ℕ
    → List String
    → MemoryStore × ℕ
    → MemoryStore × ℕ
unfolding limit_reached
batch_loop row limit [] acc = acc
batch_loop row limit (id ∷ ids) (s, n) =
    let next = batch_loop row limit ids (row id (lookup id s.records) (s, n)) in
    if limit_reached limit n then (s, n) else next

unfoldable pub purge_terminal_older_than : ℕ → ℕ → MemoryStore → MemoryStore × ℕ
unfolding purge_row
purge_terminal_older_than cutoff limit s =
    batch_loop (purge_row cutoff) limit (keys s.records) (s, 0)

-- rec.IdempotencyKey = "" is written through the pointer that the map holds.
pub clear_row : ℕ → String → Option TransactionRecord → MemoryStore × ℕ → MemoryStore × ℕ
unfolding is_aged
clear_row cutoff id none (s, n) = (s, n)
clear_row cutoff id (some rec) (s, n) =
    if not (rec.idempotency_key == "") && is_aged cutoff rec
    then (
      record s {
        records = insert id (record rec { idempotency_key = "" }) s.records;
        idempotency_idx = delete rec.idempotency_key s.idempotency_idx;
      },
      n + 1,
    )
    else (s, n)

unfoldable pub clear_idempotency_older_than : ℕ → ℕ → MemoryStore → MemoryStore × ℕ
unfolding clear_row
clear_idempotency_older_than cutoff limit s =
    batch_loop (clear_row cutoff) limit (keys s.records) (s, 0)

evict_row : ℕ → String → Option TransactionRecord → MemoryStore → MemoryStore
unfolding forget
evict_row cutoff id none s = s
evict_row cutoff id (some rec) s = if ltb rec.created_at cutoff then forget id rec s else s

evict_loop : ℕ → List String → MemoryStore → MemoryStore
unfolding evict_row
evict_loop cutoff [] s = s
evict_loop cutoff (id ∷ ids) s = evict_loop cutoff ids (evict_row cutoff id (lookup id s.records) s)

unfoldable pub evict : ℕ → MemoryStore → MemoryStore
unfolding evict_loop
evict now s = evict_loop (now - s.ttl) (keys s.records) s

-- ===== src/Memory/Pages.antt =====
-- The rows of a page of `ListByStatusPaged` in internal/store/memory.go, and the order of its cursor.
use circle_wallet_service.Prelude.{
  ℕ, zero, suc, ◌≡◌, refl, Bool, true, false, ◌&&◌, ◌⊎◌, inl, inr, none, some, List, [], ◌∷◌, Memᴰ,
  String, eq_iff, ltb, str_lt_trans, str_lt_total, arith, Bool-cases, Option-cases, length, take,
}
use circle_wallet_service.GoMap.{GoMap, lookup, keys}
use circle_wallet_service.Store.{TransactionRecord, TxnStatus, status_eq}
use circle_wallet_service.Memory.{
  MemoryStore, select, after_cursor, sort_into, sort_rows, first_page, row_before,
  list_by_status_paged,
}
use circle_wallet_service.Memory.Crud.{clone_lem}

pub after_cursor_trans :
    (t : ℕ) (id : String) (r q : TransactionRecord)
    → after_cursor t id r ≡ true
    → after_cursor r.updated_at r.id q ≡ true
    → after_cursor t id q ≡ true
unfolding after_cursor
after_cursor_trans t id r q h k = ground (
  arith,
  str_lt_total q.id id,
  str_lt_total r.id id,
  str_lt_total q.id r.id,
  str_lt_trans q.id id r.id,
  str_lt_trans id r.id q.id,
  eq_iff r.id id,
  eq_iff q.id r.id,
  eq_iff q.id id,
)

pub after_cursor_irrefl : (r : TransactionRecord) → after_cursor r.updated_at r.id r ≡ false
unfolding after_cursor
after_cursor_irrefl r = ground (arith, eq_iff r.id r.id)

-- A row of the status beyond the cursor.
abbrev pub waits : TxnStatus → ℕ → String → TransactionRecord → Bool
waits status t id r = status_eq r.status status && after_cursor t id r

module _ {ℓ} {A : Type ℓ} where
  Mem-cases : {a x : A} {xs : List A} → Memᴰ a (x ∷ xs) → (a ≡ x) ⊎ Memᴰ a xs
  Mem-cases (Memᴰ.head e) = inl e
  Mem-cases (Memᴰ.tail m) = inr m

  take-Mem : (a : A) (n : ℕ) (xs : List A) → Memᴰ a (take n xs) → Memᴰ a xs
  take-Mem a zero xs m = elim m [ ]
  take-Mem a (suc n) [] m = elim m [ ]
  take-Mem a (suc n) (x ∷ xs) (Memᴰ.head e) = Memᴰ.head e
  take-Mem a (suc n) (x ∷ xs) (Memᴰ.tail m) = Memᴰ.tail (take-Mem a n xs m)

sort_into-Mem :
    (r x : TransactionRecord) (xs : List TransactionRecord)
    → Memᴰ r (sort_into x xs)
    → Memᴰ r (x ∷ xs)
unfolding sort_into
sort_into-Mem r x [] m = m
sort_into-Mem r x (y ∷ ys) m = elim (Bool-cases (row_before x y)) [
  | inl b ↦ rw b at m
  | inr b ↦ elim (Mem-cases {x = y} {xs = sort_into x ys} (rw b at m)) [
    | inl e ↦ Memᴰ.tail (Memᴰ.head e)
    | inr t ↦ elim (Mem-cases (sort_into-Mem r x ys t)) [
      | inl e ↦ Memᴰ.head e
      | inr u ↦ Memᴰ.tail (Memᴰ.tail u)
    ]
  ]
]

sort_rows-Mem :
    (r : TransactionRecord) (xs : List TransactionRecord) → Memᴰ r (sort_rows xs) → Memᴰ r xs
unfolding sort_rows
sort_rows-Mem r [] m = m
sort_rows-Mem r (x ∷ xs) m = elim (Mem-cases (sort_into-Mem r x (sort_rows xs) m)) [
  | inl e ↦ Memᴰ.head e
  | inr t ↦ Memᴰ.tail (sort_rows-Mem r xs t)
]

first_page-Mem :
    (r : TransactionRecord) (limit : ℕ) (xs : List TransactionRecord)
    → Memᴰ r (first_page limit xs)
    → Memᴰ r xs
unfolding first_page
first_page-Mem r limit xs m = elim (Bool-cases (ltb 0 limit && ltb limit (length xs))) [
  | inl b ↦ take-Mem r limit xs (rw b at m)
  | inr b ↦ rw b at m
]

-- Where a row of a selection is stored.
pub record Source (keep : TransactionRecord → Bool) (m : GoMap TransactionRecord)
    (ids : List String) (r : TransactionRecord) : Type 0 where
  pub key : String
  pub listed : Memᴰ key ids
  pub stored : lookup key m ≡ some r
  pub kept : keep r ≡ true

more :
    {keep : TransactionRecord → Bool} {m : GoMap TransactionRecord} {ids : List String}
    {r : TransactionRecord} (id : String)
    → Source keep m ids r
    → Source keep m (id ∷ ids) r
more id s = record { key = s.key; listed = Memᴰ.tail s.listed; stored = s.stored; kept = s.kept }

module _ (keep : TransactionRecord → Bool) (m : GoMap TransactionRecord) (id : String)
    (ids : List String) where
  select-none : lookup id m ≡ none → select keep (id ∷ ids) m ≡ select keep ids m
  unfolding select
  select-none e = ground (arith, e)

  select_kept :
      (q : TransactionRecord)
      → lookup id m ≡ some q
      → keep q ≡ true
      → select keep (id ∷ ids) m ≡ q ∷ select keep ids m
  unfolding select
  select_kept q e k = ground (arith, e, k, clone_lem q)

  select_skipped :
      (q : TransactionRecord)
      → lookup id m ≡ some q
      → keep q ≡ false
      → select keep (id ∷ ids) m ≡ select keep ids m
  unfolding select
  select_skipped q e k = ground (arith, e, k)

select-Source :
    (keep : TransactionRecord → Bool) (m : GoMap TransactionRecord) (ids : List String)
    (r : TransactionRecord)
    → Memᴰ r (select keep ids m)
    → Source keep m ids r
unfolding select
select-Source keep m [] r h = elim h [ ]
select-Source keep m (id ∷ ids) r h = elim (Option-cases (lookup id m)) [
  | inl e ↦ more id (select-Source keep m ids r (rw (select-none keep m id ids e) at h))
  | inr (q, e) ↦ elim (Bool-cases (keep q)) [
    | inl k ↦ elim (Mem-cases (rw (select_kept keep m id ids q e k) at h)) [
      | inl same ↦ record {
        key = id;
        listed = Memᴰ.head refl;
        stored = rw same e;
        kept = rw same k;
      }
      | inr t ↦ more id (select-Source keep m ids r t)
    ]
    | inr k ↦ more id (select-Source keep m ids r (rw (select_skipped keep m id ids q e k) at h))
  ]
]

-- A row of a page is stored, in the status, beyond the cursor.
pub page-Source :
    (status : TxnStatus) (limit t : ℕ) (id : String) (s : MemoryStore) (r : TransactionRecord)
    → Memᴰ r (list_by_status_paged status limit t id s)
    → Source (waits status t id) s.records (keys s.records) r
unfolding list_by_status_paged
page-Source status limit t id s r m =
    select-Source (waits status t id) s.records (keys s.records) r (
      sort_rows-Mem r (select (waits status t id) (keys s.records) s.records) (
        first_page-Mem r limit (sort_rows (select (waits status t id) (keys s.records) s.records))
          m))

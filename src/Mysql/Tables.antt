-- ===== src/Mysql/Tables.antt =====
-- The parts of the SQL statements of internal/store/mysql: the rows of a table that a WHERE selects.
use circle_wallet_service.Prelude.{
  ℕ, ◌+◌, ◌≡◌, refl, Bool, Option, none, some, List, [], ◌∷◌, Memᴰ, String, ◌==◌, eq_iff, arith,
  if◌then◌else◌, Option-cases, Bool-cases, inl, inr,
}
use circle_wallet_service.GoMap.{GoMap, lookup, insert, lookup-insert}
use circle_wallet_service.Mysql.{Row}

-- SELECT ... WHERE id = ?
unfoldable pub row_with : String → List Row → Option Row
row_with id [] = none
row_with id (row ∷ rows) = if row.id == id then some row else row_with id rows

-- SELECT ... WHERE p
unfoldable pub rows_that : (Row → Bool) → List Row → List Row
rows_that p [] = []
rows_that p (row ∷ rows) = let rest = rows_that p rows in if p row then row ∷ rest else rest

-- UPDATE ... SET f WHERE p
unfoldable pub update_where : (Row → Bool) → (Row → Row) → List Row → List Row
update_where p f [] = []
update_where p f (row ∷ rows) = (if p row then f row else row) ∷ update_where p f rows

-- SELECT COUNT(*) ... WHERE p
unfoldable pub count_where : (Row → Bool) → List Row → ℕ
count_where p [] = 0
count_where p (row ∷ rows) = let rest = count_where p rows in if p row then rest + 1 else rest

-- UPDATE account_sequences SET next_sequence = f WHERE sender_address = ?
unfoldable pub update_counter : String → (ℕ → ℕ) → GoMap ℕ → GoMap ℕ
update_counter addr f m = elim (lookup addr m) as (λ _. GoMap ℕ) [
  | none ↦ m
  | some n ↦ insert addr (f n) m
]

-- The primary key.
abbrev pub HasUniqueIds : List Row → Type 0
HasUniqueIds [] = Unit
HasUniqueIds (row ∷ rows) = (row_with row.id rows ≡ none) × HasUniqueIds rows

-- A column that a statement sets is not the primary key.
abbrev pub KeepsId : (Row → Row) → Type 0
KeepsId f = (row : Row) → (f row).id ≡ row.id

-- UPDATE on the one row that was read.
abbrev pub update_if : (Row → Bool) → (Row → Row) → Option Row → Option Row
update_if p f none = none
update_if p f (some row) = if p row then some (f row) else some row

pub row_with-update_where :
    (p : Row → Bool) (f : Row → Row) (rows : List Row) (id : String)
    → KeepsId f
    → row_with id (update_where p f rows) ≡ update_if p f (row_with id rows)
unfolding row_with update_where
row_with-update_where p f [] id k = refl
row_with-update_where p f (row ∷ rows) id k = elim (Bool-cases (p row)) [
  | inl e ↦ ground (arith, k row, row_with-update_where p f rows id k)
  | inr e ↦ ground (arith, row_with-update_where p f rows id k)
]

pub update_where-HasUniqueIds :
    (p : Row → Bool) (f : Row → Row) (rows : List Row)
    → KeepsId f
    → HasUniqueIds rows
    → HasUniqueIds (update_where p f rows)
unfolding row_with update_where
update_where-HasUniqueIds p f [] k u = tt
update_where-HasUniqueIds p f (row ∷ rows) k u = (
  ground (arith, k row, row_with-update_where p f rows row.id k),
  update_where-HasUniqueIds p f rows k u.1,
)

pub row_with-id :
    (id : String) (rows : List Row) {row : Row} → row_with id rows ≡ some row → row.id ≡ id
unfolding row_with
row_with-id id [] h = absurd (ground arith)
row_with-id id (r ∷ rows) {row} h = ground (arith, eq_iff r.id id, row_with-id id rows {row = row})

pub row_with-Mem :
    (id : String) (rows : List Row) {row : Row} → row_with id rows ≡ some row → Memᴰ row rows
unfolding row_with
row_with-Mem id [] h = absurd (ground arith)
row_with-Mem id (r ∷ rows) {row} h = elim (Bool-cases (r.id == id)) [
  | inl e ↦ Memᴰ.head (ground arith)
  | inr e ↦ Memᴰ.tail (row_with-Mem id rows (rw e at h))
]

pub Mem-row_with :
    (rows : List Row) {row : Row}
    → HasUniqueIds rows
    → Memᴰ row rows
    → row_with row.id rows ≡ some row
unfolding row_with
Mem-row_with [] u m = elim m [ ]
Mem-row_with (r ∷ rows) {row} u (Memᴰ.head e) = rw e (ground (arith, eq_iff r.id r.id))
Mem-row_with (r ∷ rows) {row} u (Memᴰ.tail m) =
    ground (arith, eq_iff r.id row.id, Mem-row_with rows u.1 m)

pub lookup-update_counter :
    (addr other : String) (f : ℕ → ℕ) (m : GoMap ℕ)
    → lookup other (update_counter addr f m) ≡ (
        if addr == other
        then elim (lookup addr m) as (λ _. Option ℕ) [ none ↦ none | some n ↦ some (f n) ]
        else lookup other m)
unfolding update_counter
lookup-update_counter addr other f m = elim (Option-cases (lookup addr m)) [
  | inl e ↦ ground (arith, eq_iff addr other)
  | inr (n, e) ↦ ground (arith, lookup-insert addr other (f n) m)
]

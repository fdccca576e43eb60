-- ===== src/Mysql/Crud/Ids.antt =====
-- The primary key of `transactions` through the methods of internal/store/mysql/mysql.go.
use circle_wallet_service.Prelude.{
  ℕ, ◌-◌, ◌≡◌, refl, Bool, true, false, ◌&&◌, none, List, [], ◌∷◌, String, ◌==◌, arith, ltb,
  Bool-cases, Option-cases, Result-cases, inl, inr, Result, ok, sym,
}
use circle_wallet_service.Store.{TransactionRecord, TxnStatus, status_eq, StoreError}
use circle_wallet_service.Mysql.{Engine, Row, Database}
use circle_wallet_service.Mysql.Rows.{row_of}
use circle_wallet_service.Mysql.Tables.{
  row_with, update_where, HasUniqueIds, KeepsId, update_where-HasUniqueIds,
}
use circle_wallet_service.Mysql.Crud.{
  insert_row, create, key_held, same_row, set_columns, write_row, changed, some_changed, update,
  update_if_status, delete_up_to, update_up_to, purge_terminal_older_than,
  clear_idempotency_older_than,
}

insert_row-HasUniqueIds :
    (engine : Engine) (db t : Database) (row : Row)
    → HasUniqueIds db.transactions
    → insert_row engine db row ≡ ok t
    → HasUniqueIds t.transactions
unfolding insert_row
insert_row-HasUniqueIds engine db t row u h =
    elim (Option-cases (row_with row.id db.transactions)) [
      | inr (r, e) ↦ absurd (ground (arith, h, e))
      | inl e ↦
          let is_t : row ∷ db.transactions ≡ t.transactions = ground (arith, h, e) in
          let new : HasUniqueIds (row ∷ db.transactions) = (e, u) in rw (sym is_t) new
    ]

pub create-HasUniqueIds :
    (engine : Engine) (rec : TransactionRecord) (db t : Database)
    → HasUniqueIds db.transactions
    → create engine rec db ≡ ok t
    → HasUniqueIds t.transactions
unfolding create
create-HasUniqueIds engine rec db t u h = elim (Result-cases (row_of engine rec)) [
  | inr (e, f) ↦ absurd (ground (arith, h, f))
  | inl (row, f) ↦ insert_row-HasUniqueIds engine db t row u (rw f at h)
]

write_row-HasUniqueIds :
    (engine : Engine) (old row : Row) (db t : Database) (b : Bool)
    → HasUniqueIds db.transactions
    → write_row engine old db row ≡ ok (b, t)
    → HasUniqueIds t.transactions
unfolding write_row
write_row-HasUniqueIds engine old row db t b u h =
    elim (Bool-cases (key_held engine row.idempotency_key old.id db.transactions)) [
      | inl e ↦ absurd (ground (arith, h, e))
      | inr e ↦ elim (Bool-cases (same_row (set_columns row old) old)) [
        | inl f ↦
            let is_t : db.transactions ≡ t.transactions = ground (arith, h, e, f) in rw is_t at u
        | inr f ↦
            let is_t : update_where (λ r. r.id == old.id) (set_columns row) db.transactions
                ≡ t.transactions =
              ground (arith, h, e, f) in
            rw is_t at (
              update_where-HasUniqueIds (λ r. r.id == old.id) (set_columns row) db.transactions
                (λ _. refl) u)
      ]
    ]

-- The answer of an UPDATE that matched no row.
abbrev unchanged : Database → Result StoreError (Bool × Database)
unchanged db = ok (false, db)

at_end : (db t : Database) (b : Bool) → unchanged db ≡ ok (b, t) → t ≡ db
at_end db t b h = ground (arith, h)

changed-HasUniqueIds :
    (engine : Engine) (rec : TransactionRecord) (p : Row → Bool) (db t : Database) (b : Bool)
    → HasUniqueIds db.transactions
    → changed engine rec p db ≡ ok (b, t)
    → HasUniqueIds t.transactions
unfolding changed
changed-HasUniqueIds engine rec p db t b u h =
    elim (Option-cases (row_with rec.id db.transactions)) [
      | inl e ↦ rw (at_end db t b (rw (changed, e) at h)) u
      | inr (old, e) ↦ elim (Bool-cases (p old)) [
        | inr f ↦ rw (at_end db t b (rw (changed, e, f) at h)) u
        | inl f ↦ elim (Result-cases (row_of engine rec)) [
          | inr (why, g) ↦ absurd (ground (arith, h, e, f, g))
          | inl (row, g) ↦
              write_row-HasUniqueIds engine old row db t b u (rw (changed, e, f, g) at h)
        ]
      ]
    ]

pub update_if_status-HasUniqueIds :
    (engine : Engine) (rec : TransactionRecord) (expected : TxnStatus) (db t : Database) (b : Bool)
    → HasUniqueIds db.transactions
    → update_if_status engine rec expected db ≡ ok (b, t)
    → HasUniqueIds t.transactions
unfolding update_if_status
update_if_status-HasUniqueIds engine rec expected db t b u h =
    changed-HasUniqueIds engine rec (λ old. status_eq old.status expected) db t b u h

some_changed-same : (b : Bool) (db t : Database) → some_changed (b, db) ≡ ok t → db ≡ t
unfolding some_changed
some_changed-same true db t h = ground (arith, h)
some_changed-same false db t h = absurd (ground (arith, h))

pub update-HasUniqueIds :
    (engine : Engine) (rec : TransactionRecord) (db t : Database)
    → HasUniqueIds db.transactions
    → update engine rec db ≡ ok t
    → HasUniqueIds t.transactions
unfolding update
update-HasUniqueIds engine rec db t u h = elim (Result-cases (changed engine rec (λ _. true) db)) [
  | inr (why, e) ↦ absurd (ground (arith, h, e))
  | inl ((b, db'), e) ↦
      rw (sym (some_changed-same b db' t (rw e at h)))
        (changed-HasUniqueIds engine rec (λ _. true) db db' b u e)
]

without_row :
    (p : Row → Bool) (n : ℕ) (rows : List Row) (id : String)
    → row_with id rows ≡ none
    → row_with id (delete_up_to p n rows).0 ≡ none
unfolding delete_up_to row_with
without_row p n [] id h = h
without_row p n (row ∷ rows) id h =
    ground (arith, h, without_row p n rows id, without_row p (n - 1) rows id)

delete_up_to-HasUniqueIds :
    (p : Row → Bool) (n : ℕ) (rows : List Row)
    → HasUniqueIds rows
    → HasUniqueIds (delete_up_to p n rows).0
unfolding delete_up_to
delete_up_to-HasUniqueIds p n [] u = u
delete_up_to-HasUniqueIds p n (row ∷ rows) u = elim (Bool-cases (p row && ltb 0 n)) [
  | inl e ↦ rw e (delete_up_to-HasUniqueIds p (n - 1) rows u.1)
  | inr e ↦ rw e (without_row p n rows row.id u.0, delete_up_to-HasUniqueIds p n rows u.1)
]

same_ids :
    (p : Row → Bool) (f : Row → Row) (n : ℕ) (rows : List Row) (id : String)
    → KeepsId f
    → row_with id rows ≡ none
    → row_with id (update_up_to p f n rows).0 ≡ none
unfolding update_up_to row_with
same_ids p f n [] id k h = h
same_ids p f n (row ∷ rows) id k h =
    ground (arith, h, k row, same_ids p f n rows id k, same_ids p f (n - 1) rows id k)

update_up_to-HasUniqueIds :
    (p : Row → Bool) (f : Row → Row) (n : ℕ) (rows : List Row)
    → KeepsId f
    → HasUniqueIds rows
    → HasUniqueIds (update_up_to p f n rows).0
unfolding update_up_to
update_up_to-HasUniqueIds p f n [] k u = u
update_up_to-HasUniqueIds p f n (row ∷ rows) k u = elim (Bool-cases (p row && ltb 0 n)) [
  | inl e ↦ rw e (
    ground (arith, k row, same_ids p f (n - 1) rows row.id k u.0),
    update_up_to-HasUniqueIds p f (n - 1) rows k u.1,
  )
  | inr e ↦ rw e (same_ids p f n rows row.id k u.0, update_up_to-HasUniqueIds p f n rows k u.1)
]

pub purge-HasUniqueIds :
    (cutoff limit : ℕ) (db : Database)
    → HasUniqueIds db.transactions
    → HasUniqueIds (purge_terminal_older_than cutoff limit db).0.transactions
unfolding purge_terminal_older_than
purge-HasUniqueIds cutoff limit db u = delete_up_to-HasUniqueIds _ _ db.transactions u

pub clear-HasUniqueIds :
    (now cutoff limit : ℕ) (db : Database)
    → HasUniqueIds db.transactions
    → HasUniqueIds (clear_idempotency_older_than now cutoff limit db).0.transactions
unfolding clear_idempotency_older_than
clear-HasUniqueIds now cutoff limit db u =
    update_up_to-HasUniqueIds _ _ _ db.transactions (λ _. refl) u

-- ===== src/Mysql/Crud.antt =====
-- internal/store/mysql/mysql.go: the methods on one record, the listings, and the archive's batches.
pub mod Writes
pub mod Ids
use circle_wallet_service.Prelude.{
  ℕ, ◌+◌, ◌-◌, Bool, true, false, not, ◌&&◌, ◌||◌, Option, none, some, List, [], ◌∷◌, String, ◌==◌,
  str_lt, ltb, leb, nat_eq, take, length, if◌then◌else◌, Result, ok, err, ◌>>=◌, is_set, map,
}
use circle_wallet_service.Store.{
  TxnStatus, status_eq, TransactionRecord, is_terminal, StoreError, database, not_found,
  idempotency_conflict,
}
use circle_wallet_service.Webhook.{DeliveryRecord}
use circle_wallet_service.Mysql.{Engine, Row, Database}
use circle_wallet_service.Mysql.Rows.{row_of, scan_record}
use circle_wallet_service.Mysql.Tables.{row_with, rows_that, update_where}

-- WHERE idempotency_key = ?, which no NULL satisfies
pub has_key : Engine → String → Row → Bool
has_key engine key row = elim row.idempotency_key [ none ↦ false | some k ↦ engine.same_text k key ]

first_row : List Row → Option Row
first_row [] = none
first_row (row ∷ rows) = some row

-- Whether uk_idempotency refuses a key for the row of an id.
key_held : Engine → Option String → String → List Row → Bool
unfolding has_key first_row
key_held engine none id rows = false
key_held engine (some key) id rows =
    is_set (first_row (rows_that (λ r. has_key engine key r && not (r.id == id)) rows))

-- The primary key is checked before the unique key.
insert_row : Engine → Database → Row → Result StoreError Database
unfolding key_held
insert_row engine db row =
    if is_set (row_with row.id db.transactions)
    then err database
    else if key_held engine row.idempotency_key row.id db.transactions
    then err idempotency_conflict
    else ok (record db { transactions = row ∷ db.transactions })

unfoldable pub create : Engine → TransactionRecord → Database → Result StoreError Database
unfolding insert_row
create engine rec db = row_of engine rec >>= insert_row engine db

abbrev same_option {ℓ} : {A : Type ℓ} → (A → A → Bool) → Option A → Option A → Bool
same_option eq none none = true
same_option eq (some a) (some b) = eq a b
same_option eq _ _ = false

abbrev same_string : String → String → Bool
same_string a b = a == b

-- Whether an UPDATE leaves a row as it was, so that it does not count in RowsAffected.
same_row : Row → Row → Bool
same_row a b =
    a.sender_address == b.sender_address
    && (a.wallet_id == b.wallet_id
        && (same_option same_string a.fee_payer_wallet_id b.fee_payer_wallet_id
            && (same_option same_string a.fee_payer_address b.fee_payer_address
                && (status_eq a.status b.status
                    && (same_option nat_eq a.sequence_number b.sequence_number
                        && (a.function_id == b.function_id
                            && (a.payload_json == b.payload_json
                                && (same_option nat_eq a.max_gas_amount b.max_gas_amount
                                    && (same_option same_string a.idempotency_key b.idempotency_key
                                        && (same_option same_string a.txn_hash b.txn_hash
                                            && (same_option same_string a.error_message
                                                  b.error_message
                                                && (same_option same_string a.webhook_url
                                                      b.webhook_url
                                                    && (nat_eq a.attempt_count b.attempt_count
                                                        && (same_option same_string a.last_error
                                                            b.last_error
                                                            && (same_option same_string
                                                            a.failure_kind b.failure_kind
                                                            && (same_option same_string a.vm_status
                                                            b.vm_status
                                                            && (nat_eq a.updated_at b.updated_at
                                                            && nat_eq a.expires_at
                                                            b.expires_at)))))))))))))))))

-- The columns of `SET`: all but the id and the time of creation.
abbrev set_columns : Row → Row → Row
set_columns row old = record row { id = old.id; created_at = old.created_at }

-- The UPDATE of a row that matches, with the number of rows that it changed.
write_row : Engine → Row → Database → Row → Result StoreError (Bool × Database)
unfolding key_held same_row
write_row engine old db row =
    if key_held engine row.idempotency_key old.id db.transactions
    then err database
    else if same_row (set_columns row old) old
    then ok (false, db)
    else ok (
      true,
      record db {
        transactions = update_where (λ r. r.id == old.id) (set_columns row) db.transactions;
      },
    )

-- UPDATE transactions SET ... WHERE p, on the row of the record
changed : Engine → TransactionRecord → (Row → Bool) → Database → Result StoreError (Bool × Database)
unfolding write_row
changed engine rec p db =
    elim (row_with rec.id db.transactions) as (λ _. Result StoreError (Bool × Database)) [
      | none ↦ ok (false, db)
      | some old ↦ if p old then row_of engine rec >>= write_row engine old db else ok (false, db)
    ]

some_changed : Bool × Database → Result StoreError Database
some_changed (true, db) = ok db
some_changed (false, db) = err not_found

unfoldable pub update : Engine → TransactionRecord → Database → Result StoreError Database
unfolding changed some_changed
update engine rec db = changed engine rec (λ _. true) db >>= some_changed

unfoldable pub update_if_status :
    Engine → TransactionRecord → TxnStatus → Database → Result StoreError (Bool × Database)
unfolding changed
update_if_status engine rec expected db =
    changed engine rec (λ old. status_eq old.status expected) db

scanned : Option Row → Option TransactionRecord
scanned none = none
scanned (some row) = some (scan_record row)

unfoldable pub get : String → Database → Option TransactionRecord
unfolding scanned
get id db = scanned (row_with id db.transactions)

unfoldable pub get_by_idempotency_key : Engine → String → Database → Option TransactionRecord
unfolding scanned first_row has_key
get_by_idempotency_key engine key db =
    if key == "" then none else scanned (first_row (rows_that (has_key engine key) db.transactions))

unfoldable pub list_by_status : TxnStatus → Database → List TransactionRecord
list_by_status status db =
    map scan_record (rows_that (λ r. status_eq r.status status) db.transactions)

-- ORDER BY updated_at ASC, id ASC
page_before : Row → Row → Bool
page_before a b =
    ltb a.updated_at b.updated_at || (nat_eq a.updated_at b.updated_at && str_lt a.id b.id)

page_into : Row → List Row → List Row
unfolding page_before
page_into row [] = row ∷ []
page_into row (x ∷ xs) = if page_before row x then row ∷ x ∷ xs else x ∷ page_into row xs

page_order : List Row → List Row
unfolding page_into
page_order [] = []
page_order (row ∷ rows) = page_into row (page_order rows)

-- if limit <= 0 { limit = default }
abbrev limit_or : ℕ → ℕ → ℕ
limit_or default limit = if nat_eq limit 0 then default else limit

after_cursor_row : ℕ → String → Row → Bool
after_cursor_row t id row = ltb t row.updated_at || (nat_eq row.updated_at t && str_lt id row.id)

unfoldable pub list_by_status_paged : TxnStatus → ℕ → ℕ → String → Database → List TransactionRecord
unfolding page_order after_cursor_row
list_by_status_paged status limit t id db = map scan_record (
    take (limit_or 500 limit) (
      page_order
        (rows_that (λ r. status_eq r.status status && after_cursor_row t id r) db.transactions)))

-- DELETE ... WHERE p LIMIT n: the rows that are left, and the ids of those that are not
delete_up_to : (Row → Bool) → ℕ → List Row → List Row × List String
delete_up_to p n [] = ([], [])
delete_up_to p n (row ∷ rows) =
    let gone = delete_up_to p (n - 1) rows in
    let kept = delete_up_to p n rows in
    if p row && ltb 0 n then (gone.0, row.id ∷ gone.1) else (row ∷ kept.0, kept.1)

without : String → List DeliveryRecord → List DeliveryRecord
without id [] = []
without id (d ∷ ds) = let rest = without id ds in if d.transaction_id == id then rest else d ∷ rest

-- ON DELETE CASCADE
cascade : List String → List DeliveryRecord → List DeliveryRecord
unfolding without
cascade [] ds = ds
cascade (id ∷ ids) ds = without id (cascade ids ds)

is_aged_row : ℕ → Row → Bool
is_aged_row cutoff row = is_terminal row.status && ltb row.updated_at cutoff

unfoldable pub purge_terminal_older_than : ℕ → ℕ → Database → Database × ℕ
unfolding delete_up_to cascade is_aged_row
purge_terminal_older_than cutoff limit db =
    let (left, ids) = delete_up_to (is_aged_row cutoff) (limit_or 1000 limit) db.transactions in
    (
      record db { transactions = left; webhook_deliveries = cascade ids db.webhook_deliveries },
      length ids,
    )

-- UPDATE ... SET f WHERE p LIMIT n, with the number of rows changed
update_up_to : (Row → Bool) → (Row → Row) → ℕ → List Row → List Row × ℕ
update_up_to p f n [] = ([], 0)
update_up_to p f n (row ∷ rows) =
    let done = update_up_to p f (n - 1) rows in
    let kept = update_up_to p f n rows in
    if p row && ltb 0 n then (f row ∷ done.0, done.1 + 1) else (row ∷ kept.0, kept.1)

-- The column updated_at is ON UPDATE CURRENT_TIMESTAMP: a statement that does not set it writes the
-- time of the server to each row that it changes.
unfoldable pub clear_idempotency_older_than : ℕ → ℕ → ℕ → Database → Database × ℕ
unfolding update_up_to is_aged_row
clear_idempotency_older_than current_timestamp cutoff limit db =
    let (rows, n) =
      update_up_to (λ r. is_aged_row cutoff r && is_set r.idempotency_key)
        (λ r. record r { idempotency_key = none; updated_at = current_timestamp })
        (limit_or 1000 limit) db.transactions in
    (record db { transactions = rows }, n)

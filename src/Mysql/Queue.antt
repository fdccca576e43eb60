-- ===== src/Mysql/Queue.antt =====
-- internal/store/mysql/queue.go: claims and sequence numbers over the tables.
pub mod Claims
pub mod Agreement
pub mod Requeues
pub mod Recoveries
use circle_wallet_service.Prelude.{
  ℕ, ◌+◌, ◌*◌, ◌/◌, Bool, true, false, not, ◌&&◌, ◌||◌, Option, none, some, List, [], ◌∷◌, String,
  ◌==◌, str_lt, ltb, leb, nat_eq, u64, if◌then◌else◌, Result, ok, err, ◌>>=◌,
}
use circle_wallet_service.GoMap.{GoMap, lookup, insert, keys}
use circle_wallet_service.Store.{
  TransactionRecord, status_eq, queued, processing, submitted, StoreError, database,
}
use circle_wallet_service.MemoryQueue.{count_at}
use circle_wallet_service.Mysql.{Engine, Row, Database}
use circle_wallet_service.Mysql.Rows.{fits, scan_record}
use circle_wallet_service.Mysql.Tables.{
  row_with, rows_that, update_where, count_where, update_counter,
}

is_waiting : String → Row → Bool
is_waiting addr row = status_eq row.status queued && row.sender_address == addr

-- ORDER BY created_at ASC, id ASC
comes_before : Row → Row → Bool
comes_before a b =
    ltb a.created_at b.created_at || (nat_eq a.created_at b.created_at && str_lt a.id b.id)

first_of : Row → Option Row → Option Row
unfolding comes_before
first_of row none = some row
first_of row (some best) = if comes_before row best then some row else some best

-- SELECT ... WHERE p ORDER BY created_at ASC, id ASC LIMIT 1
unfoldable pub oldest_where : (Row → Bool) → List Row → Option Row
unfolding first_of
oldest_where p [] = none
oldest_where p (row ∷ rows) =
    let rest = oldest_where p rows in if p row then first_of row rest else rest

-- GROUP BY sender_address, with MIN(created_at)
group_oldest : List Row → GoMap ℕ
group_oldest [] = []
group_oldest (row ∷ rows) =
    let rest = group_oldest rows in
    elim (lookup row.sender_address rest) as (λ _. GoMap ℕ) [
      | none ↦ insert row.sender_address row.created_at rest
      | some t ↦ insert row.sender_address (if ltb row.created_at t then row.created_at else t) rest
    ]

-- ORDER BY MIN(created_at) ASC
group_into : String × ℕ → GoMap ℕ → GoMap ℕ
group_into g [] = g ∷ []
group_into g (h ∷ hs) = if leb g.1 h.1 then g ∷ h ∷ hs else h ∷ group_into g hs

group_order : GoMap ℕ → GoMap ℕ
unfolding group_into
group_order [] = []
group_order (g ∷ gs) = group_into g (group_order gs)

unfoldable pub list_queued_senders : Database → List String
unfolding group_oldest group_order
list_queued_senders db =
    keys (group_order (group_oldest (rows_that (λ r. status_eq r.status queued) db.transactions)))

abbrev pub set_claimed : ℕ → ℕ → Row → Row
set_claimed now seq row = record row {
  status = processing;
  sequence_number = some seq;
  updated_at = now;
}

-- INSERT INTO account_sequences ... VALUES (?, 0), where the sender has no row
with_counter : String → GoMap ℕ → GoMap ℕ
with_counter addr m = elim (lookup addr m) as (λ _. GoMap ℕ) [ none ↦ insert addr 0 m | some _ ↦ m ]

claimed_tables : Engine → ℕ → String → Row → Database → Database
unfolding with_counter
claimed_tables engine now addr row db = record db {
  account_sequences = update_counter addr (λ n. n + 1) (with_counter addr db.account_sequences);
  transactions =
      update_where (λ r. r.id == row.id)
        (set_claimed (engine.timestamp now) (count_at db.account_sequences addr)) db.transactions;
}

-- The record that `Get` reads after the commit.
loaded : String → Database → Result StoreError (Option TransactionRecord) × Database
loaded id db = elim (row_with id db.transactions) [
  | none ↦ (err database, db)
  | some row ↦ (ok (some (scan_record row)), db)
]

-- A counter that does not fit in an int64 cannot be scanned.
claim_row :
    Engine
    → ℕ
    → String
    → Option Row
    → Database
    → Result StoreError (Option TransactionRecord) × Database
unfolding claimed_tables loaded fits
claim_row engine now addr none db = (ok none, db)
claim_row engine now addr (some row) db =
    if fits (some (count_at db.account_sequences addr))
    then loaded row.id (claimed_tables engine now addr row db)
    else (err database, db)

unfoldable pub claim :
    Engine → ℕ → String → Database → Result StoreError (Option TransactionRecord) × Database
unfolding claim_row is_waiting
claim engine now addr db =
    claim_row engine now addr (oldest_where (is_waiting addr) db.transactions) db

-- GREATEST(a, b)
abbrev pub greatest : ℕ → ℕ → ℕ
greatest a b = if leb a b then b else a

unfoldable pub reconcile : String → ℕ → Database → Database
reconcile addr chain_seq db = record db {
  account_sequences = update_counter addr (λ n. greatest n chain_seq) db.account_sequences;
}

is_broadcast : String → ℕ → Row → Bool
is_broadcast addr chain_seq row =
    row.sender_address == addr
    && (status_eq row.status submitted
        && elim row.sequence_number [ none ↦ false | some n ↦ leb chain_seq n ])

unfoldable pub force_reset : String → ℕ → Database → Database
unfolding is_broadcast
force_reset addr chain_seq db = record db {
  account_sequences =
      update_counter addr
        (λ _. u64 (chain_seq + count_where (is_broadcast addr chain_seq) db.transactions))
        db.account_sequences;
}

-- UPDATE account_sequences SET next_sequence = GREATEST(next_sequence - ?, 0) WHERE sender_address = ?
unfoldable pub subtract : Engine → String → ℕ → GoMap ℕ → Result StoreError (GoMap ℕ)
subtract engine addr cnt m = elim (lookup addr m) as (λ _. Result StoreError (GoMap ℕ)) [
  | none ↦ ok m
  | some n ↦ elim (engine.sub_unsigned n cnt) as (λ _. Result StoreError (GoMap ℕ)) [
    | none ↦ err database
    | some rest ↦ ok (insert addr (greatest rest 0) m)
  ]
]

abbrev pub set_queued : ℕ → Row → Row
set_queued now row = record row { status = queued; sequence_number = none; updated_at = now }

-- A statement that runs after an UPDATE in its transaction: if it fails, nothing is kept.
unfoldable pub commit :
    List Row → Database → Result StoreError (GoMap ℕ) → Result StoreError (Unit {0}) × Database
commit rows db (err e) = (err e, db)
commit rows db (ok counters) =
    (ok tt, record db { transactions = rows; account_sequences = counters })

unfoldable pub is_shifted_row : String → ℕ → Row → Bool
is_shifted_row addr failed_seq row =
    row.sender_address == addr
    && (elim row.sequence_number [ none ↦ false | some n ↦ ltb failed_seq n ]
        && (status_eq row.status queued || status_eq row.status processing))

unfoldable pub shift : Engine → ℕ → String → ℕ → Database → Result StoreError (Unit {0}) × Database
unfolding commit is_shifted_row
shift engine now addr failed_seq db =
    let n = count_where (is_shifted_row addr failed_seq) db.transactions in
    commit
      (update_where (is_shifted_row addr failed_seq) (set_queued (engine.timestamp now))
        db.transactions)
      db (if ltb 0 n then subtract engine addr n db.account_sequences else ok db.account_sequences)

unfoldable pub release : Engine → String → Database → Result StoreError (Unit {0}) × Database
unfolding commit
release engine addr db = commit db.transactions db (subtract engine addr 1 db.account_sequences)

-- max(int64(olderThan/time.Second), 1), in nanoseconds again
abbrev pub whole_seconds : ℕ → ℕ
whole_seconds older_than = greatest (older_than / 1000000000) 1 * 1000000000

unfoldable pub is_stale_row : ℕ → ℕ → Row → Bool
is_stale_row now age row =
    status_eq row.status processing
    && (elim row.txn_hash [ none ↦ true | some hash ↦ hash == "" ]
        && ltb (row.updated_at + age) now)

-- senderCounts[addr]++, where the sequence number is set
sender_counts : List Row → GoMap ℕ → GoMap ℕ
sender_counts [] counts = counts
sender_counts (row ∷ rows) counts = sender_counts rows (elim row.sequence_number as (λ _. GoMap ℕ) [
  | none ↦ counts
  | some _ ↦ insert row.sender_address (count_at counts row.sender_address + 1) counts
])

-- for addr, cnt := range senderCounts
subtract_all : Engine → GoMap ℕ → GoMap ℕ → Result StoreError (GoMap ℕ)
subtract_all engine [] m = ok m
subtract_all engine ((addr, cnt) ∷ counts) m =
    subtract engine addr cnt m >>= subtract_all engine counts

recovered : ℕ → Result StoreError (Unit {0}) × Database → Result StoreError ℕ × Database
recovered n (ok _, db) = (ok n, db)
recovered n (err e, db) = (err e, db)

unfoldable pub recover_stale : Engine → ℕ → ℕ → Database → Result StoreError ℕ × Database
unfolding commit is_stale_row sender_counts subtract_all recovered
recover_stale engine now older_than db =
    let stale = is_stale_row now (whole_seconds older_than) in
    recovered (count_where stale db.transactions) (
      commit (update_where stale (set_queued (engine.timestamp now)) db.transactions) db (
        subtract_all engine (sender_counts (rows_that stale db.transactions) [])
          db.account_sequences))

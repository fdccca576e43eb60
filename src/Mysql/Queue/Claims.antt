-- ===== src/Mysql/Queue/Claims.antt =====
-- `ClaimNextQueuedForSender` of internal/store/mysql/queue.go against the contract of a claim.
use circle_wallet_service.Prelude.{
  ℕ, ◌+◌, ◌<◌, ◌≡◌, refl, Bool, true, false, Option, none, some, List, [], ◌∷◌, Memᴰ, arith, String,
  ◌==◌, eq_iff, if◌then◌else◌, Option-cases, Bool-cases, inl, inr, ok, lt→ltb, ap, eq_refl,
}
use mathlib.Core.Option.{map}
use circle_wallet_service.GoMap.{GoMap, lookup, insert, lookup-insert}
use circle_wallet_service.Store.{TransactionRecord}
use circle_wallet_service.Memory.{MemoryStore}
use circle_wallet_service.MemoryQueue.{
  count_at, is_queued_for, older, claimed_row, claim_next_queued_for_sender,
}
use circle_wallet_service.MemoryQueue.Claims.{older_irrefl, older_trans}
use circle_wallet_service.Mysql.{Engine, Row, Database}
use circle_wallet_service.Mysql.Rows.{scan_record, fits}
use circle_wallet_service.Mysql.Tables.{
  row_with, update_where, update_counter, HasUniqueIds, row_with-update_where,
  update_where-HasUniqueIds, row_with-id, row_with-Mem, Mem-row_with, lookup-update_counter,
}
use circle_wallet_service.Mysql.Queue.{
  is_waiting, comes_before, first_of, oldest_where, set_claimed, with_counter, claimed_tables,
  loaded, claim_row, claim,
}
use circle_wallet_service.Mysql.Contract.{
  View, memory_view, Same, IsKeyed, Claimed, Took, answer_unique, memory_claim-Claimed,
}

-- What the methods read of the tables.
abbrev pub mysql_view : Database → View
mysql_view db = record {
  rows = λ id. map scan_record (row_with id db.transactions);
  next = λ addr. count_at db.account_sequences addr;
}

comes_before-older : (a b : Row) → comes_before a b ≡ older (scan_record a) (scan_record b)
unfolding comes_before older scan_record
comes_before-older a b = refl

is_waiting-is_queued_for :
    (addr : String) (row : Row) → is_waiting addr row ≡ is_queued_for addr (scan_record row)
unfolding is_waiting is_queued_for scan_record
is_waiting-is_queued_for addr row = refl

-- The row that ORDER BY ... LIMIT 1 gives: one that passes, and none that passes comes before it.
abbrev IsFirst : (Row → Bool) → List Row → Option Row → Type 0
IsFirst p rows none = (r : Row) → Memᴰ r rows → p r ≡ false
IsFirst p rows (some best) =
    Memᴰ best rows
    × ((p best ≡ true)
        × ((r : Row) → Memᴰ r rows → p r ≡ true → older (scan_record r) (scan_record best) ≡ false))

-- A fact about every row of a list with one more row.
all_more :
    (Q : Row → Type 0) (row : Row) (rows : List Row)
    → Q row
    → ((r : Row) → Memᴰ r rows → Q r)
    → (r : Row) → Memᴰ r (row ∷ rows)
    → Q r
all_more Q row rows h k r (Memᴰ.head e) = rw e h
all_more Q row rows h k r (Memᴰ.tail m) = k r m

first_of-IsFirst :
    (p : Row → Bool) (row : Row) (rows : List Row) (o : Option Row)
    → IsFirst p rows o
    → IsFirst p (row ∷ rows) (if p row then first_of row o else o)
unfolding first_of
first_of-IsFirst p row rows none h = elim (Bool-cases (p row)) [
  | inl e ↦ rw e (
    Memᴰ.head refl,
    (
      e,
      all_more (λ r. p r ≡ true → older (scan_record r) (scan_record row) ≡ false) row rows
          (λ _. older_irrefl (scan_record row)) (λ r m q. absurd (ground (arith, h r m))),
    ),
  )
  | inr e ↦ rw e (all_more (λ r. p r ≡ false) row rows e h)
]
first_of-IsFirst p row rows (some best) h = elim (Bool-cases (p row)) [
  | inl e ↦ elim (Bool-cases (comes_before row best)) [
    | inl f ↦
        rw (e, f)
          (
            Memᴰ.head refl,
            (
              e,
              (all_more (λ r. p r ≡ true → older (scan_record r) (scan_record row) ≡ false) row rows
                  (λ _. older_irrefl (scan_record row))
                  (λ r m q. ground (
                    arith,
                    h.1.1 r m q,
                    comes_before-older row best,
                    older_trans (scan_record r) (scan_record row) (scan_record best),
                  ))),
            ),
          )
    | inr f ↦
        rw (e, f)
          (
            Memᴰ.tail h.0,
            (
              h.1.0,
              (all_more (λ r. p r ≡ true → older (scan_record r) (scan_record best) ≡ false) row
                  rows (λ _. ground (arith, comes_before-older row best)) h.1.1),
            ),
          )
  ]
  | inr e ↦ rw e (
    Memᴰ.tail h.0,
    (
      h.1.0,
      (all_more (λ r. p r ≡ true → older (scan_record r) (scan_record best) ≡ false) row rows
          (λ q. absurd (ground arith)) h.1.1),
    ),
  )
]

oldest_where-IsFirst : (p : Row → Bool) (rows : List Row) → IsFirst p rows (oldest_where p rows)
unfolding oldest_where
oldest_where-IsFirst p [] = λ r m. elim m [ ]
oldest_where-IsFirst p (row ∷ rows) =
    first_of-IsFirst p row rows (oldest_where p rows) (oldest_where-IsFirst p rows)

counted_up :
    (addr other : String) (m : GoMap ℕ)
    → count_at (update_counter addr (λ n. n + 1) (with_counter addr m)) other
      ≡ (if addr == other then count_at m addr + 1 else count_at m other)
unfolding with_counter
counted_up addr other m = elim (Option-cases (lookup addr m)) [
  | inl e ↦ ground (
    arith,
    e,
    eq_iff addr other,
    eq_iff addr addr,
    lookup-update_counter addr other (λ n. n + 1) (insert addr 0 m),
    lookup-insert addr other 0 m,
    lookup-insert addr addr 0 m,
  )
  | inr (n, e) ↦
      ground (arith, e, eq_iff addr other, lookup-update_counter addr other (λ n. n + 1) m)
]

-- What the update by id leaves for a record.
scan_record-set_claimed :
    (t seq : ℕ) (row : Row)
    → scan_record (set_claimed t seq row) ≡ claimed_row t seq (scan_record row)
unfolding scan_record claimed_row
scan_record-set_claimed t seq row = refl

claimed_rows :
    (t seq : ℕ) (row : Row) (rows : List Row) (j : String)
    → row_with row.id rows ≡ some row
    → map scan_record (row_with j (update_where (λ r. r.id == row.id) (set_claimed t seq) rows)) ≡ (
        if row.id == j
        then some (claimed_row t seq (scan_record row))
        else map scan_record (row_with j rows))
claimed_rows t seq row rows j h =
    rw (row_with-update_where (λ r. r.id == row.id) (set_claimed t seq) rows j (λ _. refl))
      (elim (Option-cases (row_with j rows)) [
        | inl e ↦ rw e (ground (arith, eq_iff row.id j, h))
        | inr (r, e) ↦ rw e (
            ground (
              arith,
              eq_iff row.id j,
              eq_iff r.id row.id,
              row_with-id j rows e,
              h,
              scan_record-set_claimed t seq row,
            ))
      ])

waiting_none :
    (addr : String) (rows : List Row)
    → IsFirst (is_waiting addr) rows none
    → (j : String) (r : TransactionRecord) → map scan_record (row_with j rows) ≡ some r
    → is_queued_for addr r ≡ false
waiting_none addr rows h j r e = elim (Option-cases (row_with j rows)) [
  | inl f ↦ absurd (ground arith)
  | inr (row, f) ↦
      ground (arith, e, h row (row_with-Mem j rows f), is_waiting-is_queued_for addr row)
]

waiting_first :
    (addr : String) (rows : List Row) (row : Row)
    → IsFirst (is_waiting addr) rows (some row)
    → (j : String) (r : TransactionRecord) → map scan_record (row_with j rows) ≡ some r
    → is_queued_for addr r ≡ true
    → older r (scan_record row) ≡ false
waiting_first addr rows row h j r e q = elim (Option-cases (row_with j rows)) [
  | inl f ↦ absurd (ground arith)
  | inr (found, f) ↦
      ground (arith, e, h.1.1 found (row_with-Mem j rows f), is_waiting-is_queued_for addr found)
]

-- The tables of a claim of the first row.
claimed_tables-Took :
    (engine : Engine) (now : ℕ) (addr : String) (db : Database) (row : Row)
    → HasUniqueIds db.transactions
    → count_at db.account_sequences addr < 9223372036854775808
    → IsFirst (is_waiting addr) db.transactions (some row)
    → Took
        (engine.timestamp now)
        addr
        (mysql_view db)
        (mysql_view (claimed_tables engine now addr row db))
        (claimed_row (engine.timestamp now) (count_at db.account_sequences addr) (scan_record row))
unfolding claimed_tables
claimed_tables-Took engine now addr db row u small h =
    let stored = Mem-row_with db.transactions u h.0 in
    record {
      id = row.id;
      was = scan_record row;
      held = rw stored refl;
      waiting = ground (arith, h.1.0, is_waiting-is_queued_for addr row);
      oldest = waiting_first addr db.transactions row h;
      taken = refl;
      written = λ j.
          claimed_rows (engine.timestamp now) (count_at db.account_sequences addr) row
            db.transactions j stored;
      counted = λ other. ground (arith, counted_up addr other db.account_sequences, small);
    }

claimed_tables-HasUniqueIds :
    (engine : Engine) (now : ℕ) (addr : String) (row : Row) (db : Database)
    → HasUniqueIds db.transactions
    → HasUniqueIds (claimed_tables engine now addr row db).transactions
unfolding claimed_tables
claimed_tables-HasUniqueIds engine now addr row db u =
    update_where-HasUniqueIds (λ r. r.id == row.id)
      (set_claimed (engine.timestamp now) (count_at db.account_sequences addr)) db.transactions
      (λ _. refl) u

loaded_lem :
    (id : String) (db : Database) (rec : TransactionRecord)
    → map scan_record (row_with id db.transactions) ≡ some rec
    → loaded id db ≡ (ok (some rec), db)
unfolding loaded
loaded_lem id db rec e = elim (Option-cases (row_with id db.transactions)) [
  | inl f ↦ absurd (ground (arith, e))
  | inr (r, f) ↦ rw (loaded, f) (ground (arith, e, f))
]

-- The record that is read after the commit is the one that was claimed.
claim_loaded :
    (engine : Engine) (now : ℕ) (addr : String) (row : Row) (db : Database)
    → count_at db.account_sequences addr < 9223372036854775808
    → row_with row.id db.transactions ≡ some row
    → claim_row engine now addr (some row) db ≡ (
      ok (
          some (
            claimed_row
              (engine.timestamp now)
              (count_at db.account_sequences addr)
              (scan_record row))),
      claimed_tables engine now addr row db,
    )
unfolding claim_row fits
claim_loaded engine now addr row db small stored = rw (lt→ltb _ _ small) (
    loaded_lem row.id (claimed_tables engine now addr row db) _ (
      unfold claimed_tables in
      rw (eq_refl row.id) at (
        claimed_rows (engine.timestamp now) (count_at db.account_sequences addr) row db.transactions
          row.id stored)))

claim_row-first :
    (engine : Engine) (now : ℕ) (addr : String) (db : Database)
    → HasUniqueIds db.transactions
    → count_at db.account_sequences addr < 9223372036854775808
    → (first : Option Row) → IsFirst (is_waiting addr) db.transactions first
    → (o : Option TransactionRecord) × ((t : Database) × ((claim_row engine now addr first db
            ≡ (ok o, t))
          × (HasUniqueIds t.transactions
              × Claimed (engine.timestamp now) addr (mysql_view db) (mysql_view t) o)))
unfolding claim_row
claim_row-first engine now addr db u small none h = (
  none,
  (
    db,
    (
      refl,
      (u, record { empty = waiting_none addr db.transactions h; kept = (λ _. refl, λ _. refl) }),
    ),
  ),
)
claim_row-first engine now addr db u small (some row) h =
    let took = claimed_tables-Took engine now addr db row u small h in
    let seq = count_at db.account_sequences addr in
    let new = claimed_row (engine.timestamp now) seq (scan_record row) in
    let t = claimed_tables engine now addr row db in
    (
      some new,
      (
        t,
        (
          claim_loaded engine now addr row db small (Mem-row_with db.transactions u h.0),
          (claimed_tables-HasUniqueIds engine now addr row db u, took),
        ),
      ),
    )

-- A claim takes the oldest queued row of the sender, if it has any, as the contract says, at the
-- time that the columns keep; it never fails where ids are unique and the counter fits in an int64.
pub claim_refines :
    (engine : Engine) (now : ℕ) (addr : String) (db : Database)
    → HasUniqueIds db.transactions
    → count_at db.account_sequences addr < 9223372036854775808
    → (o : Option TransactionRecord) × ((t : Database) × ((claim engine now addr db ≡ (ok o, t))
          × (HasUniqueIds t.transactions
              × Claimed (engine.timestamp now) addr (mysql_view db) (mysql_view t) o)))
unfolding claim
claim_refines engine now addr db u small =
    claim_row-first engine now addr db u small (oldest_where (is_waiting addr) db.transactions)
      (oldest_where-IsFirst (is_waiting addr) db.transactions)

mysql_view-IsKeyed : (db : Database) → IsKeyed (mysql_view db)
unfolding scan_record
mysql_view-IsKeyed db id r e = elim (Option-cases (row_with id db.transactions)) [
  | inl f ↦ absurd (ground arith)
  | inr (row, f) ↦ ground (arith, e, row_with-id id db.transactions f)
]

-- Where the tables and the in-memory store hold the same records and counters, a claim on the one
-- answers what a claim on the other answers at the time that the columns keep, and they hold the same
-- afterwards.
pub claim_agrees :
    (engine : Engine) (now : ℕ) (addr : String) (db : Database) (s : MemoryStore)
    → HasUniqueIds db.transactions
    → count_at db.account_sequences addr < 9223372036854775808
    → Same (mysql_view db) (memory_view s)
    → ((claim engine now addr db).0
        ≡ ok (claim_next_queued_for_sender (engine.timestamp now) addr s).0)
      × Same
          (mysql_view (claim engine now addr db).1)
          (memory_view (claim_next_queued_for_sender (engine.timestamp now) addr s).1)
claim_agrees engine now addr db s u small same =
    let (o, (t, (e, (_, c)))) = claim_refines engine now addr db u small in
    let both =
      answer_unique addr (mysql_view db) (memory_view s) (mysql_view t) _ (engine.timestamp now) o _
        same (mysql_view-IsKeyed db) c (memory_claim-Claimed (engine.timestamp now) addr s) in
    rw e (ap ok both.0, both.1)

loaded-same : (id : String) (db : Database) → (loaded id db).1 ≡ db
unfolding loaded
loaded-same id db = elim (Option-cases (row_with id db.transactions)) [
  | inl e ↦ rw (loaded, e) refl
  | inr (r, e) ↦ rw (loaded, e) refl
]

claim_row-HasUniqueIds :
    (engine : Engine) (now : ℕ) (addr : String) (o : Option Row) (db : Database)
    → HasUniqueIds db.transactions
    → HasUniqueIds (claim_row engine now addr o db).1.transactions
unfolding claim_row
claim_row-HasUniqueIds engine now addr none db u = u
claim_row-HasUniqueIds engine now addr (some row) db u =
    elim (Bool-cases (fits (some (count_at db.account_sequences addr)))) [
      | inl e ↦
          rw (claim_row, e, loaded-same row.id (claimed_tables engine now addr row db))
            (claimed_tables-HasUniqueIds engine now addr row db u)
      | inr e ↦ rw (claim_row, e) u
    ]

pub claim-HasUniqueIds :
    (engine : Engine) (now : ℕ) (addr : String) (db : Database)
    → HasUniqueIds db.transactions
    → HasUniqueIds (claim engine now addr db).1.transactions
unfolding claim
claim-HasUniqueIds engine now addr db u =
    claim_row-HasUniqueIds engine now addr (oldest_where (is_waiting addr) db.transactions) db u

-- ===== src/Mysql/Queue/Recoveries.antt =====
-- `RecoverStaleProcessing` of internal/store/mysql/queue.go.
use circle_wallet_service.Prelude.{
  Result, ℕ, ◌+◌, ◌-◌, ◌<◌, ◌≤◌, ◌≡◌, refl, Bool, ◌&&◌, none, some, List, [], ◌∷◌, arith, String,
  ◌==◌, eq_iff, Option-cases, Bool-cases, inl, inr, ok, err, is_set, ltb, eq_refl,
}
use circle_wallet_service.GoMap.{
  GoMap, lookup, insert, lookup-insert, IsDistinct, insert-IsDistinct,
}
use circle_wallet_service.Store.{database, StoreError}
use circle_wallet_service.MemoryQueue.{count_at}
use circle_wallet_service.Mysql.{Engine, Subtracts, Row, Database}
use circle_wallet_service.Mysql.Tables.{
  rows_that, count_where, row_with-update_where, HasUniqueIds, update_where-HasUniqueIds,
}
use circle_wallet_service.Mysql.Queue.{
  set_queued, commit, whole_seconds, is_stale_row, sender_counts, subtract_all, recovered,
  recover_stale,
}
use circle_wallet_service.Mysql.Queue.Requeues.{
  commit-HasUniqueIds, Lowered, subtract-cases, Requeued, Short,
}

-- The rows of a sender that hold a sequence number.
abbrev burned : (Row → Bool) → String → Row → Bool
burned p addr row = p row && (row.sender_address == addr && is_set row.sequence_number)

sender_counts_lem :
    (p : Row → Bool) (rows : List Row) (counts : GoMap ℕ) (addr : String)
    → count_at (sender_counts (rows_that p rows) counts) addr
      ≡ count_at counts addr + count_where (burned p addr) rows
unfolding sender_counts rows_that count_where
sender_counts_lem p [] counts addr = omega arith
sender_counts_lem p (row ∷ rows) counts addr = elim (Option-cases row.sequence_number) [
  | inl e ↦ ground (arith, e, sender_counts_lem p rows counts addr)
  | inr (n, e) ↦ ground (
    arith,
    e,
    sender_counts_lem p rows counts addr,
    sender_counts_lem p rows
        (insert row.sender_address (count_at counts row.sender_address + 1) counts) addr,
    lookup-insert row.sender_address addr (count_at counts row.sender_address + 1) counts,
    eq_iff row.sender_address addr,
  )
]

counted_stale :
    (p : Row → Bool) (rows : List Row) (addr : String)
    → count_at (sender_counts (rows_that p rows) []) addr ≡ count_where (burned p addr) rows
unfolding lookup
counted_stale p rows addr = ground (arith, sender_counts_lem p rows [] addr)

sender_counts-IsDistinct :
    (rows : List Row) (counts : GoMap ℕ)
    → IsDistinct counts
    → IsDistinct (sender_counts rows counts)
unfolding sender_counts
sender_counts-IsDistinct [] counts d = d
sender_counts-IsDistinct (row ∷ rows) counts d = elim (Option-cases row.sequence_number) [
  | inl e ↦ rw e (sender_counts-IsDistinct rows counts d)
  | inr (n, e) ↦ rw e (
      sender_counts-IsDistinct rows
        (insert row.sender_address (count_at counts row.sender_address + 1) counts)
        (insert-IsDistinct row.sender_address (count_at counts row.sender_address + 1) counts d))
]

-- Every counter that there is covers what is to be taken from it.
abbrev Covers : GoMap ℕ → GoMap ℕ → Type 0
Covers m counts = (addr : String) (n : ℕ) → lookup addr m ≡ some n → count_at counts addr ≤ n

-- Once a subtraction is done, the others are still covered.
rest-Covers :
    (a : String) (cnt : ℕ) (counts m new : GoMap ℕ)
    → lookup a counts ≡ none
    → Lowered a cnt m new
    → Covers m ((a, cnt) ∷ counts)
    → Covers new counts
unfolding lookup
rest-Covers a cnt counts m new once lowered c addr n e = elim (Bool-cases (a == addr)) [
  | inl q ↦ ground (arith, (eq_iff a addr).0 q, once)
  | inr q ↦ ground (arith, q, lowered addr, e, c addr n)
]

module _ (engine : Engine) (laws : Subtracts engine) where
  subtract_all_covered :
      (counts m : GoMap ℕ)
      → IsDistinct counts
      → Covers m counts
      → (new : GoMap ℕ) × ((subtract_all engine counts m ≡ ok new)
          × ((addr : String) → count_at new addr ≡ count_at m addr - count_at counts addr))
  unfolding subtract_all lookup
  subtract_all_covered [] m d c = (m, (refl, λ addr. omega arith))
  subtract_all_covered ((a, cnt) ∷ counts) m d c = elim (subtract-cases engine laws a cnt m) [
    | inl (n, (e, (low, f))) ↦ absurd (ground (arith, c a n e, low, eq_refl a))
    | inr (m', (f, (lowered, _))) ↦
        let rest =
          subtract_all_covered counts m' d.1 (rest-Covers a cnt counts m m' d.0 lowered c) in
        (
          rest.0,
          (rw f rest.1.0, λ addr. ground (arith, rest.1.1 addr, lowered addr, d.0, eq_iff a addr)),
        )
  ]

  subtract_all_short :
      (counts m : GoMap ℕ) (addr : String) (n : ℕ)
      → IsDistinct counts
      → lookup addr m ≡ some n
      → n < count_at counts addr
      → subtract_all engine counts m ≡ err database
  unfolding subtract_all lookup
  subtract_all_short [] m addr n d e low = absurd (omega (arith, low))
  subtract_all_short ((a, cnt) ∷ counts) m addr n d e low =
      elim (subtract-cases engine laws a cnt m) [
        | inl (_, (_, (_, f))) ↦ rw f refl
        | inr (m', (f, (lowered, enough))) ↦ elim (Bool-cases (a == addr)) [
          | inl q ↦ absurd (ground (arith, (eq_iff a addr).0 q, e, low, enough))
          | inr q ↦ rw f (
              subtract_all_short counts m' addr n d.1 (ground (arith, lowered addr, q))
                (ground (arith, low, q)))
        ]
      ]

  -- How many sequence numbers a recovery takes back from a sender.
  abbrev pub taken_back : ℕ → ℕ → Database → String → ℕ
  taken_back now older_than db addr =
      count_where (burned (is_stale_row now (whole_seconds older_than)) addr) db.transactions

  -- A recovery requeues exactly the processing rows without a hash that were last written longer ago than
  -- the threshold, in whole seconds and at least one; the counter of each sender falls by the number of
  -- its own rows among them that hold a sequence number; the result is the number of rows requeued. This
  -- holds where every counter covers what is taken from it.
  pub recover_stale_exact :
      (now older_than : ℕ) (db : Database)
      → ((addr : String) → ¬ Short addr (taken_back now older_than db addr) db)
      → ((recover_stale engine now older_than db).0
          ≡ ok (count_where (is_stale_row now (whole_seconds older_than)) db.transactions))
        × Requeued
            (is_stale_row now (whole_seconds older_than))
            (engine.timestamp now)
            (taken_back now older_than db)
            db
            (recover_stale engine now older_than db).1
  unfolding recover_stale recovered commit
  recover_stale_exact now older_than db covered =
      let done =
        subtract_all_covered counts db.account_sequences
          (sender_counts-IsDistinct
            (rows_that (is_stale_row now (whole_seconds older_than)) db.transactions) [] tt)
          (λ addr n e. elim (Bool-cases (ltb n (count_at counts addr))) [
            | inl low ↦ absurd (covered addr (n, (e, ground (arith, low, counted addr))))
            | inr high ↦ ground (arith, high)
          ]) in
      rw (done.1.0) (
        refl,
        record {
          rows = λ id.
              row_with-update_where (is_stale_row now (whole_seconds older_than))
                (set_queued (engine.timestamp now)) db.transactions id (λ _. refl);
          counters = λ addr. ground (arith, done.1.1 addr, counted addr);
        },
      )
    where
      counts : GoMap ℕ
      counts =
          sender_counts (rows_that (is_stale_row now (whole_seconds older_than)) db.transactions) []

      counted : (addr : String) → count_at counts addr ≡ taken_back now older_than db addr
      counted addr =
          counted_stale (is_stale_row now (whole_seconds older_than)) db.transactions addr

  -- A recovery fails and changes nothing, for any sender, if the counter of one sender is below the number
  -- of its stale rows that hold a sequence number.
  pub recover_blocked :
      (now older_than : ℕ) (db : Database) (addr : String)
      → Short addr (taken_back now older_than db addr) db
      → recover_stale engine now older_than db ≡ (err database, db)
  unfolding recover_stale recovered commit
  recover_blocked now older_than db addr (n, (e, low)) =
      rw
        (subtract_all_short _ db.account_sequences addr n
          (sender_counts-IsDistinct
            (rows_that (is_stale_row now (whole_seconds older_than)) db.transactions) [] tt)
          e
          (ground (
            arith,
            low,
            counted_stale (is_stale_row now (whole_seconds older_than)) db.transactions addr,
          )))
        refl

recovered-same : (n : ℕ) (r : Result StoreError (Unit {0}) × Database) → (recovered n r).1 ≡ r.1
unfolding recovered
recovered-same n (ok _, db) = refl
recovered-same n (err e, db) = refl

pub recover_stale-HasUniqueIds :
    (engine : Engine) (now older_than : ℕ) (db : Database)
    → HasUniqueIds db.transactions
    → HasUniqueIds (recover_stale engine now older_than db).1.transactions
unfolding recover_stale
recover_stale-HasUniqueIds engine now older_than db u =
    rw
      (recovered-same (count_where (is_stale_row now (whole_seconds older_than)) db.transactions) _)
      (commit-HasUniqueIds _ db _
        (update_where-HasUniqueIds (is_stale_row now (whole_seconds older_than))
          (set_queued (engine.timestamp now)) db.transactions (λ _. refl) u)
        u)

-- ===== src/Mysql/Queue/Requeues.antt =====
-- The methods of internal/store/mysql/queue.go that lower a counter: on BIGINT UNSIGNED, the
-- subtraction inside GREATEST(... - ?, 0) is refused below zero.
use circle_wallet_service.Prelude.{
  Result, List, ℕ, ◌-◌, ◌<◌, ◌≤◌, ◌≡◌, refl, Bool, Option, none, some, arith, String, ◌==◌, eq_iff,
  if◌then◌else◌, Option-cases, Bool-cases, inl, inr, ◌⊎◌, ok, err, ltb, ltb→lt,
}
use circle_wallet_service.GoMap.{GoMap, lookup, insert, lookup-insert}
use circle_wallet_service.Store.{database, StoreError}
use circle_wallet_service.MemoryQueue.{count_at}
use circle_wallet_service.Mysql.{Engine, Subtracts, Row, Database}
use circle_wallet_service.Mysql.Tables.{
  row_with, update_where, update_if, count_where, row_with-update_where, HasUniqueIds,
  update_where-HasUniqueIds,
}
use circle_wallet_service.Mysql.Queue.{subtract, set_queued, commit, is_shifted_row, shift, release}

-- The counters that a subtraction leaves.
abbrev pub Lowered : String → ℕ → GoMap ℕ → GoMap ℕ → Type 0
Lowered addr cnt m new =
    (other : String)
    → lookup other new ≡ (
        if addr == other
        then elim (lookup addr m) as (λ _. Option ℕ) [ none ↦ none | some n ↦ some (n - cnt) ]
        else lookup other m)

module _ (engine : Engine) (laws : Subtracts engine) where
  -- A subtraction that the server accepts, or refuses.
  pub subtract-cases :
      (addr : String) (cnt : ℕ) (m : GoMap ℕ)
      → ((n : ℕ) × ((lookup addr m ≡ some n)
            × ((n < cnt) × (subtract engine addr cnt m ≡ err database))))
        ⊎ ((new : GoMap ℕ) × ((subtract engine addr cnt m ≡ ok new)
              × (Lowered addr cnt m new × (cnt ≤ count_at m addr ⊎ (lookup addr m ≡ none)))))
  unfolding subtract
  subtract-cases addr cnt m = elim (Option-cases (lookup addr m)) [
    | inl e ↦
        inr (m, (rw (subtract, e) refl, (λ other. ground (arith, eq_iff addr other, e), inr e)))
    | inr (n, e) ↦ elim (Bool-cases (ltb n cnt)) [
      | inl low ↦
          inl (
            n,
            (e, (ltb→lt n cnt low, rw (subtract, e, laws.beyond n cnt (ltb→lt n cnt low)) refl)),
          )
      | inr high ↦ inr (
        insert addr (n - cnt) m,
        (
          rw (subtract, e, laws.within n cnt (ground arith)) (ground arith),
          (
            λ other. ground (arith, e, lookup-insert addr other (n - cnt) m),
            inl (ground (arith, e)),
          ),
        ),
      )
    ]
  ]

-- What a requeue did: exactly the rows of a test went back to the queue with no sequence number, and
-- each counter lost a number.
pub record Requeued (p : Row → Bool) (now : ℕ) (lost : String → ℕ) (db t : Database) : Type 0 where
  pub rows :
      (id : String)
      → row_with id t.transactions ≡ update_if p (set_queued now) (row_with id db.transactions)
  pub counters :
      (addr : String)
      → count_at t.account_sequences addr ≡ count_at db.account_sequences addr - lost addr

-- The counter of a sender, where it has one, is below a number.
abbrev pub Short : String → ℕ → Database → Type 0
Short addr cnt db = (n : ℕ) × ((lookup addr db.account_sequences ≡ some n) × (n < cnt))

-- The counter of a sender covers a number, or there is none.
abbrev pub Covered : String → ℕ → Database → Type 0
Covered addr cnt db =
    (cnt ≤ count_at db.account_sequences addr) ⊎ (lookup addr db.account_sequences ≡ none)

-- The rows of a sender that a shift requeues.
abbrev pub shifted : String → ℕ → Database → ℕ
shifted addr failed_seq db = count_where (is_shifted_row addr failed_seq) db.transactions

module _ (engine : Engine) (laws : Subtracts engine) where
  -- A release lowers the counter of the sender by one and changes nothing else; where the counter is
  -- zero, it fails and changes nothing.
  pub release_lowers :
      (addr : String) (db : Database)
      → (Short addr 1 db × (release engine addr db ≡ (err database, db)))
        ⊎ ((((release engine addr db).0 ≡ ok tt) × Covered addr 1 db)
            × (((release engine addr db).1.transactions ≡ db.transactions)
                × ((other : String)
                    → count_at (release engine addr db).1.account_sequences other
                      ≡ count_at db.account_sequences other - (if addr == other then 1 else 0))))
  unfolding release commit
  release_lowers addr db = elim (subtract-cases engine laws addr 1 db.account_sequences) [
    | inl (n, (e, (low, f))) ↦ inl ((n, (e, low)), rw f refl)
    | inr (new, (f, (lowered, covered))) ↦ inr (
      (rw f refl, covered),
      (rw f refl, λ other. rw f (ground (arith, lowered other, eq_iff addr other))),
    )
  ]

  -- A shift requeues exactly the queued and processing rows of the sender whose sequence number is
  -- above the failed one, and lowers the counter of the sender by their number, if the counter is not
  -- below that number or the sender has none; where it is below, it fails and changes nothing.
  pub shift_lowers :
      (now : ℕ) (addr : String) (failed_seq : ℕ) (db : Database)
      → (Short addr (shifted addr failed_seq db) db
          × (shift engine now addr failed_seq db ≡ (err database, db)))
        ⊎ ((((shift engine now addr failed_seq db).0 ≡ ok tt)
              × Covered addr (shifted addr failed_seq db) db)
            × Requeued
                (is_shifted_row addr failed_seq)
                (engine.timestamp now)
                (λ other. if addr == other then shifted addr failed_seq db else 0)
                db
                (shift engine now addr failed_seq db).1)
  unfolding shift commit
  shift_lowers now addr failed_seq db = elim (Bool-cases (ltb 0 (shifted addr failed_seq db))) [
    | inr z ↦ inr (
      (rw z refl, inl (ground (arith, z))),
      rw z (record { rows = rows_after; counters = λ other. ground (arith, z) }),
    )
    | inl z ↦
        elim (subtract-cases engine laws addr (shifted addr failed_seq db) db.account_sequences) [
          | inl (n, (e, (low, f))) ↦ inl ((n, (e, low)), rw (z, f) refl)
          | inr (new, (f, (lowered, covered))) ↦ inr (
            (rw (z, f) refl, covered),
            rw (z, f)
                (record {
                  rows = rows_after;
                  counters = λ other. ground (arith, lowered other, eq_iff addr other);
                }),
          )
        ]
  ]
    where
      rows_after :
          (id : String)
          → row_with id (
              update_where
                (is_shifted_row addr failed_seq)
                (set_queued (engine.timestamp now))
                db.transactions)
            ≡ update_if
                (is_shifted_row addr failed_seq)
                (set_queued (engine.timestamp now))
                (row_with id db.transactions)
      rows_after id =
          row_with-update_where (is_shifted_row addr failed_seq) (set_queued (engine.timestamp now))
            db.transactions id (λ _. refl)

pub commit-HasUniqueIds :
    (rows : List Row) (db : Database) (r : Result StoreError (GoMap ℕ))
    → HasUniqueIds rows
    → HasUniqueIds db.transactions
    → HasUniqueIds (commit rows db r).1.transactions
unfolding commit
commit-HasUniqueIds rows db (ok counters) u v = u
commit-HasUniqueIds rows db (err e) u v = v

pub shift-HasUniqueIds :
    (engine : Engine) (now : ℕ) (addr : String) (failed_seq : ℕ) (db : Database)
    → HasUniqueIds db.transactions
    → HasUniqueIds (shift engine now addr failed_seq db).1.transactions
unfolding shift
shift-HasUniqueIds engine now addr failed_seq db u =
    commit-HasUniqueIds _ db _
      (update_where-HasUniqueIds (is_shifted_row addr failed_seq)
        (set_queued (engine.timestamp now)) db.transactions (λ _. refl) u)
      u

pub release-HasUniqueIds :
    (engine : Engine) (addr : String) (db : Database)
    → HasUniqueIds db.transactions
    → HasUniqueIds (release engine addr db).1.transactions
unfolding release
release-HasUniqueIds engine addr db u = commit-HasUniqueIds db.transactions db _ u u

-- ===== src/Mysql/Queue/Agreement.antt =====
-- internal/store/mysql/queue.go against internal/store/memory_queue.go, over runs of the calls that give
-- out sequence numbers and take them back.
use circle_wallet_service.Prelude.{
  ℕ, ◌-◌, ◌<◌, ◌≡◌, refl, sym, ap, ◌∙◌, ◌&&◌, Option, none, some, List, [], ◌∷◌, map, arith, String,
  ◌==◌, eq_iff, ltb, if◌then◌else◌, inl, inr, Result, ok, err,
}
use circle_wallet_service.GoMap.{lookup, lookup-insert}
use circle_wallet_service.Store.{StoreError, TransactionRecord}
use circle_wallet_service.Memory.{MemoryStore}
use circle_wallet_service.MemoryQueue.{
  count_at, next_sequence, claim_next_queued_for_sender, release_sequence, reconcile_sequence,
}
use circle_wallet_service.Mysql.{Engine, Subtracts, Database}
use circle_wallet_service.Mysql.Contract.{Same, memory_view}
use circle_wallet_service.Mysql.Tables.{HasUniqueIds, lookup-update_counter}
use circle_wallet_service.Mysql.Queue.{claim, release, reconcile, greatest}
use circle_wallet_service.Mysql.Queue.Claims.{mysql_view, claim_agrees, claim-HasUniqueIds}
use circle_wallet_service.Mysql.Queue.Requeues.{release_lowers}

pub data Call : Type 0 where
  claims : ℕ → String → Call
  releases : String → Call
  reconciles : String → ℕ → Call

abbrev nothing :
    Result StoreError (Unit {0}) × Database
    → Result StoreError (Option TransactionRecord) × Database
nothing (ok u, db) = (ok none, db)
nothing (err e, db) = (err e, db)

nothing_left : (out : Result StoreError (Unit {0}) × Database) → (nothing out).1 ≡ out.1
nothing_left (ok u, db) = refl
nothing_left (err e, db) = refl

nothing_ok :
    (out : Result StoreError (Unit {0}) × Database) → out.0 ≡ ok tt → (nothing out).0 ≡ ok none
nothing_ok (ok u, db) h = refl
nothing_ok (err e, db) h = absurd (ground (arith, h))

module _ (engine : Engine) where
  abbrev pub on_tables : Call → Database → Result StoreError (Option TransactionRecord) × Database
  on_tables (claims now addr) db = claim engine now addr db
  on_tables (releases addr) db = nothing (release engine addr db)
  on_tables (reconciles addr chain_seq) db = (ok none, reconcile addr chain_seq db)

  -- In memory, at the time that the columns keep.
  abbrev pub in_memory : Call → MemoryStore → Option TransactionRecord × MemoryStore
  in_memory (claims now addr) s = claim_next_queued_for_sender (engine.timestamp now) addr s
  in_memory (releases addr) s = (none, release_sequence addr s)
  in_memory (reconciles addr chain_seq) s = (none, reconcile_sequence addr chain_seq s)

  -- A number fits in an int64; there is one to take back; the sender has claimed before.
  abbrev pub IsFine : Call → Database → Type 0
  IsFine (claims now addr) db = count_at db.account_sequences addr < 9223372036854775808
  IsFine (releases addr) db = 0 < count_at db.account_sequences addr
  IsFine (reconciles addr chain_seq) db = (n : ℕ) × (lookup addr db.account_sequences ≡ some n)

  abbrev pub AreFine : List Call → Database → Type 0
  AreFine [] db = Unit
  AreFine (c ∷ cs) db = IsFine c db × AreFine cs (on_tables c db).1

  abbrev pub tables_run :
      List Call → Database → List (Result StoreError (Option TransactionRecord)) × Database
  tables_run [] db = ([], db)
  tables_run (c ∷ cs) db =
      let (out, db') = on_tables c db in let (outs, db'') = tables_run cs db' in (out ∷ outs, db'')

  abbrev pub memory_run : List Call → MemoryStore → List (Option TransactionRecord) × MemoryStore
  memory_run [] s = ([], s)
  memory_run (c ∷ cs) s =
      let (out, s') = in_memory c s in let (outs, s'') = memory_run cs s' in (out ∷ outs, s'')

next-release_sequence :
    (addr other : String) (s : MemoryStore)
    → next_sequence other (release_sequence addr s)
      ≡ next_sequence other s - (if addr == other then 1 else 0)
unfolding release_sequence
next-release_sequence addr other s =
    ground
      (arith, eq_iff addr other, lookup-insert addr other (next_sequence addr s - 1) s.sequences)

rows-release_sequence :
    (addr : String) (s : MemoryStore) → (release_sequence addr s).records ≡ s.records
unfolding release_sequence
rows-release_sequence addr s = ground arith

next-reconcile_sequence :
    (addr other : String) (chain_seq : ℕ) (s : MemoryStore)
    → next_sequence other (reconcile_sequence addr chain_seq s) ≡ (
        if addr == other && ltb (next_sequence addr s) chain_seq
        then chain_seq
        else next_sequence other s)
unfolding reconcile_sequence
next-reconcile_sequence addr other chain_seq s =
    ground (arith, eq_iff addr other, lookup-insert addr other chain_seq s.sequences)

rows-reconcile_sequence :
    (addr : String) (chain_seq : ℕ) (s : MemoryStore)
    → (reconcile_sequence addr chain_seq s).records ≡ s.records
unfolding reconcile_sequence
rows-reconcile_sequence addr chain_seq s = ground arith

next-reconcile :
    (addr other : String) (chain_seq n : ℕ) (db : Database)
    → lookup addr db.account_sequences ≡ some n
    → count_at (reconcile addr chain_seq db).account_sequences other ≡ (
        if addr == other && ltb n chain_seq then chain_seq else count_at db.account_sequences other)
unfolding reconcile
next-reconcile addr other chain_seq n db e = ground (
  arith,
  eq_iff addr other,
  e,
  lookup-update_counter addr other (λ m. greatest m chain_seq) db.account_sequences,
)

module _ (engine : Engine) (laws : Subtracts engine) where
  -- One call on the tables and one in memory that answer the same, and leave the same.
  abbrev pub Agree : Call → Database → MemoryStore → Type 0
  Agree c db s =
      ((on_tables engine c db).0 ≡ ok (in_memory engine c s).0)
      × (Same (mysql_view (on_tables engine c db).1) (memory_view (in_memory engine c s).1)
          × HasUniqueIds (on_tables engine c db).1.transactions)

  release_agrees :
      (addr : String) (db : Database) (s : MemoryStore)
      → HasUniqueIds db.transactions
      → 0 < count_at db.account_sequences addr
      → Same (mysql_view db) (memory_view s)
      → Agree (releases addr) db s
  release_agrees addr db s u some_left same = elim (release_lowers engine laws addr db) [
    | inl ((n, (e, low)), f) ↦ absurd (ground (arith, e, low, some_left))
    | inr ((done, _), (rows, counts)) ↦
        let left = nothing_left (release engine addr db) in
        (
          nothing_ok (release engine addr db) done,
          (
            (
              λ id. rw (left, rows, rows-release_sequence addr s) (same.0 id),
              λ other.
                  rw left (
                    ground (arith, counts other, same.1 other, next-release_sequence addr other s)),
            ),
            rw (left, rows) u,
          ),
        )
  ]

  reconcile_agrees :
      (addr : String) (chain_seq n : ℕ) (db : Database) (s : MemoryStore)
      → HasUniqueIds db.transactions
      → lookup addr db.account_sequences ≡ some n
      → Same (mysql_view db) (memory_view s)
      → Agree (reconciles addr chain_seq) db s
  unfolding reconcile
  reconcile_agrees addr chain_seq n db s u e same = (
    refl,
    (
      (
        λ id. same.0 id ∙ ap (lookup id) (sym (rows-reconcile_sequence addr chain_seq s)),
        λ other. ground (
          arith,
          e,
          same.1 addr,
          same.1 other,
          next-reconcile addr other chain_seq n db e,
          next-reconcile_sequence addr other chain_seq s,
        ),
      ),
      u,
    ),
  )

  step_agrees :
      (c : Call) (db : Database) (s : MemoryStore)
      → HasUniqueIds db.transactions
      → IsFine engine c db
      → Same (mysql_view db) (memory_view s)
      → Agree c db s
  step_agrees (claims now addr) db s u fine same =
      let (answer, left) = claim_agrees engine now addr db s u fine same in
      (answer, (left, claim-HasUniqueIds engine now addr db u))
  step_agrees (releases addr) db s u fine same = release_agrees addr db s u fine same
  step_agrees (reconciles addr chain_seq) db s u (n, e) same =
      reconcile_agrees addr chain_seq n db s u e same

  -- Where the tables and the in-memory store hold the same records and counters, any run of claims,
  -- releases and reconciles gives the same answers on both, and leaves the same records and counters.
  -- This takes unique ids; counters that fit in an int64; a number to give back at each release; and
  -- senders that have a counter where one is reconciled.
  pub run_agrees :
      (cs : List Call) (db : Database) (s : MemoryStore)
      → HasUniqueIds db.transactions
      → AreFine engine cs db
      → Same (mysql_view db) (memory_view s)
      → ((tables_run engine cs db).0 ≡ map ok (memory_run engine cs s).0)
        × Same (mysql_view (tables_run engine cs db).1) (memory_view (memory_run engine cs s).1)
  run_agrees [] db s u fine same = (refl, same)
  run_agrees (c ∷ cs) db s u fine same =
      let (answer, (left, unique)) = step_agrees c db s u fine.0 same in
      let (answers, after) =
        run_agrees cs (on_tables engine c db).1 (in_memory engine c s).1 unique fine.1 left in
      (rw (answer, answers) refl, after)

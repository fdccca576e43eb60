-- ===== src/Mysql/Runs.antt =====
-- Any run of calls of internal/store/mysql on the table of transactions.
use circle_wallet_service.Prelude.{
  ℕ, Bool, List, [], ◌∷◌, String, Result, ok, err, Result-cases, inl, inr,
}
use circle_wallet_service.Store.{TransactionRecord, TxnStatus, StoreError}
use circle_wallet_service.Mysql.{Engine, Database}
use circle_wallet_service.Mysql.Tables.{HasUniqueIds}
use circle_wallet_service.Mysql.Crud.{
  create, update, update_if_status, purge_terminal_older_than, clear_idempotency_older_than,
}
use circle_wallet_service.Mysql.Crud.Ids.{
  create-HasUniqueIds, update-HasUniqueIds, update_if_status-HasUniqueIds, purge-HasUniqueIds,
  clear-HasUniqueIds,
}
use circle_wallet_service.Mysql.Queue.{claim, reconcile, force_reset, recover_stale, shift, release}
use circle_wallet_service.Mysql.Queue.Claims.{claim-HasUniqueIds}
use circle_wallet_service.Mysql.Queue.Requeues.{shift-HasUniqueIds, release-HasUniqueIds}
use circle_wallet_service.Mysql.Queue.Recoveries.{recover_stale-HasUniqueIds}

-- The calls that write the table or the counters.
pub data Call : Type 0 where
  creates updates : TransactionRecord → Call
  updates_if : TransactionRecord → TxnStatus → Call
  purges : ℕ → ℕ → Call
  clears : ℕ → ℕ → ℕ → Call
  claims : ℕ → String → Call
  reconciles resets : String → ℕ → Call
  recovers : ℕ → ℕ → Call
  shifts : ℕ → String → ℕ → Call
  releases : String → Call

abbrev kept : Database → Result StoreError Database → Database
kept db (ok t) = t
kept db (err e) = db

abbrev answered : Database → Result StoreError (Bool × Database) → Database
answered db (ok (b, t)) = t
answered db (err e) = db

unfoldable pub step : Engine → Call → Database → Database
step engine (creates rec) db = kept db (create engine rec db)
step engine (updates rec) db = kept db (update engine rec db)
step engine (updates_if rec expected) db = answered db (update_if_status engine rec expected db)
step engine (purges cutoff limit) db = (purge_terminal_older_than cutoff limit db).0
step engine (clears now cutoff limit) db = (clear_idempotency_older_than now cutoff limit db).0
step engine (claims now addr) db = (claim engine now addr db).1
step engine (reconciles addr chain_seq) db = reconcile addr chain_seq db
step engine (resets addr chain_seq) db = force_reset addr chain_seq db
step engine (recovers now older_than) db = (recover_stale engine now older_than db).1
step engine (shifts now addr failed_seq) db = (shift engine now addr failed_seq db).1
step engine (releases addr) db = (release engine addr db).1

unfoldable pub run : Engine → List Call → Database → Database
unfolding step
run engine [] db = db
run engine (c ∷ cs) db = run engine cs (step engine c db)

step-HasUniqueIds :
    (engine : Engine) (c : Call) (db : Database)
    → HasUniqueIds db.transactions
    → HasUniqueIds (step engine c db).transactions
unfolding step reconcile force_reset
step-HasUniqueIds engine (creates rec) db u = elim (Result-cases (create engine rec db)) [
  | inl (t, e) ↦ rw (step, e) (create-HasUniqueIds engine rec db t u e)
  | inr (why, e) ↦ rw (step, e) u
]
step-HasUniqueIds engine (updates rec) db u = elim (Result-cases (update engine rec db)) [
  | inl (t, e) ↦ rw (step, e) (update-HasUniqueIds engine rec db t u e)
  | inr (why, e) ↦ rw (step, e) u
]
step-HasUniqueIds engine (updates_if rec expected) db u =
    elim (Result-cases (update_if_status engine rec expected db)) [
      | inl ((b, t), e) ↦
          rw (step, e) (update_if_status-HasUniqueIds engine rec expected db t b u e)
      | inr (why, e) ↦ rw (step, e) u
    ]
step-HasUniqueIds engine (purges cutoff limit) db u = purge-HasUniqueIds cutoff limit db u
step-HasUniqueIds engine (clears now cutoff limit) db u = clear-HasUniqueIds now cutoff limit db u
step-HasUniqueIds engine (claims now addr) db u = claim-HasUniqueIds engine now addr db u
step-HasUniqueIds engine (reconciles addr chain_seq) db u = u
step-HasUniqueIds engine (resets addr chain_seq) db u = u
step-HasUniqueIds engine (recovers now older_than) db u =
    recover_stale-HasUniqueIds engine now older_than db u
step-HasUniqueIds engine (shifts now addr failed_seq) db u =
    shift-HasUniqueIds engine now addr failed_seq db u
step-HasUniqueIds engine (releases addr) db u = release-HasUniqueIds engine addr db u

-- Through any calls, in any order and whether they succeed or fail, no two rows come to share an id.
pub run_unique_ids :
    (engine : Engine) (calls : List Call) (db : Database)
    → HasUniqueIds db.transactions
    → HasUniqueIds (run engine calls db).transactions
unfolding run
run_unique_ids engine [] db u = u
run_unique_ids engine (c ∷ cs) db u =
    run_unique_ids engine cs (step engine c db) (step-HasUniqueIds engine c db u)

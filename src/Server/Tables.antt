-- ===== src/Server/Tables.antt =====
-- The store that cmd/server/main.go hands to the handlers: internal/store/mysql. A call of the database
-- runs, fails, or has its context cancelled.
use circle_wallet_service.Prelude.{ℕ, ◌≡◌, [], ◌∷◌, List, arith, Result, ok, err}
use circle_wallet_service.Store.{TransactionRecord, StoreError, database, cancelled}
use circle_wallet_service.Submitter.{Fault, runs, fails, cancels}
use circle_wallet_service.Handler.Backend.{Backend}
use circle_wallet_service.Mysql.{Engine, Database}
use circle_wallet_service.Mysql.Crud.{create, get, get_by_idempotency_key}

pub record Service : Type 0 where
  pub clock : ℕ
  pub tables : Database
  -- in the order of the calls; past its end every call runs
  pub faults : List Fault

abbrev ended :
    {A : Type 0}
    → List Fault
    → Service
    → Result StoreError (A × Database)
    → Result StoreError A × Service
ended fs s (ok (a, db)) = (ok a, record s { tables = db; faults = fs })
ended fs s (err e) = (err e, record s { faults = fs })

-- A call, by what it would do if it runs.
abbrev pub called :
    {A : Type 0}
    → List Fault
    → Service
    → Result StoreError (A × Database)
    → Result StoreError A × Service
called [] s r = ended [] s r
called (runs ∷ fs) s r = ended fs s r
called (fails ∷ fs) s r = (err database, record s { faults = fs })
called (cancels ∷ fs) s r = (err cancelled, record s { faults = fs })

abbrev done : Result StoreError Database → Result StoreError (Unit {0} × Database)
done (ok db) = ok (tt, db)
done (err e) = err e

abbrev pub over_mysql : Engine → Backend
over_mysql engine = record {
  World = Service;
  clock = λ s. s.clock;
  create = λ rec s. called s.faults s (done (create engine rec s.tables));
  get = λ id s. called s.faults s (ok (get id s.tables, s.tables));
  get_by_idempotency_key =
      λ key s. called s.faults s (ok (get_by_idempotency_key engine key s.tables, s.tables));
}

done_ok : (r : Result StoreError Database) (db : Database) → done r ≡ ok (tt, db) → r ≡ ok db
done_ok (ok t) db h = ground (arith, h)
done_ok (err e) db h = absurd (ground (arith, h))

called_ok :
    {A : Type 0} (fs : List Fault) (s s' : Service) (r : Result StoreError (A × Database)) (a : A)
    → called fs s r ≡ (ok a, s')
    → r ≡ ok (a, s'.tables)
called_ok [] s s' (ok (b, db)) a h = ground (arith, h)
called_ok [] s s' (err e) a h = absurd (ground (arith, h))
called_ok (runs ∷ fs) s s' (ok (b, db)) a h = ground (arith, h)
called_ok (runs ∷ fs) s s' (err e) a h = absurd (ground (arith, h))
called_ok (fails ∷ fs) s s' r a h = absurd (ground (arith, h))
called_ok (cancels ∷ fs) s s' r a h = absurd (ground (arith, h))

-- A row that was created is what `Create` has made of the tables.
pub create-runs :
    (engine : Engine) (rec : TransactionRecord) (s s' : Service)
    → (over_mysql engine).create rec s ≡ (ok tt, s')
    → create engine rec s.tables ≡ ok s'.tables
create-runs engine rec s s' h =
    done_ok (create engine rec s.tables) s'.tables
      (called_ok s.faults s s' (done (create engine rec s.tables)) tt h)

-- ===== src/Tests/AgreementExamples.antt =====
-- The agreement of the MySQL queue with the one in memory, on small tables.
use circle_wallet_service.Prelude.{
  ◌≡◌, refl, none, [], ◌∷◌, List, ◌==◌, eq_iff, Bool-cases, sym, arith, inl, inr, map, ok,
}
use circle_wallet_service.GoMap.{lookup, insert}
use circle_wallet_service.Store.{queued}
use circle_wallet_service.Memory.{MemoryStore}
use circle_wallet_service.Mysql.Rows.{scan_record}
use circle_wallet_service.Mysql.Tables.{row_with, update_counter}
use circle_wallet_service.Mysql.Contract.{Same, memory_view}
use circle_wallet_service.Mysql.Queue.{reconcile, release, subtract, commit}
use circle_wallet_service.Mysql.Queue.Claims.{mysql_view}
use circle_wallet_service.Mysql.Queue.Agreement.{
  Call, claims, releases, reconciles, AreFine, tables_run, memory_run, run_agrees,
}
use circle_wallet_service.Tests.MysqlExamples.{
  server, server-Subtracts, row_at, queued_rows, queued_rows-HasUniqueIds,
}

-- The same records in memory.
abbrev same_rows : MemoryStore
same_rows = record {
  records =
      ("t1", scan_record (row_at "t1" "0xa" "k1" queued none 10))
      ∷ ("t2", scan_record (row_at "t2" "0xa" "" queued none 20))
      ∷ [];
  idempotency_idx = ("k1", "t1") ∷ [];
  sequences = ("0xa", 7) ∷ [];
  ttl = 1000;
}

queued_rows-same : Same (mysql_view queued_rows) (memory_view same_rows)
unfolding row_with lookup
queued_rows-same = (
  λ id. elim (Bool-cases ("t1" == id)) [
    | inl e ↦ rw (sym ((eq_iff "t1" id).0 e)) refl
    | inr e ↦ ground (arith, e)
  ],
  λ addr. refl,
)

abbrev turns : List Call
turns = reconciles "0xa" 9 ∷ releases "0xa" ∷ claims 50000000000 "0xa" ∷ []

turns_fine : AreFine server turns queued_rows
unfolding reconcile release update_counter subtract lookup insert commit
turns_fine = ((7, refl), (omega arith, (omega arith, tt)))

run_agrees_example :
    ((tables_run server turns queued_rows).0 ≡ map ok (memory_run server turns same_rows).0)
    × Same
        (mysql_view (tables_run server turns queued_rows).1)
        (memory_view (memory_run server turns same_rows).1)
run_agrees_example =
    run_agrees server server-Subtracts turns queued_rows same_rows queued_rows-HasUniqueIds
      turns_fine queued_rows-same

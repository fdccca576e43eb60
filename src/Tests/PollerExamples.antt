-- ===== src/Tests/PollerExamples.antt =====
-- The theorems on the poller, with a node that has seen one transaction.
use circle_wallet_service.Prelude.{
  ◌≡◌, refl, Bool, true, none, some, [], ◌∷◌, String, ◌==◌, ◌+◌, ◌⊎◌, Result, ok, err, length,
  if◌then◌else◌,
}
use circle_wallet_service.Store.{TransactionRecord, processing}
use circle_wallet_service.Submitter.{World}
use circle_wallet_service.Poller.{Chain, confirmed_row, confirm_record, sweep_pages}
use circle_wallet_service.Poller.Confirm.{Untouched, Settled, confirm_settles, confirm_live}
use circle_wallet_service.GoMap.{lookup, insert}
use circle_wallet_service.Memory.{new_memory_store, create}
use circle_wallet_service.MemoryQueue.Invariant.{run, step, run-IsWell, new-IsWell, creates}
use circle_wallet_service.Poller.Sweep.{sweep_ends}
use circle_wallet_service.Tests.Samples.{held, later, flying}

abbrev seen : String → Result String Bool
seen hash = if hash == "0x1" then ok true else err "not found"

abbrev node : Chain
node = record { Txn = Bool; by_hash = seen; success = λ b. some b; user_vm_status = λ _. none }

abbrev sent : TransactionRecord
sent = record held { txn_hash = "0x1" }

abbrev now : World
now = record {
  clock = 40;
  store = record flying { records = ("t3", sent) ∷ ("t4", later) ∷ [] };
  faults = [];
  notified = [];
  broadcasts = [];
}

confirm_settles_example :
    Untouched now (confirm_record node sent processing now)
    ⊎ Settled node sent processing now (confirm_record node sent processing now)
confirm_settles_example = confirm_settles node sent processing now

sweep_ends_example :
    (sweep_pages node (length now.store.records + 1) 1 processing true 0 "" now).0 ≡ true
sweep_ends_example = sweep_ends node 1 processing true now refl

abbrev alone : World
alone = record now { store = run (creates 60 sent ∷ []) (new_memory_store 1000) }

is_sent : lookup "t3" alone.store.records ≡ some (record sent { created_at = 60; updated_at = 60 })
unfolding run step create new_memory_store lookup insert
is_sent = refl

confirm_live_example :
    ((confirm_record node sent processing alone).notified ≡ confirmed_row 40 sent ∷ [])
    × (lookup "t3" (confirm_record node sent processing alone).store.records
        ≡ some (confirmed_row 40 sent))
confirm_live_example =
    confirm_live node sent (record sent { created_at = 60; updated_at = 60 }) processing true alone
      (run-IsWell (creates 60 sent ∷ []) (new_memory_store 1000) (new-IsWell 1000)).indexed refl
      refl refl refl is_sent refl refl

-- ===== src/Tests/ArchiveExamples.antt =====
-- The theorems on the archiver, on a store with one old row.
use circle_wallet_service.Prelude.{◌≡◌, refl, false, [], ◌∷◌, arith}
use circle_wallet_service.Memory.{new_memory_store}
use circle_wallet_service.Memory.Purge.{aged_at}
use circle_wallet_service.MemoryQueue.Invariant.{run, creates}
use circle_wallet_service.Submitter.{World}
use circle_wallet_service.Archive.{Config, purge_stage}
use circle_wallet_service.Archive.Sweep.{purge_stage_clears}
use circle_wallet_service.Tests.Samples.{first, aging}

abbrev settings : Config
settings = record { retention = 20; idempotency_retention = 10; batch_size = 1 }

abbrev now : World
now = record { clock = 40; store = aging; faults = []; notified = []; broadcasts = [] }

abbrev filled : World
filled = record now { store = run (creates 60 first ∷ []) (new_memory_store 1000) }

purge_stage_clears_example : aged_at 20 "t5" (purge_stage settings now).1.store ≡ false
purge_stage_clears_example = purge_stage_clears settings now "t5" (omega arith) refl

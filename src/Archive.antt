-- ===== src/Archive.antt =====
-- internal/archive/archiver.go: the sweep that clears old idempotency keys and deletes old rows, in
-- batches. The ticker, the logs and the end of the context are left out.
pub mod Sweep
pub mod Keeps
use circle_wallet_service.Prelude.{
  ℕ, zero, suc, ◌+◌, ◌-◌, ◌*◌, Bool, true, false, ltb, nat_eq, length, if◌then◌else◌, Result, ok,
  err,
}
use circle_wallet_service.Store.{StoreError}
use circle_wallet_service.Memory.{
  MemoryStore, clear_idempotency_older_than, purge_terminal_older_than,
}
use circle_wallet_service.Submitter.{World, attempt}

-- Durations in nanoseconds; zero stands for every value that is not positive.
pub record Config : Type 0 where
  pub retention : ℕ
  pub idempotency_retention : ℕ
  pub batch_size : ℕ

or_else : ℕ → ℕ → ℕ
or_else n default = if nat_eq n 0 then default else n

abbrev hour : ℕ
hour = 3600000000000

-- `New`: its defaults.
unfoldable pub new : Config → Config
unfolding or_else
new cfg = record {
  retention = or_else cfg.retention (30 * 24 * hour);
  idempotency_retention = or_else cfg.idempotency_retention (7 * 24 * hour);
  batch_size = or_else cfg.batch_size 1000;
}

-- The answer of a method that changes the store and counts, as an operation of the database.
abbrev pub counted : MemoryStore × ℕ → Result StoreError (ℕ × MemoryStore)
counted (s, n) = ok (n, s)

pub clear_batch : ℕ → ℕ → World → Result StoreError ℕ × World
clear_batch cutoff size = attempt (λ s. counted (clear_idempotency_older_than cutoff size s))

pub purge_batch : ℕ → ℕ → World → Result StoreError ℕ × World
purge_batch cutoff size = attempt (λ s. counted (purge_terminal_older_than cutoff size s))

after_batch : ℕ → (World → Bool × World) → Result StoreError ℕ × World → Bool × World
after_batch size again (err e, w) = (true, w)
after_batch size again (ok n, w) = let rest = again w in if ltb n size then (true, w) else rest

-- One loop of the sweep, on fuel: it ends at an error or at a short batch. The answer is whether it
-- ended.
unfoldable pub batches : ℕ → ℕ → (World → Result StoreError ℕ × World) → World → Bool × World
unfolding after_batch
batches zero size op w = (false, w)
batches (suc fuel) size op w = after_batch size (batches fuel size op) (op w)

-- The loop over the keys, then the loop over the rows. Each batch but the last empties a full batch of
-- keys, or of rows.
unfoldable pub clear_stage : Config → World → Bool × World
clear_stage cfg w =
    batches (length w.store.idempotency_idx + 1) cfg.batch_size
      (clear_batch (w.clock - cfg.idempotency_retention) cfg.batch_size) w

unfoldable pub purge_stage : Config → World → Bool × World
purge_stage cfg w =
    batches (length w.store.records + 1) cfg.batch_size
      (purge_batch (w.clock - cfg.retention) cfg.batch_size) w

unfoldable pub sweep : Config → World → World
sweep cfg w = (purge_stage cfg (clear_stage cfg w).1).1

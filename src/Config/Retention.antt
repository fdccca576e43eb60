-- ===== src/Config/Retention.antt =====
-- From the settings to the archiver: the part of `run` in cmd/server/main.go that makes it.
use circle_wallet_service.Prelude.{
  ℕ, ◌-◌, ◌*◌, ◌<◌, ◌≡◌, true, String, arith, ltb, leb, ◌&&◌, ◌⊎◌, inl, inr, Bool-cases,
  if◌then◌else◌, u64,
}
use circle_wallet_service.GoMap.{lookup}
use circle_wallet_service.Memory.Index.{IsIndexed}
use circle_wallet_service.Memory.Purge.{aged_at}
use circle_wallet_service.Submitter.{World}
use circle_wallet_service.Archive
use circle_wallet_service.Archive.{new, purge_stage, clear_stage}
use circle_wallet_service.Archive.Sweep.{clear_stage_ends, purge_stage_ends}
use circle_wallet_service.Archive.Keeps.{purge_stage_keeps}
use circle_wallet_service.Config.{Config}
use circle_wallet_service.Config.Getters.{
  positive_or_pos, archive_retention_days, archive_idempotency_retention_days, archive_batch_size,
}

-- 24 * time.Hour
abbrev pub day : ℕ
day = 86400000000000

-- time.Duration(n) * day, which wraps around like an int64; zero stands for what is not positive.
unfoldable pub days : ℕ → ℕ
days n = if ltb (u64 (n * day)) 9223372036854775808 then u64 (n * day) else 0

unfoldable pub archive_config : Config → Archive.Config
archive_config c = record {
  retention = days (archive_retention_days c);
  idempotency_retention = days (archive_idempotency_retention_days c);
  batch_size = archive_batch_size c;
}

new_batch_size : (cfg : Archive.Config) → 0 < (new cfg).batch_size
unfolding new
new_batch_size cfg = ground arith

-- How long a row is kept: the days that the settings ask for, up to 106751; above, the product as an
-- int64 holds it, or 30 days where that is not positive.
unfoldable pub kept_for : Config → ℕ
kept_for c =
    let n = archive_retention_days c in
    let wrapped = u64 (n * day) in
    if leb n 106751
    then n * day
    else if ltb 0 wrapped && ltb wrapped 9223372036854775808
    then wrapped
    else 30 * day

new_retention : (c : Config) → (new (archive_config c)).retention ≡ kept_for c
unfolding new archive_config days kept_for
new_retention c =
    let some_days : 0 < archive_retention_days c =
      unfold archive_retention_days in positive_or_pos c.archive.retention_days 30 (omega arith) in
    ground (arith, some_days)

-- Whatever the settings say, both loops of the archiver end, from an in-memory store whose index
-- is in order; and the loop that deletes leaves a row alone, unless the row is terminal and was
-- last written longer ago than the days of retention. Above 106751 days, where the product
-- overflows, this is the time that the wrapped product stands for, or 30 days where it is not
-- positive.
pub archiver_keeps :
    (c : Config) (w : World) (id : String)
    → IsIndexed w.store
    → ((clear_stage (new (archive_config c)) w).0 ≡ true)
      × (((purge_stage (new (archive_config c)) w).0 ≡ true)
          × ((aged_at (w.clock - kept_for c) id w.store ≡ true)
              ⊎ (lookup id (purge_stage (new (archive_config c)) w).1.store.records
                  ≡ lookup id w.store.records)))
archiver_keeps c w id v = (
  (clear_stage_ends (new (archive_config c)) w (new_batch_size (archive_config c)) v).0,
  (
    purge_stage_ends (new (archive_config c)) w (new_batch_size (archive_config c)),
    elim (Bool-cases (aged_at (w.clock - kept_for c) id w.store)) [
      | inl aged ↦ inl aged
      | inr young ↦ inr (
          purge_stage_keeps (new (archive_config c)) w id (new_batch_size (archive_config c))
            (rw (new_retention c) young))
    ],
  ),
)

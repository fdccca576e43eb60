-- ===== src/Config/Getters.antt =====
-- The getters of internal/config/config.go that do more than read a field.
use circle_wallet_service.Prelude.{
  ℕ, ◌<◌, ℤ, is_positive, pos_part, positive-pos_part, Bool-cases, inl, inr, if◌then◌else◌,
}
use circle_wallet_service.Config.{Config, default_max_active_sender_workers}

-- if n > 0 { return n }; return fallback
unfoldable pub positive_or : ℤ → ℕ → ℕ
positive_or n fallback = if is_positive n then pos_part n else fallback

unfoldable pub poller_rpc_burst : Config → ℤ
poller_rpc_burst c =
    if is_positive c.poller.rpc_burst then c.poller.rpc_burst else c.poller.rpc_requests_per_second

unfoldable pub poller_page_size : Config → ℕ
unfolding positive_or
poller_page_size c = positive_or c.poller.page_size 500

unfoldable pub poller_sweep_concurrency : Config → ℕ
unfolding positive_or poller_rpc_burst
poller_sweep_concurrency c =
    positive_or c.poller.sweep_concurrency (positive_or (poller_rpc_burst c) 4)

unfoldable pub archive_tick_seconds : Config → ℕ
unfolding positive_or
archive_tick_seconds c = positive_or c.archive.tick_seconds 300

unfoldable pub archive_retention_days : Config → ℕ
unfolding positive_or
archive_retention_days c = positive_or c.archive.retention_days 30

unfoldable pub archive_idempotency_retention_days : Config → ℕ
unfolding positive_or
archive_idempotency_retention_days c = positive_or c.archive.idempotency_retention_days 7

unfoldable pub archive_batch_size : Config → ℕ
unfolding positive_or
archive_batch_size c = positive_or c.archive.batch_size 1000

unfoldable pub submitter_max_active_sender_workers : Config → ℕ
unfolding positive_or
submitter_max_active_sender_workers c =
    positive_or c.submitter.max_active_sender_workers default_max_active_sender_workers

unfoldable pub webhook_delivery_concurrency : Config → ℕ
unfolding positive_or
webhook_delivery_concurrency c = positive_or c.webhook.delivery_concurrency 1

pub positive_or_pos : (n : ℤ) (fallback : ℕ) → 0 < fallback → 0 < positive_or n fallback
unfolding positive_or
positive_or_pos n fallback h = elim (Bool-cases (is_positive n)) [
  | inl e ↦ rw e (positive-pos_part n e)
  | inr e ↦ rw e h
]

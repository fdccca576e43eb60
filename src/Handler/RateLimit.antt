-- ===== src/Handler/RateLimit.antt =====
-- internal/handler/ratelimit.go: one token bucket before the handlers. The bucket is a parameter.
use circle_wallet_service.Prelude.{ℕ, Bool, true, ℤ, pos_part, is_positive, if◌then◌else◌}

-- rate.NewLimiter by rate and burst, and Allow at a time.
pub record Limiter : Type 1 where
  pub Bucket : Type 0
  pub new_limiter : ℕ → ℕ → Bucket
  pub allow : ℕ → Bucket → Bool × Bucket

-- if n < 1 { n = 1 }
unfoldable pub at_least_one : ℤ → ℕ
at_least_one n = if is_positive n then pos_part n else 1

module _ (limiter : Limiter) where
  open limiter use {Bucket, new_limiter, allow}

  unfoldable pub new_bucket : ℤ → ℤ → Bucket
  unfolding at_least_one
  new_bucket requests_per_second burst =
      new_limiter (at_least_one requests_per_second) (at_least_one burst)

  -- `Wrap`: whether the request goes on.
  unfoldable pub passes : Bool → ℕ → Bucket → Bool × Bucket
  passes enabled now bucket = if enabled then allow now bucket else (true, bucket)

-- ===== src/Handler/Backend.antt =====
-- The part of the interface Store of internal/store/store.go that the handlers of internal/handler
-- call, with the clock that they read.
use circle_wallet_service.Prelude.{ℕ, Option, String, Result}
use circle_wallet_service.Store.{TransactionRecord, StoreError}

pub record Backend : Type 1 where
  pub World : Type 0
  pub clock : World → ℕ
  pub create : TransactionRecord → World → Result StoreError (Unit {0}) × World
  pub get : String → World → Result StoreError (Option TransactionRecord) × World
  pub get_by_idempotency_key : String → World → Result StoreError (Option TransactionRecord) × World

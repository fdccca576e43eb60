-- ===== src/Handler/Execute/Replay.antt =====
-- The idempotency of `Execute` in internal/handler/execute.go.
use circle_wallet_service.Prelude.{
  ℕ, ◌≡◌, refl, false, true, some, [], String, ◌==◌, Result, ok, arith, ap,
}
use circle_wallet_service.GoMap.{lookup}
use circle_wallet_service.Store.{TransactionRecord, StoreError}
use circle_wallet_service.Memory.{MemoryStore, create, get, get_by_idempotency_key}
use circle_wallet_service.Memory.Crud.{get_lem}
use circle_wallet_service.Memory.Index.{IsIndexed}
use circle_wallet_service.Submitter.{World, attempt, only}
use circle_wallet_service.Handler.Backend.{Backend}
use circle_wallet_service.Handler.WebhookUrl.{Net}
use circle_wallet_service.Handler.Execute.{
  Codec, ExecuteRequest, accepts, effective_key, execute, looked_for,
}

-- The in-memory store.
abbrev pub over_memory : Backend
over_memory = record {
  World = World;
  clock = λ w. w.clock;
  create = λ rec w. attempt (λ s. only (create w.clock rec s)) w;
  get = λ id w. attempt (λ s. ok (get id s, s)) w;
  get_by_idempotency_key = λ key w. attempt (λ s. ok (get_by_idempotency_key key s, s)) w;
}

attempt_open :
    {A : Type 0} (op : MemoryStore → Result StoreError (A × MemoryStore)) (w : World) (a : A)
    → w.faults ≡ []
    → op w.store ≡ ok (a, w.store)
    → attempt op w ≡ (ok a, w)
unfolding attempt
attempt_open op w a calm e = ground (arith, calm, e)

module _ (net : Net) (codec : Codec) (expiration : ℕ) where
  open codec use {Payload}

  -- With the index in order and the database up, a request whose key a stored record carries is
  -- answered with that record, marked as replayed, whatever else the request says; nothing is stored.
  pub execute_replays :
      (fresh_id : String) (req : ExecuteRequest Payload) (header id : String) (w : World)
      (rec : TransactionRecord)
      → IsIndexed w.store
      → w.faults ≡ []
      → (effective_key req.idempotency_key header == "") ≡ false
      → lookup id w.store.records ≡ some rec
      → rec.idempotency_key ≡ effective_key req.idempotency_key header
      → execute over_memory net codec expiration fresh_id (ok req) header w ≡ (accepts true rec, w)
  unfolding execute looked_for
  execute_replays fresh_id req header id w rec v calm keyed stored mine =
      let found : get_by_idempotency_key (effective_key req.idempotency_key header) w.store
          ≡ some rec =
        unfold get_by_idempotency_key in
        ground (
          arith,
          get_lem id w.store,
          stored,
          mine,
          keyed,
          v.complete id (effective_key req.idempotency_key header),
        ) in
      let there =
        attempt_open (λ s. ok (get_by_idempotency_key key s, s)) w (some rec) calm
          (ap (λ o. ok (o, w.store)) found) in
      rw (keyed, there) refl
    where
      key : String
      key = effective_key req.idempotency_key header

-- ===== src/Archive/Sweep.antt =====
-- The two loops of `sweep` in internal/archive/archiver.go.
use circle_wallet_service.Prelude.{
  ℕ, zero, suc, ◌+◌, ◌-◌, ◌≤◌, ◌<◌, ◌≡◌, refl, ap, Bool, true, false, inl, inr, [], String, arith,
  ltb, length, Bool-cases, Result, ok, err,
}
use circle_wallet_service.Store.{StoreError}
use circle_wallet_service.Memory.{purge_terminal_older_than, clear_idempotency_older_than}
use circle_wallet_service.Memory.Index.{IsIndexed}
use circle_wallet_service.Memory.Sweeps.{clear-IsIndexed}
use circle_wallet_service.Memory.Clears.{clear_bounded}
use circle_wallet_service.Memory.Purge.{aged_at, purge_bounded, purge_clears}
use circle_wallet_service.Submitter.{World}
use circle_wallet_service.Submitter.Calls.{Outcome, ran, refused, attempt-Outcome, attempt-calm}
use circle_wallet_service.Archive.{
  Config, counted, purge_batch, clear_batch, after_batch, batches, purge_stage, clear_stage,
}

module _ (size : ℕ) (op : World → Result StoreError ℕ × World) (Inv Q : World → Type 0)
    (weight : World → ℕ) where
  -- What one batch must do for the loop to end in `Q`.
  abbrev pub Good : World → Result StoreError ℕ × World → Type 0
  Good w (err e, w') = Q w'
  Good w (ok n, w') = Inv w' × (weight w' + n ≤ weight w) × (n < size → Q w')

  abbrev pub EndsIn : Bool × World → Type 0
  EndsIn (b, w') = (b ≡ true) × Q w'

  after_batch-EndsIn :
      (fuel : ℕ) (again : World → Bool × World) (w : World) (r : Result StoreError ℕ × World)
      → ((v : World) → Inv v → weight v < fuel → EndsIn (again v))
      → 0 < size
      → Good w r
      → weight w < suc fuel
      → EndsIn (after_batch size again r)
  unfolding after_batch
  after_batch-EndsIn fuel again w (err e, w') rest pos g few = (refl, g)
  after_batch-EndsIn fuel again w (ok n, w') rest pos g few = elim (Bool-cases (ltb n size)) [
    | inl b ↦ rw b (refl, g.2 (ground (arith, b)))
    | inr b ↦ rw b (rest w' g.0 (ground (arith, b, pos, few, g.1)))
  ]

  pub batches-EndsIn :
      (pos : 0 < size) (good : (w : World) → Inv w → Good w (op w)) (fuel : ℕ) (w : World)
      → Inv w
      → weight w < fuel
      → EndsIn (batches fuel size op w)
  unfolding batches
  batches-EndsIn pos good zero w v few = absurd (omega (arith, few))
  batches-EndsIn pos good (suc fuel) w v few =
      after_batch-EndsIn fuel (batches fuel size op) w (op w) (batches-EndsIn pos good fuel) pos
        (good w v) few

abbrev rows : World → ℕ
rows w = length w.store.records

purge_batch-Good :
    (cutoff size : ℕ) (w : World)
    → 0 < size
    → Good size
        (purge_batch cutoff size)
        (λ _. Unit {0})
        (λ _. Unit {0})
        rows
        w
        (purge_batch cutoff size w)
unfolding purge_batch
purge_batch-Good cutoff size w pos = go (attempt-Outcome _ w)
  where
    go :
        {r : Result StoreError ℕ × World}
        → Outcome (λ s. counted (purge_terminal_older_than cutoff size s)) w r
        → Good size (purge_batch cutoff size) (λ _. Unit {0}) (λ _. Unit {0}) rows w r
    go (ran fs n s e) =
        let ne : (purge_terminal_older_than cutoff size w.store).1 ≡ n = cc in
        let se : (purge_terminal_older_than cutoff size w.store).0 ≡ s = cc in
        (
          tt,
          ground (arith, purge_bounded cutoff size w.store pos, ne, ap (λ m. length m.records) se),
          λ _. tt,
        )
    go (refused fs e) = tt

-- The loop that deletes old rows ends, from any store and any outcome of the database calls, within
-- as many batches as there are rows, and one more, if the batch size is not zero.
pub purge_stage_ends :
    (cfg : Config) (w : World) → 0 < cfg.batch_size → (purge_stage cfg w).0 ≡ true
unfolding purge_stage
purge_stage_ends cfg w pos =
    (batches-EndsIn cfg.batch_size (purge_batch (w.clock - cfg.retention) cfg.batch_size)
      (λ _. Unit {0}) (λ _. Unit {0}) rows pos
      (λ v _. purge_batch-Good (w.clock - cfg.retention) cfg.batch_size v pos)
      (length w.store.records + 1) w tt (omega arith)).0

abbrev Faultless : World → Type 0
Faultless w = w.faults ≡ []

abbrev Cleared : ℕ → World → Type 0
Cleared cutoff w = (id : String) → aged_at cutoff id w.store ≡ false

purge_batch-calm :
    (cutoff size : ℕ) (w : World)
    → 0 < size
    → Faultless w
    → Good size
        (purge_batch cutoff size)
        Faultless
        (Cleared cutoff)
        rows
        w
        (purge_batch cutoff size w)
unfolding purge_batch
purge_batch-calm cutoff size w pos calm =
    let (t, n) = purge_terminal_older_than cutoff size w.store in
    rw (attempt-calm (λ s. counted (purge_terminal_older_than cutoff size s)) w n t calm refl) (
      refl,
      (purge_bounded cutoff size w.store pos).0,
      λ short id. purge_clears cutoff size w.store id (inl short),
    )

-- With the database up, the loop that deletes old rows leaves no terminal row that was last written
-- before the retention, however many batches that takes.
pub purge_stage_clears :
    (cfg : Config) (w : World) (id : String)
    → 0 < cfg.batch_size
    → w.faults ≡ []
    → aged_at (w.clock - cfg.retention) id (purge_stage cfg w).1.store ≡ false
unfolding purge_stage
purge_stage_clears cfg w id pos calm =
    (batches-EndsIn cfg.batch_size (purge_batch (w.clock - cfg.retention) cfg.batch_size) Faultless
        (Cleared (w.clock - cfg.retention)) rows pos
        (λ v c. purge_batch-calm (w.clock - cfg.retention) cfg.batch_size v pos c)
        (length w.store.records + 1) w calm (omega arith)).1
      id

abbrev names : World → ℕ
names w = length w.store.idempotency_idx

abbrev Ordered : World → Type 0
Ordered w = IsIndexed w.store

clear_batch-Good :
    (cutoff size : ℕ) (w : World) {r : Result StoreError ℕ × World}
    → Ordered w
    → Outcome (λ s. counted (clear_idempotency_older_than cutoff size s)) w r
    → Good size (clear_batch cutoff size) Ordered Ordered names w r
clear_batch-Good cutoff size w v (ran fs n s e) =
    let ne : (clear_idempotency_older_than cutoff size w.store).1 ≡ n = cc in
    let se : (clear_idempotency_older_than cutoff size w.store).0 ≡ s = cc in
    let still : IsIndexed s = rw se at (clear-IsIndexed cutoff size w.store v) in
    (
      still,
      ground
          (arith, clear_bounded cutoff size w.store v, ne, ap (λ m. length m.idempotency_idx) se),
      λ _. still,
    )
clear_batch-Good cutoff size w v (refused fs e) = v

-- From a store whose index is in order, the loop that clears idempotency keys ends within as many
-- batches as there are keys, and one more, if the batch size is not zero; the index stays in order.
pub clear_stage_ends :
    (cfg : Config) (w : World)
    → 0 < cfg.batch_size
    → IsIndexed w.store
    → ((clear_stage cfg w).0 ≡ true) × IsIndexed (clear_stage cfg w).1.store
unfolding clear_stage
clear_stage_ends cfg w pos v =
    batches-EndsIn cfg.batch_size (clear_batch (w.clock - cfg.idempotency_retention) cfg.batch_size)
      Ordered Ordered names pos
      (λ u i.
        unfold clear_batch in
        clear_batch-Good (w.clock - cfg.idempotency_retention) cfg.batch_size u i
          (attempt-Outcome _ u))
      (length w.store.idempotency_idx + 1) w v (omega arith)

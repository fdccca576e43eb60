-- ===== src/Archive/Keeps.antt =====
-- The rows that the loop of internal/archive/archiver.go over old rows leaves alone.
use circle_wallet_service.Prelude.{
  ℕ, ◌+◌, ◌-◌, ◌<◌, ◌≡◌, refl, ap, sym, ◌∙◌, false, inl, inr, String, arith, length, Result,
}
use circle_wallet_service.GoMap.{lookup}
use circle_wallet_service.Store.{StoreError}
use circle_wallet_service.Memory.{purge_terminal_older_than}
use circle_wallet_service.Memory.Purge.{aged_at, purge_bounded, purge_keeps}
use circle_wallet_service.Submitter.{World}
use circle_wallet_service.Submitter.Calls.{Outcome, ran, refused, attempt-Outcome}
use circle_wallet_service.Archive.{Config, counted, purge_batch, purge_stage}
use circle_wallet_service.Archive.Sweep.{Good, batches-EndsIn}

-- The row under an id.
abbrev Still : String → World → World → Type 0
Still id w v = lookup id v.store.records ≡ lookup id w.store.records

abbrev rows : World → ℕ
rows w = length w.store.records

purge_batch-Still :
    (cutoff size : ℕ) (id : String) (w v : World)
    → 0 < size
    → aged_at cutoff id w.store ≡ false
    → Still id w v
    → Good size
        (purge_batch cutoff size)
        (Still id w)
        (Still id w)
        rows
        v
        (purge_batch cutoff size v)
unfolding purge_batch
purge_batch-Still cutoff size id w v pos young same = go (attempt-Outcome _ v)
  where
    go :
        {r : Result StoreError ℕ × World}
        → Outcome (λ s. counted (purge_terminal_older_than cutoff size s)) v r
        → Good size (purge_batch cutoff size) (Still id w) (Still id w) rows v r
    go (ran fs n s e) =
        let ne : (purge_terminal_older_than cutoff size v.store).1 ≡ n = cc in
        let se : (purge_terminal_older_than cutoff size v.store).0 ≡ s = cc in
        let there : lookup id s.records ≡ lookup id w.store.records =
          (elim (purge_keeps cutoff size v.store id).0
            as (λ _. lookup id s.records ≡ lookup id w.store.records) [
              | inl aged ↦ absurd (ground (arith, aged, young, same))
              | inr e2 ↦ ap (λ m. lookup id m.records) (sym se) ∙ e2 ∙ same
            ]) in
        (
          there,
          ground (arith, purge_bounded cutoff size v.store pos, ne, ap (λ m. length m.records) se),
          λ _. there,
        )
    go (refused fs e) = same

pub purge_stage_keeps :
    (cfg : Config) (w : World) (id : String)
    → 0 < cfg.batch_size
    → aged_at (w.clock - cfg.retention) id w.store ≡ false
    → lookup id (purge_stage cfg w).1.store.records ≡ lookup id w.store.records
unfolding purge_stage
purge_stage_keeps cfg w id pos young =
    (batches-EndsIn cfg.batch_size (purge_batch (w.clock - cfg.retention) cfg.batch_size)
      (Still id w) (Still id w) rows pos
      (λ v same. purge_batch-Still (w.clock - cfg.retention) cfg.batch_size id w v pos young same)
      (length w.store.records + 1) w refl (omega arith)).1

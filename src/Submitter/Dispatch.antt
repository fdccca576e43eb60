-- ===== src/Submitter/Dispatch.antt =====
-- The dispatcher of internal/submitter/submitter.go: one worker per sender, up to a cap, and the
-- recovery of stale rows on its own ticker.
pub mod Bounds
use circle_wallet_service.Prelude.{
  ℕ, ◌≡◌, Bool, true, false, not, ◌||◌, List, [], ◌∷◌, String, ◌==◌, leb, length, if◌then◌else◌,
  Result, ok, err,
}
use circle_wallet_service.Store.{StoreError}
use circle_wallet_service.MemoryQueue.{list_queued_senders, recover_stale_processing}
use circle_wallet_service.Submitter.{World, attempt}

-- The map from senders to their workers, as the list of its keys.
pub record Dispatcher : Type 0 where
  pub world : World
  pub workers : List String
  pub stopped : Bool

-- if _, running := workers[sender]; running
unfoldable pub is_running : String → List String → Bool
is_running sender [] = false
is_running sender (addr ∷ workers) = addr == sender || is_running sender workers

-- One sender of the list: its worker is started, unless it runs.
unfoldable pub started : String → List String → List String
started sender workers = if is_running sender workers then workers else sender ∷ workers

-- The loop over the senders, which stops at the cap.
unfoldable pub spawn_all : ℕ → List String → List String → List String
unfolding started
spawn_all cap [] workers = workers
spawn_all cap (sender ∷ senders) workers =
    let more = spawn_all cap senders (started sender workers) in
    if leb cap (length workers) then workers else more

-- delete(workers, addr), as the worker ends
unfoldable pub without_worker : String → List String → List String
without_worker addr [] = []
without_worker addr (w ∷ workers) =
    let rest = without_worker addr workers in if w == addr then rest else w ∷ rest

listed : ℕ → Result StoreError (List String) × World → Dispatcher → Dispatcher
listed cap (err e, w) d = record d { world = w }
listed cap (ok senders, w) d = record d { world = w; workers = spawn_all cap senders d.workers }

-- One tick of `Run`.
unfoldable pub tick : ℕ → Dispatcher → Dispatcher
unfolding listed
tick cap d = listed cap (attempt (λ s. ok (list_queued_senders s, s)) d.world) d

-- One tick of `recoverLoop`.
unfoldable pub recover_tick : ℕ → Dispatcher → Dispatcher
recover_tick stale d = record d {
  world =
      (attempt (λ s. let (s', n) = recover_stale_processing d.world.clock stale s in ok (n, s'))
        d.world).1;
}

pub data Step (cap stale : ℕ) (d : Dispatcher) : Dispatcher → Type 0 where
  ticks : d.stopped ≡ false → Step cap stale d (tick cap d)
  recovers : d.stopped ≡ false → Step cap stale d (recover_tick stale d)
  -- the worker of a sender ends, and is taken off the map
  ends : (addr : String) → Step cap stale d (record d { workers = without_worker addr d.workers })
  -- the context is cancelled
  stops : Step cap stale d (record d { stopped = true })
  -- the workers, and the rest of the service
  elsewhere : (w : World) → Step cap stale d (record d { world = w })

pub data Reach (cap stale : ℕ) (w : World) : Dispatcher → Type 0 where
  here : Reach cap stale w (record { world = w; workers = []; stopped = false })
  next : {d e : Dispatcher} → Reach cap stale w d → Step cap stale d e → Reach cap stale w e

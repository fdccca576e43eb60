-- ===== src/Submitter/Dispatch/Bounds.antt =====
-- How many workers internal/submitter/submitter.go runs, and for whom.
use circle_wallet_service.Prelude.{
  ℕ, ◌≤◌, ◌<◌, ◌≡◌, refl, ◌⊎◌, inl, inr, true, false, List, [], ◌∷◌, ◌++◌, String, ◌==◌, eq_refl,
  arith, leb, length, Bool-cases, Result, ok, err,
}
use circle_wallet_service.Store.{StoreError}
use circle_wallet_service.Submitter.{World, attempt}
use circle_wallet_service.MemoryQueue.{list_queued_senders}
use circle_wallet_service.Config.{Config}
use circle_wallet_service.Config.Getters.{submitter_max_active_sender_workers, positive_or_pos}
use circle_wallet_service.Submitter.Dispatch.{
  Dispatcher, is_running, started, spawn_all, without_worker, listed, tick, recover_tick, ticks,
  recovers, ends, stops, elsewhere, Reach, here, next,
}

-- No sender has two workers.
abbrev pub IsDistinct : List String → Type 0
IsDistinct [] = Unit
IsDistinct (w ∷ ws) = (is_running w ws ≡ false) × IsDistinct ws

abbrev pub IsWell : ℕ → List String → Type 0
IsWell cap ws = (length ws ≤ cap) × IsDistinct ws

started-IsWell :
    (cap : ℕ) (sender : String) (ws : List String)
    → length ws < cap
    → IsDistinct ws
    → IsWell cap (started sender ws)
unfolding started
started-IsWell cap sender ws room d = elim (Bool-cases (is_running sender ws)) [
  | inl e ↦ rw e (omega (arith, room), d)
  | inr e ↦ rw e (omega (arith, room), (e, d))
]

spawn_all-IsWell :
    (cap : ℕ) (senders ws : List String) → IsWell cap ws → IsWell cap (spawn_all cap senders ws)
unfolding spawn_all
spawn_all-IsWell cap [] ws v = v
spawn_all-IsWell cap (s ∷ ss) ws v = elim (Bool-cases (leb cap (length ws))) [
  | inl e ↦ rw e v
  | inr e ↦
      rw e
        (spawn_all-IsWell cap ss (started s ws) (started-IsWell cap s ws (ground (arith, e)) v.1))
]

without_worker-absent :
    (addr w : String) (ws : List String)
    → is_running w ws ≡ false
    → is_running w (without_worker addr ws) ≡ false
unfolding without_worker is_running
without_worker-absent addr w [] h = refl
without_worker-absent addr w (x ∷ ws) h = ground (arith, h, without_worker-absent addr w ws)

length-without_worker-le :
    (addr : String) (ws : List String) → length (without_worker addr ws) ≤ length ws
unfolding without_worker
length-without_worker-le addr [] = omega arith
length-without_worker-le addr (w ∷ ws) = ground (arith, length-without_worker-le addr ws)

without_worker-IsDistinct :
    (addr : String) (ws : List String) → IsDistinct ws → IsDistinct (without_worker addr ws)
unfolding without_worker
without_worker-IsDistinct addr [] d = tt
without_worker-IsDistinct addr (w ∷ ws) d = elim (Bool-cases (w == addr)) [
  | inl e ↦ rw e (without_worker-IsDistinct addr ws d.1)
  | inr e ↦ rw e (without_worker-absent addr w ws d.0, without_worker-IsDistinct addr ws d.1)
]

listed-IsWell :
    (cap : ℕ) (r : Result StoreError (List String) × World) (d : Dispatcher)
    → IsWell cap d.workers
    → IsWell cap (listed cap r d).workers
unfolding listed
listed-IsWell cap (ok senders, w) d v = spawn_all-IsWell cap senders d.workers v
listed-IsWell cap (err e, w) d v = v

-- However ticks, ends of workers, recoveries and the rest of the service interleave, there are never
-- more workers than the cap, and no sender has two.
pub Reach-IsWell :
    (cap stale : ℕ) (w : World) (d : Dispatcher) → Reach cap stale w d → IsWell cap d.workers
unfolding tick recover_tick
Reach-IsWell cap stale w d here = (omega arith, tt)
Reach-IsWell cap stale w d (next r (ticks live)) =
    listed-IsWell cap _ _ (Reach-IsWell cap stale w _ r)
Reach-IsWell cap stale w d (next r (recovers live)) = Reach-IsWell cap stale w _ r
Reach-IsWell cap stale w d (next r (ends addr)) =
    let (few, once) = Reach-IsWell cap stale w _ r in
    (omega (arith, few, length-without_worker-le addr _), without_worker-IsDistinct addr _ once)
Reach-IsWell cap stale w d (next r stops) = Reach-IsWell cap stale w _ r
Reach-IsWell cap stale w d (next r (elsewhere v)) = Reach-IsWell cap stale w _ r

started-running :
    (x sender : String) (ws : List String)
    → is_running x ws ≡ true
    → is_running x (started sender ws) ≡ true
unfolding started is_running
started-running x sender ws h = ground (arith, h)

spawn_all-running :
    (cap : ℕ) (x : String) (senders ws : List String)
    → is_running x ws ≡ true
    → is_running x (spawn_all cap senders ws) ≡ true
unfolding spawn_all
spawn_all-running cap x [] ws h = h
spawn_all-running cap x (s ∷ ss) ws h =
    ground (arith, h, spawn_all-running cap x ss (started s ws) (started-running x s ws h))

starts_it : (sender : String) (ws : List String) → is_running sender (started sender ws) ≡ true
unfolding started is_running
starts_it sender ws = ground (arith, eq_refl sender)

spawn_all-reaches :
    (cap : ℕ) (before : List String) (sender : String) (after ws : List String)
    → IsWell cap ws
    → (is_running sender (spawn_all cap (before ++ sender ∷ after) ws) ≡ true)
      ⊎ ((length (spawn_all cap (before ++ sender ∷ after) ws) ≡ cap)
          × (spawn_all cap (before ++ sender ∷ after) ws ≡ spawn_all cap before ws))
unfolding spawn_all
spawn_all-reaches cap [] sender after ws v = elim (Bool-cases (leb cap (length ws))) [
  | inl e ↦ inr (rw (e, spawn_all) (ground (arith, e, v.0), refl))
  | inr e ↦ inl (
      rw (e, spawn_all)
        (spawn_all-running cap sender after (started sender ws) (starts_it sender ws)))
]
spawn_all-reaches cap (b ∷ bs) sender after ws v = elim (Bool-cases (leb cap (length ws))) [
  | inl e ↦ inr (rw (e, spawn_all) (ground (arith, e, v.0), refl))
  | inr e ↦
      rw (e, spawn_all)
        (spawn_all-reaches cap bs sender after (started b ws)
          (started-IsWell cap b ws (ground (arith, e)) v.1))
]

-- With the cap of any settings, a tick that can list the senders leaves each of them with a worker,
-- unless the cap is reached, and then the tick did no more than start workers for the senders listed
-- before it. The cap is never zero.
pub tick_reaches :
    (c : Config) (stale : ℕ) (w v : World) (d : Dispatcher) (before : List String) (sender : String)
    (after : List String)
    → let cap = submitter_max_active_sender_workers c in
      Reach cap stale w d
      → attempt (λ s. ok (list_queued_senders s, s)) d.world ≡ (ok (before ++ sender ∷ after), v)
      → (0 < cap)
        × ((is_running sender (tick cap d).workers ≡ true)
            ⊎ ((length (tick cap d).workers ≡ cap)
                × ((tick cap d).workers ≡ spawn_all cap before d.workers)))
unfolding tick listed
tick_reaches c stale w v d before sender after r e = (
  unfold submitter_max_active_sender_workers in
      positive_or_pos c.submitter.max_active_sender_workers 128 (omega arith),
  rw (e, listed)
      (spawn_all-reaches (submitter_max_active_sender_workers c) before sender after d.workers
        (Reach-IsWell (submitter_max_active_sender_workers c) stale w d r)),
)

-- ===== src/Submitter/Worker/Quiet.antt =====
-- The parts of a worker in internal/submitter/submitter.go that post nothing to the node.
use circle_wallet_service.Prelude.{
  ◌≡◌, refl, ◌∙◌, Bool, Option, none, some, List, [], ◌∷◌, String, Bool-cases, inl, inr, Result, ok,
  err, Result-cases,
}
use circle_wallet_service.Text.{concat}
use circle_wallet_service.Store.{TransactionRecord, StoreError}
use circle_wallet_service.MemoryQueue.{claim_next_queued_for_sender}
use circle_wallet_service.Submitter.{
  World, attempt, queue_list_processing, queue_reconcile, requeue_record, mark_simulation_failure,
}
use circle_wallet_service.Submitter.Remote.{Remote}
use circle_wallet_service.Submitter.Prepare.{
  Settings, SignedItem, Refusal, permanent, simulation_rejected, transient, sequence_mismatch,
  refused, prepared, prepare_record, signed_item, chain_sequence,
}
use circle_wallet_service.Submitter.Submit.Broadcasts.{reconcile-broadcasts}
use circle_wallet_service.Submitter.Calls.{
  attempt-Quiet, requeue_record-Quiet, requeue_transient-Quiet, mark_permanent_failure_notifies,
}
use circle_wallet_service.Submitter.Worker.{
  is_orphan, sweep_rows, sweep_listed, sweep_orphaned_processing, turn_of, claimed_turn,
  producer_turn, drain_pipeline,
}

sweep_rows-broadcasts :
    (addr : String) (rs : List TransactionRecord) (w : World)
    → (sweep_rows addr rs w).broadcasts ≡ w.broadcasts
unfolding sweep_rows
sweep_rows-broadcasts addr [] w = refl
sweep_rows-broadcasts addr (r ∷ rs) w = elim (Bool-cases (is_orphan addr r)) [
  | inl e ↦
      rw (e, sweep_rows)
        (sweep_rows-broadcasts addr rs (requeue_record r w) ∙ (requeue_record-Quiet r w).broadcasts)
  | inr e ↦ rw (e, sweep_rows) (sweep_rows-broadcasts addr rs w)
]

sweep_listed-broadcasts :
    (addr : String) (r : Result StoreError (List TransactionRecord)) (w : World)
    → (sweep_listed addr (r, w)).broadcasts ≡ w.broadcasts
unfolding sweep_listed
sweep_listed-broadcasts addr (ok rs) w = sweep_rows-broadcasts addr rs w
sweep_listed-broadcasts addr (err e) w = refl

pub sweep-broadcasts :
    (addr : String) (w : World) → (sweep_orphaned_processing addr w).broadcasts ≡ w.broadcasts
unfolding sweep_orphaned_processing queue_list_processing
sweep-broadcasts addr w =
    sweep_listed-broadcasts addr (queue_list_processing w).0 (queue_list_processing w).1
    ∙ (attempt-Quiet _ w).broadcasts

module _ (api : Remote) (cfg : Settings) where
  open api use {Signed, Address, parse_address}

  refused-broadcasts :
      (rec : TransactionRecord) (e : Refusal Address) (w : World)
      → (refused api cfg rec e w).1.broadcasts ≡ w.broadcasts
  unfolding refused mark_simulation_failure
  refused-broadcasts rec (permanent kind msg) w = (mark_permanent_failure_notifies rec kind msg w).1
  refused-broadcasts rec (simulation_rejected status) w =
      (mark_permanent_failure_notifies (record rec { vm_status = status }) "simulation"
        (concat "simulation rejected: " status) w).1
  refused-broadcasts rec (transient msg) w = (requeue_transient-Quiet rec msg w).broadcasts
  refused-broadcasts rec (sequence_mismatch sender) w = reconcile-broadcasts api cfg rec sender w

  prepared-broadcasts :
      (rec : TransactionRecord) (r : Result (Refusal Address) (SignedItem Signed)) (w : World)
      → (prepared api cfg rec r w).2.broadcasts ≡ w.broadcasts
  unfolding prepared
  prepared-broadcasts rec (ok item) w = refl
  prepared-broadcasts rec (err e) w = refused-broadcasts rec e w

  turn_of-broadcasts :
      (r : Option (SignedItem Signed) × Bool × World)
      → (turn_of api cfg r).1.broadcasts ≡ r.2.broadcasts
  unfolding turn_of
  turn_of-broadcasts (some item, b, w) = refl
  turn_of-broadcasts (none, b, w) = refl

  claimed_turn-broadcasts :
      (r : Result StoreError (Option TransactionRecord)) (w : World)
      → (claimed_turn api cfg (r, w)).1.broadcasts ≡ w.broadcasts
  unfolding claimed_turn prepare_record
  claimed_turn-broadcasts (err e) w = refl
  claimed_turn-broadcasts (ok none) w = refl
  claimed_turn-broadcasts (ok (some rec)) w =
      turn_of-broadcasts (prepare_record api cfg rec w)
      ∙ prepared-broadcasts rec (signed_item api cfg w.clock rec) w

  pub producer_turn-broadcasts :
      (addr : String) (w : World) → (producer_turn api cfg addr w).1.broadcasts ≡ w.broadcasts
  unfolding producer_turn
  producer_turn-broadcasts addr w =
      let r = attempt (λ s. ok (claim_next_queued_for_sender w.clock addr s)) w in
      claimed_turn-broadcasts r.0 r.1 ∙ (attempt-Quiet _ w).broadcasts

  pub drain-broadcasts :
      (addr : String) (w : World) → (drain_pipeline api cfg [] addr w).broadcasts ≡ w.broadcasts
  unfolding drain_pipeline queue_reconcile
  drain-broadcasts addr w = elim (Result-cases (parse_address addr)) [
    | inr (e, p) ↦ rw (p, drain_pipeline) refl
    | inl (sender, p) ↦ elim (Result-cases (chain_sequence api cfg sender)) [
      | inr (e, q) ↦ rw (p, q, drain_pipeline) refl
      | inl (n, q) ↦ rw (p, q, drain_pipeline) (attempt-Quiet _ w).broadcasts
    ]
  ]

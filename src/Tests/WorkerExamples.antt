-- ===== src/Tests/WorkerExamples.antt =====
-- The theorems on the workers of the submitter, with one queued row and a node that answers.
use circle_wallet_service.Prelude.{
  ℕ, ◌<◌, ◌≡◌, refl, ap, true, false, some, [], ◌∷◌, ◌++◌, ◌⊎◌, ok, arith, length,
}
use circle_wallet_service.Store.{processing}
use circle_wallet_service.GoMap.{lookup, insert, keys}
use circle_wallet_service.MemoryQueue.{
  claim_next_queued_for_sender, candidate, is_queued_for, older, list_queued_senders,
}
use circle_wallet_service.Submitter.{World, attempt}
use circle_wallet_service.Submitter.Prepare.{SignedItem, prepare_record, signed_item}
use circle_wallet_service.Submitter.Submit.{submit_signed}
use circle_wallet_service.Submitter.Worker.{producer_turn}
use circle_wallet_service.Submitter.Pipeline.{
  Pipeline, start, turned, claiming, sending, submitting, submitted_item, turn, send, take, here,
  next,
}
use circle_wallet_service.Submitter.Pipeline.Order.{IsOrderly, Reach-IsOrderly}
use circle_wallet_service.Submitter.Dispatch
use circle_wallet_service.Submitter.Dispatch.{
  Dispatcher, is_running, started, spawn_all, without_worker, tick, ticks, ends,
}
use circle_wallet_service.Submitter.Dispatch.Bounds.{IsWell, Reach-IsWell, tick_reaches}
use circle_wallet_service.Config.{default_config}
use circle_wallet_service.Config.Getters.{submitter_max_active_sender_workers}
use circle_wallet_service.Tests.Samples.{first, waiting}
use circle_wallet_service.Tests.SubmitterExamples.{sandbox, settings}

abbrev at_start : World
at_start = record { clock = 70; store = waiting; faults = []; notified = []; broadcasts = [] }

abbrev after_turn : Pipeline ℕ
after_turn = turned (producer_turn sandbox settings "0xa" at_start) (start at_start)

abbrev signed : SignedItem ℕ
signed = record {
  rec = record first { updated_at = 70; status = processing; sequence_number = some 7 };
  signed_txn = 7;
  seq_num = 7;
  hash = "0xhash";
}

is_signed :
    (after_turn.producer ≡ sending signed)
    × ((after_turn.channel ≡ []) × (after_turn.consumer ≡ submitting))
unfolding turned start producer_turn lookup insert attempt claim_next_queued_for_sender candidate
    keys is_queued_for older prepare_record signed_item
is_signed = (refl, (refl, refl))

abbrev after_send : Pipeline ℕ
after_send = record after_turn { producer = claiming; channel = signed ∷ after_turn.channel }

Reach-IsOrderly_example :
    IsOrderly 4
      (submitted_item signed [] (submit_signed sandbox settings signed after_send.world) after_send)
unfolding start
Reach-IsOrderly_example = Reach-IsOrderly sandbox settings 4 "0xa" at_start _ refl (
    next
      (next (next here (turn refl))
        (send signed is_signed.0 (omega (arith, ap length is_signed.1.0))))
      (take signed [] is_signed.1.1 (ap (◌∷◌ signed) is_signed.1.0)))

abbrev idle : Dispatcher
idle = record { world = at_start; workers = []; stopped = false }

abbrev one_tick : Dispatcher
one_tick = tick 128 idle

Reach-IsWell_example :
    IsWell 128 (record one_tick { workers = without_worker "0xa" one_tick.workers }).workers
Reach-IsWell_example =
    Reach-IsWell 128 120 at_start _
      (Dispatch.next (Dispatch.next Dispatch.here (ticks refl)) (ends "0xa"))

lists_one :
    attempt (λ s. ok (list_queued_senders s, s)) at_start ≡ (ok ([] ++ "0xa" ∷ []), at_start)
unfolding attempt list_queued_senders lookup insert keys
lists_one = refl

tick_reaches_example :
    (0 < submitter_max_active_sender_workers default_config)
    × ((is_running "0xa" (tick (submitter_max_active_sender_workers default_config) idle).workers
          ≡ true)
        ⊎ ((length (tick (submitter_max_active_sender_workers default_config) idle).workers
              ≡ submitter_max_active_sender_workers default_config)
            × ((tick (submitter_max_active_sender_workers default_config) idle).workers
                ≡ spawn_all (submitter_max_active_sender_workers default_config) [] idle.workers)))
tick_reaches_example =
    tick_reaches default_config 120 at_start at_start idle [] "0xa" [] Dispatch.here lists_one

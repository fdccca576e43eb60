-- ===== src/Submitter/Pipeline.antt =====
-- The worker of one sender in internal/submitter/submitter.go, as its two goroutines interleave: the
-- producer claims and signs, the consumer submits, and a channel of bounded depth is between them.
pub mod Order
use circle_wallet_service.Prelude.{
  ℕ, ◌<◌, ◌≡◌, Bool, true, false, List, [], ◌∷◌, ◌++◌, String, ℤ, is_positive, pos_part, length,
  if◌then◌else◌,
}
use circle_wallet_service.Submitter.{World, requeue_record}
use circle_wallet_service.Submitter.Remote.{Remote}
use circle_wallet_service.Submitter.Prepare.{Settings, SignedItem}
use circle_wallet_service.Submitter.Submit.{submit_signed}
use circle_wallet_service.Submitter.Worker.{
  Turn, ends, again, sends, producer_turn, drain_pipeline, sweep_orphaned_processing,
}

-- depth := cfg.SubmitterSigningPipelineDepth(); if depth < 1 { depth = 1 }
unfoldable pub pipeline_depth : ℤ → ℕ
pipeline_depth n = if is_positive n then pos_part n else 1

-- The producer is in its loop, waits to send an item, or has ended, perhaps with an item unsent.
pub data Producer (Signed : Type 0) : Type 0 where
  claiming : Producer Signed
  sending : SignedItem Signed → Producer Signed
  ended : List (SignedItem Signed) → Producer Signed

-- The consumer is in its loop, drains the channel after a failure, or is done.
pub data Consumer : Type 0 where
  submitting draining done : Consumer

-- Every list has the newest first.
pub record Pipeline (Signed : Type 0) : Type 0 where
  pub world : World
  pub producer : Producer Signed
  pub channel : List (SignedItem Signed)
  pub consumer : Consumer
  -- whether the context of the producer is cancelled
  pub cancelled : Bool
  -- what the producer has signed, and what the consumer has handed to submitSigned and given back
  pub signed : List (SignedItem Signed)
  pub taken : List (SignedItem Signed)
  pub drained : List (SignedItem Signed)

unfoldable pub start : {Signed : Type 0} → World → Pipeline Signed
start w = record {
  world = w;
  producer = claiming;
  channel = [];
  consumer = submitting;
  cancelled = false;
  signed = [];
  taken = [];
  drained = [];
}

-- What a turn of the producer makes of the pipeline.
unfoldable pub turned : {Signed : Type 0} → Turn Signed × World → Pipeline Signed → Pipeline Signed
turned (ends, w) p = record p { world = w; producer = ended [] }
turned (again paused, w) p = record p { world = w }
turned (sends item, w) p = record p { world = w; producer = sending item; signed = item ∷ p.signed }

-- What the answer of submitSigned makes of it: a failure cancels the producer.
unfoldable pub submitted_item :
    {Signed : Type 0}
    → SignedItem Signed
    → List (SignedItem Signed)
    → Bool × World
    → Pipeline Signed
    → Pipeline Signed
submitted_item item rest (true, w) p = record p {
  world = w;
  channel = rest;
  taken = item ∷ p.taken;
}
submitted_item item rest (false, w) p = record p {
  world = w;
  channel = rest;
  taken = item ∷ p.taken;
  consumer = draining;
  cancelled = true;
}

module _ (api : Remote) (cfg : Settings) (depth : ℕ) (addr : String) where
  open api use {Signed}

  pub data Step (p : Pipeline Signed) : Pipeline Signed → Type 0 where
    -- the producer: a turn of its loop, the end at a cancelled context, and the two ways out of
    -- its select
    turn : p.producer ≡ claiming → Step p (turned (producer_turn api cfg addr p.world) p)
    stop : p.producer ≡ claiming → p.cancelled ≡ true → Step p (record p { producer = ended [] })
    send :
        (item : SignedItem Signed)
        → p.producer ≡ sending item
        → length p.channel < depth
        → Step p (record p { producer = claiming; channel = item ∷ p.channel })
    give_up :
        (item : SignedItem Signed)
        → p.producer ≡ sending item
        → p.cancelled ≡ true
        → Step p
            (record p { world = requeue_record item.rec p.world; producer = ended (item ∷ []) })
    -- the consumer: an item from the channel, the drain after a failure, and the end of both loops,
    -- where the channel is closed and empty
    take :
        (item : SignedItem Signed) (rest : List (SignedItem Signed))
        → p.consumer ≡ submitting
        → p.channel ≡ rest ++ item ∷ []
        → Step p (submitted_item item rest (submit_signed api cfg item p.world) p)
    drain :
        (item : SignedItem Signed) (rest : List (SignedItem Signed))
        → p.consumer ≡ draining
        → p.channel ≡ rest ++ item ∷ []
        → Step p (record p {
          world = requeue_record item.rec p.world;
          channel = rest;
          drained = item ∷ p.drained;
        })
    finish :
        (unsent : List (SignedItem Signed))
        → p.consumer ≡ submitting
        → p.producer ≡ ended unsent
        → p.channel ≡ []
        → Step p (record p { world = sweep_orphaned_processing addr p.world; consumer = done })
    finish_failed :
        (unsent : List (SignedItem Signed))
        → p.consumer ≡ draining
        → p.producer ≡ ended unsent
        → p.channel ≡ []
        → Step p (record p {
          world = sweep_orphaned_processing addr (drain_pipeline api cfg [] addr p.world);
          consumer = done;
        })
    -- the context of the worker is cancelled
    cancel : Step p (record p { cancelled = true })
    -- whatever else changes the store meanwhile; only the posts of this worker are logged
    elsewhere : (w : World) → w.broadcasts ≡ p.world.broadcasts → Step p (record p { world = w })

  pub data Reach (w : World) : Pipeline Signed → Type 0 where
    here : Reach w (start w)
    next : {p q : Pipeline Signed} → Reach w p → Step p q → Reach w q

-- ===== src/Submitter/Pipeline/Order.antt =====
-- What the interleavings of a worker in internal/submitter/submitter.go keep: the order of the items,
-- the bound of the channel, and what is posted.
use circle_wallet_service.Prelude.{
  ℕ, ◌≤◌, ◌≡◌, refl, ap, sym, ◌∙◌, inl, inr, Bool, true, false, List, [], ◌∷◌, ◌++◌, String, arith,
  length, length-append,
}
use mathlib.Core.List.{append_assoc}
use circle_wallet_service.Submitter.{World, Broadcast}
use circle_wallet_service.Submitter.Remote.{Remote}
use circle_wallet_service.Submitter.Prepare.{Settings, SignedItem}
use circle_wallet_service.Submitter.Submit.{submit_signed}
use circle_wallet_service.Submitter.Submit.Broadcasts.{submit_signed_posts}
use circle_wallet_service.Submitter.Calls.{requeue_record-Quiet}
use circle_wallet_service.Submitter.Worker.{Turn, ends, again, sends, producer_turn, drain_pipeline}
use circle_wallet_service.Submitter.Worker.Quiet.{
  producer_turn-broadcasts, sweep-broadcasts, drain-broadcasts,
}
use circle_wallet_service.Submitter.Pipeline.{
  Producer, claiming, sending, ended, Consumer, submitting, draining, done, Pipeline, start, turned,
  submitted_item, Step, turn, stop, send, give_up, take, drain, finish, finish_failed, cancel,
  elsewhere, Reach, here, next,
}

module _ {Signed : Type 0} where
  -- The item that the producer holds.
  abbrev pub held : Producer Signed → List (SignedItem Signed)
  held claiming = []
  held (sending item) = item ∷ []
  held (ended unsent) = unsent

  abbrev pub post_of : SignedItem Signed → Broadcast
  post_of item = record { id = item.rec.id; seq = item.seq_num; hash = item.hash }

  -- Posts of some of the items, in their order, none twice.
  pub data Posts : List Broadcast → List (SignedItem Signed) → Type 0 where
    none_yet : Posts [] []
    not_posted :
        {bs : List Broadcast} {items : List (SignedItem Signed)} (item : SignedItem Signed)
        → Posts bs items
        → Posts bs (item ∷ items)
    was_posted :
        {bs : List Broadcast} {items : List (SignedItem Signed)} (item : SignedItem Signed)
        → Posts bs items
        → Posts (post_of item ∷ bs) (item ∷ items)

  abbrev InLoop : Consumer → List (SignedItem Signed) → Type 0
  InLoop submitting drained = drained ≡ []
  InLoop draining drained = Unit
  InLoop done drained = Unit

  abbrev Closed : Consumer → Pipeline Signed → Type 0
  Closed submitting p = Unit
  Closed draining p = Unit
  Closed done p =
      (p.channel ≡ []) × ((unsent : List (SignedItem Signed)) × (p.producer ≡ ended unsent))

  -- Newest first: what was signed is what the producer still holds, what is in the channel, what was
  -- given back after a failure, and what was handed to submitSigned.
  pub record IsOrderly (depth : ℕ) (p : Pipeline Signed) : Type 0 where
    pub in_order : p.signed ≡ held p.producer ++ (p.channel ++ (p.drained ++ p.taken))
    pub bounded : length p.channel ≤ depth
    pub looping : InLoop p.consumer p.drained
    pub closed : Closed p.consumer p
    pub posts : Posts p.world.broadcasts p.taken

module _ (api : Remote) (cfg : Settings) (depth : ℕ) (addr : String) where
  open api use {Signed}

  -- While the producer is in its loop, the consumer is not done.
  open-Closed :
      (p q : Pipeline Signed) (c : Consumer) → p.producer ≡ claiming → Closed c p → Closed c q
  open-Closed p q submitting e v = tt
  open-Closed p q draining e v = tt
  open-Closed p q done e (_, (unsent, f)) = absurd (ground (arith, e, f))

  sending-Closed :
      (p q : Pipeline Signed) (item : SignedItem Signed) (c : Consumer)
      → p.producer ≡ sending item
      → Closed c p
      → Closed c q
  sending-Closed p q item submitting e v = tt
  sending-Closed p q item draining e v = tt
  sending-Closed p q item done e (_, (unsent, f)) = absurd (ground (arith, e, f))

  same-Closed :
      (p q : Pipeline Signed) (c : Consumer)
      → q.channel ≡ p.channel
      → q.producer ≡ p.producer
      → Closed c p
      → Closed c q
  same-Closed p q submitting e f v = tt
  same-Closed p q draining e f v = tt
  same-Closed p q done e f (g, (unsent, h)) = (e ∙ g, (unsent, f ∙ h))

  turned-IsOrderly :
      (p : Pipeline Signed) (r : Turn Signed × World)
      → p.producer ≡ claiming
      → r.1.broadcasts ≡ p.world.broadcasts
      → IsOrderly depth p
      → IsOrderly depth (turned r p)
  unfolding turned
  turned-IsOrderly p (ends, w) e b v = record {
    in_order = rw e at v.in_order;
    bounded = v.bounded;
    looping = v.looping;
    closed = open-Closed p _ p.consumer e v.closed;
    posts = rw b v.posts;
  }
  turned-IsOrderly p (again paused, w) e b v = record {
    in_order = v.in_order;
    bounded = v.bounded;
    looping = v.looping;
    closed = open-Closed p _ p.consumer e v.closed;
    posts = rw b v.posts;
  }
  turned-IsOrderly p (sends item, w) e b v = record {
    in_order = ap (◌∷◌ item) (rw e at v.in_order);
    bounded = v.bounded;
    looping = v.looping;
    closed = open-Closed p _ p.consumer e v.closed;
    posts = rw b v.posts;
  }

  -- A step that changes the world alone, and posts nothing.
  moved-IsOrderly :
      (p : Pipeline Signed) (w : World)
      → w.broadcasts ≡ p.world.broadcasts
      → IsOrderly depth p
      → IsOrderly depth (record p { world = w })
  moved-IsOrderly p w b v = record {
    in_order = v.in_order;
    bounded = v.bounded;
    looping = v.looping;
    closed = same-Closed p _ p.consumer refl refl v.closed;
    posts = rw b v.posts;
  }

  submit-Posts :
      (item : SignedItem Signed) (items : List (SignedItem Signed)) (w : World)
      → Posts w.broadcasts items
      → Posts (submit_signed api cfg item w).1.broadcasts (item ∷ items)
  submit-Posts item items w ps = elim (submit_signed_posts api cfg item w) [
    | inl same ↦ rw same (not_posted item ps)
    | inr posted ↦ rw posted.one (was_posted item ps)
  ]

  -- The item at the front of the channel moves behind those that left it before.
  front-moves :
      (ahead rest behind : List (SignedItem Signed)) (item : SignedItem Signed)
      → ahead ++ ((rest ++ item ∷ []) ++ behind) ≡ ahead ++ (rest ++ item ∷ behind)
  front-moves ahead rest behind item = ap (◌++◌ ahead) (append_assoc rest (item ∷ []) behind)

  shorter :
      (rest : List (SignedItem Signed)) (item : SignedItem Signed)
      → length rest ≤ length (rest ++ item ∷ [])
  shorter rest item = omega (arith, length-append {0} rest (item ∷ []))

  taken_front :
      (p : Pipeline Signed) (item : SignedItem Signed) (rest : List (SignedItem Signed))
      → p.channel ≡ rest ++ item ∷ []
      → p.drained ≡ []
      → held p.producer ++ (p.channel ++ (p.drained ++ p.taken))
        ≡ held p.producer ++ (rest ++ (p.drained ++ item ∷ p.taken))
  taken_front p item rest f d =
      ap (λ l. held p.producer ++ (p.channel ++ (l ++ p.taken))) d
      ∙ ap (λ l. held p.producer ++ (l ++ p.taken)) f
      ∙ front-moves (held p.producer) rest p.taken item
      ∙ ap (λ l. held p.producer ++ (rest ++ (l ++ item ∷ p.taken))) (sym d)

  submitted-IsOrderly :
      (p : Pipeline Signed) (item : SignedItem Signed) (rest : List (SignedItem Signed))
      (r : Bool × World)
      → p.consumer ≡ submitting
      → p.channel ≡ rest ++ item ∷ []
      → Posts r.1.broadcasts (item ∷ p.taken)
      → IsOrderly depth p
      → IsOrderly depth (submitted_item item rest r p)
  unfolding submitted_item
  submitted-IsOrderly p item rest (true, w) e f ps v =
      let idle : p.drained ≡ [] = rw e at v.looping in
      record {
        in_order = v.in_order ∙ taken_front p item rest f idle;
        bounded = omega (arith, shorter rest item, ap length f, v.bounded);
        looping = v.looping;
        closed = rw e tt;
        posts = ps;
      }
  submitted-IsOrderly p item rest (false, w) e f ps v =
      let idle : p.drained ≡ [] = rw e at v.looping in
      record {
        in_order = v.in_order ∙ taken_front p item rest f idle;
        bounded = omega (arith, shorter rest item, ap length f, v.bounded);
        looping = tt;
        closed = tt;
        posts = ps;
      }

  step-IsOrderly :
      (p q : Pipeline Signed) → Step api cfg depth addr p q → IsOrderly depth p → IsOrderly depth q
  step-IsOrderly p q (turn e) v =
      turned-IsOrderly p (producer_turn api cfg addr p.world) e
        (producer_turn-broadcasts api cfg addr p.world) v
  step-IsOrderly p q (stop e c) v = record {
    in_order = rw e at v.in_order;
    bounded = v.bounded;
    looping = v.looping;
    closed = open-Closed p _ p.consumer e v.closed;
    posts = v.posts;
  }
  step-IsOrderly p q (send item e room) v = record {
    in_order = rw e at v.in_order;
    bounded = room;
    looping = v.looping;
    closed = sending-Closed p _ item p.consumer e v.closed;
    posts = v.posts;
  }
  step-IsOrderly p q (give_up item e c) v = record {
    in_order = rw e at v.in_order;
    bounded = v.bounded;
    looping = v.looping;
    closed = sending-Closed p _ item p.consumer e v.closed;
    posts = rw (requeue_record-Quiet item.rec p.world).broadcasts v.posts;
  }
  step-IsOrderly p q (take item rest e f) v =
      submitted-IsOrderly p item rest (submit_signed api cfg item p.world) e f
        (submit-Posts item p.taken p.world v.posts) v
  step-IsOrderly p q (drain item rest e f) v = record {
    in_order =
        v.in_order
        ∙ ap (λ l. held p.producer ++ (l ++ (p.drained ++ p.taken))) f
        ∙ front-moves (held p.producer) rest (p.drained ++ p.taken) item;
    bounded = omega (arith, shorter rest item, ap length f, v.bounded);
    looping = rw e tt;
    closed = rw e tt;
    posts = rw (requeue_record-Quiet item.rec p.world).broadcasts v.posts;
  }
  step-IsOrderly p q (finish unsent e f g) v = record {
    in_order = v.in_order;
    bounded = v.bounded;
    looping = tt;
    closed = (g, (unsent, f));
    posts = rw (sweep-broadcasts addr p.world) v.posts;
  }
  step-IsOrderly p q (finish_failed unsent e f g) v = record {
    in_order = v.in_order;
    bounded = v.bounded;
    looping = tt;
    closed = (g, (unsent, f));
    posts =
        rw
          (
            sweep-broadcasts addr (drain_pipeline api cfg [] addr p.world),
            drain-broadcasts api cfg addr p.world,
          )
          v.posts;
  }
  step-IsOrderly p q cancel v = record {
    in_order = v.in_order;
    bounded = v.bounded;
    looping = v.looping;
    closed = same-Closed p _ p.consumer refl refl v.closed;
    posts = v.posts;
  }
  step-IsOrderly p q (elsewhere w b) v = moved-IsOrderly p w b v

  -- However the two goroutines of a worker interleave, wherever a call of the database fails, whenever
  -- the context is cancelled and whatever else changes the store meanwhile: each item that was signed
  -- is in one place, once, and in the order of signing (held by the producer, in the channel, given
  -- back after a failure, or handed to `submitSigned`); the channel never holds more than its depth;
  -- once the worker is done, nothing is in the channel; and the posts to the node are of items that
  -- were handed to `submitSigned`, in that order, none twice.
  pub Reach-IsOrderly :
      (w : World) (p : Pipeline Signed)
      → w.broadcasts ≡ []
      → Reach api cfg depth addr w p
      → IsOrderly depth p
  unfolding start
  Reach-IsOrderly w p clear here = record {
    in_order = refl;
    bounded = omega arith;
    looping = refl;
    closed = tt;
    posts = rw clear none_yet;
  }
  Reach-IsOrderly w p clear (next r st) = step-IsOrderly _ _ st (Reach-IsOrderly w _ clear r)

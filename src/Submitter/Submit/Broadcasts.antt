-- ===== src/Submitter/Submit/Broadcasts.antt =====
-- What `submitSigned` of internal/submitter/submitter.go posts, and what it leaves in the store.
use circle_wallet_service.Prelude.{
  [], ℕ, zero, suc, ◌≡◌, refl, ap, ◌∙◌, Bool, true, false, ◌⊎◌, inl, inr, none, some, ◌∷◌, String,
  ◌==◌, arith, Bool-cases, if◌then◌else◌, Result, ok, err, ltb, eq_iff, ◌-◌,
}
use circle_wallet_service.GoMap.{lookup}
use circle_wallet_service.Store.{
  TransactionRecord, StoreError, processing, status_eq, cancelled, already_exists, not_found,
  idempotency_conflict, database,
}
use circle_wallet_service.Memory.{MemoryStore, update, update_if_status}
use circle_wallet_service.Memory.Crud.{lookup-update, lookup-replace, update_if_status-done}
use circle_wallet_service.Memory.Index.{IsIndexed, update_if_status_cases}
use circle_wallet_service.Submitter.{
  World, only, queue_update, requeue_transient, apply_reconcile, is_sequence_error,
}
use circle_wallet_service.Submitter.Remote.{Remote}
use circle_wallet_service.Submitter.Prepare.{
  Settings, SignedItem, chain_sequence, reconcile_and_requeue,
}
use circle_wallet_service.Submitter.Submit.{
  hashed_row, submitted_row, accepted_hash, submit_failed, posted, persisted, submit_signed,
  update_attempts, retry_after, update_with_retry,
}
use circle_wallet_service.Submitter.Calls.{
  Outcome, ran, refused, attempt-Outcome, attempt-calm, Quiet, Quiet-refl, Quiet-trans,
  update-Quiet, requeue_transient-Quiet, apply_reconcile-Quiet, mark_permanent_failure_notifies,
}

-- What an update of a row does to the store.
pub data Wrote (rec : TransactionRecord) (w : World)
    : Result StoreError (Unit {0}) × World → Type 0 where
  wrote :
      (u : Unit {0}) (w' : World)
      → ((id : String)
          → lookup id w'.store.records ≡ (
              if rec.id == id
              then some (record rec { updated_at = w.clock })
              else lookup id w.store.records))
      → Wrote rec w (ok u, w')
  missed : (e : StoreError) (w' : World) → w'.store ≡ w.store → Wrote rec w (err e, w')

only_ok :
    (r : Result StoreError MemoryStore) (u : Unit {0}) (s : MemoryStore)
    → only r ≡ ok (u, s)
    → r ≡ ok s
only_ok (ok t) u s e = ground arith
only_ok (err x) u s e = absurd (ground arith)

Outcome-Wrote :
    (rec : TransactionRecord) (w : World) {r : Result StoreError (Unit {0}) × World}
    → Outcome (λ s. only (update w.clock rec s)) w r
    → Wrote rec w r
Outcome-Wrote rec w (ran fs u s e) =
    wrote u _
      (λ id. lookup-update w.clock rec w.store id (only_ok (update w.clock rec w.store) u s e))
Outcome-Wrote rec w (refused fs e) = missed e _ refl

pub queue_update-Wrote : (rec : TransactionRecord) (w : World) → Wrote rec w (queue_update rec w)
unfolding queue_update
queue_update-Wrote rec w = Outcome-Wrote rec w (attempt-Outcome _ w)

-- The retried update: it wrote the row, or left the store.
abbrev Ended : TransactionRecord → World → Bool × World → Type 0
Ended rec w (b, w') =
    ((b ≡ true) × (lookup rec.id w'.store.records ≡ some (record rec { updated_at = w.clock })))
    ⊎ ((b ≡ false) × (w'.store ≡ w.store))

retry_after-Ended :
    (rec : TransactionRecord) (w v : World) (again : World → Bool × World)
    {r : Result StoreError (Unit {0}) × World}
    → Wrote rec v r
    → ((u : World) → u.store ≡ w.store → u.clock ≡ w.clock → Ended rec w (again u))
    → v.store ≡ w.store
    → v.clock ≡ w.clock
    → r.1.clock ≡ w.clock
    → Ended rec w (retry_after again r)
unfolding retry_after
retry_after-Ended rec w v again (wrote u w' at) next e c d =
    inl (refl, ground (arith, at rec.id, eq_iff rec.id rec.id))
retry_after-Ended rec w v again (missed cancelled w' f) next e c d = inr (refl, f ∙ e)
retry_after-Ended rec w v again (missed already_exists w' f) next e c d = next w' (f ∙ e) d
retry_after-Ended rec w v again (missed not_found w' f) next e c d = next w' (f ∙ e) d
retry_after-Ended rec w v again (missed idempotency_conflict w' f) next e c d = next w' (f ∙ e) d
retry_after-Ended rec w v again (missed database w' f) next e c d = next w' (f ∙ e) d

update_attempts-Ended :
    (n : ℕ) (rec : TransactionRecord) (w v : World)
    → v.store ≡ w.store
    → v.clock ≡ w.clock
    → Ended rec w (update_attempts n rec v)
unfolding update_attempts
update_attempts-Ended zero rec w v e c = inr (refl, e)
update_attempts-Ended (suc n) rec w v e c =
    retry_after-Ended rec w v (update_attempts n rec) (queue_update-Wrote rec v)
      (λ u f d. update_attempts-Ended n rec w u f d) e c ((update-Quiet rec v).clock ∙ c)

retry_after-Quiet :
    (w : World) (again : World → Bool × World) (r : Result StoreError (Unit {0})) (v : World)
    → Quiet w v
    → ((u : World) → Quiet u (again u).1)
    → Quiet w (retry_after again (r, v)).1
unfolding retry_after
retry_after-Quiet w again (ok u) v q next = q
retry_after-Quiet w again (err cancelled) v q next = q
retry_after-Quiet w again (err already_exists) v q next = Quiet-trans q (next v)
retry_after-Quiet w again (err not_found) v q next = Quiet-trans q (next v)
retry_after-Quiet w again (err idempotency_conflict) v q next = Quiet-trans q (next v)
retry_after-Quiet w again (err database) v q next = Quiet-trans q (next v)

update_attempts-Quiet :
    (n : ℕ) (rec : TransactionRecord) (w : World) → Quiet w (update_attempts n rec w).1
unfolding update_attempts
update_attempts-Quiet zero rec w = Quiet-refl w
update_attempts-Quiet (suc n) rec w =
    let (r, v) = queue_update rec w in
    retry_after-Quiet w (update_attempts n rec) r v (update-Quiet rec w)
      (λ u. update_attempts-Quiet n rec u)

module _ (api : Remote) (cfg : Settings) where
  open api use {Signed, submit, Address}

  pub reconcile-broadcasts :
      (rec : TransactionRecord) (sender : Address) (w : World)
      → (reconcile_and_requeue api cfg rec sender w).broadcasts ≡ w.broadcasts
  unfolding reconcile_and_requeue
  reconcile-broadcasts rec sender w = go (chain_sequence api cfg sender)
    where
      go :
          (r : Result String ℕ)
          → (elim r as (λ _. World) [
            | err e ↦ requeue_transient rec e w
            | ok n ↦ apply_reconcile rec (elim rec.sequence_number [ none ↦ 0 | some m ↦ m ]) n w
          ]).broadcasts
            ≡ w.broadcasts
      go (ok n) = (apply_reconcile-Quiet rec _ n w).broadcasts
      go (err e) = (requeue_transient-Quiet rec e w).broadcasts

  submit_failed-broadcasts :
      (rec : TransactionRecord) (e : String) (w : World)
      → (submit_failed api cfg rec e w).broadcasts ≡ w.broadcasts
  unfolding submit_failed
  submit_failed-broadcasts rec e w = elim (Bool-cases (is_sequence_error e)) [
    | inl s ↦ rw s (parsed (api.parse_address rec.sender_address))
    | inr s ↦ rw s (elim (Bool-cases (ltb cfg.max_retry_duration (w.clock - rec.created_at))) [
      | inl a ↦ rw a (mark_permanent_failure_notifies rec "submit" e w).1
      | inr a ↦ rw a (requeue_transient-Quiet rec e w).broadcasts
    ])
  ]
    where
      parsed :
          (r : Result String Address)
          → (elim r as (λ _. World) [
            | ok sender ↦ reconcile_and_requeue api cfg rec sender w
            | err _ ↦ requeue_transient rec e w
          ]).broadcasts
            ≡ w.broadcasts
      parsed (ok sender) = reconcile-broadcasts rec sender w
      parsed (err x) = (requeue_transient-Quiet rec e w).broadcasts

  posted-broadcasts :
      (item : SignedItem Signed) (rec : TransactionRecord) (r : Result String String) (w : World)
      → (posted api cfg item rec r w).1.broadcasts ≡ w.broadcasts
  unfolding posted update_with_retry
  posted-broadcasts item rec (ok h) w = (update_attempts-Quiet 5 _ w).broadcasts
  posted-broadcasts item rec (err e) w = submit_failed-broadcasts _ e w

  abbrev ahead : SignedItem Signed → World → TransactionRecord
  ahead item w = hashed_row w.clock item.hash item.rec

  -- What is stored once the node has accepted: the submitted row where the answer is true, else the
  -- row with its hash, as it was before the post.
  abbrev pub Kept : SignedItem Signed → String → World → Bool × World → Type 0
  Kept item server w (b, w') =
      ((b ≡ true)
        × (lookup item.rec.id w'.store.records
            ≡ some (submitted_row w.clock (accepted_hash item.hash server) item.rec)))
      ⊎ ((b ≡ false)
          × (lookup item.rec.id w'.store.records ≡ some (hashed_row w.clock item.hash item.rec)))

  posted-Kept :
      (item : SignedItem Signed) (server : String) (w v : World)
      → v.clock ≡ w.clock
      → lookup item.rec.id v.store.records ≡ some (ahead item w)
      → Kept item server w (posted api cfg item (ahead item w) (ok server) v)
  unfolding posted update_with_retry hashed_row submitted_row
  posted-Kept item server w v c there =
      let row = submitted_row v.clock (accepted_hash item.hash server) (ahead item w) in
      elim (update_attempts-Ended 5 row v v refl refl) [
        | inl (b, e) ↦ inl (b, ground (arith, e, c))
        | inr (b, e) ↦ inr (b, ap (λ m. lookup item.rec.id m.records) e ∙ there)
      ]

  abbrev pub IfAccepted : SignedItem Signed → Result String String → World → Bool × World → Type 0
  IfAccepted item (ok server) w r = Kept item server w r
  IfAccepted item (err e) w r = Unit

  -- One post, of the item, after its hash was written to a row that was in processing.
  pub record Posted (item : SignedItem Signed) (w : World) (r : Bool × World) : Type 0 where
    pub old : TransactionRecord
    pub stored : lookup item.rec.id w.store.records ≡ some old
    pub was_processing : status_eq old.status processing ≡ true
    pub after : MemoryStore
    pub written :
        update_if_status w.clock (hashed_row w.clock item.hash item.rec) processing w.store
        ≡ ok (true, after)
    pub one :
        r.1.broadcasts
        ≡ record { id = item.rec.id; seq = item.seq_num; hash = item.hash } ∷ w.broadcasts
    pub kept : IfAccepted item (submit item.signed_txn) w r

  posted-IfAccepted :
      (item : SignedItem Signed) (answer : Result String String) (w v : World)
      → v.clock ≡ w.clock
      → lookup item.rec.id v.store.records ≡ some (ahead item w)
      → IfAccepted item answer w (posted api cfg item (ahead item w) answer v)
  posted-IfAccepted item (ok server) w v c there = posted-Kept item server w v c there
  posted-IfAccepted item (err e) w v c there = tt

  persisted-Posted :
      (item : SignedItem Signed) (w : World) {r : Result StoreError Bool × World}
      → Outcome (update_if_status w.clock (ahead item w) processing) w r
      → ((persisted api cfg item (ahead item w) r).1.broadcasts ≡ w.broadcasts)
        ⊎ Posted item w (persisted api cfg item (ahead item w) r)
  unfolding persisted hashed_row
  persisted-Posted item w (ran fs true s e) =
      elim (update_if_status_cases w.clock (ahead item w) processing w.store e) [
        | inl (old, _, stored, was, done) ↦
            let there : lookup item.rec.id s.records ≡ some (ahead item w) =
              (unfold hashed_row in
                ground (
                  arith,
                  lookup-replace w.clock old (hashed_row w.clock item.hash item.rec) w.store
                      item.rec.id done,
                  eq_iff item.rec.id item.rec.id,
                )) in
            inr (record {
              old = old;
              stored = stored;
              was_processing = was;
              after = s;
              written = e;
              one = posted-broadcasts item (ahead item w) (submit item.signed_txn) _;
              kept = posted-IfAccepted item (submit item.signed_txn) w _ refl there;
            })
        | inr (lost, _) ↦ cc
      ]
  persisted-Posted item w (ran fs false s e) = inl refl
  persisted-Posted item w (refused fs e) = inl (requeue_transient-Quiet _ _ _).broadcasts

  -- `submitSigned` posts at most once, and only the signed item; when it posts, the hash of the item
  -- has just been written to the stored row, which was in processing. If the call of the node answers
  -- that the post was accepted, the stored row ends either submitted, under the hash in the answer,
  -- with the result true, or as it was written before the post, with the hash and its sequence
  -- number, with the result false. Nothing is said of the row if the call fails or times out.
  pub submit_signed_posts :
      (item : SignedItem Signed) (w : World)
      → ((submit_signed api cfg item w).1.broadcasts ≡ w.broadcasts)
        ⊎ Posted item w (submit_signed api cfg item w)
  unfolding submit_signed
  submit_signed_posts item w = persisted-Posted item w (attempt-Outcome _ w)

  -- With the index in order and the database up, a signed item whose row is in processing, under the
  -- same key, is posted. Neither the sequence number nor the hash of the stored row is compared: the
  -- row may have gone back to the queue and have been claimed again since the item was signed.
  pub submit_signed_live :
      (item : SignedItem Signed) (old : TransactionRecord) (w : World)
      → IsIndexed w.store
      → w.faults ≡ []
      → lookup item.rec.id w.store.records ≡ some old
      → status_eq old.status processing ≡ true
      → old.idempotency_key ≡ item.rec.idempotency_key
      → (submit_signed api cfg item w).1.broadcasts
        ≡ record { id = item.rec.id; seq = item.seq_num; hash = item.hash } ∷ w.broadcasts
  unfolding submit_signed persisted hashed_row
  submit_signed_live item old w v calm stored was same =
      let (t, won) =
        update_if_status-done w.clock (ahead item w) old processing w.store v stored was same in
      rw (attempt-calm (update_if_status w.clock (ahead item w) processing) w true t calm won)
        (posted-broadcasts item (ahead item w) (submit item.signed_txn) _)

-- ===== src/Submitter/Calls.antt =====
-- What a call of the database by internal/submitter/submitter.go does: it runs once, or it fails and
-- changes nothing.
use circle_wallet_service.Prelude.{
  arith, ℕ, ◌≡◌, refl, ap, ◌∙◌, Option-cases, Bool, true, false, inl, inr, List, [], ◌∷◌, String,
  Bool-cases, if◌then◌else◌, is_set, Result, ok, err, ltb,
}
use circle_wallet_service.Store.{TransactionRecord, StoreError}
use circle_wallet_service.Memory.{MemoryStore}
use circle_wallet_service.Submitter.{
  Fault, runs, fails, cancels, World, Op, committed, attempt_with, attempt, queue_update,
  queue_release, queue_shift, queue_reconcile, queue_force_reset, queue_list_processing, failed_row,
  shift_if_held, mark_permanent_failure, release_if_held, requeue_transient, requeue_record,
  requeue_without_release, requeue_siblings, requeue_listed, apply_reconcile, is_sibling,
}

-- The two outcomes of a call.
pub data Outcome {A : Type 0} (op : Op A) (w : World) : Result StoreError A × World → Type 0 where
  ran :
      (fs : List Fault) (a : A) (s : MemoryStore)
      → op w.store ≡ ok (a, s)
      → Outcome op w (ok a, record w { store = s; faults = fs })
  refused : (fs : List Fault) (e : StoreError) → Outcome op w (err e, record w { faults = fs })

committed-Outcome :
    {A : Type 0} (op : Op A) (w : World) (fs : List Fault) (r : Result StoreError (A × MemoryStore))
    → op w.store ≡ r
    → Outcome op w (committed (record w { faults = fs }) r)
committed-Outcome op w fs (ok (a, s)) e = ran fs a s e
committed-Outcome op w fs (err x) e = refused fs x

attempt_with-Outcome :
    {A : Type 0} (op : Op A) (w : World) (fs : List Fault) → Outcome op w (attempt_with fs op w)
unfolding attempt_with
attempt_with-Outcome op w [] = committed-Outcome op w [] (op w.store) refl
attempt_with-Outcome op w (runs ∷ fs) = committed-Outcome op w fs (op w.store) refl
attempt_with-Outcome op w (fails ∷ fs) = refused fs _
attempt_with-Outcome op w (cancels ∷ fs) = refused fs _

pub attempt-Outcome : {A : Type 0} (op : Op A) (w : World) → Outcome op w (attempt op w)
unfolding attempt
attempt-Outcome op w = attempt_with-Outcome op w w.faults

-- With no fault to come, a call runs.
pub attempt-calm :
    {A : Type 0} (op : Op A) (w : World) (a : A) (s : MemoryStore)
    → w.faults ≡ []
    → op w.store ≡ ok (a, s)
    → attempt op w ≡ (ok a, record w { store = s; faults = [] })
unfolding attempt
attempt-calm op w a s calm e = ground (arith, calm, e)

-- What left the process, and the clock, are as they were.
pub record Quiet (w w' : World) : Type 0 where
  pub broadcasts : w'.broadcasts ≡ w.broadcasts
  pub notified : w'.notified ≡ w.notified
  pub clock : w'.clock ≡ w.clock

pub Quiet-refl : (w : World) → Quiet w w
Quiet-refl w = record { broadcasts = refl; notified = refl; clock = refl }

pub Quiet-trans : {u v w : World} → Quiet u v → Quiet v w → Quiet u w
Quiet-trans p q = record {
  broadcasts = q.broadcasts ∙ p.broadcasts;
  notified = q.notified ∙ p.notified;
  clock = q.clock ∙ p.clock;
}

Outcome-Quiet :
    {A : Type 0} (op : Op A) (w : World) {r : Result StoreError A × World}
    → Outcome op w r
    → Quiet w r.1
Outcome-Quiet op w (ran fs a s e) = record { broadcasts = refl; notified = refl; clock = refl }
Outcome-Quiet op w (refused fs e) = record { broadcasts = refl; notified = refl; clock = refl }

pub attempt-Quiet : {A : Type 0} (op : Op A) (w : World) → Quiet w (attempt op w).1
attempt-Quiet op w = Outcome-Quiet op w (attempt-Outcome op w)

pub update-Quiet : (rec : TransactionRecord) (w : World) → Quiet w (queue_update rec w).1
unfolding queue_update
update-Quiet rec w = attempt-Quiet _ w

release-Quiet : (rec : TransactionRecord) (w : World) → Quiet w (release_if_held rec w)
unfolding release_if_held queue_release
release-Quiet rec w = elim (Bool-cases (is_set rec.sequence_number)) [
  | inl e ↦ rw e (attempt-Quiet _ w)
  | inr e ↦ rw e (Quiet-refl w)
]

pub requeue_transient-Quiet :
    (rec : TransactionRecord) (msg : String) (w : World) → Quiet w (requeue_transient rec msg w)
unfolding requeue_transient
requeue_transient-Quiet rec msg w =
    Quiet-trans (update-Quiet _ w) (unfold requeue_transient in release-Quiet rec _)

pub requeue_record-Quiet : (rec : TransactionRecord) (w : World) → Quiet w (requeue_record rec w)
unfolding requeue_record
requeue_record-Quiet rec w =
    Quiet-trans (update-Quiet _ w) (unfold requeue_record in release-Quiet rec _)

requeue_without_release-Quiet :
    (rec : TransactionRecord) (w : World) → Quiet w (requeue_without_release rec w)
unfolding requeue_without_release
requeue_without_release-Quiet rec w = update-Quiet _ w

requeue_siblings-Quiet :
    (rec : TransactionRecord) (ps : List TransactionRecord) (w : World)
    → Quiet w (requeue_siblings rec ps w)
unfolding requeue_siblings
requeue_siblings-Quiet rec [] w = Quiet-refl w
requeue_siblings-Quiet rec (p ∷ ps) w = elim (Bool-cases (is_sibling rec p)) [
  | inl e ↦ rw e (
      Quiet-trans (requeue_without_release-Quiet p w)
        (requeue_siblings-Quiet rec ps (requeue_without_release p w)))
  | inr e ↦ rw e (requeue_siblings-Quiet rec ps w)
]

requeue_listed-Quiet :
    (rec : TransactionRecord) (r : Result StoreError (List TransactionRecord)) (w : World)
    → Quiet w (requeue_listed rec (r, w))
unfolding requeue_listed
requeue_listed-Quiet rec (ok ps) w = requeue_siblings-Quiet rec ps w
requeue_listed-Quiet rec (err e) w = Quiet-refl w

counter-Quiet :
    (b : Bool) (addr : String) (n : ℕ) (w : World)
    → Quiet w (if b then queue_force_reset addr n w else queue_reconcile addr n w)
unfolding queue_force_reset queue_reconcile
counter-Quiet true addr n w = attempt-Quiet _ w
counter-Quiet false addr n w = attempt-Quiet _ w

list-Quiet : (w : World) → Quiet w (queue_list_processing w).1
unfolding queue_list_processing
list-Quiet w = attempt-Quiet _ w

pub apply_reconcile-Quiet :
    (rec : TransactionRecord) (local chain : ℕ) (w : World)
    → Quiet w (apply_reconcile rec local chain w)
unfolding apply_reconcile
apply_reconcile-Quiet rec local chain w =
    let a = counter-Quiet (ltb chain local) rec.sender_address chain w in
    let b = Quiet-trans a (list-Quiet _) in
    let (r, v) = queue_list_processing (
      if ltb chain local
      then queue_force_reset rec.sender_address chain w
      else queue_reconcile rec.sender_address chain w) in
    Quiet-trans b (Quiet-trans (requeue_listed-Quiet rec r v) (update-Quiet _ _))

shift-Quiet : (rec : TransactionRecord) (w : World) → Quiet w (shift_if_held rec w)
unfolding shift_if_held queue_shift
shift-Quiet rec w = elim (Option-cases rec.sequence_number) [
  | inl e ↦ rw e (Quiet-refl w)
  | inr (n, e) ↦ rw e (attempt-Quiet _ w)
]

-- A permanent failure hands exactly one record to the notifier, the failed row, whether or not the
-- database took the row; nothing is posted to the node.
pub mark_permanent_failure_notifies :
    (rec : TransactionRecord) (kind msg : String) (w : World)
    → ((mark_permanent_failure rec kind msg w).notified
        ≡ failed_row w.clock kind msg rec ∷ w.notified)
      × ((mark_permanent_failure rec kind msg w).broadcasts ≡ w.broadcasts)
unfolding mark_permanent_failure
mark_permanent_failure_notifies rec kind msg w =
    let q = Quiet-trans (update-Quiet (failed_row w.clock kind msg rec) w) (shift-Quiet rec _) in
    (ap (◌∷◌ (failed_row w.clock kind msg rec)) q.notified, q.broadcasts)

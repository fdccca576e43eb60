-- ===== src/Submitter.antt =====
-- internal/submitter/submitter.go: what the submitter does to a claimed row, short of the calls to
-- the node and to Circle. The world is the store, the outcome of the database calls to come, and the
-- record of what left the process. Logging is left out. The clock is read once for each handler.
pub mod Remote
pub mod Prepare
pub mod Submit
pub mod Worker
pub mod Pipeline
pub mod Dispatch
pub mod Calls
pub mod Wired
pub mod Unavailable
use circle_wallet_service.Prelude.{
  ℕ, ◌+◌, Bool, true, false, not, ◌&&◌, ◌||◌, Option, none, some, List, [], ◌∷◌, String, ◌==◌, ltb,
  is_set, if◌then◌else◌, Result, ok, err,
}
use circle_wallet_service.Store.{
  TransactionRecord, StoreError, database, cancelled, queued, processing, failed,
}
use circle_wallet_service.Memory.{MemoryStore, update, list_by_status}
use circle_wallet_service.MemoryQueue.{
  release_sequence, reconcile_sequence, force_reset_sequence_to_chain, shift_sender_sequences,
}
use circle_wallet_service.Aptos.Errors.{lower_contains}

-- What happens to the next call of the database: it runs, it fails, or its context was cancelled.
pub data Fault : Type 0 where
  runs fails cancels : Fault

-- A signed transaction that was posted to the node.
pub record Broadcast : Type 0 where
  pub id : String
  pub seq : ℕ
  pub hash : String

pub record World : Type 0 where
  pub clock : ℕ
  pub store : MemoryStore
  -- in the order of the calls; past its end every call runs
  pub faults : List Fault
  -- newest first
  pub notified : List TransactionRecord
  pub broadcasts : List Broadcast

abbrev pub Op : Type 0 → Type 0
Op A = MemoryStore → Result StoreError (A × MemoryStore)

abbrev pub committed :
    {A : Type 0} → World → Result StoreError (A × MemoryStore) → Result StoreError A × World
committed w (ok (a, s)) = (ok a, record w { store = s })
committed w (err e) = (err e, w)

under : {A : Type 0} → Fault → Op A → World → Result StoreError A × World
under runs op w = committed w (op w.store)
under fails op w = (err database, w)
under cancels op w = (err cancelled, w)

attempt_with : {A : Type 0} → List Fault → Op A → World → Result StoreError A × World
unfolding under
attempt_with [] op w = under runs op (record w { faults = [] })
attempt_with (f ∷ fs) op w = under f op (record w { faults = fs })

-- One call of the database.
unfoldable pub attempt : {A : Type 0} → Op A → World → Result StoreError A × World
unfolding attempt_with
attempt op w = attempt_with w.faults op w

-- The operations of `store.Queue` that the submitter calls.
abbrev pub only : Result StoreError MemoryStore → Result StoreError (Unit {0} × MemoryStore)
only (ok s) = ok (tt, s)
only (err e) = err e

pub queue_update : TransactionRecord → World → Result StoreError (Unit {0}) × World
queue_update rec w = attempt (λ s. only (update w.clock rec s)) w

pub queue_release : String → World → World
queue_release addr w = (attempt (λ s. ok (tt {0}, release_sequence addr s)) w).1

pub queue_shift : String → ℕ → World → World
queue_shift addr n w = (attempt (λ s. ok (tt {0}, shift_sender_sequences w.clock addr n s)) w).1

pub queue_reconcile : String → ℕ → World → World
queue_reconcile addr n w = (attempt (λ s. ok (tt {0}, reconcile_sequence addr n s)) w).1

pub queue_force_reset : String → ℕ → World → World
queue_force_reset addr n w =
    (attempt (λ s. ok (tt {0}, force_reset_sequence_to_chain addr n s)) w).1

pub queue_list_processing : World → Result StoreError (List TransactionRecord) × World
queue_list_processing = attempt (λ s. ok (list_by_status processing s, s))

abbrev pub notify : TransactionRecord → World → World
notify rec w = record w { notified = rec ∷ w.notified }

pub failed_row : ℕ → String → String → TransactionRecord → TransactionRecord
failed_row now kind msg rec = record rec {
  status = failed;
  error_message = msg;
  failure_kind = kind;
  updated_at = now;
}

-- The sequence number of a row that held one is given up: its siblings are shifted.
shift_if_held : TransactionRecord → World → World
shift_if_held rec w = elim rec.sequence_number [
  | none ↦ w
  | some failed_seq ↦ queue_shift rec.sender_address failed_seq w
]

unfoldable pub mark_permanent_failure : TransactionRecord → String → String → World → World
unfolding failed_row shift_if_held
mark_permanent_failure rec kind msg w =
    let row = failed_row w.clock kind msg rec in
    notify row (shift_if_held rec (queue_update row w).1)

unfoldable pub mark_simulation_failure : TransactionRecord → String → String → World → World
unfolding mark_permanent_failure
mark_simulation_failure rec status msg w =
    mark_permanent_failure (record rec { vm_status = status }) "simulation" msg w

release_if_held : TransactionRecord → World → World
release_if_held rec w = if is_set rec.sequence_number then queue_release rec.sender_address w else w

pub retried_row : ℕ → String → TransactionRecord → TransactionRecord
retried_row now last rec = record rec {
  status = queued;
  sequence_number = none;
  attempt_count = rec.attempt_count + 1;
  last_error = last;
  updated_at = now;
}

unfoldable pub requeue_transient : TransactionRecord → String → World → World
unfolding retried_row release_if_held
requeue_transient rec msg w = release_if_held rec (queue_update (retried_row w.clock msg rec) w).1

pub given_back_row : ℕ → TransactionRecord → TransactionRecord
given_back_row now rec = record rec { status = queued; sequence_number = none; updated_at = now }

unfoldable pub requeue_record : TransactionRecord → World → World
unfolding given_back_row release_if_held
requeue_record rec w = release_if_held rec (queue_update (given_back_row w.clock rec) w).1

unfoldable pub requeue_without_release : TransactionRecord → World → World
unfolding given_back_row
requeue_without_release rec w = (queue_update (given_back_row w.clock rec) w).1

-- if p.SenderAddress != rec.SenderAddress || p.ID == rec.ID || p.TxnHash != "" { continue }
is_sibling : TransactionRecord → TransactionRecord → Bool
is_sibling rec p =
    p.sender_address == rec.sender_address && (not (p.id == rec.id) && p.txn_hash == "")

requeue_siblings : TransactionRecord → List TransactionRecord → World → World
unfolding is_sibling
requeue_siblings rec [] w = w
requeue_siblings rec (p ∷ ps) w =
    requeue_siblings rec ps (if is_sibling rec p then requeue_without_release p w else w)

requeue_listed : TransactionRecord → Result StoreError (List TransactionRecord) × World → World
unfolding requeue_siblings
requeue_listed rec (ok ps, w) = requeue_siblings rec ps w
requeue_listed rec (err e, w) = w

abbrev pub reconcile_note : String
reconcile_note = "sequence mismatch, re-queued after reconcile"

unfoldable pub apply_reconcile : TransactionRecord → ℕ → ℕ → World → World
unfolding requeue_listed retried_row
apply_reconcile rec local_seq chain_seq w =
    let w1 =
      if ltb chain_seq local_seq
      then queue_force_reset rec.sender_address chain_seq w
      else queue_reconcile rec.sender_address chain_seq w in
    (queue_update (retried_row w.clock reconcile_note rec)
      (requeue_listed rec (queue_list_processing w1))).1

-- A submit error that speaks of the sequence number.
unfoldable pub is_sequence_error : String → Bool
is_sequence_error msg =
    lower_contains msg "sequence_number"
    || (lower_contains msg "sequence number" || lower_contains msg "invalid_sequence")

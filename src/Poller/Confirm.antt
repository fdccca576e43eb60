-- ===== src/Poller/Confirm.antt =====
-- What `confirmRecord` of internal/poller/poller.go does to the store, and when it notifies.
use circle_wallet_service.Prelude.{
  [], arith, eq_iff, ℕ, ◌≡◌, refl, Bool, true, false, ◌⊎◌, inl, inr, Option, none, some, ◌∷◌,
  String, ◌==◌, ltb, Bool-cases, if◌then◌else◌, Result, ok, err,
}
use circle_wallet_service.GoMap.{lookup}
use circle_wallet_service.Store.{TransactionRecord, TxnStatus, StoreError, status_eq}
use circle_wallet_service.Memory.{update_if_status}
use circle_wallet_service.Memory.Crud.{lookup-replace, update_if_status-done}
use circle_wallet_service.Memory.Index.{IsIndexed, update_if_status_cases}
use circle_wallet_service.Submitter.{World}
use circle_wallet_service.Submitter.Calls.{Outcome, ran, refused, attempt-Outcome, attempt-calm}
use circle_wallet_service.Poller.{
  Chain, expired_row, confirmed_row, failed_on_chain, vm_status, settle, notify_if_updated, judged,
  looked_up, confirm_record,
}

-- A row was written over one in the expected status, and handed to the notifier once.
pub record Written (row : TransactionRecord) (expected : TxnStatus) (w w' : World) : Type 0 where
  pub old : TransactionRecord
  pub stored : lookup row.id w.store.records ≡ some old
  pub was : status_eq old.status expected ≡ true
  pub written :
      (id : String)
      → lookup id w'.store.records ≡ (
          if row.id == id
          then some (record row { updated_at = w.clock })
          else lookup id w.store.records)
  pub told : w'.notified ≡ row ∷ w.notified

-- Nothing was written, and nobody was told.
abbrev pub Untouched : World → World → Type 0
Untouched w w' = (w'.store ≡ w.store) × (w'.notified ≡ w.notified)

notify_if_updated-Written :
    (row : TransactionRecord) (expected : TxnStatus) (w : World)
    {r : Result StoreError Bool × World}
    → Outcome (update_if_status w.clock row expected) w r
    → Untouched w (notify_if_updated row r) ⊎ Written row expected w (notify_if_updated row r)
unfolding notify_if_updated
notify_if_updated-Written row expected w (ran fs true s e) =
    elim (update_if_status_cases w.clock row expected w.store e) [
      | inl (old, _, stored, was, done) ↦ inr (record {
        old = old;
        stored = stored;
        was = was;
        written = λ id. lookup-replace w.clock old row w.store id done;
        told = refl;
      })
      | inr (lost, _) ↦ cc
    ]
notify_if_updated-Written row expected w (ran fs false s e) =
    elim (update_if_status_cases w.clock row expected w.store e) [
      | inl (old, won, _, _, _) ↦ cc
      | inr (lost, same) ↦ inl (same, refl)
    ]
notify_if_updated-Written row expected w (refused fs e) = inl (refl, refl)

pub settle-Written :
    (row : TransactionRecord) (expected : TxnStatus) (w : World)
    → Untouched w (settle row expected w) ⊎ Written row expected w (settle row expected w)
unfolding settle
settle-Written row expected w = notify_if_updated-Written row expected w (attempt-Outcome _ w)

module _ (chain : Chain) where
  open chain use {Txn, by_hash, success}

  -- The ends that the node and the clock give a row.
  pub data Verdict (rec : TransactionRecord) (now : ℕ) : TransactionRecord → Type 0 where
    has_succeeded :
        (txn : Txn)
        → by_hash rec.txn_hash ≡ ok txn
        → success txn ≡ some true
        → Verdict rec now (confirmed_row now rec)
    has_failed :
        (txn : Txn)
        → by_hash rec.txn_hash ≡ ok txn
        → success txn ≡ some false
        → Verdict rec now (failed_on_chain now (vm_status chain txn) rec)
    is_unsent :
        (msg : String)
        → (rec.txn_hash == "") ≡ true
        → ltb rec.expires_at now ≡ true
        → Verdict rec now (expired_row now msg rec)
    is_unseen :
        (msg e : String)
        → by_hash rec.txn_hash ≡ err e
        → ltb rec.expires_at now ≡ true
        → Verdict rec now (expired_row now msg rec)

  pub record Settled (rec : TransactionRecord) (expected : TxnStatus) (w w' : World) : Type 0 where
    pub row : TransactionRecord
    pub verdict : Verdict rec w.clock row
    pub change : Written row expected w w'

  settle-Settled :
      (rec row : TransactionRecord) (expected : TxnStatus) (w : World)
      → Verdict rec w.clock row
      → Untouched w (settle row expected w) ⊎ Settled rec expected w (settle row expected w)
  settle-Settled rec row expected w v = elim (settle-Written row expected w) [
    | inl same ↦ inl same
    | inr change ↦ inr (record { row = row; verdict = v; change = change })
  ]

  judged-Settled :
      (rec : TransactionRecord) (expected : TxnStatus) (txn : Txn) (b : Option Bool) (w : World)
      → by_hash rec.txn_hash ≡ ok txn
      → success txn ≡ b
      → Untouched w (judged chain rec expected txn b w)
        ⊎ Settled rec expected w (judged chain rec expected txn b w)
  unfolding judged
  judged-Settled rec expected txn none w found e = inl (refl, refl)
  judged-Settled rec expected txn (some true) w found e =
      settle-Settled rec _ expected w (has_succeeded txn found e)
  judged-Settled rec expected txn (some false) w found e =
      settle-Settled rec _ expected w (has_failed txn found e)

  looked_up-Settled :
      (rec : TransactionRecord) (expected : TxnStatus) (r : Result String Txn) (w : World)
      → by_hash rec.txn_hash ≡ r
      → Untouched w (looked_up chain rec expected r w)
        ⊎ Settled rec expected w (looked_up chain rec expected r w)
  unfolding looked_up
  looked_up-Settled rec expected (ok txn) w found =
      judged-Settled rec expected txn (success txn) w found refl
  looked_up-Settled rec expected (err e) w found = elim (Bool-cases (ltb rec.expires_at w.clock)) [
    | inl late ↦ rw late (settle-Settled rec _ expected w (is_unseen _ e found late))
    | inr late ↦ rw late (inl (refl, refl))
  ]

  -- A confirmation writes nothing and tells nobody, or it gives the row the end that the node's answer
  -- or its age calls for: the row is written over one that was still in the expected status, no other
  -- row changes, and the notifier is told exactly once.
  pub confirm_settles :
      (rec : TransactionRecord) (expected : TxnStatus) (w : World)
      → Untouched w (confirm_record chain rec expected w)
        ⊎ Settled rec expected w (confirm_record chain rec expected w)
  unfolding confirm_record
  confirm_settles rec expected w = elim (Bool-cases (rec.txn_hash == "")) [
    | inl unsent ↦ rw unsent (elim (Bool-cases (ltb rec.expires_at w.clock)) [
      | inl late ↦ rw late (settle-Settled rec _ expected w (is_unsent _ unsent late))
      | inr late ↦ rw late (inl (refl, refl))
    ])
    | inr sent ↦ rw sent (looked_up-Settled rec expected (by_hash rec.txn_hash) w refl)
  ]

  -- With the index in order and the database up, a row whose transaction the node has seen succeed,
  -- and which is stored in the expected status under the same key, is confirmed: the notifier is told
  -- so, and the stored row is confirmed.
  pub confirm_live :
      (rec old : TransactionRecord) (expected : TxnStatus) (txn : Txn) (w : World)
      → IsIndexed w.store
      → w.faults ≡ []
      → (rec.txn_hash == "") ≡ false
      → by_hash rec.txn_hash ≡ ok txn
      → success txn ≡ some true
      → lookup rec.id w.store.records ≡ some old
      → status_eq old.status expected ≡ true
      → old.idempotency_key ≡ rec.idempotency_key
      → ((confirm_record chain rec expected w).notified ≡ confirmed_row w.clock rec ∷ w.notified)
        × (lookup rec.id (confirm_record chain rec expected w).store.records
            ≡ some (confirmed_row w.clock rec))
  unfolding confirm_record looked_up judged settle notify_if_updated confirmed_row
  confirm_live rec old expected txn w v calm sent seen good stored was same =
      let row = confirmed_row w.clock rec in
      let (t, won) = update_if_status-done w.clock row old expected w.store v stored was same in
      let done = attempt-calm (update_if_status w.clock row expected) w true t calm won in
      rw (sent, seen, good, done)
        (
          refl,
          elim (update_if_status_cases w.clock row expected w.store won) [
            | inl (before, _, _, _, put) ↦
                ground (
                  arith,
                  lookup-replace w.clock before row w.store rec.id put,
                  eq_iff rec.id rec.id,
                )
            | inr (lost, _) ↦ cc
          ],
        )

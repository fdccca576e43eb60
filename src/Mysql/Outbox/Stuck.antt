-- ===== src/Mysql/Outbox/Stuck.antt =====
-- The methods of internal/store/mysql/webhook.go on one delivery: what brings a delivery back that a
-- worker had claimed.
use circle_wallet_service.Prelude.{
  ℕ, ◌+◌, ◌≡◌, refl, Bool, false, ◌&&◌, Option, none, some, List, [], ◌∷◌, arith, String, ◌==◌,
  eq_iff, if◌then◌else◌, Bool-cases, Option-cases, inl, inr, ltb, ok, err, Result, All, take,
}
use mathlib.Core.Option.{map}
use circle_wallet_service.Store.{StoreError}
use circle_wallet_service.Webhook.{DeliveryRecord, delivering, pending, delivery_eq}
use circle_wallet_service.Mysql.{Engine, Database}
use circle_wallet_service.Mysql.Queue.{whole_seconds}
use circle_wallet_service.Mysql.Outbox.{
  delivery_with, update_deliveries, is_stale_delivery, recover_stale_deliveries,
  claim_pending_deliveries, set_delivering, create_delivery, update_delivery, set_outcome, is_among,
  due_order,
}

-- UPDATE on the one delivery that was read.
abbrev pub update_one :
    (DeliveryRecord → Bool)
    → (DeliveryRecord → DeliveryRecord)
    → Option DeliveryRecord
    → Option DeliveryRecord
update_one p f none = none
update_one p f (some d) = if p d then some (f d) else some d

pub delivery_with-update_deliveries :
    (p : DeliveryRecord → Bool) (f : DeliveryRecord → DeliveryRecord) (ds : List DeliveryRecord)
    (id : String)
    → ((d : DeliveryRecord) → (f d).id ≡ d.id)
    → delivery_with id (update_deliveries p f ds) ≡ update_one p f (delivery_with id ds)
unfolding delivery_with update_deliveries
delivery_with-update_deliveries p f [] id k = refl
delivery_with-update_deliveries p f (d ∷ ds) id k = elim (Bool-cases (p d)) [
  | inl e ↦ ground (arith, k d, delivery_with-update_deliveries p f ds id k)
  | inr e ↦ ground (arith, delivery_with-update_deliveries p f ds id k)
]

delivery_with-id :
    (id : String) (ds : List DeliveryRecord) {d : DeliveryRecord}
    → delivery_with id ds ≡ some d
    → d.id ≡ id
unfolding delivery_with
delivery_with-id id [] h = absurd (ground arith)
delivery_with-id id (x ∷ xs) {d} h = ground (arith, eq_iff x.id id, delivery_with-id id xs {d = d})

-- What a write of an outcome leaves under an id.
pub update_delivery-at :
    (engine : Engine) (rec : DeliveryRecord) (db : Database) (id : String)
    → delivery_with id (update_delivery engine rec db).webhook_deliveries ≡ (
        if rec.id == id
        then map (set_outcome engine rec) (delivery_with id db.webhook_deliveries)
        else delivery_with id db.webhook_deliveries)
unfolding update_delivery
update_delivery-at engine rec db id =
    rw
      (delivery_with-update_deliveries (λ x. x.id == rec.id) (set_outcome engine rec)
        db.webhook_deliveries id (λ _. refl))
      (elim (Option-cases (delivery_with id db.webhook_deliveries)) [
        | inl e ↦ rw e (ground arith)
        | inr (d, e) ↦ rw e (
            ground (
              arith,
              delivery_with-id id db.webhook_deliveries e,
              eq_iff d.id rec.id,
              eq_iff rec.id id,
            ))
      ])

-- A recovery gives a delivery back exactly if it was being delivered and its last attempt, which it must
-- have had, is older than the threshold in whole seconds; every other delivery stays as it is.
pub recover_stale_deliveries_exact :
    (now older_than : ℕ) (db : Database) (id : String)
    → delivery_with id (recover_stale_deliveries now older_than db).0.webhook_deliveries
      ≡ update_one
          (λ d. delivery_eq d.status delivering && elim d.last_attempt_at [
            | none ↦ false
            | some t ↦ ltb (t + whole_seconds older_than) now
          ])
          (λ d. record d { status = pending })
          (delivery_with id db.webhook_deliveries)
unfolding recover_stale_deliveries is_stale_delivery
recover_stale_deliveries_exact now older_than db id =
    delivery_with-update_deliveries _ _ db.webhook_deliveries id (λ _. refl)

-- The calls of the outbox.
pub data Call : Type 0 where
  recovers claims : ℕ → ℕ → Call
  enqueues saves : DeliveryRecord → Call

abbrev kept : Database → Result StoreError Database → Database
kept db (ok t) = t
kept db (err e) = db

unfoldable pub step : Engine → Call → Database → Database
step engine (recovers now older_than) db = (recover_stale_deliveries now older_than db).0
step engine (claims now limit) db = (claim_pending_deliveries now limit db).1
step engine (enqueues rec) db = kept db (create_delivery engine rec db)
step engine (saves rec) db = update_delivery engine rec db

unfoldable pub run : Engine → List Call → Database → Database
unfolding step
run engine [] db = db
run engine (c ∷ cs) db = run engine cs (step engine c db)

-- The calls that do not write the outcome of a delivery.
abbrev pub IsElsewhere : String → Call → Type 0
IsElsewhere id (saves rec) = (rec.id == id) ≡ false
IsElsewhere id _ = Unit

-- A delivery in the hands of a worker that has not yet attempted it.
pub record IsUnattempted (id : String) (d : DeliveryRecord) (db : Database) : Type 0 where
  pub held : delivery_with id db.webhook_deliveries ≡ some d
  pub claimed : d.status ≡ delivering
  pub fresh : d.last_attempt_at ≡ none

module _ (engine : Engine) (id : String) (d : DeliveryRecord) where
  recovers_stays :
      (now older_than : ℕ) (db : Database)
      → IsUnattempted id d db
      → delivery_with id (recover_stale_deliveries now older_than db).0.webhook_deliveries ≡ some d
  recovers_stays now older_than db u =
      rw (recover_stale_deliveries_exact now older_than db id, u.held)
        (ground (arith, u.claimed, u.fresh))

  claims_stays :
      (now limit : ℕ) (db : Database)
      → IsUnattempted id d db
      → delivery_with id (claim_pending_deliveries now limit db).1.webhook_deliveries ≡ some d
  unfolding claim_pending_deliveries
  claims_stays now limit db u =
      rw
        (
          delivery_with-update_deliveries
              (is_among (take limit (due_order now db.webhook_deliveries))) set_delivering
              db.webhook_deliveries id (λ _. refl),
          u.held,
        )
        (ground (arith, u.claimed))

  enqueues_stays :
      (rec : DeliveryRecord) (db : Database)
      → IsUnattempted id d db
      → delivery_with id (kept db (create_delivery engine rec db)).webhook_deliveries ≡ some d
  unfolding create_delivery delivery_with
  enqueues_stays rec db u = ground (arith, u.held, eq_iff rec.id id)

  saves_stays :
      (rec : DeliveryRecord) (db : Database)
      → (rec.id == id) ≡ false
      → IsUnattempted id d db
      → delivery_with id (update_delivery engine rec db).webhook_deliveries ≡ some d
  saves_stays rec db other u = rw (update_delivery-at engine rec db id, other) u.held

  step_stays :
      (c : Call) (db : Database)
      → IsElsewhere id c
      → IsUnattempted id d db
      → delivery_with id (step engine c db).webhook_deliveries ≡ some d
  unfolding step
  step_stays (recovers now older_than) db other u = recovers_stays now older_than db u
  step_stays (claims now limit) db other u = claims_stays now limit db u
  step_stays (enqueues rec) db other u = enqueues_stays rec db u
  step_stays (saves rec) db other u = saves_stays rec db other u

  -- A delivery that was claimed for the first time, and whose outcome is never written, stays as it is
  -- through any calls of the outbox: no recovery at any time gives it back.
  pub run_stuck :
      (calls : List Call) (db : Database)
      → All (IsElsewhere id) calls
      → IsUnattempted id d db
      → delivery_with id (run engine calls db).webhook_deliveries ≡ some d
  unfolding run
  run_stuck [] db others u = u.held
  run_stuck (c ∷ cs) db others u =
      run_stuck cs (step engine c db) others.1
        (record { held = step_stays c db others.0 u; claimed = u.claimed; fresh = u.fresh })

-- ===== src/Mysql/Outbox/Distinct.antt =====
-- The ids of the deliveries that `ClaimPendingDeliveries` of internal/store/mysql/webhook.go hands out.
use circle_wallet_service.Prelude.{
  ℕ, suc, zero, ◌≡◌, refl, false, some, List, [], ◌∷◌, Memᴰ, String, ◌==◌, eq_iff, arith, map, take,
  Bool-cases, inl, inr, leb, mem-map, Mem-map, mem-take, ap,
}
use circle_wallet_service.GoMap.{IsNodup}
use circle_wallet_service.Webhook.{DeliveryRecord}
use circle_wallet_service.Mysql.{Database}
use circle_wallet_service.Mysql.Outbox.{
  due_into, due_order, is_due, is_among, set_delivering, claim_pending_deliveries, delivery_with,
}
use circle_wallet_service.Mysql.Outbox.Claims.{mem-due_into, mem-due_order, mem-is_among}
use circle_wallet_service.Mysql.Outbox.Stuck.{delivery_with-update_deliveries}

abbrev pub ids : List DeliveryRecord → List String
ids ds = map (λ (d : DeliveryRecord). d.id) ds

-- Ids of some deliveries are ids of others, if the deliveries are.
ids-within :
    (xs ys : List DeliveryRecord) (j : String)
    → ((d : DeliveryRecord) → Memᴰ d xs → Memᴰ d ys)
    → Memᴰ j (ids xs)
    → Memᴰ j (ids ys)
ids-within xs ys j k m =
    let (d, (at_d, is_d)) = mem-map (λ (d : DeliveryRecord). d.id) xs m in
    rw is_d (Mem-map (λ (x : DeliveryRecord). x.id) ys (k d at_d))

swap_ne : (a b : String) → (a == b) ≡ false → (b == a) ≡ false
swap_ne a b h = ground (arith, h, eq_iff a b, eq_iff b a)

due_into-IsNodup :
    (d : DeliveryRecord) (xs : List DeliveryRecord)
    → IsNodup (ids (d ∷ xs))
    → IsNodup (ids (due_into d xs))
unfolding due_into
due_into-IsNodup d [] h = h
due_into-IsNodup d (y ∷ ys) h = elim (Bool-cases (leb d.next_retry_at y.next_retry_at)) [
  | inl e ↦ rw e h
  | inr e ↦ rw e (
    (λ j m. fresh j (ids-within (due_into d ys) (d ∷ ys) j (λ x n. mem-due_into d ys n) m)),
    due_into-IsNodup d ys ((λ j m. h.0 j (Memᴰ.tail m)), h.1.1),
  )
]
  where
    fresh : (j : String) → Memᴰ j (d.id ∷ ids ys) → (y.id == j) ≡ false
    fresh j (Memᴰ.head e) = rw e (swap_ne d.id y.id (h.0 y.id (Memᴰ.head refl)))
    fresh j (Memᴰ.tail m) = h.1.0 j m

due_order-IsNodup :
    (now : ℕ) (ds : List DeliveryRecord) → IsNodup (ids ds) → IsNodup (ids (due_order now ds))
unfolding due_order
due_order-IsNodup now [] h = tt
due_order-IsNodup now (d ∷ ds) h = elim (Bool-cases (is_due now d)) [
  | inl e ↦ rw e (
      due_into-IsNodup d (due_order now ds) (
        (λ j m. h.0 j (ids-within (due_order now ds) ds j (λ x n. (mem-due_order now ds n).0) m)),
        due_order-IsNodup now ds h.1,
      ))
  | inr e ↦ rw e (due_order-IsNodup now ds h.1)
]

pub take-IsNodup : (n : ℕ) (xs : List DeliveryRecord) → IsNodup (ids xs) → IsNodup (ids (take n xs))
take-IsNodup zero xs h = tt
take-IsNodup (suc n) [] h = tt
take-IsNodup (suc n) (x ∷ xs) h =
    ((λ j m. h.0 j (ids-within (take n xs) xs j (λ d k. mem-take n xs k) m)), take-IsNodup n xs h.1)

ids_delivering : (xs : List DeliveryRecord) → ids (map set_delivering xs) ≡ ids xs
ids_delivering [] = refl
ids_delivering (x ∷ xs) = ap (λ js. x.id ∷ js) (ids_delivering xs)

-- The deliveries of a claim differ in their ids.
pub claim-IsNodup :
    (now limit : ℕ) (db : Database)
    → IsNodup (ids db.webhook_deliveries)
    → IsNodup (ids (claim_pending_deliveries now limit db).0)
unfolding claim_pending_deliveries
claim-IsNodup now limit db h =
    rw (ids_delivering (take limit (due_order now db.webhook_deliveries))) (
      take-IsNodup limit (due_order now db.webhook_deliveries)
        (due_order-IsNodup now db.webhook_deliveries h))

Mem-delivery_with :
    (ds : List DeliveryRecord) {d : DeliveryRecord}
    → IsNodup (ids ds)
    → Memᴰ d ds
    → delivery_with d.id ds ≡ some d
unfolding delivery_with
Mem-delivery_with [] h m = elim m [ ]
Mem-delivery_with (x ∷ xs) {d} h (Memᴰ.head e) = rw e (ground (arith, eq_iff x.id x.id))
Mem-delivery_with (x ∷ xs) {d} h (Memᴰ.tail m) =
    rw (h.0 d.id (Mem-map (λ (y : DeliveryRecord). y.id) xs m)) (Mem-delivery_with xs h.1 m)

-- The row of a delivery that was claimed is what the claim handed out.
pub claimed-delivery_with :
    (now limit : ℕ) (db : Database) (d : DeliveryRecord)
    → IsNodup (ids db.webhook_deliveries)
    → Memᴰ d (claim_pending_deliveries now limit db).0
    → delivery_with d.id (claim_pending_deliveries now limit db).1.webhook_deliveries ≡ some d
unfolding claim_pending_deliveries
claimed-delivery_with now limit db d h m =
    let out = take limit (due_order now db.webhook_deliveries) in
    let (x, (at_x, is_d)) = mem-map set_delivering out m in
    let stands =
      Mem-delivery_with db.webhook_deliveries h
        (mem-due_order now db.webhook_deliveries
          (mem-take limit (due_order now db.webhook_deliveries) at_x)).0 in
    rw is_d (
      rw
        (
          delivery_with-update_deliveries (is_among out) set_delivering db.webhook_deliveries x.id
              (λ _. refl),
          stands,
          mem-is_among out x x at_x refl,
        )
        refl)

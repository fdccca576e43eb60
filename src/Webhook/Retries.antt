-- ===== src/Webhook/Retries.antt =====
-- What `deliver` of internal/webhook/worker.go makes of a delivery, and how long it goes on.
use circle_wallet_service.Prelude.{
  ℕ, zero, suc, ◌+◌, ◌^◌, ◌≤◌, ◌<◌, ◌≡◌, refl, Bool, true, false, ◌&&◌, ◌||◌, some, List, [], ◌∷◌,
  String, arith, ltb, leb, nat_eq, length, if◌then◌else◌, Bool-cases, inl, inr, ◌⊎◌, ◌∙◌,
}
use native.Mathlib.Nat.{two-pow-succ, one-le-pow}
use circle_wallet_service.Webhook.{
  DeliveryStatus, pending, delivering, delivered, delivery_eq, DeliveryRecord, Reply, not_built,
  http_error, answered, seconds, backoff, handle_retry, is_success, is_retryable, is_client_error,
  settled, deliver,
}

-- The replies that count as a delivery, and those that are worth another attempt: no answer, a timeout,
-- too many requests, and every answer but 2xx and 4xx.
abbrev pub succeeded : Reply → Bool
succeeded (not_built why) = false
succeeded (http_error why) = false
succeeded (answered code) = leb 200 code && ltb code 300

abbrev pub worth_retrying : Reply → Bool
worth_retrying (not_built why) = false
worth_retrying (http_error why) = true
worth_retrying (answered code) =
    nat_eq code 408
    || (nat_eq code 429 || (ltb code 200 || ((leb 300 code && ltb code 400) || leb 500 code)))

module _ (decimal : ℕ → String) (max_retries now later : ℕ) where
  -- A delivery counts one attempt, made at the time of the post. It ends as delivered exactly on a 2xx
  -- answer; it waits for another attempt exactly if the reply is worth one and attempts are left, and
  -- then until the backoff after the post; in every other case it has failed.
  pub deliver_settles :
      (reply : Reply) (rec : DeliveryRecord)
      → let r = deliver decimal max_retries now later reply rec in
        (r.attempts ≡ rec.attempts + 1)
        × ((r.last_attempt_at ≡ some now)
            × ((r.status ≡ (
                  if succeeded reply
                  then delivered
                  else if worth_retrying reply && ltb (rec.attempts + 1) max_retries
                  then pending
                  else DeliveryStatus.failed))
                × (r.next_retry_at ≡ (
                    if worth_retrying reply && ltb (rec.attempts + 1) max_retries
                    then later + seconds (backoff (rec.attempts + 1))
                    else rec.next_retry_at))))
  unfolding deliver settled handle_retry is_success is_retryable is_client_error
  deliver_settles (not_built why) rec = (refl, (refl, (refl, refl)))
  deliver_settles (http_error why) rec =
      (ground arith, (ground arith, (ground arith, ground arith)))
  deliver_settles (answered code) rec = (ground arith, (ground arith, (ground arith, ground arith)))

pub deliver-id :
    (decimal : ℕ → String) (max_retries now later : ℕ) (reply : Reply) (rec : DeliveryRecord)
    → (deliver decimal max_retries now later reply rec).id ≡ rec.id
unfolding deliver settled handle_retry
deliver-id decimal max_retries now later (not_built why) rec = refl
deliver-id decimal max_retries now later (http_error why) rec = ground arith
deliver-id decimal max_retries now later (answered code) rec = ground arith

pow_grows : (n : ℕ) → 1 ≤ n → 2 ≤ 2 ^ n
pow_grows zero h = absurd (omega (arith, h))
pow_grows (suc n) h = omega (arith, two-pow-succ n, one-le-pow n 2 (omega arith))

-- The backoff after an attempt is between 2 and 300 seconds.
pub backoff_bounds : (n : ℕ) → (2 ≤ backoff (n + 1)) × (backoff (n + 1) ≤ 300)
unfolding backoff
backoff_bounds n = (ground (arith, pow_grows (n + 1) (omega arith)), ground arith)

-- What a claim hands out: the delivery, marked.
abbrev pub claimed : DeliveryRecord → DeliveryRecord
claimed rec = record rec { status = delivering }

-- One attempt after another, each of a claimed delivery, until one does not leave it waiting: the two
-- times of each, and the reply.
unfoldable pub attempts_of :
    (ℕ → String) → ℕ → List (ℕ × (ℕ × Reply)) → DeliveryRecord → DeliveryRecord
attempts_of decimal max_retries [] rec = rec
attempts_of decimal max_retries ((now, (later, reply)) ∷ rest) rec =
    let once = deliver decimal max_retries now later reply (claimed rec) in
    let more = attempts_of decimal max_retries rest once in
    if delivery_eq once.status pending then more else once

-- Delivered, or failed.
abbrev pub HasEnded : DeliveryRecord → Type 0
HasEnded rec = (rec.status ≡ delivered) ⊎ (rec.status ≡ DeliveryStatus.failed)

module _ (decimal : ℕ → String) (max_retries : ℕ) where
  abbrev attempt_of : ℕ → ℕ → Reply → DeliveryRecord → DeliveryRecord
  attempt_of now later reply rec = deliver decimal max_retries now later reply (claimed rec)

  attempt-counts :
      (now later : ℕ) (reply : Reply) (rec : DeliveryRecord)
      → (attempt_of now later reply rec).attempts ≡ rec.attempts + 1
  attempt-counts now later reply rec =
      (deliver_settles decimal max_retries now later reply (claimed rec)).0

  -- An attempt ends a delivery, or leaves it waiting with attempts left.
  attempt-cases :
      (now later : ℕ) (reply : Reply) (rec : DeliveryRecord)
      → ((delivery_eq (attempt_of now later reply rec).status pending ≡ true)
          × ((attempt_of now later reply rec).attempts < max_retries))
        ⊎ ((delivery_eq (attempt_of now later reply rec).status pending ≡ false)
            × HasEnded (attempt_of now later reply rec))
  attempt-cases now later reply rec =
      let told = deliver_settles decimal max_retries now later reply (claimed rec) in
      elim (Bool-cases (succeeded reply)) [
        | inl won ↦
            let ends : (attempt_of now later reply rec).status ≡ delivered =
              told.1.1.0 ∙ ground (arith, won) in
            inr (rw ends refl, inl ends)
        | inr lost ↦
            elim (Bool-cases (worth_retrying reply && ltb (rec.attempts + 1) max_retries)) [
              | inl waits ↦
                  let left : (attempt_of now later reply rec).status ≡ pending =
                    told.1.1.0 ∙ ground (arith, lost, waits) in
                  inl (rw left refl, ground (arith, waits, told.0))
              | inr gone ↦
                  let ends : (attempt_of now later reply rec).status ≡ DeliveryStatus.failed =
                    told.1.1.0 ∙ ground (arith, lost, gone) in
                  inr (rw ends refl, inr ends)
            ]
      ]

  -- A delivery that is claimed and attempted, again while it waits, has been delivered or has failed
  -- after as many replies as the retries that are left, and at least one, whatever they are.
  pub attempts_end :
      (steps : List (ℕ × (ℕ × Reply))) (rec : DeliveryRecord)
      → 1 ≤ length steps
      → max_retries ≤ rec.attempts + length steps
      → HasEnded (attempts_of decimal max_retries steps rec)
  unfolding attempts_of
  attempts_end [] rec one enough = absurd (omega (arith, one))
  attempts_end ((now, (later, reply)) ∷ rest) rec one enough =
      elim (attempt-cases now later reply rec) [
        | inr (done, ended) ↦ rw done ended
        | inl (waits, left) ↦
            let counts = attempt-counts now later reply rec in
            rw waits (
              attempts_end rest (attempt_of now later reply rec)
                (ground (arith, counts, left, enough)) (ground (arith, counts, enough)))
      ]

  -- A delivery that has attempts left is posted no more often than the maximum, whatever the replies.
  pub attempts_bounded :
      (steps : List (ℕ × (ℕ × Reply))) (rec : DeliveryRecord)
      → rec.attempts < max_retries
      → (attempts_of decimal max_retries steps rec).attempts ≤ max_retries
  unfolding attempts_of
  attempts_bounded [] rec low = omega (arith, low)
  attempts_bounded ((now, (later, reply)) ∷ rest) rec low =
      elim (attempt-cases now later reply rec) [
        | inr (done, ended) ↦ rw done (ground (arith, attempt-counts now later reply rec, low))
        | inl (waits, left) ↦ rw waits (attempts_bounded rest (attempt_of now later reply rec) left)
      ]

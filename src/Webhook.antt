-- ===== src/Webhook.antt =====
-- internal/webhook: the outbox of webhooks. A delivery is a row; the worker claims it, posts it, and
-- writes back what came of it.
pub mod Retries
pub mod Batch
pub mod Notify
pub mod Dial
use circle_wallet_service.Prelude.{
  ℕ, ◌+◌, ◌*◌, ◌^◌, Bool, true, false, ◌&&◌, ◌||◌, Option, none, some, String, ◌==◌, ltb, leb,
  nat_eq, if◌then◌else◌,
}
use circle_wallet_service.Text.{concat}
use circle_wallet_service.Store.{TxnStatus, TransactionRecord}

pub data DeliveryStatus : Type 0 where
  pending delivering delivered failed : DeliveryStatus

pub record DeliveryRecord : Type 0 where
  pub id : String
  pub transaction_id : String
  pub url : String
  pub payload : String
  pub status : DeliveryStatus
  pub attempts : ℕ
  pub last_attempt_at : Option ℕ
  pub last_error : String
  pub next_retry_at : ℕ
  pub created_at : ℕ

-- Go's `==` on two statuses.
abbrev pub delivery_eq : DeliveryStatus → DeliveryStatus → Bool
delivery_eq pending pending = true
delivery_eq delivering delivering = true
delivery_eq delivered delivered = true
delivery_eq failed failed = true
delivery_eq _ _ = false

-- How a post ends: the request cannot be built, the call fails, or the receiver answers.
pub data Reply : Type 0 where
  not_built : String → Reply
  http_error : String → Reply
  answered : ℕ → Reply

abbrev pub seconds : ℕ → ℕ
seconds n = n * 1000000000

-- math.Pow(2, attempts), at most 300
unfoldable pub backoff : ℕ → ℕ
backoff attempts = if ltb 300 (2 ^ attempts) then 300 else 2 ^ attempts

unfoldable pub handle_retry : ℕ → ℕ → String → DeliveryRecord → DeliveryRecord
unfolding backoff
handle_retry max_retries now message rec =
    if leb max_retries rec.attempts
    then record rec { last_error = message; status = DeliveryStatus.failed }
    else record rec {
      last_error = message;
      next_retry_at = now + seconds (backoff rec.attempts);
      status = pending;
    }

-- rec.Attempts++; rec.LastAttemptAt = &now
abbrev pub attempted : ℕ → DeliveryRecord → DeliveryRecord
attempted now rec = record rec { attempts = rec.attempts + 1; last_attempt_at = some now }

pub is_success : ℕ → Bool
is_success code = leb 200 code && ltb code 300

pub is_retryable : ℕ → Bool
is_retryable code = nat_eq code 408 || nat_eq code 429

pub is_client_error : ℕ → Bool
is_client_error code = leb 400 code && ltb code 500

-- What an answer makes of a delivery; `decimal` is %d.
unfoldable pub settled : (ℕ → String) → ℕ → ℕ → Reply → DeliveryRecord → DeliveryRecord
unfolding is_success is_retryable is_client_error
settled decimal max_retries now (not_built why) rec = record rec {
  status = DeliveryStatus.failed;
  last_error = concat "build request: " why;
}
settled decimal max_retries now (http_error why) rec =
    handle_retry max_retries now (concat "http error: " why) rec
settled decimal max_retries now (answered code) rec =
    if is_success code
    then record rec { status = delivered; last_error = "" }
    else if is_retryable code
    then handle_retry max_retries now (concat "retryable client error: " (decimal code)) rec
    else if is_client_error code
    then record rec {
      status = DeliveryStatus.failed;
      last_error = concat "client error: " (decimal code);
    }
    else handle_retry max_retries now (concat "server error: " (decimal code)) rec

-- The record that a delivery hands to `update`: `now` is read before the post, `later` after it.
unfoldable pub deliver : (ℕ → String) → ℕ → ℕ → ℕ → Reply → DeliveryRecord → DeliveryRecord
deliver decimal max_retries now later reply rec =
    settled decimal max_retries later reply (attempted now rec)

-- The URL of the request, or else the global one.
unfoldable pub target : String → TransactionRecord → Option String
target global rec =
    if rec.webhook_url == ""
    then (if global == "" then none else some global)
    else some rec.webhook_url

-- The pending delivery of a record: `name` is a fresh id, and `body` the JSON of the payload.
unfoldable pub new_delivery : ℕ → String → String → String → TransactionRecord → DeliveryRecord
new_delivery now name url body rec = record {
  id = name;
  transaction_id = rec.id;
  url = url;
  payload = body;
  status = pending;
  attempts = 0;
  last_attempt_at = none;
  last_error = "";
  next_retry_at = now;
  created_at = now;
}

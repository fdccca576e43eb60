-- ===== src/Tests/WebhookExamples.antt =====
-- The theorems on the outbox of webhooks, on small tables.
use circle_wallet_service.Prelude.{
  ℕ, ◌+◌, ◌≡◌, ◌≢◌, ◌<◌, refl, true, false, Option, none, some, List, [], ◌∷◌, Memᴰ, String, ◌==◌,
  arith, if◌then◌else◌, ok, All, ◌&&◌, ltb, ◌⊎◌, nat_eq, take,
}
use circle_wallet_service.Handler.WebhookUrl.{Net}
use circle_wallet_service.Store.{queued}
use circle_wallet_service.Webhook.{
  DeliveryRecord, DeliveryStatus, pending, delivering, delivered, Reply, answered, http_error,
  seconds, backoff, deliver,
}
use circle_wallet_service.Webhook.Retries.{
  succeeded, worth_retrying, deliver_settles, attempts_of, HasEnded, attempts_end,
}
use circle_wallet_service.Webhook.Batch.{Outside, outcome, process_batch, process_batch_settles}
use circle_wallet_service.Webhook.Dial.{
  Wire, IsPublic, Resolves, ssrf_safe_dial, dial_safe, check_redirect, validate_redirect_url,
  check_redirect_safe, first_refused, refuses,
}
use circle_wallet_service.Mysql.{Database}
use circle_wallet_service.Mysql.Outbox.{
  delivery_with, is_due, set_delivering, claim_pending_deliveries, set_outcome, update_deliveries,
}
use circle_wallet_service.Mysql.Outbox.Distinct.{ids}
use circle_wallet_service.GoMap.{IsNodup}
use circle_wallet_service.Mysql.Outbox.Claims.{claim_pending_deliveries-once}
use circle_wallet_service.Mysql.Outbox.Stuck.{recovers, claims, run, run_stuck}
use circle_wallet_service.Tests.HandlerExamples.{net}
use circle_wallet_service.Tests.MysqlExamples.{server, row_at}

abbrev decimal : ℕ → String
decimal n = "503"

abbrev delivery : String → DeliveryStatus → ℕ → Option ℕ → DeliveryRecord
delivery name status attempts last = record {
  id = name;
  transaction_id = "t1";
  url = "https://example.com/hook";
  payload = "{}";
  status = status;
  attempts = attempts;
  last_attempt_at = last;
  last_error = "";
  next_retry_at = 10000000000;
  created_at = 10000000000;
}

abbrev waiting : DeliveryRecord
waiting = delivery "d1" pending 1 none

deliver_settles_example :
    let r = deliver decimal 5 20 30 (answered 503) waiting in
    (r.attempts ≡ waiting.attempts + 1)
    × ((r.last_attempt_at ≡ some 20)
        × ((r.status ≡ (
              if succeeded (answered 503)
              then delivered
              else if worth_retrying (answered 503) && ltb (waiting.attempts + 1) 5
              then pending
              else DeliveryStatus.failed))
            × (r.next_retry_at ≡ (
                if worth_retrying (answered 503) && ltb (waiting.attempts + 1) 5
                then 30 + seconds (backoff (waiting.attempts + 1))
                else waiting.next_retry_at))))
deliver_settles_example = deliver_settles decimal 5 20 30 (answered 503) waiting

abbrev replies : List (ℕ × (ℕ × Reply))
replies = (20, (30, answered 503)) ∷ (40, (50, http_error "refused")) ∷ []

attempts_end_example : HasEnded (attempts_of decimal 3 replies waiting)
attempts_end_example = attempts_end decimal 3 replies waiting (omega arith) (omega arith)

abbrev outbox : Database
outbox = record {
  transactions = row_at "t1" "0xa" "" queued none 5 ∷ [];
  account_sequences = [];
  webhook_deliveries = waiting ∷ delivery "d2" delivering 0 none ∷ [];
}

-- The deliveries of a claim, and those of a claim a minute later, on the same rows.
abbrev two_due : Database
two_due = record outbox {
  webhook_deliveries = waiting ∷ record waiting { id = "d3"; next_retry_at = 70000000000 } ∷ [];
}

claims_first : Memᴰ (set_delivering waiting) (claim_pending_deliveries 20000000000 10 two_due).0
unfolding claim_pending_deliveries is_due
claims_first = Memᴰ.head refl

claims_second :
    Memᴰ
      (set_delivering (record waiting { id = "d3"; next_retry_at = 70000000000 }))
      (claim_pending_deliveries 80000000000 10
        (claim_pending_deliveries 20000000000 10 two_due).1).0
unfolding claim_pending_deliveries is_due update_deliveries
claims_second = Memᴰ.head refl

claim_pending_deliveries-once_example : waiting.id ≢ "d3"
claim_pending_deliveries-once_example =
    claim_pending_deliveries-once 20000000000 10 80000000000 10 two_due (set_delivering waiting)
      (set_delivering (record waiting { id = "d3"; next_retry_at = 70000000000 })) claims_first
      claims_second

run_stuck_example :
    delivery_with "d2"
      (run server
        (recovers 900000000000 300000000000 ∷ claims 900000000000 10 ∷ [])
        outbox).webhook_deliveries
    ≡ some (delivery "d2" delivering 0 none)
run_stuck_example =
    run_stuck server "d2" (delivery "d2" delivering 0 none)
      (recovers 900000000000 300000000000 ∷ claims 900000000000 10 ∷ []) outbox (tt, (tt, tt))
      (record { held = unfold delivery_with in refl; claimed = refl; fresh = refl })

-- The first delivery is answered and the second is not; both writes reach the database.
abbrev world : Outside
world = record {
  now = λ _. 20000000000;
  later = λ _. 21000000000;
  reply = λ d. if d.id == "d1" then answered 200 else http_error "refused";
  saves = λ _. true;
}

outbox-ids : IsNodup (ids outbox.webhook_deliveries)
outbox-ids = (only_d2, ((λ j m. elim m [ ]), tt))
  where
    only_d2 : (j : String) → Memᴰ j ("d2" ∷ []) → ("d1" == j) ≡ false
    only_d2 j (Memᴰ.head e) = rw e refl
    only_d2 j (Memᴰ.tail m) = elim m [ ]

starts_d1 :
    Memᴰ (set_delivering waiting) (take 5 (claim_pending_deliveries 20000000000 10 outbox).0)
unfolding claim_pending_deliveries is_due
starts_d1 = Memᴰ.head refl

process_batch_settles_example :
    ((row : DeliveryRecord) × (Memᴰ row outbox.webhook_deliveries
        × ((is_due 20000000000 row ≡ true) × (set_delivering waiting ≡ set_delivering row))))
    × (delivery_with "d1"
          (process_batch server decimal 5 world 20000000000 5 outbox).webhook_deliveries
        ≡ some (
            set_outcome server
              (outcome server decimal 5 world (set_delivering waiting))
              (set_delivering waiting)))
process_batch_settles_example =
    process_batch_settles server decimal 5 world 20000000000 5 outbox (set_delivering waiting)
      outbox-ids starts_d1 refl

-- A resolver that answers with a public and a private address.
abbrev split_net : Net
split_net = record net { lookup_ip = λ _. ok (8 ∷ 10 ∷ []); is_private = λ ip. nat_eq ip 10 }

abbrev wire : Wire split_net
wire = record {
  Conn = ℕ;
  split_host_port = λ addr. ok (addr, "443");
  ip_string = λ _. "10.0.0.1";
  quote = λ s. s;
  scheme = λ _. "https";
  connect = λ ip _. ok ip;
}

dial_safe_example : All (IsPublic split_net wire) (ssrf_safe_dial split_net wire "example.com").1
dial_safe_example = dial_safe split_net wire "example.com"

abbrev open_wire : Wire net
open_wire = record {
  Conn = ℕ;
  split_host_port = λ addr. ok (addr, "443");
  ip_string = λ _. "8.8.8.8";
  quote = λ s. s;
  scheme = λ _. "https";
  connect = λ ip _. ok ip;
}

follows : check_redirect net open_wire "example.com" 1 ≡ ok tt
unfolding check_redirect validate_redirect_url first_refused refuses
follows = refl

check_redirect_safe_example :
    (1 < 5)
    × (((net.lower_scheme "example.com" ≡ "http") ⊎ (net.lower_scheme "example.com" ≡ "https"))
        × (((ip : ℕ) → net.parse_ip "example.com" ≡ some ip → IsPublic net open_wire ip)
            × ((ips : List ℕ)
                → Resolves net open_wire "example.com" ips
                → All (IsPublic net open_wire) ips)))
check_redirect_safe_example = check_redirect_safe net open_wire "example.com" 1 follows

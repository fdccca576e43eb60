-- ===== src/Tests/MysqlExamples.antt =====
-- The theorems on the MySQL store, on small tables.
use circle_wallet_service.Prelude.{
  ℕ, ◌+◌, ◌-◌, ◌*◌, ◌/◌, ◌≡◌, refl, Option, none, some, [], ◌∷◌, String, ◌==◌, arith, ltb,
  if◌then◌else◌, ok, err, ◌⊎◌,
}
use circle_wallet_service.GoMap.{lookup}
use circle_wallet_service.Store.{TransactionRecord, queued, processing, TxnStatus, database}
use circle_wallet_service.Mysql.{Engine, Subtracts, Row, Database}
use circle_wallet_service.Mysql.Rows.{row_of, columns, stored, fits, is_blank}
use circle_wallet_service.Mysql.Tables.{row_with, HasUniqueIds, rows_that, count_where}
use circle_wallet_service.Mysql.Crud.{create, get}
use circle_wallet_service.Mysql.Crud.Writes.{create_keeps}
use circle_wallet_service.Mysql.Contract.{Claimed}
use circle_wallet_service.Mysql.Queue.{
  claim, shift, recover_stale, is_shifted_row, is_stale_row, whole_seconds,
}
use circle_wallet_service.Mysql.Queue.Claims.{mysql_view, claim_refines}
use circle_wallet_service.Mysql.Queue.Requeues.{Requeued, Short, Covered, shifted, shift_lowers}
use circle_wallet_service.Mysql.Queue.Recoveries.{taken_back, recover_stale_exact, recover_blocked}
use circle_wallet_service.Tests.Samples.{first}

-- A server whose TIMESTAMP columns round to seconds.
abbrev pub server : Engine
server = record {
  sub_unsigned = λ a b. if ltb a b then none else some (a - b);
  timestamp = λ t. (t + 500000000) / 1000000000 * 1000000000;
  json = λ text. some text;
  same_text = λ a b. a == b;
}

pub server-Subtracts : Subtracts server
server-Subtracts = record {
  within = λ a b h. ground (arith, h);
  beyond = λ a b h. ground (arith, h);
}

-- A sample row, written at a second.
abbrev pub row_at : String → String → String → TxnStatus → Option ℕ → ℕ → Row
row_at name addr key status seq at = record {
  id = name;
  sender_address = addr;
  wallet_id = "w1";
  fee_payer_wallet_id = none;
  fee_payer_address = none;
  status = status;
  sequence_number = seq;
  function_id = "0x1::coin::transfer";
  payload_json = "{}";
  max_gas_amount = none;
  idempotency_key = if key == "" then none else some key;
  txn_hash = none;
  error_message = none;
  webhook_url = none;
  attempt_count = 0;
  last_error = none;
  failure_kind = none;
  vm_status = none;
  created_at = at * 1000000000;
  updated_at = at * 1000000000;
  expires_at = (at + 100) * 1000000000;
}

abbrev pub queued_rows : Database
queued_rows = record {
  transactions = row_at "t2" "0xa" "" queued none 20 ∷ row_at "t1" "0xa" "k1" queued none 10 ∷ [];
  account_sequences = ("0xa", 7) ∷ [];
  webhook_deliveries = [];
}

pub queued_rows-HasUniqueIds : HasUniqueIds queued_rows.transactions
unfolding row_with
queued_rows-HasUniqueIds = (refl, (refl, tt))

claim_refines_example :
    (o : Option TransactionRecord) × ((t : Database) × ((claim server 50000000000 "0xa" queued_rows
          ≡ (ok o, t))
        × (HasUniqueIds t.transactions
            × Claimed
                (server.timestamp 50000000000)
                "0xa"
                (mysql_view queued_rows)
                (mysql_view t)
                o)))
claim_refines_example =
    claim_refines server 50000000000 "0xa" queued_rows queued_rows-HasUniqueIds
      (unfold lookup in omega arith)

-- Two processing rows and a counter past them.
abbrev processing_rows : Database
processing_rows = record {
  transactions =
      row_at "t3" "0xa" "" processing (some 4) 5 ∷ row_at "t4" "0xa" "" processing (some 5) 30 ∷ [];
  account_sequences = ("0xa", 6) ∷ [];
  webhook_deliveries = [];
}

shift_lowers_example :
    (Short "0xa" (shifted "0xa" 4 processing_rows) processing_rows
      × (shift server 40000000000 "0xa" 4 processing_rows ≡ (err database, processing_rows)))
    ⊎ ((((shift server 40000000000 "0xa" 4 processing_rows).0 ≡ ok tt)
          × Covered "0xa" (shifted "0xa" 4 processing_rows) processing_rows)
        × Requeued
            (is_shifted_row "0xa" 4)
            (server.timestamp 40000000000)
            (λ other. if "0xa" == other then shifted "0xa" 4 processing_rows else 0)
            processing_rows
            (shift server 40000000000 "0xa" 4 processing_rows).1)
shift_lowers_example = shift_lowers server server-Subtracts 40000000000 "0xa" 4 processing_rows

two_stale :
    (addr : String)
    → ¬ Short addr
        (taken_back server server-Subtracts 100000000000 30000000000 processing_rows addr)
        processing_rows
unfolding count_where is_stale_row lookup
two_stale addr (n, (e, low)) = ground (arith, e, low)

recover_stale_exact_example :
    ((recover_stale server 100000000000 30000000000 processing_rows).0
      ≡ ok (
          count_where
            (is_stale_row 100000000000 (whole_seconds 30000000000))
            processing_rows.transactions))
    × Requeued
        (is_stale_row 100000000000 (whole_seconds 30000000000))
        (server.timestamp 100000000000)
        (taken_back server server-Subtracts 100000000000 30000000000 processing_rows)
        processing_rows
        (recover_stale server 100000000000 30000000000 processing_rows).1
recover_stale_exact_example =
    recover_stale_exact server server-Subtracts 100000000000 30000000000 processing_rows two_stale

-- The counter was reset below the number of stale rows.
abbrev short_rows : Database
short_rows = record processing_rows { account_sequences = ("0xa", 1) ∷ [] }

counter_low :
    Short "0xa"
      (taken_back server server-Subtracts 100000000000 30000000000 short_rows "0xa")
      short_rows
unfolding count_where is_stale_row lookup
counter_low = (1, (refl, omega arith))

recover_blocked_example :
    recover_stale server 100000000000 30000000000 short_rows ≡ (err database, short_rows)
recover_blocked_example =
    recover_blocked server server-Subtracts 100000000000 30000000000 short_rows "0xa" counter_low

abbrev empty_tables : Database
empty_tables = record { transactions = []; account_sequences = []; webhook_deliveries = [] }

abbrev with_first : Database
with_first = record empty_tables { transactions = columns server first "{}" ∷ [] }

takes_first : row_of server first ≡ ok (columns server first "{}")
unfolding row_of fits
takes_first = refl

creates_first : create server first empty_tables ≡ ok with_first
unfolding create row_with columns row_of is_blank rows_that
creates_first = refl

create_keeps_example :
    (payload : String) × ((server.json first.payload_json ≡ some payload)
      × ((id : String)
          → get id with_first
            ≡ (if first.id == id then some (stored server first payload) else get id empty_tables)))
create_keeps_example = create_keeps server first empty_tables with_first creates_first

abbrev rival : TransactionRecord
rival = record first { id = "t9" }

takes_rival : row_of server rival ≡ ok (columns server rival "{}")
unfolding row_of fits
takes_rival = refl

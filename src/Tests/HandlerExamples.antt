-- ===== src/Tests/HandlerExamples.antt =====
-- The theorem on the handler, where a request is sent twice.
use circle_wallet_service.Prelude.{ℕ, ◌≡◌, refl, false, none, some, [], ◌∷◌, String, ok}
use circle_wallet_service.GoMap.{lookup, insert}
use circle_wallet_service.Memory.{new_memory_store, create}
use circle_wallet_service.Store.{TransactionRecord}
use circle_wallet_service.MemoryQueue.Invariant.{run, step, creates}
use circle_wallet_service.Submitter.{World}
use circle_wallet_service.Handler.WebhookUrl.{Net}
use circle_wallet_service.Handler.Execute.{Codec, ExecuteRequest}
use circle_wallet_service.Tests.Samples.{first}

abbrev pub net : Net
net = record {
  Url = String;
  Ip = ℕ;
  parse_url = ok;
  lower_scheme = λ _. "https";
  hostname = λ u. u;
  parse_ip = λ _. none;
  lookup_ip = λ _. ok (8 ∷ []);
  equal_fold = λ _ _. false;
  is_loopback = λ _. false;
  is_private = λ _. false;
  is_link_local_unicast = λ _. false;
  is_link_local_multicast = λ _. false;
  is_unspecified = λ _. false;
}

abbrev pub codec : Codec
codec = record {
  Payload = String;
  Address = String;
  parse_address = ok;
  string_long = λ a. a;
  verify_key = λ _ _. none;
  marshal = ok;
}

abbrev pub request : ExecuteRequest String
request = record {
  wallet_id = "w1";
  address = "0xa";
  public_key = "";
  function_id = "0x1::coin::transfer";
  payload = "{}";
  max_gas_amount = none;
  webhook_url = "";
  idempotency_key = "";
  fee_payer = none;
}

abbrev w0 : World
w0 = record {
  clock = 90;
  store = run (creates 60 first ∷ []) (new_memory_store 1000);
  faults = [];
  notified = [];
  broadcasts = [];
}

abbrev kept : TransactionRecord
kept = record first { created_at = 60; updated_at = 60 }

is_kept : lookup "t1" w0.store.records ≡ some kept
unfolding run step create new_memory_store lookup insert
is_kept = refl

-- ===== src/Tests/ServerExamples.antt =====
-- The theorems on the server, with two requests under one key, and one without.
use circle_wallet_service.Prelude.{
  ℕ, ◌≡◌, ◌≢◌, refl, true, false, none, some, [], String, ◌⊎◌, inl, ok, err,
}
use circle_wallet_service.Store.{TransactionRecord, queued}
use circle_wallet_service.Mysql.Crud.{create, get_by_idempotency_key}
use circle_wallet_service.Mysql.Tables.{rows_that, row_with}
use circle_wallet_service.Mysql.Rows.{row_of, columns, is_blank, stored}
use circle_wallet_service.Tests.MysqlExamples.{server}
use circle_wallet_service.Aptos.Abi.{new_abi_cache}
use circle_wallet_service.Handler.Execute.{accepts, execute, new_row}
use circle_wallet_service.Handler.Lookups.{found}
use circle_wallet_service.Handler.RateLimit.{Limiter, passes}
use circle_wallet_service.Config.{default_config}
use circle_wallet_service.Server.{
  Libraries, Request, Meanwhile, State, plain, executed, looked_up, handle, mux, inner,
  presented_key, authorized, serve,
}
use circle_wallet_service.Server.Routes.{
  route, extract_bearer_token, transaction_endpoint, webhooks_endpoint, no_handler,
}
use circle_wallet_service.Server.Guard.{keyless_refused}
use circle_wallet_service.Server.Trips.{sent_found, sent_again}
use circle_wallet_service.Tests.HandlerExamples.{net, codec, request}
use circle_wallet_service.Tests.CacheExamples.{sdk, chain}
use circle_wallet_service.Tests.ConfigExamples.{no_files, variables, settings, loads}

routes_paths :
    (route "GET" "/v1/transactions/t7" ≡ transaction_endpoint "t7")
    × (route "HEAD" "/v1/transactions/t7/webhooks" ≡ webhooks_endpoint "t7")
    × (route "POST" "/v1/transactions/t7" ≡ no_handler 405)
    × (route "GET" "/v1//health" ≡ no_handler 301)
    × (route "GET" "/v1/transactions/" ≡ no_handler 404)
unfolding route
routes_paths = (refl, refl, refl, refl, refl)

strips_bearer :
    (extract_bearer_token "beaRER key" ≡ "key") × (extract_bearer_token "Basic key" ≡ "Basic key")
unfolding extract_bearer_token
strips_bearer = (refl, refl)

-- A bucket counts the tokens left.
abbrev limiter : Limiter
limiter = record {
  Bucket = ℕ;
  new_limiter = λ rate burst. burst;
  allow = λ now tokens. (true, tokens);
}

abbrev libs : Libraries
libs = record {
  engine = server;
  net = net;
  codec = codec;
  sdk = sdk;
  chain = chain;
  limiter = limiter;
  expiration = 100;
}

abbrev st0 : State ℕ
st0 = record {
  world = record {
    clock = 50;
    tables = record { transactions = []; account_sequences = []; webhook_deliveries = [] };
    faults = [];
  };
  abi = new_abi_cache;
  bucket = 5;
}

abbrev during : String → Meanwhile
during id = record { fresh_id = id; later = 60; reachable = true; deliveries = λ _. ok [] }

abbrev sends : Request String ℕ
sends = record {
  method = "POST";
  path = "/v1/execute";
  deep = "";
  authorization = "Bearer key";
  x_api_key = "";
  idempotency_key = "k7";
  execute_body = ok request;
  query_body = err "no body";
}

abbrev bare : Request String ℕ
bare = record sends { authorization = "" }

abbrev reads : Request String ℕ
reads = record sends { method = "GET"; path = "/v1/transactions/u1" }

abbrev row : TransactionRecord
row = record {
  id = "u1";
  idempotency_key = "k7";
  status = queued;
  txn_hash = "";
  sender_address = "0xa";
  function_id = "0x1::coin::transfer";
  wallet_id = "w1";
  fee_payer_wallet_id = "";
  fee_payer_address = "";
  payload_json = "{}";
  sequence_number = none;
  max_gas_amount = none;
  error_message = "";
  webhook_url = "";
  attempt_count = 0;
  last_error = "";
  failure_kind = "";
  vm_status = "";
  created_at = 50;
  updated_at = 50;
  expires_at = 150;
}

is_accepted : (serve libs settings (during "u1") sends st0).0 ≡ executed (accepts false row)
unfolding serve authorized presented_key extract_bearer_token inner passes mux handle route execute
    new_row create get_by_idempotency_key row_of columns is_blank default_config rows_that row_with
is_accepted = refl

is_calm : (serve libs settings (during "u1") sends st0).1.world.faults ≡ []
unfolding serve authorized presented_key extract_bearer_token inner passes mux handle route execute
    new_row create get_by_idempotency_key row_of columns is_blank default_config rows_that row_with
is_calm = refl

keyless_refused_example :
    ((serve libs settings (during "u1") bare st0).1 ≡ st0)
    × (((bare.path ≡ "/v1/health") × (bare.deep ≢ "1"))
        ⊎ ((serve libs settings (during "u1") bare st0).0 ≡ plain 401 "unauthorized"))
keyless_refused_example =
    keyless_refused no_files (variables "9000") libs settings (during "u1") bare st0 loads refl
      (inl (unfold presented_key in unfold extract_bearer_token in refl))

sent_found_example :
    let after =
      serve libs settings (during "u2") reads (serve libs settings (during "u1") sends st0).1 in
    (payload : String) × ((some "{}" ≡ some payload)
      × ((after.0 ≡ looked_up (found (stored server row payload)))
          × (after.1.world.tables ≡ (serve libs settings (during "u1") sends st0).1.world.tables)))
sent_found_example =
    sent_found libs settings (during "u1") (during "u2") sends reads st0 request row (λ e. cc) refl
      is_accepted is_calm (unfold route in refl)
      (
        unfold authorized in unfold presented_key in unfold extract_bearer_token in refl,
        unfold passes in unfold default_config in refl,
      )

sent_again_example :
    let after =
      serve libs settings (during "u2") sends (serve libs settings (during "u1") sends st0).1 in
    (payload : String) × ((some "{}" ≡ some payload)
      × ((after.0 ≡ executed (accepts true (stored server row payload)))
          × (after.1.world.tables ≡ (serve libs settings (during "u1") sends st0).1.world.tables)))
sent_again_example =
    sent_again libs settings (during "u1") (during "u2") sends sends st0 request request row refl
      is_accepted is_calm (unfold is_blank in refl) refl (λ e. cc) refl (unfold route in refl)
      (
        unfold authorized in unfold presented_key in unfold extract_bearer_token in refl,
        unfold passes in unfold default_config in refl,
      )

-- ===== src/Server.antt =====
-- cmd/server/main.go: the handler that `run` builds from the settings. The paths of requests start
-- with a slash and hold no escaped slash.
pub mod Routes
pub mod Tables
pub mod Guard
pub mod Trips
use circle_wallet_service.Prelude.{
  ℕ, Bool, true, false, not, ◌&&◌, ◌||◌, Option, none, some, List, [], ◌∷◌, String, ◌==◌,
  if◌then◌else◌, Result, ok, err,
}
use circle_wallet_service.Text.{runes}
use circle_wallet_service.Store.{StoreError}
use circle_wallet_service.Mysql.{Engine}
use circle_wallet_service.Server.Tables.{Service, over_mysql}
use circle_wallet_service.Webhook.{DeliveryRecord}
use circle_wallet_service.Aptos.Args.{Sdk}
use circle_wallet_service.Aptos.Abi.{AbiCache}
use circle_wallet_service.Handler.WebhookUrl.{Net}
use circle_wallet_service.Handler.Execute.{Codec, ExecuteRequest, Response, execute}
use circle_wallet_service.Handler.Query.{Chain, QueryRequest, QueryResponse, query}
use circle_wallet_service.Handler.Lookups.{Lookup, get_transaction, list_webhook_deliveries}
use circle_wallet_service.Handler.RateLimit.{Limiter, passes}
use circle_wallet_service.Config.{Config}
use circle_wallet_service.Server.Routes.{
  Endpoint, execute_endpoint, query_endpoint, health_endpoint, transaction_endpoint,
  webhooks_endpoint, no_handler, route, extract_bearer_token,
}

-- What is read of a request; a header that is not there is empty. The bodies are what decodeJSON
-- gives for the two handlers that read one.
pub record Request (Payload Float : Type 0) : Type 0 where
  pub method : String
  pub path : String
  pub deep : String
  pub authorization : String
  pub x_api_key : String
  pub idempotency_key : String
  pub execute_body : Result String (ExecuteRequest Payload)
  pub query_body : Result String (QueryRequest Float)

-- What a handler meets while it runs: the id that uuid.New gives, the time when a module was fetched,
-- whether MySQL answers a ping, and the outbox.
pub record Meanwhile : Type 0 where
  pub fresh_id : String
  pub later : ℕ
  pub reachable : Bool
  pub deliveries : String → Result StoreError (List DeliveryRecord)

pub data Reply : Type 0 where
  plain : ℕ → String → Reply
  executed : Response → Reply
  queried : QueryResponse → Reply
  looked_up : Lookup → Reply

pub record State (Bucket : Type 0) : Type 0 where
  pub world : Service
  pub abi : AbiCache
  pub bucket : Bucket

-- The libraries, and the expiration of a row in nanoseconds.
pub record Libraries : Type 1 where
  pub engine : Engine
  pub net : Net
  pub codec : Codec
  pub sdk : Sdk
  pub chain : Chain sdk
  pub limiter : Limiter
  pub expiration : ℕ

-- circleSigner != nil, and aptosClient != nil
unfoldable pub has_circle : Config → Bool
has_circle cfg = not (cfg.circle.api_key == "") && not (cfg.circle.entity_secret == "")

unfoldable pub has_aptos : Config → Bool
has_aptos cfg = not (cfg.aptos.node_url == "")

module _ (libs : Libraries) where
  abbrev pub Req : Type 0
  Req = Request libs.codec.Payload libs.sdk.Float

  abbrev pub St : Type 0
  St = State libs.limiter.Bucket

  -- The key that a request presents, in either header.
  unfoldable pub presented_key : Req → String
  presented_key req =
      extract_bearer_token (if req.authorization == "" then req.x_api_key else req.authorization)

module _ (libs : Libraries) (cfg : Config) where
  in_world : St libs → Response × Service → Reply × St libs
  in_world st (r, w) = (executed r, record st { world = w })

  in_cache : St libs → (QueryResponse × Option (List (List ℕ))) × AbiCache → Reply × St libs
  in_cache st ((r, made), c) = (queried r, record st { abi = c })

  in_store : St libs → Lookup × Service → Reply × St libs
  in_store st (r, w) = (looked_up r, record st { world = w })

  health : Bool → String → Reply
  health reachable deep =
      if deep == "1"
      then if reachable
        then plain 200 "{\"status\":\"ok\",\"db\":\"ok\"}"
        else plain 500 "{\"status\":\"error\",\"db\":\"unreachable\"}"
      else plain 200 "{\"status\":\"ok\"}"

  -- The handlers behind the routes.
  unfoldable pub handle : Endpoint → Meanwhile → Req libs → St libs → Reply × St libs
  unfolding in_world in_cache in_store health has_circle has_aptos
  handle execute_endpoint m req st =
      if has_aptos cfg && has_circle cfg
      then in_world st (
          execute (over_mysql libs.engine) libs.net libs.codec libs.expiration m.fresh_id
            req.execute_body req.idempotency_key st.world)
      else (plain 503 "execute endpoint not configured (missing Circle or Aptos credentials)", st)
  handle query_endpoint m req st =
      if has_aptos cfg
      then in_cache st (query libs.sdk libs.chain st.world.clock m.later req.query_body st.abi)
      else (plain 503 "query endpoint not configured (missing Aptos credentials)", st)
  handle health_endpoint m req st = (health m.reachable req.deep, st)
  handle (transaction_endpoint id) m req st =
      in_store st (get_transaction (over_mysql libs.engine) id st.world)
  handle (webhooks_endpoint id) m req st = (looked_up (list_webhook_deliveries m.deliveries id), st)
  handle (no_handler code) m req st = (plain code "", st)

  unfoldable pub mux : Meanwhile → Req libs → St libs → Reply × St libs
  mux m req st = handle (route req.method req.path) m req st

  limited : Meanwhile → Req libs → St libs → Bool × libs.limiter.Bucket → Reply × St libs
  limited m req st (true, b) = mux m req (record st { bucket = b })
  limited m req st (false, b) = (plain 429 "rate limit exceeded", record st { bucket = b })

  -- The rate limit, then the routes.
  unfoldable pub inner : Meanwhile → Req libs → St libs → Reply × St libs
  unfolding limited
  inner m req st =
      limited m req st (passes libs.limiter cfg.rate_limit.enabled st.world.clock st.bucket)

  unfoldable pub authorized : Req libs → Bool
  unfolding presented_key
  authorized req = presented_key libs req == cfg.server.api_key

  guarded : Meanwhile → Req libs → St libs → Reply × St libs
  guarded m req st = if authorized req then inner m req st else (plain 401 "unauthorized", st)

  unfoldable pub serve : Meanwhile → Req libs → St libs → Reply × St libs
  unfolding guarded
  serve m req st =
      if cfg.server.testing_mode
      then inner m req st
      else if req.path == "/v1/health" && not (req.deep == "1")
      then mux m req st
      else guarded m req st

-- ===== src/Server/Trips.antt =====
-- A transaction that is sent to cmd/server/main.go, read back, and sent again.
use circle_wallet_service.Prelude.{
  ◌≡◌, ◌≢◌, refl, sym, ap, ◌∙◌, inl, inr, Bool, true, false, ◌&&◌, not, some, [], ◌==◌, eq_iff,
  eq_refl, String, arith, Bool-cases, ok,
}
use circle_wallet_service.Store.{TransactionRecord}
use circle_wallet_service.Mysql.{Database}
use circle_wallet_service.Mysql.Rows.{is_blank, stored}
use circle_wallet_service.Mysql.Crud.{create, get}
use circle_wallet_service.Mysql.Crud.Writes.{create_keeps, create-get_by_idempotency_key}
use circle_wallet_service.Server.Tables.{over_mysql, create-runs}
use circle_wallet_service.Handler.Execute.{
  ExecuteRequest, Response, accepts, execute, effective_key,
}
use circle_wallet_service.Handler.Execute.Stored.{execute-IsAccepted, execute-known}
use circle_wallet_service.Handler.Lookups.{found, get_transaction}
use circle_wallet_service.Handler.RateLimit.{passes}
use circle_wallet_service.Config.{Config}
use circle_wallet_service.Server.{
  Libraries, Meanwhile, Req, St, executed, looked_up, handle, mux, limited, inner, guarded, serve,
  authorized, has_aptos, has_circle,
}
use circle_wallet_service.Server.Routes.{
  Endpoint, execute_endpoint, query_endpoint, health_endpoint, transaction_endpoint,
  webhooks_endpoint, no_handler, route,
}

module _ (libs : Libraries) (cfg : Config) where
  -- Where a request reaches its handler: only the bucket has changed before.
  abbrev Reaches : Meanwhile → Req libs → St libs → Type 0
  Reaches m req st =
      (b : libs.limiter.Bucket) × (serve libs cfg m req st
        ≡ mux libs cfg m req (record st { bucket = b }))

  inner-Reaches :
      (m : Meanwhile) (req : Req libs) (st : St libs) (r : Response)
      → (inner libs cfg m req st).0 ≡ executed r
      → (b : libs.limiter.Bucket) × (inner libs cfg m req st
          ≡ mux libs cfg m req (record st { bucket = b }))
  unfolding inner
  inner-Reaches m req st r h =
      go (passes libs.limiter cfg.rate_limit.enabled st.world.clock st.bucket) h
    where
      go :
          (p : Bool × libs.limiter.Bucket)
          → (limited libs cfg m req st p).0 ≡ executed r
          → (b : libs.limiter.Bucket) × (limited libs cfg m req st p
              ≡ mux libs cfg m req (record st { bucket = b }))
      go (true, b) k = (b, refl)
      go (false, b) k = absurd (ground (arith, k))

  serve-Reaches :
      (m : Meanwhile) (req : Req libs) (st : St libs) (r : Response)
      → (serve libs cfg m req st).0 ≡ executed r
      → Reaches m req st
  unfolding serve guarded
  serve-Reaches m req st r h = elim (Bool-cases cfg.server.testing_mode) [
    | inl e ↦
        let (b, same) = inner-Reaches m req st r (ground (arith, h, e)) in
        (b, ground (arith, e, same))
    | inr e ↦ elim (Bool-cases (req.path == "/v1/health" && not (req.deep == "1"))) [
      | inl f ↦ (st.bucket, ground (arith, e, f))
      | inr f ↦ elim (Bool-cases (authorized libs cfg req)) [
        | inl g ↦
            let (b, same) = inner-Reaches m req st r (ground (arith, h, e, f, g)) in
            (b, ground (arith, e, f, g, same))
        | inr g ↦ absurd (ground (arith, h, e, f, g))
      ]
    ]
  ]

  -- A request with the key, for which the bucket has a token.
  abbrev pub IsAdmitted : Req libs → St libs → Type 0
  IsAdmitted req st =
      (authorized libs cfg req ≡ true)
      × ((passes libs.limiter cfg.rate_limit.enabled st.world.clock st.bucket).0 ≡ true)

  admitted-Reaches :
      (m : Meanwhile) (req : Req libs) (st : St libs) → IsAdmitted req st → Reaches m req st
  unfolding serve guarded inner
  admitted-Reaches m req st (key, token) =
      go (passes libs.limiter cfg.rate_limit.enabled st.world.clock st.bucket) refl token
    where
      go :
          (p : Bool × libs.limiter.Bucket)
          → passes libs.limiter cfg.rate_limit.enabled st.world.clock st.bucket ≡ p
          → p.0 ≡ true
          → Reaches m req st
      go (true, b) e k = elim (Bool-cases (req.path == "/v1/health" && not (req.deep == "1"))) [
        | inl f ↦ elim (Bool-cases cfg.server.testing_mode) [
          | inl t ↦ (b, unfold limited in ground (arith, e, t))
          | inr t ↦ (st.bucket, ground (arith, f, t))
        ]
        | inr f ↦ (b, unfold limited in ground (arith, e, f, key))
      ]
      go (false, b) e k = absurd (ground (arith, k))

  -- The only handler that answers so is `Execute`.
  handle-executed :
      (to : Endpoint) (m : Meanwhile) (req : Req libs) (st : St libs) (r : Response)
      → (handle libs cfg to m req st).0 ≡ executed r
      → (execute
            (over_mysql libs.engine)
            libs.net
            libs.codec
            libs.expiration
            m.fresh_id
            req.execute_body
            req.idempotency_key
            st.world
          ≡ (r, (handle libs cfg to m req st).1.world))
        × ((has_aptos cfg && has_circle cfg) ≡ true)
  unfolding handle
  handle-executed execute_endpoint m req st r h =
      elim (Bool-cases (has_aptos cfg && has_circle cfg)) [
        | inl e ↦ (ground (arith, h, e), e)
        | inr e ↦ absurd (ground (arith, h, e))
      ]
  handle-executed query_endpoint m req st r h = elim (Bool-cases (has_aptos cfg)) [
    | inl e ↦ absurd (ground (arith, h, e))
    | inr e ↦ absurd (ground (arith, h, e))
  ]
  handle-executed health_endpoint m req st r h = absurd (ground (arith, h))
  handle-executed (transaction_endpoint id) m req st r h = absurd (ground (arith, h))
  handle-executed (webhooks_endpoint id) m req st r h = absurd (ground (arith, h))
  handle-executed (no_handler code) m req st r h = absurd (ground (arith, h))

  -- A row that was accepted, with its id and its key, and the tables before it was created.
  record Sent (fresh_id key : String) (rec : TransactionRecord) (after : Database) : Type 0 where
    pub before : Database
    pub id : rec.id ≡ fresh_id
    pub keyed : rec.idempotency_key ≡ key
    pub made : create libs.engine rec before ≡ ok after

  -- What an accepted request leaves in the tables.
  serve-Sent :
      (m : Meanwhile) (req : Req libs) (st : St libs) (body : ExecuteRequest libs.codec.Payload)
      (rec : TransactionRecord)
      → req.execute_body ≡ ok body
      → (serve libs cfg m req st).0 ≡ executed (accepts false rec)
      → Sent m.fresh_id
          (effective_key body.idempotency_key req.idempotency_key)
          rec
          (serve libs cfg m req st).1.world.tables
  unfolding mux
  serve-Sent m req st body rec is_body h =
      let (b, there) = serve-Reaches m req st (accepts false rec) h in
      let ran =
        handle-executed (route req.method req.path) m req (record st { bucket = b })
          (accepts false rec) (unfold mux in rw there at h) in
      let ran_body =
        ap
          (λ x.
            execute (over_mysql libs.engine) libs.net libs.codec libs.expiration m.fresh_id x
              req.idempotency_key st.world)
          (sym is_body)
        ∙ ran.0 in
      let (w1, a) =
        execute-IsAccepted (over_mysql libs.engine) libs.net libs.codec libs.expiration m.fresh_id
          req.idempotency_key body rec st.world (ap (λ p. p.0) ran_body) in
      let made = create-runs libs.engine rec w1 _ a.made in
      record {
        before = w1.tables;
        id = a.new.id;
        keyed = a.new.keyed;
        made = rw (there, mux) (rw (ap (λ p. p.1) ran_body) at made);
      }

  -- A transaction that was accepted is found under the id of the answer, as the columns of the table
  -- keep it, by the next request for it that has the key and a token, and whose call of the database
  -- runs, if the id that was drawn is not empty; the lookup changes no table.
  pub sent_found :
      (m m' : Meanwhile) (req req' : Req libs) (st : St libs)
      (body : ExecuteRequest libs.codec.Payload) (rec : TransactionRecord)
      → m.fresh_id ≢ ""
      → req.execute_body ≡ ok body
      → (serve libs cfg m req st).0 ≡ executed (accepts false rec)
      → (serve libs cfg m req st).1.world.faults ≡ []
      → route req'.method req'.path ≡ transaction_endpoint rec.id
      → IsAdmitted req' (serve libs cfg m req st).1
      → let after = serve libs cfg m' req' (serve libs cfg m req st).1 in
        (payload : String) × ((libs.engine.json rec.payload_json ≡ some payload)
          × ((after.0 ≡ looked_up (found (stored libs.engine rec payload)))
              × (after.1.world.tables ≡ (serve libs cfg m req st).1.world.tables)))
  sent_found m m' req req' st body rec drawn is_body h calm to admitted =
      let st' = (serve libs cfg m req st).1 in
      let a = serve-Sent m req st body rec is_body h in
      let (b, there) = admitted-Reaches m' req' st' admitted in
      let (payload, (laid, reads)) =
        create_keeps libs.engine rec a.before st'.world.tables a.made in
      let read : get rec.id st'.world.tables ≡ some (stored libs.engine rec payload) =
        ground (arith, reads rec.id, eq_refl rec.id) in
      let named : (rec.id == "") ≡ false = ground (arith, a.id, drawn, eq_iff rec.id "") in
      (
        payload,
        (
          laid,
          rw there (
              unfold mux in
              rw to (unfold handle get_transaction in rw (named, calm, read) (refl, refl))),
        ),
      )

  -- A transaction that was accepted under a key that is not blank is not accepted again: the next execute
  -- request that has the API key and a token, with an effective key that is not empty and that the
  -- collation takes for the same, whatever else it says, is answered with the row of the first as the
  -- columns keep it, as a replay, if its call of the database runs; it changes no table.
  pub sent_again :
      (m m' : Meanwhile) (req req' : Req libs) (st : St libs)
      (body body' : ExecuteRequest libs.codec.Payload) (rec : TransactionRecord)
      → req.execute_body ≡ ok body
      → (serve libs cfg m req st).0 ≡ executed (accepts false rec)
      → (serve libs cfg m req st).1.world.faults ≡ []
      → is_blank (effective_key body.idempotency_key req.idempotency_key) ≡ false
      → req'.execute_body ≡ ok body'
      → effective_key body'.idempotency_key req'.idempotency_key ≢ ""
      → libs.engine.same_text
          (effective_key body.idempotency_key req.idempotency_key)
          (effective_key body'.idempotency_key req'.idempotency_key)
        ≡ true
      → route req'.method req'.path ≡ execute_endpoint
      → IsAdmitted req' (serve libs cfg m req st).1
      → let after = serve libs cfg m' req' (serve libs cfg m req st).1 in
        (payload : String) × ((libs.engine.json rec.payload_json ≡ some payload)
          × ((after.0 ≡ executed (accepts true (stored libs.engine rec payload)))
              × (after.1.world.tables ≡ (serve libs cfg m req st).1.world.tables)))
  sent_again m m' req req' st body body' rec is_body h calm keyed is_body' asked same to admitted =
      let st' = (serve libs cfg m req st).1 in
      let key' = effective_key body'.idempotency_key req'.idempotency_key in
      let a = serve-Sent m req st body rec is_body h in
      let (b, there) = admitted-Reaches m' req' st' admitted in
      let set_up =
        (let (b0, there0) = serve-Reaches m req st (accepts false rec) h in
          handle-executed (route req.method req.path) m req (record st { bucket = b0 })
            (accepts false rec) (unfold mux in rw there0 at h)).1 in
      let filled : (key' == "") ≡ false = ground (arith, asked, eq_iff key' "") in
      let (payload, (laid, finds)) =
        create-get_by_idempotency_key libs.engine rec key' a.before st'.world.tables a.made
          (rw a.keyed keyed) filled (rw a.keyed same) in
      let looks : (over_mysql libs.engine).get_by_idempotency_key key' st'.world
          ≡ (ok (some (stored libs.engine rec payload)), record st'.world { faults = [] }) =
        rw (calm, finds) refl in
      let told =
        execute-known (over_mysql libs.engine) libs.net libs.codec libs.expiration m'.fresh_id
          req'.idempotency_key body' (stored libs.engine rec payload) st'.world
          (record st'.world { faults = [] }) filled looks in
      (
        payload,
        (
          laid,
          rw there
              (unfold mux in rw to (unfold handle in rw (set_up, is_body', told) (refl, refl))),
        ),
      )

-- ===== src/Config/Overrides.antt =====
-- Which settings `Load` of internal/config/config.go answers.
use circle_wallet_service.Prelude.{
  ◌<◌, ◌≡◌, refl, ◌≢◌, ◌↔◌, ◌⊎◌, inl, inr, true, false, Option, none, some, String, eq_iff, arith,
  is_positive, Result, ok, Option-cases, Bool-cases, bind_ok,
}
use circle_wallet_service.Config.{Config}
use circle_wallet_service.Config.Env.{
  Environ, LoadError, verbatim, trimmed, read_port, read_int, read_uint8, read_uint64, override,
  apply_env_overrides,
}
use circle_wallet_service.Config.Load.{Files, validate, base_config, load}
use circle_wallet_service.Strconv.{parse_bool}

-- A field is what its variable reads as, or what it was where the variable is not set.
abbrev pub IsRead : {A : Type 0} → Environ → String → (String → Option A) → A → A → Type 0
IsRead look name read old new =
    ((look name ≡ none) × (old ≡ new))
    ⊎ ((v : String) × ((look name ≡ some v) × (read v ≡ some new)))

-- The variables decide sixteen fields, each by its own reading; the others are those of the file.
pub record IsOverridden (look : Environ) (base c : Config) : Type 0 where
  pub server_key : IsRead look "API_KEY" verbatim base.server.api_key c.server.api_key
  pub dsn : IsRead look "MYSQL_DSN" trimmed base.mysql.dsn c.mysql.dsn
  pub circle_key : IsRead look "CIRCLE_API_KEY" verbatim base.circle.api_key c.circle.api_key
  pub secret :
      IsRead look "CIRCLE_ENTITY_SECRET" verbatim base.circle.entity_secret c.circle.entity_secret
  pub port : IsRead look "SERVER_PORT" read_port base.server.port c.server.port
  pub testing : IsRead look "TESTING_MODE" parse_bool base.server.testing_mode c.server.testing_mode
  pub node_url : IsRead look "APTOS_NODE_URL" trimmed base.aptos.node_url c.aptos.node_url
  pub aptos_key : IsRead look "APTOS_API_KEY" trimmed base.aptos.api_key c.aptos.api_key
  pub chain_id : IsRead look "APTOS_CHAIN_ID" read_uint8 base.aptos.chain_id c.aptos.chain_id
  pub url : IsRead look "WEBHOOK_URL" trimmed base.webhook.global_url c.webhook.global_url
  pub signing :
      IsRead look "WEBHOOK_SIGNING_SECRET" verbatim base.webhook.signing_secret
        c.webhook.signing_secret
  pub gas :
      IsRead look "MAX_GAS_AMOUNT" read_uint64 base.transaction.max_gas_amount
        c.transaction.max_gas_amount
  pub expiration :
      IsRead look "TXN_EXPIRATION_SECONDS" read_int base.transaction.expiration_seconds
        c.transaction.expiration_seconds
  pub simulate :
      IsRead look "SIMULATE_BEFORE_SUBMIT" parse_bool base.submitter.simulate_before_submit
        c.submitter.simulate_before_submit
  pub calibrate :
      IsRead look "CALIBRATE_GAS_FROM_SIMULATION" parse_bool
        base.submitter.calibrate_gas_from_simulation c.submitter.calibrate_gas_from_simulation
  pub retry :
      IsRead look "SUBMITTER_MAX_RETRY_DURATION_SECONDS" read_int
        base.submitter.max_retry_duration_seconds c.submitter.max_retry_duration_seconds
  pub submitter : c.submitter ≡ record base.submitter {
    simulate_before_submit = c.submitter.simulate_before_submit;
    calibrate_gas_from_simulation = c.submitter.calibrate_gas_from_simulation;
    max_retry_duration_seconds = c.submitter.max_retry_duration_seconds;
  }
  pub webhook : c.webhook ≡ record base.webhook {
    global_url = c.webhook.global_url;
    signing_secret = c.webhook.signing_secret;
  }
  pub poller : c.poller ≡ base.poller
  pub archive : c.archive ≡ base.archive
  pub rate_limit : c.rate_limit ≡ base.rate_limit

-- Settings that the service starts with.
pub record IsValid (c : Config) : Type 0 where
  pub dsn : c.mysql.dsn ≢ ""
  pub key : (c.server.testing_mode ≡ true) ⊎ (c.server.api_key ≢ "")
  pub circle :
      (c.server.testing_mode ≡ true) ⊎ ((c.circle.api_key ≢ "") × (c.circle.entity_secret ≢ ""))
  pub gas : 0 < c.transaction.max_gas_amount
  pub expiration : is_positive c.transaction.expiration_seconds ≡ true
  pub chain_id : 0 < c.aptos.chain_id
  pub global : c.rate_limit.per_wallet ≡ false

override-IsRead :
    {A : Type 0} (look : Environ) (name : String) (read : String → Option A) (old new : A)
    → override look name read old ≡ ok new
    → IsRead look name read old new
unfolding override
override-IsRead look name read old new h = elim (Option-cases (look name)) [
  | inl e ↦ inl (e, ground (arith, h, e))
  | inr (v, e) ↦ elim (Option-cases (read v)) [
    | inl f ↦ absurd (ground (arith, h, e, f))
    | inr (a, f) ↦ inr (v, (e, ground (arith, h, e, f)))
  ]
]

IsRead-override :
    {A : Type 0} (look : Environ) (name : String) (read : String → Option A) (old new : A)
    → IsRead look name read old new
    → override look name read old ≡ ok new
unfolding override
IsRead-override look name read old new (inl (e, same)) = ground (arith, e, same)
IsRead-override look name read old new (inr (v, (e, f))) = ground (arith, e, f)

ok_inj : {A : Type 0} {a b : A} → ◌≡◌ {A = Result LoadError A} (ok a) (ok b) → a ≡ b
ok_inj h = ground (arith, h)

validate-IsValid : (c : Config) → validate c ≡ ok tt → IsValid c
unfolding validate
validate-IsValid c h = record {
  dsn = ground (arith, h, eq_iff c.mysql.dsn "");
  key = elim (Bool-cases c.server.testing_mode) [
    | inl e ↦ inl e
    | inr e ↦ inr (ground (arith, h, e, eq_iff c.server.api_key ""))
  ];
  circle = elim (Bool-cases c.server.testing_mode) [
    | inl e ↦ inl e
    | inr e ↦ inr (
      ground (arith, h, e, eq_iff c.circle.api_key ""),
      ground (arith, h, e, eq_iff c.circle.entity_secret ""),
    )
  ];
  gas = ground (arith, h);
  expiration = ground (arith, h);
  chain_id = ground (arith, h);
  global = ground (arith, h);
}

IsValid-validate : (c : Config) → IsValid c → validate c ≡ ok tt
unfolding validate
IsValid-validate c v = ground (
  arith,
  v.dsn,
  v.key,
  v.circle,
  eq_iff c.mysql.dsn "",
  eq_iff c.server.api_key "",
  eq_iff c.circle.api_key "",
  eq_iff c.circle.entity_secret "",
)

apply-IsOverridden :
    (look : Environ) (base c : Config)
    → apply_env_overrides look base ≡ ok c
    → IsOverridden look base c
unfolding apply_env_overrides
apply-IsOverridden look base c h =
    let (a0, (e0, h0)) = bind_ok _ _ h in
    let (a1, (e1, h1)) = bind_ok _ _ h0 in
    let (a2, (e2, h2)) = bind_ok _ _ h1 in
    let (a3, (e3, h3)) = bind_ok _ _ h2 in
    let (a4, (e4, h4)) = bind_ok _ _ h3 in
    let (a5, (e5, h5)) = bind_ok _ _ h4 in
    let (a6, (e6, h6)) = bind_ok _ _ h5 in
    let (a7, (e7, h7)) = bind_ok _ _ h6 in
    let (a8, (e8, h8)) = bind_ok _ _ h7 in
    let (a9, (e9, h9)) = bind_ok _ _ h8 in
    let (a10, (e10, h10)) = bind_ok _ _ h9 in
    let (a11, (e11, h11)) = bind_ok _ _ h10 in
    let (a12, (e12, h12)) = bind_ok _ _ h11 in
    let (a13, (e13, h13)) = bind_ok _ _ h12 in
    let (a14, (e14, h14)) = bind_ok _ _ h13 in
    let (a15, (e15, h15)) = bind_ok _ _ h14 in
    let is_c = ok_inj h15 in
    rw (← is_c) (record {
      server_key = override-IsRead look "API_KEY" verbatim _ a0 e0;
      dsn = override-IsRead look "MYSQL_DSN" trimmed _ a1 e1;
      circle_key = override-IsRead look "CIRCLE_API_KEY" verbatim _ a2 e2;
      secret = override-IsRead look "CIRCLE_ENTITY_SECRET" verbatim _ a3 e3;
      port = override-IsRead look "SERVER_PORT" read_port _ a4 e4;
      testing = override-IsRead look "TESTING_MODE" parse_bool _ a5 e5;
      node_url = override-IsRead look "APTOS_NODE_URL" trimmed _ a6 e6;
      aptos_key = override-IsRead look "APTOS_API_KEY" trimmed _ a7 e7;
      chain_id = override-IsRead look "APTOS_CHAIN_ID" read_uint8 _ a8 e8;
      url = override-IsRead look "WEBHOOK_URL" trimmed _ a9 e9;
      signing = override-IsRead look "WEBHOOK_SIGNING_SECRET" verbatim _ a10 e10;
      gas = override-IsRead look "MAX_GAS_AMOUNT" read_uint64 _ a11 e11;
      expiration = override-IsRead look "TXN_EXPIRATION_SECONDS" read_int _ a12 e12;
      simulate = override-IsRead look "SIMULATE_BEFORE_SUBMIT" parse_bool _ a13 e13;
      calibrate = override-IsRead look "CALIBRATE_GAS_FROM_SIMULATION" parse_bool _ a14 e14;
      retry = override-IsRead look "SUBMITTER_MAX_RETRY_DURATION_SECONDS" read_int _ a15 e15;
      submitter = refl;
      webhook = refl;
      poller = refl;
      archive = refl;
      rate_limit = refl;
    })

IsOverridden-apply :
    (look : Environ) (base c : Config)
    → IsOverridden look base c
    → apply_env_overrides look base ≡ ok c
unfolding apply_env_overrides
IsOverridden-apply look base c o =
    rw
      (
        IsRead-override look "API_KEY" verbatim base.server.api_key c.server.api_key o.server_key,
        IsRead-override look "MYSQL_DSN" trimmed base.mysql.dsn c.mysql.dsn o.dsn,
        IsRead-override look "CIRCLE_API_KEY" verbatim base.circle.api_key c.circle.api_key
            o.circle_key,
        IsRead-override look "CIRCLE_ENTITY_SECRET" verbatim base.circle.entity_secret
            c.circle.entity_secret o.secret,
        IsRead-override look "SERVER_PORT" read_port base.server.port c.server.port o.port,
        IsRead-override look "TESTING_MODE" parse_bool base.server.testing_mode
            c.server.testing_mode o.testing,
        IsRead-override look "APTOS_NODE_URL" trimmed base.aptos.node_url c.aptos.node_url
            o.node_url,
        IsRead-override look "APTOS_API_KEY" trimmed base.aptos.api_key c.aptos.api_key o.aptos_key,
        IsRead-override look "APTOS_CHAIN_ID" read_uint8 base.aptos.chain_id c.aptos.chain_id
            o.chain_id,
        IsRead-override look "WEBHOOK_URL" trimmed base.webhook.global_url c.webhook.global_url
            o.url,
        IsRead-override look "WEBHOOK_SIGNING_SECRET" verbatim base.webhook.signing_secret
            c.webhook.signing_secret o.signing,
        IsRead-override look "MAX_GAS_AMOUNT" read_uint64 base.transaction.max_gas_amount
            c.transaction.max_gas_amount o.gas,
        IsRead-override look "TXN_EXPIRATION_SECONDS" read_int base.transaction.expiration_seconds
            c.transaction.expiration_seconds o.expiration,
        IsRead-override look "SIMULATE_BEFORE_SUBMIT" parse_bool
            base.submitter.simulate_before_submit c.submitter.simulate_before_submit o.simulate,
        IsRead-override look "CALIBRATE_GAS_FROM_SIMULATION" parse_bool
            base.submitter.calibrate_gas_from_simulation c.submitter.calibrate_gas_from_simulation
            o.calibrate,
        IsRead-override look "SUBMITTER_MAX_RETRY_DURATION_SECONDS" read_int
            base.submitter.max_retry_duration_seconds c.submitter.max_retry_duration_seconds
            o.retry,
      )
      (ground (arith, o.submitter, o.webhook, o.poller, o.archive, o.rate_limit))

-- `Load` answers settings exactly where the file can be read and decoded, or is not there, every
-- variable that is set parses, and the settings are valid; each of the sixteen variables decides its
-- own field, and every other field is that of the file, or the default.
pub load_exact :
    (files : Files) (look : Environ) (c : Config)
    → (load files look ≡ ok c) ↔ (
        (base : Config) × ((base_config files look ≡ ok base)
          × (IsOverridden look base c × IsValid c)))
unfolding load
load_exact files look c = (
  λ h.
      let (base, (found, h0)) = bind_ok _ _ h in
      let (c', (read, h1)) = bind_ok _ _ h0 in
      let (_, (checked, h2)) = bind_ok _ _ h1 in
      let same : c' ≡ c = ok_inj h2 in
      (
        base,
        (
          found,
          (
            rw same at (apply-IsOverridden look base c' read),
            rw same at (validate-IsValid c' checked),
          ),
        ),
      ),
  λ (base, (found, (read, valid))).
      rw (found, IsOverridden-apply look base c read, IsValid-validate c valid) refl,
)

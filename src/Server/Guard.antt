-- ===== src/Server/Guard.antt =====
-- The API key in cmd/server/main.go.
use circle_wallet_service.Prelude.{
  ◌≡◌, ◌≢◌, refl, ◌⊎◌, inl, inr, false, ◌==◌, eq_iff, arith, Bool-cases, ok, sym, ◌∙◌,
}
use circle_wallet_service.Config.{Config}
use circle_wallet_service.Config.Env.{Environ}
use circle_wallet_service.Config.Load.{Files, load}
use circle_wallet_service.Config.Overrides.{load_exact}
use circle_wallet_service.Server.{
  Libraries, Meanwhile, Req, St, plain, handle, mux, guarded, serve, authorized, presented_key,
}
use circle_wallet_service.Server.Routes.{route_health}

module _ (libs : Libraries) (cfg : Config) where
  health-keeps :
      (m : Meanwhile) (req : Req libs) (st : St libs)
      → req.path ≡ "/v1/health"
      → (mux libs cfg m req st).1 ≡ st
  unfolding mux handle
  health-keeps m req st e = elim (route_health req.method) [
    | inl f ↦ rw (e, f) refl
    | inr f ↦ rw (e, f) refl
  ]

  guarded-refuses :
      (m : Meanwhile) (req : Req libs) (st : St libs)
      → presented_key libs req ≢ cfg.server.api_key
      → guarded libs cfg m req st ≡ (plain 401 "unauthorized", st)
  unfolding guarded authorized
  guarded-refuses m req st other =
      ground (arith, other, eq_iff (presented_key libs req) cfg.server.api_key)

  -- Outside testing mode, a request that does not present the key changes nothing; it is answered 401,
  -- unless it is for the shallow health check.
  keyless :
      (m : Meanwhile) (req : Req libs) (st : St libs)
      → cfg.server.testing_mode ≡ false
      → presented_key libs req ≢ cfg.server.api_key
      → ((serve libs cfg m req st).1 ≡ st)
        × (((req.path ≡ "/v1/health") × (req.deep ≢ "1"))
            ⊎ ((serve libs cfg m req st).0 ≡ plain 401 "unauthorized"))
  unfolding serve
  keyless m req st live other = elim (Bool-cases (req.path == "/v1/health")) [
    | inr e ↦
        let r = guarded-refuses m req st other in
        (ground (arith, live, e, r), inr (ground (arith, live, e, r)))
    | inl e ↦ elim (Bool-cases (req.deep == "1")) [
      | inl f ↦
          let r = guarded-refuses m req st other in
          (ground (arith, live, e, f, r), inr (ground (arith, live, e, f, r)))
      | inr f ↦ (
        ground (arith, live, e, f, health-keeps m req st ((eq_iff req.path "/v1/health").0 e)),
        inl ((eq_iff req.path "/v1/health").0 e, ground (arith, f, eq_iff req.deep "1")),
      )
    ]
  ]

-- With the settings that `Load` answers outside testing mode, a request without a key, or with any
-- key but the one that is set, changes nothing: no row, no token of the rate limit, no module that is
-- fetched. It is answered 401, unless it is for the health check and does not ask for the database.
pub keyless_refused :
    (files : Files) (look : Environ) (libs : Libraries) (cfg : Config) (m : Meanwhile)
    (req : Req libs) (st : St libs)
    → load files look ≡ ok cfg
    → cfg.server.testing_mode ≡ false
    → (presented_key libs req ≡ "") ⊎ (presented_key libs req ≢ cfg.server.api_key)
    → ((serve libs cfg m req st).1 ≡ st)
      × (((req.path ≡ "/v1/health") × (req.deep ≢ "1"))
          ⊎ ((serve libs cfg m req st).0 ≡ plain 401 "unauthorized"))
keyless_refused files look libs cfg m req st loaded live (inr other) =
    keyless libs cfg m req st live other
keyless_refused files look libs cfg m req st loaded live (inl bare) =
    keyless libs cfg m req st live (λ same. key_set (sym same ∙ bare))
  where
    key_set : cfg.server.api_key ≢ ""
    key_set = elim ((load_exact files look cfg).0 loaded).1.1.1.key [
      | inl testing ↦ absurd (ground (arith, testing, live))
      | inr set ↦ set
    ]

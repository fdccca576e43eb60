-- ===== src/Circle/PubkeyCache.antt =====
-- internal/circle/pubkey_cache.go: the public keys of wallets. Each method holds the mutex where it
-- touches the cache, and calls for one wallet share one fetch, so a call is one step.
use circle_wallet_service.Prelude.{
  ◌≡◌, ◌≤◌, refl, ◌||◌, Option, none, some, List, [], ◌∷◌, String, ◌==◌, arith, if◌then◌else◌,
  Result, ok, err, Bool-cases, inl, inr, ◌∙◌, sym, ap,
}
use circle_wallet_service.Text.{concat, runes, starts_with}
use circle_wallet_service.GoMap.{lookup}
use circle_wallet_service.Lru.{Lru, find, store}
use circle_wallet_service.Lru.Recency.{contains}
use circle_wallet_service.Lru.Bounded.{IsWell, store_recent, find-IsWell, store-lookup}

-- defaultPublicKeyCacheMaxEntries is 1024.
unfoldable pub new_public_key_cache : Lru String
new_public_key_cache = record { entries = []; order = []; max_entries = 1024 }

-- `trim` is strings.TrimSpace.
module _ (trim : String → String) where
  unfoldable pub ensure_0x_prefix : String → String
  ensure_0x_prefix hex =
      let text = trim hex in
      if text == ""
      then ""
      else if starts_with (runes "0x") (runes text) || starts_with (runes "0X") (runes text)
      then text
      else concat "0x" text

  -- The answer of the Circle API: the error, or the field initialPublicKey.
  fetched : String → Result String String → Lru String → Result String String × Lru String
  unfolding ensure_0x_prefix
  fetched wallet (err why) s = (err why, s)
  fetched wallet (ok key) s =
      let raw = trim key in
      if raw == ""
      then (err (concat (concat "circle wallet " wallet) " has no initialPublicKey"), s)
      else (ok (ensure_0x_prefix raw), store wallet (ensure_0x_prefix raw) s)

  found_or :
      String → Result String String → Option String × Lru String → Result String String × Lru String
  unfolding fetched
  found_or wallet answer (some key, s) = (ok key, s)
  found_or wallet answer (none, s) = fetched wallet answer s

  -- `get_wallet` is the call of the API, made on a miss only.
  unfoldable pub resolve :
      (String → Result String String) → String → Lru String → Result String String × Lru String
  unfolding found_or
  resolve get_wallet wallet s = found_or wallet (get_wallet wallet) (find wallet s)

  unfoldable pub set : String → String → Lru String → Lru String
  set wallet hex s = let key = ensure_0x_prefix hex in if key == "" then s else store wallet key s

  fetched-IsWell :
      (wallet : String) (answer : Result String String) (s : Lru String)
      → IsWell s
      → IsWell (fetched wallet answer s).1
  unfolding fetched
  fetched-IsWell wallet (err why) s w = w
  fetched-IsWell wallet (ok key) s w = elim (Bool-cases (trim key == "")) [
    | inl e ↦ rw (fetched, e) w
    | inr e ↦ rw (fetched, e) (store_recent wallet (ensure_0x_prefix (trim key)) s w).0
  ]

  found_or-IsWell :
      (wallet : String) (answer : Result String String) (found : Option String × Lru String)
      → IsWell found.1
      → IsWell (found_or wallet answer found).1
  unfolding found_or
  found_or-IsWell wallet answer (some key, s) w = w
  found_or-IsWell wallet answer (none, s) w = fetched-IsWell wallet answer s w

  resolve-IsWell :
      (get_wallet : String → Result String String) (wallet : String) (s : Lru String)
      → IsWell s
      → IsWell (resolve get_wallet wallet s).1
  unfolding resolve
  resolve-IsWell get_wallet wallet s w =
      found_or-IsWell wallet (get_wallet wallet) (find wallet s) (find-IsWell wallet s w).1.1.1

  set-IsWell : (wallet hex : String) (s : Lru String) → IsWell s → IsWell (set wallet hex s)
  unfolding set
  set-IsWell wallet hex s w = elim (Bool-cases (ensure_0x_prefix hex == "")) [
    | inl e ↦ rw (set, e) w
    | inr e ↦ rw (set, e) (store_recent wallet (ensure_0x_prefix hex) s w).0
  ]

  -- The calls of the cache: a lookup, with what the API would answer, and a seed.
  pub data Call : Type 0 where
    resolves : (String → Result String String) → String → Call
    seeds : String → String → Call

  unfoldable pub step : Call → Lru String → Lru String
  step (resolves get_wallet wallet) s = (resolve get_wallet wallet s).1
  step (seeds wallet hex) s = set wallet hex s

  unfoldable pub run : List Call → Lru String → Lru String
  unfolding step
  run [] s = s
  run (c ∷ cs) s = run cs (step c s)

  step-IsWell : (c : Call) (s : Lru String) → IsWell s → IsWell (step c s)
  unfolding step
  step-IsWell (resolves get_wallet wallet) s w = resolve-IsWell get_wallet wallet s w
  step-IsWell (seeds wallet hex) s w = set-IsWell wallet hex s w

  run-IsWell_from : (calls : List Call) (s : Lru String) → IsWell s → IsWell (run calls s)
  unfolding run
  run-IsWell_from [] s w = w
  run-IsWell_from (c ∷ cs) s w = run-IsWell_from cs (step c s) (step-IsWell c s w)

  pub new-IsWell : IsWell new_public_key_cache
  unfolding new_public_key_cache lookup contains
  new-IsWell = record { once = tt; agrees = λ j. refl; bounded = omega arith }

  -- Through any calls, with any answers of the API, the map of a new cache and its list hold the same
  -- keys, each once, and never more than the cap.
  pub run-IsWell : (calls : List Call) → IsWell (run calls new_public_key_cache)
  run-IsWell calls = run-IsWell_from calls new_public_key_cache new-IsWell

  kept_key :
      (wallet key : String) (answer : Result String String) (found : Option String × Lru String)
      {t : Lru String}
      → IsWell found.1
      → 1 ≤ found.1.max_entries
      → found.0 ≡ lookup wallet found.1.entries
      → found_or wallet answer found ≡ (ok key, t)
      → IsWell t × (lookup wallet t.entries ≡ some key)
  unfolding found_or fetched
  kept_key wallet key answer (some k, s) w room same h =
      (ground (arith, h, w), ground (arith, h, same))
  kept_key wallet key (err why) (none, s) w room same h = absurd (ground (arith, h))
  kept_key wallet key (ok raw) (none, s) {t} w room same h = elim (Bool-cases (trim raw == "")) [
    | inl e ↦ absurd (ground (arith, h, e))
    | inr e ↦
        let new = ensure_0x_prefix (trim raw) in
        let done : (ok new, store wallet new s) ≡ (ok key, t) = rw e at h in
        let is_t : store wallet new s ≡ t =
          ap (λ (r : Result String String × Lru String). r.1) done in
        let is_key : new ≡ key = ground (arith, done) in
        rw (sym is_t, sym is_key)
          ((store_recent wallet new s w).0, store-lookup wallet new s w room)
  ]

  found_or_hit :
      (wallet key : String) (answer : Result String String) (found : Option String × Lru String)
      → found.0 ≡ some key
      → (found_or wallet answer found).0 ≡ ok key
  unfolding found_or
  found_or_hit wallet key answer (some k, s) h = ground (arith, h)
  found_or_hit wallet key answer (none, s) h = absurd (ground (arith, h))

  -- A key that was resolved is answered again without a call of the API, whatever that would answer.
  pub resolve_again :
      (get_wallet later : String → Result String String) (wallet key : String) (s t : Lru String)
      → IsWell s
      → 1 ≤ s.max_entries
      → resolve get_wallet wallet s ≡ (ok key, t)
      → (resolve later wallet t).0 ≡ ok key
  unfolding resolve
  resolve_again get_wallet later wallet key s t w room h =
      let first = find-IsWell wallet s w in
      let kept =
        kept_key wallet key (get_wallet wallet) (find wallet s) first.1.1.1 (rw first.1.1.0 room)
          (first.0 ∙ sym (ap (lookup wallet) first.1.0)) h in
      found_or_hit wallet key (later wallet) (find wallet t)
        ((find-IsWell wallet t kept.0).0 ∙ kept.1)

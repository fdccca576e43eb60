-- ===== src/Aptos/Abi.antt =====
-- internal/aptos/abi.go: the modules of the chain, kept for a time. The lock is not held while a module
-- is fetched, so a call is two steps; here nothing runs between them. The node and the SDK are
-- parameters.
use circle_wallet_service.Prelude.{
  ℕ, ◌-◌, ◌≤◌, ◌<◌, ◌≡◌, refl, none, some, List, [], ◌∷◌, String, ◌==◌, arith, ltb, if◌then◌else◌,
  Result, ok, err, Option-cases, Bool-cases, inl, inr, ltb→lt, lt→ltb, ◌⊎◌,
}
use circle_wallet_service.Text.{concat}
use circle_wallet_service.GoMap.{lookup}
use circle_wallet_service.Lru.{Lru, promote, store}
use circle_wallet_service.Lru.Bounded.{IsWell, store-lookup}

-- What the cache reads of a module: its exposed functions.
pub record MoveFunction : Type 0 where
  pub name : String
  pub params : List String

pub record AbiEntry : Type 0 where
  pub module_functions : List MoveFunction
  pub fetched_at : ℕ

pub record AbiCache : Type 0 where
  pub modules : Lru AbiEntry
  pub ttl : ℕ

-- Ten minutes, and 512 modules.
unfoldable pub new_abi_cache : AbiCache
new_abi_cache = record {
  modules = record { entries = []; order = []; max_entries = 512 };
  ttl = 600000000000;
}

-- `quote` is %q.
unfoldable pub lookup_function :
    (String → String) → List MoveFunction → String → Result String (List String)
lookup_function quote [] name =
    err (concat (concat "function " (quote name)) " not found in module ABI")
lookup_function quote (fun ∷ funs) name =
    if fun.name == name then ok fun.params else lookup_function quote funs name

-- The node's answer, at the time when it comes.
refreshed :
    String
    → ℕ
    → Result String (List MoveFunction)
    → AbiCache
    → Result String (List MoveFunction) × AbiCache
refreshed key later (err why) c = (err (concat "fetch module ABI: " why), c)
refreshed key later (ok functions) c = (
  ok functions,
  record c {
    modules = store key (record { module_functions = functions; fetched_at = later }) c.modules;
  },
)

-- `answer` is what the node would answer; it is asked only if there is no live entry.
unfoldable pub get_module :
    ℕ
    → ℕ
    → String
    → Result String (List MoveFunction)
    → AbiCache
    → Result String (List MoveFunction) × AbiCache
unfolding refreshed
get_module now later key answer c =
    elim (lookup key c.modules.entries) as (λ _. Result String (List MoveFunction) × AbiCache) [
      | none ↦ refreshed key later answer c
      | some entry ↦
          if ltb (now - entry.fetched_at) c.ttl
          then (ok entry.module_functions, record c { modules = promote key c.modules })
          else refreshed key later answer c
    ]

named :
    (String → String)
    → String
    → Result String (List MoveFunction) × AbiCache
    → Result String (List String) × AbiCache
named quote name (err why, c) = (err why, c)
named quote name (ok functions, c) = (lookup_function quote functions name, c)

unfoldable pub get_function_params :
    (String → String)
    → ℕ
    → ℕ
    → String
    → String
    → Result String (List MoveFunction)
    → AbiCache
    → Result String (List String) × AbiCache
unfolding named
get_function_params quote now later key name answer c =
    named quote name (get_module now later key answer c)

-- Where a module comes from: the node, just now, or an entry that is younger than the time to live.
abbrev pub IsLive :
    ℕ → String → Result String (List MoveFunction) → AbiCache → List MoveFunction → Type 0
IsLive now key answer c functions =
    (answer ≡ ok functions)
    ⊎ ((entry : AbiEntry) × ((lookup key c.modules.entries ≡ some entry)
          × ((entry.module_functions ≡ functions) × (now - entry.fetched_at < c.ttl))))

refreshed-answer :
    (key : String) (later : ℕ) (answer : Result String (List MoveFunction)) (c t : AbiCache)
    (functions : List MoveFunction)
    → refreshed key later answer c ≡ (ok functions, t)
    → answer ≡ ok functions
unfolding refreshed
refreshed-answer key later (err why) c t functions h = absurd (ground (arith, h))
refreshed-answer key later (ok found) c t functions h = ground (arith, h)

-- A module that the cache answers was fetched for this call, or less than the time to live ago.
pub get_module-IsLive :
    (now later : ℕ) (key : String) (answer : Result String (List MoveFunction)) (c t : AbiCache)
    (functions : List MoveFunction)
    → get_module now later key answer c ≡ (ok functions, t)
    → IsLive now key answer c functions
unfolding get_module
get_module-IsLive now later key answer c t functions h =
    elim (Option-cases (lookup key c.modules.entries)) [
      | inl e ↦ inl (refreshed-answer key later answer c t functions (rw (get_module, e) at h))
      | inr (entry, e) ↦ elim (Bool-cases (ltb (now - entry.fetched_at) c.ttl)) [
        | inl young ↦ inr (entry, (e, (ground (arith, h, e, young), ltb→lt _ _ young)))
        | inr old ↦
            inl (refreshed-answer key later answer c t functions (rw (get_module, e, old) at h))
      ]
    ]

-- A module that was fetched is answered without a call of the node until its time to live is over.
pub get_module_again :
    (now later after later' : ℕ) (key : String) (answer : Result String (List MoveFunction))
    (c : AbiCache) (functions : List MoveFunction)
    → IsWell c.modules
    → 1 ≤ c.modules.max_entries
    → lookup key c.modules.entries ≡ none
    → after - later < c.ttl
    → (get_module after later' key answer (get_module now later key (ok functions) c).1).0
      ≡ ok functions
unfolding get_module refreshed
get_module_again now later after later' key answer c functions w room new young =
    let entry : AbiEntry = record { module_functions = functions; fetched_at = later } in
    let inner : get_module now later key (ok functions) c
        ≡ (ok functions, record c { modules = store key entry c.modules }) =
      rw (get_module, new) refl in
    rw inner (rw (get_module, store-lookup key entry c.modules w room, lt→ltb _ _ young) refl)

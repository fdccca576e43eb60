-- ===== src/Handler/Query.antt =====
-- internal/handler/query.go: a call of a view function. The decoder of the request and the view call
-- of the node are parameters; the arguments of the view call that was made, if any, stand beside the
-- response.
pub mod Typed
use circle_wallet_service.Prelude.{
  ℕ, ◌+◌, ◌≡◌, refl, Option, none, some, List, [], ◌∷◌, String, ◌==◌, arith, nat_eq, length,
  if◌then◌else◌, Result, ok, err, Result-cases, Bool-cases, sym, inl, inr,
}
use circle_wallet_service.Text.{concat, runes}
use circle_wallet_service.Aptos.Abi.{MoveFunction, AbiCache, get_function_params}
use circle_wallet_service.Aptos.Args.{
  Sdk, ArgError, Json, Jsons, nil, cons, parse_function_id, serialize_argument,
}

pub record QueryRequest (F : Type 0) : Type 0 where
  pub function_id : String
  pub type_arguments : List String
  pub arguments : Jsons F

-- What leaves the process, or comes from the libraries.
pub record Chain (sdk : Sdk) : Type 0 where
  -- addr.StringLong() + "::" + module, and the name of a function as text
  pub module_key : sdk.Address → List ℕ → String
  pub name_text : List ℕ → String
  -- the node's answer for a module, and for a view call
  pub module_at : String → Result String (List MoveFunction)
  pub view : String → List String → List (List ℕ) → Result String String
  -- err.Error(), %d and %q
  pub message : ArgError → String
  pub itoa : ℕ → String
  pub quote : String → String

pub data QueryResponse : Type 0 where
  refused : ℕ → String → QueryResponse
  answered : String → QueryResponse

-- The response, and the arguments of the view call.
abbrev pub Outcome : Type 0
Outcome = QueryResponse × Option (List (List ℕ))

unfoldable pub length_of : {F : Type 0} → Jsons F → ℕ
length_of nil = 0
length_of (cons v vs) = length_of vs + 1

module _ (sdk : Sdk) (chain : Chain sdk) where
  open sdk use {Float, Address}

  abbrev refuse : ℕ → String → AbiCache → Outcome × AbiCache
  refuse code text c = ((refused code text, none), c)

  -- The first argument that cannot be serialized, or all of them.
  serialize_all : ℕ → List String → Jsons Float → Result String (List (List ℕ))
  serialize_all i params nil = ok []
  serialize_all i [] (cons v vs) = err "index out of range"
  serialize_all i (p ∷ params) (cons v vs) =
      let rest = serialize_all (i + 1) params vs in
      elim (serialize_argument sdk (runes p) v) as (λ _. Result String (List (List ℕ))) [
        | err e ↦ err (concat (concat "argument[" (chain.itoa i)) (concat "]: " (chain.message e)))
        | ok b ↦ elim rest as (λ _. Result String (List (List ℕ))) [
          | err why ↦ err why
          | ok bs ↦ ok (b ∷ bs)
        ]
      ]

  viewed : QueryRequest Float → List (List ℕ) → AbiCache → Outcome × AbiCache
  viewed req args c =
      elim (chain.view req.function_id req.type_arguments args) as (λ _. Outcome × AbiCache) [
        | err why ↦ ((refused 502 (concat "view call failed: " why), some args), c)
        | ok result ↦ ((answered result, some args), c)
      ]

  with_params : QueryRequest Float → Result String (List String) × AbiCache → Outcome × AbiCache
  unfolding serialize_all viewed length_of
  with_params req (err why, c) = refuse 400 (concat "resolve ABI: " why) c
  with_params req (ok params, c) =
      if nat_eq (length_of req.arguments) (length params)
      then elim (serialize_all 0 params req.arguments) as (λ _. Outcome × AbiCache) [
        | err why ↦ refuse 400 why c
        | ok args ↦ viewed req args c
      ]
      else refuse 400
          (concat (concat "argument count mismatch: expected " (chain.itoa (length params)))
            (concat ", got " (chain.itoa (length_of req.arguments))))
          c

  with_function :
      ℕ
      → ℕ
      → QueryRequest Float
      → Result ArgError (Address × (List ℕ × List ℕ))
      → AbiCache
      → Outcome × AbiCache
  unfolding with_params
  with_function now later req (err e) c = refuse 400 (chain.message e) c
  with_function now later req (ok (addr, (module_name, function))) c =
      let key = chain.module_key addr module_name in
      with_params req (
        get_function_params chain.quote now later key (chain.name_text function)
          (chain.module_at key) c)

  -- `now` is read before the module is looked up, and `later` when it was fetched.
  unfoldable pub query : ℕ → ℕ → Result String (QueryRequest Float) → AbiCache → Outcome × AbiCache
  unfolding with_function
  query now later (err why) c = refuse 400 (concat "invalid request body: " why) c
  query now later (ok req) c =
      if req.function_id == ""
      then refuse 400 "function_id is required" c
      else with_function now later req (parse_function_id sdk req.function_id) c

  -- Each argument was converted by the type of its own parameter, and none is left over.
  pub data IsSerialized : List String → Jsons Float → List (List ℕ) → Type 0 where
    none_left : IsSerialized [] nil []
    one_more :
        (p : String) (params : List String) (v : Json Float) (vs : Jsons Float) (b : List ℕ)
        (bs : List (List ℕ))
        → serialize_argument sdk (runes p) v ≡ ok b
        → IsSerialized params vs bs
        → IsSerialized (p ∷ params) (cons v vs) (b ∷ bs)

  serialize_all-IsSerialized :
      (i : ℕ) (params : List String) (vs : Jsons Float) (args : List (List ℕ))
      → length_of vs ≡ length params
      → serialize_all i params vs ≡ ok args
      → IsSerialized params vs args
  unfolding serialize_all length_of
  serialize_all-IsSerialized i [] nil args same h =
      let is_empty : [] ≡ args = ground (arith, h) in rw (sym is_empty) none_left
  serialize_all-IsSerialized i [] (cons v vs) args same h = absurd (ground (arith, h))
  serialize_all-IsSerialized i (p ∷ params) nil args same h = absurd (omega (arith, same))
  serialize_all-IsSerialized i (p ∷ params) (cons v vs) args same h =
      elim (Result-cases (serialize_argument sdk (runes p) v)) [
        | inr (why, e) ↦ absurd (ground (arith, h, e))
        | inl (b, e) ↦ elim (Result-cases (serialize_all (i + 1) params vs)) [
          | inr (why, f) ↦ absurd (ground (arith, h, e, f))
          | inl (bs, f) ↦
              let is_args : args ≡ b ∷ bs = ground (arith, h, e, f) in
              rw is_args (
                one_more p params v vs b bs e
                  (serialize_all-IsSerialized (i + 1) params vs bs (omega (arith, same)) f))
        ]
      ]

  viewed_args :
      (req : QueryRequest Float) (bs args : List (List ℕ)) (c : AbiCache)
      → (viewed req bs c).0.1 ≡ some args
      → bs ≡ args
  unfolding viewed
  viewed_args req bs args c h =
      elim (Result-cases (chain.view req.function_id req.type_arguments bs)) [
        | inl (r, e) ↦ ground (arith, h, e)
        | inr (r, e) ↦ ground (arith, h, e)
      ]

  with_params_checked :
      (req : QueryRequest Float) (found : Result String (List String) × AbiCache)
      (args : List (List ℕ))
      → (with_params req found).0.1 ≡ some args
      → (params : List String) × ((found.0 ≡ ok params) × IsSerialized params req.arguments args)
  unfolding with_params
  with_params_checked req (err why, c) args h = absurd (ground (arith, h))
  with_params_checked req (ok params, c) args h =
      elim (Bool-cases (nat_eq (length_of req.arguments) (length params))) [
        | inr e ↦ absurd (ground (arith, h, e))
        | inl e ↦ elim (Result-cases (serialize_all 0 params req.arguments)) [
          | inr (why, f) ↦ absurd (ground (arith, h, e, f))
          | inl (bs, f) ↦ (
            params,
            (
              refl,
              rw (viewed_args req bs args c (rw (with_params, e, f) at h)) at
                  (serialize_all-IsSerialized 0 params req.arguments bs (ground (arith, e)) f),
            ),
          )
        ]
      ]

  -- A view call is made only for a function id that parses and a function that the module has, with as
  -- many arguments as it has parameters, each converted by the type of its own parameter.
  pub query_checked :
      (now later : ℕ) (req : QueryRequest Float) (c : AbiCache) (args : List (List ℕ))
      → (query now later (ok req) c).0.1 ≡ some args
      → (addr : Address) × ((module_name : List ℕ) × ((function : List ℕ) × ((params : List String)
              × ((parse_function_id sdk req.function_id ≡ ok (addr, (module_name, function)))
                  × (((get_function_params chain.quote now later
                          (chain.module_key addr module_name)
                          (chain.name_text function)
                          (chain.module_at (chain.module_key addr module_name))
                          c).0
                        ≡ ok params)
                      × IsSerialized params req.arguments args)))))
  unfolding query
  query_checked now later req c args h = elim (Bool-cases (req.function_id == "")) [
    | inl e ↦ absurd (ground (arith, h, e))
    | inr e ↦ elim (Result-cases (parse_function_id sdk req.function_id)) [
      | inr (why, f) ↦ absurd (ground (arith, h, e, f))
      | inl ((addr, (module_name, function)), f) ↦
          let (params, (found, done)) =
            with_params_checked req
              (get_function_params chain.quote now later (chain.module_key addr module_name)
                (chain.name_text function) (chain.module_at (chain.module_key addr module_name)) c)
              args (rw (query, e, f) at h) in
          (addr, (module_name, (function, (params, (f, (found, done))))))
    ]
  ]

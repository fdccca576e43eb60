-- ===== src/Handler/Query/Typed.antt =====
-- The arguments of a view call of internal/handler/query.go, by the types of the function.
use circle_wallet_service.Prelude.{
  ℕ, ◌≡◌, ap, sym, ◌∙◌, some, List, [], ◌∷◌, String, map, arith, Result, ok,
}
use circle_wallet_service.Text.{runes}
use circle_wallet_service.Aptos.Abi.{AbiCache, get_function_params}
use circle_wallet_service.Aptos.Args.{Sdk, Jsons, parse_function_id}
use circle_wallet_service.Aptos.Args.Types.{MoveType, type_text, KnowsFramework}
use circle_wallet_service.Aptos.Args.Typed.{FitsWord, IsBytesOf, serialize_argument_typed}
use circle_wallet_service.Handler.Query.{
  Chain, QueryRequest, query, IsSerialized, none_left, one_more, query_checked,
}

module _ (sdk : Sdk) (chain : Chain sdk) where
  open sdk use {Float, Address}

  -- One value for each type.
  abbrev pub AreBytesOf : List MoveType → List (List ℕ) → Type 0
  AreBytesOf [] [] = Unit
  AreBytesOf [] (b ∷ bs) = ⊥
  AreBytesOf (t ∷ ts) [] = ⊥
  AreBytesOf (t ∷ ts) (b ∷ bs) = IsBytesOf sdk t b × AreBytesOf ts bs

  serialized_typed :
      (params : List String) (vs : Jsons Float) (args : List (List ℕ)) (ts : List MoveType)
      → KnowsFramework sdk
      → FitsWord sdk
      → IsSerialized sdk chain params vs args
      → map runes params ≡ map type_text ts
      → AreBytesOf ts args
  serialized_typed params vs args [] known word none_left e = tt
  serialized_typed params vs args (t ∷ ts) known word none_left e = absurd (ground (arith, e))
  serialized_typed params vs args [] known word (one_more p ps v ws b bs h rest) e =
      absurd (ground (arith, e))
  serialized_typed params vs args (t ∷ ts) known word (one_more p ps v ws b bs h rest) e =
      let head : runes p ≡ type_text t = ground (arith, e) in
      let tail : map runes ps ≡ map type_text ts = ground (arith, e) in
      (
        serialize_argument_typed sdk t v b known word (rw head at h),
        serialized_typed ps ws bs ts known word rest tail,
      )

  -- The parameters of a function, as the cache answers them.
  abbrev pub params_of :
      ℕ → ℕ → AbiCache → Address × (List ℕ × List ℕ) → Result String (List String)
  params_of now later c (addr, (module_name, function)) =
      (get_function_params chain.quote now later (chain.module_key addr module_name)
        (chain.name_text function) (chain.module_at (chain.module_key addr module_name)) c).0

  -- A view call of a function whose parameters are texts of Move types is made with as many arguments,
  -- and each is the bytes of a value of the type of its parameter.
  pub query_typed :
      (now later : ℕ) (req : QueryRequest Float) (c : AbiCache) (args : List (List ℕ))
      (place : Address × (List ℕ × List ℕ)) (params : List String) (ts : List MoveType)
      → KnowsFramework sdk
      → FitsWord sdk
      → parse_function_id sdk req.function_id ≡ ok place
      → params_of now later c place ≡ ok params
      → map runes params ≡ map type_text ts
      → (query sdk chain now later (ok req) c).0.1 ≡ some args
      → AreBytesOf ts args
  query_typed now later req c args place params ts known word parsed found texts h =
      let (addr, (module_name, (function, (params', (parsed', (found', done)))))) =
        query_checked sdk chain now later req c args h in
      let same_place : place ≡ (addr, (module_name, function)) = cc in
      let same : params' ≡ params =
        cc (sym found' ∙ ap (params_of now later c) (sym same_place) ∙ found) in
      serialized_typed params req.arguments args ts known word (rw same at done) texts

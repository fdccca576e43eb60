-- ===== src/Aptos/Entry.antt =====
-- `BuildEntryFunctionPayload` of internal/aptos/abi.go and `ParseTypeTags` of internal/aptos/args.go:
-- what they add to the calls of the SDK, which are parameters.
use circle_wallet_service.Prelude.{ℕ, ◌+◌, List, [], ◌∷◌, String, Result, ok, err}
use circle_wallet_service.Text.{concat}
use circle_wallet_service.Aptos.Abi.{MoveFunction, AbiCache, get_module}
use circle_wallet_service.Aptos.Args.{Sdk, ArgError, parse_function_id}

-- The SDK, by what the two functions call of it. `key_of` is StringLong() + "::" + module.
pub record Builder (sdk : Sdk) : Type 1 where
  pub Entry : Type 0
  pub Tag : Type 0
  pub Value : Type 0
  pub key_of : sdk.Address → List ℕ → String
  pub message : ArgError → String
  pub itoa : ℕ → String
  -- aptos.EntryFunctionFromAbi: the module, the function, the type arguments and the arguments
  pub entry_from_abi :
      List MoveFunction
      → sdk.Address × (List ℕ × List ℕ)
      → List String
      → List Value
      → Result String Entry
  pub parse_type_tag : String → Result String Tag

module _ (sdk : Sdk) (b : Builder sdk) where
  open sdk use {Address}
  open b use {Entry, Tag, Value, key_of, message, itoa, entry_from_abi, parse_type_tag}

  from_module :
      Address × (List ℕ × List ℕ)
      → List String
      → List Value
      → Result String (List MoveFunction) × AbiCache
      → Result String Entry × AbiCache
  from_module place types args (err e, c) = (err (concat "failed to fetch module abi " e), c)
  from_module place types args (ok abi, c) =
      elim (entry_from_abi abi place types args) as (λ _. Result String Entry × AbiCache) [
        | err e ↦ (err (concat "failed to parse entry function " e), c)
        | ok entry ↦ (ok entry, c)
      ]

  at_place :
      ℕ
      → ℕ
      → List String
      → List Value
      → (String → Result String (List MoveFunction))
      → Result ArgError (Address × (List ℕ × List ℕ))
      → AbiCache
      → Result String Entry × AbiCache
  unfolding from_module
  at_place now later types args node (err e) c =
      (err (concat "failed to parse functionID " (message e)), c)
  at_place now later types args node (ok (addr, (module_name, function))) c =
      let key = key_of addr module_name in
      from_module (addr, (module_name, function)) types args (get_module now later key (node key) c)

  -- `node` is what the node would answer for a module.
  unfoldable pub build_entry_function_payload :
      ℕ
      → ℕ
      → String
      → List String
      → List Value
      → (String → Result String (List MoveFunction))
      → AbiCache
      → Result String Entry × AbiCache
  unfolding at_place
  build_entry_function_payload now later function_id types args node c =
      at_place now later types args node (parse_function_id sdk function_id) c

  tags_from : ℕ → List String → Result String (List Tag)
  tags_from i [] = ok []
  tags_from i (s ∷ tags) =
      let rest = tags_from (i + 1) tags in
      elim (parse_type_tag s) as (λ _. Result String (List Tag)) [
        | err e ↦ err (concat (concat "type_arguments[" (itoa i)) (concat "]: " e))
        | ok tag ↦ elim rest as (λ _. Result String (List Tag)) [
          | err e ↦ err e
          | ok ts ↦ ok (tag ∷ ts)
        ]
      ]

  unfoldable pub parse_type_tags : List String → Result String (List Tag)
  unfolding tags_from
  parse_type_tags tags = tags_from 0 tags

-- ===== src/Lru.antt =====
-- The bounded caches of internal/circle/pubkey_cache.go and internal/aptos/abi.go: a map of entries and
-- a list of their keys, the most recent first. An element of the list is its key, since a key has one.
pub mod Recency
pub mod Bounded
use circle_wallet_service.Prelude.{
  ℕ, zero, suc, ◌+◌, Bool, false, ◌||◌, Option, none, some, List, [], ◌∷◌, String, ◌==◌, ltb,
  length, if◌then◌else◌,
}
use circle_wallet_service.GoMap.{GoMap, lookup, insert, delete}

pub record Lru {ℓ} (V : Type ℓ) : Type ℓ where
  pub entries : GoMap V
  -- front = most recent
  pub order : List String
  pub max_entries : ℕ

-- lru.Remove(elem)
unfoldable pub remove : String → List String → List String
remove k [] = []
remove k (j ∷ js) = let rest = remove k js in if k == j then rest else j ∷ rest

-- lru.MoveToFront(elem)
abbrev pub move_to_front : String → List String → List String
move_to_front k js = k ∷ remove k js

-- lru.Back()
unfoldable pub back : List String → Option String
back [] = none
back (j ∷ []) = some j
back (j ∷ i ∷ is) = back (i ∷ is)

unfoldable pub without_back : List String → List String
without_back [] = []
without_back (j ∷ []) = []
without_back (j ∷ i ∷ is) = j ∷ without_back (i ∷ is)

module _ {ℓ} {V : Type ℓ} where
  -- for c.lru.Len() > c.maxEntries, on fuel
  unfoldable pub evict : ℕ → Lru V → Lru V
  evict zero s = s
  evict (suc fuel) s = elim (back s.order) as (λ _. Lru V) [
    | none ↦ s
    | some victim ↦
        let next =
          evict fuel
            (record s { order = without_back s.order; entries = delete victim s.entries }) in
        if ltb s.max_entries (length s.order) then next else s
  ]

  -- A hit comes to the front.
  unfoldable pub promote : String → Lru V → Lru V
  promote k s = record s { order = move_to_front k s.order }

  unfoldable pub find : String → Lru V → Option V × Lru V
  unfolding promote
  find k s = elim (lookup k s.entries) as (λ _. Option V × Lru V) [
    | none ↦ (none, s)
    | some v ↦ (some v, promote k s)
  ]

  unfoldable pub store : String → V → Lru V → Lru V
  unfolding evict
  store k v s = elim (lookup k s.entries) as (λ _. Lru V) [
    | some _ ↦ record s { entries = insert k v s.entries; order = move_to_front k s.order }
    | none ↦
        evict (length s.order + 1)
          (record s { entries = insert k v s.entries; order = k ∷ s.order })
  ]

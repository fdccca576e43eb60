-- ===== src/GoMap.antt =====
-- Go's `map[string]V`: an association list, whose order is the order in which a `range` loop happens
-- to visit the entries. Nothing is proved for one order only.
use circle_wallet_service.Prelude.{
  ◌≡◌, refl, sym, false, Option, none, some, List, [], ◌∷◌, Memᴰ, arith, String, ◌==◌, eq_iff,
  if◌then◌else◌, inl, inr, Bool-cases, length, ◌≤◌, ◌+◌,
}

abbrev pub GoMap {ℓ} : Type ℓ → Type ℓ
GoMap V = List (String × V)

-- No name stands twice.
abbrev pub IsNodup : List String → Type 0
IsNodup [] = Unit
IsNodup (k ∷ ks) = ((j : String) → Memᴰ j ks → (k == j) ≡ false) × IsNodup ks

module _ {ℓ} {V : Type ℓ} where
  -- v, ok := m[k]
  unfoldable pub lookup : String → GoMap V → Option V
  lookup k [] = none
  lookup k ((j, v) ∷ m) = if j == k then some v else lookup k m

  -- m[k] = v
  unfoldable pub insert : String → V → GoMap V → GoMap V
  insert k v [] = (k, v) ∷ []
  insert k v ((j, w) ∷ m) = if j == k then (k, v) ∷ m else (j, w) ∷ insert k v m

  -- delete(m, k)
  unfoldable pub delete : String → GoMap V → GoMap V
  delete k [] = []
  delete k ((j, w) ∷ m) = let rest = delete k m in if j == k then rest else (j, w) ∷ rest

  unfoldable pub keys : GoMap V → List String
  keys [] = []
  keys ((j, w) ∷ m) = j ∷ keys m

  pub lookup-insert :
      (k wanted : String) (v : V) (m : GoMap V)
      → lookup wanted (insert k v m) ≡ (if k == wanted then some v else lookup wanted m)
  unfolding insert lookup
  lookup-insert k wanted v ((first, w) ∷ m) =
      ground
        (arith, lookup-insert k wanted v m, eq_iff first k, eq_iff k wanted, eq_iff first wanted)
  lookup-insert k wanted v [] = refl

  pub lookup-delete :
      (k j : String) (m : GoMap V) → lookup j (delete k m) ≡ (if k == j then none else lookup j m)
  unfolding lookup delete
  lookup-delete k j [] = ground arith
  lookup-delete k j ((i, w) ∷ m) =
      ground (arith, eq_iff k j, eq_iff i k, eq_iff i j, lookup-delete k j m)

  pub mem-keys : (k : String) (m : GoMap V) {v : V} → lookup k m ≡ some v → Memᴰ k (keys m)
  unfolding lookup keys
  mem-keys k [] h = cc
  mem-keys k ((j, w) ∷ m) h = elim (Bool-cases (j == k)) [
    | inl e ↦ Memᴰ.head (sym ((eq_iff j k).0 e))
    | inr e ↦ Memᴰ.tail (mem-keys k m (rw e at h))
  ]

  pub length-delete_le : (k : String) (m : GoMap V) → length (delete k m) ≤ length m
  unfolding delete
  length-delete_le k [] = omega arith
  length-delete_le k ((j, w) ∷ m) = ground (arith, length-delete_le k m)

  pub length-delete :
      (k : String) (m : GoMap V) {v : V} → lookup k m ≡ some v → length (delete k m) + 1 ≤ length m
  unfolding delete lookup
  length-delete k [] h = cc
  length-delete k ((j, w) ∷ m) {v} h =
      ground (arith, length-delete k m {v = v}, length-delete_le k m)

  -- A key has one entry.
  abbrev pub IsDistinct : GoMap V → Type ℓ
  IsDistinct [] = Unit
  IsDistinct ((k, v) ∷ m) = (lookup k m ≡ none) × IsDistinct m

  pub insert-IsDistinct :
      (k : String) (v : V) (m : GoMap V) → IsDistinct m → IsDistinct (insert k v m)
  unfolding lookup insert
  insert-IsDistinct k v [] h = (refl, tt)
  insert-IsDistinct k v ((j, w) ∷ m) h = elim (Bool-cases (j == k)) [
    | inl e ↦ rw e (rw ((eq_iff j k).0 e) at h.0, h.1)
    | inr e ↦ rw e (ground (arith, lookup-insert k j v m, eq_iff k j), insert-IsDistinct k v m h.1)
  ]

  mem-keys_ne :
      (k j : String) (m : GoMap V) → lookup k m ≡ none → Memᴰ j (keys m) → (k == j) ≡ false
  unfolding lookup keys
  mem-keys_ne k j [] h p = elim p [ ]
  mem-keys_ne k j ((i, w) ∷ m) h (Memᴰ.head e) = ground (arith, eq_iff i k, eq_iff k j)
  mem-keys_ne k j ((i, w) ∷ m) h (Memᴰ.tail p) = mem-keys_ne k j m (ground arith) p

  pub keys-IsNodup : (m : GoMap V) → IsDistinct m → IsNodup (keys m)
  unfolding keys
  keys-IsNodup [] h = tt
  keys-IsNodup ((k, w) ∷ m) h = (λ j p. mem-keys_ne k j m h.0 p, keys-IsNodup m h.1)

  pub delete-IsDistinct : (k : String) (m : GoMap V) → IsDistinct m → IsDistinct (delete k m)
  unfolding delete
  delete-IsDistinct k [] h = tt
  delete-IsDistinct k ((j, w) ∷ m) h = elim (Bool-cases (j == k)) [
    | inl e ↦ rw e (delete-IsDistinct k m h.1)
    | inr e ↦ rw e (ground (arith, lookup-delete k j m), delete-IsDistinct k m h.1)
  ]

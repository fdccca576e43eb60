-- ===== src/Lru/Recency.antt =====
-- What a bounded cache holds: the entries of the keys that were used last.
use circle_wallet_service.Prelude.{
  ℕ, zero, suc, ◌+◌, ◌≤◌, ◌<◌, ◌≡◌, refl, Bool, true, false, not, ◌&&◌, ◌||◌, none, some, List, [],
  ◌∷◌, String, ◌==◌, eq_iff, arith, length, take, Bool-cases, inl, inr,
}
use circle_wallet_service.Lru.{remove, back, without_back}

unfoldable pub contains : String → List String → Bool
contains j [] = false
contains j (k ∷ ks) = k == j || contains j ks

-- No key stands twice.
abbrev pub IsOnce : List String → Type 0
IsOnce [] = Unit
IsOnce (k ∷ ks) = (contains k ks ≡ false) × IsOnce ks

pub contains-remove :
    (j k : String) (ks : List String) → contains j (remove k ks) ≡ contains j ks && not (k == j)
unfolding contains remove
contains-remove j k [] = ground arith
contains-remove j k (i ∷ is) =
    ground (arith, contains-remove j k is, eq_iff k i, eq_iff i j, eq_iff k j)

pub remove-IsOnce : (k : String) (ks : List String) → IsOnce ks → IsOnce (remove k ks)
unfolding remove
remove-IsOnce k [] h = tt
remove-IsOnce k (i ∷ is) h = elim (Bool-cases (k == i)) [
  | inl e ↦ rw e (remove-IsOnce k is h.1)
  | inr e ↦ rw e (ground (arith, contains-remove i k is, h.0), remove-IsOnce k is h.1)
]

pub remove_absent : (k : String) (ks : List String) → contains k ks ≡ false → remove k ks ≡ ks
unfolding contains remove
remove_absent k [] h = refl
remove_absent k (i ∷ is) h = ground (arith, h, remove_absent k is, eq_iff i k, eq_iff k i)

length-remove_le : (k : String) (ks : List String) → length (remove k ks) ≤ length ks
unfolding remove
length-remove_le k [] = omega arith
length-remove_le k (i ∷ is) = ground (arith, length-remove_le k is)

pub length-remove :
    (k : String) (ks : List String) → contains k ks ≡ true → length (remove k ks) < length ks
unfolding contains remove
length-remove k [] h = absurd (ground arith)
length-remove k (i ∷ is) h =
    ground (arith, h, length-remove k is, length-remove_le k is, eq_iff i k, eq_iff k i)

back-contains : (ks : List String) {b : String} → back ks ≡ some b → contains b ks ≡ true
unfolding contains back
back-contains [] h = absurd (ground arith)
back-contains (j ∷ []) h = ground (arith, eq_iff j j)
back-contains (j ∷ i ∷ is) h = ground (arith, back-contains (i ∷ is) h)

pub contains-without_back :
    (j : String) (ks : List String) {b : String}
    → IsOnce ks
    → back ks ≡ some b
    → contains j (without_back ks) ≡ contains j ks && not (b == j)
unfolding contains back without_back
contains-without_back j [] o h = absurd (ground arith)
contains-without_back j (k ∷ []) {b} o h = ground (arith, eq_iff k j, eq_iff b j, eq_iff k b)
contains-without_back j (k ∷ i ∷ is) {b} o h = ground (
  arith,
  contains-without_back j (i ∷ is) o.1 h,
  back-contains (i ∷ is) h,
  o.0,
  eq_iff k j,
  eq_iff b j,
  eq_iff k b,
)

pub without_back-IsOnce :
    (ks : List String) {b : String} → IsOnce ks → back ks ≡ some b → IsOnce (without_back ks)
unfolding back without_back
without_back-IsOnce [] o h = tt
without_back-IsOnce (k ∷ []) o h = tt
without_back-IsOnce (k ∷ i ∷ is) o h = (
  ground (arith, contains-without_back k (i ∷ is) o.1 h, o.0),
  without_back-IsOnce (i ∷ is) o.1 h,
)

pub length-without_back :
    (ks : List String) {b : String} → back ks ≡ some b → length ks ≡ length (without_back ks) + 1
unfolding back without_back
length-without_back [] h = absurd (ground arith)
length-without_back (k ∷ []) h = refl
length-without_back (k ∷ i ∷ is) h = omega (arith, length-without_back (i ∷ is) h)

pub back-none : (ks : List String) → back ks ≡ none → ks ≡ []
unfolding back
back-none [] h = refl
back-none (k ∷ []) h = absurd (ground arith)
back-none (k ∷ i ∷ is) h = absurd (ground (arith, back-none (i ∷ is) h))

pub take-without_back :
    (n : ℕ) (ks : List String) → n < length ks → take n (without_back ks) ≡ take n ks
unfolding without_back
take-without_back zero ks h = refl
take-without_back (suc n) [] h = absurd (omega (arith, h))
take-without_back (suc n) (k ∷ []) h = absurd (omega (arith, h))
take-without_back (suc n) (k ∷ i ∷ is) h =
    ground (arith, take-without_back n (i ∷ is) (omega (arith, h)))

pub take_all : (n : ℕ) (ks : List String) → length ks ≤ n → take n ks ≡ ks
take_all zero [] h = refl
take_all zero (k ∷ ks) h = absurd (omega (arith, h))
take_all (suc n) [] h = refl
take_all (suc n) (k ∷ ks) h = ground (arith, take_all n ks (omega (arith, h)))

pub contains-take :
    (j : String) (n : ℕ) (ks : List String) → contains j (take n ks) ≡ true → contains j ks ≡ true
unfolding contains
contains-take j zero ks h = absurd (ground (arith, h))
contains-take j (suc n) [] h = h
contains-take j (suc n) (k ∷ ks) h = ground (arith, h, contains-take j n ks)

absent_take :
    (j : String) (n : ℕ) (ks : List String) → contains j ks ≡ false → contains j (take n ks) ≡ false
absent_take j n ks h = elim (Bool-cases (contains j (take n ks))) [
  | inl e ↦ absurd (ground (arith, h, contains-take j n ks e))
  | inr e ↦ e
]

pub take-IsOnce : (n : ℕ) (ks : List String) → IsOnce ks → IsOnce (take n ks)
take-IsOnce zero ks o = tt
take-IsOnce (suc n) [] o = tt
take-IsOnce (suc n) (k ∷ ks) o = (absent_take k n ks o.0, take-IsOnce n ks o.1)

pub first_taken :
    (k : String) (n : ℕ) (ks : List String) → 1 ≤ n → contains k (take n (k ∷ ks)) ≡ true
unfolding contains
first_taken k zero ks h = absurd (omega (arith, h))
first_taken k (suc n) ks h = ground (arith, eq_iff k k)

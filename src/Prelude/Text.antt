-- ===== src/Prelude/Text.antt =====
-- Go's `<` on strings: by code points, which is the order of the UTF-8 bytes.
use Prim.Native.Char.{code}
use Prim.Native.String.{String}
use mathlib.Core.Path.{◌≡◌, refl}
use mathlib.Core.Bool.{Bool, true, false, ◌&&◌, ◌||◌}
use text.Mathlib.TextEquality.{codes_equal}
use mathlib.Core.Logic.{◌⊎◌, inl, inr}
use native.Mathlib.Omega.{arith}
use circle_wallet_service.Prelude.Tests.{ltb, nat_eq, Bool-cases}

unfoldable pub str_lt : String → String → Bool
str_lt String.[] String.[] = false
str_lt String.[] (String.◌∷◌ d t) = true
str_lt (String.◌∷◌ c s) String.[] = false
str_lt (String.◌∷◌ c s) (String.◌∷◌ d t) =
    ltb (code c) (code d) || (nat_eq (code c) (code d) && str_lt s t)

pub str_lt_irrefl : (s : String) → str_lt s s ≡ false
unfolding str_lt
str_lt_irrefl String.[] = refl
str_lt_irrefl (String.◌∷◌ c s) = ground (arith, str_lt_irrefl s)

pub str_lt_trans : (r s t : String) → str_lt r s ≡ true → str_lt s t ≡ true → str_lt r t ≡ true
unfolding str_lt
str_lt_trans String.[] String.[] t h k = ground arith
str_lt_trans String.[] (String.◌∷◌ d s) String.[] h k = ground arith
str_lt_trans String.[] (String.◌∷◌ d s) (String.◌∷◌ e t) h k = refl
str_lt_trans (String.◌∷◌ c r) String.[] t h k = ground arith
str_lt_trans (String.◌∷◌ c r) (String.◌∷◌ d s) String.[] h k = ground arith
str_lt_trans (String.◌∷◌ c r) (String.◌∷◌ d s) (String.◌∷◌ e t) h k =
    ground (arith, str_lt_trans r s t)

-- Of two strings, one comes first, unless they are the same.
pub str_lt_total : (s t : String) → (str_lt s t ≡ true) ⊎ ((s ≡ t) ⊎ (str_lt t s ≡ true))
unfolding str_lt
str_lt_total String.[] String.[] = inr (inl refl)
str_lt_total String.[] (String.◌∷◌ d t) = inl refl
str_lt_total (String.◌∷◌ c s) String.[] = inr (inr refl)
str_lt_total (String.◌∷◌ c s) (String.◌∷◌ d t) = elim (Bool-cases (nat_eq (code c) (code d))) [
  | inl e ↦ let same = codes_equal c d (ground (arith, e)) in ground (arith, str_lt_total s t, same)
  | inr e ↦ ground (arith, e)
]

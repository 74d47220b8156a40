-- ===== src/Prelude/Order.antt =====
-- The order of texts that `sort.Strings` goes by: code point by code point, which for UTF-8 is the
-- order of the bytes.
use Prim.Native.String.compare
use Prim.Native.String.{String, compare}
use mathlib.Core.Bool.{Bool, true, false}
use mathlib.Core.Path.{◌≡◌, refl}
use mathlib.Core.List.{List, Permᴰ}
use native.Mathlib.Omega.{arith}
use text.Mathlib.Text.{is_le}
use text.Mathlib.TextEquality.{codes_equal}
use conductor.Prelude.Sorting.{IsTotal, sort_by, sort_by-eq_of_perm}

abbrev pub text_le : String → String → Bool
text_le s t = is_le (compare s t)

text_le_total : (s t : String) → text_le s t ≡ false → text_le t s ≡ true
text_le_total String.[] String.[] h = refl
text_le_total String.[] (String.◌∷◌ d t) h = ground (arith, compare.nil-cons d t)
text_le_total (String.◌∷◌ c s) String.[] h = ground (arith, compare.nil-cons c s)
text_le_total (String.◌∷◌ c s) (String.◌∷◌ d t) h =
    ground (arith, compare.cons-cons c d s t, compare.cons-cons d c t s, text_le_total s t)

text_le_trans : (s t u : String) → text_le s t ≡ true → text_le t u ≡ true → text_le s u ≡ true
text_le_trans String.[] t String.[] h k = refl
text_le_trans String.[] t (String.◌∷◌ e u) h k = ground (arith, compare.nil-cons e u)
text_le_trans (String.◌∷◌ c s) String.[] u h k = ground (arith, compare.cons-nil c s)
text_le_trans (String.◌∷◌ c s) (String.◌∷◌ d t) String.[] h k = ground (arith, compare.cons-nil d t)
text_le_trans (String.◌∷◌ c s) (String.◌∷◌ d t) (String.◌∷◌ e u) h k = ground (
  arith,
  compare.cons-cons c d s t,
  compare.cons-cons d e t u,
  compare.cons-cons c e s u,
  text_le_trans s t u,
)

pub text_le_antisymm : (s t : String) → text_le s t ≡ true → text_le t s ≡ true → s ≡ t
text_le_antisymm String.[] String.[] h k = refl
text_le_antisymm String.[] (String.◌∷◌ d t) h k = ground (arith, compare.cons-nil d t)
text_le_antisymm (String.◌∷◌ c s) String.[] h k = ground (arith, compare.cons-nil c s)
text_le_antisymm (String.◌∷◌ c s) (String.◌∷◌ d t) h k = ground (
  arith,
  compare.cons-cons c d s t,
  compare.cons-cons d c t s,
  text_le_antisymm s t,
  codes_equal c d,
)

pub text_le-IsTotal : IsTotal text_le
text_le-IsTotal = record { total = text_le_total; trans = text_le_trans }

-- `sort.Strings`
abbrev pub sort_strings : List String → List String
sort_strings = sort_by text_le

pub sort_strings-eq_of_perm : {l r : List String} → Permᴰ l r → sort_strings l ≡ sort_strings r
sort_strings-eq_of_perm = sort_by-eq_of_perm text_le text_le-IsTotal text_le_antisymm

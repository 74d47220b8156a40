-- ===== src/Prelude/Sets.antt =====
-- Go's `map[string]struct{}`: a list in which no text stands twice.
use Prim.Native.String.{String}
use mathlib.Core.Path.{◌≡◌, refl, sym, subst, ◌∙◌}
use mathlib.Core.Logic.{inl, inr}
use mathlib.Core.Bool.{Bool, true, false, ◌||◌}
use mathlib.Core.List.{List, [], ◌∷◌, Permᴰ}
use native.Mathlib.Omega.{arith}
use text.Mathlib.TextEquality.{eq_iff}
use conductor.Prelude.Tests.{if◌then◌else◌, Bool-cases}
use conductor.Prelude.Lists.{All, Any, All-perm}
use conductor.Prelude.Equality.{◌==◌, string_instance}

-- `_, ok := set[k]`
unfoldable pub contains : String → List String → Bool
contains k [] = false
contains k (j ∷ set) = j == k || contains k set

-- `set[k] = struct{}{}`
unfoldable pub add : String → List String → List String
unfolding contains
add k set = if contains k set then set else k ∷ set

-- No text stands twice in the list.
abbrev pub AreDistinct : List String → Type 0
AreDistinct [] = Unit
AreDistinct (k ∷ ks) = All (λ j. (j == k) ≡ false) ks × AreDistinct ks

pub contains-add :
    (k j : String) (set : List String) → contains j (add k set) ≡ (k == j || contains j set)
unfolding contains add
contains-add k j set = elim (Bool-cases (contains k set)) [
  | inl old ↦ rw old (ground (arith, eq_iff k j, old))
  | inr new ↦ rw new refl
]

All-of_contains :
    (k : String) (set : List String) → contains k set ≡ false → All (λ j. (j == k) ≡ false) set
unfolding contains
All-of_contains k [] h = tt
All-of_contains k (j ∷ set) h = (ground arith, All-of_contains k set (ground arith))

pub add-AreDistinct : (k : String) (set : List String) → AreDistinct set → AreDistinct (add k set)
unfolding add
add-AreDistinct k set d = elim (Bool-cases (contains k set)) [
  | inl old ↦ rw old d
  | inr new ↦ rw new (All-of_contains k set new, d)
]

pub contains-perm : (k : String) {xs ys : List String} → Permᴰ xs ys → contains k xs ≡ contains k ys
unfolding contains
contains-perm k Permᴰ.nil = refl
contains-perm k (Permᴰ.cons e p) = ground (arith, e, contains-perm k p)
contains-perm k (Permᴰ.swap e f) = ground (arith, e, f)
contains-perm k (Permᴰ.trans p q) = contains-perm k p ∙ contains-perm k q

module _ (P : String → Type 0) where
  pub member_of_Any : (ks : List String) → Any P ks → (j : String) × (contains j ks ≡ true) × P j
  unfolding contains
  member_of_Any [] h = absurd h
  member_of_Any (k ∷ ks) (inl h) = (k, ground (arith, eq_iff k k), h)
  member_of_Any (k ∷ ks) (inr h) =
      let (j, found, q) = member_of_Any ks h in (j, ground (arith, found), q)

  pub Any-contains : (j : String) (ks : List String) → contains j ks ≡ true → P j → Any P ks
  unfolding contains
  Any-contains j [] found h = cc
  Any-contains j (k ∷ ks) found h = elim (Bool-cases (k == j)) [
    | inl same ↦ inl (subst P (sym ((eq_iff k j).0 same)) h)
    | inr other ↦ inr (Any-contains j ks (ground arith) h)
  ]

different_symm : (j k : String) → (j == k) ≡ false → (k == j) ≡ false
different_symm j k h = ground (arith, eq_iff j k, eq_iff k j)

pub AreDistinct-perm : {xs ys : List String} → Permᴰ xs ys → AreDistinct xs → AreDistinct ys
AreDistinct-perm Permᴰ.nil d = d
AreDistinct-perm (Permᴰ.cons {l₂ = ys} e p) d =
    (subst (λ k. All (λ j. (j == k) ≡ false) ys) e (All-perm _ p d.0), AreDistinct-perm p d.1)
AreDistinct-perm (Permᴰ.swap {a} {b} {a'} {l} e f) d =
    subst (λ z. AreDistinct (a' ∷ z ∷ l)) e
      (subst (λ z. AreDistinct (z ∷ a ∷ l)) f ((different_symm b a d.0.0, d.1.0), (d.0.1, d.1.1)))
AreDistinct-perm (Permᴰ.trans p q) d = AreDistinct-perm q (AreDistinct-perm p d)

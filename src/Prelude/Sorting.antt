-- ===== src/Prelude/Sorting.antt =====
-- `sort.Strings` and `sort.Slice`: a sorted rearrangement of the list. Elements that compare equal
-- may stand in any order after `sort.Slice`; the callers permute the input to cover that.
use mathlib.Core.Bool.{Bool, true, false}
use mathlib.Core.Path.{◌≡◌, refl, ap₂, ◌∙◌}
use mathlib.Core.Logic.{inl, inr}
use mathlib.Core.List.{List, [], ◌∷◌, Permᴰ}
use mathlib.Core.List.Permᴰ
use native.Mathlib.Omega.{arith}
use conductor.Prelude.Tests.{if◌then◌else◌, Bool-cases}
use conductor.Prelude.Lists.{All, All-imp, All-perm}

module _ {ℓ} {A : Type ℓ} (le : A → A → Bool) where
  unfoldable pub insert_sorted : A → List A → List A
  insert_sorted x [] = x ∷ []
  insert_sorted x (y ∷ ys) = if le x y then x ∷ y ∷ ys else y ∷ insert_sorted x ys

  unfoldable pub sort_by : List A → List A
  unfolding insert_sorted
  sort_by [] = []
  sort_by (x ∷ xs) = insert_sorted x (sort_by xs)

  pub insert_sorted-perm : (x : A) (l : List A) → Permᴰ (insert_sorted x l) (x ∷ l)
  unfolding insert_sorted
  insert_sorted-perm x [] = Permᴰ.refl (x ∷ [])
  insert_sorted-perm x (y ∷ ys) = elim (Bool-cases (le x y)) [
    | inl h ↦ rw h (Permᴰ.refl _)
    | inr h ↦ rw h (Permᴰ.trans (Permᴰ.cons refl (insert_sorted-perm x ys)) (Permᴰ.swap refl refl))
  ]

  pub sort_by-perm : (l : List A) → Permᴰ (sort_by l) l
  unfolding sort_by
  sort_by-perm [] = Permᴰ.nil
  sort_by-perm (x ∷ xs) =
      Permᴰ.trans (insert_sorted-perm x (sort_by xs)) (Permᴰ.cons refl (sort_by-perm xs))

  -- Each element is in order with all that follow it.
  abbrev pub IsSorted : List A → Type 0
  IsSorted [] = Unit
  IsSorted (x ∷ xs) = All (λ y. le x y ≡ true) xs × IsSorted xs

  -- What a comparison has to satisfy for the result of a sort to be in order.
  pub record IsTotal : Type ℓ where
    pub total : (x y : A) → le x y ≡ false → le y x ≡ true
    pub trans : (x y z : A) → le x y ≡ true → le y z ≡ true → le x z ≡ true

  module _ (o : IsTotal) where
    insert_sorted-IsSorted : (x : A) (l : List A) → IsSorted l → IsSorted (insert_sorted x l)
    unfolding insert_sorted
    insert_sorted-IsSorted x [] s = (tt, tt)
    insert_sorted-IsSorted x (y ∷ ys) s = elim (Bool-cases (le x y)) [
      | inl h ↦ rw h ((h, All-imp (λ z q. o.trans x y z h q) ys s.0), s)
      | inr h ↦ rw h (
        All-perm _ (Permᴰ.symm (insert_sorted-perm x ys)) (o.total x y h, s.0),
        insert_sorted-IsSorted x ys s.1,
      )
    ]

    pub sort_by-IsSorted : (l : List A) → IsSorted (sort_by l)
    unfolding sort_by
    sort_by-IsSorted [] = tt
    sort_by-IsSorted (x ∷ xs) = insert_sorted-IsSorted x (sort_by xs) (sort_by-IsSorted xs)

  -- With an antisymmetric comparison the result does not depend on the order of the input.
  module _ (o : IsTotal) (antisymm : (x y : A) → le x y ≡ true → le y x ≡ true → x ≡ y) where
    insert_sorted_comm :
        (x y : A) (l : List A)
        → insert_sorted x (insert_sorted y l) ≡ insert_sorted y (insert_sorted x l)
    unfolding insert_sorted
    insert_sorted_comm x y [] = ground (arith, o.total x y, o.total y x, antisymm x y)
    insert_sorted_comm x y (z ∷ l) = ground (
      arith,
      o.total x y,
      o.total y x,
      antisymm x y,
      o.total x z,
      o.total y z,
      o.trans x y z,
      o.trans y x z,
      o.trans x z y,
      o.trans y z x,
      insert_sorted_comm x y l,
    )

    pub sort_by-eq_of_perm : {l r : List A} → Permᴰ l r → sort_by l ≡ sort_by r
    unfolding sort_by
    sort_by-eq_of_perm Permᴰ.nil = refl
    sort_by-eq_of_perm (Permᴰ.cons e p) = ap₂ insert_sorted e (sort_by-eq_of_perm p)
    sort_by-eq_of_perm (Permᴰ.swap {a} {b} {l} e f) =
        insert_sorted_comm a b (sort_by l)
        ∙ ap₂ (λ u v. insert_sorted u (insert_sorted v (sort_by l))) f e
    sort_by-eq_of_perm (Permᴰ.trans p q) = sort_by-eq_of_perm p ∙ sort_by-eq_of_perm q

-- ===== src/State/Memory/Listing.antt =====
-- What the listing methods return: the first entries of a sorted view, cut at the limit.
use mathlib.Core.List.Permᴰ
use mathlib.Core.Path.{subst, subst₂}
use conductor.Prelude.{
  length-append, length-perm, ◌∙◌, ℕ, zero, suc, ◌≤◌, ℤ, pos, negsuc, String, ◌≡◌, refl, sym, ap,
  ◌⊎◌, inl, inr, Bool, Option, none, some, List, [], ◌∷◌, ◌++◌, arith, ltb, length, take, keep,
  Permᴰ, Bool-cases,
}
use conductor.Prelude.Equality.{string_instance}
use conductor.Prelude.Maps.{lookup}
use conductor.Prelude.Sorting.{IsTotal, IsSorted, sort_by, sort_by-perm, sort_by-IsSorted}
use conductor.Prelude.Order.{text_le-IsTotal}
use conductor.Ingest.Processor.{ProductProcessResult}
use conductor.State.Memory.{
  MemoryStore, Shuffle, Shuffles, values, limited, newest_first, oldest_first, by_product_key,
  of_tenant, list_runs, list_run_products,
}

module _ {A : Type 0} where
  -- What is cut off at a limit: nothing where there is no limit or the list is short enough.
  abbrev pub IsCut : ℤ → List A → List A → Type 0
  IsCut (pos (suc n)) out rest = ((rest ≡ []) × (length out ≤ suc n)) ⊎ (length out ≡ suc n)
  IsCut _ out rest = rest ≡ []

  -- A page of all entries: with the rest it is a sorted rearrangement of them, so what is left out
  -- comes later in the order, and nothing is left out below the limit.
  pub record IsPage (le : A → A → Bool) (all : List A) (limit : ℤ) (out : List A) : Type 0 where
    pub rest : List A
    pub complete : Permᴰ (out ++ rest) all
    pub sorted : IsSorted le (out ++ rest)
    pub cut : IsCut limit out rest

  -- A list divided at a limit.
  pub record Splits (limit : ℤ) (out xs : List A) : Type 0 where
    pub rest : List A
    pub whole : out ++ rest ≡ xs
    pub cut : IsCut limit out rest

  drop : ℕ → List A → List A
  drop zero xs = xs
  drop (suc n) [] = []
  drop (suc n) (x ∷ xs) = drop n xs

  take_splits :
      (n : ℕ) (xs : List A)
      → n ≤ length xs
      → (take n xs ++ drop n xs ≡ xs) × (length (take n xs) ≡ n)
  unfolding drop
  take_splits zero xs h = (refl, refl)
  take_splits (suc n) [] h = absurd (omega arith)
  take_splits (suc n) (x ∷ xs) h =
      let (whole, size) = take_splits n xs (omega arith) in (ap (◌∷◌ x) whole, ap suc size)

  length-eq-zero : (xs : List A) → length xs ≡ 0 → xs ≡ []
  length-eq-zero [] h = refl
  length-eq-zero (x ∷ xs) h = absurd (omega arith)

  append-nil : (xs : List A) → xs ++ [] ≡ xs
  append-nil [] = refl
  append-nil (x ∷ xs) = ap (◌∷◌ x) (append-nil xs)

  pub Splits-take :
      (n : ℕ) (xs : List A) → suc n ≤ length xs → Splits (pos (suc n)) (take (suc n) xs) xs
  Splits-take n xs h =
      let (whole, size) = take_splits (suc n) xs h in
      record { rest = drop (suc n) xs; whole = whole; cut = inr size }

  pub Splits-all : (n : ℕ) (xs : List A) → length xs ≤ suc n → Splits (pos (suc n)) xs xs
  Splits-all n xs h = record { rest = []; whole = append-nil xs; cut = inl (refl, h) }

  limited-Splits : (limit : ℤ) (xs : List A) → Splits limit (limited limit xs) xs
  limited-Splits (pos zero) xs = record { rest = []; whole = append-nil xs; cut = refl }
  limited-Splits (negsuc n) xs = record { rest = []; whole = append-nil xs; cut = refl }
  limited-Splits (pos (suc n)) xs = elim (Bool-cases (ltb (length xs) (suc n))) [
    | inl short ↦ rw short (Splits-all n xs (ground arith))
    | inr long ↦ rw long (Splits-take n xs (ground arith))
  ]

  keep_cons :
      (p : A → Bool) (a : A) (xs ys : List A)
      → Permᴰ (keep p xs) (keep p ys)
      → Permᴰ (keep p (a ∷ xs)) (keep p (a ∷ ys))
  keep_cons p a xs ys h = elim (Bool-cases (p a)) [
    | inl t ↦ rw t (Permᴰ.cons refl h)
    | inr t ↦ rw t h
  ]

  keep_swap :
      (p : A → Bool) (a b : A) (l : List A) → Permᴰ (keep p (a ∷ b ∷ l)) (keep p (b ∷ a ∷ l))
  keep_swap p a b l = elim (Bool-cases (p a)) [
    | inl t ↦ elim (Bool-cases (p b)) [
      | inl u ↦ rw (t, u) (Permᴰ.swap refl refl)
      | inr u ↦ rw (t, u) (Permᴰ.refl _)
    ]
    | inr t ↦ rw t (Permᴰ.refl _)
  ]

  pub keep-perm : (p : A → Bool) {xs ys : List A} → Permᴰ xs ys → Permᴰ (keep p xs) (keep p ys)
  keep-perm p Permᴰ.nil = Permᴰ.nil
  keep-perm p (Permᴰ.cons {a} {l₁} {l₂} e h) =
      subst (λ c. Permᴰ (keep p (a ∷ l₁)) (keep p (c ∷ l₂))) e (keep_cons p a l₁ l₂ (keep-perm p h))
  keep-perm p (Permᴰ.swap {a} {b} {l} e f) =
      subst₂ (λ c d. Permᴰ (keep p (a ∷ b ∷ l)) (keep p (c ∷ d ∷ l))) f e (keep_swap p a b l)
  keep-perm p (Permᴰ.trans h k) = Permᴰ.trans (keep-perm p h) (keep-perm p k)

  IsPage-nil : (le : A → A → Bool) (limit : ℤ) → IsPage le [] limit []
  IsPage-nil le (pos zero) = record { rest = []; complete = Permᴰ.nil; sorted = tt; cut = refl }
  IsPage-nil le (negsuc n) = record { rest = []; complete = Permᴰ.nil; sorted = tt; cut = refl }
  IsPage-nil le (pos (suc n)) = record {
    rest = [];
    complete = Permᴰ.nil;
    sorted = tt;
    cut = inl (refl, omega arith);
  }

  -- A page of no more entries than the limit holds them all.
  pub IsPage-whole :
      (le : A → A → Bool) (all : List A) (limit : ℕ) (out : List A)
      → length all ≤ limit
      → IsPage le all (pos limit) out
      → Permᴰ out all
  IsPage-whole le all limit out h page = go page.rest page.complete (none_left limit h page.cut)
    where
      none_left : (n : ℕ) → length all ≤ n → IsCut (pos n) out page.rest → page.rest ≡ []
      none_left zero k c = c
      none_left (suc n) k (inl c) = c.0
      none_left (suc n) k (inr c) =
          length-eq-zero page.rest
            (omega (arith, length-perm page.complete, length-append out page.rest))

      go : (rest : List A) → Permᴰ (out ++ rest) all → rest ≡ [] → Permᴰ out all
      go rest p e = subst (λ l. Permᴰ l all) (ap (λ r. out ++ r) e ∙ append-nil out) p

  pub IsPage-of_Splits :
      (le : A → A → Bool) (o : IsTotal le) (limit : ℤ) {all xs out : List A}
      → Permᴰ xs all
      → Splits limit out (sort_by le xs)
      → IsPage le all limit out
  IsPage-of_Splits le o limit {all} {xs} p s = record {
    rest = s.rest;
    complete = subst (λ l. Permᴰ l all) (sym s.whole) (Permᴰ.trans (sort_by-perm le xs) p);
    sorted = subst (IsSorted le) (sym s.whole) (sort_by-IsSorted le o xs);
    cut = s.cut;
  }

pub newest_first-IsTotal : IsTotal newest_first
newest_first-IsTotal = record { total = λ x y h. ground arith; trans = λ x y z h k. ground arith }

pub oldest_first-IsTotal : IsTotal oldest_first
oldest_first-IsTotal = record { total = λ x y h. ground arith; trans = λ x y z h k. ground arith }

pub by_product_key-IsTotal : IsTotal by_product_key
by_product_key-IsTotal = record {
  total = λ x y. text_le-IsTotal.total x.product_key y.product_key;
  trans = λ x y z. text_le-IsTotal.trans x.product_key y.product_key z.product_key;
}

-- `ListRuns` returns the tenant's newest runs and no run of another tenant: with what the limit
-- cuts off they are all its runs, newest first.
pub list_runs-IsPage :
    (f : Shuffle) (tenant_id : ℕ) (limit : ℤ) (s : MemoryStore)
    → Shuffles f
    → IsPage newest_first
        (keep (of_tenant tenant_id) (values s.runs))
        limit
        (list_runs f tenant_id limit s)
unfolding list_runs
list_runs-IsPage f tenant_id limit s shuffles =
    IsPage-of_Splits newest_first newest_first-IsTotal limit
      (keep-perm (of_tenant tenant_id) (shuffles.runs (values s.runs))) (limited-Splits limit _)

abbrev pub products_of : Option (List ProductProcessResult) → List ProductProcessResult
products_of none = []
products_of (some items) = items

-- `ListRunProducts` returns the results stored for the run by ascending product key, cut at the
-- limit.
pub list_run_products-IsPage :
    (f : Shuffle) (run_id : String) (limit : ℤ) (s : MemoryStore)
    → Shuffles f
    → IsPage by_product_key
        (products_of (lookup run_id s.run_products))
        limit
        (list_run_products f run_id limit s)
unfolding list_run_products
list_run_products-IsPage f run_id limit s shuffles = go (lookup run_id s.run_products)
  where
    go :
        (o : Option (List ProductProcessResult))
        → IsPage by_product_key (products_of o) limit (elim o [
          | none ↦ []
          | some items ↦ limited limit (sort_by by_product_key (f.products items))
        ])
    go none = IsPage-nil by_product_key limit
    go (some items) =
        IsPage-of_Splits by_product_key by_product_key-IsTotal limit (shuffles.products items)
          (limited-Splits limit _)

-- ===== src/Ingest/Hash/Maps.antt =====
-- `sortedStringMap` and `sortedAnyMap` are canonical: two maps have one image exactly when they are
-- the same map.
use mathlib.Core.Path.{fun_ext, subst}
use mathlib.Core.List.Permᴰ
use conductor.Prelude.{
  String, ◌≡◌, refl, sym, ap, ap₂, ◌≢◌, ◌↔◌, inl, inr, Option, none, some, List, [], ◌∷◌, map,
  arith, eq_iff, All, All-imp, All-perm, Permᴰ, Option-cases, Bool-cases,
}
use conductor.Prelude.Equality.{◌==◌, string_instance}
use conductor.Prelude.Maps.{Map, lookup}
use conductor.Prelude.Sorting.{sort_by-perm}
use conductor.Prelude.Order.{text_le, sort_strings, sort_strings-eq_of_perm}
use conductor.Json.{Json, null, str, items, array}
use conductor.Ingest.Hash.{keys, index, entry, sorted_string_map, sorted_any_map}

module _ {V : Type 0} where
  -- The same keys, in whatever order they are kept, and the same value at every key.
  pub record SameMap (m n : Map String V) : Type 0 where
    pub keys : Permᴰ (map (λ e. e.0) m) (map (λ e. e.0) n)
    pub values : (k : String) → lookup k m ≡ lookup k n

  module _ (zero : V) (enc : V → Json) where
    abbrev row : Map String V → String → Json
    row m k = entry k (enc (index zero m k))

    rows-of_SameMap :
        {m n : Map String V}
        → SameMap m n
        → array (map (row m) (sort_strings (keys m))) ≡ array (map (row n) (sort_strings (keys n)))
    rows-of_SameMap {m} {n} s =
        ap₂ (λ f ks. array (map f ks))
          (fun_ext λ k.
            ap (λ (o : Option V). entry k (enc (elim o [ none ↦ zero | some v ↦ v ]))) (s.values k))
          (sort_strings-eq_of_perm s.keys)

    module _ (inj : (a b : V) → enc a ≡ enc b → a ≡ b) where
      rows_inj :
          (m n : Map String V) (ks js : List String)
          → items (map (row m) ks) ≡ items (map (row n) js)
          → (ks ≡ js) × All (λ k. index zero m k ≡ index zero n k) ks
      rows_inj m n [] [] h = (refl, tt)
      rows_inj m n [] (j ∷ js) h = cc
      rows_inj m n (k ∷ ks) [] h = cc
      rows_inj m n (k ∷ ks) (j ∷ js) h =
          let same_key : k ≡ j = cc in
          let same_value : enc (index zero m k) ≡ enc (index zero n k) =
            cc (ap (index zero n) same_key) in
          let rest : items (map (row m) ks) ≡ items (map (row n) js) = cc in
          let (tails, values) = rows_inj m n ks js rest in
          (ap₂ ◌∷◌ same_key tails, (inj _ _ same_value, values))

  keys_found : (m : Map String V) → All (λ k. lookup k m ≢ none) (keys m)
  unfolding lookup
  keys_found [] = tt
  keys_found ((j, v) ∷ m) = (
    ground (arith, eq_iff j j),
    All-imp (λ k found. ground (arith, found)) (keys m) (keys_found m),
  )

  at_found :
      (P : String → Type 0) (m : Map String V) (k : String) {v : V}
      → All P (keys m)
      → lookup k m ≡ some v
      → P k
  unfolding lookup
  at_found P [] k a h = cc
  at_found P ((j, w) ∷ m) k {v} a h = elim (Bool-cases (j == k)) [
    | inl same ↦ subst P ((eq_iff j k).0 same) a.0
    | inr other ↦ at_found P m k {v = v} a.1 (ground arith)
  ]

  module _ (zero : V) where
    -- Equal keys, and equal values at each of them, make one map.
    SameMap-of_index :
        (m n : Map String V)
        → Permᴰ (keys m) (keys n)
        → All (λ k. index zero m k ≡ index zero n k) (keys m)
        → SameMap m n
    SameMap-of_index m n p same = record { keys = p; values = agree }
      where
        in_n : All (λ k. lookup k n ≢ none) (keys m)
        in_n = All-perm _ (Permᴰ.symm p) (keys_found n)

        in_m : All (λ k. lookup k m ≢ none) (keys n)
        in_m = All-perm _ p (keys_found m)

        agree : (k : String) → lookup k m ≡ lookup k n
        agree k = elim (Option-cases (lookup k m)) [
          | inl missing ↦ elim (Option-cases (lookup k n)) [
            | inl also ↦ cc
            | inr (w, found) ↦ absurd (at_found (λ j. lookup j m ≢ none) n k in_m found missing)
          ]
          | inr (v, found) ↦ elim (Option-cases (lookup k n)) [
            | inl missing ↦ absurd (at_found (λ j. lookup j n ≢ none) m k in_n found missing)
            | inr (w, also) ↦
                ground (arith, at_found (λ k. index zero m k ≡ index zero n k) m k same found)
          ]
        ]

    SameMap-of_rows :
        (enc : V → Json)
        → ((a b : V) → enc a ≡ enc b → a ≡ b)
        → (m n : Map String V)
        → array (map (row zero enc m) (sort_strings (keys m)))
          ≡ array (map (row zero enc n) (sort_strings (keys n)))
        → SameMap m n
    SameMap-of_rows enc inj m n h =
        let (same_keys, values) = rows_inj zero enc inj m n _ _ (cc) in
        SameMap-of_index m n
          (Permᴰ.trans (Permᴰ.symm (sort_by-perm text_le (keys m)))
            (subst (λ ks. Permᴰ ks (keys n)) (sym same_keys) (sort_by-perm text_le (keys n))))
          (All-perm _ (sort_by-perm text_le (keys m)) values)

-- Two maps of strings have the same sorted form exactly when they are the same map.
pub sorted_string_map_iff :
    (m n : Map String String) → (sorted_string_map m ≡ sorted_string_map n) ↔ SameMap m n
unfolding sorted_string_map
sorted_string_map_iff m n = (SameMap-of_rows "" str (λ a b e. cc) m n, rows-of_SameMap "" str)

pub sorted_any_map_iff :
    (m n : Map String Json) → (sorted_any_map m ≡ sorted_any_map n) ↔ SameMap m n
unfolding sorted_any_map
sorted_any_map_iff m n =
    (SameMap-of_rows null (λ v. v) (λ a b e. e) m n, rows-of_SameMap null (λ v. v))

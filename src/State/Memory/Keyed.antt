-- ===== src/State/Memory/Keyed.antt =====
-- The map of runs: every run stands under its own id, and no id stands twice.
use conductor.Prelude.{String, ◌≡◌, false, some, [], ◌∷◌, arith, eq_iff, inl, inr, All, Bool-cases}
use mathlib.Core.Path.{subst}
use conductor.Prelude.Equality.{◌==◌, string_instance}
use conductor.Prelude.Maps.{Map, lookup, insert}
use conductor.State.Records.{RunRecord}
use conductor.State.Memory.{values}

-- No key stands twice.
abbrev pub IsDistinct : Map String RunRecord → Type 0
IsDistinct [] = Unit
IsDistinct ((k, r) ∷ m) = All (λ e. (k == e.0) ≡ false) m × IsDistinct m

pub record IsKeyed (m : Map String RunRecord) : Type 0 where
  pub distinct : IsDistinct m
  pub own : All (λ e. e.1.run_id ≡ e.0) m

All-insert :
    (P : String × RunRecord → Type 0) (k : String) (r : RunRecord) (m : Map String RunRecord)
    → P (k, r)
    → All P m
    → All P (insert k r m)
unfolding insert
All-insert P k r [] h a = (h, tt)
All-insert P k r ((j, q) ∷ m) h a = elim (Bool-cases (j == k)) [
  | inl same ↦ rw same (h, a.1)
  | inr other ↦ rw other (a.0, All-insert P k r m h a.1)
]

IsDistinct-insert :
    (k : String) (r : RunRecord) (m : Map String RunRecord)
    → IsDistinct m
    → IsDistinct (insert k r m)
unfolding insert
IsDistinct-insert k r [] d = (tt, tt)
IsDistinct-insert k r ((j, q) ∷ m) d = elim (Bool-cases (j == k)) [
  | inl same ↦ rw same (subst (λ i. All (λ e. (i == e.0) ≡ false) m) ((eq_iff j k).0 same) d.0, d.1)
  | inr other ↦
      rw other (All-insert (λ e. (j == e.0) ≡ false) k r m other d.0, IsDistinct-insert k r m d.1)
]

-- Writing a run under its id keeps the map keyed.
pub insert-IsKeyed :
    (k : String) (r : RunRecord) (m : Map String RunRecord)
    → r.run_id ≡ k
    → IsKeyed m
    → IsKeyed (insert k r m)
insert-IsKeyed k r m own h = record {
  distinct = IsDistinct-insert k r m h.distinct;
  own = All-insert (λ e. e.1.run_id ≡ e.0) k r m own h.own;
}

pub nil-IsKeyed : IsKeyed []
nil-IsKeyed = record { distinct = tt; own = tt }

under_other_key :
    (j : String) (r : RunRecord) (m whole : Map String RunRecord)
    → All (λ e. (j == e.0) ≡ false) m
    → All (λ e. e.1.run_id ≡ e.0) m
    → All (λ q. lookup q.run_id whole ≡ some q) (values m)
    → All (λ q. lookup q.run_id ((j, r) ∷ whole) ≡ some q) (values m)
unfolding lookup
under_other_key j r [] whole d o f = tt
under_other_key j r ((k, q) ∷ m) whole d o f =
    (ground arith, under_other_key j r m whole d.1 o.1 f.1)

found_in :
    (m : Map String RunRecord)
    → IsDistinct m
    → All (λ e. e.1.run_id ≡ e.0) m
    → All (λ r. lookup r.run_id m ≡ some r) (values m)
unfolding lookup
found_in [] d o = tt
found_in ((j, r) ∷ m) d o =
    (ground (arith, eq_iff j r.run_id), under_other_key j r m m d.0 o.1 (found_in m d.1 o.1))

-- In a keyed map every value is found under its id.
pub values-found :
    (m : Map String RunRecord) → IsKeyed m → All (λ r. lookup r.run_id m ≡ some r) (values m)
values-found m h = found_in m h.distinct h.own

own_id :
    (k : String) (m : Map String RunRecord) {r : RunRecord}
    → All (λ e. e.1.run_id ≡ e.0) m
    → lookup k m ≡ some r
    → r.run_id ≡ k
unfolding lookup
own_id k [] o h = cc
own_id k ((j, q) ∷ m) {r} o h = elim (Bool-cases (j == k)) [
  | inl same ↦ ground (arith, eq_iff j k)
  | inr other ↦ own_id k m {r = r} o.1 (ground arith)
]

-- The run under an id has that id.
pub lookup-run_id :
    (k : String) (m : Map String RunRecord) {r : RunRecord}
    → IsKeyed m
    → lookup k m ≡ some r
    → r.run_id ≡ k
lookup-run_id k m h e = own_id k m h.own e

-- ===== src/State/Memory/Claims.antt =====
-- What `ClaimRuns` takes, and what it leaves.
use mathlib.Core.List.Permᴰ
use conductor.Prelude.{
  All-zip, All-map, nat_eq_iff, ◌≢◌, ℕ, zero, suc, ℤ, pos, negsuc, positive_or, String, ◌≡◌, refl,
  inl, inr, Bool, true, false, ◌||◌, Option, none, some, List, [], ◌∷◌, map, arith, eq_iff, ltb,
  leb, not, ◌&&◌, if◌then◌else◌, length, take, keep, All, All-imp, All-keep, All-perm,
  All-append_left, Bool-cases,
}
use conductor.Prelude.Equality.{◌==◌, nat_instance, string_instance}
use conductor.Prelude.Maps.{Map, lookup, insert, lookup-insert}
use conductor.State.Records.{RunRecord, RunClaim}
use conductor.State.Memory.{
  MemoryStore, Shuffle, Shuffles, values, oldest_first, is_claimable, mark_claimed, claim_of,
  candidates, claim_runs,
}
use conductor.State.Memory.Listing.{
  IsPage, Splits, Splits-take, Splits-all, IsPage-of_Splits, keep-perm, oldest_first-IsTotal,
}
use conductor.State.Memory.Keyed.{IsKeyed, insert-IsKeyed, values-found}

-- The limit that a call stands for: ten, where it is not positive.
abbrev pub claim_limit : ℤ → ℤ
claim_limit limit = pos (positive_or 10 limit)

cut-Splits :
    (n : ℕ) (cs : List RunRecord)
    → Splits (pos (suc n)) (if ltb (suc n) (length cs) then take (suc n) cs else cs) cs
cut-Splits n cs = elim (Bool-cases (ltb (suc n) (length cs))) [
  | inl long ↦ rw long (Splits-take n cs (ground arith))
  | inr short ↦ rw short (Splits-all n cs (ground arith))
]

positive-Splits :
    (limit : ℤ) (cs : List RunRecord)
    → Splits
        (claim_limit limit)
        (let n = positive_or 10 limit in if ltb n (length cs) then take n cs else cs)
        cs
positive-Splits (pos zero) cs = cut-Splits 9 cs
positive-Splits (pos (suc n)) cs = cut-Splits n cs
positive-Splits (negsuc n) cs = cut-Splits 9 cs

candidates-IsPage :
    (f : Shuffle) (limit : ℤ) (s : MemoryStore)
    → Shuffles f
    → IsPage oldest_first
        (keep is_claimable (values s.runs))
        (claim_limit limit)
        (candidates f limit s)
unfolding candidates
candidates-IsPage f limit s shuffles =
    IsPage-of_Splits oldest_first oldest_first-IsTotal (claim_limit limit)
      (keep-perm is_claimable (shuffles.runs (values s.runs))) (positive-Splits limit _)

-- The claims are those of a page of the runs that wait for a push, oldest first.
pub record ClaimsPage (limit : ℤ) (s : MemoryStore) (claims : List RunClaim) : Type 0 where
  pub page : List RunRecord
  pub claimed : claims ≡ map (λ r. record { run_id = r.run_id; tenant_id = r.tenant_id }) page
  pub oldest :
      IsPage
        (λ a b. leb a.created_at b.created_at)
        (keep
          (λ r. r.status == "has_changes" && (r.push_triggered && not (r.tenant_id == 0)))
          (map (λ e. e.1) s.runs))
        (pos (positive_or 10 limit))
        page

-- A call of `ClaimRuns` hands out, in order, the claims of the oldest of the runs that have changes, are
-- to be pushed and have a tenant, as many as there are up to the limit (10 where it is not positive).
pub claim_runs-IsPage :
    (f : Shuffle) (limit : ℤ) (s : MemoryStore)
    → Shuffles f
    → ClaimsPage limit s (claim_runs f limit s).0
unfolding claim_runs
claim_runs-IsPage f limit s shuffles = record {
  page = candidates f limit s;
  claimed = refl;
  oldest = candidates-IsPage f limit s shuffles;
}

-- Every candidate is claimable, and is the run that the store holds under its id.
pub candidates-claimable :
    (f : Shuffle) (limit : ℤ) (s : MemoryStore)
    → Shuffles f
    → IsKeyed s.runs
    → All (λ r. (lookup r.run_id s.runs ≡ some r) × (is_claimable r ≡ true)) (candidates f limit s)
candidates-claimable f limit s shuffles k =
    let page = candidates-IsPage f limit s shuffles in
    All-append_left _ (candidates f limit s) page.rest (
      All-perm _ (Permᴰ.symm page.complete) (
        All-keep (λ r. lookup r.run_id s.runs ≡ some r) is_claimable (values s.runs)
          (values-found s.runs k)))

-- A claim of the run is in the list.
abbrev pub is_claimed : String → List RunClaim → Bool
is_claimed id [] = false
is_claimed id (c ∷ cs) = c.run_id == id || is_claimed id cs

abbrev pub processing : Option RunRecord → Option RunRecord
processing none = none
processing (some r) = some (record r { status = "processing" })

lookup-mark_claimed :
    (before : Map String RunRecord) (id : String) (cs : List RunRecord) (m : Map String RunRecord)
    → All (λ r. lookup r.run_id before ≡ some r) cs
    → lookup id (mark_claimed cs m)
      ≡ (if is_claimed id (map claim_of cs) then processing (lookup id before) else lookup id m)
unfolding mark_claimed
lookup-mark_claimed before id [] m a = refl
lookup-mark_claimed before id (r ∷ rs) m a =
    let r' = record r { status = "processing" } in
    ground (
      arith,
      lookup-mark_claimed before id rs (insert r.run_id r' m) a.1,
      eq_iff r.run_id id,
      lookup-insert r.run_id id r' m,
    )

-- A call marks exactly the runs that it hands out: a claimed run has the status "processing" and is
-- otherwise as it was, and every other run is untouched.
pub lookup-claim_runs :
    (f : Shuffle) (limit : ℤ) (s : MemoryStore) (id : String)
    → Shuffles f
    → IsKeyed s.runs
    → lookup id (claim_runs f limit s).1.runs ≡ (
        if is_claimed id (claim_runs f limit s).0
        then processing (lookup id s.runs)
        else lookup id s.runs)
unfolding claim_runs
lookup-claim_runs f limit s id shuffles k =
    lookup-mark_claimed s.runs id (candidates f limit s) s.runs
      (All-imp (λ r h. h.0) (candidates f limit s) (candidates-claimable f limit s shuffles k))

claimable-of_is_claimed :
    (id : String) (m : Map String RunRecord) (cs : List RunRecord)
    → All (λ r. (lookup r.run_id m ≡ some r) × (is_claimable r ≡ true)) cs
    → is_claimed id (map claim_of cs) ≡ true
    → (r : RunRecord) × (lookup id m ≡ some r) × (is_claimable r ≡ true)
claimable-of_is_claimed id m [] a h = cc
claimable-of_is_claimed id m (r ∷ rs) a h = elim (Bool-cases (r.run_id == id)) [
  | inl same ↦ (r, ground (arith, eq_iff r.run_id id), a.0.1)
  | inr other ↦ claimable-of_is_claimed id m rs a.1 (ground arith)
]

-- A claimed run was claimable when it was claimed.
pub claim_runs-claimable :
    (f : Shuffle) (limit : ℤ) (s : MemoryStore) (id : String)
    → Shuffles f
    → IsKeyed s.runs
    → is_claimed id (claim_runs f limit s).0 ≡ true
    → (r : RunRecord) × (lookup id s.runs ≡ some r) × (is_claimable r ≡ true)
unfolding claim_runs
claim_runs-claimable f limit s id shuffles k h =
    claimable-of_is_claimed id s.runs (candidates f limit s)
      (candidates-claimable f limit s shuffles k) h

mark_claimed-IsKeyed :
    (cs : List RunRecord) (m : Map String RunRecord) → IsKeyed m → IsKeyed (mark_claimed cs m)
unfolding mark_claimed
mark_claimed-IsKeyed [] m k = k
mark_claimed-IsKeyed (r ∷ rs) m k =
    mark_claimed-IsKeyed rs _
      (insert-IsKeyed r.run_id (record r { status = "processing" }) m refl k)

pub claim_runs-IsKeyed :
    (f : Shuffle) (limit : ℤ) (s : MemoryStore)
    → IsKeyed s.runs
    → IsKeyed (claim_runs f limit s).1.runs
unfolding claim_runs
claim_runs-IsKeyed f limit s k = mark_claimed-IsKeyed (candidates f limit s) s.runs k

self_claimed : (cs : List RunRecord) → All (λ r. is_claimed r.run_id (map claim_of cs) ≡ true) cs
self_claimed [] = tt
self_claimed (r ∷ rs) =
    (ground (arith, eq_iff r.run_id r.run_id), All-imp (λ q h. ground arith) rs (self_claimed rs))

-- After the call every claim names a run of its tenant, marked as in work; the tenant is not zero.
pub record IsMarked (m : Map String RunRecord) (c : RunClaim) : Type 0 where
  pub run : RunRecord
  pub found : lookup c.run_id m ≡ some run
  pub own : run.tenant_id ≡ c.tenant_id
  pub owned : c.tenant_id ≢ 0

pub claim_runs-IsMarked :
    (f : Shuffle) (limit : ℤ) (s : MemoryStore)
    → Shuffles f
    → IsKeyed s.runs
    → All (IsMarked (claim_runs f limit s).1.runs) (claim_runs f limit s).0
unfolding claim_runs
claim_runs-IsMarked f limit s shuffles k =
    let cs = candidates f limit s in
    All-map _ claim_of cs (
      All-imp
        (λ r h. record {
          run = record r { status = "processing" };
          found = ground (arith, lookup-claim_runs f limit s r.run_id shuffles k);
          own = refl;
          owned = ground (arith, nat_eq_iff r.tenant_id 0);
        })
        cs (All-zip _ _ cs (candidates-claimable f limit s shuffles k) (self_claimed cs)))

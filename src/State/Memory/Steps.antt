-- ===== src/State/Memory/Steps.antt =====
-- The store under any sequence of calls, by API servers and workers in any interleaving.
use conductor.Prelude.{
  ℕ, ℤ, String, ◌≡◌, refl, true, false, Option, none, some, List, arith, eq_iff, nat_eq, Bool-cases,
  inl, inr,
}
use conductor.Prelude.Equality.{◌==◌, string_instance}
use conductor.Prelude.Maps.{lookup, lookup-insert}
use conductor.Ingest.Processor.{ProductProcessResult}
use conductor.State.Records.{RunRecord, IdempotencyRecord}
use conductor.State.Memory.{
  MemoryStore, Shuffle, Shuffles, upsert_product_hash, insert_run, insert_run_products,
  put_idempotency, claim_runs, set_status, complete_run, fail_run,
}
use conductor.State.Memory.Keyed.{IsKeyed, insert-IsKeyed, lookup-run_id}
use conductor.State.Memory.Claims.{
  is_claimed, lookup-claim_runs, claim_runs-claimable, claim_runs-IsKeyed,
}

-- One call that writes. A new run comes with an id that no run has yet: `NewRunID` draws 128 bits.
pub data Step (f : Shuffle) : MemoryStore → MemoryStore → Type 0 where
  upsert : (t : ℕ) (k v : String) (s : MemoryStore) → Step f s (upsert_product_hash t k v s)
  new_run :
      (run : RunRecord) (s : MemoryStore)
      → lookup run.run_id s.runs ≡ none
      → Step f s (insert_run run s)
  new_products :
      (id : String) (ps : List ProductProcessResult) (s : MemoryStore)
      → Step f s (insert_run_products id ps s)
  put :
      (t : ℕ) (ep k : String) (rec : IdempotencyRecord) (s : MemoryStore)
      → Step f s (put_idempotency t ep k rec s)
  claim : (limit : ℤ) (s : MemoryStore) → Step f s (claim_runs f limit s).1
  complete : (t : ℕ) (id : String) (s : MemoryStore) → Step f s (complete_run t id s)
  fail : (t : ℕ) (id message : String) (s : MemoryStore) → Step f s (fail_run t id message s)

pub data Reach (f : Shuffle) (s : MemoryStore) : MemoryStore → Type 0 where
  here : Reach f s s
  next : {t u : MemoryStore} → Reach f s t → Step f t u → Reach f s u

pub set_status-IsKeyed :
    (t : ℕ) (id status : String) (s : MemoryStore) (o : Option RunRecord)
    → lookup id s.runs ≡ o
    → IsKeyed s.runs
    → IsKeyed (set_status t id status o s).runs
set_status-IsKeyed t id status s none e k = k
set_status-IsKeyed t id status s (some r) e k = elim (Bool-cases (nat_eq r.tenant_id t)) [
  | inl own ↦
      rw own
        (insert-IsKeyed id (record r { status = status }) s.runs (lookup-run_id id s.runs k e) k)
  | inr other ↦ rw other k
]

Step-IsKeyed : (f : Shuffle) {s t : MemoryStore} → Step f s t → IsKeyed s.runs → IsKeyed t.runs
unfolding upsert_product_hash insert_run insert_run_products put_idempotency complete_run fail_run
Step-IsKeyed f (upsert t k v s) h = h
Step-IsKeyed f (new_run run s fresh) h = insert-IsKeyed run.run_id run s.runs refl h
Step-IsKeyed f (new_products id ps s) h = h
Step-IsKeyed f (put t ep k rec s) h = h
Step-IsKeyed f (claim limit s) h = claim_runs-IsKeyed f limit s h
Step-IsKeyed f (complete t id s) h = set_status-IsKeyed t id "completed" s (lookup id s.runs) refl h
Step-IsKeyed f (fail t id message s) h =
    set_status-IsKeyed t id "failed" s (lookup id s.runs) refl h

-- From a keyed store every reachable store is keyed.
pub Reach-IsKeyed :
    (f : Shuffle) {s t : MemoryStore} → IsKeyed s.runs → Reach f s t → IsKeyed t.runs
Reach-IsKeyed f h here = h
Reach-IsKeyed f h (next r st) = Step-IsKeyed f st (Reach-IsKeyed f h r)

-- The run is in the store and does not wait for a worker.
pub record IsTaken (id : String) (s : MemoryStore) : Type 0 where
  pub run : RunRecord
  pub found : lookup id s.runs ≡ some run
  pub taken : (run.status == "has_changes") ≡ false

set_status-IsTaken :
    (t : ℕ) (id jd status : String) (s : MemoryStore) (o : Option RunRecord)
    → (status == "has_changes") ≡ false
    → lookup jd s.runs ≡ o
    → IsTaken id s
    → IsTaken id (set_status t jd status o s)
set_status-IsTaken t id jd status s none st e k = k
set_status-IsTaken t id jd status s (some r) st e k = elim (Bool-cases (nat_eq r.tenant_id t)) [
  | inr other ↦ rw other k
  | inl own ↦ elim (Bool-cases (jd == id)) [
    | inl same ↦ rw own (record {
      run = record r { status = status };
      found = ground (arith, lookup-insert jd id (record r { status = status }) s.runs);
      taken = st;
    })
    | inr not_same ↦ rw own (record {
      run = k.run;
      found = ground (arith, k.found, lookup-insert jd id (record r { status = status }) s.runs);
      taken = k.taken;
    })
  ]
]

claim-IsTaken :
    (f : Shuffle) (limit : ℤ) (id : String) (s : MemoryStore)
    → Shuffles f
    → IsKeyed s.runs
    → IsTaken id s
    → IsTaken id (claim_runs f limit s).1
claim-IsTaken f limit id s shuffles keyed k =
    elim (Bool-cases (is_claimed id (claim_runs f limit s).0)) [
      | inl c ↦ record {
        run = record k.run { status = "processing" };
        found = ground (arith, k.found, lookup-claim_runs f limit s id shuffles keyed);
        taken = ground arith;
      }
      | inr c ↦ record {
        run = k.run;
        found = ground (arith, k.found, lookup-claim_runs f limit s id shuffles keyed);
        taken = k.taken;
      }
    ]

Step-IsTaken :
    (f : Shuffle) (id : String) {s t : MemoryStore}
    → Shuffles f
    → IsKeyed s.runs
    → Step f s t
    → IsTaken id s
    → IsTaken id t
unfolding upsert_product_hash insert_run insert_run_products put_idempotency complete_run fail_run
Step-IsTaken f id shuffles keyed (upsert t k v s) h = record {
  run = h.run;
  found = h.found;
  taken = h.taken;
}
Step-IsTaken f id shuffles keyed (new_run run s fresh) h = record {
  run = h.run;
  found = ground (arith, h.found, lookup-insert run.run_id id run s.runs, eq_iff run.run_id id);
  taken = h.taken;
}
Step-IsTaken f id shuffles keyed (new_products jd ps s) h = record {
  run = h.run;
  found = h.found;
  taken = h.taken;
}
Step-IsTaken f id shuffles keyed (put t ep k rec s) h = record {
  run = h.run;
  found = h.found;
  taken = h.taken;
}
Step-IsTaken f id shuffles keyed (claim limit s) h = claim-IsTaken f limit id s shuffles keyed h
Step-IsTaken f id shuffles keyed (complete t jd s) h =
    set_status-IsTaken t id jd "completed" s (lookup jd s.runs) (ground arith) refl h
Step-IsTaken f id shuffles keyed (fail t jd message s) h =
    set_status-IsTaken t id jd "failed" s (lookup jd s.runs) (ground arith) refl h

Reach-IsTaken :
    (f : Shuffle) (id : String) {s t : MemoryStore}
    → Shuffles f
    → IsKeyed s.runs
    → Reach f s t
    → IsTaken id s
    → IsTaken id t
Reach-IsTaken f id shuffles keyed here h = h
Reach-IsTaken f id shuffles keyed (next r st) h =
    Step-IsTaken f id shuffles (Reach-IsKeyed f keyed r) st (Reach-IsTaken f id shuffles keyed r h)

-- No run is claimed twice: once a call has handed out a run, no later call does, whatever other
-- calls come in between.
pub claim_once :
    (f : Shuffle) (limit later : ℤ) (id : String) (s t : MemoryStore)
    → Shuffles f
    → IsKeyed s.runs
    → is_claimed id (claim_runs f limit s).0 ≡ true
    → Reach f (claim_runs f limit s).1 t
    → is_claimed id (claim_runs f later t).0 ≡ false
claim_once f limit later id s t shuffles keyed claimed r =
    let (run, found, claimable) = claim_runs-claimable f limit s id shuffles keyed claimed in
    let after = claim_runs-IsKeyed f limit s keyed in
    let taken = Reach-IsTaken f id shuffles after r (record {
      run = record run { status = "processing" };
      found = ground (arith, lookup-claim_runs f limit s id shuffles keyed);
      taken = ground arith;
    }) in
    elim (Bool-cases (is_claimed id (claim_runs f later t).0)) [
      | inr ok ↦ ok
      | inl again ↦
          let (run', found', claimable') =
            claim_runs-claimable f later t id shuffles (Reach-IsKeyed f after r) again in
          ground (arith, taken.found, taken.taken)
    ]

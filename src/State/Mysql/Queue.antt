-- ===== src/State/Mysql/Queue.antt =====
-- The queue of runs in the database, and the loop that marks the claims.
use conductor.Prelude.{
  ap, ◌∙◌, ℕ, ◌≤◌, String, Bool, true, false, ◌≡◌, refl, ◌⊎◌, ◌&&◌, ◌||◌, Bool-cases, Result-cases,
  inl, inr, Option, none, some, List, [], ◌∷◌, map, ok, err, arith, eq_iff, nat_eq_iff,
  if◌then◌else◌, length, All, All-imp, sym,
}
use conductor.Prelude.Equality.{◌==◌, nat_instance, string_instance}
use conductor.State.Records.{RunRecord, RunClaim}
use conductor.State.Memory.Claims.{is_claimed, processing}
use conductor.State.Rows.{Codec}
use conductor.State.Mysql.{select_claims, update_claimed, mark_claims, marked}
use conductor.State.Mysql.Runs.{Converts}
use conductor.Sql.{num, text, Row, Database}

abbrev pub claim_row : RunClaim → Row
claim_row c = text c.run_id ∷ num c.tenant_id ∷ []

-- `UPDATE runs SET status = 'processing' WHERE … AND status = 'has_changes'`
abbrev pub taken_over : ℕ → Option RunRecord → Option RunRecord
taken_over t none = none
taken_over t (some r) =
    if r.tenant_id == t && r.status == "has_changes"
    then some (record r { status = "processing" })
    else some r

-- The claim's run is there, and waits for a worker.
pub record Waits (o : Option RunRecord) (c : RunClaim) : Type 0 where
  pub run : RunRecord
  pub found : o ≡ some run
  pub own : run.tenant_id ≡ c.tenant_id
  pub status : run.status ≡ "has_changes"
  pub pushed : run.push_triggered ≡ true

-- What the database does with the queue: the runs as other sessions see them and as the transaction
-- does, and the statements and the ends of the transaction. Where a commit reports an error, as when
-- the connection is lost in it, it has taken effect as a whole or not at all.
pub record KeepsQueue (c : Codec) {S T : Type 0} (db : Database S T) : Type 0 where
  pub converts : Converts db
  pub runs : S → String → Option RunRecord
  pub tx_runs : T → String → Option RunRecord
  pub begins : (s : S) (tx : T) (id : String) → db.begin_tx s ≡ ok tx → tx_runs tx id ≡ runs s id
  pub selects :
      (n : ℕ) (tx : T) (rows : List Row) (failure : Option String)
      → db.tx_query select_claims (num n ∷ []) tx ≡ ok (rows, failure)
      → (cs : List RunClaim) × (rows ≡ map claim_row cs)
        × All (λ cl. Waits (tx_runs tx cl.run_id) cl) cs
        × (length cs ≤ n)
  pub updates :
      (cl : RunClaim) (tx : T) (id : String)
      → (db.tx_exec update_claimed (text cl.run_id ∷ num cl.tenant_id ∷ []) tx).0 ≡ ok tt
      → tx_runs (db.tx_exec update_claimed (text cl.run_id ∷ num cl.tenant_id ∷ []) tx).1 id
        ≡ (if cl.run_id == id then taken_over cl.tenant_id (tx_runs tx id) else tx_runs tx id)
  pub commits :
      (tx : T) (s : S) (id : String)
      → (db.commit tx s).0 ≡ ok tt
      → runs (db.commit tx s).1 id ≡ tx_runs tx id
  pub fails :
      (tx : T) (s : S) (m : String)
      → (db.commit tx s).0 ≡ err m
      → ((id : String) → runs (db.commit tx s).1 id ≡ runs s id)
        ⊎ ((id : String) → runs (db.commit tx s).1 id ≡ tx_runs tx id)
  pub rolls_back : (tx : T) (s : S) (id : String) → runs (db.rollback tx s) id ≡ runs s id

module _ (c : Codec) {S T : Type 0} (db : Database S T) (k : KeepsQueue c db) where
  -- The claim's run is there, and waits or has been marked.
  pub record IsHeld (tx : T) (cl : RunClaim) : Type 0 where
    pub run : RunRecord
    pub found : k.tx_runs tx cl.run_id ≡ some run
    pub own : run.tenant_id ≡ cl.tenant_id
    pub status : (run.status ≡ "has_changes") ⊎ (run.status ≡ "processing")

  taken_over-processing :
      (t : ℕ) (r : RunRecord)
      → r.tenant_id ≡ t
      → (r.status ≡ "has_changes") ⊎ (r.status ≡ "processing")
      → taken_over t (some r) ≡ some (record r { status = "processing" })
  taken_over-processing t r own (inl waits) =
      ground (arith, nat_eq_iff r.tenant_id t, eq_iff r.status "has_changes")
  taken_over-processing t r own (inr marked) =
      ground (arith, nat_eq_iff r.tenant_id t, eq_iff r.status "has_changes")

  update-processing :
      (cl : RunClaim) (tx : T) (id : String)
      → IsHeld tx cl
      → (db.tx_exec update_claimed (text cl.run_id ∷ num cl.tenant_id ∷ []) tx).0 ≡ ok tt
      → k.tx_runs (db.tx_exec update_claimed (text cl.run_id ∷ num cl.tenant_id ∷ []) tx).1 id
        ≡ (if cl.run_id == id then processing (k.tx_runs tx id) else k.tx_runs tx id)
  update-processing cl tx id h done = ground (
    arith,
    k.updates cl tx id done,
    eq_iff cl.run_id id,
    h.found,
    taken_over-processing cl.tenant_id h.run h.own h.status,
  )

  update-IsHeld :
      (cl d : RunClaim) (tx : T)
      → IsHeld tx cl
      → (db.tx_exec update_claimed (text cl.run_id ∷ num cl.tenant_id ∷ []) tx).0 ≡ ok tt
      → IsHeld tx d
      → IsHeld (db.tx_exec update_claimed (text cl.run_id ∷ num cl.tenant_id ∷ []) tx).1 d
  update-IsHeld cl d tx h done g = elim (Bool-cases (cl.run_id == d.run_id)) [
    | inl same ↦ record {
      run = record g.run { status = "processing" };
      found = update-processing cl tx d.run_id h done ∙ rw (same, g.found) refl;
      own = g.own;
      status = inr refl;
    }
    | inr other ↦ record {
      run = g.run;
      found = update-processing cl tx d.run_id h done ∙ rw (other, g.found) refl;
      own = g.own;
      status = g.status;
    }
  ]

  processing_idem : (o : Option RunRecord) → processing (processing o) ≡ processing o
  processing_idem none = refl
  processing_idem (some r) = refl

  processing-or :
      (b d : Bool) (o o' : Option RunRecord)
      → o' ≡ (if b then processing o else o)
      → (if d then processing o' else o') ≡ (if b || d then processing o else o)
  processing-or true true o o' e = ap processing e ∙ processing_idem o
  processing-or true false o o' e = e
  processing-or false true o o' e = ap processing e
  processing-or false false o o' e = e

  mark_claims-step :
      (cl : RunClaim) (cs : List RunClaim) (tx : T)
      → (mark_claims c db (cl ∷ cs) tx).0 ≡ none
      → ((db.tx_exec update_claimed (text cl.run_id ∷ num cl.tenant_id ∷ []) tx).0 ≡ ok tt)
        × (mark_claims c db (cl ∷ cs) tx
            ≡ mark_claims c db cs
                (db.tx_exec update_claimed (text cl.run_id ∷ num cl.tenant_id ∷ []) tx).1)
  unfolding mark_claims
  mark_claims-step cl cs tx done =
      elim (Result-cases
        (db.tx_exec update_claimed (text cl.run_id ∷ num cl.tenant_id ∷ []) tx).0) [
          | inr (m, e) ↦ absurd (ground (arith, e, done))
          | inl (u, e) ↦ (e, rw (e, mark_claims) refl)
        ]

  -- The loop that succeeds marks exactly the claims.
  pub mark_claims-processing :
      (cs : List RunClaim) (tx : T) (id : String)
      → All (IsHeld tx) cs
      → (mark_claims c db cs tx).0 ≡ none
      → k.tx_runs (mark_claims c db cs tx).1 id
        ≡ (if is_claimed id cs then processing (k.tx_runs tx id) else k.tx_runs tx id)
  unfolding mark_claims
  mark_claims-processing [] tx id a done = refl
  mark_claims-processing (cl ∷ cs) tx id a done =
      let (e, step) = mark_claims-step cl cs tx done in
      let tx' = (db.tx_exec update_claimed (text cl.run_id ∷ num cl.tenant_id ∷ []) tx).1 in
      ap (λ (q : Option String × T). k.tx_runs q.1 id) step
      ∙ mark_claims-processing cs tx' id (All-imp (λ d g. update-IsHeld cl d tx a.0 e g) cs a.1)
          (ap (λ (q : Option String × T). q.0) (sym step) ∙ done)
      ∙ processing-or (cl.run_id == id) (is_claimed id cs) (k.tx_runs tx id) (k.tx_runs tx' id)
          (update-processing cl tx id a.0 e)

-- ===== src/State/Mysql/Claims.antt =====
-- The claims of a transaction: all of them, or none.
use conductor.Prelude.{
  ap, ◌∙◌, ℕ, ◌≤◌, ℤ, positive_or, String, ◌≡◌, refl, ◌⊎◌, inl, inr, Option, none, some, List, [],
  ◌∷◌, map, Result, ok, err, ◌>>=◌, if◌then◌else◌, length, All, All-imp, sym,
}
use conductor.Prelude.Equality.{nat_instance, string_instance}
use conductor.State.Records.{RunClaim}
use conductor.State.Memory.Claims.{is_claimed, processing}
use conductor.State.Rows.{Codec, scan_claim, scan_rows}
use conductor.State.Mysql.{
  select_claims, mark_claims, committed, marked, scanned, begun, scan_all, mysql_claim_runs,
}
use conductor.Sql.{num, Rows, Database}
use conductor.State.Mysql.Queue.{claim_row, Waits, KeepsQueue, IsHeld, mark_claims-processing}

module _ (c : Codec) {S T : Type 0} (db : Database S T) (k : KeepsQueue c db) where
  abbrev or_failure : Option String → List RunClaim → Result (List RunClaim)
  or_failure none cs = ok cs
  or_failure (some m) cs = err m

  -- The rows of the query are scanned to the claims.
  scan_rows-claims :
      (cs : List RunClaim) (failure : Option String)
      → scan_rows (scan_claim c db) (map claim_row cs) failure ≡ or_failure failure cs
  unfolding scan_rows
  scan_rows-claims [] none = refl
  scan_rows-claims [] (some m) = refl
  scan_rows-claims (cl ∷ cs) none =
      rw (k.converts.texts cl.run_id, k.converts.uints cl.tenant_id, scan_rows-claims cs none) refl
  scan_rows-claims (cl ∷ cs) (some m) =
      rw (k.converts.texts cl.run_id, k.converts.uints cl.tenant_id, scan_rows-claims cs (some m))
        refl

  -- The claims are of runs that waited, at most as many as the limit, each is in work now, and every
  -- other run is as it was.
  pub record AreTaken (n : ℕ) (s s' : S) (cs : List RunClaim) : Type 0 where
    pub waits : All (λ cl. Waits (k.runs s cl.run_id) cl) cs
    pub fits : length cs ≤ n
    pub work :
        (id : String)
        → k.runs s' id ≡ (if is_claimed id cs then processing (k.runs s id) else k.runs s id)

  -- The commit of a transaction reported an error, and yet its claims have been taken.
  pub record IsLost (n : ℕ) (s s' : S) : Type 0 where
    pub claims : List RunClaim
    pub taken : AreTaken n s s' claims
    pub transaction : T
    pub message : String
    pub failed : (db.commit transaction s).0 ≡ err message

  -- What a call leaves: an error and every run as it was, or claims that have been taken. An error of
  -- the commit may hide claims that have been taken.
  abbrev pub Leaves : ℕ → S → Result (List RunClaim) × S → Type 0
  Leaves n s (err m, s') = ((id : String) → k.runs s' id ≡ k.runs s id) ⊎ IsLost n s s'
  Leaves n s (ok cs, s') = AreTaken n s s' cs

  committed-Leaves :
      (n : ℕ) (cs : List RunClaim) (tx : T) (s : S) (q : Result (Unit {0}) × S)
      → db.commit tx s ≡ q
      → All (λ cl. Waits (k.runs s cl.run_id) cl) cs
      → length cs ≤ n
      → ((id : String)
          → k.tx_runs tx id ≡ (if is_claimed id cs then processing (k.runs s id) else k.runs s id))
      → Leaves n s (committed c db cs tx q)
  committed-Leaves n cs tx s (err m, s') e waits fits work =
      let failed = ap (λ (q : Result (Unit {0}) × S). q.0) e in
      let ended = λ (id : String).
        k.rolls_back tx s' id ∙ ap (λ (q : Result (Unit {0}) × S). k.runs q.1 id) (sym e) in
      elim (k.fails tx s m failed) [
        | inl undone ↦ inl (λ id. ended id ∙ undone id)
        | inr done ↦ inr (record {
          claims = cs;
          taken = record { waits = waits; fits = fits; work = λ id. ended id ∙ done id ∙ work id };
          transaction = tx;
          message = m;
          failed = failed;
        })
      ]
  committed-Leaves n cs tx s (ok u, s') e waits fits work = record {
    waits = waits;
    fits = fits;
    work = λ id.
        k.rolls_back tx s' id
        ∙ ap (λ (q : Result (Unit {0}) × S). k.runs q.1 id) (sym e)
        ∙ k.commits tx s id (ap (λ (q : Result (Unit {0}) × S). q.0) e)
        ∙ work id;
  }

  marked-Leaves :
      (n : ℕ) (cs : List RunClaim) (tx : T) (s : S) (q : Option String × T)
      → All (λ cl. Waits (k.runs s cl.run_id) cl) cs
      → length cs ≤ n
      → (q.0 ≡ none
          → (id : String)
          → k.tx_runs q.1 id ≡ (if is_claimed id cs then processing (k.runs s id) else k.runs s id))
      → Leaves n s (marked c db cs s q)
  marked-Leaves n cs tx s (some m, tx') waits fits work = inl (λ id. k.rolls_back tx' s id)
  marked-Leaves n cs tx s (none, tx') waits fits work =
      committed-Leaves n cs tx' s (db.commit tx' s) refl waits fits (work refl)

  Waits-IsHeld : (tx : T) (cl : RunClaim) → Waits (k.tx_runs tx cl.run_id) cl → IsHeld c db k tx cl
  Waits-IsHeld tx cl w = record { run = w.run; found = w.found; own = w.own; status = inl w.status }

  Waits-begun :
      (s : S) (tx : T)
      → db.begin_tx s ≡ ok tx
      → (cl : RunClaim) → Waits (k.tx_runs tx cl.run_id) cl
      → Waits (k.runs s cl.run_id) cl
  Waits-begun s tx e cl w = record {
    run = w.run;
    found = sym (k.begins s tx cl.run_id e) ∙ w.found;
    own = w.own;
    status = w.status;
    pushed = w.pushed;
  }

  queried-Leaves :
      (n : ℕ) (s : S) (tx : T) (m : Result Rows)
      → db.begin_tx s ≡ ok tx
      → db.tx_query select_claims (num n ∷ []) tx ≡ m
      → Leaves n s (scanned c db tx (m >>= scan_all (scan_claim c db)) s)
  queried-Leaves n s tx (err m) e q = inl (λ id. k.rolls_back tx s id)
  queried-Leaves n s tx (ok (rows, failure)) e q =
      let (cs, shown, waits, fits) = k.selects n tx rows failure q in
      rw (shown, scan_rows-claims cs failure) (ended cs waits fits failure)
    where
      ended :
          (cs : List RunClaim)
          → All (λ cl. Waits (k.tx_runs tx cl.run_id) cl) cs
          → length cs ≤ n
          → (failure : Option String) → Leaves n s (scanned c db tx (or_failure failure cs) s)
      ended cs waits fits (some m) = inl (λ id. k.rolls_back tx s id)
      ended cs waits fits none =
          marked-Leaves n cs tx s (mark_claims c db cs tx) (All-imp (Waits-begun s tx e) cs waits)
            fits
            λ done id.
              mark_claims-processing c db k cs tx id (All-imp (Waits-IsHeld tx) cs waits) done
              ∙ ap (λ o. if is_claimed id cs then processing o else o) (k.begins s tx id e)

  begun-Leaves : (n : ℕ) (s : S) (m : Result T) → db.begin_tx s ≡ m → Leaves n s (begun c db n m s)
  begun-Leaves n s (err m) e = inl (λ id. refl)
  begun-Leaves n s (ok tx) e =
      queried-Leaves n s tx (db.tx_query select_claims (num n ∷ []) tx) e refl

  -- A call of `ClaimRuns` claims all of its runs or none. Without an error the claims are runs that
  -- waited, at most as many as the limit (10 where none is given), each is in work now, and every
  -- other run is as it was. With an error every run is as it was, unless it is the commit that has
  -- failed: then the runs may also have been taken as a whole, with no claim for them handed out.
  pub mysql_claim_runs-Leaves :
      (limit : ℤ) (s : S) → Leaves (positive_or 10 limit) s (mysql_claim_runs c db limit s)
  unfolding mysql_claim_runs
  mysql_claim_runs-Leaves limit s = begun-Leaves (positive_or 10 limit) s (db.begin_tx s) refl

-- ===== src/Migrate/Journal.antt =====
-- What a migration does to the table of migrations and to the database, one file at a time.
use mathlib.Core.Path.{subst}
use mathlib.Core.List.{append-nil}
use conductor.Prelude.{
  ap, ap₂, ◌∙◌, String, Bool, true, false, ◌≡◌, refl, sym, inl, inr, List, [], ◌∷◌, ◌++◌, Result,
  ok, err, arith, eq_iff, All, if◌then◌else◌, map, Result-cases, none, some, Option, ◌>>=◌,
  bind-eq-ok,
}
use conductor.Prelude.Equality.{◌==◌, string_instance}
use conductor.Sql.{text, Row, Rows, Database, first_row, scan_one}
use conductor.Migrate.{
  Files, create_table, select_applied, insert_applied, is_applied, found_name, mark_applied,
  executed, with_text, unless_applied, apply_file, apply_files,
}

-- What the database keeps of migrations: whether the table is there, the names in it, and the scripts
-- that it has executed, in order. A script is a text that is none of the three statements, and leaves
-- the table alone. Any statement may fail; what a query says is relied on only where it answers.
pub record Journal {S T : Type 0} (files : Files) (db : Database S T) : Type 0 where
  pub has_table : S → Bool
  pub applied : String → S → Bool
  pub history : S → List String
  pub absent :
      (name : String) (s : S)
      → db.query select_applied (text name ∷ []) s ≡ ok ([], none)
      → applied name s ≡ false
  pub present :
      (name : String) (s : S) (row : Row) (rows : List Row) (failure : Option String)
      → db.query select_applied (text name ∷ []) s ≡ ok (row ∷ rows, failure)
      → applied name s ≡ true
  pub creates_table :
      (s : S)
      → (db.exec create_table [] s).0 ≡ ok tt
      → has_table (db.exec create_table [] s).1 ≡ true
  pub creates_applied :
      (name : String) (s : S) → applied name (db.exec create_table [] s).1 ≡ applied name s
  pub creates_history : (s : S) → history (db.exec create_table [] s).1 ≡ history s
  pub marks_table :
      (name : String) (s : S)
      → has_table s ≡ true
      → has_table (db.exec insert_applied (text name ∷ []) s).1 ≡ true
  pub marks_applied :
      (name asked : String) (s : S)
      → (db.exec insert_applied (text name ∷ []) s).0 ≡ ok tt
      → applied asked (db.exec insert_applied (text name ∷ []) s).1
        ≡ (if name == asked then true else applied asked s)
  pub marks_history :
      (name : String) (s : S) → history (db.exec insert_applied (text name ∷ []) s).1 ≡ history s
  pub runs_table :
      (path script : String) (s : S)
      → files.read_file path ≡ ok script
      → has_table s ≡ true
      → has_table (db.exec script [] s).1 ≡ true
  pub runs_applied :
      (path script name : String) (s : S)
      → files.read_file path ≡ ok script
      → applied name (db.exec script [] s).1 ≡ applied name s
  pub runs_history :
      (path script : String) (s : S)
      → files.read_file path ≡ ok script
      → (db.exec script [] s).0 ≡ ok tt
      → history (db.exec script [] s).1 ≡ history s ++ script ∷ []

module _ {S T : Type 0} (files : Files) (db : Database S T) (j : Journal files db) where
  abbrev pub script_or : Result String → List String
  script_or (err m) = []
  script_or (ok script) = script ∷ []

  -- The scripts of the migrations that are not in the table, in order.
  abbrev pub pending : List String → S → List String
  pending [] s = []
  pending (path ∷ paths) s =
      (if j.applied (files.base path) s then [] else script_or (files.read_file path))
      ++ pending paths s

  abbrev pub AreApplied : List String → S → Type 0
  AreApplied paths s = All (λ path. j.applied (files.base path) s ≡ true) paths

  -- What one migration does where it succeeds.
  pub record Applies (path : String) (s s' : S) : Type 0 where
    pub history :
        j.history s'
        ≡ j.history s
          ++ (if j.applied (files.base path) s then [] else script_or (files.read_file path))
    pub applied :
        (asked : String)
        → j.applied asked s' ≡ (if files.base path == asked then true else j.applied asked s)

  marked-Applies :
      (path script : String) (s : S)
      → files.read_file path ≡ ok script
      → j.applied (files.base path) s ≡ false
      → (db.exec script [] s).0 ≡ ok tt
      → (mark_applied files db (files.base path) (db.exec script [] s).1).0 ≡ ok tt
      → Applies path s (mark_applied files db (files.base path) (db.exec script [] s).1).1
  unfolding mark_applied
  marked-Applies path script s read new ran marked =
      let name = files.base path in
      let s₁ = (db.exec script [] s).1 in
      record {
        history = rw (new, read) (j.marks_history name s₁ ∙ j.runs_history path script s read ran);
        applied = λ asked.
            j.marks_applied name asked s₁ marked
            ∙ ap (λ b. if name == asked then true else b) (j.runs_applied path script asked s read);
      }

  executed-ok :
      (name : String) (q : Result (Unit {0}) × S)
      → (executed files db name q).0 ≡ ok tt
      → (q.0 ≡ ok tt) × (executed files db name q ≡ mark_applied files db name q.1)
  executed-ok name (ok u, s) e = (refl, refl)
  executed-ok name (err m, s) e = cc

  -- Where the look-up answers, the answer is right.
  queried-ok :
      (name : String) (s : S) (m : Result Rows) (b : Bool)
      → db.query select_applied (text name ∷ []) s ≡ m
      → (do row ← (do rows ← m; first_row rows); found_name files db row) ≡ ok b
      → j.applied name s ≡ b
  queried-ok name s (err m) b e answered = cc
  queried-ok name s (ok ([], some m)) b e answered = cc
  queried-ok name s (ok ([], none)) false e answered = j.absent name s e
  queried-ok name s (ok ([], none)) true e answered = cc
  queried-ok name s (ok (row ∷ rows, failure)) true e answered = j.present name s row rows failure e
  queried-ok name s (ok (row ∷ rows, failure)) false e answered =
      let (v, scanned, off) = bind-eq-ok (scan_one db row) (λ v. ok true) answered in cc

  is_applied-ok :
      (name : String) (s : S) (b : Bool) → is_applied files db name s ≡ ok b → j.applied name s ≡ b
  unfolding is_applied
  is_applied-ok name s b e = queried-ok name s (db.query select_applied (text name ∷ []) s) b refl e

  with_text-Applies :
      (path : String) (s : S) (m : Result String)
      → files.read_file path ≡ m
      → j.applied (files.base path) s ≡ false
      → (with_text files db (files.base path) m s).0 ≡ ok tt
      → Applies path s (with_text files db (files.base path) m s).1
  with_text-Applies path s (err m) read new done = cc
  with_text-Applies path s (ok script) read new done =
      let (ran, e) = executed-ok (files.base path) (db.exec script [] s) done in
      subst (λ q. Applies path s q.1) (sym e)
        (marked-Applies path script s read new ran (ap (λ q. q.0) (sym e) ∙ done))

  unless-Applies :
      (path : String) (s : S) (m : Result Bool)
      → is_applied files db (files.base path) s ≡ m
      → (unless_applied files db path (files.base path) m s).0 ≡ ok tt
      → Applies path s (unless_applied files db path (files.base path) m s).1
  unless-Applies path s (err m) e done = cc
  unless-Applies path s (ok false) e done =
      with_text-Applies path s (files.read_file path) refl
        (is_applied-ok (files.base path) s false e) done
  unless-Applies path s (ok true) e done =
      let old = is_applied-ok (files.base path) s true e in
      record {
        history = rw old (sym (append-nil (j.history s)));
        applied = λ asked. ground (arith, old, eq_iff (files.base path) asked);
      }

  pub apply_file-Applies :
      (path : String) (s : S)
      → (apply_file files db path s).0 ≡ ok tt
      → Applies path s (apply_file files db path s).1
  unfolding apply_file
  apply_file-Applies path s done =
      unless-Applies path s (is_applied files db (files.base path) s) refl done

  unless-again :
      (path : String) (s : S) (m : Result Bool)
      → is_applied files db (files.base path) s ≡ m
      → j.applied (files.base path) s ≡ true
      → (unless_applied files db path (files.base path) m s).1 ≡ s
  unless-again path s (err m) e old = refl
  unless-again path s (ok true) e old = refl
  unless-again path s (ok false) e old = cc (is_applied-ok (files.base path) s false e)

  -- A migration that is in the table changes nothing, also where the look-up fails.
  pub apply_file-again :
      (path : String) (s : S)
      → j.applied (files.base path) s ≡ true
      → (apply_file files db path s).1 ≡ s
  unfolding apply_file
  apply_file-again path s old =
      unless-again path s (is_applied files db (files.base path) s) refl old

  executed-table :
      (name : String) (q : Result (Unit {0}) × S)
      → j.has_table q.1 ≡ true
      → j.has_table (executed files db name q).1 ≡ true
  unfolding mark_applied
  executed-table name (err m, s) h = h
  executed-table name (ok u, s) h = j.marks_table name s h

  with_text-table :
      (path : String) (s : S) (m : Result String)
      → files.read_file path ≡ m
      → j.has_table s ≡ true
      → j.has_table (with_text files db (files.base path) m s).1 ≡ true
  with_text-table path s (err m) read h = h
  with_text-table path s (ok script) read h =
      executed-table (files.base path) (db.exec script [] s) (j.runs_table path script s read h)

  -- The table stays.
  pub apply_file-table :
      (path : String) (s : S)
      → j.has_table s ≡ true
      → j.has_table (apply_file files db path s).1 ≡ true
  unfolding apply_file
  apply_file-table path s h = go (is_applied files db (files.base path) s)
    where
      go :
          (m : Result Bool)
          → j.has_table (unless_applied files db path (files.base path) m s).1 ≡ true
      go (err m) = h
      go (ok true) = h
      go (ok false) = with_text-table path s (files.read_file path) refl h

  pub apply_files-ok :
      (path : String) (paths : List String) (s : S)
      → (apply_files files db (path ∷ paths) s).0 ≡ ok tt
      → ((apply_file files db path s).0 ≡ ok tt)
        × (apply_files files db (path ∷ paths) s
            ≡ apply_files files db paths (apply_file files db path s).1)
  unfolding apply_files
  apply_files-ok path paths s done = elim (Result-cases (apply_file files db path s).0) [
    | inl (u, e) ↦ (e, rw (e, apply_files) refl)
    | inr (m, e) ↦ ground (arith, e, done)
  ]

  -- A migration of another name leaves the others pending, or applied, as they were.
  pub pending-after :
      (path : String) (paths : List String) (s s' : S)
      → Applies path s s'
      → All (λ k. (k == files.base path) ≡ false) (map files.base paths)
      → pending paths s' ≡ pending paths s
  pending-after path [] s s' a d = refl
  pending-after path (p ∷ paths) s s' a d =
      ap₂ (λ (b : Bool) (l : List String). (if b then [] else script_or (files.read_file p)) ++ l)
        (ground (
          arith,
          a.applied (files.base p),
          d.0,
          eq_iff (files.base path) (files.base p),
          eq_iff (files.base p) (files.base path),
        ))
        (pending-after path paths s s' a d.1)

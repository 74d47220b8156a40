-- ===== src/Migrate/Once.antt =====
-- Each migration is executed once, and in order.
use mathlib.Core.Path.{subst}
use mathlib.Core.List.{append-nil, append_assoc}
use conductor.Prelude.{
  ap, ap₂, ◌∙◌, String, Bool, true, ◌≡◌, refl, sym, List, [], ◌∷◌, ◌++◌, Result, ok, err, arith,
  eq_iff, if◌then◌else◌, map,
}
use conductor.Prelude.Equality.{string_instance}
use conductor.Prelude.Sets.{AreDistinct}
use conductor.Sql.{Database}
use conductor.Migrate.{Files, apply_file, apply_files, ensure_schema_migrations, ensured, apply_dir}
use Prim.Native.Char.{Char}
use conductor.Prelude.{All-imp, Result-cases, inl, inr}
use conductor.Prelude.Order.{sort_strings}
use conductor.Migrate.{DirEntry, sql_files}
use conductor.Migrate.Journal.{
  Journal, script_or, pending, AreApplied, apply_file-again, apply_file-table, apply_file-Applies,
  apply_files-ok, pending-after,
}

module _ {S T : Type 0} (files : Files) (db : Database S T) (j : Journal files db) where
  -- What the loop does where it succeeds.
  record AppliesAll (paths : List String) (s s' : S) : Type 0 where
    history : j.history s' ≡ j.history s ++ pending files db j paths s
    applied : AreApplied files db j paths s'
    kept : (name : String) → j.applied name s ≡ true → j.applied name s' ≡ true

  apply_files-AppliesAll :
      (paths : List String) (s : S)
      → AreDistinct (map files.base paths)
      → (apply_files files db paths s).0 ≡ ok tt
      → AppliesAll paths s (apply_files files db paths s).1
  unfolding apply_files
  apply_files-AppliesAll [] s d done = record {
    history = sym (append-nil (j.history s));
    applied = tt;
    kept = λ name h. h;
  }
  apply_files-AppliesAll (path ∷ paths) s d done =
      let (first, e) = apply_files-ok files db j path paths s done in
      let s₁ = (apply_file files db path s).1 in
      let a = apply_file-Applies files db j path s first in
      let all = apply_files-AppliesAll paths s₁ d.1 (ap (λ q. q.0) (sym e) ∙ done) in
      subst (λ q. AppliesAll (path ∷ paths) s q.1) (sym e)
        (record {
          history =
              all.history
              ∙ ap₂ (λ (l k : List String). l ++ k) a.history
                  (pending-after files db j path paths s s₁ a d.0)
              ∙ append_assoc (j.history s)
                  (if j.applied (files.base path) s
                    then []
                    else script_or files db j (files.read_file path))
                  (pending files db j paths s);
          applied = (
            all.kept (files.base path) (
                ground
                  (arith, a.applied (files.base path), eq_iff (files.base path) (files.base path))),
            all.applied,
          );
          kept = λ name h. all.kept name (ground (arith, a.applied name, h));
        })

  -- A second run finds nothing to do.
  apply_files-again :
      (paths : List String) (s : S)
      → AreApplied files db j paths s
      → (apply_files files db paths s).1 ≡ s
  unfolding apply_files
  apply_files-again [] s a = refl
  apply_files-again (path ∷ paths) s a =
      let kept = apply_file-again files db j path s a.0 in
      elim (Result-cases (apply_file files db path s).0) [
        | inr (m, e) ↦ rw (e, apply_files) kept
        | inl (u, e) ↦
            rw (e, apply_files)
              (ap (λ s'. (apply_files files db paths s').1) kept ∙ apply_files-again paths s a.1)
      ]

  apply_files-table :
      (paths : List String) (s : S)
      → j.has_table s ≡ true
      → j.has_table (apply_files files db paths s).1 ≡ true
  unfolding apply_files
  apply_files-table [] s h = h
  apply_files-table (path ∷ paths) s h =
      let first = apply_file-table files db j path s h in
      elim (Result-cases (apply_file files db path s).0) [
        | inr (m, e) ↦ rw (e, apply_files) first
        | inl (u, e) ↦
            rw (e, apply_files) (apply_files-table paths (apply_file files db path s).1 first)
      ]

  pending-ext :
      (paths : List String) (s s' : S)
      → ((name : String) → j.applied name s' ≡ j.applied name s)
      → pending files db j paths s' ≡ pending files db j paths s
  pending-ext [] s s' e = refl
  pending-ext (path ∷ paths) s s' e =
      ap₂
        (λ (b : Bool) (l : List String).
          (if b then [] else script_or files db j (files.read_file path)) ++ l)
        (e (files.base path)) (pending-ext paths s s' e)

  AreApplied-ext :
      (paths : List String) (s s' : S)
      → ((name : String) → j.applied name s' ≡ j.applied name s)
      → AreApplied files db j paths s
      → AreApplied files db j paths s'
  AreApplied-ext paths s s' e a = All-imp (λ path h. e (files.base path) ∙ h) paths a

  abbrev ensure : S → Result (Unit {0}) × S
  ensure s = ensure_schema_migrations files db s

  abbrev done_once : List String → S → Result (Unit {0}) × S
  done_once paths s = ensured files db paths (ensure s)

  ensured-AppliesAll :
      (paths : List String) (s : S) (q : Result (Unit {0}) × S)
      → AreDistinct (map files.base paths)
      → q.1 ≡ (ensure s).1
      → (ensured files db paths q).0 ≡ ok tt
      → (j.history (ensured files db paths q).1 ≡ j.history s ++ pending files db j paths s)
        × AreApplied files db j paths (ensured files db paths q).1
  unfolding ensure_schema_migrations
  ensured-AppliesAll paths s (err m, s₁) d e done = cc
  ensured-AppliesAll paths s (ok u, s₁) d e done =
      let all = apply_files-AppliesAll paths s₁ d done in
      (
        all.history
            ∙ ap₂ (λ (l k : List String). l ++ k) (ap j.history e ∙ j.creates_history s)
                (pending-ext paths s s₁ (λ name. ap (j.applied name) e ∙ j.creates_applied name s)),
        all.applied,
      )

  ensured-again :
      (paths : List String) (s : S) (q : Result (Unit {0}) × S)
      → AreApplied files db j paths s
      → q.1 ≡ (ensure s).1
      → j.history (ensured files db paths q).1 ≡ j.history s
  unfolding ensure_schema_migrations
  ensured-again paths s (err m, s₁) a e = ap j.history e ∙ j.creates_history s
  ensured-again paths s (ok u, s₁) a e =
      ap j.history (
        apply_files-again paths s₁
          (AreApplied-ext paths s s₁ (λ name. ap (j.applied name) e ∙ j.creates_applied name s) a))
      ∙ ap j.history e
      ∙ j.creates_history s

  ensured-table :
      (paths : List String) (s : S) (q : Result (Unit {0}) × S)
      → ensure s ≡ q
      → (ensured files db paths q).0 ≡ ok tt
      → j.has_table (ensured files db paths q).1 ≡ true
  unfolding ensure_schema_migrations
  ensured-table paths s (err m, s₁) e done = cc
  ensured-table paths s (ok u, s₁) e done = apply_files-table paths s₁ (
      subst (λ (q : Result (Unit {0}) × S). j.has_table q.1 ≡ true) e
        (j.creates_table s (ap (λ (q : Result (Unit {0}) × S). q.0) e)))

-- A run of the migrations that succeeds has created their table, and executed exactly the scripts of the
-- files that were not in it, once each and in the order of their paths, and every file is in the
-- table after it; a second run executes none, whether it succeeds or not. The files have distinct names.
pub apply_dir_once :
    {S T : Type 0} (files : Files) (db : Database S T) (j : Journal files db) (fold : Char → Char)
    (dir : String) (entries : List DirEntry) (s : S)
    → files.read_dir dir ≡ ok entries
    → AreDistinct (map files.base (sort_strings (sql_files files fold dir entries)))
    → (apply_dir files db fold dir s).0 ≡ ok tt
    → (j.history (apply_dir files db fold dir s).1
        ≡ j.history s ++ pending files db j (sort_strings (sql_files files fold dir entries)) s)
      × AreApplied files db j
          (sort_strings (sql_files files fold dir entries))
          (apply_dir files db fold dir s).1
      × (j.has_table (apply_dir files db fold dir s).1 ≡ true)
      × (j.history (apply_dir files db fold dir (apply_dir files db fold dir s).1).1
          ≡ j.history (apply_dir files db fold dir s).1)
unfolding apply_dir
apply_dir_once {S} files db j fold dir entries s read distinct =
    let paths = sort_strings (sql_files files fold dir entries) in
    rw read (λ done.
      let (history, applied) =
        ensured-AppliesAll files db j paths s (ensure files db j s) distinct refl done in
      let s' = (done_once files db j paths s).1 in
      (
        history,
        applied,
        ensured-table files db j paths s (ensure files db j s) refl done,
        ensured-again files db j paths s' (ensure files db j s') applied refl,
      ))

-- ===== src/State/Mysql/Runs.antt =====
-- A run that is written to the database and read back.
use conductor.Prelude.{
  ℕ, String, Bool, true, false, ◌≡◌, refl, Bool-cases, Result-cases, inl, inr, Option, none, some,
  [], ◌∷◌, ok, arith, if◌then◌else◌,
}
use conductor.Prelude.Equality.{◌==◌, nat_instance, string_instance}
use conductor.State.Records.{RunRecord}
use conductor.State.Rows.{Codec, uint_value, scan_run, warnings_of}
use conductor.State.Mysql.{select_run, insert_into_runs, mysql_insert_run, mysql_get_run}
use conductor.Sql.{SqlValue, num, text, flag, moment, Row, Database, nullable_uint}

-- The conversions of `Scan` on the values that the driver gives for the columns.
pub record Converts {S T : Type 0} (db : Database S T) : Type 0 where
  pub texts : (v : String) → db.to_text (text v) ≡ ok v
  pub uints : (n : ℕ) → db.to_uint (num n) ≡ ok n
  pub times : (t : ℕ) → db.to_time (moment t) ≡ ok t

abbrev pub tiny_int : Bool → ℕ
tiny_int true = 1
tiny_int false = 0

module _ (stored_json : String → String) (stored_time : ℕ → ℕ) where
  -- How a value comes back from its column: a TINYINT for a flag, and a TIMESTAMP of its precision.
  abbrev pub column : SqlValue → SqlValue
  column (flag b) = num (tiny_int b)
  column (moment t) = moment (stored_time t)
  column v = v

  -- What the two statements do with any row of the table of runs, whose JSON column has the database's
  -- own form and whose primary key is the run id, and that the run's warnings survive the way there
  -- and back.
  pub record KeepsRunRow (c : Codec) {S T : Type 0} (db : Database S T) (run : RunRecord)
      : Type 0 where
    pub converts : Converts db
    pub selects :
        (id : String) (u : ℕ) (feed status push v₁ v₂ v₃ v₄ v₅ : SqlValue) (json : String)
        (created : SqlValue) (t : ℕ) (s s' : S)
        → db.exec insert_into_runs
            (text id
              ∷ num u
              ∷ feed
              ∷ status
              ∷ push
              ∷ v₁
              ∷ v₂
              ∷ v₃
              ∷ v₄
              ∷ v₅
              ∷ text json
              ∷ created
              ∷ [])
            s
          ≡ (ok tt, s')
        → db.query select_run (num t ∷ text id ∷ []) s'
          ≡ ok (
            if u == t
                then (text id
                    ∷ num u
                    ∷ column feed
                    ∷ column status
                    ∷ column push
                    ∷ column v₁
                    ∷ column v₂
                    ∷ column v₃
                    ∷ column v₄
                    ∷ column v₅
                    ∷ text (stored_json json)
                    ∷ column created
                    ∷ [])
                  ∷ []
                else [],
            none,
          )
    pub decodes :
        (warnings_json : String)
        → c.marshal_warnings run.warnings ≡ ok warnings_json
        → warnings_of c db (stored_json warnings_json) ≡ run.warnings

  module _ (c : Codec) {S T : Type 0} (db : Database S T) (run : RunRecord)
      (k : KeepsRunRow c db run) where
    nullable_uint-value : (o : Option ℕ) → nullable_uint db (uint_value o) ≡ ok o
    nullable_uint-value none = refl
    nullable_uint-value (some n) = rw (k.converts.uints n) refl

    flag-number : (b : Bool) → (tiny_int b == 1) ≡ b
    flag-number true = refl
    flag-number false = refl

    column-uint_value : (o : Option ℕ) → column (uint_value o) ≡ uint_value o
    column-uint_value none = refl
    column-uint_value (some n) = refl

    -- The row that holds the run.
    abbrev run_columns : String → Row
    run_columns warnings_json =
        text run.run_id
        ∷ num run.tenant_id
        ∷ uint_value run.feed_id
        ∷ text run.status
        ∷ num (tiny_int run.push_triggered)
        ∷ num run.received
        ∷ num run.valid
        ∷ num run.rejected
        ∷ num run.unchanged
        ∷ num run.enqueued
        ∷ text (stored_json warnings_json)
        ∷ moment (stored_time run.created_at)
        ∷ []

    scan_run-columns :
        (warnings_json : String)
        → c.marshal_warnings run.warnings ≡ ok warnings_json
        → scan_run c db (run_columns warnings_json)
          ≡ ok (record run { created_at = stored_time run.created_at })
    unfolding scan_run
    scan_run-columns w e =
        rw
          (
            k.converts.texts run.run_id,
            k.converts.uints run.tenant_id,
            nullable_uint-value run.feed_id,
            k.converts.texts run.status,
            k.converts.uints (tiny_int run.push_triggered),
            k.converts.uints run.received,
            k.converts.uints run.valid,
            k.converts.uints run.rejected,
            k.converts.uints run.unchanged,
            k.converts.uints run.enqueued,
            k.converts.texts (stored_json w),
            k.converts.times (stored_time run.created_at),
            flag-number run.push_triggered,
            k.decodes w e,
          )
          refl

    -- A run whose insertion succeeds is read back by its own tenant, as it was but for the precision of
    -- its time of creation, and another tenant does not see it.
    pub mysql_get_run-insert :
        (t : ℕ) (s s' : S)
        → mysql_insert_run c db run s ≡ (ok tt, s')
        → mysql_get_run c db t run.run_id s'
          ≡ ok (
              if run.tenant_id == t
              then some (record run { created_at = stored_time run.created_at })
              else none)
    unfolding mysql_get_run mysql_insert_run
    mysql_get_run-insert t s s' inserted = elim (Result-cases (c.marshal_warnings run.warnings)) [
      | inr (m, e) ↦ absurd (ground (arith, e, inserted))
      | inl (w, e) ↦
          let rows =
            k.selects run.run_id run.tenant_id (uint_value run.feed_id) (text run.status)
              (flag run.push_triggered) (num run.received) (num run.valid) (num run.rejected)
              (num run.unchanged) (num run.enqueued) w (moment run.created_at) t s s'
              (rw (← inserted, e) refl) in
          elim (Bool-cases (run.tenant_id == t)) [
            | inl own ↦ rw (rows, own, column-uint_value run.feed_id, scan_run-columns w e) refl
            | inr other ↦ rw (rows, other) refl
          ]
    ]

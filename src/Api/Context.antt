-- ===== src/Api/Context.antt =====
-- internal/api/tenantctx/tenantctx.go and internal/worker/ctx.go: the two values that the program
-- keeps on a `context.Context`.
use conductor.Prelude.{ℕ, String, Option, none, some, if◌then◌else◌, ltb}
use conductor.Prelude.Equality.{◌==◌, string_instance}

pub record Context : Type 0 where
  pub tenant_value : Option ℕ
  pub run_value : Option String

abbrev pub background : Context
background = record { tenant_value = none; run_value = none }

abbrev pub default_tenant_id : ℕ
default_tenant_id = 1

unfoldable pub with_tenant_id : Context → ℕ → Context
with_tenant_id ctx tenant_id = record ctx { tenant_value = some tenant_id }

abbrev pub or_default : Option ℕ → ℕ
or_default none = default_tenant_id
or_default (some id) = if ltb 0 id then id else default_tenant_id

unfoldable pub tenant_id : Context → ℕ
tenant_id ctx = or_default ctx.tenant_value

unfoldable pub with_run_id : Context → String → Context
with_run_id ctx run_id = if run_id == "" then ctx else record ctx { run_value = some run_id }

abbrev or_no_run : Option String → String
or_no_run none = ""
or_no_run (some id) = id

unfoldable pub run_id : Context → String
run_id ctx = or_no_run ctx.run_value

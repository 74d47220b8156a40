-- ===== src/Ingest/Validate/Decimal.antt =====
-- What `looksLikeDecimal` accepts.
use Prim.Native.Char.{Char, code}
use conductor.Prelude.{ℕ, ◌+◌, ◌≤◌, ◌<◌, String, ◌≡◌, ◌↔◌, ◌⊎◌, true, arith}
use conductor.Ingest.Validate.{decimal_loop, looks_like_decimal}

abbrev pub IsDigit : Char → Type 0
IsDigit c = (b'0' ≤ code c) × (code c ≤ b'9')

-- Digits only.
abbrev pub IsPlain : String → Type 0
IsPlain String.[] = Unit
IsPlain (String.◌∷◌ c v) = IsDigit c × IsPlain v

-- Digits with one dot among them.
abbrev pub IsDotted : String → Type 0
IsDotted String.[] = ⊥
IsDotted (String.◌∷◌ c v) = ((code c ≡ b'.') × IsPlain v) ⊎ (IsDigit c × IsDotted v)

abbrev pub HasDigit : String → Type 0
HasDigit String.[] = ⊥
HasDigit (String.◌∷◌ c v) = IsDigit c ⊎ HasDigit v

IsPlain-loop :
    (v : String) (n : ℕ) → (decimal_loop v 1 n ≡ true) ↔ (IsPlain v × ((0 < n) ⊎ HasDigit v))
unfolding decimal_loop
IsPlain-loop String.[] n = ground arith
IsPlain-loop (String.◌∷◌ c v) n = ground (arith, IsPlain-loop v (n + 1))

IsDotted-loop :
    (v : String) (n : ℕ)
    → (decimal_loop v 0 n ≡ true) ↔ ((IsPlain v ⊎ IsDotted v) × ((0 < n) ⊎ HasDigit v))
unfolding decimal_loop
IsDotted-loop String.[] n = ground arith
IsDotted-loop (String.◌∷◌ c v) n = ground (arith, IsPlain-loop v n, IsDotted-loop v (n + 1))

-- A text is accepted exactly when it is digits with at most one dot among them, and at least one
-- digit.
pub looks_like_decimal_iff :
    (v : String) → (looks_like_decimal v ≡ true) ↔ ((IsPlain v ⊎ IsDotted v) × HasDigit v)
unfolding looks_like_decimal
looks_like_decimal_iff v = ground (arith, IsDotted-loop v 0)

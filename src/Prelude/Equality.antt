-- ===== src/Prelude/Equality.antt =====
-- Boolean equality as an interface: a test that decides the path type.
use Prim.Native.Nat.{ℕ}
use Prim.Native.String.{String}
use mathlib.Core.Path.{◌≡◌}
use mathlib.Core.Logic.{◌↔◌}
use mathlib.Core.Bool.{Bool, true}
use text.Mathlib.Text.{◌==◌ as str_eq}
use text.Mathlib.TextEquality.{eq_iff}
use conductor.Prelude.Tests.{nat_eq, nat_eq_iff}

pub record Eq {ℓ} (K : Type ℓ) : Type ℓ where
  pub same : K → K → Bool
  pub same_iff : (x y : K) → (same x y ≡ true) ↔ (x ≡ y)

instance abbrev pub string_instance : Eq String
string_instance = record { same = str_eq; same_iff = eq_iff }

instance abbrev pub nat_instance : Eq ℕ
nat_instance = record { same = nat_eq; same_iff = nat_eq_iff }

-- `==` on the type of the instance.
infix 50 ◌==◌
abbrev pub ◌==◌ {ℓ} : {K : Type ℓ} ⦃keys : Eq K⦄ → K → K → Bool
◌==◌ ⦃keys⦄ x y = keys.same x y

-- ===== src/Prelude/Signed.antt =====
-- `int` and `int32_t` indices: -1 stands for "none" in the source.
use Prim.Native.Nat.{ℕ}
use mathlib.Core.Path.{◌≡◌, refl, ap, subst}
use mathlib.Core.Logic.{◌↔◌}
use native.Mathlib.Omega.{arith}
use mathlib.Core.Bool.{Bool, true, false}
use edge_aware_tasks_rtos.Prelude.Tests.{◌==◌, ==_iff}

-- `negsuc n` is -(n + 1).
pub data ℤ : Type 0 where
  pos : ℕ → ℤ
  negsuc : ℕ → ℤ

abbrev pub minus_one : ℤ
minus_one = negsuc 0

abbrev pub int_eq : ℤ → ℤ → Bool
int_eq (pos a) (pos b) = a == b
int_eq (negsuc a) (negsuc b) = a == b
int_eq _ _ = false

abbrev pub is_negative : ℤ → Bool
is_negative (pos _) = false
is_negative (negsuc _) = true

int_eq_refl : (a : ℤ) → int_eq a a ≡ true
int_eq_refl (pos a) = (==_iff a a).1 refl
int_eq_refl (negsuc a) = (==_iff a a).1 refl

int_eq_sound : (a b : ℤ) → int_eq a b ≡ true → a ≡ b
int_eq_sound (pos a) (pos b) h = ap pos ((==_iff a b).0 h)
int_eq_sound (negsuc a) (negsuc b) h = ap negsuc ((==_iff a b).0 h)
int_eq_sound (pos a) (negsuc b) h = absurd (ground (arith, h))
int_eq_sound (negsuc a) (pos b) h = absurd (ground (arith, h))

pub int_eq_iff : (a b : ℤ) → (int_eq a b ≡ true) ↔ (a ≡ b)
int_eq_iff a b = (int_eq_sound a b, λ e. subst (λ c. int_eq a c ≡ true) e (int_eq_refl a))

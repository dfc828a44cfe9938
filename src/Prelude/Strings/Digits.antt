-- ===== src/Prelude/Strings/Digits.antt =====
-- `print_int` against reading a decimal number back.
use Prim.Native.Nat.{ℕ, zero, suc, ◌+◌, ◌-◌, ◌*◌, ◌/◌, ◌%◌, ◌<◌}
use mathlib.Core.Path.{◌≡◌, refl}
use mathlib.Core.List.{[], ◌∷◌, ◌++◌}
use mathlib.Core.Logic.{inl, inr}
use native.Mathlib.Omega.{arith}
use edge_aware_tasks_rtos.Prelude.Tests.{ltb, Bool-cases}
use edge_aware_tasks_rtos.Prelude.Strings.{Text, print_digits, print_int}

-- The number that a text of digits stands for, after `acc`.
pub read_digits : ℕ → Text → ℕ
read_digits acc [] = acc
read_digits acc (c ∷ s) = read_digits (10 * acc + (c - 48)) s

read_digits-append :
    (acc : ℕ) (s : Text) (c : ℕ) → read_digits acc (s ++ c ∷ []) ≡ 10 * read_digits acc s + (c - 48)
unfolding read_digits
read_digits-append acc [] c = refl
read_digits-append acc (d ∷ s) c = read_digits-append (10 * acc + (d - 48)) s c

-- More fuel than the number is enough.
read_digits-print_digits : (fuel n : ℕ) → n < fuel → read_digits 0 (print_digits fuel n) ≡ n
unfolding print_digits read_digits
read_digits-print_digits zero n l = elim l [ ]
read_digits-print_digits (suc fuel) n l = elim (Bool-cases (ltb n 10)) [
  | inl small ↦ rw small (ground (arith, small))
  | inr big ↦ rw big (
      ground (
        arith,
        big,
        read_digits-append 0 (print_digits fuel (n / 10)) (48 + n % 10),
        read_digits-print_digits fuel (n / 10) (ground (arith, l, big)),
      ))
]

pub read_digits-print_int : (n : ℕ) → read_digits 0 (print_int n) ≡ n
unfolding print_int
read_digits-print_int n = read_digits-print_digits (n + 1) n (omega arith)

-- ===== src/Prelude/Strings.antt =====
-- C strings as lists of their bytes before the terminating NUL, and what the source uses of
-- string.h and stdio.h.
pub mod Digits
use Prim.Native.Nat.{ℕ, zero, suc, ◌+◌, ◌/◌, ◌%◌}
use Prim.Native.Char.{code}
use Prim.Native.String.{String}
use mathlib.Core.List.{List, [], ◌∷◌, ◌++◌}
use mathlib.Core.Bool.{Bool, true, false, ◌&&◌, ◌||◌}
use mathlib.Core.Option.{Option, none, some}
use edge_aware_tasks_rtos.Prelude.Tests.{◌==◌, ltb, if◌then◌else◌}
use edge_aware_tasks_rtos.Prelude.Arrays.{take}

abbrev pub Text : Type 0
Text = List ℕ

-- A `const char *` argument, which may be NULL.
abbrev pub TextPtr : Type 0
TextPtr = Option Text

abbrev pub codes : String → Text
codes String.[] = []
codes (String.◌∷◌ c s) = code c ∷ codes s

-- `s != NULL && s[0] != '\0'`
abbrev pub is_label : TextPtr → Bool
is_label none = false
is_label (some []) = false
is_label (some (_ ∷ _)) = true

abbrev pub text_eq : Text → Text → Bool
text_eq [] [] = true
text_eq (a ∷ xs) (b ∷ ys) = (a == b) && text_eq xs ys
text_eq _ _ = false

-- `strncmp(a, b, n) == 0` compares up to `n` bytes.
abbrev pub strncmp_eq : ℕ → Text → Text → Bool
strncmp_eq n a b = text_eq (take n a) (take n b)

-- The pattern stands at the front of the text.
abbrev pub is_prefix : Text → Text → Bool
is_prefix [] s = true
is_prefix (_ ∷ _) [] = false
is_prefix (a ∷ p) (b ∷ s) = (a == b) && is_prefix p s

-- `strstr(s, p) != NULL`
unfoldable pub strstr : Text → Text → Bool
strstr [] p = is_prefix p []
strstr (c ∷ s) p = is_prefix p (c ∷ s) || strstr s p

-- `%i` of a number that is not negative; a number has fewer digits than it has units, plus one.
print_digits : ℕ → ℕ → Text
print_digits zero n = []
print_digits (suc fuel) n =
    let front = print_digits fuel (n / 10) in (if ltb n 10 then [] else front) ++ (48 + n % 10) ∷ []

unfoldable pub print_int : ℕ → Text
unfolding print_digits
print_int n = print_digits (n + 1) n

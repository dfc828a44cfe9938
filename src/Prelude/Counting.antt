-- ===== src/Prelude/Counting.antt =====
-- How a count over a range of indices changes with the predicate.
use Prim.Native.Nat.{ℕ, zero, suc, ◌+◌, ◌≤◌, ◌<◌}
use mathlib.Core.Path.{◌≡◌, refl, ap}
use mathlib.Core.Logic.{◌≢◌, inl, inr}
use mathlib.Core.Bool.{Bool, true, false}
use native.Mathlib.Omega.{arith}
use edge_aware_tasks_rtos.Prelude.Tests.{◌==◌, ==_iff, if◌then◌else◌, Bool-cases}
use edge_aware_tasks_rtos.Prelude.Arrays.{count_index}

module _ (p q : ℕ → Bool) where
  pub count_index_same :
      (r i : ℕ) → ((m : ℕ) → i ≤ m → p m ≡ q m) → count_index p r i ≡ count_index q r i
  unfolding count_index
  count_index_same zero i h = refl
  count_index_same (suc r) i h =
      rw (h i (omega arith)) (
        ap (λ n. (if q i then 1 else 0) + n)
          (count_index_same r (i + 1) (λ m l. h m (omega arith))))

  -- One index more is counted.
  pub count_index_more :
      (r i j : ℕ)
      → ((m : ℕ) → m ≢ j → p m ≡ q m)
      → p j ≡ false
      → q j ≡ true
      → i ≤ j
      → j < i + r
      → count_index q r i ≡ suc (count_index p r i)
  unfolding count_index
  count_index_more zero i j h pj qj a b = absurd (omega arith)
  count_index_more (suc r) i j h pj qj a b = elim (Bool-cases (i == j)) [
    | inl e ↦
        let i≡j = (==_iff i j).0 e in
        let same = count_index_same r (i + 1) (λ m l. h m (λ z. omega (arith, i≡j))) in
        ground (arith, same, i≡j)
    | inr n ↦ ground (
      arith,
      h i (λ z. ground arith),
      count_index_more r (i + 1) j h pj qj (ground arith) (ground arith),
    )
  ]

pub count_index_le : (p : ℕ → Bool) (r i : ℕ) → count_index p r i ≤ r
unfolding count_index
count_index_le p zero i = omega arith
count_index_le p (suc r) i = ground (arith, count_index_le p r (i + 1))

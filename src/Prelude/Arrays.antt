-- ===== src/Prelude/Arrays.antt =====
-- A C array is the function from its index to the entry; each access is guarded by the source's
-- own bound. Lists stand for sequences that grow.
use Prim.Native.Nat.{ℕ, zero, suc, ◌+◌, ◌≤◌, ◌<◌}
use mathlib.Core.Path.{◌≡◌}
use mathlib.Core.List.{List, [], ◌∷◌, ◌++◌}
use mathlib.Core.Bool.{Bool, true, false, ◌||◌}
use mathlib.Core.Logic.{inl, inr}
use mathlib.Core.Option.{Option, none, some}
use native.Mathlib.Omega.{arith}
use edge_aware_tasks_rtos.Prelude.Tests.{◌==◌, ==_iff, if◌then◌else◌, Bool-cases}

abbrev pub Array {ℓ} : Type ℓ → Type ℓ
Array A = ℕ → A

module _ {ℓ} {A : Type ℓ} where
  abbrev pub update : Array A → ℕ → A → Array A
  update f i v j = if i == j then v else f j

  abbrev pub length : List A → ℕ
  length [] = 0
  length (_ ∷ xs) = suc (length xs)

  abbrev pub take : ℕ → List A → List A
  take zero xs = []
  take (suc n) [] = []
  take (suc n) (x ∷ xs) = x ∷ take n xs

  -- The element at an index, or a default past the end.
  abbrev pub get_or : List A → ℕ → A → A
  get_or [] n d = d
  get_or (x ∷ xs) zero d = x
  get_or (x ∷ xs) (suc n) d = get_or xs n d

  pub length-append : (xs ys : List A) → length (xs ++ ys) ≡ length xs + length ys
  length-append [] ys = omega arith
  length-append (x ∷ xs) ys = omega (arith, length-append xs ys)

abbrev pub has : ℕ → List ℕ → Bool
has a [] = false
has a (x ∷ xs) = (x == a) || has a xs

-- `for (i = start; i < start + rounds; ++i) if (p(i)) return i;`
unfoldable pub first_index : (ℕ → Bool) → (rounds start : ℕ) → Option ℕ
first_index p zero i = none
first_index p (suc r) i = let rest = first_index p r (i + 1) in if p i then some i else rest

-- `for (i = start; i < start + rounds; ++i) if (p(i)) ++count;`
unfoldable pub count_index : (ℕ → Bool) → (rounds start : ℕ) → ℕ
count_index p zero i = 0
count_index p (suc r) i = (if p i then 1 else 0) + count_index p r (i + 1)

pub first_index_sound :
    (p : ℕ → Bool) (r i : ℕ) {k : ℕ}
    → first_index p r i ≡ some k
    → (p k ≡ true) × (i ≤ k) × (k < i + r)
unfolding first_index
first_index_sound p zero i h = cc
first_index_sound p (suc r) i {k} h = ground (arith, first_index_sound p r (i + 1) {k = k})

-- The index found is the least one.
pub first_index_least :
    (p : ℕ → Bool) (r i k j : ℕ) → first_index p r i ≡ some k → i ≤ j → j < k → p j ≡ false
unfolding first_index
first_index_least p zero i k j h a b = cc
first_index_least p (suc r) i k j h a b = elim (Bool-cases (p i)) [
  | inl t ↦ ground arith
  | inr f ↦ elim (Bool-cases (i == j)) [
    | inl e ↦ rw (← (==_iff i j).0 e) f
    | inr n ↦ first_index_least p r (i + 1) k j (rw (f, first_index) at h) (ground arith) b
  ]
]

pub first_index-none :
    (p : ℕ → Bool) (r i j : ℕ) → first_index p r i ≡ none → i ≤ j → j < i + r → p j ≡ false
unfolding first_index
first_index-none p zero i j h a b = absurd (omega arith)
first_index-none p (suc r) i j h a b = elim (Bool-cases (p i)) [
  | inl t ↦ ground arith
  | inr f ↦ elim (Bool-cases (i == j)) [
    | inl e ↦ rw (← (==_iff i j).0 e) f
    | inr n ↦
        first_index-none p r (i + 1) j (rw (f, first_index) at h) (ground arith) (ground arith)
  ]
]

pub update_self {ℓ} : {A : Type ℓ} (f : Array A) (i : ℕ) (v : A) → update f i v i ≡ v
update_self f i v = ground arith

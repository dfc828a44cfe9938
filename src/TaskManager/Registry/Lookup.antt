-- ===== src/TaskManager/Registry/Lookup.antt =====
-- Look-up and pair ids of the registry of task_manager.c.
use edge_aware_tasks_rtos.Prelude.{
  ℕ, ◌≡◌, refl, sym, ap, subst, ℤ, pos, negsuc, int_eq, int_eq_iff, is_negative, Bool, true, false,
  Option, none, some, List, [], ◌∷◌, has, arith, ◌⊎◌, ◌↔◌, inl, inr, Bool-cases, Option-cases,
}
use edge_aware_tasks_rtos.TaskManager.Registry.{
  Registry, find_slot, slot_matches, addresses, runtime_from_task_index, slot_owned, is_ready,
}
use edge_aware_tasks_rtos.TaskManager.Types.{Lifecycle, ready, cleaning, retired}

find_slot_sound :
    (p : ℕ → Bool) (l : List ℕ) {a : ℕ} → find_slot p l ≡ some a → (has a l ≡ true) × (p a ≡ true)
unfolding find_slot
find_slot_sound p [] h = ground (arith, h)
find_slot_sound p (x ∷ l) {a} h = elim (Bool-cases (p x)) [
  | inl e ↦ ground (arith, h, e)
  | inr e ↦ elim (Option-cases (find_slot p l)) [
    | inl n ↦ ground (arith, h, e, n)
    | inr (b, f) ↦ ground (arith, h, e, f, find_slot_sound p l f)
  ]
]

find_slot-none :
    (p : ℕ → Bool) (l : List ℕ) (a : ℕ) → find_slot p l ≡ none → has a l ≡ true → p a ≡ false
unfolding find_slot
find_slot-none p [] a h i = ground (arith, i)
find_slot-none p (x ∷ l) a h i = elim (Bool-cases (p x)) [
  | inl e ↦ ground (arith, h, e)
  | inr e ↦ ground (arith, h, e, i, find_slot-none p l a)
]

-- If no runtime is found for an index that is not negative, no slot of the registry is in use with
-- a ready runtime of that index.
pub runtime_from_task_index-none :
    (i : ℕ) (r : Registry) (a : ℕ)
    → runtime_from_task_index (pos i) r ≡ none
    → slot_owned r a ≡ true
    → slot_matches r (pos i) a ≡ false
unfolding runtime_from_task_index slot_owned
runtime_from_task_index-none i r a h owned =
    find_slot-none (slot_matches r (pos i)) (addresses r.chunks) a h owned

-- The slot's runtime is in use and ready, and its client or its server has the index.
abbrev pub Answers : Registry → ℤ → ℕ → Type 0
Answers r i a =
    ((r.slot a).in_use ≡ true)
    × ((r.slot a).runtime.lifecycle ≡ ready)
    × (((r.slot a).runtime.client_index ≡ i) ⊎ ((r.slot a).runtime.server_index ≡ i))

-- A slot of the registry that answers the index, or there is none or the index is negative.
abbrev pub Finds : Registry → ℤ → Option ℕ → Type 0
Finds r i (some a) = (is_negative i ≡ false) × (slot_owned r a ≡ true) × Answers r i a
Finds r i none = (is_negative i ≡ true) ⊎ (¬ ((a : ℕ) × (slot_owned r a ≡ true) × Answers r i a))

is_ready_iff : (l : Lifecycle) → (is_ready l ≡ true) ↔ (l ≡ ready)
is_ready_iff ready = (λ h. refl, λ h. refl)
is_ready_iff cleaning = (λ h. absurd (ground (arith, h)), λ h. ap is_ready h)
is_ready_iff retired = (λ h. absurd (ground (arith, h)), λ h. ap is_ready h)

slot_matches-Answers : (r : Registry) (i : ℤ) (a : ℕ) → slot_matches r i a ≡ true → Answers r i a
unfolding slot_matches
slot_matches-Answers r i a h =
    let v = (r.slot a).runtime in
    let state = (is_ready_iff v.lifecycle).0 (ground (arith, h)) in
    elim (Bool-cases (int_eq v.client_index i)) [
      | inl e ↦ (ground (arith, h), state, inl ((int_eq_iff v.client_index i).0 e))
      | inr n ↦
          (ground (arith, h), state, inr ((int_eq_iff v.server_index i).0 (ground (arith, h, n))))
    ]

Answers-slot_matches : (r : Registry) (i : ℤ) (a : ℕ) → Answers r i a → slot_matches r i a ≡ true
unfolding slot_matches
Answers-slot_matches r i a (used, state, own) =
    let v = (r.slot a).runtime in
    let live = (is_ready_iff v.lifecycle).1 state in
    elim own [
      | inl e ↦ ground (arith, used, live, (int_eq_iff v.client_index i).1 e)
      | inr e ↦ ground (arith, used, live, (int_eq_iff v.server_index i).1 e)
    ]

-- The look-up of a task index gives a slot of the registry that is in use, whose lifecycle is
-- ready and whose client's or server's index is the one asked for, and then the index is not
-- negative; it gives nothing only if the index is negative or no slot of the registry is like
-- that.
pub runtime_from_task_index-Finds : (i : ℤ) (r : Registry) → Finds r i (runtime_from_task_index i r)
unfolding runtime_from_task_index slot_owned
runtime_from_task_index-Finds (negsuc n) r = inl refl
runtime_from_task_index-Finds (pos i) r = elim (Option-cases (runtime_from_task_index (pos i) r)) [
  | inl e ↦ subst (Finds r (pos i)) (sym e) (
      inr (λ (a, owned, answers).
        let other = runtime_from_task_index-none i r a e owned in
        ground (arith, other, Answers-slot_matches r (pos i) a answers)))
  | inr (a, e) ↦
      let (owned, fits) = find_slot_sound (slot_matches r (pos i)) (addresses r.chunks) e in
      subst (Finds r (pos i)) (sym e) (refl, owned, slot_matches-Answers r (pos i) a fits)
]

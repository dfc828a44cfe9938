-- ===== src/TaskManager/Registry/FreeList.antt =====
-- The intrusive free list of the registry (`runtimeFreeList` of task_manager.c) against a list of slots.
use edge_aware_tasks_rtos.Prelude.{
  ℕ, ◌/◌, ◌≡◌, refl, sym, subst, update_self, true, false, not, ◌&&◌, Option, none, some, List, [],
  ◌∷◌, Array, update, has, if◌then◌else◌, arith, inl, inr, Bool-cases,
}
use edge_aware_tasks_rtos.TaskManager.Types.{PairRuntime, Lifecycle}
use edge_aware_tasks_rtos.TaskManager.Registry.{
  Slot, Registry, chunk_size, slot_at, addresses, empty_registry, slot_owned, set_runtime, mark,
  add_chunk, take_slot, release_slot, clear_registry, freed_slot,
}

-- From `h` the `next_free` links lead through `l` to NULL.
abbrev pub Chain : Array Slot → Option ℕ → List ℕ → Type 0
Chain f h [] = h ≡ none
Chain f h (x ∷ l) = (h ≡ some x) × Chain f (f x).next_free l

abbrev pub Distinct : List ℕ → Type 0
Distinct [] = Unit {0}
Distinct (x ∷ l) = (has x l ≡ false) × Distinct l

-- `free` is the free list, without repetition, and holds exactly the owned slots not in use.
pub record IsFreeList (r : Registry) (free : List ℕ) : Type 0 where
  pub chain : Chain r.slot r.free_list free
  pub distinct : Distinct free
  pub exact : (a : ℕ) → has a free ≡ (slot_owned r a && not (r.slot a).in_use)

pub Chain-same :
    (f g : Array Slot) (h : Option ℕ) (l : List ℕ)
    → ((a : ℕ) → has a l ≡ true → (f a).next_free ≡ (g a).next_free)
    → Chain f h l
    → Chain g h l
Chain-same f g h [] same c = c
Chain-same f g h (x ∷ l) same c = (
  c.0,
  ground (arith, same x, Chain-same f g (f x).next_free l (λ a i. same a (ground (arith, i))) c.1),
)

-- A slot belongs to the chunk that its address names.
pub has-addresses : (a : ℕ) (cs : List ℕ) → has a (addresses cs) ≡ has (a / chunk_size) cs
has-addresses a [] = refl
has-addresses a (c ∷ cs) = ground (arith, has-addresses a cs)

module _ {r : Registry} where
  -- Reserving pops the head of the free list, and the rest is the list of the slots that are then
  -- unused, without repetition.
  pub take_slot-IsFreeList :
      {x : ℕ} {l : List ℕ} → IsFreeList r (x ∷ l) → IsFreeList (take_slot x r) l
  unfolding take_slot slot_owned
  take_slot-IsFreeList {x} {l} v = record {
    chain =
        Chain-same r.slot (take_slot x r).slot (r.slot x).next_free l
          (λ a i. ground (arith, v.distinct)) v.chain.1;
    distinct = v.distinct.1;
    exact = λ a. ground (arith, v.exact a, v.exact x, v.distinct);
  }

  -- Releasing a runtime that is in use pushes its slot on the free list, which stays the list of
  -- the unused slots without repetition; any other release leaves it alone.
  pub release_slot-IsFreeList :
      (x : ℕ) {l : List ℕ}
      → IsFreeList r l
      → IsFreeList (release_slot x r) (if slot_owned r x && (r.slot x).in_use then x ∷ l else l)
  unfolding release_slot
  release_slot-IsFreeList x {l} v = elim (Bool-cases (slot_owned r x && (r.slot x).in_use)) [
    | inr idle ↦ rw idle v
    | inl busy ↦ rw busy (record {
      chain = (
        refl,
        subst (λ y. Chain (update r.slot x (freed_slot r)) y.next_free l)
            (sym (update_self r.slot x (freed_slot r)))
            (Chain-same r.slot (update r.slot x (freed_slot r)) r.free_list l
              (λ a i. ground (arith, v.exact x)) v.chain),
      );
      distinct = (ground (arith, v.exact x), v.distinct);
      exact = λ a. ground (arith, v.exact a);
    })
  ]

  -- A chunk at an address that no other chunk has turns an empty free list into the list of its
  -- four slots, the last first.
  pub add_chunk-IsFreeList :
      (c : ℕ)
      → has c r.chunks ≡ false
      → IsFreeList r []
      → IsFreeList (add_chunk c r) (slot_at c 3 ∷ slot_at c 2 ∷ slot_at c 1 ∷ slot_at c 0 ∷ [])
  unfolding add_chunk slot_owned
  add_chunk-IsFreeList c fresh v = record {
    chain = ground (arith, v.chain);
    distinct = ground arith;
    exact = λ a. ground (arith, v.exact a, has-addresses a r.chunks, fresh);
  }

  -- What a runtime holds does not bear on the free list.
  pub set_runtime-IsFreeList :
      (x : ℕ) (p : PairRuntime) {l : List ℕ} → IsFreeList r l → IsFreeList (set_runtime x p r) l
  unfolding set_runtime slot_owned
  set_runtime-IsFreeList x p {l} v = record {
    chain = Chain-same r.slot (set_runtime x p r).slot r.free_list l (λ a i. ground arith) v.chain;
    distinct = v.distinct;
    exact = λ a. ground (arith, v.exact a);
  }

  pub mark-IsFreeList :
      (c : Lifecycle) (x : ℕ) {l : List ℕ} → IsFreeList r l → IsFreeList (mark c x r) l
  unfolding mark
  mark-IsFreeList c x {l} v = elim (Bool-cases (slot_owned r x && (r.slot x).in_use)) [
    | inl busy ↦ rw busy (set_runtime-IsFreeList x _ v)
    | inr idle ↦ rw idle v
  ]

pub empty_registry-IsFreeList : IsFreeList empty_registry []
unfolding slot_owned
empty_registry-IsFreeList = record { chain = refl; distinct = tt; exact = λ a. refl }

pub clear_registry-IsFreeList : (r : Registry) → IsFreeList (clear_registry r) []
unfolding clear_registry slot_owned
clear_registry-IsFreeList r = record { chain = refl; distinct = tt; exact = λ a. refl }

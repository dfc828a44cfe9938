-- ===== src/TaskManager/Invariant/Reserve.antt =====
-- The task manager's invariant for the registry functions: reserve, release, mark and look-up.
use edge_aware_tasks_rtos.Prelude.{
  ℕ, ◌≡◌, refl, sym, ◌∙◌, subst, ℤ, ◌||◌, Option, none, some, List, [], ◌∷◌, ◌==◌, arith, inl, inr,
  Bool-cases, Option-cases,
}
use edge_aware_tasks_rtos.Port.Kernel.{Kernel, Trace, allocated}
use edge_aware_tasks_rtos.Port.Rtos.{mutex_enter, mutex_exit, port_malloc}
use edge_aware_tasks_rtos.Port.Locks.{Lock, free, held, lock_of, is_live}
use edge_aware_tasks_rtos.TaskManager.Types.{Lifecycle}
use edge_aware_tasks_rtos.TaskManager.Registry.{
  Registry, slot_at, add_chunk, take_slot, release_slot, mark,
}
use edge_aware_tasks_rtos.TaskManager.Registry.FreeList.{
  IsFreeList, take_slot-IsFreeList, release_slot-IsFreeList, add_chunk-IsFreeList, mark-IsFreeList,
}
use edge_aware_tasks_rtos.TaskManager.System.{
  Env, System, enter_registry, exit_registry, registry_init, registry_expand, pop_free,
  expand_and_pop, reserve_pair_runtime, pair_runtime_release, runtime_mark, runtime_by_task_index,
}
use edge_aware_tasks_rtos.TaskManager.Invariant.{
  InvAt, Inv, IsLawful, on_registry-Inv, registry_init-Inv,
}

-- The lock while the mutex `m` is held; a NULL mutex holds nothing.
abbrev pub held_by : Option ℕ → Lock
held_by none = free
held_by (some m) = held m

enter_lock : (m : Option ℕ) (t : Trace) → lock_of t ≡ free → lock_of (mutex_enter m t) ≡ held_by m
unfolding mutex_enter lock_of
enter_lock none t h = h
enter_lock (some m) t h = ground arith

exit_lock : (m : Option ℕ) (t : Trace) → lock_of t ≡ held_by m → lock_of (mutex_exit m t) ≡ free
unfolding mutex_exit lock_of
exit_lock none t h = h
exit_lock (some m) t h = ground arith

enter_live : (a : ℕ) (m : Option ℕ) (t : Trace) → is_live a (mutex_enter m t) ≡ is_live a t
unfolding mutex_enter is_live
enter_live a none t = refl
enter_live a (some m) t = refl

exit_live : (a : ℕ) (m : Option ℕ) (t : Trace) → is_live a (mutex_exit m t) ≡ is_live a t
unfolding mutex_exit is_live
exit_live a none t = refl
exit_live a (some m) t = refl

pub enter_registry-InvAt : {s : System} → Inv s → InvAt (held_by s.registry_mux) (enter_registry s)
unfolding enter_registry
enter_registry-InvAt {s} v = record {
  unlocked = enter_lock s.registry_mux s.trace v.unlocked;
  counted = v.counted;
  unused = v.unused;
  linked = v.linked;
  live = λ a. v.live a ∙ sym (enter_live a s.registry_mux s.trace);
}

pub exit_registry-Inv : {s : System} → InvAt (held_by s.registry_mux) s → Inv (exit_registry s)
unfolding exit_registry
exit_registry-Inv {s} v = record {
  unlocked = exit_lock s.registry_mux s.trace v.unlocked;
  counted = v.counted;
  unused = v.unused;
  linked = v.linked;
  live = λ a. v.live a ∙ sym (exit_live a s.registry_mux s.trace);
}

-- The head that `free_list` points to is the first of the unused slots.
popped :
    (r : Registry) (l : List ℕ) (a : ℕ)
    → IsFreeList r l
    → r.free_list ≡ some a
    → (rest : List ℕ) × IsFreeList (take_slot a r) rest
popped r [] a v e = cc (v.chain)
popped r (x ∷ l) a v e =
    let same : x ≡ a = ground (arith, v.chain) in
    (l, subst (λ y. IsFreeList (take_slot y r) l) same (take_slot-IsFreeList v))

pub pop_free-Inv :
    (k : Kernel) {s : System} → InvAt (held_by s.registry_mux) s → Inv (pop_free k s).1
unfolding pop_free take_slot
pop_free-Inv k {s} v = elim (Option-cases s.registry.free_list) [
  | inl e ↦ rw (e, pop_free) (exit_registry-Inv v)
  | inr (a, e) ↦
      let (rest, linked) = popped s.registry v.unused a v.linked e in
      rw (e, pop_free)
        (exit_registry-Inv (record {
          unlocked = v.unlocked;
          counted = v.counted;
          unused = rest;
          linked = linked;
          live = v.live;
        }))
]

lock_of-allocated : (p : Option ℕ) (t : Trace) → lock_of (allocated p ∷ t) ≡ lock_of t
unfolding lock_of
lock_of-allocated p t = ground arith

is_live-allocated :
    (a : ℕ) (p : Option ℕ) (t : Trace)
    → is_live a (allocated p ∷ t)
      ≡ (elim p [ none ↦ is_live a t | some b ↦ (b == a) || is_live a t ])
unfolding is_live
is_live-allocated a none t = refl
is_live-allocated a (some b) t = refl

unused_nil : (r : Registry) (l : List ℕ) → IsFreeList r l → r.free_list ≡ none → l ≡ []
unused_nil r [] v e = refl
unused_nil r (x ∷ l) v e = ground (arith, v.chain)

chunks-add_chunk : (c : ℕ) (r : Registry) → (add_chunk c r).chunks ≡ c ∷ r.chunks
unfolding add_chunk
chunks-add_chunk c r = refl

chunks-release_slot : (a : ℕ) (r : Registry) → (release_slot a r).chunks ≡ r.chunks
unfolding release_slot
chunks-release_slot a r = ground arith

chunks-mark : (c : Lifecycle) (a : ℕ) (r : Registry) → (mark c a r).chunks ≡ r.chunks
unfolding mark
chunks-mark c a r = ground arith

mux-registry_expand :
    (k : Kernel) (s : System) → s.registry_mux ≡ (registry_expand k s).1.registry_mux
unfolding registry_expand
mux-registry_expand k s = ground arith

-- An expansion is made only where the free list is empty.
registry_expand-InvAt :
    (e : Env)
    → IsLawful e
    → (l : Lock) {s : System} → s.registry.free_list ≡ none
    → InvAt l s
    → InvAt l (registry_expand e.kernel s).1
unfolding registry_expand port_malloc lock_of
registry_expand-InvAt e law l {s} empty v = elim (Option-cases (e.kernel.malloc s.trace)) [
  | inl n ↦
      rw (n, registry_expand)
        (record {
          unlocked = lock_of-allocated none s.trace ∙ v.unlocked;
          counted = v.counted;
          unused = v.unused;
          linked = v.linked;
          live = λ a. ground (arith, v.live a, is_live-allocated a none s.trace);
        })
  | inr (c, n) ↦
      let none_left = unused_nil s.registry v.unused v.linked empty in
      let absent = v.live c ∙ law.fresh s.trace c n in
      rw (n, registry_expand)
        (record {
          unlocked = lock_of-allocated (some c) s.trace ∙ v.unlocked;
          counted = v.counted;
          unused = slot_at c 3 ∷ slot_at c 2 ∷ slot_at c 1 ∷ slot_at c 0 ∷ [];
          linked = add_chunk-IsFreeList c absent (subst (IsFreeList s.registry) none_left v.linked);
          live = λ a. ground (
            arith,
            v.live a,
            is_live-allocated a (some c) s.trace,
            chunks-add_chunk c s.registry,
          );
        })
]

module _ (e : Env) (law : IsLawful e) where
  expand_and_pop-Inv :
      {s : System}
      → s.registry.free_list ≡ none
      → InvAt (held_by s.registry_mux) s
      → Inv (expand_and_pop e.kernel s).1
  unfolding expand_and_pop
  expand_and_pop-Inv {s} empty v =
      let w = registry_expand-InvAt e law (held_by s.registry_mux) empty v in
      let same = mux-registry_expand e.kernel s in
      let w' = subst (λ m. InvAt (held_by m) (registry_expand e.kernel s).1) same w in
      elim (Bool-cases (registry_expand e.kernel s).0) [
        | inl grown ↦ rw (grown, expand_and_pop) (pop_free-Inv e.kernel w')
        | inr full ↦ rw (full, expand_and_pop) (exit_registry-Inv w')
      ]

  pub reserve_pair_runtime-Inv : {s : System} → Inv s → Inv (reserve_pair_runtime e.kernel s).1
  unfolding reserve_pair_runtime
  reserve_pair_runtime-Inv {s} v =
      let u = enter_registry (registry_init e.kernel s) in
      let inside = enter_registry-InvAt (registry_init-Inv e.kernel v) in
      elim (Option-cases u.registry.free_list) [
        | inl empty ↦ rw (empty, reserve_pair_runtime) (expand_and_pop-Inv empty inside)
        | inr (a, some_left) ↦ rw (some_left, reserve_pair_runtime) (pop_free-Inv e.kernel inside)
      ]

module _ (k : Kernel) where
  pub pair_runtime_release-Inv :
      (a : Option ℕ) {s : System} → Inv s → Inv (pair_runtime_release k a s)
  unfolding pair_runtime_release
  pair_runtime_release-Inv none v = v
  pair_runtime_release-Inv (some a) {s} v =
      let w = registry_init-Inv k v in
      on_registry-Inv (release_slot a) _ (release_slot-IsFreeList a w.linked)
        (chunks-release_slot a (registry_init k s).registry) w

  pub runtime_mark-Inv :
      (c : Lifecycle) (a : Option ℕ) {s : System} → Inv s → Inv (runtime_mark k c a s)
  unfolding runtime_mark
  runtime_mark-Inv c none v = v
  runtime_mark-Inv c (some a) {s} v =
      let w = registry_init-Inv k v in
      on_registry-Inv (mark c a) w.unused (mark-IsFreeList c a w.linked)
        (chunks-mark c a (registry_init k s).registry) w

  pub runtime_by_task_index-Inv : (i : ℤ) {s : System} → Inv s → Inv (runtime_by_task_index k i s).1
  unfolding runtime_by_task_index
  runtime_by_task_index-Inv i v =
      let w = registry_init-Inv k v in on_registry-Inv (λ r. r) w.unused w.linked refl w

-- ===== src/TaskManager/CreatePair/Answers.antt =====
-- What `CreateEATaskPinnedToCoreEx` holds in its runtime: the slot that it reserves, and the queues.
pub mod Created
use edge_aware_tasks_rtos.Prelude.{
  ℕ, ◌≡◌, refl, sym, ◌∙◌, ap, subst, true, false, Option, none, some, is_some, arith, inl, inr,
  Option-cases, List, [], ◌∷◌,
}
use edge_aware_tasks_rtos.Port.Kernel.{Kernel}
use edge_aware_tasks_rtos.Port.Rtos.{port_malloc}
use edge_aware_tasks_rtos.TaskManager.Types.{failure_queue_client, failure_queue_server}
use edge_aware_tasks_rtos.TaskManager.Registry.{
  Registry, slot_owned, slot_at, add_chunk, take_slot, is_ready,
}
use edge_aware_tasks_rtos.TaskManager.Registry.FreeList.{IsFreeList}
use edge_aware_tasks_rtos.TaskManager.System.{
  Env, System, registry_init, enter_registry, exit_registry, registry_expand, pop_free,
  expand_and_pop, reserve_pair_runtime,
}
use edge_aware_tasks_rtos.TaskManager.Create.{runtime_at, modify_runtime, assign_pair_id}
use edge_aware_tasks_rtos.TaskManager.PairArgs.{
  Checked, set_client_queue, set_server_queue, initial_fields,
}
use edge_aware_tasks_rtos.TaskManager.CreatePair.{build_pair}
use edge_aware_tasks_rtos.TaskManager.CreatePair.Linked.{
  Ensures, bind-Ensures, IsHeld, IsLinked, SameRegistry, IsHeld-same, modify-IsHeld,
  registry_init-SameRegistry,
}
use edge_aware_tasks_rtos.TaskManager.CreatePair.Linked.Steps.{
  queue_step-Ensures, assign_pair_id-IsLinked, either_part-IsLinked,
}

-- The runtime is reserved and has the queue to its server.
record HasQueue (a : ℕ) (s : System) : Type 0 where
  reserved : IsHeld a s
  to_server : is_some (runtime_at s a).queue_client_server ≡ true

module _ (e : Env) (c : Checked) (a : ℕ) where
  first_queue :
      (s : System) (q : ℕ) (u : System)
      → IsHeld a s
      → SameRegistry s u
      → HasQueue a (modify_runtime a (set_client_queue (some q)) u)
  unfolding modify_runtime
  first_queue s q u v same = record {
    reserved = modify-IsHeld a (set_client_queue (some q)) u (λ r. refl) (IsHeld-same a s u same v);
    to_server = ground arith;
  }

  second_queue :
      (s : System) (q : ℕ) (u : System)
      → HasQueue a s
      → SameRegistry s u
      → IsLinked a (modify_runtime a (set_server_queue (some q)) u)
  unfolding modify_runtime
  second_queue s q u v same = record {
    reserved =
        modify-IsHeld a (set_server_queue (some q)) u (λ r. refl)
          (IsHeld-same a s u same v.reserved);
    to_server = ground (
      arith,
      ap (λ r. is_some (r.slot a).runtime.queue_client_server) same.registry,
      v.to_server,
    );
    to_client = ground arith;
  }

  -- From a reserved runtime an attempt that is done leaves it reserved, ready and with both of its
  -- queues.
  pub build_pair-IsLinked :
      (s : System) → IsHeld a s → Ensures (λ _. IsLinked a) (build_pair e c a s)
  unfolding build_pair
  build_pair-IsLinked s v =
      let Q = λ (x : Unit {0}) (u : System). IsLinked a u in
      let u = modify_runtime a (initial_fields c) s in
      let w = modify-IsHeld a (initial_fields c) s (λ r. refl) v in
      bind-Ensures (λ (x : Unit {0}). HasQueue a) Q _ _
        (queue_step-Ensures e (HasQueue a) a c.name c.spec failure_queue_client set_client_queue u
          (λ q t same. first_queue u q t w same))
        (λ x t h.
          bind-Ensures (λ (x : Unit {0}). IsLinked a) Q _ _
            (queue_step-Ensures e (IsLinked a) a c.name c.spec failure_queue_server set_server_queue
              t (λ q y same. second_queue t q y h same))
            (λ y z linked.
              either_part-IsLinked e c a (assign_pair_id e a z)
                (assign_pair_id-IsLinked e a z linked)))

-- A slot that is taken from the registry is in use and ready.
taken :
    (a : ℕ) (s u : System)
    → is_some u.table_mux ≡ true
    → slot_owned s.registry a ≡ true
    → u.registry ≡ take_slot a s.registry
    → IsHeld a u
unfolding take_slot slot_owned
taken a s u ready owned same = record {
  initialised = ready;
  owned = ap (λ r. slot_owned r a) same ∙ owned;
  in_use = ap (λ r. (r.slot a).in_use) same ∙ ground arith;
  usable = ap (λ r. is_ready (r.slot a).runtime.lifecycle) same ∙ ground arith;
}

add_chunk_head : (c : ℕ) (r : Registry) → (add_chunk c r).free_list ≡ some (slot_at c 3)
unfolding add_chunk
add_chunk_head c r = refl

add_chunk_owned : (c : ℕ) (r : Registry) → slot_owned (add_chunk c r) (slot_at c 3) ≡ true
unfolding add_chunk slot_owned
add_chunk_owned c r = ground arith

head_owned :
    (a : ℕ) (l : List ℕ) (r : Registry)
    → IsFreeList r l
    → r.free_list ≡ some a
    → slot_owned r a ≡ true
head_owned a [] r v e = cc (v.chain)
head_owned a (x ∷ l) r v e =
    let same : x ≡ a = ground (arith, v.chain) in
    subst (λ y. slot_owned r y ≡ true) same (ground (arith, v.exact x))

-- What a reservation that gives a runtime leaves.
abbrev pub Reserves : Option ℕ × System → Type 0
Reserves r = (a : ℕ) → r.0 ≡ some a → IsHeld a r.1

held-Reserves : (a : ℕ) (r : Option ℕ × System) → r.0 ≡ some a → IsHeld a r.1 → Reserves r
held-Reserves a r e v b got =
    let same : a ≡ b = ground (arith, e, got) in subst (λ x. IsHeld x r.1) same v

module _ (k : Kernel) where
  pop_free-Reserves :
      (a : ℕ) (s : System)
      → is_some s.table_mux ≡ true
      → s.registry.free_list ≡ some a
      → slot_owned s.registry a ≡ true
      → Reserves (pop_free k s)
  unfolding pop_free exit_registry
  pop_free-Reserves a s ready head owned =
      held-Reserves a (pop_free k s) (rw (head, pop_free) refl)
        (rw (head, pop_free) (taken a s _ ready owned refl))

  expanded :
      (c : ℕ) (s : System)
      → k.malloc s.trace ≡ some c
      → ((registry_expand k s).0 ≡ true)
        × ((registry_expand k s).1.registry ≡ add_chunk c s.registry)
        × ((registry_expand k s).1.table_mux ≡ s.table_mux)
  unfolding registry_expand port_malloc
  expanded c s granted = rw (granted, registry_expand) (refl, refl, refl)

  not_expanded : (s : System) → k.malloc s.trace ≡ none → (registry_expand k s).0 ≡ false
  unfolding registry_expand port_malloc
  not_expanded s refused = rw (refused, registry_expand) refl

  -- The chunk that was just added has the slot at the head of the free list.
  expand_and_pop-Reserves :
      (s : System) → is_some s.table_mux ≡ true → Reserves (expand_and_pop k s)
  unfolding expand_and_pop
  expand_and_pop-Reserves s ready = elim (Option-cases (k.malloc s.trace)) [
    | inl refused ↦ λ b. rw (not_expanded s refused, expand_and_pop) (λ got. ground (arith, got))
    | inr (c, granted) ↦
        let (grown, registry, mux) = expanded c s granted in
        let u = (registry_expand k s).1 in
        rw (grown, expand_and_pop)
          (pop_free-Reserves (slot_at c 3) u (ap is_some mux ∙ ready)
            (ap (λ r. r.free_list) registry ∙ add_chunk_head c s.registry)
            (ap (λ r. slot_owned r (slot_at c 3)) registry ∙ add_chunk_owned c s.registry))
  ]

  -- Where the table is initialised and the free list holds only slots of the registry, a runtime
  -- that is reserved is ready, in use and the registry's own.
  pub reserve_pair_runtime-Reserves :
      (l : List ℕ) (s : System)
      → is_some s.table_mux ≡ true
      → IsFreeList s.registry l
      → Reserves (reserve_pair_runtime k s)
  unfolding reserve_pair_runtime enter_registry
  reserve_pair_runtime-Reserves l s ready v =
      let same = registry_init-SameRegistry k s in
      let u = enter_registry (registry_init k s) in
      let mux = ap is_some same.initialised ∙ ready in
      elim (Option-cases u.registry.free_list) [
        | inl empty ↦ rw (empty, reserve_pair_runtime) (expand_and_pop-Reserves u mux)
        | inr (a, head) ↦
            rw (head, reserve_pair_runtime)
              (pop_free-Reserves a u mux head (
                head_owned a l u.registry (subst (λ r. IsFreeList r l) (sym same.registry) v) head))
      ]

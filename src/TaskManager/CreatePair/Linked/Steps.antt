-- ===== src/TaskManager/CreatePair/Linked/Steps.antt =====
-- The steps of `CreateEATaskPinnedToCoreEx` on a pair whose runtime is reserved: none takes the
-- runtime away, and the two queue steps that are done have stored a queue each.
use edge_aware_tasks_rtos.Prelude.{
  ℕ, ◌≡◌, refl, sym, subst, true, Option, some, is_some, inl, inr, Bool-cases, Option-cases,
  if◌then◌else◌, if_cases, Text,
}
use edge_aware_tasks_rtos.Port.Rtos.{queue_create}
use edge_aware_tasks_rtos.TaskManager.Types.{
  PairRuntime, PairSpec, FailureReason, failure_client_task, failure_server_task,
  failure_local_task,
}
use edge_aware_tasks_rtos.TaskManager.Table.{active_at, find_free_slot}
use edge_aware_tasks_rtos.TaskManager.System.{
  Env, System, on_table, registry_init, enter_registry, exit_registry,
}
use edge_aware_tasks_rtos.TaskManager.Registry.{next_pair_id}
use edge_aware_tasks_rtos.TaskManager.Unchanged.{ensure_initialized_ready}
use edge_aware_tasks_rtos.TaskManager.Create.{
  Step, act, TaskArgs, runtime_at, modify_runtime, populate_slot, started, start_task, create_task,
  task_step, queue_step, assign_pair_id,
}
use edge_aware_tasks_rtos.TaskManager.Create.Progress.{slot_or_none}
use edge_aware_tasks_rtos.TaskManager.PairArgs.{
  Checked, set_client_index, set_server_index, set_client_handle, set_server_handle, pair_names,
  local_names,
}
use edge_aware_tasks_rtos.TaskManager.CreatePair.Linked.{
  Ensures, bind-Ensures, IsLinked, SameRegistry, IsLinked-same, modify-IsLinked,
  link_entry-SameRegistry, registry_init-SameRegistry,
}
use edge_aware_tasks_rtos.TaskManager.CreatePair.{
  client_args, server_args, local_args, link_client, link_server, server_part, non_local_part,
  local_part, is_local_execution, is_local,
}

module _ (e : Env) where
  populate_slot-SameRegistry :
      (t : TaskArgs) (i h : ℕ) (s : System) → SameRegistry s (populate_slot e t i h s).1
  unfolding populate_slot on_table
  populate_slot-SameRegistry t i h s =
      if_cases (λ (r : Option (ℕ × ℕ) × System). SameRegistry s r.1) (active_at s.table i)
        (λ busy. record { registry = refl; initialised = refl })
        (λ free. record { registry = refl; initialised = refl })

  start_task-SameRegistry :
      (t : TaskArgs) (i : ℕ) (s : System) → SameRegistry s (start_task e t i s).1
  unfolding start_task started
  start_task-SameRegistry t i s = elim (Option-cases (started e t s).0) [
    | inl refused ↦ rw (refused, start_task) (record { registry = refl; initialised = refl })
    | inr (h, granted) ↦
        let same = populate_slot-SameRegistry t i h (started e t s).1 in
        rw (granted, start_task)
          (record { registry = same.registry; initialised = same.initialised })
  ]

  slot_or_none-SameRegistry : (t : TaskArgs) (s : System) → SameRegistry s (slot_or_none e t s).1
  unfolding slot_or_none on_table
  slot_or_none-SameRegistry t s = elim (Option-cases (find_free_slot s.table)) [
    | inl full ↦ rw (full, slot_or_none) (record { registry = refl; initialised = refl })
    | inr (i, found) ↦
        let same = start_task-SameRegistry t i (on_table (λ u. u) s) in
        rw (found, slot_or_none)
          (record { registry = same.registry; initialised = same.initialised })
  ]

  create_task-SameRegistry :
      (t : TaskArgs) (s : System)
      → is_some s.table_mux ≡ true
      → SameRegistry s (create_task e t s).1
  unfolding create_task slot_or_none
  create_task-SameRegistry t s ready =
      subst (λ u. SameRegistry s (slot_or_none e t u).1)
        (sym (ensure_initialized_ready e.kernel s ready)) (slot_or_none-SameRegistry t s)

  -- What holds of the registry once the handle is stored holds after the step.
  task_step-Ensures :
      (Q : ℕ → System → Type 0) (name : Text) (r : FailureReason) (t : TaskArgs)
      (store : ℕ → PairRuntime → PairRuntime) (s : System)
      → is_some s.table_mux ≡ true
      → ((i h : ℕ) (u : System) → SameRegistry s u → Q i (modify_runtime t.runtime (store h) u))
      → Ensures Q (task_step e name r t store s)
  unfolding task_step
  task_step-Ensures Q name r t store s ready k = elim (Bool-cases (e.hook r name)) [
    | inl forced ↦ rw (forced, Ensures) tt
    | inr allowed ↦ elim (Option-cases (create_task e t s).0) [
      | inl refused ↦ rw allowed (rw (refused, Ensures) tt)
      | inr ((i, h), made) ↦
          rw allowed
            (rw (made, Ensures) (k i h (create_task e t s).1 (create_task-SameRegistry t s ready)))
    ]
  ]

  -- A queue step that is done has stored a queue.
  pub queue_step-Ensures :
      (Q : System → Type 0) (a : ℕ) (name : Text) (spec : PairSpec) (r : FailureReason)
      (store : Option ℕ → PairRuntime → PairRuntime) (s : System)
      → ((q : ℕ) (u : System) → SameRegistry s u → Q (modify_runtime a (store (some q)) u))
      → Ensures (λ _. Q) (queue_step e a name spec r store s)
  unfolding queue_step queue_create
  queue_step-Ensures Q a name spec r store s k = elim (Bool-cases (e.hook r name)) [
    | inl forced ↦ rw (forced, Ensures) tt
    | inr allowed ↦
        let asked = queue_create e.kernel spec.queue_depth spec.message_size s.trace in
        elim (Option-cases asked.0) [
          | inl refused ↦ rw allowed (rw (refused, Ensures) tt)
          | inr (q, made) ↦ rw allowed (
              rw (made, Ensures)
                (subst (λ o. Q (modify_runtime a (store o) (record s { trace = asked.1 })))
                  (sym made)
                  (k q (record s { trace = asked.1 })
                    (record { registry = refl; initialised = refl }))))
        ]
  ]

  pub assign_pair_id-IsLinked :
      (a : ℕ) (s : System) → IsLinked a s → IsLinked a (assign_pair_id e a s)
  unfolding assign_pair_id enter_registry exit_registry
  assign_pair_id-IsLinked a s v =
      let w =
        IsLinked-same a s (registry_init e.kernel s) (registry_init-SameRegistry e.kernel s) v in
      let u = enter_registry (registry_init e.kernel s) in
      let x = record u { next_id = (next_pair_id u.next_id).1 } in
      let f = λ (r : PairRuntime). record r { pair_id = (next_pair_id u.next_id).0 } in
      IsLinked-same a (modify_runtime a f x) (exit_registry (modify_runtime a f x))
        (record { registry = refl; initialised = refl })
        (modify-IsLinked a f x (λ r. refl) (λ r. refl) (λ r. refl)
          (IsLinked-same a (registry_init e.kernel s) x
            (record { registry = refl; initialised = refl }) w))

  module _ (c : Checked) (a : ℕ) where
    link_client-IsLinked : (s : System) → IsLinked a s → IsLinked a (link_client e c a s)
    unfolding link_client
    link_client-IsLinked s =
        let r = runtime_at s a in
        IsLinked-same a s _
          (link_entry-SameRegistry r.client_index r.pair_id r.client_index r.server_index s)

    link_server-IsLinked : (s : System) → IsLinked a s → IsLinked a (link_server e c a s)
    unfolding link_server
    link_server-IsLinked s =
        let r = runtime_at s a in
        IsLinked-same a s _
          (link_entry-SameRegistry r.server_index r.pair_id r.server_index r.client_index s)

    -- A task of the pair is made and its handle is stored.
    task_step-IsLinked :
        (name : Text) (r : FailureReason) (t : TaskArgs) (store : ℕ → PairRuntime → PairRuntime)
        (s : System)
        → t.runtime ≡ a
        → ((h : ℕ) (p : PairRuntime) → (store h p).lifecycle ≡ p.lifecycle)
        → ((h : ℕ) (p : PairRuntime) → (store h p).queue_client_server ≡ p.queue_client_server)
        → ((h : ℕ) (p : PairRuntime) → (store h p).queue_server_client ≡ p.queue_server_client)
        → IsLinked a s
        → Ensures (λ _. IsLinked a) (task_step e name r t store s)
    task_step-IsLinked name r t store s own life one two v =
        task_step-Ensures (λ _. IsLinked a) name r t store s v.reserved.initialised
          (λ i h u same.
            subst (λ b. IsLinked a (modify_runtime b (store h) u)) (sym own)
              (modify-IsLinked a (store h) u (life h) (one h) (two h) (IsLinked-same a s u same v)))

    server_part-IsLinked :
        (s : System) → IsLinked a s → Ensures (λ _. IsLinked a) (server_part e c a s)
    unfolding server_part server_args client_args
    server_part-IsLinked s v =
        bind-Ensures (λ (j : ℕ). IsLinked a) (λ _. IsLinked a) _ _
          (task_step-IsLinked _ failure_server_task (server_args e c a) set_server_handle s refl
            (λ h p. refl) (λ h p. refl) (λ h p. refl) v)
          (λ j u w.
            let x = modify_runtime a (set_server_index j) u in
            link_server-IsLinked (link_client e c a x) (
              link_client-IsLinked x
                (modify-IsLinked a (set_server_index j) u (λ r. refl) (λ r. refl) (λ r. refl) w)))

    -- The client is made, its handle and its index are stored, and its entry is linked.
    client_index-IsLinked :
        (i : ℕ) (u : System)
        → IsLinked a u
        → IsLinked a (link_client e c a (modify_runtime a (set_client_index i) u))
    client_index-IsLinked i u w =
        link_client-IsLinked (modify_runtime a (set_client_index i) u)
          (modify-IsLinked a (set_client_index i) u (λ r. refl) (λ r. refl) (λ r. refl) w)

    local_part-IsLinked :
        (s : System) → IsLinked a s → Ensures (λ _. IsLinked a) (local_part e c a s)
    unfolding local_part local_args client_args
    local_part-IsLinked s v =
        bind-Ensures (λ (j : ℕ). IsLinked a) (λ _. IsLinked a) _ _
          (task_step-IsLinked _ failure_local_task (local_args e c a) set_client_handle
            (modify_runtime a (local_names c) s) refl (λ h p. refl) (λ h p. refl) (λ h p. refl)
            (modify-IsLinked a (local_names c) s (λ r. refl) (λ r. refl) (λ r. refl) v))
          client_index-IsLinked

    server_or_none-IsLinked :
        (s : System)
        → IsLinked a s
        → Ensures
            (λ _. IsLinked a)
            ((if is_local_execution c.exec_site then server_part e c a else act (λ u. u)) s)
    server_or_none-IsLinked s v =
        if_cases (λ (m : Step (Unit {0})). Ensures (λ _. IsLinked a) (m s))
          (is_local_execution c.exec_site) (λ here. server_part-IsLinked s v) (λ away. v)

    non_local_part-IsLinked :
        (s : System) → IsLinked a s → Ensures (λ _. IsLinked a) (non_local_part e c a s)
    unfolding non_local_part client_args
    non_local_part-IsLinked s v =
        bind-Ensures (λ (j : ℕ). IsLinked a) (λ _. IsLinked a) _ _
          (task_step-IsLinked _ failure_client_task (client_args e c a) set_client_handle
            (modify_runtime a (pair_names c) s) refl (λ h p. refl) (λ h p. refl) (λ h p. refl)
            (modify-IsLinked a (pair_names c) s (λ r. refl) (λ r. refl) (λ r. refl) v))
          (λ i u w.
            server_or_none-IsLinked (link_client e c a (modify_runtime a (set_client_index i) u))
              (client_index-IsLinked i u w))

    pub either_part-IsLinked :
        (s : System)
        → IsLinked a s
        → Ensures
            (λ _. IsLinked a)
            ((if is_local c.app_type then local_part e c a else non_local_part e c a) s)
    either_part-IsLinked s v = elim (Bool-cases (is_local c.app_type)) [
      | inl one ↦ rw one (local_part-IsLinked s v)
      | inr two ↦ rw two (non_local_part-IsLinked s v)
    ]

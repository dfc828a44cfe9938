-- ===== src/TaskManager/CreatePair/Progress.antt =====
-- When `CreateEATaskPinnedToCoreEx` succeeds, and what it has built then.
use edge_aware_tasks_rtos.Prelude.{
  ℕ, ◌+◌, refl, Option, Text, codes, arith, inl, inr, Bool-cases, Option-cases, if◌then◌else◌,
  if_cases,
}
use edge_aware_tasks_rtos.Port.Rtos.{queue_create}
use edge_aware_tasks_rtos.TaskManager.Types.{
  PairRuntime, PairSpec, FailureReason, failure_queue_client, failure_queue_server,
  failure_client_task, failure_server_task, failure_local_task,
}
use edge_aware_tasks_rtos.TaskManager.Table.{record_monitor}
use edge_aware_tasks_rtos.TaskManager.System.{Env, System, registry_init}
use edge_aware_tasks_rtos.TaskManager.Create.{
  Step, act, TaskArgs, runtime_at, modify_runtime, create_task, task_step, queue_step,
  assign_pair_id, base_name,
}
use edge_aware_tasks_rtos.TaskManager.Create.Progress.{
  IsGenerous, HasRoom, IsCreated, create_task_succeeds,
}
use edge_aware_tasks_rtos.TaskManager.PairArgs.{
  Checked, set_client_handle, set_server_handle, set_client_index, set_server_index,
  set_client_queue, set_server_queue, pair_names, local_names, initial_fields,
}
use edge_aware_tasks_rtos.TaskManager.CreatePair.{
  client_args, server_args, local_args, link_client, link_server, server_part, is_local_execution,
  non_local_part, local_part, is_local, build_pair,
}
use edge_aware_tasks_rtos.TaskManager.CreatePair.Room.{
  Succeeds, bind-Succeeds, HasClient, SameEntries, link_entry-SameEntries, SameEntries-HasClient,
  modify-HasRoom, IsCreated-HasRoom, IsCreated-HasClient, modify-HasClient, client_label,
}

module _ (e : Env) (open_handed : IsGenerous e) where
  queue_step-Succeeds :
      (a n : ℕ) (name : Text) (spec : PairSpec) (r : FailureReason)
      (store : Option ℕ → PairRuntime → PairRuntime) (s : System)
      → HasRoom n s
      → Succeeds (λ _. HasRoom n) (queue_step e a name spec r store s)
  unfolding queue_step queue_create
  queue_step-Succeeds a n name spec r store s v =
      let (q, got) = open_handed.queue s.trace spec.queue_depth spec.message_size in
      let asked = queue_create e.kernel spec.queue_depth spec.message_size s.trace in
      let u = record s { trace = asked.1 } in
      let w =
        modify-HasRoom a n (store asked.0) u
          (record { initialised = v.initialised; room = v.room }) in
      rw (open_handed.allows r name) (rw got w)

  assign-HasRoom : (a n : ℕ) (s : System) → HasRoom n s → HasRoom n (assign_pair_id e a s)
  unfolding assign_pair_id registry_init
  assign-HasRoom a n s v = elim (Option-cases s.registry_mux) [
    | inl none_yet ↦
        rw (none_yet, assign_pair_id) (record { initialised = v.initialised; room = v.room })
    | inr (m, ready) ↦
        rw (ready, assign_pair_id) (record { initialised = v.initialised; room = v.room })
  ]

  -- What holds of the new task once its handle is stored holds after the step.
  task_step-Succeeds :
      (Q : ℕ → System → Type 0) (name : Text) (r : FailureReason) (t : TaskArgs)
      (store : ℕ → PairRuntime → PairRuntime) (n : ℕ) (s : System)
      → HasRoom (n + 1) s
      → ((i h : ℕ) (u : System) → IsCreated t i s u → Q i (modify_runtime t.runtime (store h) u))
      → Succeeds Q (task_step e name r t store s)
  unfolding task_step
  task_step-Succeeds Q name r t store n s v k =
      let (i, h, got, made) = create_task_succeeds e open_handed t n s v in
      rw (open_handed.allows r name) (rw (got, Succeeds) (k i h (create_task e t s).1 made))

  module _ (c : Checked) (a : ℕ) where
    link_client-SameEntries : (s : System) → SameEntries s (link_client e c a s)
    unfolding link_client
    link_client-SameEntries s =
        let r = runtime_at s a in
        link_entry-SameEntries r.client_index r.pair_id r.client_index r.server_index s

    link_server-SameEntries : (s : System) → SameEntries s (link_server e c a s)
    unfolding link_server
    link_server-SameEntries s =
        let r = runtime_at s a in
        link_entry-SameEntries r.server_index r.pair_id r.server_index r.client_index s

    -- The index of the new client is stored, and its entry linked.
    client_stored :
        (t : TaskArgs) (i h n : ℕ) (s u : System)
        → HasRoom (n + 1) s
        → IsCreated t i s u
        → HasClient a
            (t.name, t.wcet)
            n
            (link_client e c a
              (modify_runtime a (set_client_index i) (modify_runtime a (set_client_handle h) u)))
    unfolding modify_runtime record_monitor
    client_stored t i h n s u v made =
        let w = modify_runtime a (set_client_index i) (modify_runtime a (set_client_handle h) u) in
        SameEntries-HasClient a (t.name, t.wcet) n (link_client-SameEntries w)
          (record {
            room =
                modify-HasRoom a n (set_client_index i) _
                  (modify-HasRoom a n (set_client_handle h) u (IsCreated-HasRoom t i n s u v made));
            index = i;
            within = made.within;
            client = ground arith;
            entry = rw made.table (ground arith);
            named = rw made.table (ground arith);
          })

    server_part-Succeeds :
        (name : Text × ℕ) (n : ℕ) (s : System)
        → HasClient a name (n + 1) s
        → Succeeds (λ _. HasClient a name n) (server_part e c a s)
    unfolding server_part server_args client_args
    server_part-Succeeds name n s v =
        bind-Succeeds (λ (j : ℕ). HasClient a name n) (λ _. HasClient a name n) _ _
          (task_step-Succeeds (λ j. HasClient a name n) _ failure_server_task (server_args e c a)
            set_server_handle n s v.room
            (λ j h u made.
              modify-HasClient a n name (set_server_handle h) u (λ r. refl)
                (IsCreated-HasClient (server_args e c a) j a n name s u v made)))
          (λ j u w.
            let x = modify_runtime a (set_server_index j) u in
            SameEntries-HasClient a name n (link_server-SameEntries (link_client e c a x)) (
              SameEntries-HasClient a name n (link_client-SameEntries x)
                (modify-HasClient a n name (set_server_index j) u (λ r. refl) w)))

    weaken : {name : Text × ℕ} {n : ℕ} {s : System} → HasClient a name n s → HasClient a name 0 s
    weaken v = record {
      room = record { initialised = v.room.initialised; room = omega (arith, v.room.room) };
      index = v.index;
      within = v.within;
      client = v.client;
      entry = v.entry;
      named = v.named;
    }

    local_part-Succeeds :
        (s : System)
        → HasRoom 2 s
        → Succeeds
            (λ _. HasClient a (base_name (codes "-lc-") c.name c.core, c.client_wcet) 0)
            (local_part e c a s)
    unfolding local_part local_args client_args
    local_part-Succeeds s v =
        let name = base_name (codes "-lc-") c.name c.core in
        let label : Text × ℕ = (name, c.client_wcet) in
        bind-Succeeds
          (λ i u. HasClient a label 0 (link_client e c a (modify_runtime a (set_client_index i) u)))
          (λ _. HasClient a label 0) _ _
          (task_step-Succeeds
            (λ i u.
              HasClient a label 0 (link_client e c a (modify_runtime a (set_client_index i) u)))
            name failure_local_task (local_args e c a) set_client_handle 1
            (modify_runtime a (local_names c) s) (modify-HasRoom a 2 (local_names c) s v)
            (λ i h u made. weaken (
              client_stored (local_args e c a) i h 1 _ u (modify-HasRoom a 2 (local_names c) s v)
                made)))
          (λ i u w. w)

    -- The server is created where the pair starts local, and left out otherwise.
    server_or_none :
        (name : Text × ℕ) (s : System)
        → HasClient a name 1 s
        → Succeeds
            (λ _. HasClient a name 0)
            ((if is_local_execution c.exec_site then server_part e c a else act (λ u. u)) s)
    server_or_none name s v =
        if_cases (λ (m : Step (Unit {0})). Succeeds (λ _. HasClient a name 0) (m s))
          (is_local_execution c.exec_site) (λ here. server_part-Succeeds name 0 s v)
          (λ away. weaken v)

    non_local_part-Succeeds :
        (s : System)
        → HasRoom 2 s
        → Succeeds
            (λ _. HasClient a (base_name (codes "-cl-") c.name c.core, c.client_wcet) 0)
            (non_local_part e c a s)
    unfolding non_local_part client_args
    non_local_part-Succeeds s v =
        let name = base_name (codes "-cl-") c.name c.core in
        let label : Text × ℕ = (name, c.client_wcet) in
        bind-Succeeds
          (λ i u. HasClient a label 1 (link_client e c a (modify_runtime a (set_client_index i) u)))
          (λ _. HasClient a label 0) _ _
          (task_step-Succeeds
            (λ i u.
              HasClient a label 1 (link_client e c a (modify_runtime a (set_client_index i) u)))
            name failure_client_task (client_args e c a) set_client_handle 1
            (modify_runtime a (pair_names c) s) (modify-HasRoom a 2 (pair_names c) s v)
            (λ i h u made.
              client_stored (client_args e c a) i h 1 _ u (modify-HasRoom a 2 (pair_names c) s v)
                made))
          (λ i u w.
            server_or_none label (link_client e c a (modify_runtime a (set_client_index i) u)) w)

    either_part-Succeeds :
        (s : System)
        → HasRoom 2 s
        → Succeeds
            (λ _. HasClient a (client_label c) 0)
            ((if is_local c.app_type then local_part e c a else non_local_part e c a) s)
    either_part-Succeeds s v = elim (Bool-cases (is_local c.app_type)) [
      | inl one ↦ rw one (local_part-Succeeds s v)
      | inr two ↦ rw two (non_local_part-Succeeds s v)
    ]

    pub build_pair-Succeeds :
        (s : System)
        → HasRoom 2 s
        → Succeeds (λ _. HasClient a (client_label c) 0) (build_pair e c a s)
    unfolding build_pair
    build_pair-Succeeds s v =
        let Q = λ (x : Unit {0}) (u : System). HasClient a (client_label c) 0 u in
        bind-Succeeds (λ (x : Unit {0}). HasRoom 2) Q _ _
          (queue_step-Succeeds a 2 c.name c.spec failure_queue_client set_client_queue
            (modify_runtime a (initial_fields c) s) (modify-HasRoom a 2 (initial_fields c) s v))
          (λ x u w.
            bind-Succeeds (λ (x : Unit {0}). HasRoom 2) Q _ _
              (queue_step-Succeeds a 2 c.name c.spec failure_queue_server set_server_queue u w)
              (λ y t z. either_part-Succeeds (assign_pair_id e a t) (assign-HasRoom a 2 t z)))

-- ===== src/TaskManager/Invariant/CreatePair.antt =====
-- The task manager's invariant for `CreateEATaskPinnedToCoreEx`.
use edge_aware_tasks_rtos.Prelude.{
  ℕ, Bool, true, false, not, Option, some, if_cases, Option-cases, inl, inr, Text, is_negative,
  codes,
}
use edge_aware_tasks_rtos.Port.Rtos.{queue_create}
use edge_aware_tasks_rtos.TaskManager.Types.{
  PairRuntime, PairSpec, FailureReason, failure_queue_client, failure_queue_server,
  failure_client_task, failure_server_task, failure_local_task, cleaning,
}
use edge_aware_tasks_rtos.TaskManager.System.{Env, System, runtime_mark, reserve_pair_runtime}
use edge_aware_tasks_rtos.TaskManager.Create.{
  Attempt, done, failed, Step, and_then, ◌>>=◌, ◌>>◌, act, fail_if, TaskArgs, modify_runtime,
  runtime_at, create_task, task_step, queue_step, assign_pair_id, base_name,
}
use edge_aware_tasks_rtos.TaskManager.PairArgs.{
  PairArgs, Checked, set_client_handle, set_server_handle, set_client_index, set_server_index,
  set_client_queue, set_server_queue, drop_handles, drop_queues, pair_names, local_names,
  initial_fields, check_args,
}
use edge_aware_tasks_rtos.TaskManager.CreatePair.{
  client_args, server_args, local_args, link_client, link_server, server_part, non_local_part,
  local_part, is_local, is_local_execution, build_pair, error_cleanup, finish_attempt, finish_pair,
  create_pair_ex,
}
use edge_aware_tasks_rtos.TaskManager.Invariant.{Inv, IsLawful}
use edge_aware_tasks_rtos.TaskManager.Invariant.Reserve.{
  reserve_pair_runtime-Inv, pair_runtime_release-Inv, runtime_mark-Inv,
}
use edge_aware_tasks_rtos.TaskManager.Invariant.Destroy.{
  cleanup_task_handle-Inv, cleanup_queue_handle-Inv, clear_runtime_monitor_entries-Inv,
}
use edge_aware_tasks_rtos.TaskManager.Invariant.Create.{
  modify_runtime-InvAt, link_entry-Inv, create_task-Inv, queued-Inv, assign_pair_id-Inv,
}

-- A predicate of the state in which an attempt ends, whichever way.
abbrev pub Ends : {A : Type 0} → (System → Type 0) → Attempt A → Type 0
Ends P (done _ s) = P s
Ends P (failed _ s) = P s

-- A step keeps the invariant.
pub record Keeps {A : Type 0} (m : Step A) : Type 0 where
  pub keeps : (s : System) → Inv s → Ends Inv (m s)

bind-Ends :
    {A B : Type 0} (r : Attempt A) (f : A → Step B)
    → Ends Inv r
    → ((x : A) → Keeps (f x))
    → Ends Inv (and_then r f)
bind-Ends (done x s) f v k = (k x).keeps s v
bind-Ends (failed r s) f v k = v

bind-Keeps :
    {A B : Type 0} {m : Step A} {f : A → Step B}
    → Keeps m
    → ((x : A) → Keeps (f x))
    → Keeps (m >>= f)
bind-Keeps {m = m} {f = f} h k = record { keeps = λ s v. bind-Ends (m s) f (h.keeps s v) k }

then-Keeps : {B : Type 0} {m : Step (Unit {0})} {n : Step B} → Keeps m → Keeps n → Keeps (m >> n)
then-Keeps h k = bind-Keeps h (λ _. k)

act-Keeps : (f : System → System) → ((s : System) → Inv s → Inv (f s)) → Keeps (act f)
act-Keeps f h = record { keeps = h }

fail_if-Keeps : (b : Bool) (r : FailureReason) → Keeps (fail_if b r)
fail_if-Keeps true r = record { keeps = λ s v. v }
fail_if-Keeps false r = record { keeps = λ s v. v }

module _ (e : Env) (law : IsLawful e) where
  task_step-Keeps :
      (name : Text) (r : FailureReason) (a : TaskArgs) (store : ℕ → PairRuntime → PairRuntime)
      → Keeps (task_step e name r a store)
  unfolding task_step
  task_step-Keeps name r a store = then-Keeps (fail_if-Keeps (e.hook r name) r) (record {
    keeps = λ s v. elim (Option-cases (create_task e a s).0) [
      | inl n ↦ rw n (create_task-Inv e law a v)
      | inr (x, n) ↦ rw n (modify_runtime-InvAt a.runtime (store x.1) (create_task-Inv e law a v))
    ];
  })

  queue_step-Keeps :
      (a : ℕ) (name : Text) (spec : PairSpec) (r : FailureReason)
      (store : Option ℕ → PairRuntime → PairRuntime)
      → Keeps (queue_step e a name spec r store)
  unfolding queue_step queue_create
  queue_step-Keeps a name spec r store = then-Keeps (fail_if-Keeps (e.hook r name) r) (record {
    keeps = λ s v.
        let q = e.kernel.queue s.trace spec.queue_depth spec.message_size in
        let w =
          modify_runtime-InvAt a (store q) (queued-Inv spec.queue_depth spec.message_size q v) in
        elim (Option-cases q) [ inl n ↦ rw n w | inr (x, n) ↦ rw n w ];
  })

  module _ (c : Checked) (a : ℕ) where
    write-Keeps : (f : PairRuntime → PairRuntime) → Keeps (act (modify_runtime a f))
    write-Keeps f = act-Keeps (modify_runtime a f) (λ s v. modify_runtime-InvAt a f v)

    link_client-Keeps : Keeps (act (link_client e c a))
    unfolding link_client
    link_client-Keeps = act-Keeps (link_client e c a) λ s v.
        let r = runtime_at s a in
        link_entry-Inv r.client_index r.pair_id r.client_index r.server_index v

    link_server-Keeps : Keeps (act (link_server e c a))
    unfolding link_server
    link_server-Keeps = act-Keeps (link_server e c a) λ s v.
        let r = runtime_at s a in
        link_entry-Inv r.server_index r.pair_id r.server_index r.client_index v

    server_part-Keeps : Keeps (server_part e c a)
    unfolding server_part
    server_part-Keeps =
        bind-Keeps
          (task_step-Keeps (base_name (codes "-sv-") c.name c.core) failure_server_task
            (server_args e c a) set_server_handle)
          λ j.
            then-Keeps (write-Keeps (set_server_index j))
              (then-Keeps link_client-Keeps link_server-Keeps)

    non_local_part-Keeps : Keeps (non_local_part e c a)
    unfolding non_local_part
    non_local_part-Keeps = then-Keeps (write-Keeps (pair_names c)) (
        bind-Keeps
          (task_step-Keeps (base_name (codes "-cl-") c.name c.core) failure_client_task
            (client_args e c a) set_client_handle)
          λ i. then-Keeps (write-Keeps (set_client_index i)) (
            then-Keeps link_client-Keeps (
              if_cases Keeps (is_local_execution c.exec_site) (λ _. server_part-Keeps)
                (λ _. act-Keeps (λ s. s) (λ s v. v)))))

    local_part-Keeps : Keeps (local_part e c a)
    unfolding local_part
    local_part-Keeps = then-Keeps (write-Keeps (local_names c)) (
        bind-Keeps
          (task_step-Keeps (base_name (codes "-lc-") c.name c.core) failure_local_task
            (local_args e c a) set_client_handle)
          λ i. then-Keeps (write-Keeps (set_client_index i)) link_client-Keeps)

    build_pair-Keeps : Keeps (build_pair e c a)
    unfolding build_pair
    build_pair-Keeps = then-Keeps (write-Keeps (initial_fields c)) (
        then-Keeps (queue_step-Keeps a c.name c.spec failure_queue_client set_client_queue) (
          then-Keeps (queue_step-Keeps a c.name c.spec failure_queue_server set_server_queue) (
            then-Keeps (act-Keeps (assign_pair_id e a) (λ s v. assign_pair_id-Inv e law a v)) (
              if_cases Keeps (is_local c.app_type) (λ _. local_part-Keeps)
                (λ _. non_local_part-Keeps)))))

    error_cleanup-Inv : {s : System} → Inv s → Inv (error_cleanup e c a s)
    unfolding error_cleanup
    error_cleanup-Inv {s} v =
        let s1 = runtime_mark e.kernel cleaning (some a) s in
        let r = runtime_at s1 a in
        let v1 = runtime_mark-Inv e.kernel cleaning (some a) v in
        let v2 = modify_runtime-InvAt a drop_handles (
          cleanup_task_handle-Inv r.handler_client (cleanup_task_handle-Inv r.handler_server v1)) in
        let v3 = modify_runtime-InvAt a drop_queues (
          cleanup_queue_handle-Inv r.queue_server_client
            (cleanup_queue_handle-Inv r.queue_client_server v2)) in
        pair_runtime_release-Inv e.kernel (some a) (
          clear_runtime_monitor_entries-Inv r.client_index r.server_index
            (not (is_negative r.server_index)) v3)

    finish_pair-Inv : {s : System} → Inv s → Inv (finish_pair e c a s).1
    unfolding finish_pair
    finish_pair-Inv {s} v = finished (build_pair e c a s) (build_pair-Keeps.keeps s v)
      where
        finished : (r : Attempt (Unit {0})) → Ends Inv r → Inv (finish_attempt e c a r).1
        finished (done _ u) w = w
        finished (failed why u) w = error_cleanup-Inv w

  -- Creating a pair keeps the task manager's invariant on every path, success, refusal and each
  -- clean-up, if the allocator returns no live block and the other tasks keep the task counter.
  pub create_pair_ex-Inv : (p : PairArgs) {s : System} → Inv s → Inv (create_pair_ex e p s).1
  unfolding create_pair_ex
  create_pair_ex-Inv p {s} v = elim (Option-cases (check_args p)) [
    | inl bad ↦ rw (bad, create_pair_ex) v
    | inr (c, good) ↦
        let w = reserve_pair_runtime-Inv e law v in
        elim (Option-cases (reserve_pair_runtime e.kernel s).0) [
          | inl full ↦ rw (good, create_pair_ex) (rw full w)
          | inr (a, got) ↦ rw (good, create_pair_ex) (rw got (finish_pair-Inv c a w))
        ]
  ]

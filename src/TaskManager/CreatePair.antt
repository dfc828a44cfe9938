-- ===== src/TaskManager/CreatePair.antt =====
-- `CreateEATaskPinnedToCoreEx` of task_manager.c, and the functions that call it.
pub mod Cleanup
pub mod Room
pub mod Progress
pub mod Success
pub mod Linked
pub mod Answers
use edge_aware_tasks_rtos.Prelude.{
  ℕ, ℤ, pos, minus_one, Bool, true, false, not, Option, none, some, [], codes, is_negative,
  if◌then◌else◌,
}
use edge_aware_tasks_rtos.TaskManager.Types.{
  TaskType, local, client_segment, server_segment, unique_segment, ExecutionSite, local_execution,
  client_role, local_role, TaskSpec, CreationResult, FailureReason, failure_none,
  failure_invalid_spec, failure_runtime_slot, failure_queue_client, failure_queue_server,
  failure_client_task, failure_server_task, failure_local_task, cleaning,
}
use edge_aware_tasks_rtos.TaskManager.Spec.{
  label_or_default, spec_validate, spec_resolve_deadline_ms,
}
use edge_aware_tasks_rtos.TaskManager.Table.{clip}
use edge_aware_tasks_rtos.TaskManager.PairArgs.{
  PairArgs, Checked, check_args, host_or, set_client_handle, set_server_handle, set_client_index,
  set_server_index, set_client_queue, set_server_queue, drop_handles, drop_queues,
}
use edge_aware_tasks_rtos.TaskManager.System.{
  Env, System, reserve_pair_runtime, pair_runtime_release, runtime_mark,
}
use edge_aware_tasks_rtos.TaskManager.Destroy.{
  cleanup_task_handle, cleanup_queue_handle, clear_runtime_monitor_entries,
}
use edge_aware_tasks_rtos.TaskManager.Create.{
  ◌>>=◌, ◌>>◌, Attempt, done, failed, Step, act, TaskArgs, runtime_at, modify_runtime, task_step,
  queue_step, assign_pair_id, link_entry, base_name,
}

unfoldable pub is_local_execution : ExecutionSite → Bool
is_local_execution local_execution = true
is_local_execution _ = false

unfoldable pub is_local : TaskType → Bool
is_local local = true
is_local _ = false

module _ (e : Env) (c : Checked) (a : ℕ) where
  unfoldable pub client_args : TaskArgs
  client_args = record {
    code = c.client_fn;
    name = base_name (codes "-cl-") c.name c.core;
    stack = c.client_stack;
    runtime = a;
    priority = c.priority;
    core = c.core;
    segment = client_segment;
    deadline_ms = c.deadline_ms;
    delay_weight = c.delay_weight;
    energy_weight = c.energy_weight;
    host = c.host;
    exec_site = c.exec_site;
    period = c.period;
    wcet = c.client_wcet;
  }

  unfoldable pub server_args : TaskArgs
  unfolding client_args
  server_args = record client_args {
    code = c.server_fn;
    name = base_name (codes "-sv-") c.name c.core;
    stack = c.server_stack;
    segment = server_segment;
    wcet = c.server_wcet;
  }

  unfoldable pub local_args : TaskArgs
  unfolding client_args
  local_args = record client_args {
    name = base_name (codes "-lc-") c.name c.core;
    segment = unique_segment;
    host = some (codes "0.0.0.0");
    exec_site = local_execution;
  }

  -- Links an entry with the indices that stand in the runtime.
  unfoldable pub link_client : System → System
  unfolding link_entry
  link_client s =
      let r = runtime_at s a in link_entry r.client_index r.pair_id r.client_index r.server_index s

  unfoldable pub link_server : System → System
  unfolding link_entry
  link_server s =
      let r = runtime_at s a in link_entry r.server_index r.pair_id r.server_index r.client_index s

  unfoldable pub server_part : Step (Unit {0})
  unfolding server_args link_client link_server task_step modify_runtime
  server_part = do
    j ←
        task_step e (base_name (codes "-sv-") c.name c.core) failure_server_task server_args
          set_server_handle
    act (modify_runtime a (set_server_index j))
    act link_client
    act link_server

  unfoldable pub non_local_part : Step (Unit {0})
  unfolding server_part client_args link_client task_step modify_runtime is_local_execution
  non_local_part = do
    act (
        modify_runtime a λ r. record r {
          client_name = clip (base_name (codes "-cl-") c.name c.core);
          server_name = clip (base_name (codes "-sv-") c.name c.core);
          role = client_role;
        })
    i ←
        task_step e (base_name (codes "-cl-") c.name c.core) failure_client_task client_args
          set_client_handle
    act (modify_runtime a (set_client_index i))
    act link_client
    if is_local_execution c.exec_site then server_part else act (λ s. s)

  unfoldable pub local_part : Step (Unit {0})
  unfolding local_args link_client task_step modify_runtime
  local_part = do
    act (
        modify_runtime a λ r. record r {
          client_name = clip (base_name (codes "-lc-") c.name c.core);
          server_name = [];
          role = local_role;
        })
    i ←
        task_step e (base_name (codes "-lc-") c.name c.core) failure_local_task local_args
          set_client_handle
    act (modify_runtime a (set_client_index i))
    act link_client

  -- From the reserved slot to the result, or to a failure that the caller cleans up.
  unfoldable pub build_pair : Step (Unit {0})
  unfolding queue_step assign_pair_id non_local_part local_part modify_runtime is_local
  build_pair = do
    act (
        modify_runtime a λ r. record r {
          client_index = minus_one;
          server_index = minus_one;
          local_host_label = host_or c.host r.local_host_label;
          role = local_role;
        })
    queue_step e a c.name c.spec failure_queue_client set_client_queue
    queue_step e a c.name c.spec failure_queue_server set_server_queue
    act (assign_pair_id e a)
    if is_local c.app_type then local_part else non_local_part

  -- The label `error_cleanup`.
  unfoldable pub error_cleanup : System → System
  unfolding runtime_mark cleanup_task_handle cleanup_queue_handle clear_runtime_monitor_entries
      pair_runtime_release modify_runtime
  error_cleanup s0 =
      let s1 = runtime_mark e.kernel cleaning (some a) s0 in
      let r = runtime_at s1 a in
      let s2 =
        modify_runtime a drop_handles
          (cleanup_task_handle r.handler_client (cleanup_task_handle r.handler_server s1)) in
      let s3 = modify_runtime a drop_queues (
        cleanup_queue_handle r.queue_server_client
          (cleanup_queue_handle r.queue_client_server s2)) in
      let s4 =
        clear_runtime_monitor_entries r.client_index r.server_index
          (not (is_negative r.server_index)) s3 in
      pair_runtime_release e.kernel (some a) s4

abbrev pub creation_failed : FailureReason → CreationResult
creation_failed r = record { task_index = minus_one; failure_reason = r }

module _ (e : Env) where
  -- The result of an attempt, or the clean-up.
  unfoldable pub finish_attempt : Checked → ℕ → Attempt (Unit {0}) → CreationResult × System
  unfolding error_cleanup
  finish_attempt c a (done _ u) =
      (record { task_index = (runtime_at u a).client_index; failure_reason = failure_none }, u)
  finish_attempt c a (failed r u) = (creation_failed r, error_cleanup e c a u)

  unfoldable pub finish_pair : Checked → ℕ → System → CreationResult × System
  unfolding build_pair finish_attempt
  finish_pair c a s = finish_attempt c a (build_pair e c a s)

  unfoldable pub create_pair_ex : PairArgs → System → CreationResult × System
  unfolding check_args reserve_pair_runtime finish_pair
  create_pair_ex p s = elim (check_args p) [
    | none ↦ (creation_failed failure_invalid_spec, s)
    | some c ↦
        let (slot, u) = reserve_pair_runtime e.kernel s in
        elim slot [ none ↦ (creation_failed failure_runtime_slot, u) | some a ↦ finish_pair c a u ]
  ]

  abbrev is_failure_none : FailureReason → Bool
  is_failure_none failure_none = true
  is_failure_none _ = false

  abbrev exit_code : CreationResult → ℤ
  exit_code r = if is_failure_none r.failure_reason then pos 0 else minus_one

  unfoldable pub create_pair : PairArgs → System → ℤ × System
  unfolding create_pair_ex
  create_pair p s = let (r, u) = create_pair_ex p s in (exit_code r, u)

  abbrev pub args_of_spec : TaskSpec → PairArgs
  args_of_spec s = record {
    task_name = s.task_name;
    priority = s.priority;
    client_code = s.client_task_code;
    server_code = s.server_task_code;
    client_stack = s.client_stack_depth;
    server_stack = s.server_stack_depth;
    core = s.core_id;
    app_type = s.app_type;
    deadline_ms = spec_resolve_deadline_ms (some s);
    delay_weight = s.delay_weight;
    energy_weight = s.energy_weight;
    exec_site = s.default_execution_site;
    pair_spec = some s.pair_spec;
    host = label_or_default s.local_host_label;
    period = s.period_ms;
    client_wcet = s.client_wcet;
    server_wcet = s.server_wcet;
  }

  -- `edge_task_create_from_spec_impl`, which `CreateEATaskFromSpecEx` calls.
  unfoldable pub create_from_spec_ex : Option TaskSpec → System → CreationResult × System
  unfolding spec_validate spec_resolve_deadline_ms create_pair_ex
  create_from_spec_ex none s = (creation_failed failure_invalid_spec, s)
  create_from_spec_ex (some spec) s =
      if spec_validate (some spec)
      then create_pair_ex (args_of_spec spec) s
      else (creation_failed failure_invalid_spec, s)

  unfoldable pub create_from_spec : Option TaskSpec → System → ℤ × System
  unfolding create_from_spec_ex
  create_from_spec spec s = let (r, u) = create_from_spec_ex spec s in (exit_code r, u)

-- ===== src/TaskManager/Pair.antt =====
-- The accessors and setters of a task pair in task_manager.c. A `runtime` pointer is the address
-- of its slot, none for NULL.
use edge_aware_tasks_rtos.Prelude.{
  ℕ, ℤ, minus_one, Bool, false, ◌||◌, Option, none, some, Text, TextPtr, is_label, is_some,
  if◌then◌else◌,
}
use edge_aware_tasks_rtos.Port.Kernel.{Kernel}
use edge_aware_tasks_rtos.TaskManager.Types.{ExecutionSite, PairRuntime, PairRole, local_role, Cold}
use edge_aware_tasks_rtos.TaskManager.Table.{clip, monitor_index_valid}
use edge_aware_tasks_rtos.TaskManager.Registry.{Registry, runtime_from_task_index, set_runtime}
use edge_aware_tasks_rtos.TaskManager.System.{System, on_table, on_registry, registry_init}
use edge_aware_tasks_rtos.TaskManager.Access.{change_cold}

-- `runtime ? runtime->field : d`
abbrev pub read_pair {ℓ} : {A : Type ℓ} → A → (PairRuntime → A) → Option ℕ → System → A
read_pair d f none s = d
read_pair d f (some a) s = f (s.registry.slot a).runtime

unfoldable pub pair_queue_client_to_server : Option ℕ → System → Option ℕ
pair_queue_client_to_server = read_pair none (λ r. r.queue_client_server)

unfoldable pub pair_queue_server_to_client : Option ℕ → System → Option ℕ
pair_queue_server_to_client = read_pair none (λ r. r.queue_server_client)

unfoldable pub pair_client_handle : Option ℕ → System → Option ℕ
pair_client_handle = read_pair none (λ r. r.handler_client)

unfoldable pub pair_server_handle : Option ℕ → System → Option ℕ
pair_server_handle = read_pair none (λ r. r.handler_server)

unfoldable pub pair_client_name : Option ℕ → System → TextPtr
pair_client_name = read_pair none (λ r. some r.client_name)

unfoldable pub pair_server_name : Option ℕ → System → TextPtr
pair_server_name = read_pair none (λ r. some r.server_name)

unfoldable pub pair_local_host_label : Option ℕ → System → TextPtr
pair_local_host_label = read_pair none (λ r. some r.local_host_label)

unfoldable pub pair_host_name : Option ℕ → System → TextPtr
unfolding pair_local_host_label
pair_host_name = pair_local_host_label

unfoldable pub pair_role : Option ℕ → System → PairRole
pair_role = read_pair local_role (λ r. r.role)

unfoldable pub pair_id : Option ℕ → System → ℕ
pair_id = read_pair 0 (λ r. r.pair_id)

unfoldable pub pair_task_index : Option ℕ → System → ℤ
pair_task_index = read_pair minus_one (λ r. r.client_index)

unfoldable pub pair_peer_index : Option ℕ → System → ℤ
pair_peer_index = read_pair minus_one (λ r. r.server_index)

abbrev pub set_cold_label : Text → Cold → Cold
set_cold_label host c = record c { local_host_label = clip host }

-- `update_monitor_local_host_label_locked`
unfoldable pub update_monitor_local_host_label : ℤ → TextPtr → System → Bool × System
unfolding on_table change_cold monitor_index_valid
update_monitor_local_host_label i none s = (false, s)
update_monitor_local_host_label i (some host) s =
    if is_label (some host)
    then (monitor_index_valid i s.table, on_table (change_cold (set_cold_label host) i) s)
    else (false, s)

-- `update_monitor_exec_site_locked`
unfoldable pub update_monitor_exec_site : ℤ → ExecutionSite → System → Bool × System
unfolding on_table change_cold monitor_index_valid
update_monitor_exec_site i site s =
    (monitor_index_valid i s.table, on_table (change_cold (λ c. record c { exec_site = site }) i) s)

unfoldable pub pair_set_exec_site_by_index : ℤ → ExecutionSite → System → Bool × System
unfolding update_monitor_exec_site
pair_set_exec_site_by_index = update_monitor_exec_site

abbrev pub relabelled : Registry → ℕ → Text → PairRuntime
relabelled r a host = record ((r.slot a).runtime) { local_host_label = clip host }

-- Writes the label of the runtime that owns the index, if there is one.
unfoldable pub label_runtime : ℤ → Text → Registry → Registry
unfolding runtime_from_task_index set_runtime
label_runtime i host r = elim (runtime_from_task_index i r) [
  | none ↦ r
  | some a ↦ set_runtime a (relabelled r a host) r
]

module _ (k : Kernel) where
  unfoldable pub pair_set_local_host_label_by_index : ℤ → TextPtr → System → Bool × System
  unfolding update_monitor_local_host_label registry_init on_registry label_runtime
      runtime_from_task_index
  pair_set_local_host_label_by_index i none s = update_monitor_local_host_label i none s
  pair_set_local_host_label_by_index i (some host) s =
      let (updated, u) = update_monitor_local_host_label i (some host) s in
      if is_label (some host)
      then (let v = registry_init k u in
          (
            is_some (runtime_from_task_index i v.registry) || updated,
            on_registry (label_runtime i host) v,
          ))
      else (false, u)

  unfoldable pub pair_set_host_by_index : ℤ → TextPtr → System → Bool × System
  unfolding pair_set_local_host_label_by_index
  pair_set_host_by_index = pair_set_local_host_label_by_index

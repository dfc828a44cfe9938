-- ===== src/TaskManager/Types.antt =====
-- The enums and structs of components/EEAA/include/core/task_manager.h. An enum that the source
-- inspects with a `default` has a constructor for the values that it does not name.
use edge_aware_tasks_rtos.Prelude.{ℕ, ℤ, Bool, Option, Text, TextPtr}

-- `edge_task_type_t` with LOCAL = 0
pub data TaskType : Type 0 where
  local enriched remote : TaskType

-- `edge_task_segment_t`
pub data Segment : Type 0 where
  client_segment server_segment unique_segment : Segment

-- `edge_task_execution_site_t`
pub data ExecutionSite : Type 0 where
  local_execution remote_execution : ExecutionSite
  unnamed_site : ℕ → ExecutionSite

-- `edge_task_signal_t` by its value, which `get_task_signal` returns.
pub data Signal : Type 0 where
  signal_wait signal_suspend signal_switch : Signal

-- `edge_task_pair_role_t`
pub data PairRole : Type 0 where
  client_role server_role local_role : PairRole

-- `edge_task_cleanup_mode_t`
pub data CleanupMode : Type 0 where
  cleanup_client_only cleanup_pair : CleanupMode

-- `edge_task_creation_failure_reason_t`
pub data FailureReason : Type 0 where
  failure_none failure_invalid_spec failure_runtime_slot failure_queue_client failure_queue_server
        failure_client_task failure_server_task failure_local_task :
      FailureReason
  unnamed_reason : ℕ → FailureReason

-- `edge_runtime_lifecycle_t`
pub data Lifecycle : Type 0 where
  ready cleaning retired : Lifecycle

-- `edge_task_monitor_sample_t`
pub record MonitorSample : Type 0 where
  pub start_tick : ℕ
  pub start_cycles : ℕ

-- `edge_task_monitor_hot_t`
pub record Hot : Type 0 where
  pub pair_id : ℕ
  pub task_index : ℤ
  pub peer_index : ℤ
  pub cpu_cycles : ℕ
  pub data_size : ℕ
  pub start_tick : ℕ
  pub end_tick : ℕ
  pub oe2el : ℕ
  pub signal_request : Signal
  pub core : ℕ
  pub is_active : Bool

-- `edge_task_monitor_cold_t`
pub record Cold : Type 0 where
  pub name : Text
  pub local_host_label : Text
  pub pair_id : ℕ
  pub task_index : ℤ
  pub peer_index : ℤ
  pub period : ℕ
  pub deadline_ms : ℕ
  pub wcet : ℕ
  pub exec_site : ExecutionSite
  pub delay_weight : ℕ
  pub energy_weight : ℕ

-- `task_snapshot_t`
pub record Snapshot : Type 0 where
  pub name : Text
  pub cpu_cycles : ℕ
  pub period : ℕ
  pub wcet : ℕ
  pub oe2el : ℕ
  pub valid : Bool

-- `edge_task_pair_spec_t`
pub record PairSpec : Type 0 where
  pub queue_depth : ℕ
  pub message_size : ℕ

-- `edge_task_spec_t`; a task function is its address.
pub record TaskSpec : Type 0 where
  pub task_name : TextPtr
  pub priority : ℕ
  pub client_task_code : Option ℕ
  pub server_task_code : Option ℕ
  pub client_stack_depth : ℕ
  pub server_stack_depth : ℕ
  pub core_id : ℕ
  pub app_type : TaskType
  pub default_execution_site : ExecutionSite
  pub pair_spec : PairSpec
  pub local_host_label : TextPtr
  pub period_ms : ℕ
  pub deadline_ms : ℕ
  pub delay_weight : ℕ
  pub energy_weight : ℕ
  pub client_wcet : ℕ
  pub server_wcet : ℕ

-- `struct edge_task_pair_runtime`
pub record PairRuntime : Type 0 where
  pub queue_client_server : Option ℕ
  pub queue_server_client : Option ℕ
  pub handler_server : Option ℕ
  pub handler_client : Option ℕ
  pub pair_id : ℕ
  pub client_index : ℤ
  pub server_index : ℤ
  pub lifecycle : Lifecycle
  pub client_name : Text
  pub server_name : Text
  pub local_host_label : Text
  pub role : PairRole

-- `edge_task_creation_result_t`
pub record CreationResult : Type 0 where
  pub task_index : ℤ
  pub failure_reason : FailureReason

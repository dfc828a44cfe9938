-- ===== src/Offloader/Types.antt =====
-- The enums and structs of components/EEAA/include/core/offloader_types.h, offloader_policy.h and
-- offloader.h. Arrays of candidates and of results go with a count, as in the source.
use edge_aware_tasks_rtos.Prelude.{
  ℕ, ℤ, pos, Bool, false, Option, none, Array, Text, TextPtr, codes,
}
use edge_aware_tasks_rtos.TaskManager.Types.{Snapshot}

-- `edge_offloader_route_t`
pub data Route : Type 0 where
  route_local route_remote : Route
  unnamed_route : ℕ → Route

-- `edge_offloader_event_type_t`
pub data EventType : Type 0 where
  event_route_local event_route_remote event_policy_rejected event_invalid_vector
        event_mutation_failed :
      EventType
  unnamed_event : ℕ → EventType

-- `edge_offloader_mode_t`
pub data Mode : Type 0 where
  mode_per_task mode_batch : Mode

-- `edge_offloader_scheduler_policy_t`
pub data Scheduler : Type 0 where
  scheduler_fp scheduler_rm scheduler_edf scheduler_custom : Scheduler
  unnamed_scheduler : ℕ → Scheduler

-- `edge_offloader_policy_status_t`
pub data PolicyStatus : Type 0 where
  status_ok status_invalid_input status_unsupported_model status_insufficient_capacity
        status_unsafe_plan status_invalid_vector :
      PolicyStatus
  unnamed_status : ℕ → PolicyStatus

-- `edge_offloader_config_t`
pub record Config : Type 0 where
  pub enabled : Bool
  pub mode : Mode
  pub scheduler : Scheduler
  pub control_period_ms : ℕ
  pub local_host_label : TextPtr
  pub remote_host_label : TextPtr

-- `edge_offloader_candidate_t`; the runtime is a slot address.
pub record Candidate : Type 0 where
  pub task_index : ℤ
  pub pair_id : ℕ
  pub snapshot : Snapshot
  pub runtime : Option ℕ

-- `edge_offloader_result_t`
pub record RouteResult : Type 0 where
  pub task_index : ℤ
  pub route : Route

-- `edge_offloader_policy_context_t`
pub record PolicyContext : Type 0 where
  pub config : Config
  pub scheduler : Scheduler
  pub mode : Mode

-- What `evaluate` returns and leaves behind its pointers.
pub record Evaluation : Type 0 where
  pub accepted : Bool
  pub result : Option RouteResult
  pub status : Option PolicyStatus

-- What `plan` returns and leaves behind its pointers.
pub record Planning : Type 0 where
  pub accepted : Bool
  pub results : Option (Array RouteResult)
  pub written : Option ℕ
  pub status : Option PolicyStatus

abbrev pub EvalFn : Type 0
EvalFn = PolicyContext → Option Candidate → Option RouteResult → Option PolicyStatus → Evaluation

abbrev pub PlanFn : Type 0
PlanFn =
    PolicyContext
    → Option (Array Candidate)
    → (candidate_count : ℕ) → Option (Array RouteResult)
    → (results_capacity : ℕ) → (results_written : Option ℕ) → Option PolicyStatus
    → Planning

-- `struct edge_offloader_policy`: a policy's functions have no effect but through their pointers.
pub record Policy : Type 0 where
  pub name : TextPtr
  pub scheduler : Scheduler
  pub evaluate : Option EvalFn
  pub plan : Option PlanFn

-- `edge_offloader_event_t`
pub record Event : Type 0 where
  pub sequence : ℕ
  pub task_index : ℤ
  pub route : Route
  pub event_type : EventType
  pub policy_status : PolicyStatus

-- `edge_offloader_observability_t`
pub record Observability : Type 0 where
  pub total_events : ℕ
  pub route_change_events : ℕ
  pub failure_events : ℕ
  pub local_route_events : ℕ
  pub remote_route_events : ℕ
  pub has_last_event : Bool
  pub last_event : Event

abbrev pub zero_config : Config
zero_config = record {
  enabled = false;
  mode = mode_per_task;
  scheduler = scheduler_fp;
  control_period_ms = 0;
  local_host_label = none;
  remote_host_label = none;
}

abbrev pub zero_policy : Policy
zero_policy = record { name = none; scheduler = scheduler_fp; evaluate = none; plan = none }

abbrev pub zero_result : RouteResult
zero_result = record { task_index = pos 0; route = route_local }

abbrev pub zero_event : Event
zero_event = record {
  sequence = 0;
  task_index = pos 0;
  route = route_local;
  event_type = event_route_local;
  policy_status = status_ok;
}

unfoldable pub event_type_to_string : EventType → Text
event_type_to_string event_route_local = codes "route-local"
event_type_to_string event_route_remote = codes "route-remote"
event_type_to_string event_policy_rejected = codes "policy-rejected"
event_type_to_string event_invalid_vector = codes "invalid-vector"
event_type_to_string event_mutation_failed = codes "mutation-failed"
event_type_to_string (unnamed_event _) = codes "unknown"

unfoldable pub policy_status_to_string : PolicyStatus → Text
policy_status_to_string status_ok = codes "ok"
policy_status_to_string status_invalid_input = codes "invalid-input"
policy_status_to_string status_unsupported_model = codes "unsupported-model"
policy_status_to_string status_insufficient_capacity = codes "insufficient-capacity"
policy_status_to_string status_unsafe_plan = codes "unsafe-plan"
policy_status_to_string status_invalid_vector = codes "invalid-vector"
policy_status_to_string (unnamed_status _) = codes "unknown"

unfoldable pub scheduler_to_string : Scheduler → Text
scheduler_to_string scheduler_fp = codes "fixed-priority"
scheduler_to_string scheduler_rm = codes "rate-monotonic"
scheduler_to_string scheduler_edf = codes "edf"
scheduler_to_string scheduler_custom = codes "custom"
scheduler_to_string (unnamed_scheduler _) = codes "unknown"

-- ===== src/TaskManager/Spec.antt =====
-- Task specifications: defaults, initialisers, setters and validation (task_manager.c, the
-- `edge_task_spec_*` functions). A NULL specification is `none`; a setter leaves it alone.
pub mod Validity
use edge_aware_tasks_rtos.Prelude.{
  ℕ, Bool, true, false, not, ◌||◌, Option, none, some, Text, TextPtr, codes, is_label, is_some,
  ◌==◌, if◌then◌else◌,
}
use edge_aware_tasks_rtos.Port.Rtos.{no_affinity}
use edge_aware_tasks_rtos.TaskManager.Types.{
  TaskType, local, enriched, local_execution, PairSpec, TaskSpec, FailureReason, failure_none,
  failure_invalid_spec, failure_runtime_slot, failure_queue_client, failure_queue_server,
  failure_client_task, failure_server_task, failure_local_task, unnamed_reason,
}

abbrev pub default_label : Text
default_label = codes "LOCAL_RUNTIME"

-- `sizeof(int)` on the target
abbrev pub sizeof_int : ℕ
sizeof_int = 4

-- What `edge_task_spec_set_defaults` writes; it overwrites every field.
unfoldable pub default_spec : TaskSpec
default_spec = record {
  task_name = none;
  priority = 1;
  client_task_code = none;
  server_task_code = none;
  client_stack_depth = 0;
  server_stack_depth = 0;
  core_id = no_affinity;
  app_type = local;
  default_execution_site = local_execution;
  pair_spec = record { queue_depth = 1; message_size = sizeof_int };
  local_host_label = some default_label;
  period_ms = 0;
  deadline_ms = 0;
  delay_weight = 0;
  energy_weight = 0;
  client_wcet = 0;
  server_wcet = 0;
}

unfoldable pub spec_init : Option TaskSpec → Option TaskSpec
unfolding default_spec
spec_init none = none
spec_init (some _) = some default_spec

-- `if (spec != NULL) …`
abbrev pub change : (TaskSpec → TaskSpec) → Option TaskSpec → Option TaskSpec
change f none = none
change f (some s) = some (f s)

abbrev choose_pair_spec : Option PairSpec → PairSpec → PairSpec
choose_pair_spec none d = d
choose_pair_spec (some p) d = p

module _ (task_name : TextPtr) where
  spec_init_common :
      (client_code server_code : Option ℕ) (client_stack server_stack period_ms : ℕ)
      → Option PairSpec
      → TaskType
      → Option TaskSpec
      → Option TaskSpec
  unfolding spec_init
  spec_init_common client_code server_code client_stack server_stack period_ms pair_spec app_type
        s =
      change
        (λ d. record d {
          task_name = task_name;
          client_task_code = client_code;
          server_task_code = server_code;
          client_stack_depth = client_stack;
          server_stack_depth = server_stack;
          period_ms = period_ms;
          app_type = app_type;
          default_execution_site = local_execution;
          deadline_ms = period_ms;
          pair_spec = choose_pair_spec pair_spec d.pair_spec;
        })
        (spec_init s)

  unfoldable pub spec_init_enriched :
      (client_code server_code : Option ℕ) (client_stack server_stack period_ms : ℕ)
      → Option PairSpec
      → Option TaskSpec
      → Option TaskSpec
  unfolding spec_init_common
  spec_init_enriched client_code server_code client_stack server_stack period_ms pair_spec =
      spec_init_common client_code server_code client_stack server_stack period_ms pair_spec
        enriched

  unfoldable pub spec_init_local :
      (code : Option ℕ) (stack period_ms : ℕ) → Option PairSpec → Option TaskSpec → Option TaskSpec
  unfolding spec_init_common
  spec_init_local code stack period_ms pair_spec =
      spec_init_common code code stack stack period_ms pair_spec local

unfoldable pub spec_set_priority : ℕ → Option TaskSpec → Option TaskSpec
spec_set_priority p = change (λ s. record s { priority = p })

unfoldable pub spec_set_core_id : ℕ → Option TaskSpec → Option TaskSpec
spec_set_core_id c = change (λ s. record s { core_id = c })

-- The label itself if it is one, else the default.
abbrev pub label_or_default : TextPtr → TextPtr
label_or_default l = if is_label l then l else some default_label

unfoldable pub spec_set_local_host_label : TextPtr → Option TaskSpec → Option TaskSpec
spec_set_local_host_label l = change (λ s. record s { local_host_label = label_or_default l })

unfoldable pub spec_set_deadline_ms : ℕ → Option TaskSpec → Option TaskSpec
spec_set_deadline_ms d = change (λ s. record s { deadline_ms = d })

unfoldable pub spec_set_wcet : (client server : ℕ) → Option TaskSpec → Option TaskSpec
spec_set_wcet c v = change (λ s. record s { client_wcet = c; server_wcet = v })

unfoldable pub spec_set_execution_site_local : Option TaskSpec → Option TaskSpec
spec_set_execution_site_local = change (λ s. record s { default_execution_site = local_execution })

-- The early returns of `edge_task_spec_is_valid`, in order.
spec_fields_valid : TaskSpec → Bool
spec_fields_valid s =
    if not (is_label s.task_name)
    then false
    else if not (is_some s.client_task_code) || not (is_some s.server_task_code)
    then false
    else if s.client_stack_depth == 0 || s.server_stack_depth == 0
    then false
    else if s.pair_spec.queue_depth == 0 || s.pair_spec.message_size == 0
    then false
    else if s.period_ms == 0
    then false
    else true

unfoldable pub spec_validate : Option TaskSpec → Bool
unfolding spec_fields_valid
spec_validate none = false
spec_validate (some s) = spec_fields_valid s

unfoldable pub spec_resolve_deadline_ms : Option TaskSpec → ℕ
spec_resolve_deadline_ms none = 0
spec_resolve_deadline_ms (some s) = if s.deadline_ms == 0 then s.period_ms else s.deadline_ms

unfoldable pub failure_reason_to_string : FailureReason → Text
failure_reason_to_string failure_none = codes "none"
failure_reason_to_string failure_invalid_spec = codes "invalid-spec"
failure_reason_to_string failure_runtime_slot = codes "runtime-slot"
failure_reason_to_string failure_queue_client = codes "queue-client"
failure_reason_to_string failure_queue_server = codes "queue-server"
failure_reason_to_string failure_client_task = codes "client-task"
failure_reason_to_string failure_server_task = codes "server-task"
failure_reason_to_string failure_local_task = codes "local-task"
failure_reason_to_string (unnamed_reason _) = codes "unknown"

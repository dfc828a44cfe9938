-- ===== src/TaskManager/PairArgs.antt =====
-- The arguments of `CreateEATaskPinnedToCoreEx`, its first tests, and the fields of a runtime that its
-- steps write.
use edge_aware_tasks_rtos.Prelude.{
  ℕ, pos, minus_one, ◌||◌, Option, none, some, [], Text, TextPtr, codes, ◌==◌, if◌then◌else◌,
}
use edge_aware_tasks_rtos.TaskManager.Types.{
  TaskType, ExecutionSite, PairRuntime, client_role, local_role, PairSpec,
}
use edge_aware_tasks_rtos.TaskManager.Table.{clip}
use edge_aware_tasks_rtos.TaskManager.Create.{base_name}

-- The parameters of `CreateEATaskPinnedToCoreEx`.
pub record PairArgs : Type 0 where
  pub task_name : TextPtr
  pub priority : ℕ
  pub client_code : Option ℕ
  pub server_code : Option ℕ
  pub client_stack : ℕ
  pub server_stack : ℕ
  pub core : ℕ
  pub app_type : TaskType
  pub deadline_ms : ℕ
  pub delay_weight : ℕ
  pub energy_weight : ℕ
  pub exec_site : ExecutionSite
  pub pair_spec : Option PairSpec
  pub host : TextPtr
  pub period : ℕ
  pub client_wcet : ℕ
  pub server_wcet : ℕ

-- The parameters after the NULL tests.
pub record Checked : Type 0 where
  pub args : PairArgs
  pub open args use *
  pub name : Text
  pub client_fn : ℕ
  pub server_fn : ℕ
  pub spec : PairSpec

check_pointers : PairArgs → TextPtr → Option ℕ → Option ℕ → Option PairSpec → Option Checked
check_pointers p (some n) (some c) (some v) (some spec) =
    some (record { args = p; name = n; client_fn = c; server_fn = v; spec = spec })
check_pointers p _ _ _ _ = none

unfoldable pub check_args : PairArgs → Option Checked
unfolding check_pointers
check_args p = elim (check_pointers p p.task_name p.client_code p.server_code p.pair_spec) [
  | none ↦ none
  | some c ↦ if c.spec.queue_depth == 0 || c.spec.message_size == 0 then none else some c
]

abbrev pub host_or : TextPtr → Text → Text
host_or none old = old
host_or (some h) old = clip h

-- The fields of the runtime that each step writes.
abbrev pub set_client_handle : ℕ → PairRuntime → PairRuntime
set_client_handle h r = record r { handler_client = some h }

abbrev pub set_server_handle : ℕ → PairRuntime → PairRuntime
set_server_handle h r = record r { handler_server = some h }

abbrev pub set_client_index : ℕ → PairRuntime → PairRuntime
set_client_index i r = record r { client_index = pos i }

abbrev pub set_server_index : ℕ → PairRuntime → PairRuntime
set_server_index i r = record r { server_index = pos i }

abbrev pub set_client_queue : Option ℕ → PairRuntime → PairRuntime
set_client_queue q r = record r { queue_client_server = q }

abbrev pub set_server_queue : Option ℕ → PairRuntime → PairRuntime
set_server_queue q r = record r { queue_server_client = q }

abbrev pub drop_handles : PairRuntime → PairRuntime
drop_handles r = record r { handler_server = none; handler_client = none }

abbrev pub drop_queues : PairRuntime → PairRuntime
drop_queues r = record r { queue_client_server = none; queue_server_client = none }

abbrev pub pair_names : Checked → PairRuntime → PairRuntime
pair_names c r = record r {
  client_name = clip (base_name (codes "-cl-") c.name c.core);
  server_name = clip (base_name (codes "-sv-") c.name c.core);
  role = client_role;
}

abbrev pub local_names : Checked → PairRuntime → PairRuntime
local_names c r = record r {
  client_name = clip (base_name (codes "-lc-") c.name c.core);
  server_name = [];
  role = local_role;
}

abbrev pub initial_fields : Checked → PairRuntime → PairRuntime
initial_fields c r = record r {
  client_index = minus_one;
  server_index = minus_one;
  local_host_label = host_or c.host r.local_host_label;
  role = local_role;
}

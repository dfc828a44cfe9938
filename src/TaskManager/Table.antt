-- ===== src/TaskManager/Table.antt =====
-- The monitor table of task_manager.c: `monitoredTaskHot`, `monitoredTaskCold` and
-- `numMonitoredTasks`, and what the functions do to them inside `monitoredTasksMux`.
pub mod Count
pub mod Entry
use edge_aware_tasks_rtos.Prelude.{
  ℕ, ◌+◌, ◌-◌, ℤ, pos, negsuc, Bool, true, false, ◌&&◌, Option, none, some, Array, update, Text,
  TextPtr, take, strncmp_eq, codes, ltb, leb, if◌then◌else◌, first_index, count_index, [], u32,
}
use edge_aware_tasks_rtos.TaskManager.Types.{
  Hot, Cold, ExecutionSite, local_execution, remote_execution, unnamed_site, Signal, signal_wait,
  signal_suspend, signal_switch,
}

-- CONFIG_EA_MAX_TASKS and CONFIG_EA_MAX_TASK_NAME_LEN
abbrev pub max_tasks : ℕ
max_tasks = 16

abbrev pub max_task_name_len : ℕ
max_task_name_len = 16

-- What `strncpy` to, or `snprintf` into, a name buffer keeps: the last byte is the NUL.
abbrev pub clip : Text → Text
clip = take 15

pub record Table : Type 0 where
  pub hot : Array Hot
  pub cold : Array Cold
  pub num_monitored_tasks : ℕ

-- `memset` to 0
abbrev pub zero_hot : Hot
zero_hot = record {
  pair_id = 0;
  task_index = pos 0;
  peer_index = pos 0;
  cpu_cycles = 0;
  data_size = 0;
  start_tick = 0;
  end_tick = 0;
  oe2el = 0;
  signal_request = signal_wait;
  core = 0;
  is_active = false;
}

abbrev pub zero_cold : Cold
zero_cold = record {
  name = [];
  local_host_label = [];
  pair_id = 0;
  task_index = pos 0;
  peer_index = pos 0;
  period = 0;
  deadline_ms = 0;
  wcet = 0;
  exec_site = local_execution;
  delay_weight = 0;
  energy_weight = 0;
}

abbrev pub zero_table : Table
zero_table = record { hot = λ _. zero_hot; cold = λ _. zero_cold; num_monitored_tasks = 0 }

-- `task_manager_init` clears exactly the entries of the two arrays.
unfoldable pub clear_table : Table → Table
clear_table t = record {
  hot = λ i. if ltb i max_tasks then zero_hot else t.hot i;
  cold = λ i. if ltb i max_tasks then zero_cold else t.cold i;
  num_monitored_tasks = 0;
}

abbrev pub active_at : Table → ℕ → Bool
active_at t i = (t.hot i).is_active

-- `monitor_index_valid_locked`
unfoldable pub monitor_index_valid : ℤ → Table → Bool
monitor_index_valid (pos i) t = ltb i max_tasks && active_at t i
monitor_index_valid (negsuc _) t = false

-- The arguments of `record_monitor_from_task`.
pub record MonitorEntry : Type 0 where
  pub name : Text
  pub host : TextPtr
  pub pair_id : ℕ
  pub task_index : ℤ
  pub peer_index : ℤ
  pub exec_site : ExecutionSite
  pub core : ℕ
  pub deadline_ms : ℕ
  pub delay_weight : ℕ
  pub energy_weight : ℕ
  pub period : ℕ
  pub wcet : ℕ

abbrev pub host_text : TextPtr → Text
host_text none = []
host_text (some h) = clip h

abbrev pub recorded_hot : MonitorEntry → Hot
recorded_hot e = record zero_hot {
  pair_id = e.pair_id;
  task_index = e.task_index;
  peer_index = e.peer_index;
  core = e.core;
  is_active = true;
}

abbrev pub recorded_cold : MonitorEntry → Cold
recorded_cold e = record {
  name = clip e.name;
  local_host_label = host_text e.host;
  pair_id = e.pair_id;
  task_index = e.task_index;
  peer_index = e.peer_index;
  period = e.period;
  deadline_ms = e.deadline_ms;
  wcet = e.wcet;
  exec_site = e.exec_site;
  delay_weight = e.delay_weight;
  energy_weight = e.energy_weight;
}

-- `record_monitor_from_task` on slot `i`, and the counter that its caller keeps.
unfoldable pub record_monitor : ℕ → MonitorEntry → Table → Table
record_monitor i e t = record {
  hot = update t.hot i (recorded_hot e);
  cold = update t.cold i (recorded_cold e);
  num_monitored_tasks =
      if active_at t i then t.num_monitored_tasks else u32 (t.num_monitored_tasks + 1);
}

-- `update_monitor_linkage_by_index`; the bound is tested before the lock is taken.
unfoldable pub update_linkage : ℕ → (pair_id : ℕ) → (task_index peer_index : ℤ) → Table → Table
update_linkage i pid ti pi t = record t {
  hot = update t.hot i (record (t.hot i) { pair_id = pid; task_index = ti; peer_index = pi });
  cold = update t.cold i (record (t.cold i) { pair_id = pid; task_index = ti; peer_index = pi });
}

-- `clear_monitor_slot`
unfoldable pub clear_monitor_slot : ℕ → Table → Table
clear_monitor_slot i t = if leb max_tasks i then t else record {
  hot = update t.hot i zero_hot;
  cold = update t.cold i zero_cold;
  num_monitored_tasks =
      if active_at t i && ltb 0 t.num_monitored_tasks
      then t.num_monitored_tasks - 1
      else t.num_monitored_tasks;
}

-- `if (index >= 0) clear_monitor_slot((size_t)index);`
unfoldable pub clear_at : ℤ → Table → Table
unfolding clear_monitor_slot
clear_at (pos i) t = clear_monitor_slot i t
clear_at (negsuc _) t = t

-- The body of `clear_runtime_monitor_entries`.
unfoldable pub clear_entries : (client server : ℤ) → (include_server : Bool) → Table → Table
unfolding clear_at
clear_entries client server true t = clear_at server (clear_at client t)
clear_entries client server false t = clear_at client t

-- The body of `remove_monitored_task_by_index`.
unfoldable pub remove_entry : ℤ → Table → Table
unfolding monitor_index_valid clear_monitor_slot
remove_entry (pos i) t = if monitor_index_valid (pos i) t then clear_monitor_slot i t else t
remove_entry (negsuc _) t = t

-- The scan of `_CreateTaskPinnedToCore_` for an inactive slot.
unfoldable pub find_free_slot : Table → Option ℕ
unfolding first_index
find_free_slot t =
    first_index (λ i. elim (active_at t i) [ true ↦ false | false ↦ true ]) max_tasks 0

-- The scan of `find_task_index`.
unfoldable pub find_name : Text → Table → Option ℕ
unfolding first_index
find_name name t =
    first_index (λ i. active_at t i && strncmp_eq max_task_name_len (t.cold i).name name) max_tasks
      0

-- The loop of `get_num_monitored_tasks`.
unfoldable pub count_active : Table → ℕ
unfolding count_index
count_active t = count_index (active_at t) max_tasks 0

unfoldable pub execution_site_to_string : ExecutionSite → Text
execution_site_to_string local_execution = codes "LOCAL_EXECUTION"
execution_site_to_string remote_execution = codes "REMOTE_EXECUTION"
execution_site_to_string (unnamed_site _) = codes "UNKNOWN"

abbrev pub signal_value : Signal → ℤ
signal_value signal_wait = pos 0
signal_value signal_suspend = pos 1
signal_value signal_switch = pos 2

-- ===== src/Port/TaskInfo.antt =====
-- components/EEAA/src/port/port_rtos_freertos.c: task states and the task information record.
use edge_aware_tasks_rtos.Prelude.{
  ℕ, ◌/◌, Option, none, some, Text, TextPtr, codes, ◌==◌, if◌then◌else◌, [],
}
use edge_aware_tasks_rtos.Port.Rtos.{Status, status_ok, status_error}

-- `eTaskState`; `eInvalid` and values that the enum does not name fall to `default`.
pub data KernelState : Type 0 where
  running ready blocked suspended deleted : KernelState
  invalid : ℕ → KernelState

-- `eaPort_task_state_t`, with the values that the enum does not name.
pub data TaskState : Type 0 where
  running ready blocked suspended deleted unknown : TaskState
  unnamed : ℕ → TaskState

unfoldable pub convert_task_state : KernelState → TaskState
convert_task_state KernelState.running = TaskState.running
convert_task_state KernelState.ready = TaskState.ready
convert_task_state KernelState.blocked = TaskState.blocked
convert_task_state KernelState.suspended = TaskState.suspended
convert_task_state KernelState.deleted = TaskState.deleted
convert_task_state (KernelState.invalid _) = TaskState.unknown

pub record TaskInfo : Type 0 where
  pub handle : Option ℕ
  pub name : TextPtr
  pub runtime_counter : ℕ
  pub number : ℕ
  pub state : TaskState
  pub priority : ℕ
  pub high_water : ℕ

-- `TaskStatus_t`, as `vTaskGetInfo` fills it.
pub record KernelStatus : Type 0 where
  pub handle : Option ℕ
  pub name : TextPtr
  pub runtime_counter : ℕ
  pub number : ℕ
  pub state : KernelState
  pub priority : ℕ
  pub high_water : ℕ

abbrev pub empty_info : TaskInfo
empty_info = record {
  handle = none;
  name = none;
  runtime_counter = 0;
  number = 0;
  state = TaskState.running;
  priority = 0;
  high_water = 0;
}

-- `eaPort_Get_Task_Info`: a write through a NULL `taskInfo` is a fault.
pub data InfoOutcome : Type 0 where
  fault : InfoOutcome
  filled : Status → TaskInfo → InfoOutcome

-- The end of the function: a missing name becomes "" and an error.
check_name : TaskInfo → TextPtr → InfoOutcome
check_name i none = filled status_error (record i { name = some [] })
check_name i (some _) = filled status_ok i

-- With the trace facility: `trace_status` is what `vTaskGetInfo` writes for a handle. Without it:
-- `limited` holds the name, the priority and the high-water mark that the kernel returns.
pub data Facility : Type 0 where
  traced : (Option ℕ → KernelStatus) → Facility
  limited : (name : Option ℕ → TextPtr) (priority high_water : Option ℕ → ℕ) → Facility

abbrev info_of : Facility → Option ℕ → TaskInfo
info_of (traced status) h =
    let s = status h in
    record {
      handle = s.handle;
      name = s.name;
      runtime_counter = s.runtime_counter;
      number = s.number;
      state = convert_task_state s.state;
      priority = s.priority;
      high_water = s.high_water;
    }
info_of (limited name priority high_water) h = record {
  handle = h;
  name = name h;
  runtime_counter = 0;
  number = 0;
  state = TaskState.unknown;
  priority = priority h;
  high_water = high_water h;
}

-- The first argument is the record that `taskInfo` points to, the second `*taskHandle`.
unfoldable pub get_task_info : Facility → Option TaskInfo → Option (Option ℕ) → InfoOutcome
unfolding check_name
get_task_info f none h = fault
get_task_info f (some _) none = filled status_error empty_info
get_task_info f (some _) (some h) = check_name (info_of f h) (info_of f h).name

unfoldable pub get_task_runtime_counter : Option TaskInfo → ℕ
get_task_runtime_counter none = 0
get_task_runtime_counter (some i) = i.runtime_counter

unfoldable pub get_task_runtime_percentage : Option TaskInfo → (total_div_100 : ℕ) → ℕ
get_task_runtime_percentage none total = 0
get_task_runtime_percentage (some i) total = if total == 0 then 0 else i.runtime_counter / total

unfoldable pub get_task_name : Option TaskInfo → TextPtr
get_task_name none = some []
get_task_name (some i) = i.name

unfoldable pub get_task_priority : Option TaskInfo → ℕ
get_task_priority none = 0
get_task_priority (some i) = i.priority

state_str : TaskState → Text
state_str TaskState.running = codes "Running"
state_str TaskState.ready = codes "Ready"
state_str TaskState.blocked = codes "Blocked"
state_str TaskState.suspended = codes "Suspended"
state_str TaskState.deleted = codes "Deleted"
state_str _ = codes "Unknown"

unfoldable pub get_task_state_str : Option TaskInfo → Text
unfolding state_str
get_task_state_str none = codes "Unknown"
get_task_state_str (some i) = state_str i.state

state_char : TaskState → ℕ
state_char TaskState.running = b'R'
state_char TaskState.ready = b'E'
state_char TaskState.blocked = b'B'
state_char TaskState.suspended = b'S'
state_char TaskState.deleted = b'D'
state_char _ = b'U'

unfoldable pub get_task_state_char : Option TaskInfo → ℕ
unfolding state_char
get_task_state_char none = b'U'
get_task_state_char (some i) = state_char i.state

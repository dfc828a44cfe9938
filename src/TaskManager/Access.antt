-- ===== src/TaskManager/Access.antt =====
-- The functions of task_manager.c that read or write the monitor table inside one critical section:
-- look-up by name, getters, metrics, removal, and the host and execution-site setters.
use edge_aware_tasks_rtos.Prelude.{
  ℕ, ◌+◌, ◌-◌, ℤ, pos, negsuc, minus_one, Bool, true, false, Option, none, some, [], update, Text,
  TextPtr, codes, if◌then◌else◌, leb, u32, u32_mod, strstr,
}
use edge_aware_tasks_rtos.Port.Kernel.{Kernel}
use edge_aware_tasks_rtos.Port.Rtos.{task_suspend}
use edge_aware_tasks_rtos.TaskManager.Types.{
  Snapshot, Hot, Cold, Signal, signal_suspend, MonitorSample,
}
use edge_aware_tasks_rtos.TaskManager.Table.{
  Table, clip, monitor_index_valid, remove_entry, find_name, count_active, execution_site_to_string,
  signal_value,
}
use edge_aware_tasks_rtos.TaskManager.System.{System, on_table, ensure_initialized}

abbrev pub zero_snapshot : Snapshot
zero_snapshot = record { name = []; cpu_cycles = 0; period = 0; wcet = 0; oe2el = 0; valid = false }

abbrev pub snapshot_of : Hot → Cold → Snapshot
snapshot_of h c = record {
  name = clip c.name;
  cpu_cycles = h.cpu_cycles;
  period = c.period;
  wcet = c.wcet;
  oe2el = h.oe2el;
  valid = true;
}

-- A field of the entry at a valid index, else a default.
unfoldable pub read_entry {ℓ} : {A : Type ℓ} → A → (Hot → Cold → A) → ℤ → Table → A
unfolding monitor_index_valid
read_entry d f (pos i) t = if monitor_index_valid (pos i) t then f (t.hot i) (t.cold i) else d
read_entry d f (negsuc _) t = d

-- Changes the entry at a valid index.
unfoldable pub change_hot : (Hot → Hot) → ℤ → Table → Table
unfolding monitor_index_valid
change_hot f (pos i) t =
    if monitor_index_valid (pos i) t then record t { hot = update t.hot i (f (t.hot i)) } else t
change_hot f (negsuc _) t = t

unfoldable pub change_cold : (Cold → Cold) → ℤ → Table → Table
unfolding monitor_index_valid
change_cold f (pos i) t =
    if monitor_index_valid (pos i) t then record t { cold = update t.cold i (f (t.cold i)) } else t
change_cold f (negsuc _) t = t

-- A critical section that only reads.
unfoldable pub read_table {ℓ} : {A : Type ℓ} → (Table → A) → System → A × System
unfolding on_table
read_table f s = (f s.table, on_table (λ t. t) s)

abbrev index_of : Option ℕ → ℤ
index_of none = minus_one
index_of (some i) = pos i

-- `strstr(str, "-cl-") != NULL`
unfoldable pub is_client_task : TextPtr → Bool
unfolding strstr
is_client_task none = false
is_client_task (some s) = strstr s (codes "-cl-")

abbrev pub set_metrics : (oe2el cycles start_tick end_tick size : ℕ) → Hot → Hot
set_metrics oe2el cycles start_tick end_tick size h = record h {
  oe2el = oe2el;
  cpu_cycles = cycles;
  start_tick = start_tick;
  end_tick = end_tick;
  data_size = size;
}

-- `start_task_monitoring`: the tick and the cycle counter are arguments.
unfoldable pub start_task_monitoring : (tick cycles : ℕ) → MonitorSample
start_task_monitoring tick cycles = record { start_tick = u32 tick; start_cycles = cycles }

-- `end_task_monitoring_`; the result is the uint32_t sum before its conversion to `int`.
unfoldable pub end_task_monitoring_at :
    (tick cycles : ℕ) → MonitorSample → (message_size remote_time : ℕ) → (remote_flag : Bool) → ℕ
end_task_monitoring_at tick cycles sample message_size remote_time remote_flag =
    let delta = if leb sample.start_cycles cycles then cycles - sample.start_cycles else 0 in
    u32 (delta + message_size + (u32 tick + u32_mod - sample.start_tick))

unfoldable pub end_task_monitoring : (tick cycles : ℕ) → MonitorSample → (message_size : ℕ) → ℕ
unfolding end_task_monitoring_at
end_task_monitoring tick cycles sample message_size =
    end_task_monitoring_at tick cycles sample message_size 0 false

abbrev pub is_suspend : Signal → Bool
is_suspend signal_suspend = true
is_suspend _ = false

module _ (k : Kernel) where
  unfoldable pub find_task_index : TextPtr → System → ℤ × System
  unfolding ensure_initialized read_table find_name
  find_task_index none s = (minus_one, ensure_initialized k s)
  find_task_index (some name) s =
      read_table (λ t. index_of (find_name name t)) (ensure_initialized k s)

  unfoldable pub get_task_index : TextPtr → System → ℤ × System
  unfolding find_task_index
  get_task_index = find_task_index

  -- `out` is what `out_snapshot` points to, before and after.
  unfoldable pub get_task_snapshot_by_index :
      ℤ → (out : Option Snapshot) → System → Bool × Option Snapshot × System
  unfolding ensure_initialized read_table read_entry
  get_task_snapshot_by_index i none s = (false, none, ensure_initialized k s)
  get_task_snapshot_by_index i (some _) s =
      let (snap, u) =
        read_table (read_entry zero_snapshot snapshot_of i) (ensure_initialized k s) in
      (snap.valid, some snap, u)

  unfoldable pub get_task_snapshot :
      TextPtr → (out : Option Snapshot) → System → Bool × Option Snapshot × System
  unfolding find_task_index get_task_snapshot_by_index
  get_task_snapshot (some name) (some o) s =
      let (i, u) = find_task_index (some name) s in get_task_snapshot_by_index i (some o) u
  get_task_snapshot _ out s = (false, out, s)

  unfoldable pub get_num_monitored_tasks : System → ℕ × System
  unfolding ensure_initialized read_table count_active
  get_num_monitored_tasks s = read_table count_active (ensure_initialized k s)

  unfoldable pub get_task_signal : ℤ → System → ℤ × System
  unfolding ensure_initialized read_table read_entry
  get_task_signal i s =
      read_table (read_entry minus_one (λ h c. signal_value h.signal_request) i)
        (ensure_initialized k s)

  unfoldable pub get_task_ex_site_by_index : ℤ → System → Text × System
  unfolding ensure_initialized read_table read_entry execution_site_to_string
  get_task_ex_site_by_index i s =
      read_table (read_entry (codes "UNKNOWN") (λ h c. execution_site_to_string c.exec_site) i)
        (ensure_initialized k s)

  unfoldable pub get_task_ex_site : TextPtr → System → Text × System
  unfolding find_task_index get_task_ex_site_by_index
  get_task_ex_site none s = (codes "UNKNOWN", ensure_initialized k s)
  get_task_ex_site (some name) s =
      let (i, u) = find_task_index (some name) (ensure_initialized k s) in
      get_task_ex_site_by_index i u

  unfoldable pub get_task_cpu_cycles : ℤ → System → ℕ × System
  unfolding ensure_initialized read_table read_entry
  get_task_cpu_cycles i s =
      read_table (read_entry 0 (λ h c. h.cpu_cycles) i) (ensure_initialized k s)

  unfoldable pub get_task_data_size : ℤ → System → ℕ × System
  unfolding ensure_initialized read_table read_entry
  get_task_data_size i s = read_table (read_entry 0 (λ h c. h.data_size) i) (ensure_initialized k s)

  unfoldable pub get_task_oe2el : ℤ → System → ℕ × System
  unfolding ensure_initialized read_table read_entry
  get_task_oe2el i s = read_table (read_entry 0 (λ h c. h.oe2el) i) (ensure_initialized k s)

  unfoldable pub get_task_wcet : ℤ → System → ℕ × System
  unfolding ensure_initialized read_table read_entry
  get_task_wcet i s = read_table (read_entry 0 (λ h c. c.wcet) i) (ensure_initialized k s)

  -- A task that was asked to suspend suspends itself after the critical section.
  unfoldable pub check_self_suspend : ℤ → System → System
  unfolding ensure_initialized read_table read_entry task_suspend
  check_self_suspend i s =
      let (asked, u) =
        read_table (read_entry false (λ h c. is_suspend h.signal_request) i)
          (ensure_initialized k s) in
      if asked then record u { trace = task_suspend none u.trace } else u

  unfoldable pub update_task_metrics_by_index :
      ℤ → (oe2el cycles start_tick end_tick size : ℕ) → System → System
  unfolding ensure_initialized on_table change_hot
  update_task_metrics_by_index i oe2el cycles start_tick end_tick size s =
      on_table (change_hot (set_metrics oe2el cycles start_tick end_tick size) i)
        (ensure_initialized k s)

  unfoldable pub update_task_metrics :
      TextPtr → (oe2el cycles start_tick end_tick size : ℕ) → System → System
  unfolding find_task_index update_task_metrics_by_index
  update_task_metrics name oe2el cycles start_tick end_tick size s =
      let (i, u) = find_task_index name s in
      update_task_metrics_by_index i oe2el cycles start_tick end_tick size u

  unfoldable pub update_task_oe2el_by_index : ℤ → ℕ → System → System
  unfolding ensure_initialized on_table change_hot
  update_task_oe2el_by_index i v s =
      on_table (change_hot (λ h. record h { oe2el = v }) i) (ensure_initialized k s)

  unfoldable pub update_task_oe2el : TextPtr → ℕ → System → System
  unfolding find_task_index update_task_oe2el_by_index
  update_task_oe2el name v s =
      let (i, u) = find_task_index name s in update_task_oe2el_by_index i v u

  unfoldable pub remove_monitored_task_by_index : ℤ → System → System
  unfolding ensure_initialized on_table remove_entry
  remove_monitored_task_by_index i s = on_table (remove_entry i) (ensure_initialized k s)

  unfoldable pub remove_monitored_task : TextPtr → System → System
  unfolding find_task_index remove_monitored_task_by_index
  remove_monitored_task name s =
      let (i, u) = find_task_index name s in remove_monitored_task_by_index i u

  unfoldable pub tasks_compute_hyperperiod : System → ℕ × System
  unfolding ensure_initialized
  tasks_compute_hyperperiod s = (0, ensure_initialized k s)

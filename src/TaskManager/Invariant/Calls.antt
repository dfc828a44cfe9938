-- ===== src/TaskManager/Invariant/Calls.antt =====
-- The task manager's invariant for the functions of Access and Pair.
use edge_aware_tasks_rtos.Prelude.{
  ℕ, ◌≡◌, refl, ℤ, pos, negsuc, Bool, false, Option, none, some, List, arith, inl, inr, Bool-cases,
  if_cases, Option-cases, Text, TextPtr, is_label,
}
use edge_aware_tasks_rtos.Port.Kernel.{Kernel}
use edge_aware_tasks_rtos.Port.Rtos.{task_suspend}
use edge_aware_tasks_rtos.Port.Locks.{lock_of, is_live}
use edge_aware_tasks_rtos.TaskManager.Types.{PairRuntime, Hot, Cold, ExecutionSite, Snapshot}
use edge_aware_tasks_rtos.TaskManager.Table.{Table, remove_entry, count_active}
use edge_aware_tasks_rtos.TaskManager.Table.Count.{
  IsCounted, count_active_same, remove_entry-IsCounted,
}
use edge_aware_tasks_rtos.TaskManager.Registry.{Registry, set_runtime, runtime_from_task_index}
use edge_aware_tasks_rtos.TaskManager.Registry.FreeList.{IsFreeList, set_runtime-IsFreeList}
use edge_aware_tasks_rtos.TaskManager.System.{System, ensure_initialized}
use edge_aware_tasks_rtos.TaskManager.Access.{
  read_table, change_hot, change_cold, find_task_index, get_task_snapshot_by_index,
  get_num_monitored_tasks, check_self_suspend, update_task_metrics_by_index,
  update_task_oe2el_by_index, remove_monitored_task_by_index, set_metrics, read_entry,
  zero_snapshot, snapshot_of, is_suspend,
}
use edge_aware_tasks_rtos.TaskManager.Pair.{
  update_monitor_local_host_label, pair_set_exec_site_by_index, label_runtime, relabelled,
  pair_set_local_host_label_by_index, set_cold_label,
}
use edge_aware_tasks_rtos.TaskManager.Invariant.{
  Inv, on_table-Inv, on_registry-Inv, registry_init-Inv, ensure_initialized-Inv,
}

pub chunks-set_runtime :
    (a : ℕ) (p : PairRuntime) (r : Registry) → (set_runtime a p r).chunks ≡ r.chunks
unfolding set_runtime
chunks-set_runtime a p r = refl

-- A critical section that only reads.
pub read_table-Inv : {A : Type 0} (f : Table → A) {s : System} → Inv s → Inv (read_table f s).1
unfolding read_table
read_table-Inv f v = on_table-Inv (λ t. t) (λ c. c) v

-- A change of an entry that keeps its activity.
pub change_hot-IsCounted :
    (f : Hot → Hot) (i : ℤ) {t : Table}
    → ((h : Hot) → (f h).is_active ≡ h.is_active)
    → IsCounted t
    → IsCounted (change_hot f i t)
unfolding change_hot
change_hot-IsCounted f (pos i) {t} same c = record {
  counted = ground (
    arith,
    c.counted,
    count_active_same t (change_hot f (pos i) t) (λ j. ground (arith, same (t.hot i))),
  );
}
change_hot-IsCounted f (negsuc n) same c = c

change_cold-IsCounted :
    (f : Cold → Cold) (i : ℤ) {t : Table} → IsCounted t → IsCounted (change_cold f i t)
unfolding change_cold
change_cold-IsCounted f (pos i) {t} c = record {
  counted =
      ground (arith, c.counted, count_active_same t (change_cold f (pos i) t) (λ j. ground arith));
}
change_cold-IsCounted f (negsuc n) c = c

-- A task suspends itself outside every critical section.
suspended-Inv : {s : System} → Inv s → Inv (record s { trace = task_suspend none s.trace })
unfolding task_suspend lock_of is_live
suspended-Inv {s} v = record {
  unlocked = ground (arith, v.unlocked);
  counted = v.counted;
  unused = v.unused;
  linked = v.linked;
  live = v.live;
}

module _ (k : Kernel) where
  pub find_task_index-Inv : (n : TextPtr) {s : System} → Inv s → Inv (find_task_index k n s).1
  unfolding find_task_index
  find_task_index-Inv none v = ensure_initialized-Inv k v
  find_task_index-Inv (some n) v = on_table-Inv (λ t. t) (λ c. c) (ensure_initialized-Inv k v)

  -- The getters read one entry after the table is initialised.
  pub read_initialized-Inv :
      {A : Type 0} (f : Table → A) {s : System}
      → Inv s
      → Inv (read_table f (ensure_initialized k s)).1
  read_initialized-Inv f v = read_table-Inv f (ensure_initialized-Inv k v)

  pub get_task_snapshot_by_index-Inv :
      (i : ℤ) (out : Option Snapshot) {s : System}
      → Inv s
      → Inv (get_task_snapshot_by_index k i out s).2
  unfolding get_task_snapshot_by_index
  get_task_snapshot_by_index-Inv i none v = ensure_initialized-Inv k v
  get_task_snapshot_by_index-Inv i (some o) v =
      read_initialized-Inv (read_entry zero_snapshot snapshot_of i) v

  pub get_num_monitored_tasks-Inv : {s : System} → Inv s → Inv (get_num_monitored_tasks k s).1
  unfolding get_num_monitored_tasks
  get_num_monitored_tasks-Inv v = read_initialized-Inv count_active v

  pub check_self_suspend-Inv : (i : ℤ) {s : System} → Inv s → Inv (check_self_suspend k i s)
  unfolding check_self_suspend
  check_self_suspend-Inv i {s} v =
      let asks = read_entry false (λ h c. is_suspend h.signal_request) i in
      let w = read_initialized-Inv asks v in
      elim (Bool-cases (read_table asks (ensure_initialized k s)).0) [
        | inl e ↦ rw (e, check_self_suspend) (suspended-Inv w)
        | inr e ↦ rw (e, check_self_suspend) w
      ]

  pub update_task_metrics_by_index-Inv :
      (i : ℤ) (oe2el cycles start_tick end_tick size : ℕ) {s : System}
      → Inv s
      → Inv (update_task_metrics_by_index k i oe2el cycles start_tick end_tick size s)
  unfolding update_task_metrics_by_index
  update_task_metrics_by_index-Inv i oe2el cycles start_tick end_tick size v =
      on_table-Inv (change_hot (set_metrics oe2el cycles start_tick end_tick size) i)
        (change_hot-IsCounted (set_metrics oe2el cycles start_tick end_tick size) i (λ h. refl))
        (ensure_initialized-Inv k v)

  pub update_task_oe2el_by_index-Inv :
      (i : ℤ) (n : ℕ) {s : System} → Inv s → Inv (update_task_oe2el_by_index k i n s)
  unfolding update_task_oe2el_by_index
  update_task_oe2el_by_index-Inv i n v =
      on_table-Inv (change_hot (λ h. record h { oe2el = n }) i)
        (change_hot-IsCounted (λ h. record h { oe2el = n }) i (λ h. refl))
        (ensure_initialized-Inv k v)

  pub remove_monitored_task_by_index-Inv :
      (i : ℤ) {s : System} → Inv s → Inv (remove_monitored_task_by_index k i s)
  unfolding remove_monitored_task_by_index
  remove_monitored_task_by_index-Inv i v =
      on_table-Inv (remove_entry i) (remove_entry-IsCounted i) (ensure_initialized-Inv k v)

pub pair_set_exec_site_by_index-Inv :
    (i : ℤ) (x : ExecutionSite) {s : System} → Inv s → Inv (pair_set_exec_site_by_index i x s).1
unfolding pair_set_exec_site_by_index
pair_set_exec_site_by_index-Inv i x v =
    on_table-Inv (change_cold (λ c. record c { exec_site = x }) i)
      (change_cold-IsCounted (λ c. record c { exec_site = x }) i) v

update_monitor_local_host_label-Inv :
    (i : ℤ) (host : TextPtr) {s : System} → Inv s → Inv (update_monitor_local_host_label i host s).1
unfolding update_monitor_local_host_label
update_monitor_local_host_label-Inv i none v = v
update_monitor_local_host_label-Inv i (some host) {s} v = elim (Bool-cases (is_label (some host))) [
  | inl e ↦
      rw (e, update_monitor_local_host_label)
        (on_table-Inv (change_cold (set_cold_label host) i)
          (change_cold-IsCounted (set_cold_label host) i) v)
  | inr e ↦ rw (e, update_monitor_local_host_label) v
]

label_runtime-IsFreeList :
    (i : ℤ) (host : Text) (r : Registry) {l : List ℕ}
    → IsFreeList r l
    → IsFreeList (label_runtime i host r) l × ((label_runtime i host r).chunks ≡ r.chunks)
unfolding label_runtime
label_runtime-IsFreeList i host r v = elim (Option-cases (runtime_from_task_index i r)) [
  | inl e ↦ rw (e, label_runtime) (v, refl)
  | inr (a, e) ↦
      rw (e, label_runtime)
        (
          set_runtime-IsFreeList a (relabelled r a host) v,
          chunks-set_runtime a (relabelled r a host) r,
        )
]

pub pair_set_local_host_label_by_index-Inv :
    (k : Kernel) (i : ℤ) (host : TextPtr) {s : System}
    → Inv s
    → Inv (pair_set_local_host_label_by_index k i host s).1
unfolding pair_set_local_host_label_by_index
pair_set_local_host_label_by_index-Inv k i none v = update_monitor_local_host_label-Inv i none v
pair_set_local_host_label_by_index-Inv k i (some host) {s} v =
    let u = update_monitor_local_host_label-Inv i (some host) v in
    let w = registry_init-Inv k u in
    let (linked, same) = label_runtime-IsFreeList i host _ w.linked in
    if_cases (λ (r : Bool × System). Inv r.1) (is_label (some host))
      (λ _. on_registry-Inv (label_runtime i host) w.unused linked same w) (λ _. u)

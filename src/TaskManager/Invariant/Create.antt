-- ===== src/TaskManager/Invariant/Create.antt =====
-- The task manager's invariant for `_CreateTaskPinnedToCore_`.
use edge_aware_tasks_rtos.Prelude.{
  ℕ, ◌<◌, ◌≡◌, refl, sym, ◌∙◌, ℤ, pos, negsuc, Option, some, ◌∷◌, arith, inl, inr, Bool-cases,
  if_cases, Option-cases, leb,
}
use edge_aware_tasks_rtos.Port.Kernel.{Call, queue_created, task_deleted}
use edge_aware_tasks_rtos.Port.Rtos.{task_create_pinned_to_core}
use edge_aware_tasks_rtos.Port.Locks.{Lock, free, lock_of, is_live}
use edge_aware_tasks_rtos.TaskManager.Types.{PairRuntime}
use edge_aware_tasks_rtos.TaskManager.Table.{
  max_tasks, active_at, record_monitor, update_linkage, find_free_slot,
}
use edge_aware_tasks_rtos.TaskManager.Table.Count.{
  record_monitor-IsCounted, update_linkage-IsCounted, find_free_slot_sound,
}
use edge_aware_tasks_rtos.TaskManager.Registry.{next_pair_id}
use edge_aware_tasks_rtos.TaskManager.Registry.FreeList.{set_runtime-IsFreeList}
use edge_aware_tasks_rtos.TaskManager.System.{Env, System, registry_init, ensure_initialized}
use edge_aware_tasks_rtos.TaskManager.Create.{
  TaskArgs, modify_runtime, runtime_at, entry_of, populate_slot, started, start_task, create_task,
  assign_pair_id, link_entry,
}
use edge_aware_tasks_rtos.TaskManager.Invariant.{
  InvAt, Inv, IsLawful, on_table-Inv, registry_init-Inv, ensure_initialized-Inv,
}
use edge_aware_tasks_rtos.TaskManager.Invariant.Reserve.{enter_registry-InvAt, exit_registry-Inv}
use edge_aware_tasks_rtos.TaskManager.Invariant.Calls.{chunks-set_runtime}

pub modify_runtime-InvAt :
    (a : ℕ) (f : PairRuntime → PairRuntime) {l : Lock} {s : System}
    → InvAt l s
    → InvAt l (modify_runtime a f s)
unfolding modify_runtime
modify_runtime-InvAt a f {s = s} v = record {
  unlocked = v.unlocked;
  counted = v.counted;
  unused = v.unused;
  linked = set_runtime-IsFreeList a _ v.linked;
  live = λ b. ground (arith, v.live b, chunks-set_runtime a (f (runtime_at s a)) s.registry);
}

pub link_entry-Inv :
    (i : ℤ) (pid : ℕ) (ti pi : ℤ) {s : System} → Inv s → Inv (link_entry i pid ti pi s)
unfolding link_entry
link_entry-Inv (negsuc n) pid ti pi v = v
link_entry-Inv (pos i) pid ti pi {s} v = elim (Bool-cases (leb max_tasks i)) [
  | inl e ↦ rw e v
  | inr e ↦
      rw e (on_table-Inv (update_linkage i pid ti pi) (update_linkage-IsCounted i pid ti pi) v)
]

-- A call of the kernel that the discipline allows outside the locks and that moves no memory.
called-Inv :
    (c : Call) {s : System}
    → lock_of (c ∷ s.trace) ≡ free
    → ((a : ℕ) → is_live a (c ∷ s.trace) ≡ is_live a s.trace)
    → Inv s
    → Inv (record s { trace = c ∷ s.trace })
called-Inv c {s} h same v = record {
  unlocked = h;
  counted = v.counted;
  unused = v.unused;
  linked = v.linked;
  live = λ a. v.live a ∙ sym (same a);
}

renumbered-InvAt : (n : ℕ) {l : Lock} {s : System} → InvAt l s → InvAt l (record s { next_id = n })
renumbered-InvAt n v = record {
  unlocked = v.unlocked;
  counted = v.counted;
  unused = v.unused;
  linked = v.linked;
  live = v.live;
}

module _ (e : Env) (law : IsLawful e) where
  populate_slot-Inv :
      (a : TaskArgs) (i h : ℕ) {s : System}
      → i < max_tasks
      → Inv s
      → Inv (populate_slot e a i h s).1
  unfolding populate_slot lock_of is_live
  populate_slot-Inv a i h {s} l v =
      if_cases (λ (r : Option (ℕ × ℕ) × System). Inv r.1) (active_at s.table i)
        (λ busy.
          let w = on_table-Inv (λ t. t) (λ c. c) v in
          called-Inv (task_deleted (some h)) (ground (arith, w.unlocked)) (λ x. refl) w)
        (λ idle.
          on_table-Inv (record_monitor i (entry_of a i s))
            (record_monitor-IsCounted i (entry_of a i s) l idle) v)

  -- The state in which the kernel call of `start_task` leaves the task manager.
  started-Inv : (a : TaskArgs) {s : System} → Inv s → Inv (started e a s).1
  unfolding started task_create_pinned_to_core lock_of is_live
  started-Inv a {s} v = record {
    unlocked = ground (arith, v.unlocked);
    counted = law.others_counted _ s.table v.counted;
    unused = v.unused;
    linked = v.linked;
    live = v.live;
  }

  start_task-Inv :
      (a : TaskArgs) (i : ℕ) {s : System} → i < max_tasks → Inv s → Inv (start_task e a i s).1
  unfolding start_task
  start_task-Inv a i {s} l v = elim (Option-cases (started e a s).0) [
    | inl n ↦ rw (n, start_task) (started-Inv a v)
    | inr (h, n) ↦ rw (n, start_task) (populate_slot-Inv a i h l (started-Inv a v))
  ]

  pub create_task-Inv : (a : TaskArgs) {s : System} → Inv s → Inv (create_task e a s).1
  unfolding create_task
  create_task-Inv a {s} v =
      let w = ensure_initialized-Inv e.kernel v in
      let u = on_table-Inv (λ t. t) (λ c. c) w in
      elim (Option-cases (find_free_slot (ensure_initialized e.kernel s).table)) [
        | inl full ↦ rw (full, create_task) u
        | inr (i, found) ↦
            rw (found, create_task)
              (start_task-Inv a i
                (find_free_slot_sound (ensure_initialized e.kernel s).table found).1 u)
      ]

  pub assign_pair_id-Inv : (a : ℕ) {s : System} → Inv s → Inv (assign_pair_id e a s)
  unfolding assign_pair_id
  assign_pair_id-Inv a {s} v = exit_registry-Inv (
      modify_runtime-InvAt a
        (λ r. record r { pair_id = (next_pair_id (registry_init e.kernel s).next_id).0 })
        (renumbered-InvAt (next_pair_id (registry_init e.kernel s).next_id).1
          (enter_registry-InvAt (registry_init-Inv e.kernel v))))

-- A queue was asked for, and the answer stored.
pub queued-Inv :
    (n m : ℕ) (q : Option ℕ) {s : System}
    → Inv s
    → Inv (record s { trace = queue_created n m q ∷ s.trace })
unfolding lock_of is_live
queued-Inv n m q v = called-Inv (queue_created n m q) (ground (arith, v.unlocked)) (λ x. refl) v

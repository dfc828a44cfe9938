-- ===== src/TaskManager/Table/Entry.antt =====
-- What the operations on one entry of the task table write, and what they leave alone.
use edge_aware_tasks_rtos.Prelude.{
  ℕ, zero, suc, ◌+◌, ◌<◌, ◌≡◌, refl, ap, ◌∙◌, subst, ℤ, pos, negsuc, Bool, true, false, ◌&&◌, ltb,
  if◌then◌else◌, arith, inl, inr, Bool-cases, none, some, is_some, int_eq, ◌==◌, ==_iff, [], ◌∷◌,
  Text, TextPtr, take, text_eq, strncmp_eq, Option-cases, first_index, first_index-none,
  update_self,
}
use edge_aware_tasks_rtos.TaskManager.Table.{
  Table, MonitorEntry, max_tasks, monitor_index_valid, record_monitor, remove_entry,
  clear_monitor_slot, zero_hot, zero_cold, active_at, find_free_slot, recorded_cold,
  max_task_name_len, find_name, count_active, host_text,
}
use edge_aware_tasks_rtos.TaskManager.Table.Count.{find_free_slot_sound, count_active_more}
use edge_aware_tasks_rtos.TaskManager.Access.{
  zero_snapshot, snapshot_of, read_entry, change_hot, set_metrics,
}
use edge_aware_tasks_rtos.TaskManager.Types.{Cold, signal_wait}

-- The response time and the cycles written to a valid entry are those that its snapshot shows,
-- with the rest of the snapshot as before; on an index that is not valid the snapshot is not
-- valid.
pub change_hot-read_entry :
    (i : ℤ) (oe2el cycles start_tick end_tick size : ℕ) (t : Table)
    → (read_entry zero_snapshot snapshot_of i
        (change_hot (set_metrics oe2el cycles start_tick end_tick size) i t))
      ≡ (if monitor_index_valid i t
          then record (read_entry zero_snapshot snapshot_of i t) {
            oe2el = oe2el;
            cpu_cycles = cycles;
          }
          else zero_snapshot)
unfolding read_entry change_hot monitor_index_valid
change_hot-read_entry (pos i) oe2el cycles start_tick end_tick size t =
    elim (Bool-cases (ltb i max_tasks && active_at t i)) [
      | inl e ↦ ground (arith, e)
      | inr e ↦ ground (arith, e)
    ]
change_hot-read_entry (negsuc n) oe2el cycles start_tick end_tick size t = refl

-- A removal clears the entry at a valid index and no other, and leaves that index not valid.
pub remove_entry_entries :
    (i : ℤ) (j : ℕ) (t : Table)
    → (monitor_index_valid i (remove_entry i t) ≡ false)
      × ((remove_entry i t).hot j
          ≡ (if int_eq i (pos j) && monitor_index_valid i t then zero_hot else t.hot j))
      × ((remove_entry i t).cold j
          ≡ (if int_eq i (pos j) && monitor_index_valid i t then zero_cold else t.cold j))
unfolding remove_entry clear_monitor_slot monitor_index_valid
remove_entry_entries (pos i) j t = elim (Bool-cases (ltb i max_tasks && active_at t i)) [
  | inl e ↦ (ground (arith, e), ground (arith, e), ground (arith, e))
  | inr e ↦ (ground (arith, e), ground (arith, e), ground (arith, e))
]
remove_entry_entries (negsuc n) j t = (refl, refl, refl)

take_twice : (n : ℕ) (xs : Text) → take n (take n xs) ≡ take n xs
take_twice zero xs = refl
take_twice (suc n) [] = refl
take_twice (suc n) (x ∷ xs) = ap (λ ys. x ∷ ys) (take_twice n xs)

text_eq_refl : (xs : Text) → text_eq xs xs ≡ true
text_eq_refl [] = refl
text_eq_refl (x ∷ xs) = rw ((==_iff x x).1 refl) (text_eq_refl xs)

-- An entry that is in use is found by its own name.
find_name-is_some :
    (t : Table) (i : ℕ)
    → i < max_tasks
    → active_at t i ≡ true
    → is_some (find_name (t.cold i).name t) ≡ true
unfolding find_name
find_name-is_some t i within used =
    let named = text_eq_refl (take max_task_name_len (t.cold i).name) in
    let fits : ℕ → Bool =
      λ j. active_at t j && strncmp_eq max_task_name_len (t.cold j).name (t.cold i).name in
    let match : fits i ≡ true = rw (used, named) refl in
    elim (Option-cases (first_index fits max_tasks 0)) [
      | inl e ↦
          let missed =
            first_index-none fits max_tasks 0 i e (omega arith) (omega (arith, within)) in
          absurd (ground (arith, match, missed))
      | inr (j, e) ↦ ap is_some e
    ]

-- What the text of a host argument leaves in a name buffer.
host_text_lem : (p : TextPtr) → host_text p ≡ elim p [ none ↦ [] | some host ↦ take 15 host ]
host_text_lem none = refl
host_text_lem (some host) = refl

-- The entry that task creation takes was not valid and is valid afterwards, and one entry more is
-- active. The cut name is found by a look-up, the snapshot shows that name, the period and the
-- execution time and no measurement, and every field of the two halves of the entry has its
-- argument, the name and the host label cut to 15 characters, or 0. No other entry changes.
pub find_free_slot-record_monitor :
    (e : MonitorEntry) (t : Table) {i : ℕ} (j : ℕ)
    → find_free_slot t ≡ some i
    → (monitor_index_valid (pos i) t ≡ false)
      × (monitor_index_valid (pos i) (record_monitor i e t) ≡ true)
      × (count_active (record_monitor i e t) ≡ count_active t + 1)
      × (is_some (find_name (take 15 e.name) (record_monitor i e t)) ≡ true)
      × (read_entry zero_snapshot snapshot_of (pos i) (record_monitor i e t) ≡ record {
        name = take 15 e.name;
        cpu_cycles = 0;
        period = e.period;
        wcet = e.wcet;
        oe2el = 0;
        valid = true;
      })
      × ((record_monitor i e t).hot j ≡ (
          if i == j
          then record {
            pair_id = e.pair_id;
            task_index = e.task_index;
            peer_index = e.peer_index;
            cpu_cycles = 0;
            data_size = 0;
            start_tick = 0;
            end_tick = 0;
            oe2el = 0;
            signal_request = signal_wait;
            core = e.core;
            is_active = true;
          }
          else t.hot j))
      × ((record_monitor i e t).cold j ≡ (
          if i == j
          then record {
            name = take 15 e.name;
            local_host_label = elim e.host [ none ↦ [] | some host ↦ take 15 host ];
            pair_id = e.pair_id;
            task_index = e.task_index;
            peer_index = e.peer_index;
            period = e.period;
            deadline_ms = e.deadline_ms;
            wcet = e.wcet;
            exec_site = e.exec_site;
            delay_weight = e.delay_weight;
            energy_weight = e.energy_weight;
          }
          else t.cold j))
unfolding record_monitor read_entry monitor_index_valid
find_free_slot-record_monitor e t {i} j h =
    let free = find_free_slot_sound t h in
    let short = take_twice 15 e.name in
    (
      ground (arith, free),
      ground (arith, free),
      count_active_more t (record_monitor i e t) i (λ m n. ground (arith, n)) free.0 (ground arith)
            free.1
          ∙ omega arith,
      subst (λ (c : Cold). is_some (find_name c.name (record_monitor i e t)) ≡ true)
          (update_self t.cold i (recorded_cold e))
          (find_name-is_some (record_monitor i e t) i free.1 (ground arith)),
      ground (arith, free, short),
      ground arith,
      ground (arith, host_text_lem e.host),
    )

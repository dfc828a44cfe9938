-- ===== src/Witnesses/Data.antt =====
-- The theorems on the registry, the table and names at concrete inputs.
use edge_aware_tasks_rtos.Prelude.{
  ℕ, ◌+◌, is_label, is_some, ltb, ◌≡◌, refl, pos, true, false, ◌&&◌, some, [], ◌∷◌, codes,
  if◌then◌else◌, none,
}
use edge_aware_tasks_rtos.TaskManager.Spec.{
  default_spec, spec_init_enriched, spec_validate, spec_resolve_deadline_ms,
}
use edge_aware_tasks_rtos.TaskManager.Spec.Validity.{has_queues, spec_init_enriched-spec_validate}
use edge_aware_tasks_rtos.Samples.{sample_entry}
use edge_aware_tasks_rtos.TaskManager.Table.{
  Table, zero_table, monitor_index_valid, record_monitor, find_free_slot, MonitorEntry,
  count_active, find_name,
}
use edge_aware_tasks_rtos.TaskManager.Types.{signal_wait, local_execution}
use edge_aware_tasks_rtos.TaskManager.Table.Entry.{
  change_hot-read_entry, find_free_slot-record_monitor,
}
use edge_aware_tasks_rtos.TaskManager.Access.{
  zero_snapshot, snapshot_of, read_entry, change_hot, set_metrics,
}
use edge_aware_tasks_rtos.TaskManager.Registry.{
  Registry, empty_registry, add_chunk, take_slot, release_slot, slot_owned, slot_at,
  runtime_from_task_index,
}
use edge_aware_tasks_rtos.TaskManager.Registry.FreeList.{
  IsFreeList, empty_registry-IsFreeList, add_chunk-IsFreeList, take_slot-IsFreeList,
  release_slot-IsFreeList,
}
use edge_aware_tasks_rtos.TaskManager.Registry.Lookup.{Finds, runtime_from_task_index-Finds}

-- A registry with one chunk at 5, of which the slot at 23 is taken.
abbrev pub one_chunk : Registry
one_chunk = add_chunk 5 empty_registry

abbrev pub one_taken : Registry
one_taken = take_slot 23 one_chunk

one_chunk-IsFreeList : IsFreeList one_chunk (23 ∷ 22 ∷ 21 ∷ 20 ∷ [])
one_chunk-IsFreeList = add_chunk-IsFreeList 5 refl empty_registry-IsFreeList

one_taken-IsFreeList : IsFreeList one_taken (22 ∷ 21 ∷ 20 ∷ [])
one_taken-IsFreeList = take_slot-IsFreeList one_chunk-IsFreeList

add_chunk-IsFreeList_example :
    IsFreeList one_chunk (slot_at 5 3 ∷ slot_at 5 2 ∷ slot_at 5 1 ∷ slot_at 5 0 ∷ [])
add_chunk-IsFreeList_example = add_chunk-IsFreeList 5 refl empty_registry-IsFreeList

take_slot-IsFreeList_example : IsFreeList (take_slot 23 one_chunk) (22 ∷ 21 ∷ 20 ∷ [])
take_slot-IsFreeList_example = take_slot-IsFreeList one_chunk-IsFreeList

release_slot-IsFreeList_example : IsFreeList (release_slot 23 one_taken) (
    if slot_owned one_taken 23 && (one_taken.slot 23).in_use
    then 23 ∷ 22 ∷ 21 ∷ 20 ∷ []
    else 22 ∷ 21 ∷ 20 ∷ [])
release_slot-IsFreeList_example = release_slot-IsFreeList 23 one_taken-IsFreeList

runtime_from_task_index-Finds_example : Finds one_taken (pos 0) (some 23)
unfolding runtime_from_task_index add_chunk take_slot
runtime_from_task_index-Finds_example = runtime_from_task_index-Finds (pos 0) one_taken

-- A table with one entry.
abbrev pub one_entry : Table
one_entry = record_monitor 0 sample_entry zero_table

-- The name has one character more than an entry keeps.
abbrev long_entry : MonitorEntry
long_entry = record sample_entry { name = codes "camera-client-12" }

find_free_slot-record_monitor_example :
    (monitor_index_valid (pos 1) one_entry ≡ false)
    × (monitor_index_valid (pos 1) (record_monitor 1 long_entry one_entry) ≡ true)
    × (count_active (record_monitor 1 long_entry one_entry) ≡ count_active one_entry + 1)
    × (is_some (find_name (codes "camera-client-1") (record_monitor 1 long_entry one_entry)) ≡ true)
    × (read_entry zero_snapshot snapshot_of (pos 1) (record_monitor 1 long_entry one_entry)
        ≡ record {
          name = codes "camera-client-1";
          cpu_cycles = 0;
          period = 100;
          wcet = 10;
          oe2el = 0;
          valid = true;
        })
    × ((record_monitor 1 long_entry one_entry).hot 1 ≡ record {
      pair_id = 1;
      task_index = pos 0;
      peer_index = pos 1;
      cpu_cycles = 0;
      data_size = 0;
      start_tick = 0;
      end_tick = 0;
      oe2el = 0;
      signal_request = signal_wait;
      core = 1;
      is_active = true;
    })
    × ((record_monitor 1 long_entry one_entry).cold 1 ≡ record {
      name = codes "camera-client-1";
      local_host_label = codes "LOCAL_RUNTIME";
      pair_id = 1;
      task_index = pos 0;
      peer_index = pos 1;
      period = 100;
      deadline_ms = 100;
      wcet = 10;
      exec_site = local_execution;
      delay_weight = 0;
      energy_weight = 0;
    })
unfolding find_free_slot record_monitor
find_free_slot-record_monitor_example = find_free_slot-record_monitor long_entry one_entry 1 refl

change_hot-read_entry_example :
    read_entry zero_snapshot snapshot_of
      (pos 0)
      (change_hot (set_metrics 30 1000 5 35 64) (pos 0) one_entry)
    ≡ (if monitor_index_valid (pos 0) one_entry
        then record (read_entry zero_snapshot snapshot_of (pos 0) one_entry) {
          oe2el = 30;
          cpu_cycles = 1000;
        }
        else zero_snapshot)
change_hot-read_entry_example = change_hot-read_entry (pos 0) 30 1000 5 35 64 one_entry

spec_init_enriched-spec_validate_example :
    (spec_validate (
        spec_init_enriched
          (some (codes "cam"))
          (some 1)
          (some 2)
          2048
          2048
          100
          none
          (some default_spec))
      ≡ (is_label (some (codes "cam"))
          && is_some {A = ℕ} (some 1)
          && is_some {A = ℕ} (some 2)
          && ltb 0 2048
          && ltb 0 2048
          && ltb 0 100
          && has_queues none))
    × (spec_resolve_deadline_ms (
          spec_init_enriched
            (some (codes "cam"))
            (some 1)
            (some 2)
            2048
            2048
            100
            none
            (some default_spec))
        ≡ 100)
spec_init_enriched-spec_validate_example =
    spec_init_enriched-spec_validate (some (codes "cam")) (some 1) (some 2) 2048 2048 100 none
      default_spec

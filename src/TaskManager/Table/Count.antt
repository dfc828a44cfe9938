-- ===== src/TaskManager/Table/Count.antt =====
-- `numMonitoredTasks` against the number of active entries, for each operation of Table.
use edge_aware_tasks_rtos.Prelude.{
  ℕ, ◌+◌, ◌≤◌, ◌<◌, ◌≡◌, sym, ◌∙◌, ◌≢◌, ℤ, pos, negsuc, Bool, true, false, none, some, leb, arith,
  inl, inr, Bool-cases, first_index_sound, first_index-none, count_index_same, count_index_more,
  count_index_le,
}
use edge_aware_tasks_rtos.TaskManager.Table.{
  Table, MonitorEntry, max_tasks, active_at, clear_table, record_monitor, update_linkage,
  clear_monitor_slot, clear_at, clear_entries, remove_entry, monitor_index_valid, find_free_slot,
  count_active,
}

pub record IsCounted (t : Table) : Type 0 where
  pub counted : t.num_monitored_tasks ≡ count_active t

pub count_active_le : (t : Table) → count_active t ≤ max_tasks
unfolding count_active
count_active_le t = count_index_le (active_at t) max_tasks 0

-- An operation that leaves the activity of every entry alone.
pub count_active_same :
    (t u : Table) → ((i : ℕ) → active_at t i ≡ active_at u i) → count_active t ≡ count_active u
unfolding count_active
count_active_same t u h = count_index_same (active_at t) (active_at u) max_tasks 0 (λ m _. h m)

-- Entry `j` becomes active, and no other changes.
pub count_active_more :
    (t u : Table) (j : ℕ)
    → ((i : ℕ) → i ≢ j → active_at t i ≡ active_at u i)
    → active_at t j ≡ false
    → active_at u j ≡ true
    → j < max_tasks
    → count_active u ≡ count_active t + 1
unfolding count_active
count_active_more t u j h a b l =
    omega (arith, count_index_more (active_at t) (active_at u) max_tasks 0 j h a b (omega arith) l)

pub record_monitor-IsCounted :
    (i : ℕ) (e : MonitorEntry) {t : Table}
    → i < max_tasks
    → active_at t i ≡ false
    → IsCounted t
    → IsCounted (record_monitor i e t)
unfolding record_monitor
record_monitor-IsCounted i e {t} l idle c = ground (
  arith,
  count_active_more t (record_monitor i e t) i (λ j n. ground arith) idle (ground arith) l,
  count_active_le (record_monitor i e t),
)

pub update_linkage-IsCounted :
    (i pid : ℕ) (ti pi : ℤ) {t : Table} → IsCounted t → IsCounted (update_linkage i pid ti pi t)
unfolding update_linkage
update_linkage-IsCounted i pid ti pi {t} c = record {
  counted = c.counted ∙ count_active_same t (update_linkage i pid ti pi t) (λ j. ground arith);
}

pub clear_monitor_slot-IsCounted :
    (i : ℕ) {t : Table} → IsCounted t → IsCounted (clear_monitor_slot i t)
unfolding clear_monitor_slot
clear_monitor_slot-IsCounted i {t} c = elim (Bool-cases (leb max_tasks i)) [
  | inl out ↦ rw (out, clear_monitor_slot) c
  | inr within ↦ elim (Bool-cases (active_at t i)) [
    | inl busy ↦ ground (
      arith,
      count_active_more (clear_monitor_slot i t) t i (λ j n. ground arith) (ground arith) busy
          (ground arith),
    )
    | inr idle ↦ ground (arith, count_active_same t (clear_monitor_slot i t) (λ j. ground arith))
  ]
]

pub clear_at-IsCounted : (i : ℤ) {t : Table} → IsCounted t → IsCounted (clear_at i t)
unfolding clear_at
clear_at-IsCounted (pos i) c = clear_monitor_slot-IsCounted i c
clear_at-IsCounted (negsuc n) c = c

pub clear_entries-IsCounted :
    (i j : ℤ) (b : Bool) {t : Table} → IsCounted t → IsCounted (clear_entries i j b t)
unfolding clear_entries
clear_entries-IsCounted i j true c = clear_at-IsCounted j (clear_at-IsCounted i c)
clear_entries-IsCounted i j false c = clear_at-IsCounted i c

pub remove_entry-IsCounted : (i : ℤ) {t : Table} → IsCounted t → IsCounted (remove_entry i t)
unfolding remove_entry
remove_entry-IsCounted (pos i) {t} c = elim (Bool-cases (monitor_index_valid (pos i) t)) [
  | inl ok ↦ rw (ok, remove_entry) (clear_monitor_slot-IsCounted i c)
  | inr bad ↦ rw (bad, remove_entry) c
]
remove_entry-IsCounted (negsuc n) c = c

none_active : (t : Table) → ((i : ℕ) → i < max_tasks → active_at t i ≡ false) → count_active t ≡ 0
unfolding count_active
none_active t h =
    ground
      (arith, h 0, h 1, h 2, h 3, h 4, h 5, h 6, h 7, h 8, h 9, h 10, h 11, h 12, h 13, h 14, h 15)

pub clear_table-IsCounted : (t : Table) → IsCounted (clear_table t)
unfolding clear_table
clear_table-IsCounted t = record {
  counted = sym (none_active (clear_table t) (λ i l. ground arith));
}

-- A free slot is the least inactive index; there is none only if the table is full.
pub find_free_slot_sound :
    (t : Table) {i : ℕ} → find_free_slot t ≡ some i → (active_at t i ≡ false) × (i < max_tasks)
unfolding find_free_slot
find_free_slot_sound t {i} h = ground (
  arith,
  first_index_sound (λ j. elim (active_at t j) [ true ↦ false | false ↦ true ]) max_tasks 0 {k = i}
      h,
)

pub find_free_slot-none :
    (t : Table) (i : ℕ) → find_free_slot t ≡ none → i < max_tasks → active_at t i ≡ true
unfolding find_free_slot
find_free_slot-none t i h l = ground (
  arith,
  first_index-none (λ j. elim (active_at t j) [ true ↦ false | false ↦ true ]) max_tasks 0 i h
      (omega arith) l,
)

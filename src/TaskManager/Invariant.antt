-- ===== src/TaskManager/Invariant.antt =====
-- What holds of the task manager between two calls of its functions.
pub mod Reserve
pub mod Calls
pub mod Destroy
pub mod Create
pub mod CreatePair
pub mod Steps
use edge_aware_tasks_rtos.Prelude.{
  ℕ, ◌≡◌, refl, sym, ◌∙◌, false, not, ◌&&◌, Option, none, some, List, [], ◌∷◌, has, arith, inl, inr,
  Option-cases,
}
use edge_aware_tasks_rtos.Port.Kernel.{Kernel, Trace, mutex_taken, freed}
use edge_aware_tasks_rtos.Port.Rtos.{mutex_enter, mutex_exit}
use edge_aware_tasks_rtos.Port.Locks.{Lock, free, lock_of, is_live}
use edge_aware_tasks_rtos.TaskManager.Table.{Table}
use edge_aware_tasks_rtos.TaskManager.Table.Count.{IsCounted, clear_table-IsCounted}
use edge_aware_tasks_rtos.TaskManager.Registry.{Registry, clear_registry}
use edge_aware_tasks_rtos.TaskManager.Registry.FreeList.{IsFreeList, clear_registry-IsFreeList}
use edge_aware_tasks_rtos.TaskManager.System.{
  Env, System, on_table, on_registry, free_chunks, registry_init, table_mux_init, clear_table_block,
  clear_registry_block, task_manager_init, ensure_initialized,
}

-- The lock stands at `l`, the counter is right, the free list is the unused slots, and the chunks
-- are the live blocks.
pub record InvAt (l : Lock) (s : System) : Type 0 where
  pub unlocked : lock_of s.trace ≡ l
  pub counted : IsCounted s.table
  pub unused : List ℕ
  pub linked : IsFreeList s.registry unused
  pub live : (a : ℕ) → has a s.registry.chunks ≡ is_live a s.trace

-- Between two calls no lock is held.
abbrev pub Inv : System → Type 0
Inv = InvAt free

-- What the code relies on: `pvPortMalloc` returns no block that is still allocated, and the other
-- tasks keep the counter right too.
pub record IsLawful (e : Env) : Type 0 where
  pub fresh : (t : Trace) (a : ℕ) → e.kernel.malloc t ≡ some a → is_live a t ≡ false
  pub others_counted : (t : Trace) (table : Table) → IsCounted table → IsCounted (e.others t table)

section_lock :
    (m : Option ℕ) (t : Trace) → lock_of t ≡ free → lock_of (mutex_exit m (mutex_enter m t)) ≡ free
unfolding mutex_enter mutex_exit lock_of
section_lock none t h = h
section_lock (some m) t h = ground arith

section_live :
    (a : ℕ) (m : Option ℕ) (t : Trace) → is_live a (mutex_exit m (mutex_enter m t)) ≡ is_live a t
unfolding mutex_enter mutex_exit is_live
section_live a none t = refl
section_live a (some m) t = refl

pub on_table-Inv :
    (f : Table → Table) {s : System}
    → (IsCounted s.table → IsCounted (f s.table))
    → Inv s
    → Inv (on_table f s)
unfolding on_table
on_table-Inv f {s} keep v = record {
  unlocked = section_lock s.table_mux s.trace v.unlocked;
  counted = keep v.counted;
  unused = v.unused;
  linked = v.linked;
  live = λ a. v.live a ∙ sym (section_live a s.table_mux s.trace);
}

pub on_registry-Inv :
    (f : Registry → Registry) {s : System} (l : List ℕ)
    → IsFreeList (f s.registry) l
    → (f s.registry).chunks ≡ s.registry.chunks
    → Inv s
    → Inv (on_registry f s)
unfolding on_registry
on_registry-Inv f {s} l linked same v = record {
  unlocked = section_lock s.registry_mux s.trace v.unlocked;
  counted = v.counted;
  unused = l;
  linked = linked;
  live = λ a. rw same (v.live a ∙ sym (section_live a s.registry_mux s.trace));
}

module _ (k : Kernel) where
  pub registry_init-Inv : {s : System} → Inv s → Inv (registry_init k s)
  unfolding registry_init lock_of is_live
  registry_init-Inv {s} v = elim (Option-cases s.registry_mux) [
    | inr (m, e) ↦ rw (e, registry_init) v
    | inl e ↦
        rw (e, registry_init)
          (record {
            unlocked = v.unlocked;
            counted = v.counted;
            unused = v.unused;
            linked = v.linked;
            live = v.live;
          })
  ]

  table_mux_init-Inv : {s : System} → Inv s → Inv (table_mux_init k s)
  unfolding table_mux_init lock_of is_live
  table_mux_init-Inv {s} v = elim (Option-cases s.table_mux) [
    | inr (m, e) ↦ rw (e, table_mux_init) v
    | inl e ↦
        rw (e, table_mux_init)
          (record {
            unlocked = v.unlocked;
            counted = v.counted;
            unused = v.unused;
            linked = v.linked;
            live = v.live;
          })
  ]

lock_of-free_chunks : (cs : List ℕ) (t : Trace) → lock_of (free_chunks cs t) ≡ lock_of t
unfolding free_chunks lock_of
lock_of-free_chunks [] t = refl
lock_of-free_chunks (c ∷ cs) t = lock_of-free_chunks cs _

is_live-free_chunks :
    (a : ℕ) (cs : List ℕ) (t : Trace)
    → is_live a (free_chunks cs t) ≡ (not (has a cs) && is_live a t)
unfolding free_chunks is_live
is_live-free_chunks a [] t = refl
is_live-free_chunks a (c ∷ cs) t = ground (arith, is_live-free_chunks a cs (freed c ∷ t))

section_free_lock :
    (m : Option ℕ) (cs : List ℕ) (t : Trace)
    → lock_of t ≡ free
    → lock_of (mutex_exit m (free_chunks cs (mutex_enter m t))) ≡ free
unfolding mutex_enter mutex_exit lock_of
section_free_lock none cs t h = lock_of-free_chunks cs t ∙ h
section_free_lock (some m) cs t h = ground (arith, lock_of-free_chunks cs (mutex_taken m ∷ t))

section_free_live :
    (a : ℕ) (m : Option ℕ) (cs : List ℕ) (t : Trace)
    → is_live a (mutex_exit m (free_chunks cs (mutex_enter m t))) ≡ (not (has a cs) && is_live a t)
unfolding mutex_enter mutex_exit is_live
section_free_live a none cs t = is_live-free_chunks a cs t
section_free_live a (some m) cs t = is_live-free_chunks a cs (mutex_taken m ∷ t)

-- The blocks of the registry are all freed, and the free list is emptied with them.
clear_registry_block-Inv : (k : Kernel) {s : System} → Inv s → Inv (clear_registry_block k s)
unfolding clear_registry_block clear_registry
clear_registry_block-Inv k {s} v = elim (Option-cases s.registry_mux) [
  | inl e ↦ rw (e, clear_registry_block) v
  | inr (m, e) ↦
      rw (e, clear_registry_block)
        (record {
          unlocked = section_free_lock s.registry_mux s.registry.chunks s.trace v.unlocked;
          counted = v.counted;
          unused = [];
          linked = clear_registry-IsFreeList s.registry;
          live = λ a.
              ground
                (arith, section_free_live a s.registry_mux s.registry.chunks s.trace, v.live a);
        })
]

clear_table_block-Inv : (k : Kernel) {s : System} → Inv s → Inv (clear_table_block k s)
unfolding clear_table_block
clear_table_block-Inv k {s} v = elim (Option-cases s.table_mux) [
  | inl e ↦ rw (e, clear_table_block) v
  | inr (m, e) ↦
      rw (e, clear_table_block)
        (record {
          unlocked = section_lock s.table_mux s.trace v.unlocked;
          counted = clear_table-IsCounted s.table;
          unused = v.unused;
          linked = v.linked;
          live = λ a. v.live a ∙ sym (section_live a s.table_mux s.trace);
        })
]

module _ (k : Kernel) where
  pub task_manager_init-Inv : {s : System} → Inv s → Inv (task_manager_init k s)
  unfolding task_manager_init
  task_manager_init-Inv v =
      clear_registry_block-Inv k
        (clear_table_block-Inv k (table_mux_init-Inv k (registry_init-Inv k v)))

  pub ensure_initialized-Inv : {s : System} → Inv s → Inv (ensure_initialized k s)
  unfolding ensure_initialized
  ensure_initialized-Inv {s} v = elim (Option-cases s.table_mux) [
    | inl e ↦ rw (e, ensure_initialized) (task_manager_init-Inv v)
    | inr (m, e) ↦ rw (e, ensure_initialized) v
  ]

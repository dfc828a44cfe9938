-- ===== src/TaskManager/Registry.antt =====
-- The registry of pair runtimes of task_manager.c: chunks of four slots, of which the unused ones
-- are linked into an intrusive free list. A slot's address stands for the slot and for the runtime
-- in it (`runtime_slot_from_runtime` subtracts an offset); slot `i` of the chunk at `c` is at
-- `c * 4 + i`. The chunks, linked by `next`, are the list of their addresses. `slot` is the memory:
-- a read through a dangling pointer gives what was last written there.
pub mod FreeList
pub mod Lookup
use edge_aware_tasks_rtos.Prelude.{
  ℕ, zero, suc, ◌+◌, ◌*◌, ℤ, pos, negsuc, Bool, true, false, ◌&&◌, ◌||◌, Option, none, some, List,
  [], ◌∷◌, Array, update, ◌==◌, int_eq, if◌then◌else◌, has, u32,
}
use edge_aware_tasks_rtos.TaskManager.Types.{PairRuntime, Lifecycle, ready, cleaning, client_role}

-- EDGE_TASK_RUNTIME_CHUNK_SIZE
abbrev pub chunk_size : ℕ
chunk_size = 4

-- `edge_task_runtime_slot_t`
pub record Slot : Type 0 where
  pub runtime : PairRuntime
  pub next_free : Option ℕ
  pub in_use : Bool

pub record Registry : Type 0 where
  pub chunks : List ℕ
  pub free_list : Option ℕ
  pub slot : Array Slot

-- `memset` to 0
abbrev pub zero_runtime : PairRuntime
zero_runtime = record {
  queue_client_server = none;
  queue_server_client = none;
  handler_server = none;
  handler_client = none;
  pair_id = 0;
  client_index = pos 0;
  server_index = pos 0;
  lifecycle = ready;
  client_name = [];
  server_name = [];
  local_host_label = [];
  role = client_role;
}

abbrev pub zero_slot : Slot
zero_slot = record { runtime = zero_runtime; next_free = none; in_use = false }

abbrev pub empty_registry : Registry
empty_registry = record { chunks = []; free_list = none; slot = λ _. zero_slot }

abbrev pub slot_at : ℕ → ℕ → ℕ
slot_at c i = c * chunk_size + i

-- The slots in the order in which the nested loops over chunks and slots visit them.
abbrev pub addresses : List ℕ → List ℕ
addresses [] = []
addresses (c ∷ cs) = slot_at c 0 ∷ slot_at c 1 ∷ slot_at c 2 ∷ slot_at c 3 ∷ addresses cs

-- `for (chunk …) for (slot …) if (p(slot)) return slot;`
unfoldable pub find_slot : (ℕ → Bool) → List ℕ → Option ℕ
find_slot p [] = none
find_slot p (a ∷ l) = let rest = find_slot p l in if p a then some a else rest

abbrev pub is_ready : Lifecycle → Bool
is_ready ready = true
is_ready _ = false

abbrev pub is_cleaning : Lifecycle → Bool
is_cleaning cleaning = true
is_cleaning _ = false

-- The tests of the loop in `runtime_from_task_index_locked`.
unfoldable pub slot_matches : Registry → ℤ → ℕ → Bool
slot_matches r i a =
    (r.slot a).in_use
    && is_ready (r.slot a).runtime.lifecycle
    && (int_eq (r.slot a).runtime.client_index i || int_eq (r.slot a).runtime.server_index i)

-- `runtime_from_task_index_locked`
unfoldable pub runtime_from_task_index : ℤ → Registry → Option ℕ
unfolding find_slot slot_matches
runtime_from_task_index (pos i) r = find_slot (slot_matches r (pos i)) (addresses r.chunks)
runtime_from_task_index (negsuc _) r = none

-- `runtime_registry_slot_owned`
unfoldable pub slot_owned : Registry → ℕ → Bool
slot_owned r a = has a (addresses r.chunks)

unfoldable pub set_runtime : ℕ → PairRuntime → Registry → Registry
set_runtime a v r = record r { slot = update r.slot a (record (r.slot a) { runtime = v }) }

-- `runtime_mark_retired` and `runtime_mark_cleaning`, inside the lock.
unfoldable pub mark : Lifecycle → ℕ → Registry → Registry
unfolding slot_owned set_runtime
mark l a r =
    if slot_owned r a && (r.slot a).in_use
    then set_runtime a (record ((r.slot a).runtime) { lifecycle = l }) r
    else r

-- The chunk after `memset`.
abbrev clear_chunk : ℕ → Array Slot → Array Slot
clear_chunk c f =
    update
      (update (update (update f (slot_at c 0) zero_slot) (slot_at c 1) zero_slot) (slot_at c 2)
        zero_slot)
      (slot_at c 3) zero_slot

-- The loop of `runtime_registry_expand`: push slot `i` of the chunk on the free list.
link_slots : ℕ → (rounds i : ℕ) → Registry → Registry
link_slots c zero i r = r
link_slots c (suc n) i r = link_slots c n (i + 1) (record r {
  slot = update r.slot (slot_at c i) (record (r.slot (slot_at c i)) { next_free = r.free_list });
  free_list = some (slot_at c i);
})

-- `runtime_registry_expand` after `eaPort_Malloc` returned the chunk at `c`.
unfoldable pub add_chunk : ℕ → Registry → Registry
unfolding link_slots
add_chunk c r =
    link_slots c chunk_size 0 (record r { chunks = c ∷ r.chunks; slot = clear_chunk c r.slot })

-- `reserve_pair_runtime` after the free list is known to start at `a`.
unfoldable pub take_slot : ℕ → Registry → Registry
take_slot a r = record r {
  free_list = (r.slot a).next_free;
  slot = update r.slot a (record { runtime = zero_runtime; next_free = none; in_use = true });
}

-- A slot as it is put back.
abbrev pub freed_slot : Registry → Slot
freed_slot r = record { runtime = zero_runtime; next_free = r.free_list; in_use = false }

-- `release_pair_runtime_impl`, inside the lock.
unfoldable pub release_slot : ℕ → Registry → Registry
unfolding slot_owned
release_slot a r =
    if slot_owned r a && (r.slot a).in_use
    then record r { slot = update r.slot a (freed_slot r); free_list = some a }
    else r

-- `runtime_registry_clear_locked` but for the calls of `eaPort_Free`.
unfoldable pub clear_registry : Registry → Registry
clear_registry r = record r { chunks = []; free_list = none }

-- `next_pair_id_locked`: the id, and `nextPairId` after it.
unfoldable pub next_pair_id : ℕ → ℕ × ℕ
next_pair_id n =
    let bumped = if u32 (n + 1) == 0 then 1 else u32 (n + 1) in
    if n == 0 then (bumped, u32 (bumped + 1)) else (n, bumped)

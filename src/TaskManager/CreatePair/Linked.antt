-- ===== src/TaskManager/CreatePair/Linked.antt =====
-- What an attempt to build a pair that is done has left in the pair's runtime, whatever the kernel
-- and the other tasks do.
pub mod Steps
use edge_aware_tasks_rtos.Prelude.{
  ℕ, ◌≡◌, refl, ◌∙◌, ap, ℤ, true, is_some, arith, inl, inr, Option-cases,
}
use edge_aware_tasks_rtos.Port.Kernel.{Kernel}
use edge_aware_tasks_rtos.TaskManager.Types.{PairRuntime}
use edge_aware_tasks_rtos.TaskManager.Registry.{slot_owned, set_runtime, is_ready}
use edge_aware_tasks_rtos.TaskManager.System.{System, registry_init}
use edge_aware_tasks_rtos.TaskManager.Create.{
  Attempt, done, failed, Step, and_then, runtime_at, modify_runtime, link_entry,
}
use edge_aware_tasks_rtos.TaskManager.CreatePair.Room.{link_entry-SameEntries}

-- If the attempt is done, its result and its state satisfy `P`.
abbrev pub Ensures : {A : Type 0} → (A → System → Type 0) → Attempt A → Type 0
Ensures P (done x s) = P x s
Ensures P (failed r s) = Unit {0}

pub bind-Ensures :
    {A B : Type 0} (P : A → System → Type 0) (Q : B → System → Type 0) (r : Attempt A)
    (f : A → Step B)
    → Ensures P r
    → ((x : A) (s : System) → P x s → Ensures Q (f x s))
    → Ensures Q (and_then r f)
bind-Ensures P Q (done x s) f h k = k x s h
bind-Ensures P Q (failed r s) f h k = tt

-- The table is initialised, and the runtime at `a` is reserved and ready.
pub record IsHeld (a : ℕ) (s : System) : Type 0 where
  pub initialised : is_some s.table_mux ≡ true
  pub owned : slot_owned s.registry a ≡ true
  pub in_use : (s.registry.slot a).in_use ≡ true
  pub usable : is_ready (runtime_at s a).lifecycle ≡ true

-- The runtime has both of its queues as well.
pub record IsLinked (a : ℕ) (s : System) : Type 0 where
  pub reserved : IsHeld a s
  pub to_server : is_some (runtime_at s a).queue_client_server ≡ true
  pub to_client : is_some (runtime_at s a).queue_server_client ≡ true

-- Two states with the same registry, initialised or not alike.
pub record SameRegistry (s u : System) : Type 0 where
  pub registry : u.registry ≡ s.registry
  pub initialised : u.table_mux ≡ s.table_mux

pub IsHeld-same : (a : ℕ) (s u : System) → SameRegistry s u → IsHeld a s → IsHeld a u
unfolding slot_owned
IsHeld-same a s u same v = record {
  initialised = ap is_some same.initialised ∙ v.initialised;
  owned = ap (λ r. slot_owned r a) same.registry ∙ v.owned;
  in_use = ap (λ r. (r.slot a).in_use) same.registry ∙ v.in_use;
  usable = ap (λ r. is_ready (r.slot a).runtime.lifecycle) same.registry ∙ v.usable;
}

pub IsLinked-same : (a : ℕ) (s u : System) → SameRegistry s u → IsLinked a s → IsLinked a u
IsLinked-same a s u same v = record {
  reserved = IsHeld-same a s u same v.reserved;
  to_server = ap (λ r. is_some (r.slot a).runtime.queue_client_server) same.registry ∙ v.to_server;
  to_client = ap (λ r. is_some (r.slot a).runtime.queue_server_client) same.registry ∙ v.to_client;
}

-- A write to the runtime that leaves its state alone.
pub modify-IsHeld :
    (a : ℕ) (f : PairRuntime → PairRuntime) (s : System)
    → ((r : PairRuntime) → (f r).lifecycle ≡ r.lifecycle)
    → IsHeld a s
    → IsHeld a (modify_runtime a f s)
unfolding modify_runtime set_runtime slot_owned
modify-IsHeld a f s same v = record {
  initialised = v.initialised;
  owned = v.owned;
  in_use = ground (arith, v.in_use);
  usable = ground (arith, v.usable, same (s.registry.slot a).runtime);
}

-- A write that leaves the queues alone too.
pub modify-IsLinked :
    (a : ℕ) (f : PairRuntime → PairRuntime) (s : System)
    → ((r : PairRuntime) → (f r).lifecycle ≡ r.lifecycle)
    → ((r : PairRuntime) → (f r).queue_client_server ≡ r.queue_client_server)
    → ((r : PairRuntime) → (f r).queue_server_client ≡ r.queue_server_client)
    → IsLinked a s
    → IsLinked a (modify_runtime a f s)
unfolding modify_runtime set_runtime
modify-IsLinked a f s same one two v = record {
  reserved = modify-IsHeld a f s same v.reserved;
  to_server = ground (arith, v.to_server, one (s.registry.slot a).runtime);
  to_client = ground (arith, v.to_client, two (s.registry.slot a).runtime);
}

pub link_entry-SameRegistry :
    (i : ℤ) (pid : ℕ) (ti pi : ℤ) (s : System) → SameRegistry s (link_entry i pid ti pi s)
link_entry-SameRegistry i pid ti pi s =
    let same = link_entry-SameEntries i pid ti pi s in
    record { registry = same.registry; initialised = same.initialised }

pub registry_init-SameRegistry : (k : Kernel) (s : System) → SameRegistry s (registry_init k s)
unfolding registry_init
registry_init-SameRegistry k s = elim (Option-cases s.registry_mux) [
  | inl none_yet ↦ rw (none_yet, registry_init) (record { registry = refl; initialised = refl })
  | inr (m, there) ↦ rw (there, registry_init) (record { registry = refl; initialised = refl })
]

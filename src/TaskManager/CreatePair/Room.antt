-- ===== src/TaskManager/CreatePair/Room.antt =====
-- What each step of pair creation needs and leaves of the table: its room and the client's entry.
use edge_aware_tasks_rtos.Prelude.{
  ℕ, ◌+◌, ◌<◌, ◌≡◌, refl, ap, ◌∙◌, ℤ, pos, negsuc, true, is_some, Text, codes, arith, if◌then◌else◌,
  if_cases, leb,
}
use edge_aware_tasks_rtos.TaskManager.Types.{Cold, PairRuntime}
use edge_aware_tasks_rtos.TaskManager.Table.{
  max_tasks, active_at, record_monitor, update_linkage, clip,
}
use edge_aware_tasks_rtos.TaskManager.Table.Count.{count_active_same, count_active_more}
use edge_aware_tasks_rtos.TaskManager.System.{System, on_table}
use edge_aware_tasks_rtos.TaskManager.Create.{
  Attempt, done, failed, Step, and_then, TaskArgs, entry_of, runtime_at, modify_runtime, link_entry,
  base_name,
}
use edge_aware_tasks_rtos.TaskManager.Create.Progress.{HasRoom, IsCreated}
use edge_aware_tasks_rtos.TaskManager.PairArgs.{Checked}
use edge_aware_tasks_rtos.TaskManager.CreatePair.{is_local}

-- The attempt is done, with a result and a state that satisfy `P`.
abbrev pub Succeeds : {A : Type 0} → (A → System → Type 0) → Attempt A → Type 0
Succeeds P (done x s) = P x s
Succeeds P (failed r s) = ⊥

pub bind-Succeeds :
    {A B : Type 0} (P : A → System → Type 0) (Q : B → System → Type 0) (r : Attempt A)
    (f : A → Step B)
    → Succeeds P r
    → ((x : A) (s : System) → P x s → Succeeds Q (f x s))
    → Succeeds Q (and_then r f)
bind-Succeeds P Q (done x s) f h k = k x s h
bind-Succeeds P Q (failed r s) f h k = absurd h

-- The name and the execution time of an entry.
abbrev pub label_of : Cold → Text × ℕ
label_of c = (c.name, c.wcet)

-- The runtime at `a` has a client, whose entry is active under a name, cut to what the entry holds,
-- and with an execution time, and `n` entries are left.
pub record HasClient (a : ℕ) (name : Text × ℕ) (n : ℕ) (s : System) : Type 0 where
  pub room : HasRoom n s
  pub index : ℕ
  pub within : index < max_tasks
  pub client : (runtime_at s a).client_index ≡ pos index
  pub entry : active_at s.table index ≡ true
  pub named : label_of (s.table.cold index) ≡ (clip name.0, name.1)

-- Two states of which the tables have the same activity, names and execution times, and the registries are the same.
pub record SameEntries (s u : System) : Type 0 where
  pub activity : (i : ℕ) → active_at u.table i ≡ active_at s.table i
  pub names : (i : ℕ) → label_of (u.table.cold i) ≡ label_of (s.table.cold i)
  pub registry : u.registry ≡ s.registry
  pub initialised : u.table_mux ≡ s.table_mux

pub link_entry-SameEntries :
    (i : ℤ) (pid : ℕ) (ti pi : ℤ) (s : System) → SameEntries s (link_entry i pid ti pi s)
unfolding link_entry on_table update_linkage
link_entry-SameEntries (negsuc n) pid ti pi s = record {
  activity = λ j. refl;
  names = λ j. refl;
  registry = refl;
  initialised = refl;
}
link_entry-SameEntries (pos i) pid ti pi s =
    if_cases (λ u. SameEntries s u) (leb max_tasks i)
      (λ out. record {
        activity = λ j. refl;
        names = λ j. refl;
        registry = refl;
        initialised = refl;
      })
      (λ within. record {
        activity = λ j. ground arith;
        names = λ j. ground arith;
        registry = refl;
        initialised = refl;
      })

pub SameEntries-HasRoom : {s u : System} (n : ℕ) → SameEntries s u → HasRoom n s → HasRoom n u
SameEntries-HasRoom {s} {u} n same v = record {
  initialised = ap is_some same.initialised ∙ v.initialised;
  room = omega (arith, count_active_same u.table s.table same.activity, v.room);
}

pub SameEntries-HasClient :
    {s u : System} (a : ℕ) (name : Text × ℕ) (n : ℕ)
    → SameEntries s u
    → HasClient a name n s
    → HasClient a name n u
SameEntries-HasClient a name n same v = record {
  room = SameEntries-HasRoom n same v.room;
  index = v.index;
  within = v.within;
  client = ap (λ r. (r.slot a).runtime.client_index) same.registry ∙ v.client;
  entry = same.activity v.index ∙ v.entry;
  named = same.names v.index ∙ v.named;
}

pub modify-HasRoom :
    (a n : ℕ) (f : PairRuntime → PairRuntime) (s : System)
    → HasRoom n s
    → HasRoom n (modify_runtime a f s)
unfolding modify_runtime
modify-HasRoom a n f s v = record { initialised = v.initialised; room = v.room }

pub IsCreated-HasRoom :
    (t : TaskArgs) (i n : ℕ) (s u : System) → HasRoom (n + 1) s → IsCreated t i s u → HasRoom n u
unfolding record_monitor
IsCreated-HasRoom t i n s u v c = record {
  initialised = c.initialised ∙ v.initialised;
  room = rw c.table (
      omega (
        arith,
        v.room,
        count_active_more s.table (record_monitor i (entry_of t i s) s.table) i
            (λ j d. ground arith) c.was_free (ground arith) c.within,
      ));
}

pub IsCreated-HasClient :
    (t : TaskArgs) (i a n : ℕ) (name : Text × ℕ) (s u : System)
    → HasClient a name (n + 1) s
    → IsCreated t i s u
    → HasClient a name n u
unfolding record_monitor
IsCreated-HasClient t i a n name s u v c = record {
  room = IsCreated-HasRoom t i n s u v.room c;
  index = v.index;
  within = v.within;
  client = ap (λ r. (r.slot a).runtime.client_index) c.registry ∙ v.client;
  entry = rw c.table (ground (arith, v.entry, c.was_free));
  named = rw c.table (ground (arith, v.entry, c.was_free, v.named));
}

-- A write to the runtime that leaves the client's index alone.
pub modify-HasClient :
    (a n : ℕ) (name : Text × ℕ) (f : PairRuntime → PairRuntime) (s : System)
    → ((r : PairRuntime) → (f r).client_index ≡ r.client_index)
    → HasClient a name n s
    → HasClient a name n (modify_runtime a f s)
unfolding modify_runtime
modify-HasClient a n name f s same v = record {
  room = modify-HasRoom a n f s v.room;
  index = v.index;
  within = v.within;
  client = ground (arith, same (s.registry.slot a).runtime, v.client);
  entry = v.entry;
  named = v.named;
}

-- The name under which the client is recorded.
abbrev pub client_base_name : Checked → Text
client_base_name c =
    if is_local c.app_type
    then base_name (codes "-lc-") c.name c.core
    else base_name (codes "-cl-") c.name c.core

-- The label under which the client is recorded.
abbrev pub client_label : Checked → Text × ℕ
client_label c = (client_base_name c, c.client_wcet)

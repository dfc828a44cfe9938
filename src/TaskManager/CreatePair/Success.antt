-- ===== src/TaskManager/CreatePair/Success.antt =====
-- `CreateEATaskPinnedToCoreEx` from a valid call to its result, where nothing stands in its way.
use edge_aware_tasks_rtos.Prelude.{
  ℕ, ◌≡◌, refl, ap, pos, true, some, Text, arith, inl, inr, Option-cases,
}
use edge_aware_tasks_rtos.Port.Rtos.{port_malloc}
use edge_aware_tasks_rtos.TaskManager.Types.{failure_none}
use edge_aware_tasks_rtos.TaskManager.Table.{clip, monitor_index_valid}
use edge_aware_tasks_rtos.TaskManager.Registry.{slot_at, add_chunk}
use edge_aware_tasks_rtos.TaskManager.System.{
  Env, System, registry_init, enter_registry, exit_registry, registry_expand, pop_free,
  expand_and_pop, reserve_pair_runtime,
}
use edge_aware_tasks_rtos.TaskManager.Create.{Attempt, done, failed, runtime_at}
use edge_aware_tasks_rtos.TaskManager.Create.Progress.{IsGenerous, HasRoom}
use edge_aware_tasks_rtos.TaskManager.PairArgs.{PairArgs, Checked, check_args}
use edge_aware_tasks_rtos.TaskManager.CreatePair.{
  build_pair, finish_attempt, finish_pair, create_pair_ex,
}
use edge_aware_tasks_rtos.TaskManager.CreatePair.Room.{
  Succeeds, HasClient, client_base_name, client_label,
}
use edge_aware_tasks_rtos.TaskManager.CreatePair.Progress.{build_pair-Succeeds}

module _ (e : Env) (open_handed : IsGenerous e) where
  pop_free_lem :
      (a n : ℕ) (s : System)
      → s.registry.free_list ≡ some a
      → HasRoom n s
      → ((pop_free e.kernel s).0 ≡ some a) × HasRoom n (pop_free e.kernel s).1
  unfolding pop_free exit_registry
  pop_free_lem a n s h v =
      rw (h, pop_free) (refl, record { initialised = v.initialised; room = v.room })

  registry_expand_lem :
      (n : ℕ) (s : System)
      → HasRoom n s
      → ((registry_expand e.kernel s).0 ≡ true)
        × ((a : ℕ) × ((registry_expand e.kernel s).1.registry.free_list ≡ some a))
        × HasRoom n (registry_expand e.kernel s).1
  unfolding registry_expand port_malloc add_chunk
  registry_expand_lem n s v =
      let (c, got) = open_handed.malloc s.trace in
      rw (got, registry_expand)
        (refl, (slot_at c 3, refl), record { initialised = v.initialised; room = v.room })

  expand_and_pop_lem :
      (n : ℕ) (s : System)
      → HasRoom n s
      → (a : ℕ) × ((expand_and_pop e.kernel s).0 ≡ some a) × HasRoom n (expand_and_pop e.kernel s).1
  unfolding expand_and_pop
  expand_and_pop_lem n s v =
      let (grown, (a, h), room) = registry_expand_lem n s v in
      let (got, left) = pop_free_lem a n (registry_expand e.kernel s).1 h room in
      (a, rw (grown, expand_and_pop) got, rw (grown, expand_and_pop) left)

  entered-HasRoom :
      (n : ℕ) (s : System) → HasRoom n s → HasRoom n (enter_registry (registry_init e.kernel s))
  unfolding registry_init enter_registry
  entered-HasRoom n s v = elim (Option-cases s.registry_mux) [
    | inl none_yet ↦
        rw (none_yet, registry_init) (record { initialised = v.initialised; room = v.room })
    | inr (m, ready) ↦
        rw (ready, registry_init) (record { initialised = v.initialised; room = v.room })
  ]

  pub reserve_pair_runtime_lem :
      (n : ℕ) (s : System)
      → HasRoom n s
      → (a : ℕ) × ((reserve_pair_runtime e.kernel s).0 ≡ some a)
        × HasRoom n (reserve_pair_runtime e.kernel s).1
  unfolding reserve_pair_runtime
  reserve_pair_runtime_lem n s v =
      let u = enter_registry (registry_init e.kernel s) in
      let w = entered-HasRoom n s v in
      elim (Option-cases u.registry.free_list) [
        | inr (a, h) ↦
            let (got, room) = pop_free_lem a n u h w in
            (a, rw (h, reserve_pair_runtime) got, rw (h, reserve_pair_runtime) room)
        | inl h ↦
            let (a, got, room) = expand_and_pop_lem n u w in
            (a, rw (h, reserve_pair_runtime) got, rw (h, reserve_pair_runtime) room)
      ]

pub HasClient-valid :
    {a n : ℕ} {label : Text × ℕ} {s : System} (v : HasClient a label n s)
    → monitor_index_valid (pos v.index) s.table ≡ true
unfolding monitor_index_valid
HasClient-valid v = ground (arith, v.entry, v.within)

module _ (e : Env) where
  finish_attempt_done :
      (P : Unit {0} → System → Type 0) (c : Checked) (a : ℕ) (r : Attempt (Unit {0}))
      → Succeeds P r
      → (u : System) × (finish_attempt e c a r ≡ (
        record { task_index = (runtime_at u a).client_index; failure_reason = failure_none },
        u,
      ))
        × P tt u
  unfolding finish_attempt
  finish_attempt_done P c a (failed r u) h = absurd h
  finish_attempt_done P c a (done x u) v = (u, refl, v)

  -- From an attempt that succeeds with `P`, the call returns the client's index, in a state where
  -- `P` holds.
  pub create_pair_ex_built :
      (P : Unit {0} → System → Type 0) (p : PairArgs) (c : Checked) (a : ℕ) (s : System)
      → check_args p ≡ some c
      → (reserve_pair_runtime e.kernel s).0 ≡ some a
      → Succeeds P (build_pair e c a (reserve_pair_runtime e.kernel s).1)
      → (u : System) × (create_pair_ex e p s ≡ (
        record { task_index = (runtime_at u a).client_index; failure_reason = failure_none },
        u,
      ))
        × P tt u
  unfolding create_pair_ex finish_pair
  create_pair_ex_built P p c a s good got h =
      let (u, whole, v) =
        finish_attempt_done P c a (build_pair e c a (reserve_pair_runtime e.kernel s).1) h in
      (u, rw (good, create_pair_ex) (rw got whole), v)

module _ (e : Env) (open_handed : IsGenerous e) where
  -- Where the kernel grants every allocation, queue and task, the test hook forces no failure and
  -- no other task changes the table, the creation of a pair with valid arguments succeeds if the
  -- table is initialised and has two entries left: its result is a task index without a failure,
  -- that index is valid, and its entry has the name and the execution time of the pair's client.
  pub create_pair_ex_succeeds :
      (p : PairArgs) (c : Checked) (s : System)
      → check_args p ≡ some c
      → HasRoom 2 s
      → (i : ℕ) × ((create_pair_ex e p s).0
          ≡ record { task_index = pos i; failure_reason = failure_none })
        × (monitor_index_valid (pos i) (create_pair_ex e p s).1.table ≡ true)
        × (((create_pair_ex e p s).1.table.cold i).name ≡ clip (client_base_name c))
        × (((create_pair_ex e p s).1.table.cold i).wcet ≡ c.client_wcet)
  create_pair_ex_succeeds p c s good v =
      let (a, got, room) = reserve_pair_runtime_lem e open_handed 2 s v in
      let (u, whole, w) =
        create_pair_ex_built e (λ _. HasClient a (client_label c) 0) p c a s good got
          (build_pair-Succeeds e open_handed c a (reserve_pair_runtime e.kernel s).1 room) in
      (
        w.index,
        rw whole (ground (arith, w.client)),
        rw whole (HasClient-valid w),
        rw whole (ap (λ x. x.0) w.named),
        rw whole (ap (λ x. x.1) w.named),
      )

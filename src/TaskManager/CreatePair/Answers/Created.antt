-- ===== src/TaskManager/CreatePair/Answers/Created.antt =====
-- That the runtime of a pair that `CreateEATaskPinnedToCoreEx` created answers its index.
use edge_aware_tasks_rtos.Prelude.{
  ℕ, ◌≡◌, ap, pos, true, some, is_some, arith, inl, inr, Option-cases, List,
}
use edge_aware_tasks_rtos.TaskManager.Types.{failure_none}
use edge_aware_tasks_rtos.TaskManager.Registry.{slot_owned, slot_matches, runtime_from_task_index}
use edge_aware_tasks_rtos.TaskManager.Registry.FreeList.{IsFreeList}
use edge_aware_tasks_rtos.TaskManager.Registry.Lookup.{runtime_from_task_index-none}
use edge_aware_tasks_rtos.TaskManager.System.{Env, System, reserve_pair_runtime}
use edge_aware_tasks_rtos.TaskManager.Create.{Attempt, done, failed, runtime_at}
use edge_aware_tasks_rtos.TaskManager.Create.Progress.{IsGenerous, HasRoom}
use edge_aware_tasks_rtos.TaskManager.PairArgs.{PairArgs, Checked, check_args}
use edge_aware_tasks_rtos.TaskManager.CreatePair.{build_pair, create_pair_ex}
use edge_aware_tasks_rtos.TaskManager.CreatePair.Room.{Succeeds, HasClient, client_label}
use edge_aware_tasks_rtos.TaskManager.CreatePair.Progress.{build_pair-Succeeds}
use edge_aware_tasks_rtos.TaskManager.CreatePair.Success.{
  reserve_pair_runtime_lem, create_pair_ex_built,
}
use edge_aware_tasks_rtos.TaskManager.CreatePair.Linked.{Ensures, IsLinked}
use edge_aware_tasks_rtos.TaskManager.CreatePair.Answers.{
  build_pair-IsLinked, reserve_pair_runtime-Reserves,
}

both :
    {A : Type 0} (P Q : A → System → Type 0) (r : Attempt A)
    → Succeeds P r
    → Ensures Q r
    → Succeeds (λ x s. P x s × Q x s) r
both P Q (done x s) p q = (p, q)
both P Q (failed r s) p q = p

-- The runtime at `a` is linked and has a client as `c` asks for it.
abbrev pub Built : Checked → ℕ → System → Type 0
Built c a s = HasClient a (client_label c) 0 s × IsLinked a s

-- A runtime of the registry that is in use and ready answers its client's index.
pub answers :
    (c : Checked) (a : ℕ) (s : System) (v : Built c a s)
    → (slot_matches s.registry (pos v.0.index) a ≡ true)
      × (is_some (runtime_from_task_index (pos v.0.index) s.registry) ≡ true)
unfolding slot_matches
answers c a s v =
    let matches : slot_matches s.registry (pos v.0.index) a ≡ true =
      ground (arith, v.0.client, v.1.reserved.in_use, v.1.reserved.usable) in
    (
      matches,
      elim (Option-cases (runtime_from_task_index (pos v.0.index) s.registry)) [
        | inr (b, found) ↦ ap is_some found
        | inl missing ↦ ground (
          arith,
          matches,
          runtime_from_task_index-none v.0.index s.registry a missing v.1.reserved.owned,
        )
      ],
    )

module _ (e : Env) (open_handed : IsGenerous e) where
  pub create_pair_ex-Built :
      (p : PairArgs) (c : Checked) (s : System) (l : List ℕ)
      → check_args p ≡ some c
      → HasRoom 2 s
      → IsFreeList s.registry l
      → (a : ℕ) × (u : System) × (create_pair_ex e p s ≡ (
        record { task_index = (runtime_at u a).client_index; failure_reason = failure_none },
        u,
      ))
        × Built c a u
  create_pair_ex-Built p c s l good room unused =
      let (a, got, left) = reserve_pair_runtime_lem e open_handed 2 s room in
      let u = (reserve_pair_runtime e.kernel s).1 in
      let held = reserve_pair_runtime-Reserves e.kernel l s room.initialised unused a got in
      let (x, whole, v) =
        create_pair_ex_built e (λ _. Built c a) p c a s good got
          (both (λ _. HasClient a (client_label c) 0) (λ _. IsLinked a) (build_pair e c a u)
            (build_pair-Succeeds e open_handed c a u left) (build_pair-IsLinked e c a u held)) in
      (a, x, whole, v)

  -- Under the same conditions on the kernel, the hook and the other tasks, and a free list of the
  -- unused slots, a pair with valid arguments is created whatever its kind, and a runtime of the
  -- registry, in use and ready, answers the index that the creation returns and has both of its
  -- queues; a look-up of that index finds a runtime.
  pub create_pair_ex_answers :
      (p : PairArgs) (c : Checked) (s : System) (l : List ℕ)
      → check_args p ≡ some c
      → HasRoom 2 s
      → IsFreeList s.registry l
      → (i a : ℕ) × ((create_pair_ex e p s).0
          ≡ record { task_index = pos i; failure_reason = failure_none })
        × (slot_owned (create_pair_ex e p s).1.registry a ≡ true)
        × (slot_matches (create_pair_ex e p s).1.registry (pos i) a ≡ true)
        × (is_some (runtime_from_task_index (pos i) (create_pair_ex e p s).1.registry) ≡ true)
        × (is_some (runtime_at (create_pair_ex e p s).1 a).queue_client_server ≡ true)
        × (is_some (runtime_at (create_pair_ex e p s).1 a).queue_server_client ≡ true)
  create_pair_ex_answers p c s l good room unused =
      let (a, u, whole, v) = create_pair_ex-Built p c s l good room unused in
      let (matches, found) = answers c a u v in
      (
        v.0.index,
        a,
        rw whole (ground (arith, v.0.client)),
        rw whole v.1.reserved.owned,
        rw whole matches,
        rw whole found,
        rw whole v.1.to_server,
        rw whole v.1.to_client,
      )

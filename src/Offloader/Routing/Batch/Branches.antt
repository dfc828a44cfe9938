-- ===== src/Offloader/Routing/Batch/Branches.antt =====
-- The branches of `run_batch_cycle` of offloader.c that a batch with a whole plan takes.
use edge_aware_tasks_rtos.Prelude.{
  ℕ, ◌+◌, ◌<◌, ◌≤◌, ◌≡◌, refl, ◌∙◌, ap, minus_one, Bool, true, false, not, Option, none, some,
  is_some, Array, get_or, length, ltb, ◌==◌, ==_iff, arith, if◌then◌else◌,
}
use edge_aware_tasks_rtos.Port.Kernel.{Kernel}
use edge_aware_tasks_rtos.TaskManager.Table.{max_tasks}
use edge_aware_tasks_rtos.TaskManager.Unchanged.{Same}
use edge_aware_tasks_rtos.Offloader.Types.{
  Route, route_local, event_policy_rejected, event_invalid_vector, PlanFn, Planning, status_ok,
  status_invalid_vector, PolicyContext, Candidate, RouteResult, zero_result,
}
use edge_aware_tasks_rtos.Offloader.State.{
  World, state_ready, batch_mode_enabled, policy_context, fail_event,
}
use edge_aware_tasks_rtos.Offloader.Policy.{RouteFn, plan_loop, plan_with, finish_plan}
use edge_aware_tasks_rtos.Offloader.Cycle.{
  count_or, status_or, results_or, collect_candidates, normalize_loop,
}
use edge_aware_tasks_rtos.Offloader.Run.{
  zero_candidate, candidates_or, apply_loop, apply_batch_results, apply_plan, run_batch_cycle,
  run_once, run_per_task_cycle,
}
use edge_aware_tasks_rtos.Offloader.Collection.Filled.{collect_candidates-eligible}
use edge_aware_tasks_rtos.Offloader.Routing.Batch.{result_of, apply_list, apply_loop-apply_list}
use edge_aware_tasks_rtos.Offloader.Routing.Batch.Normal.{IsOwned, normalize_loop_lem}
use edge_aware_tasks_rtos.Offloader.Routing.EachTask.Once.{eligible_length, collected, all_eligible}

not_less : (n : ℕ) → ltb n n ≡ false
not_less n = ground arith

plan_with_lem :
    (er : RouteFn) (x : PolicyContext) (cs : Array Candidate) (n : ℕ) (rs : Array RouteResult)
    → (n == 0) ≡ false
    → (plan_loop er cs n 0 rs).0 ≡ true
    → plan_with er x (some cs) n (some rs) n (some 0) (some status_ok)
      ≡ finish_plan er true (plan_loop er cs n 0 rs).1 n 0 (some status_ok)
unfolding plan_with
plan_with_lem er x cs n rs some_left decided =
    rw (some_left, plan_with)
      (rw (not_less n)
        (ap (λ b. finish_plan er b (plan_loop er cs n 0 rs).1 n 0 (some status_ok)) decided))

module _ (k : Kernel) where
  -- What is done with a plan.
  abbrev after_plan : Array Candidate → ℕ → World → Planning → Bool × World
  after_plan cs n w p =
      let status = status_or status_ok p.status in
      if not p.accepted
      then (false, fail_event event_policy_rejected minus_one route_local status w)
      else if count_or 0 p.written == n
      then apply_batch_results k cs (results_or (λ _. zero_result) p.results) n w
      else (false, fail_event event_invalid_vector minus_one route_local status_invalid_vector w)

  pub apply_plan_lem :
      (er : RouteFn) (cs : Array Candidate) (n : ℕ) (w : World)
      → (n == 0) ≡ false
      → (plan_loop er cs n 0 (λ _. zero_result)).0 ≡ true
      → apply_plan k (plan_with er) cs n w
        ≡ apply_batch_results k cs (plan_loop er cs n 0 (λ _. zero_result)).1 n w
  unfolding apply_plan
  apply_plan_lem er cs n w some_left decided =
      let same : (n == n) ≡ true = (==_iff n n).1 refl in
      ap (after_plan cs n w)
        (plan_with_lem er (policy_context w.offloader) cs n (λ _. zero_result) some_left decided)
      ∙ rw same refl

  apply_batch_results_lem :
      (cs : Array Candidate) (rs : Array RouteResult) (n : ℕ) (w : World)
      → (n == 0) ≡ false
      → n ≤ max_tasks
      → (normalize_loop k cs rs n 0 (λ _. zero_result) w.system).0 ≡ true
      → apply_batch_results k cs rs n w
        ≡ apply_loop k
            (normalize_loop k cs rs n 0 (λ _. zero_result) w.system).1
            n
            0
            (record w { system = (normalize_loop k cs rs n 0 (λ _. zero_result) w.system).2 })
  unfolding apply_batch_results
  apply_batch_results_lem cs rs n w some_left fits ok =
      let within : ltb max_tasks n ≡ false = ground (arith, fits) in
      rw (some_left, apply_batch_results) (rw (within, ok) refl)

  -- A batch in which every candidate is owned is applied to the last.
  pub owned_batch :
      (route : Candidate → Route) (w : World) (u : World) (rs : Array RouteResult)
      (cs : Array Candidate)
      → length (all_eligible k w) == 0 ≡ false
      → ((m : ℕ) → m < length (all_eligible k w) → IsOwned (cs m) (rs m) u.system)
      → ((m : ℕ)
          → m < length (all_eligible k w)
          → rs m ≡ result_of route (get_or (all_eligible k w) m zero_candidate))
      → (v : World) × (apply_batch_results k cs rs (length (all_eligible k w)) u
          ≡ apply_list k route (all_eligible k w) v)
        × Same v.system u.system
        × (v.offloader ≡ u.offloader)
  owned_batch route w u rs cs some_left owned shape =
      let n = length (all_eligible k w) in
      let fits = eligible_length max_tasks 0 w.system.table w.system.registry in
      let v =
        normalize_loop_lem k cs rs n 0 (λ _. zero_result) u.system u.system
          (record { table = refl; registry = refl; initialised = refl })
          (λ m from less. owned m (omega (arith, less))) in
      let out = normalize_loop k cs rs n 0 (λ _. zero_result) u.system in
      (
        record u { system = out.2 },
        apply_batch_results_lem cs rs n u some_left fits v.success
            ∙ apply_loop-apply_list k route out.1 (all_eligible k w) zero_candidate 0
                (record u { system = out.2 })
                (λ m less.
                  let place : 0 + m ≡ m = omega arith in
                  ap out.1 place ∙ v.each m (omega arith) (omega (arith, less)) ∙ shape m less),
        v.same,
        refl,
      )

  pub run_batch_lem :
      (er : RouteFn) (w : World)
      → state_ready w.offloader ≡ true
      → batch_mode_enabled w.offloader ≡ true
      → w.offloader.policy.plan ≡ some (plan_with er)
      → run_once k w ≡ run_batch_cycle k w
  unfolding run_once
  run_batch_lem er w ready batched policy =
      let rest = λ (b : Bool). if b then run_batch_cycle k w else elim w.offloader.policy.evaluate [
        | none ↦ (false, w)
        | some evaluate ↦ run_per_task_cycle k evaluate w
      ] in
      ap (λ b. if not b then (false, w) else rest (batch_mode_enabled w.offloader)) ready
      ∙ ap rest batched

  pub run_batch_cycle_lem :
      (er : RouteFn) (w : World)
      → is_some w.system.table_mux ≡ true
      → w.offloader.policy.plan ≡ some (plan_with er)
      → run_batch_cycle k w ≡ (
          if length (all_eligible k w) == 0
          then (false, collected k w)
          else apply_plan k
              (plan_with er)
              (candidates_or
                (λ _. zero_candidate)
                (collect_candidates k (some (λ _. zero_candidate)) max_tasks w.system).1)
              (length (all_eligible k w))
              (collected k w))
  unfolding run_batch_cycle
  run_batch_cycle_lem er w mux policy =
      let (counted, stored, same) =
        collect_candidates-eligible k (λ _. zero_candidate) max_tasks 0 w.system mux in
      let out = (collect_candidates k (some (λ _. zero_candidate)) max_tasks w.system).1 in
      let with_plan : ℕ → PlanFn → Bool × World = λ n plan.
        if n == 0
        then (false, collected k w)
        else apply_plan k plan (candidates_or (λ _. zero_candidate) out) n (collected k w) in
      ap
        (λ (p : Option PlanFn). elim p [
          | none ↦ (false, w)
          | some plan ↦
              with_plan (collect_candidates k (some (λ _. zero_candidate)) max_tasks w.system).0
                plan
        ])
        policy
      ∙ ap (λ n. with_plan n (plan_with er)) counted

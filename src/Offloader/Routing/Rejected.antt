-- ===== src/Offloader/Routing/Rejected.antt =====
-- What the fixed-priority policy does not decide is not routed.
use edge_aware_tasks_rtos.Prelude.{
  ℕ, ◌+◌, ◌≡◌, refl, ◌∙◌, ap, subst, sym, pos, true, false, some, arith, is_some, u32,
}
use edge_aware_tasks_rtos.Port.Kernel.{Kernel}
use edge_aware_tasks_rtos.TaskManager.Table.{clip, monitor_index_valid}
use edge_aware_tasks_rtos.TaskManager.Registry.{runtime_from_task_index}
use edge_aware_tasks_rtos.TaskManager.Access.{is_client_task}
use edge_aware_tasks_rtos.TaskManager.Unchanged.{Same, Same-trans}
use edge_aware_tasks_rtos.Offloader.Types.{zero_result, EvalFn, PolicyContext, Candidate, status_ok}
use edge_aware_tasks_rtos.Offloader.State.{
  World, state_ready, policy_context, fail_event, observability_record, count_event,
}
use edge_aware_tasks_rtos.Offloader.Policy.{fp_evaluate, fp_evaluate_route, evaluate_with}
use edge_aware_tasks_rtos.Offloader.Cycle.{collect_candidate_at_index}
use edge_aware_tasks_rtos.Offloader.Run.{route_candidate, run_for_task_index}
use edge_aware_tasks_rtos.Offloader.Routing.{
  candidate_at, collect_candidate_at_index_lem, run_for_task_index_collected,
}

fp_evaluate_zero :
    (x : PolicyContext) (c : Candidate)
    → c.snapshot.wcet ≡ 0
    → (fp_evaluate x (some c) (some zero_result) (some status_ok)).accepted ≡ false
unfolding fp_evaluate evaluate_with fp_evaluate_route
fp_evaluate_zero x c none_needed = ground (arith, none_needed)

module _ (k : Kernel) where
  route_candidate_rejected :
      (evaluate : EvalFn) (c : Candidate) (w : World)
      → (evaluate
          (policy_context w.offloader)
          (some c)
          (some zero_result)
          (some status_ok)).accepted
        ≡ false
      → ((route_candidate k evaluate c w).0 ≡ false)
        × Same (route_candidate k evaluate c w).1.system w.system
        × ((route_candidate k evaluate c w).1.offloader.observed.failure_events
            ≡ u32 (w.offloader.observed.failure_events + 1))
  unfolding route_candidate fail_event observability_record count_event
  route_candidate_rejected evaluate c w refused =
      rw (refused, route_candidate)
        (refl, record { table = refl; registry = refl; initialised = refl }, refl)

  -- Under a ready offloader with the fixed-priority policy and an initialised table, running the
  -- cycle for the valid index of a client that has a runtime and an execution time of 0 fails,
  -- leaves the table and the registry as they are, and counts one failure more, modulo 2 ^ 32.
  pub run_for_task_index_zero_wcet :
      (i a : ℕ) (w : World)
      → state_ready w.offloader ≡ true
      → w.offloader.policy.evaluate ≡ some fp_evaluate
      → is_some w.system.table_mux ≡ true
      → monitor_index_valid (pos i) w.system.table ≡ true
      → is_client_task (some (clip (w.system.table.cold i).name)) ≡ true
      → runtime_from_task_index (pos i) w.system.registry ≡ some a
      → (w.system.table.cold i).wcet ≡ 0
      → ((run_for_task_index k (pos i) w).0 ≡ false)
        × Same (run_for_task_index k (pos i) w).1.system w.system
        × ((run_for_task_index k (pos i) w).1.offloader.observed.failure_events
            ≡ u32 (w.offloader.observed.failure_events + 1))
  run_for_task_index_zero_wcet i a w ready policy mux valid client found no_work =
      let (which, same) = collect_candidate_at_index_lem k i a w.system mux valid client found in
      let c = candidate_at i a w.system in
      let u = record w { system = (collect_candidate_at_index k (pos i) w.system).1 } in
      let run = run_for_task_index_collected k i fp_evaluate c w ready policy which in
      let (refused, kept, counted) =
        route_candidate_rejected fp_evaluate c u
          (fp_evaluate_zero (policy_context w.offloader) c no_work) in
      (
        ap (λ x. x.0) run ∙ refused,
        subst (λ x. Same x.1.system w.system) (sym run) (Same-trans kept same),
        ap (λ x. x.1.offloader.observed.failure_events) run ∙ counted,
      )

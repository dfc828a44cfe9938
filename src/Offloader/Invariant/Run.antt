-- ===== src/Offloader/Invariant/Run.antt =====
-- The offloader's invariant for the control cycles.
use edge_aware_tasks_rtos.Prelude.{
  ℕ, zero, suc, ◌+◌, ℤ, minus_one, false, ◌||◌, some, Array, ltb, ◌==◌, if◌then◌else◌, inl, inr,
  Bool-cases, Option-cases,
}
use edge_aware_tasks_rtos.Port.Kernel.{Kernel}
use edge_aware_tasks_rtos.TaskManager.Table.{max_tasks}
use edge_aware_tasks_rtos.Offloader.Types.{
  route_local, event_policy_rejected, event_invalid_vector, event_mutation_failed, status_ok,
  status_invalid_vector, Candidate, RouteResult, zero_result, EvalFn, PlanFn,
}
use edge_aware_tasks_rtos.Offloader.State.{
  Offloader, World, state_ready, policy_context, batch_mode_enabled,
}
use edge_aware_tasks_rtos.Offloader.Cycle.{
  result_or, status_or, results_or, count_or, collect_candidate_at_index, collect_candidates,
  result_is_valid, normalize_loop, apply_result,
}
use edge_aware_tasks_rtos.Offloader.Run.{
  zero_candidate, candidates_or, route_candidate, per_task_loop, run_per_task_cycle, apply_loop,
  apply_batch_results, apply_plan, run_batch_cycle, run_for_task_index, run_once,
}
use edge_aware_tasks_rtos.Offloader.Invariant.{IsRouted, system-IsRouted, fail_event-IsRouted}
use edge_aware_tasks_rtos.Offloader.Invariant.Cycle.{
  collect_candidate_at_index-Inv, collect_candidates-Inv, result_is_valid-Inv, normalize_loop-Inv,
  apply_result-IsRouted,
}

module _ (k : Kernel) {o : Offloader} where
  route_candidate-IsRouted :
      (evaluate : EvalFn) (c : Candidate) {w : World}
      → IsRouted o w
      → IsRouted o (route_candidate k evaluate c w).1
  unfolding route_candidate
  route_candidate-IsRouted evaluate c {w} v =
      let ev = evaluate (policy_context w.offloader) (some c) (some zero_result) (some status_ok) in
      let result = result_or zero_result ev.result in
      let status = status_or status_ok ev.status in
      let checked = result_is_valid k c result w.system in
      let u = system-IsRouted v (result_is_valid-Inv k c result v.between_calls) in
      elim (Bool-cases ev.accepted) [
        | inr e ↦
            rw (e, route_candidate)
              (fail_event-IsRouted event_policy_rejected c.task_index route_local status v)
        | inl e ↦ elim (Bool-cases checked.0) [
          | inr f ↦
              rw (e, route_candidate)
                (rw f (fail_event-IsRouted event_invalid_vector c.task_index route_local status u))
          | inl f ↦ rw (e, route_candidate) (rw f (apply_result-IsRouted k (some result) u))
        ]
      ]

  per_task_loop-IsRouted :
      (evaluate : EvalFn) (cs : Array Candidate) (n i : ℕ) {w : World}
      → IsRouted o w
      → IsRouted o (per_task_loop k evaluate cs n i w).1
  unfolding per_task_loop
  per_task_loop-IsRouted evaluate cs zero i v = v
  per_task_loop-IsRouted evaluate cs (suc n) i {w} v =
      let u = route_candidate-IsRouted evaluate (cs i) v in
      elim (Bool-cases (route_candidate k evaluate (cs i) w).0) [
        | inl e ↦ rw (e, per_task_loop) (per_task_loop-IsRouted evaluate cs n (i + 1) u)
        | inr e ↦ rw (e, per_task_loop) u
      ]

  run_per_task_cycle-IsRouted :
      (evaluate : EvalFn) {w : World}
      → IsRouted o w
      → IsRouted o (run_per_task_cycle k evaluate w).1
  unfolding run_per_task_cycle
  run_per_task_cycle-IsRouted evaluate {w} v =
      let found = collect_candidates k (some (λ _. zero_candidate)) max_tasks w.system in
      let u =
        system-IsRouted v
          (collect_candidates-Inv k (some (λ _. zero_candidate)) max_tasks v.between_calls) in
      elim (Bool-cases (found.0 == 0)) [
        | inl e ↦ rw (e, run_per_task_cycle) u
        | inr e ↦
            rw (e, run_per_task_cycle)
              (per_task_loop-IsRouted evaluate (candidates_or (λ _. zero_candidate) found.1) found.0
                0 u)
      ]

  apply_loop-IsRouted :
      (rs : Array RouteResult) (n i : ℕ) {w : World}
      → IsRouted o w
      → IsRouted o (apply_loop k rs n i w).1
  unfolding apply_loop
  apply_loop-IsRouted rs zero i v = v
  apply_loop-IsRouted rs (suc n) i {w} v =
      let u = apply_result-IsRouted k (some (rs i)) v in
      elim (Bool-cases (apply_result k (some (rs i)) w).0) [
        | inl e ↦ rw (e, apply_loop) (apply_loop-IsRouted rs n (i + 1) u)
        | inr e ↦
            rw (e, apply_loop)
              (fail_event-IsRouted event_mutation_failed (rs i).task_index (rs i).route
                status_invalid_vector u)
      ]

  apply_batch_results-IsRouted :
      (cs : Array Candidate) (rs : Array RouteResult) (count : ℕ) {w : World}
      → IsRouted o w
      → IsRouted o (apply_batch_results k cs rs count w).1
  unfolding apply_batch_results
  apply_batch_results-IsRouted cs rs count {w} v =
      let checked = normalize_loop k cs rs count 0 (λ _. zero_result) w.system in
      let u =
        system-IsRouted v (normalize_loop-Inv k cs rs count 0 (λ _. zero_result) v.between_calls) in
      elim (Bool-cases (count == 0 || ltb max_tasks count)) [
        | inl e ↦ rw (e, apply_batch_results) v
        | inr e ↦ elim (Bool-cases checked.0) [
          | inl f ↦ rw (e, apply_batch_results) (rw f (apply_loop-IsRouted checked.1 count 0 u))
          | inr f ↦
              rw (e, apply_batch_results)
                (rw f (
                  fail_event-IsRouted event_invalid_vector (cs 0).task_index route_local
                    status_invalid_vector u))
        ]
      ]

  apply_plan-IsRouted :
      (plan : PlanFn) (cs : Array Candidate) (n : ℕ) {w : World}
      → IsRouted o w
      → IsRouted o (apply_plan k plan cs n w).1
  unfolding apply_plan
  apply_plan-IsRouted plan cs n {w} v =
      let p =
        plan (policy_context w.offloader) (some cs) n (some (λ _. zero_result)) n (some 0)
          (some status_ok) in
      elim (Bool-cases p.accepted) [
        | inr e ↦
            rw (e, apply_plan)
              (fail_event-IsRouted event_policy_rejected minus_one route_local
                (status_or status_ok p.status) v)
        | inl e ↦ elim (Bool-cases (count_or 0 p.written == n)) [
          | inl f ↦
              rw (e, apply_plan)
                (rw f
                  (apply_batch_results-IsRouted cs (results_or (λ _. zero_result) p.results) n v))
          | inr f ↦
              rw (e, apply_plan)
                (rw f (
                  fail_event-IsRouted event_invalid_vector minus_one route_local
                    status_invalid_vector v))
        ]
      ]

  -- The rest of the batch cycle, once the candidates are collected.
  planned-IsRouted :
      (plan : PlanFn) (cs : Array Candidate) (n : ℕ) {w : World}
      → IsRouted o w
      → IsRouted o (if n == 0 then (false, w) else apply_plan k plan cs n w).1
  planned-IsRouted plan cs n {w} v = elim (Bool-cases (n == 0)) [
    | inl f ↦ rw f v
    | inr f ↦ rw f (apply_plan-IsRouted plan cs n v)
  ]

  run_batch_cycle-IsRouted : {w : World} → IsRouted o w → IsRouted o (run_batch_cycle k w).1
  unfolding run_batch_cycle
  run_batch_cycle-IsRouted {w} v =
      let found = collect_candidates k (some (λ _. zero_candidate)) max_tasks w.system in
      let u =
        system-IsRouted v
          (collect_candidates-Inv k (some (λ _. zero_candidate)) max_tasks v.between_calls) in
      elim (Option-cases w.offloader.policy.plan) [
        | inl e ↦ rw (e, run_batch_cycle) v
        | inr (plan, e) ↦
            rw (e, run_batch_cycle)
              (planned-IsRouted plan (candidates_or (λ _. zero_candidate) found.1) found.0 u)
      ]

  pub run_for_task_index-IsRouted :
      (i : ℤ) {w : World} → IsRouted o w → IsRouted o (run_for_task_index k i w).1
  unfolding run_for_task_index
  run_for_task_index-IsRouted i {w} v =
      let u = system-IsRouted v (collect_candidate_at_index-Inv k i v.between_calls) in
      elim (Bool-cases (state_ready w.offloader)) [
        | inr e ↦ rw (e, run_for_task_index) v
        | inl e ↦ elim (Option-cases w.offloader.policy.evaluate) [
          | inl f ↦ rw (e, run_for_task_index) (rw f v)
          | inr (evaluate, f) ↦ elim (Option-cases (collect_candidate_at_index k i w.system).0) [
            | inl g ↦ rw (e, run_for_task_index) (rw (f, g) u)
            | inr (c, g) ↦
                rw (e, run_for_task_index) (rw (f, g) (route_candidate-IsRouted evaluate c u))
          ]
        ]
      ]

  pub run_once-IsRouted : {w : World} → IsRouted o w → IsRouted o (run_once k w).1
  unfolding run_once
  run_once-IsRouted {w} v = elim (Bool-cases (state_ready w.offloader)) [
    | inr e ↦ rw (e, run_once) v
    | inl e ↦ elim (Bool-cases (batch_mode_enabled w.offloader)) [
      | inl f ↦ rw (e, run_once) (rw f (run_batch_cycle-IsRouted v))
      | inr f ↦ elim (Option-cases w.offloader.policy.evaluate) [
        | inl g ↦ rw (e, run_once) (rw (f, g) v)
        | inr (evaluate, g) ↦ rw (e, run_once) (rw (f, g) (run_per_task_cycle-IsRouted evaluate v))
      ]
    ]
  ]

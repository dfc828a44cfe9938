-- ===== src/Offloader/Run.antt =====
-- The control cycles of offloader.c: per task, batch, and for one index.
use edge_aware_tasks_rtos.Prelude.{
  ℕ, zero, suc, ◌+◌, ℤ, pos, minus_one, Bool, true, false, not, ◌||◌, Option, none, some, Array,
  ltb, ◌==◌, if◌then◌else◌,
}
use edge_aware_tasks_rtos.Port.Kernel.{Kernel}
use edge_aware_tasks_rtos.TaskManager.Table.{max_tasks}
use edge_aware_tasks_rtos.TaskManager.Access.{zero_snapshot}
use edge_aware_tasks_rtos.Offloader.Types.{
  route_local, event_policy_rejected, event_invalid_vector, event_mutation_failed, status_ok,
  status_invalid_vector, Candidate, RouteResult, zero_result, EvalFn, PlanFn,
}
use edge_aware_tasks_rtos.Offloader.State.{
  World, state_ready, policy_context, batch_mode_enabled, fail_event,
}
use edge_aware_tasks_rtos.Offloader.Cycle.{
  result_or, status_or, results_or, count_or, collect_candidate_at_index, collect_candidates,
  result_is_valid, normalize_loop, apply_result,
}

-- The contents of a candidate array before it is filled.
abbrev pub zero_candidate : Candidate
zero_candidate = record {
  task_index = pos 0;
  pair_id = 0;
  snapshot = zero_snapshot;
  runtime = none;
}

abbrev pub candidates_or : Array Candidate → Option (Array Candidate) → Array Candidate
candidates_or d none = d
candidates_or d (some cs) = cs

module _ (k : Kernel) where
  -- Evaluates one candidate, and applies a valid result: the body of the loop of
  -- `offloader_run_per_task_cycle`, and the rest of `edge_offloader_run_for_task_index`.
  unfoldable pub route_candidate : EvalFn → Candidate → World → Bool × World
  unfolding policy_context fail_event result_is_valid apply_result
  route_candidate evaluate c w =
      let ev = evaluate (policy_context w.offloader) (some c) (some zero_result) (some status_ok) in
      let result = result_or zero_result ev.result in
      let status = status_or status_ok ev.status in
      if not ev.accepted
      then (false, fail_event event_policy_rejected c.task_index route_local status w)
      else let (valid, s) = result_is_valid k c result w.system in
        let u = record w { system = s } in
        if not valid
        then (false, fail_event event_invalid_vector c.task_index route_local status u)
        else apply_result k (some result) u

  -- The loop over the candidates, which stops at the first failure.
  unfoldable pub per_task_loop : EvalFn → Array Candidate → (rounds i : ℕ) → World → Bool × World
  unfolding route_candidate
  per_task_loop evaluate cs zero i w = (true, w)
  per_task_loop evaluate cs (suc n) i w =
      let (routed, u) = route_candidate evaluate (cs i) w in
      let rest = per_task_loop evaluate cs n (i + 1) u in if routed then rest else (false, u)

  -- `offloader_run_per_task_cycle`; at most `max_tasks` candidates are collected.
  unfoldable pub run_per_task_cycle : EvalFn → World → Bool × World
  unfolding collect_candidates per_task_loop
  run_per_task_cycle evaluate w =
      let (n, out, s) = collect_candidates k (some (λ _. zero_candidate)) max_tasks w.system in
      let u = record w { system = s } in
      if n == 0
      then (false, u)
      else per_task_loop evaluate (candidates_or (λ _. zero_candidate) out) n 0 u

  -- The loop of `offloader_apply_batch_results` over normalised results.
  unfoldable pub apply_loop : Array RouteResult → (rounds i : ℕ) → World → Bool × World
  unfolding apply_result fail_event
  apply_loop rs zero i w = (true, w)
  apply_loop rs (suc n) i w =
      let (applied, u) = apply_result k (some (rs i)) w in
      let rest = apply_loop rs n (i + 1) u in
      if applied then rest else (
        false,
        fail_event event_mutation_failed (rs i).task_index (rs i).route status_invalid_vector u,
      )

  -- `offloader_apply_batch_results`
  unfoldable pub apply_batch_results :
      Array Candidate → Array RouteResult → (count : ℕ) → World → Bool × World
  unfolding normalize_loop fail_event apply_loop
  apply_batch_results cs rs count w =
      if count == 0 || ltb max_tasks count
      then (false, w)
      else let (ok, out, s) = normalize_loop k cs rs count 0 (λ _. zero_result) w.system in
        let u = record w { system = s } in
        if ok then apply_loop out count 0 u else (
          false,
          fail_event event_invalid_vector (cs 0).task_index route_local status_invalid_vector u,
        )

  -- The plan of a batch cycle, and what is done with it.
  unfoldable pub apply_plan : PlanFn → Array Candidate → ℕ → World → Bool × World
  unfolding policy_context fail_event apply_batch_results
  apply_plan plan cs n w =
      let p =
        plan (policy_context w.offloader) (some cs) n (some (λ _. zero_result)) n (some 0)
          (some status_ok) in
      let status = status_or status_ok p.status in
      if not p.accepted
      then (false, fail_event event_policy_rejected minus_one route_local status w)
      else if count_or 0 p.written == n
      then apply_batch_results cs (results_or (λ _. zero_result) p.results) n w
      else (false, fail_event event_invalid_vector minus_one route_local status_invalid_vector w)

  -- `offloader_run_batch_cycle`
  unfoldable pub run_batch_cycle : World → Bool × World
  unfolding collect_candidates apply_plan
  run_batch_cycle w = elim w.offloader.policy.plan [
    | none ↦ (false, w)
    | some plan ↦
        let (n, out, s) = collect_candidates k (some (λ _. zero_candidate)) max_tasks w.system in
        let u = record w { system = s } in
        if n == 0 then (false, u) else apply_plan plan (candidates_or (λ _. zero_candidate) out) n u
  ]

  -- `edge_offloader_run_for_task_index`; a ready state has an `evaluate`.
  unfoldable pub run_for_task_index : ℤ → World → Bool × World
  unfolding state_ready collect_candidate_at_index route_candidate
  run_for_task_index i w =
      if not (state_ready w.offloader) then (false, w) else elim w.offloader.policy.evaluate [
        | none ↦ (false, w)
        | some evaluate ↦
            let (found, s) = collect_candidate_at_index k i w.system in
            let u = record w { system = s } in
            elim found [ none ↦ (false, u) | some c ↦ route_candidate evaluate c u ]
      ]

  -- `edge_offloader_run_once`
  unfoldable pub run_once : World → Bool × World
  unfolding state_ready batch_mode_enabled run_batch_cycle run_per_task_cycle
  run_once w =
      if not (state_ready w.offloader)
      then (false, w)
      else if batch_mode_enabled w.offloader
      then run_batch_cycle w
      else elim w.offloader.policy.evaluate [
        | none ↦ (false, w)
        | some evaluate ↦ run_per_task_cycle evaluate w
      ]

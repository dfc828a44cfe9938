-- ===== src/Offloader/Invariant/Batch.antt =====
-- The validation of a batch (`offloader_normalize_batch_results`) and what follows when it fails.
use edge_aware_tasks_rtos.Prelude.{
  ℕ, zero, suc, ◌+◌, ◌≡◌, refl, ◌∙◌, false, ◌||◌, Array, ltb, ◌==◌, update, inl, inr, Bool-cases,
  Option-cases, int_eq,
}
use edge_aware_tasks_rtos.Port.Kernel.{Kernel}
use edge_aware_tasks_rtos.TaskManager.Table.{max_tasks}
use edge_aware_tasks_rtos.TaskManager.Unchanged.{Same, runtime_by_task_index-Same}
use edge_aware_tasks_rtos.TaskManager.System.{System, runtime_by_task_index}
use edge_aware_tasks_rtos.Offloader.Types.{Candidate, RouteResult, zero_result}
use edge_aware_tasks_rtos.Offloader.State.{World, fail_event}
use edge_aware_tasks_rtos.Offloader.Cycle.{is_named, same_pair, normalized, normalize_loop}
use edge_aware_tasks_rtos.Offloader.Run.{apply_batch_results}

module _ (k : Kernel) where
  pub same_pair-Same : (c : Candidate) (s : System) → Same (same_pair k c s).1 s
  unfolding same_pair
  same_pair-Same c s = elim (Option-cases (runtime_by_task_index k c.task_index s).0) [
    | inl e ↦ rw (e, same_pair) (runtime_by_task_index-Same k c.task_index s)
    | inr (a, e) ↦ rw (e, same_pair) (runtime_by_task_index-Same k c.task_index s)
  ]

  normalize_loop-Same :
      (cs : Array Candidate) (rs : Array RouteResult) (n i : ℕ) (out : Array RouteResult)
      (s : System)
      → Same (normalize_loop k cs rs n i out s).2 s
  unfolding normalize_loop
  normalize_loop-Same cs rs zero i out s = record {
    table = refl;
    registry = refl;
    initialised = refl;
  }
  normalize_loop-Same cs rs (suc n) i out s =
      let r = normalized k (cs i) (rs i) in
      let w = same_pair-Same (cs i) s in
      let u = (same_pair k (cs i) s).1 in
      let rest = normalize_loop-Same cs rs n (i + 1) (update out i r) u in
      elim (Bool-cases (int_eq r.task_index (cs i).task_index)) [
        | inr other ↦
            rw (other, normalize_loop)
              (record { table = refl; registry = refl; initialised = refl })
        | inl own ↦ elim (Bool-cases (is_named r.route)) [
          | inr unnamed ↦
              rw (own, normalize_loop)
                (rw unnamed (record { table = refl; registry = refl; initialised = refl }))
          | inl named ↦ elim (Bool-cases (same_pair k (cs i) s).0) [
            | inr moved ↦ rw (own, normalize_loop) (rw named (rw moved w))
            | inl same ↦
                rw (own, normalize_loop)
                  (rw named (
                    rw same (record {
                      table = rest.table ∙ w.table;
                      registry = rest.registry ∙ w.registry;
                      initialised = rest.initialised ∙ w.initialised;
                    })))
          ]
        ]
      ]

  -- A batch that the validation loop rejects changes no entry of the task table and no runtime,
  -- and is reported as a failure.
  pub apply_batch_results_refused :
      (cs : Array Candidate) (rs : Array RouteResult) (count : ℕ) (w : World)
      → (normalize_loop k cs rs count 0 (λ _. zero_result) w.system).0 ≡ false
      → ((apply_batch_results k cs rs count w).0 ≡ false)
        × Same (apply_batch_results k cs rs count w).1.system w.system
  unfolding apply_batch_results fail_event
  apply_batch_results_refused cs rs count w h =
      elim (Bool-cases (count == 0 || ltb max_tasks count)) [
        | inl e ↦
            rw (e, apply_batch_results)
              (refl, record { table = refl; registry = refl; initialised = refl })
        | inr e ↦
            rw (e, apply_batch_results)
              (rw h (refl, normalize_loop-Same cs rs count 0 (λ _. zero_result) w.system))
      ]

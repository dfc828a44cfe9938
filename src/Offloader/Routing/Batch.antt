-- ===== src/Offloader/Routing/Batch.antt =====
-- The application of a batch's results in offloader.c, over a list of candidates.
pub mod Branches
pub mod Normal
pub mod Once
pub mod Placed
use edge_aware_tasks_rtos.Prelude.{
  ℕ, suc, ◌+◌, ◌<◌, ◌≡◌, refl, sym, ◌∙◌, ap, pos, Bool, true, false, some, List, [], ◌∷◌, Array,
  get_or, length, arith, if◌then◌else◌,
}
use edge_aware_tasks_rtos.Port.Kernel.{Kernel}
use edge_aware_tasks_rtos.TaskManager.Table.{Table}
use edge_aware_tasks_rtos.TaskManager.Registry.{Registry}
use edge_aware_tasks_rtos.Offloader.Types.{
  Route, event_mutation_failed, status_invalid_vector, Candidate, RouteResult,
}
use edge_aware_tasks_rtos.Offloader.State.{World, fail_event}
use edge_aware_tasks_rtos.Offloader.Cycle.{is_named, site_of, apply_result}
use edge_aware_tasks_rtos.Offloader.Run.{apply_loop}
use edge_aware_tasks_rtos.Offloader.Collection.{eligible, eligible_from}
use edge_aware_tasks_rtos.Offloader.Invariant.Applied.{applied}
use edge_aware_tasks_rtos.Offloader.Routing.Apply.{apply_result_succeeds}
use edge_aware_tasks_rtos.Offloader.Routing.Frame.Result.{apply_result-IsKept}
use edge_aware_tasks_rtos.Offloader.Routing.EachTask.{
  eligible_lem, IsStage, kept-IsStage, valid-hot, site_at_valid,
}
use edge_aware_tasks_rtos.Offloader.Routing.EachTask.Loop.{IsLoop, Places, IsRouted, loop-IsRouted}

-- The result for a candidate.
abbrev pub result_of : (Candidate → Route) → Candidate → RouteResult
result_of route c = record { task_index = c.task_index; route = route c }

module _ (k : Kernel) (route : Candidate → Route) where
  abbrev apply_candidate : Candidate → World → Bool × World
  apply_candidate c w = apply_result k (some (result_of route c)) w

  -- The loop over a list.
  unfoldable pub apply_list : List Candidate → World → Bool × World
  unfolding apply_result fail_event
  apply_list [] w = (true, w)
  apply_list (c ∷ cs) w =
      let (ok, u) = apply_candidate c w in
      let rest = apply_list cs u in
      if ok
      then rest
      else (false, fail_event event_mutation_failed c.task_index (route c) status_invalid_vector u)

  pub apply_loop-apply_list :
      (rs : Array RouteResult) (l : List Candidate) (d : Candidate) (i : ℕ) (w : World)
      → ((m : ℕ) → m < length l → rs (i + m) ≡ result_of route (get_or l m d))
      → apply_loop k rs (length l) i w ≡ apply_list l w
  unfolding apply_loop apply_list
  apply_loop-apply_list rs [] d i w h = refl
  apply_loop-apply_list rs (c ∷ l) d i w h =
      let here : i + 0 ≡ i = omega arith in
      let first : rs i ≡ result_of route c = ap rs (sym here) ∙ h 0 (omega arith) in
      let u = (apply_candidate c w).1 in
      ap
        (λ x.
          let (ok, v) = apply_result k (some x) w in
          let rest = apply_loop k rs (length l) (i + 1) v in
          if ok then rest else (
            false,
            fail_event event_mutation_failed x.task_index x.route status_invalid_vector v,
          ))
        first
      ∙ ap
          (λ rest. if (apply_candidate c w).0 then rest else (
            false,
            fail_event event_mutation_failed c.task_index (route c) status_invalid_vector u,
          ))
          (apply_loop-apply_list rs l d (i + 1) u (λ m less.
            let next : i + 1 + m ≡ i + suc m = omega arith in
            ap rs next ∙ h (suc m) (omega (arith, less))))

  apply_list-IsLoop : IsLoop apply_candidate apply_list
  unfolding apply_list
  apply_list-IsLoop = record { nil = λ w. refl; cons = λ c cs w done. rw done refl }

  module _ (t : Table) (r : Registry)
      (named : (j : ℕ) (c : Candidate) → eligible j t r ≡ some c → is_named (route c) ≡ true) where
    apply_candidate-Places : Places t r route apply_candidate
    apply_candidate-Places i c w s e =
        let (a, valid, found, whole) = eligible_lem i t r c e in
        let own = ap (λ x. x.task_index) (sym whole) in
        let good = valid-hot i t w.system.table s.hot ∙ valid in
        let result : RouteResult = record { task_index = pos i; route = route c } in
        let same : result_of route c ≡ result =
          ap (λ j. record { task_index = j; route = route c }) own in
        let done =
          apply_result_succeeds k i a (route c) w s.ready (named i c e) (s.lookup (pos i) ∙ found)
            good in
        let u = (apply_result k (some result) w).1 in
        let kept = apply_result-IsKept k i (route c) w in
        let stage = kept-IsStage i t r w u kept s in
        rw same (
          done,
          record {
            stage = stage;
            others = kept.frame.others;
            placed =
                site_at_valid i (site_of (route c)) u.system.table
                  (valid-hot i t u.system.table stage.hot ∙ valid) (applied k result w done).1;
          },
        )

    pub apply_list-IsRouted :
        (n i : ℕ) (w : World)
        → IsStage t r w
        → IsRouted t r route i n w (apply_list (eligible_from n i t r) w)
    apply_list-IsRouted = loop-IsRouted route t r apply_list-IsLoop apply_candidate-Places

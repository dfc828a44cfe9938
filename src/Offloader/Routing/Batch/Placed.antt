-- ===== src/Offloader/Routing/Batch/Placed.antt =====
-- A whole batch cycle: `edge_offloader_run_once` of offloader.c in batch mode.
use edge_aware_tasks_rtos.Prelude.{
  ℕ, ◌<◌, ◌≡◌, refl, sym, ◌∙◌, ap, Bool, true, not, some, is_some, List, [], ◌∷◌, length, ◌==◌,
  arith, inl, inr, Bool-cases,
}
use edge_aware_tasks_rtos.Port.Kernel.{Kernel}
use edge_aware_tasks_rtos.TaskManager.Table.{max_tasks}
use edge_aware_tasks_rtos.TaskManager.Registry.{runtime_from_task_index}
use edge_aware_tasks_rtos.TaskManager.Unchanged.{Same, Same-trans}
use edge_aware_tasks_rtos.Offloader.Types.{Route, Candidate}
use edge_aware_tasks_rtos.Offloader.State.{World, state_ready, batch_mode_enabled}
use edge_aware_tasks_rtos.Offloader.Policy.{RouteFn, plan_with}
use edge_aware_tasks_rtos.Offloader.Run.{zero_candidate, run_once}
use edge_aware_tasks_rtos.Offloader.Collection.{eligible}
use edge_aware_tasks_rtos.Offloader.Collection.Filled.{collect_candidates-eligible}
use edge_aware_tasks_rtos.Offloader.Routing.Batch.{result_of, apply_list, apply_list-IsRouted}
use edge_aware_tasks_rtos.Offloader.Routing.Batch.Once.{
  DecidesEach, batch, planned, planned_true, planned_at, planned-IsOwned,
}
use edge_aware_tasks_rtos.Offloader.Routing.EachTask.{IsStage}
use edge_aware_tasks_rtos.Offloader.Routing.EachTask.Loop.{site_after}
use edge_aware_tasks_rtos.Offloader.Routing.EachTask.Once.{collected, all_eligible, collected_at}
use edge_aware_tasks_rtos.Offloader.Routing.Batch.Branches.{
  owned_batch, apply_plan_lem, run_batch_lem, run_batch_cycle_lem,
}

-- Without candidates the list ends where it started.
nothing_applied :
    (k : Kernel) (route : Candidate → Route) (l : List Candidate) (w : World)
    → (length l == 0) ≡ true
    → (apply_list k route l w).1 ≡ w
unfolding apply_list
nothing_applied k route [] w e = refl
nothing_applied k route (c ∷ l) w e = ground (arith, e)

Same-IsStage :
    (w v : World)
    → state_ready w.offloader ≡ true
    → Same v.system w.system
    → v.offloader ≡ w.offloader
    → IsStage w.system.table w.system.registry v
Same-IsStage w v ready same kept = record {
  hot = ap (λ t. t.hot) same.table;
  lookup = λ j. ap (runtime_from_task_index j) same.registry;
  pair_ids = λ a. ap (λ r. (r.slot a).runtime.pair_id) same.registry;
  ready = ap state_ready kept ∙ ready;
}

module _ (k : Kernel) (er : RouteFn) (route : Candidate → Route) (w : World)
    (mux : is_some w.system.table_mux ≡ true)
    (decides : DecidesEach er route w.system.table w.system.registry) where
  abbrev found_none : Bool
  found_none = length (all_eligible k w) == 0

  -- Where a batch cycle ends.
  cycle_end :
      state_ready w.offloader ≡ true
      → batch_mode_enabled w.offloader ≡ true
      → w.offloader.policy.plan ≡ some (plan_with er)
      → ((v : World)
          → IsStage w.system.table w.system.registry v
          → (apply_list k route (all_eligible k w) v).0 ≡ true)
      → (v : World) × ((run_once k w).0 ≡ not found_none)
        × ((run_once k w).1 ≡ (apply_list k route (all_eligible k w) v).1)
        × Same v.system w.system
        × (v.offloader ≡ w.offloader)
  cycle_end ready batched policy succeeds =
      let start =
        run_batch_lem k er w ready batched policy ∙ run_batch_cycle_lem k er w mux policy in
      let same = (collect_candidates-eligible k (λ _. zero_candidate) max_tasks 0 w.system mux).2 in
      elim (Bool-cases found_none) [
        | inl empty ↦
            let end = start ∙ rw empty refl in
            (
              collected k w,
              rw empty (ap (λ x. x.0) end),
              ap (λ x. x.1) end
                  ∙ sym (nothing_applied k route (all_eligible k w) (collected k w) empty),
              same,
              refl,
            )
        | inr some_left ↦
            let planned_now = planned k er route w mux decides in
            let (v, applied, kept, kept_offloader) =
              owned_batch k route w (collected k w) planned_now.1 (batch k er route w mux decides)
                some_left (planned-IsOwned k er route w mux decides)
                (λ m less.
                  planned_at k er route w mux decides m less
                  ∙ ap (result_of route) (collected_at k w m mux less)) in
            let end =
              start
              ∙ rw some_left refl
              ∙ apply_plan_lem k er (batch k er route w mux decides) (length (all_eligible k w))
                  (collected k w) some_left (planned_true k er route w mux decides)
              ∙ applied in
            let both = Same-trans kept same in
            (
              v,
              ap (λ x. x.0) end
                  ∙ succeeds v (Same-IsStage w v ready both kept_offloader)
                  ∙ sym (ap not some_left),
              ap (λ x. x.1) end,
              both,
              kept_offloader,
            )
      ]

  -- A cycle in batch mode succeeds exactly if an entry is eligible, and places every entry.
  pub run_batch_places :
      (j : ℕ)
      → state_ready w.offloader ≡ true
      → batch_mode_enabled w.offloader ≡ true
      → w.offloader.policy.plan ≡ some (plan_with er)
      → j < max_tasks
      → ((run_once k w).0 ≡ not (length (all_eligible k w) == 0))
        × (((run_once k w).1.system.table.cold j).exec_site
            ≡ site_after route
                (eligible j w.system.table w.system.registry)
                (w.system.table.cold j).exec_site)
        × ((run_once k w).1.system.table.hot ≡ w.system.table.hot)
  run_batch_places j ready batched policy within =
      let routed = λ (v : World) (s : IsStage w.system.table w.system.registry v).
        apply_list-IsRouted k route w.system.table w.system.registry decides.named max_tasks 0 v
          s in
      let (v, success, end, same, kept) =
        cycle_end ready batched policy (λ x s. (routed x s).success) in
      let r = routed v (Same-IsStage w v ready same kept) in
      (
        success,
        ap (λ u. (u.system.table.cold j).exec_site) end
            ∙ r.each j (omega arith) (omega (arith, within))
            ∙ ap
                (λ t.
                  site_after route (eligible j w.system.table w.system.registry)
                    (t.cold j).exec_site)
                same.table,
        ap (λ u. u.system.table.hot) end ∙ r.stage.hot,
      )

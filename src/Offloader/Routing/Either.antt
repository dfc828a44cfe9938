-- ===== src/Offloader/Routing/Either.antt =====
-- A whole cycle of offloader.c in either mode.
use edge_aware_tasks_rtos.Prelude.{
  ℕ, ◌<◌, ◌≡◌, sym, ◌∙◌, ap, true, not, some, is_some, length, ◌==◌, inl, inr, Bool-cases,
}
use edge_aware_tasks_rtos.Port.Kernel.{Kernel}
use edge_aware_tasks_rtos.TaskManager.Table.{Table, max_tasks}
use edge_aware_tasks_rtos.TaskManager.Registry.{Registry}
use edge_aware_tasks_rtos.Offloader.Types.{Route, Candidate, zero_result}
use edge_aware_tasks_rtos.Offloader.State.{World, state_ready, batch_mode_enabled}
use edge_aware_tasks_rtos.Offloader.Policy.{RouteFn, evaluate_with, plan_with}
use edge_aware_tasks_rtos.Offloader.Run.{run_once}
use edge_aware_tasks_rtos.Offloader.Collection.{eligible, eligible_from}
use edge_aware_tasks_rtos.Offloader.Routing.EachTask.{eligible_lem}
use edge_aware_tasks_rtos.Offloader.Routing.EachTask.Loop.{Decides, site_after}
use edge_aware_tasks_rtos.Offloader.Routing.EachTask.Once.{run_once_places}
use edge_aware_tasks_rtos.Offloader.Routing.Batch.Once.{DecidesEach}
use edge_aware_tasks_rtos.Offloader.Routing.Batch.Placed.{run_batch_places}

module _ {er : RouteFn} {route : Candidate → Route} {t : Table} {r : Registry} where
  -- A decision for one candidate is also that of the policy's first entry point.
  each-Decides : DecidesEach er route t r → Decides (evaluate_with er) route t r
  unfolding evaluate_with
  each-Decides v = record {
    named = v.named;
    accepted = λ j c x e. v.decided j c zero_result e;
    decided = λ j c x e.
        let (a, valid, found, whole) = eligible_lem j t r c e in
        ap some (v.result j c zero_result e)
        ∙ ap (λ i. some (record { task_index = i; route = route c }))
            (ap (λ d. d.task_index) (sym whole));
  }

-- A cycle places every entry in the same way in both modes.
pub run_once_decides :
    (k : Kernel) (er : RouteFn) (route : Candidate → Route) (w : World) (j : ℕ)
    → state_ready w.offloader ≡ true
    → w.offloader.policy.evaluate ≡ some (evaluate_with er)
    → w.offloader.policy.plan ≡ some (plan_with er)
    → is_some w.system.table_mux ≡ true
    → DecidesEach er route w.system.table w.system.registry
    → j < max_tasks
    → ((run_once k w).0
        ≡ not (length (eligible_from max_tasks 0 w.system.table w.system.registry) == 0))
      × (((run_once k w).1.system.table.cold j).exec_site
          ≡ site_after route
              (eligible j w.system.table w.system.registry)
              (w.system.table.cold j).exec_site)
      × ((run_once k w).1.system.table.hot ≡ w.system.table.hot)
run_once_decides k er route w j ready policy plan mux decides within =
    elim (Bool-cases (batch_mode_enabled w.offloader)) [
      | inr each ↦
          run_once_places k (evaluate_with er) route w j ready each policy mux
            (each-Decides decides) within
      | inl batched ↦ run_batch_places k er route w mux decides j ready batched plan within
    ]

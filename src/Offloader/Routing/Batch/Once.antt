-- ===== src/Offloader/Routing/Batch/Once.antt =====
-- The candidates of a batch cycle in offloader.c, and the plan for them.
use edge_aware_tasks_rtos.Prelude.{
  ℕ, zero, suc, ◌+◌, ◌<◌, ◌≡◌, sym, ◌∙◌, ap, subst, pos, Bool, true, some, is_some, List, ◌∷◌,
  Array, get_or, length, arith, inl, inr, Option-cases,
}
use edge_aware_tasks_rtos.Port.Kernel.{Kernel}
use edge_aware_tasks_rtos.TaskManager.Table.{Table, max_tasks}
use edge_aware_tasks_rtos.TaskManager.Registry.{Registry, runtime_from_task_index}
use edge_aware_tasks_rtos.TaskManager.Pair.{pair_id}
use edge_aware_tasks_rtos.Offloader.Types.{Route, Candidate, RouteResult, zero_result}
use edge_aware_tasks_rtos.Offloader.State.{World}
use edge_aware_tasks_rtos.Offloader.Policy.{RouteFn, plan_loop}
use edge_aware_tasks_rtos.Offloader.Policy.Plan.{plan_loop_each}
use edge_aware_tasks_rtos.Offloader.Cycle.{is_named, collect_candidates}
use edge_aware_tasks_rtos.Offloader.Run.{zero_candidate, candidates_or}
use edge_aware_tasks_rtos.Offloader.Collection.{cons_if, eligible, eligible_from}
use edge_aware_tasks_rtos.Offloader.Collection.Filled.{collect_candidates-eligible}
use edge_aware_tasks_rtos.Offloader.Routing.Batch.{result_of}
use edge_aware_tasks_rtos.Offloader.Routing.Batch.Normal.{plan_loop-true, IsOwned}
use edge_aware_tasks_rtos.Offloader.Routing.EachTask.{eligible_lem}
use edge_aware_tasks_rtos.Offloader.Routing.EachTask.Once.{collected, all_eligible, collected_at}

-- A rule for every place of a list.
at_places :
    (P : Candidate → Type 0) (c : Candidate) (l : List Candidate) (d : Candidate) (m : ℕ)
    → P c
    → ((n : ℕ) → n < length l → P (get_or l n d))
    → m < length (c ∷ l)
    → P (get_or (c ∷ l) m d)
at_places P c l d zero here rest less = here
at_places P c l d (suc m) here rest less = rest m (omega (arith, less))

-- Every place of the list is an eligible entry's.
eligible_at :
    (n i : ℕ) (t : Table) (r : Registry) (d : Candidate) (m : ℕ)
    → m < length (eligible_from n i t r)
    → (j : ℕ) × (eligible j t r ≡ some (get_or (eligible_from n i t r) m d))
unfolding eligible_from
eligible_at zero i t r d m less = absurd (omega (arith, less))
eligible_at (suc n) i t r d m less = elim (Option-cases (eligible i t r)) [
  | inl e ↦ rw e (
      eligible_at n (i + 1) t r d m
        (subst (λ x. m < length (cons_if x (eligible_from n (i + 1) t r))) e less))
  | inr (c, e) ↦ rw e (
      at_places (λ x. (j : ℕ) × (eligible j t r ≡ some x)) c (eligible_from n (i + 1) t r) d m
        (i, e) (λ q small. eligible_at n (i + 1) t r d q small)
        (subst (λ x. m < length (cons_if x (eligible_from n (i + 1) t r))) e less))
]

-- A decision for each candidate that does not depend on what stood in the result.
pub record DecidesEach (evaluate_route : RouteFn) (route : Candidate → Route) (t : Table)
    (r : Registry) : Type 0 where
  pub named : (j : ℕ) (c : Candidate) → eligible j t r ≡ some c → is_named (route c) ≡ true
  pub decided :
      (j : ℕ) (c : Candidate) (x : RouteResult)
      → eligible j t r ≡ some c
      → (evaluate_route c x).0 ≡ true
  pub result :
      (j : ℕ) (c : Candidate) (x : RouteResult)
      → eligible j t r ≡ some c
      → (evaluate_route c x).1 ≡ result_of route c

module _ (k : Kernel) (evaluate_route : RouteFn) (route : Candidate → Route) (w : World)
    (mux : is_some w.system.table_mux ≡ true)
    (decides : DecidesEach evaluate_route route w.system.table w.system.registry) where
  abbrev pub batch : Array Candidate
  batch =
      candidates_or (λ _. zero_candidate)
        (collect_candidates k (some (λ _. zero_candidate)) max_tasks w.system).1

  abbrev pub batch_size : ℕ
  batch_size = length (all_eligible k w)

  abbrev pub planned : Bool × Array RouteResult
  planned = plan_loop evaluate_route batch batch_size 0 (λ _. zero_result)

  -- The candidate at a place, and the entry that it stands for.
  candidate_at_place :
      (m : ℕ)
      → m < batch_size
      → (j : ℕ) × (eligible j w.system.table w.system.registry ≡ some (batch m))
  candidate_at_place m less =
      let (j, e) = eligible_at max_tasks 0 w.system.table w.system.registry zero_candidate m less in
      (j, e ∙ ap some (sym (collected_at k w m mux less)))

  pub planned_true : planned.0 ≡ true
  planned_true =
      plan_loop-true evaluate_route batch batch_size 0 (λ _. zero_result)
        (λ m x from less.
          let (j, e) = candidate_at_place m (omega (arith, less)) in
          decides.decided j (batch m) x e)

  pub planned_at : (m : ℕ) → m < batch_size → planned.1 m ≡ result_of route (batch m)
  planned_at m less =
      let (j, e) = candidate_at_place m less in
      (plan_loop_each evaluate_route batch batch_size 0 (λ _. zero_result) m planned_true
        (omega arith) (omega (arith, less))).0
      ∙ decides.result j (batch m) zero_result e

  pub planned-IsOwned :
      (m : ℕ) → m < batch_size → IsOwned (batch m) (planned.1 m) (collected k w).system
  unfolding pair_id
  planned-IsOwned m less =
      let (j, e) = candidate_at_place m less in
      let (a, valid, found, whole) = eligible_lem j w.system.table w.system.registry (batch m) e in
      let stage =
        (collect_candidates-eligible k (λ _. zero_candidate) max_tasks 0 w.system mux).2 in
      let own = ap (λ x. x.task_index) (sym whole) in
      record {
        place = j;
        candidate = own;
        result = ap (λ x. x.task_index) (planned_at m less) ∙ own;
        named = ap (λ x. is_named x.route) (planned_at m less) ∙ decides.named j (batch m) e;
        runtime = a;
        found =
            ap (λ x. runtime_from_task_index x (collected k w).system.registry) own
            ∙ ap (runtime_from_task_index (pos j)) stage.registry
            ∙ found;
        owner =
            ap (λ x. x.pair_id) (sym whole)
            ∙ ap (λ r. (r.slot a).runtime.pair_id) (sym stage.registry);
      }

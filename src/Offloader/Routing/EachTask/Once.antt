-- ===== src/Offloader/Routing/EachTask/Once.antt =====
-- A whole per-task cycle: `edge_offloader_run_once` of offloader.c.
use edge_aware_tasks_rtos.Prelude.{
  ℕ, get_or, zero, suc, ◌+◌, ◌≤◌, ◌<◌, ◌≡◌, refl, ◌∙◌, ap, Bool, true, false, not, Option, none,
  some, is_some, List, [], ◌∷◌, length, ltb, ◌==◌, arith, inl, inr, Option-cases, if◌then◌else◌,
}
use edge_aware_tasks_rtos.Port.Kernel.{Kernel}
use edge_aware_tasks_rtos.TaskManager.Table.{Table, max_tasks}
use edge_aware_tasks_rtos.TaskManager.Registry.{Registry, runtime_from_task_index}
use edge_aware_tasks_rtos.Offloader.Types.{Route, EvalFn, Candidate}
use edge_aware_tasks_rtos.Offloader.State.{World, state_ready, batch_mode_enabled}
use edge_aware_tasks_rtos.Offloader.Cycle.{collect_candidates}
use edge_aware_tasks_rtos.Offloader.Run.{
  zero_candidate, candidates_or, per_task_loop, run_per_task_cycle, run_batch_cycle, run_once,
}
use edge_aware_tasks_rtos.Offloader.Collection.{eligible, eligible_from}
use edge_aware_tasks_rtos.Offloader.Collection.Filled.{collect_candidates-eligible}
use edge_aware_tasks_rtos.Offloader.Routing.EachTask.{route_list, per_task_loop-route_list, IsStage}
use edge_aware_tasks_rtos.Offloader.Routing.EachTask.Loop.{Decides, site_after, route_list-IsRouted}

pub eligible_length : (n i : ℕ) (t : Table) (r : Registry) → length (eligible_from n i t r) ≤ n
unfolding eligible_from
eligible_length zero i t r = omega arith
eligible_length (suc n) i t r = elim (Option-cases (eligible i t r)) [
  | inl e ↦ rw e (omega (arith, eligible_length n (i + 1) t r))
  | inr (c, e) ↦ rw e (omega (arith, eligible_length n (i + 1) t r))
]

pub shown_at : (m : ℕ) → m < max_tasks → ltb m max_tasks ≡ true
shown_at m fits = ground (arith, fits)

-- Either way the cycle ends where the list does.
listed :
    (k : Kernel) (evaluate : EvalFn) (u : World) (l : List Candidate) (x : Bool × World)
    → x ≡ (if length l == 0 then (false, u) else route_list k evaluate l u)
    → (route_list k evaluate l u).0 ≡ true
    → (x.0 ≡ not (length l == 0)) × (x.1 ≡ (route_list k evaluate l u).1)
unfolding route_list
listed k evaluate u [] x e success = (ap (λ y. y.0) e, ap (λ y. y.1) e)
listed k evaluate u (c ∷ l) x e success =
    let some_left : (suc (length l) == 0) ≡ false = ground arith in
    let end : x ≡ route_list k evaluate (c ∷ l) u = e ∙ rw some_left refl in
    rw some_left (ap (λ y. y.0) end ∙ success, ap (λ y. y.1) end)

module _ (k : Kernel) where
  -- The state after the candidates were collected.
  abbrev pub collected : World → World
  collected w = record w {
    system = (collect_candidates k (some (λ _. zero_candidate)) max_tasks w.system).2;
  }

  abbrev pub all_eligible : World → List Candidate
  all_eligible w = eligible_from max_tasks 0 w.system.table w.system.registry

  -- What was collected are the eligible entries, in order.
  pub collected_at :
      (w : World) (m : ℕ)
      → is_some w.system.table_mux ≡ true
      → m < length (all_eligible w)
      → candidates_or
          (λ _. zero_candidate)
          (collect_candidates k (some (λ _. zero_candidate)) max_tasks w.system).1
          m
        ≡ get_or (all_eligible w) m zero_candidate
  collected_at w m ready less =
      let fits : m < max_tasks =
        omega (arith, less, eligible_length max_tasks 0 w.system.table w.system.registry) in
      let (count, stored, same) =
        collect_candidates-eligible k (λ _. zero_candidate) max_tasks m w.system ready in
      stored ∙ rw (shown_at m fits) refl

  -- The loop runs over the eligible entries.
  cycle_loop :
      (evaluate : EvalFn) (w : World)
      → is_some w.system.table_mux ≡ true
      → per_task_loop k evaluate
          (candidates_or
            (λ _. zero_candidate)
            (collect_candidates k (some (λ _. zero_candidate)) max_tasks w.system).1)
          (length (all_eligible w))
          0
          (collected w)
        ≡ route_list k evaluate (all_eligible w) (collected w)
  cycle_loop evaluate w ready =
      per_task_loop-route_list k evaluate _ (all_eligible w) zero_candidate 0 (collected w)
        (λ m less.
          let place : 0 + m ≡ m = omega arith in
          ap
            (candidates_or (λ _. zero_candidate)
              (collect_candidates k (some (λ _. zero_candidate)) max_tasks w.system).1)
            place
          ∙ collected_at w m ready less)

  cycle_lem :
      (evaluate : EvalFn) (w : World)
      → is_some w.system.table_mux ≡ true
      → run_per_task_cycle k evaluate w ≡ (
          if length (all_eligible w) == 0
          then (false, collected w)
          else route_list k evaluate (all_eligible w) (collected w))
  unfolding run_per_task_cycle
  cycle_lem evaluate w ready =
      let (count, stored, same) =
        collect_candidates-eligible k (λ _. zero_candidate) max_tasks 0 w.system ready in
      let out = (collect_candidates k (some (λ _. zero_candidate)) max_tasks w.system).1 in
      ap
        (λ n.
          if n == 0
          then (false, collected w)
          else per_task_loop k evaluate (candidates_or (λ _. zero_candidate) out) n 0 (collected w))
        count
      ∙ ap (λ x. if length (all_eligible w) == 0 then (false, collected w) else x)
          (cycle_loop evaluate w ready)

  pub collected-IsStage :
      (w : World)
      → is_some w.system.table_mux ≡ true
      → state_ready w.offloader ≡ true
      → IsStage w.system.table w.system.registry (collected w)
  collected-IsStage w mux ready =
      let (count, stored, same) =
        collect_candidates-eligible k (λ _. zero_candidate) max_tasks 0 w.system mux in
      record {
        hot = ap (λ t. t.hot) same.table;
        lookup = λ j. ap (runtime_from_task_index j) same.registry;
        pair_ids = λ a. ap (λ r. (r.slot a).runtime.pair_id) same.registry;
        ready = ready;
      }

  run_once_lem :
      (evaluate : EvalFn) (w : World)
      → state_ready w.offloader ≡ true
      → batch_mode_enabled w.offloader ≡ false
      → w.offloader.policy.evaluate ≡ some evaluate
      → run_once k w ≡ run_per_task_cycle k evaluate w
  unfolding run_once
  run_once_lem evaluate w ready each policy =
      let decide : Option EvalFn → Bool × World =
        λ x. elim x [ none ↦ (false, w) | some ev ↦ run_per_task_cycle k ev w ] in
      ap
        (λ b.
          if not b
          then (false, w)
          else if batch_mode_enabled w.offloader
          then run_batch_cycle k w
          else decide w.offloader.policy.evaluate)
        ready
      ∙ ap (λ b. if b then run_batch_cycle k w else decide w.offloader.policy.evaluate) each
      ∙ ap decide policy

  -- The cycle routes the list of the eligible entries, and fails if it is empty.
  cycle_result :
      (evaluate : EvalFn) (w : World)
      → is_some w.system.table_mux ≡ true
      → (route_list k evaluate (all_eligible w) (collected w)).0 ≡ true
      → ((run_per_task_cycle k evaluate w).0 ≡ not (length (all_eligible w) == 0))
        × ((run_per_task_cycle k evaluate w).1
            ≡ (route_list k evaluate (all_eligible w) (collected w)).1)
  cycle_result evaluate w mux success =
      listed k evaluate (collected w) (all_eligible w) (run_per_task_cycle k evaluate w)
        (cycle_lem evaluate w mux) success

  -- A cycle in per-task mode succeeds exactly if an entry is eligible, and places every entry.
  pub run_once_places :
      (evaluate : EvalFn) (route : Candidate → Route) (w : World) (j : ℕ)
      → state_ready w.offloader ≡ true
      → batch_mode_enabled w.offloader ≡ false
      → w.offloader.policy.evaluate ≡ some evaluate
      → is_some w.system.table_mux ≡ true
      → Decides evaluate route w.system.table w.system.registry
      → j < max_tasks
      → ((run_once k w).0 ≡ not (length (all_eligible w) == 0))
        × (((run_once k w).1.system.table.cold j).exec_site
            ≡ site_after route
                (eligible j w.system.table w.system.registry)
                (w.system.table.cold j).exec_site)
        × ((run_once k w).1.system.table.hot ≡ w.system.table.hot)
  run_once_places evaluate route w j ready each policy mux decides within =
      let v =
        route_list-IsRouted k evaluate route w.system.table w.system.registry decides max_tasks 0
          (collected w) (collected-IsStage w mux ready) in
      let (found, state) = cycle_result evaluate w mux v.success in
      let whole = run_once_lem evaluate w ready each policy in
      let same = (collect_candidates-eligible k (λ _. zero_candidate) max_tasks 0 w.system mux).2 in
      let end = ap (λ x. x.1) whole ∙ state in
      (
        ap (λ x. x.0) whole ∙ found,
        ap (λ u. (u.system.table.cold j).exec_site) end
            ∙ v.each j (omega arith) (omega (arith, within))
            ∙ ap
                (λ t.
                  site_after route (eligible j w.system.table w.system.registry)
                    (t.cold j).exec_site)
                same.table,
        ap (λ u. u.system.table.hot) end ∙ v.stage.hot,
      )

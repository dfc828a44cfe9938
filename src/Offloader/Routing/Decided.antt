-- ===== src/Offloader/Routing/Decided.antt =====
-- One candidate of a routing cycle in offloader.c, from the policy's decision to the writes.
use edge_aware_tasks_rtos.Prelude.{
  ℕ, ◌≡◌, refl, sym, ◌∙◌, ap, subst, ==_iff, int_eq, pos, true, some, inl, inr, Option-cases,
}
use edge_aware_tasks_rtos.Port.Kernel.{Kernel}
use edge_aware_tasks_rtos.TaskManager.Table.{monitor_index_valid}
use edge_aware_tasks_rtos.TaskManager.Registry.{runtime_from_task_index}
use edge_aware_tasks_rtos.TaskManager.Pair.{pair_id}
use edge_aware_tasks_rtos.TaskManager.System.{System, runtime_by_task_index}
use edge_aware_tasks_rtos.TaskManager.Unchanged.{
  Same, runtime_by_task_index-Same, runtime_by_task_index_lem,
}
use edge_aware_tasks_rtos.Offloader.Types.{
  Route, RouteResult, zero_result, EvalFn, Candidate, status_ok,
}
use edge_aware_tasks_rtos.Offloader.State.{World, state_ready, policy_context}
use edge_aware_tasks_rtos.Offloader.Cycle.{
  is_named, site_of, result_or, apply_result, same_pair, result_is_valid,
}
use edge_aware_tasks_rtos.Offloader.Run.{route_candidate}
use edge_aware_tasks_rtos.Offloader.Invariant.Applied.{site_at, applied}
use edge_aware_tasks_rtos.Offloader.Routing.Frame.{Same-IsFramed}
use edge_aware_tasks_rtos.Offloader.Routing.Frame.Result.{IsKept, IsKept-after, apply_result-IsKept}
use edge_aware_tasks_rtos.Offloader.Routing.Apply.{apply_result_succeeds}

module _ (k : Kernel) where
  -- The runtime that owns a candidate's index has the candidate's pair id.
  pub same_pair_lem :
      (c : Candidate) (s : System) (a : ℕ)
      → runtime_from_task_index c.task_index s.registry ≡ some a
      → c.pair_id ≡ pair_id (some a) s
      → (same_pair k c s).0 ≡ true
  unfolding same_pair pair_id
  same_pair_lem c s a found owner =
      let same = (runtime_by_task_index-Same k c.task_index s).registry in
      rw (runtime_by_task_index_lem k c.task_index s, same_pair)
        (rw found (rw (same, owner) ((==_iff _ _).1 refl)))

  pub same_pair-Same : (c : Candidate) (s : System) → Same (same_pair k c s).1 s
  unfolding same_pair
  same_pair-Same c s = elim (Option-cases (runtime_by_task_index k c.task_index s).0) [
    | inl e ↦ rw (e, same_pair) (runtime_by_task_index-Same k c.task_index s)
    | inr (a, e) ↦ rw (e, same_pair) (runtime_by_task_index-Same k c.task_index s)
  ]

  -- A result that names a route, for the candidate's own index, is checked for its owner alone.
  result_is_valid_lem :
      (c : Candidate) (i : ℕ) (r : Route) (s : System)
      → c.task_index ≡ pos i
      → is_named r ≡ true
      → result_is_valid k c (record { task_index = pos i; route = r }) s ≡ same_pair k c s
  unfolding result_is_valid
  result_is_valid_lem c i r s own named =
      let mine = subst (λ j. int_eq (pos i) j ≡ true) (sym own) ((==_iff i i).1 refl) in
      rw (mine, named) refl

  -- An accepted and valid result is applied.
  route_candidate_lem :
      (evaluate : EvalFn) (c : Candidate) (r : RouteResult) (w : World)
      → (evaluate
          (policy_context w.offloader)
          (some c)
          (some zero_result)
          (some status_ok)).accepted
        ≡ true
      → (evaluate (policy_context w.offloader) (some c) (some zero_result) (some status_ok)).result
        ≡ some r
      → (result_is_valid k c r w.system).0 ≡ true
      → route_candidate k evaluate c w
        ≡ apply_result k (some r) (record w { system = (result_is_valid k c r w.system).1 })
  unfolding route_candidate
  route_candidate_lem evaluate c r w accepted decided valid =
      let ev = evaluate (policy_context w.offloader) (some c) (some zero_result) (some status_ok) in
      let same : result_or zero_result ev.result ≡ r = ap (result_or zero_result) decided in
      let at_result = subst (λ x. (result_is_valid k c x w.system).0 ≡ true) (sym same) valid in
      rw (accepted, route_candidate)
        (rw at_result (
          ap
            (λ x.
              apply_result k (some x) (record w { system = (result_is_valid k c x w.system).1 }))
            same))

  -- A candidate whose runtime and entry are still there is routed as the policy decides.
  pub route_candidate_routes :
      (evaluate : EvalFn) (c : Candidate) (i a : ℕ) (r : Route) (w : World)
      → c.task_index ≡ pos i
      → state_ready w.offloader ≡ true
      → runtime_from_task_index (pos i) w.system.registry ≡ some a
      → c.pair_id ≡ pair_id (some a) w.system
      → monitor_index_valid (pos i) w.system.table ≡ true
      → is_named r ≡ true
      → (evaluate
          (policy_context w.offloader)
          (some c)
          (some zero_result)
          (some status_ok)).accepted
        ≡ true
      → (evaluate (policy_context w.offloader) (some c) (some zero_result) (some status_ok)).result
        ≡ some (record { task_index = pos i; route = r })
      → ((route_candidate k evaluate c w).0 ≡ true)
        × (site_at (pos i) (route_candidate k evaluate c w).1.system.table ≡ some (site_of r))
        × IsKept i w (route_candidate k evaluate c w).1
  route_candidate_routes evaluate c i a r w own ready found owner valid named accepted decided =
      let result : RouteResult = record { task_index = pos i; route = r } in
      let at_own =
        subst (λ j. runtime_from_task_index j w.system.registry ≡ some a) (sym own) found in
      let check = result_is_valid_lem c i r w.system own named in
      let same = same_pair-Same c w.system in
      let u = record w { system = (same_pair k c w.system).1 } in
      let done =
        apply_result_succeeds k i a r u ready named
          (ap (runtime_from_task_index (pos i)) same.registry ∙ found)
          (ap (monitor_index_valid (pos i)) same.table ∙ valid) in
      let routed =
        route_candidate_lem evaluate c result w accepted decided
          (ap (λ x. x.0) check ∙ same_pair_lem c w.system a at_own owner)
        ∙ ap (λ x. apply_result k (some result) (record w { system = x.1 })) check in
      (
        ap (λ x. x.0) routed ∙ done,
        ap (λ x. site_at (pos i) x.1.system.table) routed ∙ (applied k result u done).1,
        subst (λ x. IsKept i w x.1) (sym routed)
            (IsKept-after (Same-IsFramed i w.system u.system same) (apply_result-IsKept k i r u)),
      )

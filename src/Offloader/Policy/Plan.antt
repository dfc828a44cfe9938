-- ===== src/Offloader/Policy/Plan.antt =====
-- Plans against single evaluations, and the threshold of offloader_policy_simple.c.
use edge_aware_tasks_rtos.Prelude.{
  ℕ, zero, suc, ◌+◌, ◌*◌, ◌≡◌, ◌<◌, ◌≤◌, ◌≢◌, refl, true, Option, some, Array, update, ltb, ◌==◌,
  if◌then◌else◌, arith, inl, inr, Bool-cases, u32_mod,
}
use edge_aware_tasks_rtos.Offloader.Types.{
  route_local, route_remote, PolicyStatus, Candidate, RouteResult, PolicyContext,
}
use edge_aware_tasks_rtos.Offloader.Cycle.{results_or}
use edge_aware_tasks_rtos.Offloader.Policy.{
  RouteFn, fp_evaluate_route, evaluate_with, plan_loop, plan_with,
}

module _ (evaluate_route : RouteFn) where
  -- The results before the loop's index are not written again.
  plan_loop_before :
      (cs : Array Candidate) (n i : ℕ) (rs : Array RouteResult) (j : ℕ)
      → j < i
      → (plan_loop evaluate_route cs n i rs).1 j ≡ rs j
  unfolding plan_loop
  plan_loop_before cs zero i rs j l = refl
  plan_loop_before cs (suc n) i rs j l = elim (Bool-cases (evaluate_route (cs i) (rs i)).0) [
    | inl e ↦ rw e (
        ground (
          arith,
          plan_loop_before cs n (i + 1) (update rs i (evaluate_route (cs i) (rs i)).1) j
              (omega (arith, l)),
        ))
    | inr e ↦ rw e (ground (arith, l))
  ]

  pub plan_loop_each :
      (cs : Array Candidate) (n i : ℕ) (rs : Array RouteResult) (j : ℕ)
      → (plan_loop evaluate_route cs n i rs).0 ≡ true
      → i ≤ j
      → j < i + n
      → ((plan_loop evaluate_route cs n i rs).1 j ≡ (evaluate_route (cs j) (rs j)).1)
        × ((evaluate_route (cs j) (rs j)).0 ≡ true)
  unfolding plan_loop
  plan_loop_each cs zero i rs j h l m = absurd (omega (arith, l, m))
  plan_loop_each cs (suc n) i rs j h l m = elim (Bool-cases (evaluate_route (cs i) (rs i)).0) [
    | inr e ↦ ground (arith, h, e)
    | inl e ↦
        let rs' = update rs i (evaluate_route (cs i) (rs i)).1 in
        elim (Bool-cases (i == j)) [
          | inl same ↦ rw e (ground (arith, e, same, plan_loop_before cs n (i + 1) rs' j))
          | inr other ↦ rw e (ground (arith, h, e, l, m, other, plan_loop_each cs n (i + 1) rs' j))
        ]
  ]

  -- An accepted plan reports as many results as there are candidates, within the capacity, and its
  -- result for each candidate is the one that evaluate gives, which accepts it; for any per-
  -- candidate decision, so for both built-in policies.
  pub plan_with-evaluate_with :
      (x : PolicyContext) (cs : Array Candidate) (n : ℕ) (rs : Array RouteResult) (capacity w : ℕ)
      (status : Option PolicyStatus) (j : ℕ)
      → (plan_with evaluate_route x (some cs) n (some rs) capacity (some w) status).accepted ≡ true
      → j < n
      → ((plan_with evaluate_route x (some cs) n (some rs) capacity (some w) status).written
          ≡ some n)
        × (n ≤ capacity)
        × ((evaluate_with evaluate_route x (some (cs j)) (some (rs j)) status).accepted ≡ true)
        × ((evaluate_with evaluate_route x (some (cs j)) (some (rs j)) status).result
            ≡ some (
                results_or rs
                  (plan_with evaluate_route x
                    (some cs)
                    n
                    (some rs)
                    capacity
                    (some w)
                    status).results
                  j))
  unfolding plan_with evaluate_with
  plan_with-evaluate_with x cs n rs capacity w status j h l = elim (Bool-cases (n == 0)) [
    | inl e ↦ ground (arith, h, e)
    | inr e ↦ elim (Bool-cases (ltb capacity n)) [
      | inl f ↦ ground (arith, h, e, f)
      | inr f ↦ elim (Bool-cases (plan_loop evaluate_route cs n 0 rs).0) [
        | inr g ↦ ground (arith, h, e, f, g)
        | inl g ↦ (
          ground (arith, e, f, g),
          ground (arith, f),
          ground (arith, e, f, g, plan_loop_each cs n 0 rs j g (omega arith) (omega (arith, l))),
          ground (arith, e, f, g, plan_loop_each cs n 0 rs j g (omega arith) (omega (arith, l))),
        )
      ]
    ]
  ]

-- For a valid candidate with an execution time that is not 0 and of which five quarters fit 32
-- bits, the fixed-priority policy decides, for the candidate's own index, and the route is remote
-- exactly if the response time is at least 1.25 times the execution time, rounded down.
pub fp_evaluate_route_threshold :
    (c : Candidate) (r : RouteResult)
    → c.snapshot.valid ≡ true
    → c.snapshot.wcet ≢ 0
    → 5 * c.snapshot.wcet < 4 * u32_mod
    → ((fp_evaluate_route c r).0 ≡ true)
      × ((fp_evaluate_route c r).1.task_index ≡ c.task_index)
      × ((fp_evaluate_route c r).1.route ≡ (
          if ltb (4 * c.snapshot.oe2el + 3) (5 * c.snapshot.wcet)
          then route_local
          else route_remote))
unfolding fp_evaluate_route
fp_evaluate_route_threshold c r valid positive small = ground (arith, valid, positive, small)

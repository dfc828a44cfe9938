-- ===== src/Offloader/Routing/EachTask/Loop.antt =====
-- The loop of `offloader_run_per_task_cycle` over all the eligible entries of the table.
use edge_aware_tasks_rtos.Prelude.{
  List, [], ◌∷◌, ℕ, zero, suc, ◌+◌, ◌≤◌, ◌<◌, ◌≡◌, ◌≢◌, refl, sym, ◌∙◌, ap, subst, pos, Bool, true,
  Option, none, some, arith, inl, inr, Bool-cases, Option-cases, ◌==◌, ==_iff,
}
use edge_aware_tasks_rtos.Port.Kernel.{Kernel}
use edge_aware_tasks_rtos.TaskManager.Types.{ExecutionSite}
use edge_aware_tasks_rtos.TaskManager.Table.{Table}
use edge_aware_tasks_rtos.TaskManager.Registry.{Registry}
use edge_aware_tasks_rtos.TaskManager.Pair.{pair_id}
use edge_aware_tasks_rtos.Offloader.Types.{
  Route, EvalFn, PolicyContext, Candidate, zero_result, status_ok,
}
use edge_aware_tasks_rtos.Offloader.State.{World, policy_context}
use edge_aware_tasks_rtos.Offloader.Cycle.{is_named, site_of}
use edge_aware_tasks_rtos.Offloader.Run.{route_candidate}
use edge_aware_tasks_rtos.Offloader.Collection.{eligible, eligible_from}
use edge_aware_tasks_rtos.Offloader.Routing.Decided.{route_candidate_routes}
use edge_aware_tasks_rtos.Offloader.Routing.EachTask.{
  route_list, eligible_lem, IsStage, kept-IsStage, valid-hot, site_at_valid,
}

-- A policy that accepts every eligible candidate and decides for a named route.
pub record Decides (evaluate : EvalFn) (route : Candidate → Route) (t : Table) (r : Registry)
    : Type 0 where
  pub named : (j : ℕ) (c : Candidate) → eligible j t r ≡ some c → is_named (route c) ≡ true
  pub accepted :
      (j : ℕ) (c : Candidate) (x : PolicyContext)
      → eligible j t r ≡ some c
      → (evaluate x (some c) (some zero_result) (some status_ok)).accepted ≡ true
  pub decided :
      (j : ℕ) (c : Candidate) (x : PolicyContext)
      → eligible j t r ≡ some c
      → (evaluate x (some c) (some zero_result) (some status_ok)).result
        ≡ some (record { task_index = pos j; route = route c })

-- The site that the cycle leaves at an entry which showed `old`.
abbrev pub site_after : (Candidate → Route) → Option Candidate → ExecutionSite → ExecutionSite
site_after route none old = old
site_after route (some c) old = site_of (route c)

-- What one candidate of the loop leaves.
pub record IsStep (t : Table) (r : Registry) (i : ℕ) (site : ExecutionSite) (w : World) (u : World)
    : Type 0 where
  pub stage : IsStage t r u
  pub others : (j : ℕ) → j ≢ i → u.system.table.cold j ≡ w.system.table.cold j
  pub placed : (u.system.table.cold i).exec_site ≡ site

-- What the loop leaves from entry `i` on.
pub record IsRouted (t : Table) (r : Registry) (route : Candidate → Route) (i n : ℕ) (w : World)
    (x : Bool × World) : Type 0 where
  pub success : x.0 ≡ true
  pub stage : IsStage t r x.1
  pub before : (j : ℕ) → j < i → x.1.system.table.cold j ≡ w.system.table.cold j
  pub each :
      (j : ℕ)
      → i ≤ j
      → j < i + n
      → (x.1.system.table.cold j).exec_site
        ≡ site_after route (eligible j t r) (w.system.table.cold j).exec_site

-- A loop over the candidates that goes on as long as its steps succeed.
pub record IsLoop (step : Candidate → World → Bool × World)
    (loop : List Candidate → World → Bool × World) : Type 0 where
  pub nil : (w : World) → loop [] w ≡ (true, w)
  pub cons :
      (c : Candidate) (cs : List Candidate) (w : World)
      → (step c w).0 ≡ true
      → loop (c ∷ cs) w ≡ loop cs (step c w).1

-- A step places every eligible candidate in every state of the cycle.
abbrev pub Places :
    Table → Registry → (Candidate → Route) → (Candidate → World → Bool × World) → Type 0
Places t r route step =
    (i : ℕ) (c : Candidate) (w : World)
    → IsStage t r w
    → eligible i t r ≡ some c
    → ((step c w).0 ≡ true) × IsStep t r i (site_of (route c)) w (step c w).1

module _ (route : Candidate → Route) (t : Table) (r : Registry) where
  skip_entry :
      (i n : ℕ) (w : World) (x : Bool × World)
      → eligible i t r ≡ none
      → IsRouted t r route (i + 1) n w x
      → IsRouted t r route i (suc n) w x
  skip_entry i n w x e v = record {
    success = v.success;
    stage = v.stage;
    before = λ j less. v.before j (omega (arith, less));
    each = λ j from less. elim (Bool-cases (i == j)) [
      | inl here ↦
          subst
            (λ m.
              (x.1.system.table.cold m).exec_site
              ≡ site_after route (eligible m t r) (w.system.table.cold m).exec_site)
            ((==_iff i j).0 here) (rw e (ap (λ c. c.exec_site) (v.before i (omega arith))))
      | inr later ↦ v.each j (ground (arith, from, later)) (omega (arith, less))
    ];
  }

  route_entry :
      (i n : ℕ) (c : Candidate) (w u : World) (x : Bool × World)
      → eligible i t r ≡ some c
      → IsStep t r i (site_of (route c)) w u
      → IsRouted t r route (i + 1) n u x
      → IsRouted t r route i (suc n) w x
  route_entry i n c w u x e s v = record {
    success = v.success;
    stage = v.stage;
    before =
        λ j less. v.before j (omega (arith, less)) ∙ s.others j (λ same. omega (arith, less, same));
    each = λ j from less. elim (Bool-cases (i == j)) [
      | inl here ↦
          subst
            (λ m.
              (x.1.system.table.cold m).exec_site
              ≡ site_after route (eligible m t r) (w.system.table.cold m).exec_site)
            ((==_iff i j).0 here)
            (rw e (ap (λ c. c.exec_site) (v.before i (omega arith)) ∙ s.placed))
      | inr later ↦
          v.each j (ground (arith, from, later)) (omega (arith, less))
          ∙ ap (λ c. site_after route (eligible j t r) c.exec_site)
              (s.others j (λ same. ground (arith, later, same)))
    ];
  }

  -- From any state of the cycle the rest of the loop succeeds and places every eligible entry.
  pub loop-IsRouted :
      {step : Candidate → World → Bool × World} {loop : List Candidate → World → Bool × World}
      → IsLoop step loop
      → Places t r route step
      → (n i : ℕ) (w : World) → IsStage t r w
      → IsRouted t r route i n w (loop (eligible_from n i t r) w)
  unfolding eligible_from
  loop-IsRouted {step} {loop} shape places zero i w s =
      subst (IsRouted t r route i 0 w) (sym (shape.nil w)) (record {
        success = refl;
        stage = s;
        before = λ j less. refl;
        each = λ j from less. absurd (omega (arith, from, less));
      })
  loop-IsRouted {step} {loop} shape places (suc n) i w s = elim (Option-cases (eligible i t r)) [
    | inl e ↦ rw e (skip_entry i n w _ e (loop-IsRouted shape places n (i + 1) w s))
    | inr (c, e) ↦
        let (done, placed) = places i c w s e in
        let u = (step c w).1 in
        let rest = loop-IsRouted shape places n (i + 1) u placed.stage in
        rw e (
          subst (IsRouted t r route i (suc n) w)
            (sym (shape.cons c (eligible_from n (i + 1) t r) w done))
            (route_entry i n c w u _ e placed rest))
  ]

module _ (k : Kernel) (evaluate : EvalFn) (route : Candidate → Route) (t : Table) (r : Registry)
    (policy : Decides evaluate route t r) where
  route_candidate-Places : Places t r route (route_candidate k evaluate)
  unfolding pair_id
  route_candidate-Places i c w s e =
      let (a, valid, found, whole) = eligible_lem i t r c e in
      let good = valid-hot i t w.system.table s.hot ∙ valid in
      let (done, site, kept) =
        route_candidate_routes k evaluate c i a (route c) w (ap (λ x. x.task_index) (sym whole))
          s.ready (s.lookup (pos i) ∙ found) (ap (λ x. x.pair_id) (sym whole) ∙ sym (s.pair_ids a))
          good (policy.named i c e) (policy.accepted i c (policy_context w.offloader) e)
          (policy.decided i c (policy_context w.offloader) e) in
      let u = (route_candidate k evaluate c w).1 in
      let stage = kept-IsStage i t r w u kept s in
      (
        done,
        record {
          stage = stage;
          others = kept.frame.others;
          placed =
              site_at_valid i (site_of (route c)) u.system.table
                (valid-hot i t u.system.table stage.hot ∙ valid) site;
        },
      )

  route_list-IsLoop : IsLoop (route_candidate k evaluate) (route_list k evaluate)
  unfolding route_list
  route_list-IsLoop = record { nil = λ w. refl; cons = λ c cs w done. rw done refl }

  pub route_list-IsRouted :
      (n i : ℕ) (w : World)
      → IsStage t r w
      → IsRouted t r route i n w (route_list k evaluate (eligible_from n i t r) w)
  route_list-IsRouted = loop-IsRouted route t r route_list-IsLoop route_candidate-Places

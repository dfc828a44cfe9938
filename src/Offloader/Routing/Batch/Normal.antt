-- ===== src/Offloader/Routing/Batch/Normal.antt =====
-- The plan of a batch and its validation in offloader.c, where every candidate is decided.
use edge_aware_tasks_rtos.Prelude.{
  ℕ, zero, suc, ◌+◌, ◌≤◌, ◌<◌, ◌≡◌, refl, sym, ◌∙◌, ap, subst, int_eq, pos, Bool, true, some, Array,
  update, update_self, arith, inl, inr, Bool-cases, ◌==◌, ==_iff,
}
use edge_aware_tasks_rtos.Port.Kernel.{Kernel}
use edge_aware_tasks_rtos.TaskManager.Registry.{runtime_from_task_index}
use edge_aware_tasks_rtos.TaskManager.Pair.{pair_id}
use edge_aware_tasks_rtos.TaskManager.System.{System}
use edge_aware_tasks_rtos.TaskManager.Unchanged.{Same, Same-trans}
use edge_aware_tasks_rtos.Offloader.Types.{Candidate, RouteResult}
use edge_aware_tasks_rtos.Offloader.Policy.{RouteFn, plan_loop}
use edge_aware_tasks_rtos.Offloader.Cycle.{is_named, same_pair, normalized, normalize_loop}
use edge_aware_tasks_rtos.Offloader.Routing.Decided.{same_pair_lem, same_pair-Same}

-- The loop of a plan decides every candidate that the policy decides.
pub plan_loop-true :
    (evaluate_route : RouteFn) (cs : Array Candidate) (n i : ℕ) (rs : Array RouteResult)
    → ((j : ℕ) (r : RouteResult) → i ≤ j → j < i + n → (evaluate_route (cs j) r).0 ≡ true)
    → (plan_loop evaluate_route cs n i rs).0 ≡ true
unfolding plan_loop
plan_loop-true evaluate_route cs zero i rs h = refl
plan_loop-true evaluate_route cs (suc n) i rs h = rw (h i (rs i) (omega arith) (omega arith)) (
    plan_loop-true evaluate_route cs n (i + 1) (update rs i (evaluate_route (cs i) (rs i)).1)
      (λ j r from less. h j r (omega (arith, from)) (omega (arith, less))))

-- A result for the candidate's own index, which a runtime with the candidate's pair id answers.
pub record IsOwned (c : Candidate) (r : RouteResult) (s : System) : Type 0 where
  pub place : ℕ
  pub candidate : c.task_index ≡ pos place
  pub result : r.task_index ≡ pos place
  pub named : is_named r.route ≡ true
  pub runtime : ℕ
  pub found : runtime_from_task_index c.task_index s.registry ≡ some runtime
  pub owner : c.pair_id ≡ pair_id (some runtime) s

pub IsOwned-Same :
    (c : Candidate) (r : RouteResult) (s u : System) → Same u s → IsOwned c r s → IsOwned c r u
unfolding pair_id
IsOwned-Same c r s u same v = record {
  place = v.place;
  candidate = v.candidate;
  result = v.result;
  named = v.named;
  runtime = v.runtime;
  found = ap (runtime_from_task_index c.task_index) same.registry ∙ v.found;
  owner = v.owner ∙ ap (λ g. (g.slot v.runtime).runtime.pair_id) (sym same.registry);
}

normalized-IsOwned :
    (k : Kernel) (c : Candidate) (r : RouteResult) (s : System)
    → IsOwned c r s
    → normalized k c r ≡ r
unfolding normalized
normalized-IsOwned k c r s v = rw v.result refl

pub record IsNormal (rs out : Array RouteResult) (n i : ℕ) (s : System)
    (x : Bool × Array RouteResult × System) : Type 0 where
  pub success : x.0 ≡ true
  pub same : Same x.2 s
  pub before : (j : ℕ) → j < i → x.1 j ≡ out j
  pub each : (j : ℕ) → i ≤ j → j < i + n → x.1 j ≡ rs j

module _ (k : Kernel) where
  pub normalize_loop_lem :
      (cs : Array Candidate) (rs : Array RouteResult) (n i : ℕ) (out : Array RouteResult)
      (s u : System)
      → Same u s
      → ((j : ℕ) → i ≤ j → j < i + n → IsOwned (cs j) (rs j) s)
      → IsNormal rs out n i s (normalize_loop k cs rs n i out u)
  unfolding normalize_loop
  normalize_loop_lem cs rs zero i out s u same h = record {
    success = refl;
    same = same;
    before = λ j less. refl;
    each = λ j from less. absurd (omega (arith, from, less));
  }
  normalize_loop_lem cs rs (suc n) i out s u same h =
      let v = IsOwned-Same (cs i) (rs i) s u same (h i (omega arith) (omega arith)) in
      let r = normalized k (cs i) (rs i) in
      let whole : r ≡ rs i = normalized-IsOwned k (cs i) (rs i) u v in
      let own : int_eq r.task_index (cs i).task_index ≡ true =
        ap (λ y. int_eq y.task_index (cs i).task_index) whole
        ∙ ap (λ j. int_eq j (cs i).task_index) v.result
        ∙ ap (int_eq (pos v.place)) v.candidate
        ∙ (==_iff v.place v.place).1 refl in
      let named : is_named r.route ≡ true = ap (λ y. is_named y.route) whole ∙ v.named in
      let there = same_pair_lem k (cs i) u v.runtime v.found v.owner in
      let rest =
        normalize_loop_lem cs rs n (i + 1) (update out i r) s (same_pair k (cs i) u).1
          (Same-trans (same_pair-Same k (cs i) u) same)
          (λ j from less. h j (omega (arith, from)) (omega (arith, less))) in
      rw (own, normalize_loop)
        (rw named (
          rw there (record {
            success = rest.success;
            same = rest.same;
            before = λ j less. rest.before j (omega (arith, less)) ∙ ground (arith, less);
            each = λ j from less. elim (Bool-cases (i == j)) [
              | inl here ↦
                  subst
                    (λ m.
                      (normalize_loop k cs rs n (i + 1) (update out i r) (same_pair k (cs i) u).1).1
                        m
                      ≡ rs m)
                    ((==_iff i j).0 here)
                    (rest.before i (omega arith) ∙ update_self out i r ∙ whole)
              | inr later ↦ rest.each j (ground (arith, from, later)) (omega (arith, less))
            ];
          })))

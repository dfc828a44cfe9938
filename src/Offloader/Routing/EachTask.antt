-- ===== src/Offloader/Routing/EachTask.antt =====
-- The loop of `offloader_run_per_task_cycle` in offloader.c over a list of candidates, and what it
-- needs of the state.
pub mod Loop
pub mod Once
use edge_aware_tasks_rtos.Prelude.{
  ℤ, ltb, ℕ, suc, ◌+◌, ◌<◌, ◌≡◌, refl, sym, ◌∙◌, ap, pos, Bool, true, false, ◌&&◌, Option, none,
  some, is_some, List, [], ◌∷◌, Array, get_or, length, arith, inl, inr, Bool-cases, Option-cases,
  if◌then◌else◌,
}
use edge_aware_tasks_rtos.Port.Kernel.{Kernel}
use edge_aware_tasks_rtos.TaskManager.Types.{ExecutionSite}
use edge_aware_tasks_rtos.TaskManager.Table.{Table, max_tasks, clip, monitor_index_valid}
use edge_aware_tasks_rtos.TaskManager.Registry.{Registry, runtime_from_task_index}
use edge_aware_tasks_rtos.TaskManager.Access.{is_client_task}
use edge_aware_tasks_rtos.TaskManager.Pair.{pair_id}
use edge_aware_tasks_rtos.Offloader.Types.{EvalFn, Candidate}
use edge_aware_tasks_rtos.Offloader.State.{World, state_ready, config_ready}
use edge_aware_tasks_rtos.Offloader.Run.{route_candidate, per_task_loop}
use edge_aware_tasks_rtos.Offloader.Collection.{eligible, candidate_in}
use edge_aware_tasks_rtos.Offloader.Routing.{read_entry_lem}
use edge_aware_tasks_rtos.Offloader.Invariant.Applied.{site_at}
use edge_aware_tasks_rtos.Offloader.Routing.Frame.Result.{IsKept}

-- The loop over a list.
unfoldable pub route_list : Kernel → EvalFn → List Candidate → World → Bool × World
unfolding route_candidate
route_list k evaluate [] w = (true, w)
route_list k evaluate (c ∷ cs) w =
    let (routed, u) = route_candidate k evaluate c w in
    let rest = route_list k evaluate cs u in if routed then rest else (false, u)

pub per_task_loop-route_list :
    (k : Kernel) (evaluate : EvalFn) (cs : Array Candidate) (l : List Candidate) (d : Candidate)
    (i : ℕ) (w : World)
    → ((m : ℕ) → m < length l → cs (i + m) ≡ get_or l m d)
    → per_task_loop k evaluate cs (length l) i w ≡ route_list k evaluate l w
unfolding per_task_loop route_list
per_task_loop-route_list k evaluate cs [] d i w h = refl
per_task_loop-route_list k evaluate cs (c ∷ l) d i w h =
    let here : i + 0 ≡ i = omega arith in
    let first : cs i ≡ c = ap cs (sym here) ∙ h 0 (omega arith) in
    let u = (route_candidate k evaluate c w).1 in
    ap
      (λ x.
        let (routed, v) = route_candidate k evaluate x w in
        let rest = per_task_loop k evaluate cs (length l) (i + 1) v in
        if routed then rest else (false, v))
      first
    ∙ ap (λ rest. if (route_candidate k evaluate c w).0 then rest else (false, u))
        (per_task_loop-route_list k evaluate cs l d (i + 1) u (λ m less.
          let next : i + 1 + m ≡ i + suc m = omega arith in
          ap cs next ∙ h (suc m) (omega (arith, less))))

abbrev candidate_or : Candidate → Option Candidate → Candidate
candidate_or d none = d
candidate_or d (some c) = c

abbrev site_or : ExecutionSite → Option ExecutionSite → ExecutionSite
site_or d none = d
site_or d (some x) = x

-- What an eligible entry is.
pub eligible_lem :
    (i : ℕ) (t : Table) (r : Registry) (c : Candidate)
    → eligible i t r ≡ some c
    → (a : ℕ) × (monitor_index_valid (pos i) t ≡ true)
      × (runtime_from_task_index (pos i) r ≡ some a)
      × (candidate_in i t r a ≡ c)
unfolding eligible
eligible_lem i t r c h = elim (Bool-cases (monitor_index_valid (pos i) t)) [
  | inr bad ↦ ground (arith, h, bad)
  | inl good ↦ elim (Bool-cases (is_client_task (some (clip (t.cold i).name)))) [
    | inr server ↦ ground (arith, h, good, server)
    | inl client ↦ elim (Option-cases (runtime_from_task_index (pos i) r)) [
      | inl missing ↦ ground (arith, h, good, client, missing)
      | inr (a, found) ↦
          let shape : eligible i t r ≡ some (candidate_in i t r a) =
            rw good (rw client (rw found refl)) in
          (a, good, found, ap (candidate_or (candidate_in i t r a)) (sym shape ∙ h))
    ]
  ]
]

-- The state of a cycle that collected its candidates from the table `t` and the registry `r`.
pub record IsStage (t : Table) (r : Registry) (w : World) : Type 0 where
  pub hot : w.system.table.hot ≡ t.hot
  pub lookup : (j : ℤ) → runtime_from_task_index j w.system.registry ≡ runtime_from_task_index j r
  pub pair_ids : (a : ℕ) → (w.system.registry.slot a).runtime.pair_id ≡ (r.slot a).runtime.pair_id
  pub ready : state_ready w.offloader ≡ true

kept-ready :
    (i : ℕ) (w u : World) → IsKept i w u → state_ready u.offloader ≡ state_ready w.offloader
unfolding state_ready
kept-ready i w u v =
    ap (λ b. b && config_ready u.offloader.config && is_some u.offloader.policy.evaluate)
      v.initialized
    ∙ ap (λ c. w.offloader.initialized && config_ready c && is_some u.offloader.policy.evaluate)
        v.config
    ∙ ap (λ p. w.offloader.initialized && config_ready w.offloader.config && is_some p.evaluate)
        v.policy

pub kept-IsStage :
    (i : ℕ) (t : Table) (r : Registry) (w u : World) → IsKept i w u → IsStage t r w → IsStage t r u
kept-IsStage i t r w u v s = record {
  hot = v.frame.hot ∙ s.hot;
  lookup = λ j. v.frame.lookup j ∙ s.lookup j;
  pair_ids = λ a. v.frame.pair_ids a ∙ s.pair_ids a;
  ready = kept-ready i w u v ∙ s.ready;
}

pub valid-hot :
    (i : ℕ) (t u : Table)
    → u.hot ≡ t.hot
    → monitor_index_valid (pos i) u ≡ monitor_index_valid (pos i) t
unfolding monitor_index_valid
valid-hot i t u h = ap (λ f. ltb i max_tasks && (f i).is_active) h

-- The site that a valid entry shows.
pub site_at_valid :
    (i : ℕ) (x : ExecutionSite) (t : Table)
    → monitor_index_valid (pos i) t ≡ true
    → site_at (pos i) t ≡ some x
    → (t.cold i).exec_site ≡ x
unfolding site_at
site_at_valid i x t valid h =
    let read = read_entry_lem none (λ h c. some c.exec_site) i t valid in
    let e : some (t.cold i).exec_site ≡ some x = sym read ∙ h in ap (site_or x) e

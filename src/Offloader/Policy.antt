-- ===== src/Offloader/Policy.antt =====
-- The built-in policies: offloader_policy_simple.c (fixed priority) and offloader_policy_rm.c (rate
-- monotonic). The two files differ in `evaluate_route` alone, which is an argument here.
pub mod Plan
use edge_aware_tasks_rtos.Prelude.{
  ℕ, zero, suc, ◌+◌, ◌/◌, Bool, true, false, not, ◌||◌, Option, none, some, Array, update, codes,
  leb, ltb, ◌==◌, if◌then◌else◌, u32,
}
use edge_aware_tasks_rtos.Offloader.Types.{
  route_local, route_remote, Scheduler, scheduler_fp, scheduler_rm, PolicyStatus, status_ok,
  status_invalid_input, status_insufficient_capacity, Candidate, RouteResult, Planning, EvalFn,
  PlanFn, Policy,
}

-- Whether the route is decided, and the result after it. Its callers never pass NULL.
abbrev pub RouteFn : Type 0
RouteFn = Candidate → RouteResult → Bool × RouteResult

abbrev pub set_status : PolicyStatus → Option PolicyStatus → Option PolicyStatus
set_status s none = none
set_status s (some _) = some s

-- `offloader_policy_fp_evaluate_route`
unfoldable pub fp_evaluate_route : RouteFn
fp_evaluate_route c r =
    if not c.snapshot.valid || c.snapshot.wcet == 0
    then (false, r)
    else let threshold = u32 (c.snapshot.wcet + c.snapshot.wcet / 4) in
      (
        true,
        record {
          task_index = c.task_index;
          route = if leb threshold c.snapshot.oe2el then route_remote else route_local;
        },
      )

-- `offloader_policy_rm_evaluate_route`
unfoldable pub rm_evaluate_route : RouteFn
rm_evaluate_route c r = if not c.snapshot.valid || c.snapshot.period == 0 then (false, r) else (
  true,
  record {
    task_index = c.task_index;
    route = if leb c.snapshot.period c.snapshot.oe2el then route_remote else route_local;
  },
)

module _ (evaluate_route : RouteFn) where
  -- `edge_offloader_policy_fp_evaluate` and `edge_offloader_policy_rm_evaluate`
  unfoldable pub evaluate_with : EvalFn
  evaluate_with context (some c) (some r) status =
      let (decided, r') = evaluate_route c r in
      record {
        accepted = decided;
        result = some r';
        status = set_status (if decided then status_ok else status_invalid_input) status;
      }
  evaluate_with context _ r status = record {
    accepted = false;
    result = r;
    status = set_status status_invalid_input status;
  }

  -- The loop of the plan from candidate `i` on; it stops at the first that is not decided.
  unfoldable pub plan_loop :
      Array Candidate → (rounds i : ℕ) → Array RouteResult → Bool × Array RouteResult
  plan_loop cs zero i rs = (true, rs)
  plan_loop cs (suc n) i rs =
      let (decided, r) = evaluate_route (cs i) (rs i) in
      let rest = plan_loop cs n (i + 1) (update rs i r) in
      if decided then rest else (false, update rs i r)

  abbrev refuse :
      PolicyStatus → Option (Array RouteResult) → Option ℕ → Option PolicyStatus → Planning
  refuse why rs written status = record {
    accepted = false;
    results = rs;
    written = written;
    status = set_status why status;
  }

  -- After the loop.
  abbrev pub finish_plan :
      Bool → Array RouteResult → (count old : ℕ) → Option PolicyStatus → Planning
  finish_plan true rs count old status = record {
    accepted = true;
    results = some rs;
    written = some count;
    status = set_status status_ok status;
  }
  finish_plan false rs count old status = refuse status_invalid_input (some rs) (some old) status

  -- `edge_offloader_policy_fp_plan` and `edge_offloader_policy_rm_plan`
  unfoldable pub plan_with : PlanFn
  unfolding plan_loop
  plan_with context (some cs) count (some rs) capacity (some w) status =
      if count == 0
      then refuse status_invalid_input (some rs) (some w) status
      else if ltb capacity count
      then refuse status_insufficient_capacity (some rs) (some w) status
      else let (decided, rs') = plan_loop cs count 0 rs in finish_plan decided rs' count w status
  plan_with context _ count rs capacity w status = refuse status_invalid_input rs w status

unfoldable pub fp_evaluate : EvalFn
unfolding evaluate_with fp_evaluate_route
fp_evaluate = evaluate_with fp_evaluate_route

unfoldable pub fp_plan : PlanFn
unfolding plan_with fp_evaluate_route
fp_plan = plan_with fp_evaluate_route

unfoldable pub rm_evaluate : EvalFn
unfolding evaluate_with rm_evaluate_route
rm_evaluate = evaluate_with rm_evaluate_route

unfoldable pub rm_plan : PlanFn
unfolding plan_with rm_evaluate_route
rm_plan = plan_with rm_evaluate_route

-- `kFixedPriorityPolicy`, which `edge_offloader_policy_fp` returns.
unfoldable pub policy_fp : Policy
unfolding fp_evaluate fp_plan
policy_fp = record {
  name = some (codes "fixed-priority");
  scheduler = scheduler_fp;
  evaluate = some fp_evaluate;
  plan = some fp_plan;
}

-- `kRateMonotonicPolicy`, which `edge_offloader_policy_rm` returns.
unfoldable pub policy_rm : Policy
unfolding rm_evaluate rm_plan
policy_rm = record {
  name = some (codes "rate-monotonic");
  scheduler = scheduler_rm;
  evaluate = some rm_evaluate;
  plan = some rm_plan;
}

-- `edge_offloader_policy_simple`
unfoldable pub policy_simple : Policy
unfolding policy_fp
policy_simple = policy_fp

-- `edge_offloader_policy_default_for_scheduler`
unfoldable pub policy_default_for_scheduler : Scheduler → Policy
unfolding policy_fp policy_rm
policy_default_for_scheduler scheduler_rm = policy_rm
policy_default_for_scheduler _ = policy_fp

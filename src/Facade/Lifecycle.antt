-- ===== src/Facade/Lifecycle.antt =====
-- The runtime's states: what holds after any sequence of calls of the facade, with calls of the task
-- manager and of the offloader's routing functions in between.
use edge_aware_tasks_rtos.Prelude.{
  ◌≡◌, refl, sym, ◌∙◌, ap, ℤ, Bool, true, not, ◌&&◌, ◌||◌, Option, some, arith, inl, inr,
  Bool-cases, TextPtr, if_cases, if◌then◌else◌,
}
use edge_aware_tasks_rtos.TaskManager.System.{Env, System, task_manager_init}
use edge_aware_tasks_rtos.TaskManager.Invariant.{Inv, IsLawful, task_manager_init-Inv}
use edge_aware_tasks_rtos.TaskManager.Invariant.Steps.{Call, call-Inv, boot-Inv}
use edge_aware_tasks_rtos.Offloader.Types.{RouteResult}
use edge_aware_tasks_rtos.Offloader.State.{
  Offloader, World, config_ready, offloader_init, offloader_shutdown, zero_offloader,
}
use edge_aware_tasks_rtos.Offloader.Cycle.{apply_result}
use edge_aware_tasks_rtos.Offloader.Run.{run_for_task_index}
use edge_aware_tasks_rtos.Offloader.Invariant.{IsTallied, IsRouted}
use edge_aware_tasks_rtos.Offloader.Invariant.Cycle.{apply_result-IsRouted}
use edge_aware_tasks_rtos.Offloader.Invariant.Run.{run_once-IsRouted, run_for_task_index-IsRouted}
use edge_aware_tasks_rtos.Facade.{
  RuntimeConfig, App, boot_app, config_is_valid, resolved_config, default_config, label_or,
  runtime_start, runtime_start_local_first, runtime_run_once, runtime_stop,
}

abbrev with_world : App → World → App
with_world a w = record a { world = w }

-- The offloader is initialised exactly while an enabled runtime runs, with the runtime's
-- configuration, which is then complete.
pub record IsSound (a : App) : Type 0 where
  pub between_calls : Inv a.world.system
  pub tallied : IsTallied a.world.offloader.observed
  pub configured : (not a.running || a.configured) ≡ true
  pub serving : a.world.offloader.initialized ≡ (a.running && a.config.offloader.enabled)
  pub same_config :
      (if a.world.offloader.initialized then a.world.offloader.config else a.config.offloader)
      ≡ a.config.offloader
  pub complete : (not a.world.offloader.initialized || config_ready a.config.offloader) ≡ true

-- One call. The offloader is configured through the facade only.
pub data Step (e : Env) : App → App → Type 0 where
  started : (c : Option RuntimeConfig) (a : App) → Step e a (runtime_start e.kernel c a).1
  started_local_first :
      (l r : TextPtr) (a : App) → Step e a (runtime_start_local_first e.kernel l r a).1
  ran_once : (a : App) → Step e a (runtime_run_once e.kernel a).1
  halted : (a : App) → Step e a (runtime_stop a).1
  routed : (i : ℤ) (a : App) → Step e a (with_world a (run_for_task_index e.kernel i a.world).1)
  applied :
      (r : Option RouteResult) (a : App)
      → Step e a (with_world a (apply_result e.kernel r a.world).1)
  called :
      (a : App) {s : System}
      → Call e a.world.system s
      → Step e a (with_world a (record (a.world) { system = s }))

pub data Steps (e : Env) (a : App) : App → Type 0 where
  no_step : Steps e a a
  one_step : {b c : App} → Steps e a b → Step e b c → Steps e a c

zero_offloader-IsTallied : IsTallied zero_offloader.observed
zero_offloader-IsTallied = record { total = refl; routes = refl }

boot_app-IsSound : IsSound boot_app
boot_app-IsSound = record {
  between_calls = boot-Inv;
  tallied = zero_offloader-IsTallied;
  configured = refl;
  serving = refl;
  same_config = refl;
  complete = refl;
}

-- The world moved on by routing functions alone.
routed-IsSound :
    {a : App} {w : World} → IsSound a → IsRouted a.world.offloader w → IsSound (with_world a w)
routed-IsSound {a} {w} v r = record {
  between_calls = r.between_calls;
  tallied = r.tallied;
  configured = v.configured;
  serving = r.initialized ∙ v.serving;
  same_config = ground (arith, r.initialized, r.config, v.same_config);
  complete = ground (arith, r.initialized, v.complete);
}

as-IsRouted : {a : App} → IsSound a → IsRouted a.world.offloader a.world
as-IsRouted v = record {
  between_calls = v.between_calls;
  tallied = v.tallied;
  initialized = refl;
  config = refl;
  policy = refl;
}

valid_is_ready :
    (c : RuntimeConfig)
    → config_is_valid c ≡ true
    → c.offloader.enabled ≡ true
    → config_ready c.offloader ≡ true
unfolding config_is_valid config_ready
valid_is_ready c h on = ground (arith, h, on)

module _ (e : Env) (law : IsLawful e) where
  -- The state that `edge_runtime_start` builds from a valid configuration.
  freshly_started :
      (c : RuntimeConfig) (o : Offloader) {a : App}
      → config_is_valid c ≡ true
      → (o ≡ (
          if c.offloader.enabled
          then offloader_init (some c.offloader) c.policy
          else offloader_shutdown))
      → IsSound a
      → IsSound (record {
        world = record { system = task_manager_init e.kernel a.world.system; offloader = o };
        configured = true;
        running = true;
        config = c;
      })
  unfolding offloader_init offloader_shutdown
  freshly_started c o {a} good built v = elim (Bool-cases c.offloader.enabled) [
    | inl on ↦
        let here =
          built
          ∙ ap (λ b. if b then offloader_init (some c.offloader) c.policy else offloader_shutdown)
              on in
        record {
          between_calls = task_manager_init-Inv e.kernel v.between_calls;
          tallied = rw here zero_offloader-IsTallied;
          configured = refl;
          serving = ap (λ u. u.initialized) here ∙ sym on;
          same_config = ground (arith, ap (λ u. u.config) here);
          complete = ground (arith, valid_is_ready c good on);
        }
    | inr off ↦
        let here =
          built
          ∙ ap (λ b. if b then offloader_init (some c.offloader) c.policy else offloader_shutdown)
              off in
        let cold = ap (λ u. u.initialized) here in
        record {
          between_calls = task_manager_init-Inv e.kernel v.between_calls;
          tallied = rw here zero_offloader-IsTallied;
          configured = refl;
          serving = cold ∙ sym off;
          same_config = ground (arith, cold);
          complete = ground (arith, cold);
        }
  ]

  runtime_start-IsSound :
      (c : Option RuntimeConfig) {a : App} → IsSound a → IsSound (runtime_start e.kernel c a).1
  unfolding runtime_start
  runtime_start-IsSound c {a} v =
      if_cases (λ (p : Bool × App). IsSound p.1) a.running (λ on. v)
        (λ off. elim (Bool-cases (config_is_valid (resolved_config c))) [
          | inr bad ↦ rw bad v
          | inl good ↦ rw good (freshly_started (resolved_config c) _ good refl v)
        ])

  runtime_run_once-IsSound : {a : App} → IsSound a → IsSound (runtime_run_once e.kernel a).1
  unfolding runtime_run_once
  runtime_run_once-IsSound {a} v =
      elim (Bool-cases (not a.running || not a.config.offloader.enabled)) [
        | inl idle ↦ rw idle v
        | inr busy ↦ rw busy (routed-IsSound v (run_once-IsRouted e.kernel (as-IsRouted v)))
      ]

  runtime_stop-IsSound : {a : App} → IsSound a → IsSound (runtime_stop a).1
  unfolding runtime_stop offloader_shutdown
  runtime_stop-IsSound {a} v = elim (Bool-cases (not a.configured && not a.running)) [
    | inl idle ↦ rw idle v
    | inr busy ↦ rw busy (record {
      between_calls = v.between_calls;
      tallied = zero_offloader-IsTallied;
      configured = refl;
      serving = refl;
      same_config = refl;
      complete = refl;
    })
  ]

  step-IsSound : {a b : App} → Step e a b → IsSound a → IsSound b
  unfolding runtime_start_local_first
  step-IsSound (started c a) v = runtime_start-IsSound c v
  step-IsSound (started_local_first l r a) v =
      runtime_start-IsSound
        (some (record default_config {
          offloader = record (default_config.offloader) {
            local_host_label = label_or e.kernel l default_config.offloader.local_host_label;
            remote_host_label = label_or e.kernel r default_config.offloader.remote_host_label;
          };
        }))
        v
  step-IsSound (ran_once a) v = runtime_run_once-IsSound v
  step-IsSound (halted a) v = runtime_stop-IsSound v
  step-IsSound (routed i a) v =
      routed-IsSound v (run_for_task_index-IsRouted e.kernel i (as-IsRouted v))
  step-IsSound (applied r a) v = routed-IsSound v (apply_result-IsRouted e.kernel r (as-IsRouted v))
  step-IsSound (called a c) v = record {
    between_calls = call-Inv e law c v.between_calls;
    tallied = v.tallied;
    configured = v.configured;
    serving = v.serving;
    same_config = v.same_config;
    complete = v.complete;
  }

  -- After any sequence of calls of the facade, of the task manager and of the offloader's routing
  -- functions, the task manager's invariant holds, the event totals are the sums of their parts
  -- modulo 2 ^ 32, a running runtime is configured, and the offloader is initialised exactly while
  -- the runtime runs with offloading enabled, with the runtime's configuration, which has a period
  -- and both labels; the allocator returns no live block and other tasks keep the task counter.
  pub reachable-IsSound : {a : App} → Steps e boot_app a → IsSound a
  reachable-IsSound no_step = boot_app-IsSound
  reachable-IsSound (one_step ss s) = step-IsSound s (reachable-IsSound ss)

-- ===== src/Offloader/Routing/Created.antt =====
-- From the creation of a pair to the route of its client: `CreateEATaskPinnedToCoreEx` and
-- `update_task_oe2el_by_index` of task_manager.c, then the offloader's cycle.
use edge_aware_tasks_rtos.Prelude.{
  ℕ, zero, suc, ◌*◌, ◌≤◌, ◌<◌, ◌≡◌, ◌≢◌, refl, sym, ◌∙◌, ap, pos, true, false, some, is_some, [],
  ◌∷◌, List, length, take, u32_mod, arith, inl, inr, Option-cases,
}
use edge_aware_tasks_rtos.Port.Kernel.{Kernel}
use edge_aware_tasks_rtos.TaskManager.Types.{failure_none, Hot}
use edge_aware_tasks_rtos.TaskManager.Table.{Table, clip, monitor_index_valid}
use edge_aware_tasks_rtos.TaskManager.Registry.{runtime_from_task_index}
use edge_aware_tasks_rtos.TaskManager.Registry.FreeList.{IsFreeList}
use edge_aware_tasks_rtos.TaskManager.Access.{
  change_hot, is_client_task, update_task_oe2el_by_index,
}
use edge_aware_tasks_rtos.TaskManager.System.{Env, System, on_table}
use edge_aware_tasks_rtos.TaskManager.Unchanged.{ensure_initialized_ready}
use edge_aware_tasks_rtos.TaskManager.Create.{base_name}
use edge_aware_tasks_rtos.TaskManager.Create.Names.{base_name-is_client_task}
use edge_aware_tasks_rtos.TaskManager.Create.Progress.{IsGenerous, HasRoom}
use edge_aware_tasks_rtos.TaskManager.PairArgs.{PairArgs, Checked, check_args}
use edge_aware_tasks_rtos.TaskManager.CreatePair.{create_pair_ex, is_local}
use edge_aware_tasks_rtos.TaskManager.CreatePair.Room.{client_base_name}
use edge_aware_tasks_rtos.TaskManager.CreatePair.Success.{HasClient-valid}
use edge_aware_tasks_rtos.TaskManager.CreatePair.Answers.Created.{
  Built, answers, create_pair_ex-Built,
}
use edge_aware_tasks_rtos.Offloader.State.{World, Offloader, state_ready}
use edge_aware_tasks_rtos.Offloader.Policy.{fp_evaluate}
use edge_aware_tasks_rtos.Offloader.Run.{run_for_task_index}
use edge_aware_tasks_rtos.Offloader.Routing.{run_for_task_index_fp, chosen_site}
use edge_aware_tasks_rtos.Offloader.Invariant.Applied.{site_at}

take_take {ℓ} : {A : Type ℓ} (n : ℕ) (l : List A) → take n (take n l) ≡ take n l
take_take zero l = ground arith
take_take (suc n) [] = refl
take_take (suc n) (x ∷ l) = ap (λ y. x ∷ y) (take_take n l)

-- The name of a client that is not of a local pair is recognised in its entry.
client_recognised :
    (c : Checked)
    → is_local c.app_type ≡ false
    → length c.name ≤ 11
    → is_client_task (some (clip (clip (client_base_name c)))) ≡ true
unfolding base_name
client_recognised c two short =
    ap (λ n. is_client_task (some n)) (rw two (take_take 15 (clip _) ∙ take_take 15 _))
    ∙ base_name-is_client_task c.name c.core short

abbrev set_oe2el : ℕ → Hot → Hot
set_oe2el v h = record h { oe2el = v }

-- A measurement is stored at a valid index.
measured :
    (i v : ℕ) (t : Table)
    → monitor_index_valid (pos i) t ≡ true
    → (((change_hot (set_oe2el v) (pos i) t).hot i).oe2el ≡ v)
      × ((change_hot (set_oe2el v) (pos i) t).cold ≡ t.cold)
      × (monitor_index_valid (pos i) (change_hot (set_oe2el v) (pos i) t) ≡ true)
unfolding change_hot monitor_index_valid
measured i v t valid = rw valid (ground arith, refl, ground (arith, valid))

update_task_oe2el_by_index_ready :
    (k : Kernel) (i v : ℕ) (s : System)
    → is_some s.table_mux ≡ true
    → update_task_oe2el_by_index k (pos i) v s ≡ on_table (change_hot (set_oe2el v) (pos i)) s
unfolding update_task_oe2el_by_index
update_task_oe2el_by_index_ready k i v s ready =
    ap (on_table (change_hot (set_oe2el v) (pos i))) (ensure_initialized_ready k s ready)

module _ (k : Kernel) where
  -- The cycle after a measurement of a pair that was built.
  routes_when_measured :
      (c : Checked) (a v : ℕ) (o : Offloader) (u : System) (b : Built c a u)
      → is_local c.app_type ≡ false
      → length c.name ≤ 11
      → c.client_wcet ≢ 0
      → 5 * c.client_wcet < 4 * u32_mod
      → state_ready o ≡ true
      → o.policy.evaluate ≡ some fp_evaluate
      → ((run_for_task_index k
            (pos b.0.index)
            (record { system = update_task_oe2el_by_index k (pos b.0.index) v u; offloader = o })).0
          ≡ true)
        × (site_at
              (pos b.0.index)
              (run_for_task_index k (pos b.0.index) (record {
                system = update_task_oe2el_by_index k (pos b.0.index) v u;
                offloader = o;
              })).1.system.table
            ≡ some (chosen_site c.client_wcet v))
  unfolding on_table
  routes_when_measured c a v o u b two short positive small ready policy =
      let i = b.0.index in
      let stored = update_task_oe2el_by_index_ready k i v u b.0.room.initialised in
      let x = on_table (change_hot (set_oe2el v) (pos i)) u in
      let (now, same, valid) = measured i v u.table (HasClient-valid b.0) in
      let named = ap (λ f. f i) same in
      let client =
        ap (λ y. is_client_task (some (clip y.name))) named
        ∙ ap (λ y. is_client_task (some (clip y.0))) b.0.named
        ∙ client_recognised c two short in
      let wcet = ap (λ y. y.wcet) named ∙ ap (λ y. y.1) b.0.named in
      elim (Option-cases (runtime_from_task_index (pos i) u.registry)) [
        | inl missing ↦ ground (arith, missing, (answers c a u b).1)
        | inr (owner, found) ↦
            let (routed, site) =
              run_for_task_index_fp k i owner (record { system = x; offloader = o }) ready policy
                b.0.room.initialised valid client found
                (λ zero_time. positive (sym wcet ∙ zero_time)) (rw wcet small) in
            (
              rw stored routed,
              rw stored (
                  site
                  ∙ ap (λ n. some (chosen_site (x.table.cold i).wcet n)) now
                  ∙ ap (λ n. some (chosen_site n v)) wcet),
            )
      ]

module _ (e : Env) (open_handed : IsGenerous e) where
  -- Where the kernel grants every allocation, queue and task, the test hook forces no failure, no
  -- other task changes the table, the table is initialised with two entries left and the free list
  -- is that of the unused slots, a pair with valid arguments that is not local, has a name of at
  -- most 11 characters and an execution time that is not 0 and of which five quarters fit 32 bits
  -- is created; if then a response time is stored at its index, the cycle for the index under a
  -- ready offloader with the fixed-priority policy succeeds and leaves the site that the two times
  -- ask for.
  pub created_pair_routes :
      (p : PairArgs) (c : Checked) (w : World) (l : List ℕ) (v : ℕ)
      → check_args p ≡ some c
      → HasRoom 2 w.system
      → IsFreeList w.system.registry l
      → is_local c.app_type ≡ false
      → length c.name ≤ 11
      → c.client_wcet ≢ 0
      → 5 * c.client_wcet < 4 * u32_mod
      → state_ready w.offloader ≡ true
      → w.offloader.policy.evaluate ≡ some fp_evaluate
      → (i : ℕ) × ((create_pair_ex e p w.system).0
          ≡ record { task_index = pos i; failure_reason = failure_none })
        × ((run_for_task_index e.kernel (pos i) (record w {
          system = update_task_oe2el_by_index e.kernel (pos i) v (create_pair_ex e p w.system).1;
        })).0
            ≡ true)
        × (site_at
              (pos i)
              (run_for_task_index e.kernel (pos i) (record w {
                system =
                    update_task_oe2el_by_index e.kernel (pos i) v (create_pair_ex e p w.system).1;
              })).1.system.table
            ≡ some (chosen_site c.client_wcet v))
  created_pair_routes p c w l v good room unused two short positive small ready policy =
      let (a, u, whole, b) = create_pair_ex-Built e open_handed p c w.system l good room unused in
      let (routed, site) =
        routes_when_measured e.kernel c a v w.offloader u b two short positive small ready policy in
      (b.0.index, rw whole (ground (arith, b.0.client)), rw whole routed, rw whole site)

-- ===== src/Offloader/Routing/Frame.antt =====
-- What a result that `edge_offloader_apply_result` of offloader.c applies leaves alone.
pub mod Result
use edge_aware_tasks_rtos.Prelude.{
  ℕ, ◌≡◌, ◌≢◌, refl, sym, ◌∙◌, ap, fun_ext, ℤ, pos, negsuc, none, some, is_label, Text, TextPtr,
  arith, inl, inr, Bool-cases, Option-cases, if_cases,
}
use edge_aware_tasks_rtos.Port.Kernel.{Kernel}
use edge_aware_tasks_rtos.TaskManager.Types.{Cold}
use edge_aware_tasks_rtos.TaskManager.Table.{Table, monitor_index_valid}
use edge_aware_tasks_rtos.TaskManager.Registry.{
  Registry, runtime_from_task_index, find_slot, slot_matches, set_runtime, addresses,
}
use edge_aware_tasks_rtos.TaskManager.Access.{change_cold}
use edge_aware_tasks_rtos.TaskManager.Pair.{
  relabelled, label_runtime, update_monitor_local_host_label, pair_set_local_host_label_by_index,
  set_cold_label,
}
use edge_aware_tasks_rtos.TaskManager.System.{System, on_table, on_registry, registry_init}
use edge_aware_tasks_rtos.TaskManager.Unchanged.{Same, registry_init-Same}

-- The table but for the cold part of entry `i`, and of the registry the look-up and the pair ids.
pub record IsFramed (i : ℕ) (s u : System) : Type 0 where
  pub hot : u.table.hot ≡ s.table.hot
  pub others : (j : ℕ) → j ≢ i → u.table.cold j ≡ s.table.cold j
  pub lookup : (j : ℤ) → runtime_from_task_index j u.registry ≡ runtime_from_task_index j s.registry
  pub pair_ids : (a : ℕ) → (u.registry.slot a).runtime.pair_id ≡ (s.registry.slot a).runtime.pair_id
  pub initialised : u.table_mux ≡ s.table_mux

pub IsFramed-trans : (i : ℕ) {s t u : System} → IsFramed i s t → IsFramed i t u → IsFramed i s u
IsFramed-trans i v w = record {
  hot = w.hot ∙ v.hot;
  others = λ j other. w.others j other ∙ v.others j other;
  lookup = λ j. w.lookup j ∙ v.lookup j;
  pair_ids = λ a. w.pair_ids a ∙ v.pair_ids a;
  initialised = w.initialised ∙ v.initialised;
}

pub Same-IsFramed : (i : ℕ) (s u : System) → Same u s → IsFramed i s u
Same-IsFramed i s u v = record {
  hot = ap (λ t. t.hot) v.table;
  others = λ j other. ap (λ t. t.cold j) v.table;
  lookup = λ j. ap (runtime_from_task_index j) v.registry;
  pair_ids = λ a. ap (λ r. (r.slot a).runtime.pair_id) v.registry;
  initialised = v.initialised;
}

pub IsFramed-refl : (i : ℕ) (s : System) → IsFramed i s s
IsFramed-refl i s =
    Same-IsFramed i s s (record { table = refl; registry = refl; initialised = refl })

change_cold-hot : (f : Cold → Cold) (i : ℕ) (t : Table) → (change_cold f (pos i) t).hot ≡ t.hot
unfolding change_cold
change_cold-hot f i t =
    if_cases (λ (u : Table). u.hot ≡ t.hot) (monitor_index_valid (pos i) t) (λ y. refl) (λ n. refl)

change_cold-others :
    (f : Cold → Cold) (i j : ℕ) (t : Table) → j ≢ i → (change_cold f (pos i) t).cold j ≡ t.cold j
unfolding change_cold
change_cold-others f i j t other = ground (arith, λ (e : i ≡ j). other (sym e))

pub on_table-IsFramed :
    (f : Cold → Cold) (i : ℕ) (s : System) → IsFramed i s (on_table (change_cold f (pos i)) s)
unfolding on_table
on_table-IsFramed f i s = record {
  hot = change_cold-hot f i s.table;
  others = λ j other. change_cold-others f i j s.table other;
  lookup = λ j. refl;
  pair_ids = λ a. refl;
  initialised = refl;
}

-- A label does not bear on which runtime answers an index.
relabelled-matches :
    (a : ℕ) (host : Text) (r : Registry) (j : ℤ) (b : ℕ)
    → slot_matches (set_runtime a (relabelled r a host) r) j b ≡ slot_matches r j b
unfolding slot_matches set_runtime
relabelled-matches a host r j b = ground arith

relabelled-lookup :
    (a : ℕ) (host : Text) (r : Registry) (j : ℤ)
    → runtime_from_task_index j (set_runtime a (relabelled r a host) r)
      ≡ runtime_from_task_index j r
unfolding runtime_from_task_index set_runtime
relabelled-lookup a host r (pos j) =
    ap (λ p. find_slot p (addresses r.chunks)) (fun_ext (relabelled-matches a host r (pos j)))
relabelled-lookup a host r (negsuc n) = refl

relabelled-pair_id :
    (a : ℕ) (host : Text) (r : Registry) (b : ℕ)
    → ((set_runtime a (relabelled r a host) r).slot b).runtime.pair_id ≡ (r.slot b).runtime.pair_id
unfolding set_runtime
relabelled-pair_id a host r b = ground arith

label_runtime-IsFramed :
    (i : ℕ) (host : Text) (s : System) → IsFramed i s (on_registry (label_runtime (pos i) host) s)
unfolding label_runtime on_registry
label_runtime-IsFramed i host s = elim (Option-cases (runtime_from_task_index (pos i) s.registry)) [
  | inl missing ↦
      rw (missing, label_runtime)
        (record {
          hot = refl;
          others = λ j other. refl;
          lookup = λ j. refl;
          pair_ids = λ a. refl;
          initialised = refl;
        })
  | inr (a, found) ↦
      rw (found, label_runtime)
        (record {
          hot = refl;
          others = λ j other. refl;
          lookup = relabelled-lookup a host s.registry;
          pair_ids = relabelled-pair_id a host s.registry;
          initialised = refl;
        })
]

module _ (k : Kernel) where
  pub set_label-IsFramed :
      (i : ℕ) (p : TextPtr) (s : System)
      → IsFramed i s (pair_set_local_host_label_by_index k (pos i) p s).1
  unfolding pair_set_local_host_label_by_index update_monitor_local_host_label
  set_label-IsFramed i none s = IsFramed-refl i s
  set_label-IsFramed i (some host) s = elim (Bool-cases (is_label (some host))) [
    | inr empty ↦ rw (empty, pair_set_local_host_label_by_index) (IsFramed-refl i s)
    | inl named ↦
        let u = on_table (change_cold (set_cold_label host) (pos i)) s in
        let v = registry_init k u in
        rw (named, pair_set_local_host_label_by_index)
          (IsFramed-trans i (on_table-IsFramed (set_cold_label host) i s) (
            IsFramed-trans i (Same-IsFramed i u v (registry_init-Same k u))
              (label_runtime-IsFramed i host v)))
  ]

-- ===== src/Offloader/Collection.antt =====
-- What `edge_offloader_collect_candidates` of offloader.c collects, against the list of the entries
-- that are eligible.
pub mod Filled
use edge_aware_tasks_rtos.Prelude.{
  ℕ, zero, suc, ◌+◌, ◌-◌, ◌≡◌, refl, sym, ◌∙◌, ap, subst, pos, Bool, true, false, not, ◌&&◌, ◌||◌,
  Option, none, some, is_some, List, [], ◌∷◌, inl, inr, Bool-cases, Option-cases, if◌then◌else◌,
}
use edge_aware_tasks_rtos.Port.Kernel.{Kernel}
use edge_aware_tasks_rtos.TaskManager.Types.{Hot, Cold, Snapshot}
use edge_aware_tasks_rtos.TaskManager.Table.{Table, clip, monitor_index_valid}
use edge_aware_tasks_rtos.TaskManager.Registry.{Registry, runtime_from_task_index}
use edge_aware_tasks_rtos.TaskManager.Access.{
  read_entry, zero_snapshot, snapshot_of, is_client_task, get_task_snapshot_by_index,
}
use edge_aware_tasks_rtos.TaskManager.Pair.{pair_id}
use edge_aware_tasks_rtos.TaskManager.System.{System, runtime_by_task_index}
use edge_aware_tasks_rtos.TaskManager.Unchanged.{
  Same, Same-trans, runtime_by_task_index-Same, runtime_by_task_index_lem,
  get_task_snapshot_by_index_lem,
}
use edge_aware_tasks_rtos.Offloader.Types.{Candidate}
use edge_aware_tasks_rtos.Offloader.Cycle.{or_zero, collect_runtime, collect_candidate_at_index}
use edge_aware_tasks_rtos.Offloader.Routing.{
  read_entry_lem, triple, candidate_at, collect_candidate_at_index_lem,
}

-- The candidate of a client's entry with the runtime that answers its index.
abbrev pub candidate_in : ℕ → Table → Registry → ℕ → Candidate
candidate_in i t r a = record {
  task_index = pos i;
  pair_id = (r.slot a).runtime.pair_id;
  snapshot = snapshot_of (t.hot i) (t.cold i);
  runtime = some a;
}

abbrev with_runtime : ℕ → Table → Registry → Option ℕ → Option Candidate
with_runtime i t r none = none
with_runtime i t r (some a) = some (candidate_in i t r a)

-- An entry is eligible if it is valid, has a client's name, and a runtime answers its index.
unfoldable pub eligible : ℕ → Table → Registry → Option Candidate
eligible i t r =
    if monitor_index_valid (pos i) t && is_client_task (some (clip (t.cold i).name))
    then with_runtime i t r (runtime_from_task_index (pos i) r)
    else none

abbrev pub cons_if : Option Candidate → List Candidate → List Candidate
cons_if none l = l
cons_if (some c) l = c ∷ l

-- The candidates of the entries from `i` on, in the order of their indices.
unfoldable pub eligible_from : (rounds i : ℕ) → Table → Registry → List Candidate
unfolding eligible
eligible_from zero i t r = []
eligible_from (suc n) i t r = cons_if (eligible i t r) (eligible_from n (i + 1) t r)

read_entry_bad {ℓ} :
    {A : Type ℓ} (d : A) (f : Hot → Cold → A) (i : ℕ) (t : Table)
    → monitor_index_valid (pos i) t ≡ false
    → read_entry d f (pos i) t ≡ d
unfolding read_entry
read_entry_bad d f i t h = rw h refl

pair_id_lem :
    (i a : ℕ) (s : System) → some (candidate_at i a s) ≡ some (candidate_in i s.table s.registry a)
unfolding pair_id
pair_id_lem i a s = refl

module _ (k : Kernel) where
  collect_runtime-none :
      (i : ℕ) (snap : Snapshot) (s : System)
      → (runtime_by_task_index k (pos i) s).0 ≡ none
      → ((collect_runtime k (pos i) snap s).0 ≡ none) × Same (collect_runtime k (pos i) snap s).1 s
  unfolding collect_runtime
  collect_runtime-none i snap s missing =
      rw (missing, collect_runtime) (refl, runtime_by_task_index-Same k (pos i) s)

  -- What the look-up does after the snapshot was read.
  abbrev after_snapshot : ℕ → Bool × Option Snapshot × System → Option Candidate × System
  after_snapshot i x =
      let seen = or_zero x.1 in
      if not x.0 || not seen.valid
      then (none, x.2)
      else if not (is_client_task (some seen.name))
      then (none, x.2)
      else collect_runtime k (pos i) seen x.2

  collect_after :
      (i : ℕ) (snap : Snapshot) (s : System)
      → is_some s.table_mux ≡ true
      → read_entry zero_snapshot snapshot_of (pos i) s.table ≡ snap
      → (collect_candidate_at_index k (pos i) s
          ≡ after_snapshot i (
            snap.valid,
            some snap,
            (get_task_snapshot_by_index k (pos i) (some zero_snapshot) s).2,
          ))
        × Same (get_task_snapshot_by_index k (pos i) (some zero_snapshot) s).2 s
  unfolding collect_candidate_at_index
  collect_after i snap s ready read =
      let (got, out, same) = get_task_snapshot_by_index_lem k (pos i) zero_snapshot s ready in
      let g = get_task_snapshot_by_index k (pos i) (some zero_snapshot) s in
      (ap (after_snapshot i) (triple g (got ∙ ap (λ x. x.valid) read) (out ∙ ap some read)), same)

  -- A look-up that ended in the state after the snapshot without a candidate.
  nothing_at :
      (i : ℕ) (s : System) (x : Option Candidate × System)
      → collect_candidate_at_index k (pos i) s ≡ x
      → x.0 ≡ none
      → Same x.1 s
      → ((collect_candidate_at_index k (pos i) s).0 ≡ none)
        × Same (collect_candidate_at_index k (pos i) s).1 s
  nothing_at i s x e nothing same =
      (ap (λ y. y.0) e ∙ nothing, subst (λ y. Same y.1 s) (sym e) same)

  -- The look-up at an index gives the candidate exactly if its entry is eligible, and changes
  -- neither the table nor the registry.
  pub collect-eligible :
      (i : ℕ) (s : System)
      → is_some s.table_mux ≡ true
      → ((collect_candidate_at_index k (pos i) s).0 ≡ eligible i s.table s.registry)
        × Same (collect_candidate_at_index k (pos i) s).1 s
  unfolding eligible
  collect-eligible i s ready = elim (Bool-cases (monitor_index_valid (pos i) s.table)) [
    | inr bad ↦
        let (e, same) =
          collect_after i zero_snapshot s ready
            (read_entry_bad zero_snapshot snapshot_of i s.table bad) in
        rw bad (nothing_at i s _ e refl same)
    | inl good ↦ elim (Bool-cases (is_client_task (some (clip (s.table.cold i).name)))) [
      | inr server ↦
          let (e, same) =
            collect_after i (snapshot_of (s.table.hot i) (s.table.cold i)) s ready
              (read_entry_lem zero_snapshot snapshot_of i s.table good) in
          rw good (
            rw server (
              nothing_at i s (none, (get_task_snapshot_by_index k (pos i) (some zero_snapshot) s).2)
                (e ∙ rw server refl) refl same))
      | inl client ↦ elim (Option-cases (runtime_from_task_index (pos i) s.registry)) [
        | inl missing ↦
            let snap = snapshot_of (s.table.hot i) (s.table.cold i) in
            let (e, same) =
              collect_after i snap s ready
                (read_entry_lem zero_snapshot snapshot_of i s.table good) in
            let g = (get_task_snapshot_by_index k (pos i) (some zero_snapshot) s).2 in
            let (nothing, kept) = collect_runtime-none i snap g (
              runtime_by_task_index_lem k (pos i) g
              ∙ ap (runtime_from_task_index (pos i)) same.registry
              ∙ missing) in
            rw good (
              rw client (
                rw missing (
                  nothing_at i s (collect_runtime k (pos i) snap g) (e ∙ rw client refl) nothing
                    (Same-trans kept same))))
        | inr (a, found) ↦
            let (got, same) = collect_candidate_at_index_lem k i a s ready good client found in
            rw good (rw client (rw found (got ∙ pair_id_lem i a s, same)))
      ]
    ]
  ]

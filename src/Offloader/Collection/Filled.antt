-- ===== src/Offloader/Collection/Filled.antt =====
-- The whole loop of `edge_offloader_collect_candidates`, and the buffer that it fills.
use edge_aware_tasks_rtos.Prelude.{
  ==_iff, ℕ, zero, suc, ◌+◌, ◌-◌, ◌≡◌, refl, sym, ◌∙◌, ap, subst, pos, true, false, ◌&&◌, Option,
  none, some, is_some, List, [], ◌∷◌, Array, update, get_or, length, ltb, leb, arith, inl, inr,
  Bool-cases, if◌then◌else◌, ◌==◌,
}
use edge_aware_tasks_rtos.Port.Kernel.{Kernel}
use edge_aware_tasks_rtos.TaskManager.Table.{max_tasks}
use edge_aware_tasks_rtos.TaskManager.System.{System}
use edge_aware_tasks_rtos.TaskManager.Unchanged.{Same, Same-trans}
use edge_aware_tasks_rtos.Offloader.Types.{Candidate}
use edge_aware_tasks_rtos.Offloader.Cycle.{
  store_candidate, collect_candidate_at_index, collect_loop, collect_candidates,
}
use edge_aware_tasks_rtos.Offloader.Run.{candidates_or}
use edge_aware_tasks_rtos.Offloader.Collection.{cons_if, eligible, eligible_from, collect-eligible}

-- The buffer after the candidates were stored from place `n` on.
abbrev store_all :
    List Candidate → (n capacity : ℕ) → Option (Array Candidate) → Option (Array Candidate)
store_all [] n capacity out = out
store_all (c ∷ cs) n capacity out = store_all cs (n + 1) capacity (store_candidate c n capacity out)

-- Place `j` of a buffer to which the list was written from place `n` on, as far as it has room.
abbrev entry : List Candidate → (n capacity : ℕ) → Array Candidate → ℕ → Candidate
entry cs n capacity old j = if leb n j && ltb j capacity then get_or cs (j - n) (old j) else old j

entry_here :
    (c : Candidate) (cs : List Candidate) (n capacity : ℕ) (old : Array Candidate) (j : ℕ)
    → leb (n + 1) j ≡ false
    → n ≡ j
    → entry cs (n + 1) capacity (if ltb n capacity then update old n c else old) j
      ≡ entry (c ∷ cs) n capacity old j
entry_here c cs n capacity old j before same =
    subst
      (λ m.
        entry cs (n + 1) capacity (if ltb n capacity then update old n c else old) m
        ≡ entry (c ∷ cs) n capacity old m)
      same (let none_less : n - n ≡ 0 = omega arith in rw none_less (ground arith))

entry_after :
    (c : Candidate) (cs : List Candidate) (n capacity : ℕ) (old : Array Candidate) (j : ℕ)
    → leb (n + 1) j ≡ true
    → entry cs (n + 1) capacity (if ltb n capacity then update old n c else old) j
      ≡ entry (c ∷ cs) n capacity old j
entry_after c cs n capacity old j after =
    let one_less : j - n ≡ suc (j - (n + 1)) = ground (arith, after) in
    rw one_less (ground (arith, after))

entry_step :
    (c : Candidate) (cs : List Candidate) (n capacity : ℕ) (old : Array Candidate) (j : ℕ)
    → entry cs (n + 1) capacity (if ltb n capacity then update old n c else old) j
      ≡ entry (c ∷ cs) n capacity old j
entry_step c cs n capacity old j = elim (Bool-cases (leb (n + 1) j)) [
  | inr before ↦ elim (Bool-cases (n == j)) [
    | inl here ↦ entry_here c cs n capacity old j before ((==_iff n j).0 here)
    | inr earlier ↦ ground (arith, before, earlier)
  ]
  | inl after ↦ entry_after c cs n capacity old j after
]

store_all_lem :
    (cs : List Candidate) (n capacity : ℕ) (old d : Array Candidate) (j : ℕ)
    → candidates_or d (store_all cs n capacity (some old)) j ≡ entry cs n capacity old j
store_all_lem [] n capacity old d j = ground arith
store_all_lem (c ∷ cs) n capacity old d j =
    store_all_lem cs (n + 1) capacity (if ltb n capacity then update old n c else old) d j
    ∙ entry_step c cs n capacity old j

-- What the loop leaves after the candidates of the list.
record IsCollected (cs : List Candidate) (n capacity : ℕ) (out : Option (Array Candidate))
    (s : System) (x : ℕ × Option (Array Candidate) × System) : Type 0 where
  count : x.0 ≡ n + length cs
  buffer : x.1 ≡ store_all cs n capacity out
  same : Same x.2 s

module _ (k : Kernel) (capacity : ℕ) where
  skip_or_store :
      (r i n : ℕ) (out : Option (Array Candidate)) (s u : System) (x : Option Candidate)
      (cs : List Candidate)
      → (collect_candidate_at_index k (pos i) u).0 ≡ x
      → ((m : ℕ) (o : Option (Array Candidate))
          → IsCollected cs m capacity o s
              (collect_loop k capacity r (i + 1) m o (collect_candidate_at_index k (pos i) u).1))
      → IsCollected (cons_if x cs) n capacity out s (collect_loop k capacity (suc r) i n out u)
  unfolding collect_loop
  skip_or_store r i n out s u none cs got rest = rw (got, collect_loop) (rest n out)
  skip_or_store r i n out s u (some c) cs got rest =
      let v = rest (n + 1) (store_candidate c n capacity out) in
      rw (got, collect_loop)
        (record { count = omega (arith, v.count); buffer = v.buffer; same = v.same })

  collect_loop_lem :
      (r i n : ℕ) (out : Option (Array Candidate)) (s u : System)
      → is_some s.table_mux ≡ true
      → Same u s
      → IsCollected
          (eligible_from r i s.table s.registry)
          n
          capacity
          out
          s
          (collect_loop k capacity r i n out u)
  unfolding eligible_from collect_loop
  collect_loop_lem zero i n out s u ready same = record {
    count = omega arith;
    buffer = refl;
    same = same;
  }
  collect_loop_lem (suc r) i n out s u ready same =
      let (got, kept) = collect-eligible k i u (ap is_some same.initialised ∙ ready) in
      skip_or_store r i n out s u (eligible i s.table s.registry)
        (eligible_from r (i + 1) s.table s.registry)
        (got ∙ ap (λ t. eligible i t u.registry) same.table ∙ ap (eligible i s.table) same.registry)
        (λ m o.
          collect_loop_lem r (i + 1) m o s (collect_candidate_at_index k (pos i) u).1 ready
            (Same-trans kept same))

collect_candidates_lem :
    (k : Kernel) (out : Option (Array Candidate)) (capacity : ℕ) (s : System)
    → collect_candidates k out capacity s ≡ collect_loop k capacity max_tasks 0 0 out s
unfolding collect_candidates
collect_candidates_lem k out capacity s = refl

entry_first :
    (cs : List Candidate) (capacity : ℕ) (old : Array Candidate) (j : ℕ)
    → entry cs 0 capacity old j ≡ (if ltb j capacity then get_or cs j (old j) else old j)
entry_first cs capacity old j = let same : j - 0 ≡ j = omega arith in rw same (ground arith)

-- For an initialised table the collection of candidates with a buffer returns the number of all
-- eligible entries, also of those for which the buffer has no room; it writes them to the buffer
-- in the order of their indices as far as it has room, leaves every other place of the buffer
-- alone, and changes neither the table nor the registry.
pub collect_candidates-eligible :
    (k : Kernel) (old : Array Candidate) (capacity j : ℕ) (s : System)
    → is_some s.table_mux ≡ true
    → ((collect_candidates k (some old) capacity s).0
        ≡ length (eligible_from max_tasks 0 s.table s.registry))
      × (candidates_or old (collect_candidates k (some old) capacity s).1 j ≡ (
          if ltb j capacity
          then get_or (eligible_from max_tasks 0 s.table s.registry) j (old j)
          else old j))
      × Same (collect_candidates k (some old) capacity s).2 s
collect_candidates-eligible k old capacity j s ready =
    let cs = eligible_from max_tasks 0 s.table s.registry in
    let whole = collect_candidates_lem k (some old) capacity s in
    let v =
      collect_loop_lem k capacity max_tasks 0 0 (some old) s s ready
        (record { table = refl; registry = refl; initialised = refl }) in
    (
      ap (λ x. x.0) whole ∙ v.count ∙ omega arith,
      ap (λ x. candidates_or old x.1 j) whole
          ∙ ap (λ o. candidates_or old o j) v.buffer
          ∙ store_all_lem cs 0 capacity old old j
          ∙ entry_first cs capacity old j,
      subst (λ x. Same x.2 s) (sym whole) v.same,
    )

-- The count without a buffer.
pub collect_candidates-count :
    (k : Kernel) (s : System)
    → is_some s.table_mux ≡ true
    → ((collect_candidates k none 0 s).0 ≡ length (eligible_from max_tasks 0 s.table s.registry))
      × Same (collect_candidates k none 0 s).2 s
collect_candidates-count k s ready =
    let whole = collect_candidates_lem k none 0 s in
    let v =
      collect_loop_lem k 0 max_tasks 0 0 none s s ready
        (record { table = refl; registry = refl; initialised = refl }) in
    (ap (λ x. x.0) whole ∙ v.count ∙ omega arith, subst (λ x. Same x.2 s) (sym whole) v.same)

-- ===== src/TaskManager/Create/Names.antt =====
-- The names that pair creation gives, and `is_client_task`.
use edge_aware_tasks_rtos.Prelude.{
  has, leb, ◌<◌, false, inl, inr, Bool-cases, ℕ, zero, suc, ◌+◌, ◌≤◌, ◌≡◌, refl, true, [], ◌∷◌,
  ◌++◌, some, Text, codes, length, take, strstr, print_int, arith,
}
use edge_aware_tasks_rtos.TaskManager.Access.{is_client_task}
use edge_aware_tasks_rtos.TaskManager.Create.{base_name, actual_core}

-- The tag survives the cut when it fits.
tag_found :
    (n : ℕ) (name rest : Text)
    → length name + 4 ≤ n
    → strstr (take n (name ++ codes "-cl-" ++ rest)) (codes "-cl-") ≡ true
unfolding strstr
tag_found (suc (suc (suc (suc n)))) [] rest l = refl
tag_found (suc (suc (suc zero))) [] rest l = absurd (omega (arith, l))
tag_found (suc (suc zero)) [] rest l = absurd (omega (arith, l))
tag_found (suc zero) [] rest l = absurd (omega (arith, l))
tag_found zero [] rest l = absurd (omega (arith, l))
tag_found zero (c ∷ name) rest l = absurd (omega (arith, l))
tag_found (suc n) (c ∷ name) rest l = ground (arith, tag_found n name rest (omega (arith, l)))

-- A client whose pair has a name of at most 11 characters is recognised as a client by its name,
-- whatever its core.
pub base_name-is_client_task :
    (name : Text) (core : ℕ)
    → length name ≤ 11
    → is_client_task (some (base_name (codes "-cl-") name core)) ≡ true
unfolding base_name is_client_task
base_name-is_client_task name core l =
    tag_found 15 name (print_int (actual_core core)) (omega (arith, l))

-- A tag that does not fit is not found in a name without a dash of its own.
tag_cut :
    (n : ℕ) (name rest : Text)
    → has b'-' name ≡ false
    → n < length name + 4
    → strstr (take n (name ++ codes "-cl-" ++ rest)) (codes "-cl-") ≡ false
unfolding strstr
tag_cut zero [] rest d l = refl
tag_cut (suc zero) [] rest d l = refl
tag_cut (suc (suc zero)) [] rest d l = refl
tag_cut (suc (suc (suc zero))) [] rest d l = refl
tag_cut (suc (suc (suc (suc n)))) [] rest d l = absurd (omega (arith, l))
tag_cut zero (c ∷ name) rest d l = refl
tag_cut (suc n) (c ∷ name) rest d l =
    ground (arith, d, tag_cut n name rest (ground (arith, d)) (omega (arith, l)))

-- A client whose pair has a name without a dash is recognised as a client by its entry's name
-- exactly if the pair's name has at most 11 characters.
pub base_name-is_client_task_iff :
    (name : Text) (core : ℕ)
    → has b'-' name ≡ false
    → is_client_task (some (base_name (codes "-cl-") name core)) ≡ leb (length name) 11
unfolding base_name is_client_task
base_name-is_client_task_iff name core d = elim (Bool-cases (leb (length name) 11)) [
  | inl short ↦ rw short (tag_found 15 name (print_int (actual_core core)) (ground (arith, short)))
  | inr long ↦ rw long (tag_cut 15 name (print_int (actual_core core)) d (ground (arith, long)))
]

-- ===== src/FileGroups.antt =====
-- patches/iceberg-datafusion-0.9.1/src/physical_plan/file_groups.rs: the tasks of a scan are spread
-- over partitions. A task is a parameter; the code reads its length and the size of its file.
pub mod Tasks
pub mod Balance
use iceberg_db_rs.Base.{
  ℕ, zero, suc, ◌+◌, Bool, true, false, ◌&&◌, List, [], ◌∷◌, ◌++◌, leb, ltb, ◌==◌, if◌then◌else◌,
  add64,
}

abbrev pub default_repartition_file_min_size : ℕ
default_repartition_file_min_size = 10485760

-- `v[i] = f(v[i])`; an index out of range changes nothing.
unfoldable pub alter {ℓ} : {A : Type ℓ} → ℕ → (A → A) → List A → List A
alter i f [] = []
alter zero f (x ∷ xs) = f x ∷ xs
alter (suc i) f (x ∷ xs) = x ∷ alter i f xs

unfoldable pub at_most_all : ℕ → List ℕ → Bool
at_most_all b [] = true
at_most_all b (c ∷ bs) = leb b c && at_most_all b bs

-- The first index of a least number: `min_by_key` over the enumeration, 0 when there is none.
unfoldable pub lightest : List ℕ → ℕ
unfolding at_most_all
lightest [] = 0
lightest (b ∷ bs) = let rest = lightest bs in if at_most_all b bs then 0 else suc rest

unfoldable pub replicate {ℓ} : {A : Type ℓ} → ℕ → A → List A
replicate zero x = []
replicate (suc n) x = x ∷ replicate n x

abbrev pub at_least_one : ℕ → ℕ
at_least_one n = if n == 0 then 1 else n

module _ {ℓ} {T : Type ℓ} (task_length file_size : T → ℕ) where
  unfoldable pub task_bytes : T → ℕ
  task_bytes t = if ltb 0 (task_length t) then task_length t else file_size t

  unfoldable pub total_bytes : List T → ℕ
  total_bytes [] = 0
  total_bytes (t ∷ ts) = add64 (task_bytes t) (total_bytes ts)

  -- The stable `sort_by_key` that puts large tasks first.
  unfoldable pub place : T → List T → List T
  place t [] = t ∷ []
  place t (x ∷ xs) =
      let rest = place t xs in if leb (task_bytes x) (task_bytes t) then t ∷ x ∷ xs else x ∷ rest

  unfoldable pub sort_tasks : List T → List T
  unfolding place
  sort_tasks [] = []
  sort_tasks (t ∷ ts) = place t (sort_tasks ts)

  -- The loop over the tasks: `group_bytes` and `groups`.
  unfoldable pub assign_tasks : List T → List ℕ → List (List T) → List (List T)
  unfolding alter lightest
  assign_tasks [] group_bytes groups = groups
  assign_tasks (t ∷ ts) group_bytes groups =
      let idx = lightest group_bytes in
      assign_tasks ts (alter idx (λ b. add64 b (task_bytes t)) group_bytes)
        (alter idx (λ g. g ++ (t ∷ [])) groups)

  -- `partition_file_scan_tasks` of a nonempty list of tasks and at least one partition.
  unfoldable pub partition_tasks : List T → ℕ → ℕ → List (List T)
  unfolding total_bytes sort_tasks assign_tasks replicate
  partition_tasks tasks target_partitions min_file_size =
      if target_partitions == 1
      then tasks ∷ []
      else if ltb (total_bytes tasks) min_file_size
      then alter 0 (λ g. tasks) (replicate target_partitions [])
      else assign_tasks (sort_tasks tasks) (replicate target_partitions 0)
          (replicate target_partitions [])

  unfoldable pub partition_file_scan_tasks : List T → ℕ → ℕ → List (List T)
  unfolding partition_tasks
  partition_file_scan_tasks [] target_partitions min_file_size =
      replicate (at_least_one target_partitions) []
  partition_file_scan_tasks (t ∷ ts) target_partitions min_file_size =
      partition_tasks (t ∷ ts) (at_least_one target_partitions) min_file_size

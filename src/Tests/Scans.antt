-- ===== src/Tests/Scans.antt =====
-- Runs of the spread of scan tasks over partitions: a task is its length.
use iceberg_db_rs.Base.{ℕ, ◌≡◌, ◌≤◌, ◌<◌, refl, List, [], ◌∷◌, All, arith, add64, word_mod}
use iceberg_db_rs.FileGroups.{
  partition_file_scan_tasks, default_repartition_file_min_size, task_bytes, at_least_one,
}
use iceberg_db_rs.FileGroups.Tasks.{weigh, weigh_all, partition_file_scan_tasks-weigh}
use iceberg_db_rs.FileGroups.Balance.{IsEven, partition_file_scan_tasks-IsEven}

abbrev task_length : ℕ → ℕ
task_length t = t

-- The size of every file.
abbrev file_size : ℕ → ℕ
file_size t = 40

abbrev tasks : List ℕ
tasks = 50 ∷ 20 ∷ 0 ∷ 30 ∷ []

-- What the runs unfold.
program : Unit {0}
unfolding partition_file_scan_tasks add64 task_bytes
program = tt

two_partitions :
    partition_file_scan_tasks task_length file_size tasks 2 0 ≡ (50 ∷ 20 ∷ []) ∷ (0 ∷ 30 ∷ []) ∷ []
unfolding program
two_partitions = refl

small_table :
    partition_file_scan_tasks task_length file_size tasks 2 default_repartition_file_min_size
    ≡ tasks ∷ [] ∷ []
unfolding program
small_table = refl

partition_file_scan_tasks-weigh_example :
    weigh_all task_length (partition_file_scan_tasks task_length file_size tasks 3 0)
    ≡ weigh task_length tasks
partition_file_scan_tasks-weigh_example =
    partition_file_scan_tasks-weigh task_length file_size task_length tasks 3 0

total_bounded : weigh (task_bytes task_length file_size) tasks < word_mod
unfolding program
total_bounded = omega arith

total_large : 10 ≤ weigh (task_bytes task_length file_size) tasks
unfolding program
total_large = omega arith

each_bounded : All (λ t. task_bytes task_length file_size t ≤ 50) tasks
unfolding program
each_bounded = (omega arith, (omega arith, (omega arith, (omega arith, tt))))

partition_file_scan_tasks-IsEven_example :
    All
      (IsEven task_length file_size
        (at_least_one 2)
        (weigh (task_bytes task_length file_size) tasks)
        50)
      (partition_file_scan_tasks task_length file_size tasks 2 10)
partition_file_scan_tasks-IsEven_example =
    partition_file_scan_tasks-IsEven task_length file_size tasks 2 10 50 total_bounded total_large
      each_bounded

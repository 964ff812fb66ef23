-- ===== src/FileGroups/Tasks.antt =====
-- No task is lost and none is scanned twice, whatever is counted of a task.
use iceberg_db_rs.Base.{
  ℕ, zero, suc, ◌+◌, ◌<◌, ◌≡◌, refl, List, [], ◌∷◌, ◌++◌, add64, length, arith, ap,
}
use iceberg_db_rs.FileGroups.{
  alter, at_most_all, lightest, replicate, at_least_one, task_bytes, place, sort_tasks,
  assign_tasks, partition_tasks, partition_file_scan_tasks,
}

-- The sum of the weights of the tasks of a list, and of all groups.
abbrev pub weigh {ℓ} : {T : Type ℓ} → (T → ℕ) → List T → ℕ
weigh w [] = 0
weigh w (t ∷ ts) = w t + weigh w ts

abbrev pub weigh_all {ℓ} : {T : Type ℓ} → (T → ℕ) → List (List T) → ℕ
weigh_all w [] = 0
weigh_all w (g ∷ gs) = weigh w g + weigh_all w gs

pub length-alter {ℓ} :
    {A : Type ℓ} (i : ℕ) (f : A → A) (xs : List A) → length (alter i f xs) ≡ length xs
unfolding alter
length-alter i f [] = refl
length-alter zero f (x ∷ xs) = refl
length-alter (suc i) f (x ∷ xs) = ap suc (length-alter i f xs)

pub length-replicate {ℓ} : {A : Type ℓ} (n : ℕ) (x : A) → length (replicate n x) ≡ n
unfolding replicate
length-replicate zero x = refl
length-replicate (suc n) x = ap suc (length-replicate n x)

pub lightest-InRange : (bs : List ℕ) → 0 < length bs → lightest bs < length bs
unfolding lightest at_most_all
lightest-InRange [] h = absurd (omega arith)
lightest-InRange (b ∷ []) h = omega arith
lightest-InRange (b ∷ c ∷ bs) h = ground (arith, lightest-InRange (c ∷ bs))

module _ {ℓ} {T : Type ℓ} (w : T → ℕ) where
  pub weigh-push : (g : List T) (t : T) → weigh w (g ++ (t ∷ [])) ≡ weigh w g + w t
  weigh-push [] t = omega arith
  weigh-push (x ∷ g) t = omega (arith, weigh-push g t)

  pub weigh_all-push :
      (i : ℕ) (gs : List (List T)) (t : T)
      → i < length gs
      → weigh_all w (alter i (λ g. g ++ (t ∷ [])) gs) ≡ weigh_all w gs + w t
  unfolding alter
  weigh_all-push zero [] t h = absurd (omega arith)
  weigh_all-push (suc i) [] t h = absurd (omega arith)
  weigh_all-push zero (g ∷ gs) t h = omega (arith, weigh-push g t)
  weigh_all-push (suc i) (g ∷ gs) t h = omega (arith, weigh_all-push i gs t)

  pub weigh_all-replicate : (n : ℕ) → weigh_all w (replicate n []) ≡ 0
  unfolding replicate
  weigh_all-replicate zero = refl
  weigh_all-replicate (suc n) = omega (arith, weigh_all-replicate n)

  pub weigh_all-alter_first :
      (n : ℕ) (ts : List T) → 0 < n → weigh_all w (alter 0 (λ g. ts) (replicate n [])) ≡ weigh w ts
  unfolding alter replicate
  weigh_all-alter_first zero ts h = absurd (omega arith)
  weigh_all-alter_first (suc n) ts h = omega (arith, weigh_all-replicate n)

module _ {ℓ} {T : Type ℓ} (task_length file_size : T → ℕ) (w : T → ℕ) where
  pub weigh-place :
      (t : T) (ts : List T) → weigh w (place task_length file_size t ts) ≡ w t + weigh w ts
  unfolding place
  weigh-place t [] = refl
  weigh-place t (x ∷ ts) = ground (arith, weigh-place t ts)

  pub weigh-sort_tasks : (ts : List T) → weigh w (sort_tasks task_length file_size ts) ≡ weigh w ts
  unfolding sort_tasks
  weigh-sort_tasks [] = refl
  weigh-sort_tasks (t ∷ ts) =
      omega (arith, weigh-place t (sort_tasks task_length file_size ts), weigh-sort_tasks ts)

  weigh_all-assign_tasks :
      (ts : List T) (bs : List ℕ) (gs : List (List T))
      → 0 < length bs
      → length bs ≡ length gs
      → weigh_all w (assign_tasks task_length file_size ts bs gs) ≡ weigh_all w gs + weigh w ts
  unfolding assign_tasks
  weigh_all-assign_tasks [] bs gs h k = omega arith
  weigh_all-assign_tasks (t ∷ ts) bs gs h k =
      let i = lightest bs in
      let add : ℕ → ℕ = λ b. add64 b (task_bytes task_length file_size t) in
      let push : List T → List T = λ g. g ++ (t ∷ []) in
      omega (
        arith,
        weigh_all-assign_tasks ts (alter i add bs) (alter i push gs)
            (omega (arith, length-alter i add bs))
            (omega (arith, length-alter i add bs, length-alter i push gs)),
        weigh_all-push w i gs t,
        lightest-InRange bs,
      )

  weigh_all-partition_tasks :
      (ts : List T) (n min_file_size : ℕ)
      → 0 < n
      → weigh_all w (partition_tasks task_length file_size ts n min_file_size) ≡ weigh w ts
  unfolding partition_tasks
  weigh_all-partition_tasks ts n min_file_size h = ground (
    arith,
    weigh_all-alter_first w n ts,
    weigh_all-assign_tasks (sort_tasks task_length file_size ts) (replicate n 0) (replicate n []),
    length-replicate {A = ℕ} n 0,
    length-replicate {A = List T} n [],
    weigh_all-replicate w n,
    weigh-sort_tasks ts,
  )

  -- For every weight of tasks, the weights of all groups together are the weights of the tasks:
  -- each task is in the groups as often as in the list.
  pub partition_file_scan_tasks-weigh :
      (ts : List T) (target_partitions min_file_size : ℕ)
      → weigh_all w
          (partition_file_scan_tasks task_length file_size ts target_partitions min_file_size)
        ≡ weigh w ts
  unfolding partition_file_scan_tasks
  partition_file_scan_tasks-weigh [] n min_file_size = weigh_all-replicate w (at_least_one n)
  partition_file_scan_tasks-weigh (t ∷ ts) n min_file_size =
      weigh_all-partition_tasks (t ∷ ts) (at_least_one n) min_file_size (ground arith)

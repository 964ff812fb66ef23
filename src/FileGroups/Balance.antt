-- ===== src/FileGroups/Balance.antt =====
-- How even the groups are: the bytes of a group against the mean of all groups.
use Prim.Native.Nat.{◌*◌}
use native.Mathlib.Nat.{suc-mul, mul-add, mul-le-mul_left}
use iceberg_db_rs.Base.{
  ℕ, zero, suc, ◌+◌, ◌≤◌, ◌<◌, ◌≡◌, refl, sym, ◌∙◌, true, false, List, [], ◌∷◌, ◌++◌, leb, ltb,
  ◌==◌, add64, add64_exact, word_mod, length, arith, Bool-cases, inl, inr, ap, All, subst,
}
use iceberg_db_rs.FileGroups.{
  alter, at_most_all, lightest, replicate, at_least_one, task_bytes, total_bytes, place, sort_tasks,
  assign_tasks, partition_tasks, partition_file_scan_tasks,
}
use iceberg_db_rs.FileGroups.Tasks.{
  weigh, length-alter, length-replicate, weigh_all, weigh_all-push, lightest-InRange, weigh-push,
  weigh-sort_tasks, weigh_all-replicate,
}

abbrev sum : List ℕ → ℕ
sum [] = 0
sum (b ∷ bs) = b + sum bs

-- As many times a common lower bound as there are numbers is at most their sum.
mul-le-sum : (bs : List ℕ) (m : ℕ) → All (λ b. m ≤ b) bs → length bs * m ≤ sum bs
mul-le-sum [] m h = omega arith
mul-le-sum (b ∷ bs) m h = omega (arith, suc-mul (length bs) m, mul-le-sum bs m h.1, h.0)

at_most_all-All : (b m : ℕ) (bs : List ℕ) → m ≤ b → at_most_all b bs ≡ true → All (λ c. m ≤ c) bs
unfolding at_most_all
at_most_all-All b m [] l h = tt
at_most_all-All b m (c ∷ bs) l h = (ground arith, at_most_all-All b m bs l (ground arith))

not_at_most_all : (b m : ℕ) (bs : List ℕ) → All (λ c. m ≤ c) bs → at_most_all b bs ≡ false → m ≤ b
unfolding at_most_all
not_at_most_all b m [] h f = absurd (ground arith)
not_at_most_all b m (c ∷ bs) h f = ground (arith, not_at_most_all b m bs h.1, h.0)

module _ {ℓ} {T : Type ℓ} (task_length file_size : T → ℕ) where
  abbrev w : T → ℕ
  w = task_bytes task_length file_size

  abbrev loads : List (List T) → List ℕ
  loads [] = []
  loads (g ∷ gs) = weigh w g ∷ loads gs

  sum-loads : (gs : List (List T)) → sum (loads gs) ≡ weigh_all w gs
  sum-loads [] = refl
  sum-loads (g ∷ gs) = omega (arith, sum-loads gs)

  length-loads : (gs : List (List T)) → length (loads gs) ≡ length gs
  length-loads [] = refl
  length-loads (g ∷ gs) = ap suc (length-loads gs)

  loads-replicate : (n : ℕ) → loads (replicate n []) ≡ replicate n 0
  unfolding replicate
  loads-replicate zero = refl
  loads-replicate (suc n) = ap (◌∷◌ 0) (loads-replicate n)

  -- The counters stay the bytes of the groups.
  alter-loads :
      (i : ℕ) (gs : List (List T)) (t : T)
      → sum (loads gs) + w t < word_mod
      → alter i (λ b. add64 b (w t)) (loads gs) ≡ loads (alter i (λ g. g ++ (t ∷ [])) gs)
  unfolding alter
  alter-loads i [] t h = refl
  alter-loads zero (g ∷ gs) t h =
      ap (λ b. b ∷ loads gs) (omega (arith, add64_exact (weigh w g) (w t), weigh-push w g t))
  alter-loads (suc i) (g ∷ gs) t h = ap (◌∷◌ (weigh w g)) (alter-loads i gs t (omega arith))

  All-alter-lightest {κ} :
      (P : List T → Type κ) (gs : List (List T)) (t : T)
      → All P gs
      → ((g : List T) → All (λ b. weigh w g ≤ b) (loads gs) → P (g ++ (t ∷ [])))
      → All P (alter (lightest (loads gs)) (λ g. g ++ (t ∷ [])) gs)
  unfolding alter lightest
  All-alter-lightest P [] t h k = tt
  All-alter-lightest P (g ∷ gs) t h k = elim (Bool-cases (at_most_all (weigh w g) (loads gs))) [
    | inl first ↦
        rw (first, lightest)
          (
            k g (
              omega arith,
              at_most_all-All (weigh w g) (weigh w g) (loads gs) (omega arith) first,
            ),
            h.1,
          )
    | inr later ↦
        rw (later, lightest)
          (
            h.0,
            All-alter-lightest P gs t h.1
                (λ d l. k d (not_at_most_all (weigh w g) (weigh w d) (loads gs) l later, l)),
          )
  ]

  module _ (n total M : ℕ) where
    abbrev pub IsEven : List T → Type 0
    IsEven g = n * weigh w g ≤ total + n * M

    push-IsEven :
        (gs : List (List T)) (t : T) (g : List T)
        → length gs ≡ n
        → sum (loads gs) ≤ total
        → w t ≤ M
        → All (λ b. weigh w g ≤ b) (loads gs)
        → IsEven (g ++ (t ∷ []))
    push-IsEven gs t g l s m h =
        rw (weigh-push w g t, mul-add n (weigh w g) (w t))
          (omega (
            arith,
            subst (λ k. k * weigh w g ≤ sum (loads gs)) (length-loads gs ∙ l)
                (mul-le-sum (loads gs) (weigh w g) h),
            mul-le-mul_left n m,
          ))

    assign_tasks-IsEven :
        (ts : List T) (gs : List (List T))
        → 0 < n
        → length gs ≡ n
        → total < word_mod
        → weigh_all w gs + weigh w ts ≤ total
        → All (λ t. w t ≤ M) ts
        → All IsEven gs
        → All IsEven (assign_tasks task_length file_size ts (loads gs) gs)
    unfolding assign_tasks
    assign_tasks-IsEven [] gs p l b s m h = h
    assign_tasks-IsEven (t ∷ ts) gs p l b s m h =
        let i = lightest (loads gs) in
        let push : List T → List T = λ g. g ++ (t ∷ []) in
        let room : sum (loads gs) + w t < word_mod = omega (arith, sum-loads gs) in
        let in_range : i < length gs =
          omega (arith, lightest-InRange (loads gs), length-loads gs) in
        subst (λ bs. All IsEven (assign_tasks task_length file_size ts bs (alter i push gs)))
          (sym (alter-loads i gs t room))
          (assign_tasks-IsEven ts (alter i push gs) p (length-alter i push gs ∙ l) b
            (omega (arith, weigh_all-push w i gs t in_range)) m.1
            (All-alter-lightest IsEven gs t h
              (λ g. push-IsEven gs t g l (omega (arith, sum-loads gs)) m.0)))

  total_bytes-weigh :
      (ts : List T) → weigh w ts < word_mod → total_bytes task_length file_size ts ≡ weigh w ts
  unfolding total_bytes
  total_bytes-weigh [] h = refl
  total_bytes-weigh (t ∷ ts) h = omega (
    arith,
    add64_exact (w t) (total_bytes task_length file_size ts),
    total_bytes-weigh ts (omega arith),
  )

  All-place :
      (M : ℕ) (t : T) (ts : List T)
      → w t ≤ M
      → All (λ x. w x ≤ M) ts
      → All (λ x. w x ≤ M) (place task_length file_size t ts)
  unfolding place
  All-place M t [] h k = (h, k)
  All-place M t (x ∷ ts) h k = elim (Bool-cases (leb (w x) (w t))) [
    | inl before ↦ rw (before, place) (h, k)
    | inr after ↦ rw (after, place) (k.0, All-place M t ts h k.1)
  ]

  All-sort_tasks :
      (M : ℕ) (ts : List T)
      → All (λ x. w x ≤ M) ts
      → All (λ x. w x ≤ M) (sort_tasks task_length file_size ts)
  unfolding sort_tasks
  All-sort_tasks M [] h = h
  All-sort_tasks M (t ∷ ts) h =
      All-place M t (sort_tasks task_length file_size ts) h.0 (All-sort_tasks M ts h.1)

  replicate-IsEven : (n total M k : ℕ) → All (IsEven n total M) (replicate k [])
  unfolding replicate
  replicate-IsEven n total M zero = tt
  replicate-IsEven n total M (suc k) = (omega arith, replicate-IsEven n total M k)

  partition_tasks-IsEven :
      (ts : List T) (size M : ℕ)
      → weigh w ts < word_mod
      → size ≤ weigh w ts
      → All (λ t. w t ≤ M) ts
      → (n : ℕ) → 0 < n
      → All (IsEven n (weigh w ts) M) (partition_tasks task_length file_size ts n size)
  unfolding partition_tasks
  partition_tasks-IsEven ts size M b s m n p = elim (Bool-cases (n == 1)) [
    | inl one ↦ rw (one, partition_tasks) (ground (arith, one), tt)
    | inr more ↦
        rw (more, total_bytes-weigh ts b, partition_tasks)
          (elim (Bool-cases (ltb (weigh w ts) size)) [
            | inl small ↦ absurd (ground arith)
            | inr large ↦ rw large (
                subst
                  (λ bs. All (IsEven n (weigh w ts) M) (
                    assign_tasks task_length file_size (sort_tasks task_length file_size ts) bs
                      (replicate n [])))
                  (loads-replicate n)
                  (assign_tasks-IsEven n (weigh w ts) M (sort_tasks task_length file_size ts)
                    (replicate n []) p (length-replicate n []) b
                    (omega
                      (arith, weigh_all-replicate w n, weigh-sort_tasks task_length file_size w ts))
                    (All-sort_tasks M ts m) (replicate-IsEven n (weigh w ts) M n)))
          ])
  ]

  -- For tasks of at most M bytes, of fewer than 2^64 bytes together and of no fewer than the
  -- minimum size of a file: n times the bytes of any of the n groups are at most the bytes of all
  -- tasks and n times M.
  pub partition_file_scan_tasks-IsEven :
      (ts : List T) (target_partitions min_file_size M : ℕ)
      → weigh w ts < word_mod
      → min_file_size ≤ weigh w ts
      → All (λ t. w t ≤ M) ts
      → All
          (IsEven (at_least_one target_partitions) (weigh w ts) M)
          (partition_file_scan_tasks task_length file_size ts target_partitions min_file_size)
  unfolding partition_file_scan_tasks
  partition_file_scan_tasks-IsEven [] n size M b s m =
      replicate-IsEven (at_least_one n) 0 M (at_least_one n)
  partition_file_scan_tasks-IsEven (t ∷ ts) target size M b s m =
      partition_tasks-IsEven (t ∷ ts) size M b s m (at_least_one target) (ground arith)

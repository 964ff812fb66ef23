-- ===== src/Bench/Median.antt =====
-- The median of samples, and a run that always gives its results.
use iceberg_db_rs.Base.{
  ℕ, zero, suc, ◌+◌, ◌-◌, ◌/◌, ◌≤◌, ◌<◌, ◌≡◌, refl, ◌∙◌, ap, ◌⊎◌, add64_exact, inl, inr, Bool-cases,
  List, [], ◌∷◌, length, All, leb, ◌==◌, add64, word_mod, Outcome, ok, arith,
}
use iceberg_db_rs.Base.Sort.{sort, sort-All, length-sort}
use iceberg_db_rs.Bench.{index, middle, median_ms}

index-All :
    (P : ℕ → Type 0) (xs : List ℕ) (i : ℕ)
    → All P xs
    → i < length xs
    → (x : ℕ) × ((index xs i ≡ ok x) × P x)
index-All P [] i h b = absurd (omega arith)
index-All P (x ∷ xs) zero h b = (x, (refl, h.0))
index-All P (x ∷ xs) (suc i) h b = index-All P xs i h.1 (omega arith)

-- The middle of sorted samples: one of them, or the mean of two of them.
record Middle (P : ℕ → Type 0) (m : Outcome ℕ) : Type 0 where
  low : ℕ
  high : ℕ
  low_in : P low
  high_in : P high
  value : (m ≡ ok low) ⊎ (m ≡ ok (add64 low high / 2))

middle-Middle : (P : ℕ → Type 0) (xs : List ℕ) → All P xs → 0 < length xs → Middle P (middle xs)
unfolding middle
middle-Middle P xs h b = elim (Bool-cases (length xs == 1)) [
  | inl one ↦
      let first = index-All P xs 0 h b in
      record {
        low = first.0;
        high = first.0;
        low_in = first.1.1;
        high_in = first.1.1;
        value = inl (rw (one, middle) first.1.0);
      }
  | inr more ↦
      let low = index-All P xs ((length xs - 1) / 2) h (omega arith) in
      let high = index-All P xs (length xs / 2) h (omega arith) in
      record {
        low = low.0;
        high = high.0;
        low_in = low.1.1;
        high_in = high.1.1;
        value = inr (rw (more, low.1.0, high.1.0, middle));
      }
]

abbrev pub Within : ℕ → ℕ → ℕ → Type 0
Within lo hi x = (lo ≤ x) × (x ≤ hi)

-- For samples of which there is one, all between two bounds whose upper one is below 2^63: the
-- median is found without a panic, and lies between the bounds.
pub median_ms-Within :
    (lo hi : ℕ) (samples : List ℕ)
    → All (Within lo hi) samples
    → 0 < length samples
    → hi + hi < word_mod
    → (m : ℕ) × ((median_ms samples ≡ ok m) × Within lo hi m)
unfolding median_ms
median_ms-Within lo hi samples h b small = of_middle (
    middle-Middle (Within lo hi) (sort leb samples) (sort-All leb (Within lo hi) samples h)
      (omega (arith, length-sort leb samples)))
  where
    of_middle :
        Middle (Within lo hi) (middle (sort leb samples))
        → (m : ℕ) × ((middle (sort leb samples) ≡ ok m) × Within lo hi m)
    of_middle m = elim m.value [
      | inl e ↦ (m.low, (e, m.low_in))
      | inr e ↦ (
        (m.low + m.high) / 2,
        (
          e ∙ ap (λ t. ok (t / 2)) (add64_exact m.low m.high (omega (arith, m.low_in, m.high_in))),
          (omega (arith, m.low_in, m.high_in), omega (arith, m.low_in, m.high_in)),
        ),
      )
    ]

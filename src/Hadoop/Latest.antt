-- ===== src/Hadoop/Latest.antt =====
-- Which file of a metadata directory is the latest.
use mathlib.Core.Option
use mathlib.Core.Option.{some-injective}
use iceberg_db_rs.Base.{
  ℕ, ◌≤◌, ◌≡◌, refl, ◌⊎◌, inl, inr, true, false, Bool-cases, Option, Option-cases, none, some, List,
  [], ◌∷◌, map, leb, if◌then◌else◌, All, AllSome, ok, arith, subst,
}
use iceberg_db_rs.Base.Text.{Text, has_name, text_eq_self}
use iceberg_db_rs.Base.Text.Cut.{strip_prefix}
use iceberg_db_rs.Hadoop.{
  Files, child, parse_metadata_version, better, latest_loop, latest_metadata_json,
}

module _ (files : Files) (dir : Text) where
  -- The version of a metadata file of that name in the directory.
  abbrev pub version_at : Text → Option ℕ
  version_at name = elim (parse_metadata_version name) [
    | none ↦ none
    | some version ↦ if files.is_file (child dir name) then some version else none
  ]

  abbrev pick : Option ℕ → Text → Option (ℕ × Text) → Option (ℕ × Text)
  pick none path best = best
  pick (some v) path none = some (v, path)
  pick (some v) path (some b) = if leb v b.0 then some b else some (v, path)

  better-pick :
      (name : Text) (best : Option (ℕ × Text))
      → better files dir name best ≡ pick (version_at name) (child dir name) best
  unfolding better strip_prefix
  better-pick name best = elim (Option-cases (parse_metadata_version name)) [
    | inl other ↦ rw (other, better)
    | inr (v, version) ↦ elim (Bool-cases (files.is_file (child dir name))) [
      | inl file ↦ rw (version, file, better) (with_file v best)
      | inr other ↦ rw (version, other, better)
    ]
  ]
    where
      with_file :
          (v : ℕ) (best : Option (ℕ × Text))
          → elim best as (λ x. Option (ℕ × Text)) [
            | none ↦ some (v, child dir name)
            | some b ↦ if leb v b.0 then some b else some (v, child dir name)
          ]
            ≡ pick (some v) (child dir name) best
      with_file v none = refl
      with_file v (some b) = refl

  -- A file among the names, with its version and its path.
  abbrev pub IsFile : List Text → ℕ × Text → Type 0
  IsFile names b =
      (name : Text) × ((has_name name names ≡ true)
        × ((b.1 ≡ child dir name) × (version_at name ≡ some b.0)))

  abbrev pub IsNewest : List Text → Option (ℕ × Text) → Type 0
  IsNewest names none = All (λ n. version_at n ≡ none) names
  IsNewest names (some b) = IsFile names b × All (λ n. AllSome (λ v. v ≤ b.0) (version_at n)) names

  -- The same, from a best that was found before.
  abbrev Improves : List Text → Option (ℕ × Text) → Option (ℕ × Text) → Type 0
  Improves names before none = (before ≡ none) × All (λ n. version_at n ≡ none) names
  Improves names before (some b) =
      ((before ≡ some b) ⊎ IsFile names b)
      × (AllSome (λ (p : ℕ × Text). p.0 ≤ b.0) before
          × All (λ n. AllSome (λ v. v ≤ b.0) (version_at n)) names)

  later : (n : Text) (names : List Text) (b : ℕ × Text) → IsFile names b → IsFile (n ∷ names) b
  later n names b f = (f.0, (ground (arith, f.1.0), f.1.1))

  Improves-step :
      (n : Text) (names : List Text) (w : Option ℕ) (before after : Option (ℕ × Text))
      → version_at n ≡ w
      → Improves names (pick w (child dir n) before) after
      → Improves (n ∷ names) before after
  Improves-step n names none before none e h = (h.0, (e, h.1))
  Improves-step n names none before (some b) e h = (earlier h.0, (h.1.0, (rw e tt, h.1.1)))
    where
      earlier : (before ≡ some b) ⊎ IsFile names b → (before ≡ some b) ⊎ IsFile (n ∷ names) b
      earlier (inl p) = inl p
      earlier (inr f) = inr (later n names b f)
  Improves-step n names (some v) none none e h = absurd (ground (arith, h.0))
  Improves-step n names (some v) none (some b) e h = (inr (found h.0), (tt, (rw e h.1.0, h.1.1)))
    where
      found : (some (v, child dir n) ≡ some b) ⊎ IsFile names b → IsFile (n ∷ names) b
      found (inl p) =
          subst (IsFile (n ∷ names)) (some-injective (v, child dir n) b p)
            (n, (ground (arith, text_eq_self n), (refl, e)))
      found (inr f) = later n names b f
  Improves-step n names (some v) (some a) after e h = (elim (Bool-cases (leb v a.0)) [
    | inl older ↦ keeps after older (subst (λ x. Improves names x after) (rw older) h)
    | inr newer ↦ takes after newer (subst (λ x. Improves names x after) (rw newer) h)
  ])
    where
      keeps :
          (after : Option (ℕ × Text))
          → leb v a.0 ≡ true
          → Improves names (some a) after
          → Improves (n ∷ names) (some a) after
      keeps none older k = absurd (ground (arith, k.0))
      keeps (some b) older k = (earlier k.0, (k.1.0, (rw e (ground (arith, k.1.0)), k.1.1)))
        where
          earlier : (some a ≡ some b) ⊎ IsFile names b → (some a ≡ some b) ⊎ IsFile (n ∷ names) b
          earlier (inl p) = inl p
          earlier (inr f) = inr (later n names b f)

      takes :
          (after : Option (ℕ × Text))
          → leb v a.0 ≡ false
          → Improves names (some (v, child dir n)) after
          → Improves (n ∷ names) (some a) after
      takes none newer k = absurd (ground (arith, k.0))
      takes (some b) newer k = (inr (found k.0), (ground (arith, k.1.0), (rw e k.1.0, k.1.1)))
        where
          found : (some (v, child dir n) ≡ some b) ⊎ IsFile names b → IsFile (n ∷ names) b
          found (inl p) =
              subst (IsFile (n ∷ names)) (some-injective (v, child dir n) b p)
                (n, (ground (arith, text_eq_self n), (refl, e)))
          found (inr f) = later n names b f

  latest_loop-Improves :
      (names : List Text) (before : Option (ℕ × Text))
      → (after : Option (ℕ × Text)) × ((latest_loop files dir (map ok names) before ≡ ok after)
          × Improves names before after)
  unfolding latest_loop
  latest_loop-Improves [] none = (none, (refl, (refl, tt)))
  latest_loop-Improves [] (some b) = (some b, (refl, (inl refl, (omega arith, tt))))
  latest_loop-Improves (n ∷ names) before =
      let rest = latest_loop-Improves names (better files dir n before) in
      (
        rest.0,
        (
          rest.1.0,
          Improves-step n names (version_at n) before rest.0 refl
              (subst (λ x. Improves names x rest.0) (better-pick n before) rest.1.1),
        ),
      )

  newest : (names : List Text) (o : Option (ℕ × Text)) → Improves names none o → IsNewest names o
  newest names none h = h.1
  newest names (some b) (inl p, k) = absurd (ground (arith, p))
  newest names (some b) (inr f, k) = (f, k.1)

  -- Of a directory that can be listed, the path of a metadata file whose version none of the
  -- others exceeds, or nothing when there is no metadata file.
  pub latest_metadata_json-IsNewest :
      (names : List Text)
      → files.read_dir dir ≡ ok (map ok names)
      → (best : Option (ℕ × Text)) × ((latest_metadata_json files dir
            ≡ ok (Option.map (λ b. b.1) best))
          × IsNewest names best)
  unfolding latest_metadata_json
  latest_metadata_json-IsNewest names listed =
      let found = latest_loop-Improves names none in
      (found.0, (rw (listed, found.1.0, latest_metadata_json), newest names found.0 found.1.1))

-- ===== src/Hadoop/Tables.antt =====
-- The tables of one namespace of a warehouse that are registered.
use iceberg_db_rs.Base.{
  Io, subst, ◌≡◌, refl, ◌∙◌, ap, inl, inr, true, false, ◌&&◌, ◌||◌, not, Bool-cases, Option,
  Option-cases, none, some, List, [], ◌∷◌, map, if◌then◌else◌, ok, arith, then_do, for_each,
}
use iceberg_db_rs.Base.Text.{Text, text_eq, text_eq_iff, has_name}
use iceberg_db_rs.Hadoop.{Files, TableCatalog, child, is_hidden, register_found, register_entry}
use iceberg_db_rs.Hadoop.Scan.{
  or_option, CatalogLaws, Warehouse, entry_location, or_either, Adds, Adds-none, Adds-trans,
}

module _ {S : Type 0} {files : Files} {root : Text} {catalog : TableCatalog S}
    (laws : CatalogLaws catalog) (w : Warehouse files root) where
  -- A call that succeeds in a namespace that is there and adds tables.
  abbrev pub Done : Text → Io S (Unit {0}) → S → (Text → Text → Option Text) → Type 0
  Done n call s added =
      (s' : S) × ((call s ≡ (ok tt, s'))
        × ((laws.has_namespace s' n ≡ true) × Adds laws s s' added))

  -- A table of that name, if it has metadata.
  abbrev pub one : Text → Text → Option Text → Text → Text → Option Text
  one n t l a b = if text_eq n a && text_eq t b then l else none

  one-none : (n t a b : Text) → none ≡ one n t none a b
  one-none n t a b = ground arith

  Done-nothing :
      (n : Text) (s : S) (f : Text → Text → Option Text)
      → laws.has_namespace s n ≡ true
      → ((a b : Text) → none ≡ f a b)
      → Done n (λ s. (ok tt, s)) s f
  Done-nothing n s f h e = (
    s,
    (refl, (h, λ a b. Adds-none laws s a b ∙ ap (or_option (laws.location_of s a b)) (e a b))),
  )

  kept :
      (n t l old : Text) (s : S) (a b : Text)
      → laws.location_of s n t ≡ some old
      → laws.location_of s a b ≡ or_option (laws.location_of s a b) (one n t (some l) a b)
  kept n t l old s a b there = elim (Bool-cases (text_eq n a && text_eq t b)) [
    | inr other ↦ rw other (Adds-none laws s a b)
    | inl same ↦
        let here : laws.location_of s a b ≡ some old =
          subst (λ x. laws.location_of s a x ≡ some old) ((text_eq_iff t b).0 (ground arith))
            (subst (λ x. laws.location_of s x t ≡ some old) ((text_eq_iff n a).0 (ground arith))
              there) in
        rw here
  ]

  added :
      (n t l : Text) (s : S) (a b : Text)
      → laws.location_of s n t ≡ none
      → (if text_eq n a && text_eq t b then some l else laws.location_of s a b)
        ≡ or_option (laws.location_of s a b) (one n t (some l) a b)
  added n t l s a b missing = elim (Bool-cases (text_eq n a && text_eq t b)) [
    | inr other ↦ rw other (Adds-none laws s a b)
    | inl same ↦
        let here : laws.location_of s a b ≡ none =
          subst (λ x. laws.location_of s a x ≡ none) ((text_eq_iff t b).0 (ground arith))
            (subst (λ x. laws.location_of s x t ≡ none) ((text_eq_iff n a).0 (ground arith))
              missing) in
        rw (here, same)
  ]

  register_found-Done :
      (n t : Text) (l : Option Text) (s : S)
      → laws.has_namespace s n ≡ true
      → Done n (register_found files catalog n t l) s (one n t l)
  unfolding register_found
  register_found-Done n t none s h = Done-nothing n s (one n t none) h (one-none n t)
  register_found-Done n t (some l) s h = elim (Option-cases (laws.location_of s n t)) [
    | inr (old, there) ↦
        (s, (rw (laws.table_exists_lem n t s, there), (h, λ a b. kept n t l old s a b there)))
    | inl missing ↦
        let r = laws.register_table_lem n t l s h missing in
        (
          r.0,
          (
            rw (laws.table_exists_lem n t s, missing) r.1.0,
            (r.1.1.0, λ a b. r.1.1.1 a b ∙ added n t l s a b missing),
          ),
        )
  ]

  register_entry-Done :
      (n t : Text) (s : S)
      → laws.has_namespace s n ≡ true
      → Done n
          (register_entry files catalog (child root n) n (ok t))
          s
          (one n t (entry_location w n t))
  unfolding register_entry
  register_entry-Done n t s h =
      elim (Bool-cases (not (files.is_dir (child (child root n) t)) || is_hidden t)) [
        | inl skipped ↦
            rw (skipped, register_entry) (Done-nothing n s (one n t none) h (one-none n t))
        | inr looked ↦
            rw (looked, w.metadata_found n t (ground arith), register_entry)
              (register_found-Done n t (w.metadata n t) s h)
      ]

  unfoldable pub listed : Text → List Text → Text → Text → Option Text
  listed n ts a b = if text_eq n a && has_name b ts then entry_location w n b else none

  -- Two calls in a row, where what the first adds and what the second adds are the tables of `h`.
  pub Done-then :
      (n : Text) (call rest : Io S (Unit {0})) (s : S) (f g h : Text → Text → Option Text)
      → Done n call s f
      → ((s' : S) → laws.has_namespace s' n ≡ true → Done n rest s' g)
      → ((a b : Text) → or_option (f a b) (g a b) ≡ h a b)
      → Done n (then_do call (λ u. rest)) s h
  Done-then n call rest s f g h first follows both =
      let second = follows first.0 first.1.1.0 in
      (
        second.0,
        (
          rw first.1.0 second.1.0,
          (second.1.1.0, Adds-trans laws s first.0 second.0 f g h first.1.1.1 second.1.1.1 both),
        ),
      )

  one-listed :
      (n t : Text) (ts : List Text) (a b : Text)
      → or_option (one n t (entry_location w n t) a b) (listed n ts a b) ≡ listed n (t ∷ ts) a b
  unfolding listed
  one-listed n t ts a b =
      or_either (text_eq n a && text_eq t b) (text_eq n a && has_name b ts) (entry_location w n t)
        (entry_location w n b) (λ p. ap (entry_location w n) ((text_eq_iff t b).0 (ground arith)))
      ∙ ap (λ p. if p then entry_location w n b else none) (ground arith)

  pub register_all-Done :
      (n : Text) (ts : List Text) (s : S)
      → laws.has_namespace s n ≡ true
      → Done n
          (for_each (register_entry files catalog (child root n) n) (map ok ts))
          s
          (listed n ts)
  unfolding for_each listed
  register_all-Done n [] s h =
      Done-nothing n s (λ a b. if text_eq n a && false then entry_location w n b else none) h
        (λ a b. ground arith)
  register_all-Done n (t ∷ ts) s h =
      Done-then n (register_entry files catalog (child root n) n (ok t))
        (for_each (register_entry files catalog (child root n) n) (map ok ts)) s
        (one n t (entry_location w n t)) (listed n ts) (listed n (t ∷ ts))
        (register_entry-Done n t s h) (register_all-Done n ts) (one-listed n t ts)

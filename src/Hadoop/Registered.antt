-- ===== src/Hadoop/Registered.antt =====
-- What is registered after the tables of a warehouse were looked for.
use iceberg_db_rs.Base.{
  lift, Io, ◌≡◌, refl, ◌∙◌, ap, inl, inr, Bool, true, false, ◌&&◌, ◌||◌, not, Bool-cases, Option,
  none, List, [], ◌∷◌, map, if◌then◌else◌, ok, arith, then_do, for_each,
}
use iceberg_db_rs.Base.Text.{Text, text_eq, text_eq_iff, has_name}
use iceberg_db_rs.Hadoop.{
  normalize_path, Files, TableCatalog, child, is_hidden, register_entry, ensure_namespace,
  bootstrap_entry, bootstrap_hadoop_tables,
}
use iceberg_db_rs.Hadoop.Scan.{
  or_option, CatalogLaws, Warehouse, entry_location, namespace_location, warehouse_location,
  or_either, Adds, Adds-none, Adds-trans,
}
use iceberg_db_rs.Hadoop.Tables.{Done, Done-then, listed, register_all-Done}

module _ {S : Type 0} {files : Files} {root : Text} {catalog : TableCatalog S}
    (laws : CatalogLaws catalog) (w : Warehouse files root) where
  ensure_namespace-Done :
      (n : Text) (s : S) → Done laws w n (ensure_namespace files catalog root n) s (λ a b. none)
  unfolding ensure_namespace
  ensure_namespace-Done n s = elim (Bool-cases (laws.has_namespace s n)) [
    | inl there ↦ (s, (rw (laws.namespace_exists_lem n s, there), (there, Adds-none laws s)))
    | inr missing ↦
        let r = laws.create_namespace_lem n (child (normalize_path root) n) s missing in
        (
          r.0,
          (
            rw (laws.namespace_exists_lem n s, missing) r.1.0,
            (r.1.1.0, λ a b. r.1.1.1 a b ∙ Adds-none laws s a b),
          ),
        )
  ]

  -- A call that succeeds and adds tables.
  abbrev pub Ran : Io S (Unit {0}) → S → (Text → Text → Option Text) → Type 0
  Ran call s f = (s' : S) × ((call s ≡ (ok tt, s')) × Adds laws s s' f)

  of_namespace : Text → Text → Text → Option Text
  of_namespace n a b = if text_eq n a then namespace_location w n b else none

  look_in-Done :
      (n : Text) (s : S)
      → files.is_dir (child root n) ≡ true
      → laws.has_namespace s n ≡ true
      → Done laws w n
          (then_do
            (lift (files.read_dir (child root n)))
            (for_each (register_entry files catalog (child root n) n)))
          s
          (listed laws w n (w.tables n))
  look_in-Done n s dir h = rw (w.tables_listed n dir) (register_all-Done laws w n (w.tables n) s h)

  abbrev is_skipped : Text → Bool
  is_skipped n = not (files.is_dir (child root n)) || is_hidden n

  abbrev look_in : Text → Io S (Unit {0})
  look_in n =
      then_do (lift (files.read_dir (child root n)))
        (for_each (register_entry files catalog (child root n) n))

  bootstrap_entry_skipped :
      (n : Text) (s : S)
      → is_skipped n ≡ true
      → bootstrap_entry files catalog root (ok n) s ≡ (ok tt, s)
  unfolding bootstrap_entry
  bootstrap_entry_skipped n s h = rw (h, bootstrap_entry)

  bootstrap_entry_looked :
      (n : Text) (s : S)
      → is_skipped n ≡ false
      → bootstrap_entry files catalog root (ok n) s
        ≡ then_do (ensure_namespace files catalog root n) (λ u. look_in n) s
  unfolding bootstrap_entry
  bootstrap_entry_looked n s h = rw (h, bootstrap_entry)

  of_namespace_skipped : (n a b : Text) → is_skipped n ≡ true → none ≡ of_namespace n a b
  unfolding of_namespace
  of_namespace_skipped n a b h = rw h (ground arith)

  of_namespace_looked :
      (n a b : Text)
      → is_skipped n ≡ false
      → or_option none (listed laws w n (w.tables n) a b) ≡ of_namespace n a b
  unfolding of_namespace listed
  of_namespace_looked n a b h = rw h (go (text_eq n a) (has_name b (w.tables n)))
    where
      go :
          (p q : Bool)
          → (if p && q then entry_location w n b else none)
            ≡ (if p then (if q then entry_location w n b else none) else none)
      go true q = refl
      go false q = refl

  bootstrap_entry-Ran :
      (n : Text) (s : S) → Ran (bootstrap_entry files catalog root (ok n)) s (of_namespace n)
  bootstrap_entry-Ran n s = elim (Bool-cases (is_skipped n)) [
    | inl skipped ↦ (
      s,
      (
        bootstrap_entry_skipped n s skipped,
        λ a b.
            Adds-none laws s a b
            ∙ ap (or_option (laws.location_of s a b)) (of_namespace_skipped n a b skipped),
      ),
    )
    | inr looked ↦
        let r =
          Done-then laws w n (ensure_namespace files catalog root n) (look_in n) s (λ a b. none)
            (listed laws w n (w.tables n)) (of_namespace n) (ensure_namespace-Done n s)
            (λ s'. look_in-Done n s' (ground arith)) (λ a b. of_namespace_looked n a b looked) in
        (r.0, (bootstrap_entry_looked n s looked ∙ r.1.0, r.1.1.1))
  ]

  found_in : List Text → Text → Text → Option Text
  found_in ns a b = if has_name a ns then namespace_location w a b else none

  of_namespace-found_in :
      (n : Text) (ns : List Text) (a b : Text)
      → or_option (of_namespace n a b) (found_in ns a b) ≡ found_in (n ∷ ns) a b
  unfolding of_namespace found_in
  of_namespace-found_in n ns a b =
      or_either (text_eq n a) (has_name a ns) (namespace_location w n b) (namespace_location w a b)
        (λ p. ap (λ x. namespace_location w x b) ((text_eq_iff n a).0 p))

  bootstrap_all-Ran :
      (ns : List Text) (s : S)
      → Ran (for_each (bootstrap_entry files catalog root) (map ok ns)) s (found_in ns)
  unfolding for_each found_in
  bootstrap_all-Ran [] s = (s, (refl, Adds-none laws s))
  bootstrap_all-Ran (n ∷ ns) s =
      let first = bootstrap_entry-Ran n s in
      let second = bootstrap_all-Ran ns first.0 in
      (
        second.0,
        (
          rw first.1.0 second.1.0,
          Adds-trans laws s first.0 second.0 (of_namespace n) (found_in ns) (found_in (n ∷ ns))
              first.1.1 second.1.1 (of_namespace-found_in n ns),
        ),
      )

  -- For a warehouse that can be read and a catalog whose calls succeed: the bootstrap succeeds, and
  -- the tables of the catalog are those it had and, under other names, exactly the tables of the
  -- warehouse that have metadata, with their metadata.
  pub bootstrap_hadoop_tables-Adds :
      (s : S)
      → (s' : S) × ((bootstrap_hadoop_tables files catalog root s ≡ (ok tt, s'))
          × Adds laws s s' (warehouse_location w))
  unfolding bootstrap_hadoop_tables found_in
  bootstrap_hadoop_tables-Adds s = rw w.namespaces_listed (bootstrap_all-Ran w.namespaces s)

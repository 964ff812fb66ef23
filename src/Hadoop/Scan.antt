-- ===== src/Hadoop/Scan.antt =====
-- What a warehouse holds, what the catalog promises, and tables that are added to it.
use iceberg_db_rs.Base.{
  ◌≡◌, refl, ◌∙◌, ap, Bool, true, false, ◌&&◌, ◌||◌, not, Option, none, some, List, map,
  if◌then◌else◌, ok,
}
use iceberg_db_rs.Base.Text.{Text, codes, text_eq, has_name}
use iceberg_db_rs.Hadoop.{Files, TableCatalog, child, is_hidden, resolve_metadata_file}

abbrev pub is_some : Option Text → Bool
is_some none = false
is_some (some t) = true

abbrev pub or_option : Option Text → Option Text → Option Text
or_option none b = b
or_option (some t) b = some t

-- The catalog is a set of namespaces and a map from tables to their metadata. Its calls succeed: a
-- table is registered in a namespace that is there and has no such table.
pub record CatalogLaws {S : Type 0} (catalog : TableCatalog S) : Type 0 where
  pub has_namespace : S → Text → Bool
  pub location_of : S → Text → Text → Option Text
  pub namespace_exists_lem :
      (n : Text) (s : S) → catalog.namespace_exists n s ≡ (ok (has_namespace s n), s)
  pub create_namespace_lem :
      (n l : Text) (s : S)
      → has_namespace s n ≡ false
      → (s' : S) × ((catalog.create_namespace n l s ≡ (ok tt, s'))
          × ((has_namespace s' n ≡ true) × ((a b : Text) → location_of s' a b ≡ location_of s a b)))
  pub table_exists_lem :
      (n t : Text) (s : S) → catalog.table_exists n t s ≡ (ok (is_some (location_of s n t)), s)
  pub register_table_lem :
      (n t l : Text) (s : S)
      → has_namespace s n ≡ true
      → location_of s n t ≡ none
      → (s' : S) × ((catalog.register_table n t l s ≡ (ok tt, s'))
          × ((has_namespace s' n ≡ true)
              × ((a b : Text)
                  → location_of s' a b
                    ≡ (if text_eq n a && text_eq t b then some l else location_of s a b))))

-- A warehouse that can be read: its namespaces, their tables and the metadata of each table.
pub record Warehouse (files : Files) (root : Text) : Type 0 where
  pub namespaces : List Text
  pub tables : Text → List Text
  pub metadata : Text → Text → Option Text
  pub namespaces_listed : files.read_dir root ≡ ok (map ok namespaces)
  pub tables_listed :
      (n : Text)
      → files.is_dir (child root n) ≡ true
      → files.read_dir (child root n) ≡ ok (map ok (tables n))
  pub metadata_found :
      (n t : Text)
      → files.is_dir (child (child root n) t) ≡ true
      → resolve_metadata_file files (child (child (child root n) t) (codes "metadata"))
        ≡ ok (metadata n t)

module _ {files : Files} {root : Text} (w : Warehouse files root) where
  -- The metadata of a table's directory, of a directory listed in its namespace, and in any
  -- namespace: hidden directories and files do not count.
  abbrev pub entry_location : Text → Text → Option Text
  entry_location n t =
      if not (files.is_dir (child (child root n) t)) || is_hidden t then none else w.metadata n t

  abbrev pub namespace_location : Text → Text → Option Text
  namespace_location n t =
      if not (files.is_dir (child root n)) || is_hidden n
      then none
      else if has_name t (w.tables n)
      then entry_location n t
      else none

  abbrev pub warehouse_location : Text → Text → Option Text
  warehouse_location n t = if has_name n w.namespaces then namespace_location n t else none

-- Of two ways to find the same thing, either.
pub or_either :
    (p q : Bool) (x y : Option Text)
    → (p ≡ true → x ≡ y)
    → or_option (if p then x else none) (if q then y else none) ≡ (if p || q then y else none)
or_either false q x y h = refl
or_either true true x none h = rw (h refl)
or_either true true x (some l) h = rw (h refl)
or_either true false x none h = rw (h refl)
or_either true false x (some l) h = rw (h refl)

module _ {S : Type 0} {catalog : TableCatalog S} (laws : CatalogLaws catalog) where
  -- The tables of the second state are those of the first, and the added ones of other names.
  abbrev pub Adds : S → S → (Text → Text → Option Text) → Type 0
  Adds s s' added =
      (a b : Text) → laws.location_of s' a b ≡ or_option (laws.location_of s a b) (added a b)

  or_assoc : (x y z : Option Text) → or_option (or_option x y) z ≡ or_option x (or_option y z)
  or_assoc none y z = refl
  or_assoc (some l) y z = refl

  or_none : (x : Option Text) → x ≡ or_option x none
  or_none none = refl
  or_none (some l) = refl

  pub Adds-none : (s : S) → Adds s s (λ a b. none)
  Adds-none s a b = or_none (laws.location_of s a b)

  pub Adds-trans :
      (s1 s2 s3 : S) (f g h : Text → Text → Option Text)
      → Adds s1 s2 f
      → Adds s2 s3 g
      → ((a b : Text) → or_option (f a b) (g a b) ≡ h a b)
      → Adds s1 s3 h
  Adds-trans s1 s2 s3 f g h p q e a b =
      q a b
      ∙ (ap (λ x. or_option x (g a b)) (p a b)
          ∙ (or_assoc (laws.location_of s1 a b) (f a b) (g a b)
              ∙ ap (or_option (laws.location_of s1 a b)) (e a b)))

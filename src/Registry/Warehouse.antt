-- ===== src/Registry/Warehouse.antt =====
-- A registry of one warehouse is that of a configuration with one catalog of files.
use iceberg_db_rs.Base.{◌≡◌, refl, ◌∙◌, ap, sym, false, Option, none, some, [], ◌∷◌}
use iceberg_db_rs.Base.Text.{Text, codes, text_eq_self}
use iceberg_db_rs.Base.Text.Cut.{trim}
use iceberg_db_rs.Base.Text.Chars.{lower_char}
use iceberg_db_rs.Base.Dict
use iceberg_db_rs.Base.Dict.{Dict}
use iceberg_db_rs.Config.Resolve.{Env, resolve_value}
use iceberg_db_rs.Config.Profile.{is_empty, nonempty, or_text}
use iceberg_db_rs.QueryIo.{native}
use iceberg_db_rs.Rest.Http.{Attempt, done, failed, Call, and_then, lift}
use iceberg_db_rs.Rest.Open.{CatalogSpec, default_schema_from_spec}
use iceberg_db_rs.Registry.{
  OpenCatalog, AppConfig, CatalogRegistry, Warehouses, open_file_warehouse_path,
  open_file_warehouse, open_files, open_catalog, open_all, registry_of, schema_of, from_config,
  from_file_warehouse_with_schema,
}

-- A catalog of the type `file` with a warehouse and a default schema.
abbrev pub file_spec : Text → Text → CatalogSpec
file_spec warehouse schema = record {
  catalog_type = codes "file";
  properties = (codes "default-schema", schema) ∷ (codes "warehouse", warehouse) ∷ [];
}

abbrev pub one_warehouse : Text → Text → Text → AppConfig
one_warehouse name warehouse schema = record {
  default_catalog = none;
  catalogs = (name, file_spec warehouse schema) ∷ [];
}

-- A default schema that the code takes as it is.
pub record IsPlain (schema : Text) : Type 0 where
  pub schema_trimmed : trim schema ≡ schema
  pub schema_filled : is_empty schema ≡ false

nonempty-some : (t : Text) → is_empty t ≡ false → nonempty (some t) ≡ some t
nonempty-some t h = rw h refl

file_spec-schema :
    (warehouse schema : Text)
    → IsPlain schema
    → or_text (default_schema_from_spec (file_spec warehouse schema)) (codes "public") ≡ schema
unfolding default_schema_from_spec Dict.get
file_spec-schema warehouse schema h =
    ap (λ t. or_text (nonempty (some t)) (codes "public")) h.schema_trimmed
    ∙ ap (λ o. or_text o (codes "public")) (nonempty-some schema h.schema_filled)

abbrev registry_with : Text → OpenCatalog → Text → CatalogRegistry
registry_with name catalog schema = record {
  default_name = name;
  default_schema = schema;
  catalogs = (name, catalog) ∷ [];
}

module _ {W : Type 0} (w : Warehouses W) (env : Env)
    (open_rest : CatalogSpec → Call W (Dict Text)) where
  open_catalog-file :
      (name warehouse schema : Text)
      → is_empty warehouse ≡ false
      → resolve_value env warehouse ≡ warehouse
      → (s : W)
      → open_catalog w native env open_rest name (file_spec warehouse schema) s
        ≡ open_file_warehouse_path w name warehouse s
  unfolding open_catalog open_files open_file_warehouse Dict.get lower_char
  open_catalog-file name warehouse schema filled plain s =
      rw (filled) (rw (plain) (rw (filled) refl))

  registry_of-file :
      (name warehouse schema : Text) (catalog : OpenCatalog)
      → IsPlain schema
      → registry_of
          (one_warehouse name warehouse schema)
          name
          ((name, catalog) ∷ [])
          (Dict.get ((name, catalog) ∷ []) name)
        ≡ done (registry_with name catalog schema)
  unfolding Dict.get
  registry_of-file name warehouse schema catalog h = rw (text_eq_self name) (
      ap (λ (t : Text). done (registry_with name catalog t))
        (at_name ∙ file_spec-schema warehouse schema h))
    where
      at_name :
          schema_of (Dict.get (one_warehouse name warehouse schema).catalogs name)
          ≡ or_text (default_schema_from_spec (file_spec warehouse schema)) (codes "public")
      at_name = rw (text_eq_self name) refl

  -- On the native build: a registry that is opened from one warehouse, whose path is its canonical
  -- one, is not empty and has no placeholder, with a default schema that is trimmed and not empty,
  -- comes with the same result, error and state as the registry of a configuration with one
  -- catalog of the type `file` for the warehouse.
  pub from_file_warehouse-from_config :
      (canonicalize : Text → Option Text) (name warehouse schema : Text)
      → or_text (canonicalize warehouse) warehouse ≡ warehouse
      → is_empty warehouse ≡ false
      → resolve_value env warehouse ≡ warehouse
      → IsPlain schema
      → (s : W)
      → from_file_warehouse_with_schema w canonicalize name warehouse schema s
        ≡ from_config w native env open_rest (one_warehouse name warehouse schema) s
  unfolding from_file_warehouse_with_schema from_config open_all Dict.insert Dict.remove
  from_file_warehouse-from_config canonicalize name warehouse schema canonical filled plain h s =
      rw (canonical) (
        rw (open_catalog-file name warehouse schema filled plain s) (
          go (open_file_warehouse_path w name warehouse s).0
            (open_file_warehouse_path w name warehouse s).1))
    where
      go :
          (r : Attempt OpenCatalog) (s' : W)
          → and_then r (λ catalog. lift (done (registry_with name catalog schema))) s' ≡ (
              let (x, s'') =
                and_then r
                  (λ catalog. open_all w native env open_rest [] (Dict.insert [] name catalog))
                  s' in
              and_then x
                (λ catalogs. lift (
                  registry_of
                    (one_warehouse name warehouse schema)
                    name
                    catalogs
                    (Dict.get catalogs name)))
                s'')
      go (done catalog) s' =
          ap (λ (x : Attempt CatalogRegistry). (x, s'))
            (sym (registry_of-file name warehouse schema catalog h))
      go (failed e) s' = refl

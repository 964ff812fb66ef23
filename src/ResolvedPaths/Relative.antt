-- ===== src/ResolvedPaths/Relative.antt =====
-- Where the tables of a `ResolvedPathCatalog` read the relative paths of their manifests.
use iceberg_db_rs.Base.{ℕ, ◌≡◌, refl, ap, ◌∙◌, false, none, ◌∷◌, ◌++◌, Outcome, ok, Io, arith}
use iceberg_db_rs.Base.Text.{Text, codes}
use iceberg_db_rs.Base.Text.Cut.{
  contains, starts_with, EndsOutside, StartsOutside, trim_start_matches_fixed,
  trim_end_matches_fixed,
}
use iceberg_db_rs.Base.Text.Trimmed.{IsTrimmed}
use iceberg_db_rs.ByteCache.Range.{Bytes}
use iceberg_db_rs.ResolvedPaths.{
  is_slash, is_absolute_path, file_uri_to_local_path, resolve_trimmed, resolve_path,
}
use iceberg_db_rs.ResolvedPaths.Idempotent.{forward_fixed}
use iceberg_db_rs.ResolvedPaths.Resolution.{HasNoBackslash, resolve_path_lem}
use iceberg_db_rs.ResolvedPaths.Catalog.{
  Kinds, table_relative, read_file, Table, Catalog, resolved_path_catalog,
}

-- A path below a location, as the manifests of a Hadoop table have it.
pub record IsRelative (path : Text) : Type 0 where
  pub trimmed : IsTrimmed path
  pub no_backslash : HasNoBackslash path
  pub no_file_uri : file_uri_to_local_path path ≡ none
  pub no_scheme : contains (codes "://") path ≡ false
  pub not_absolute : is_absolute_path path ≡ false

pub record IsLocation (base : Text) : Type 0 where
  pub no_backslash : HasNoBackslash base
  pub no_slash : EndsOutside is_slash base

StartsOutside-relative :
    (c : ℕ) (s : Text) → is_absolute_path (c ∷ s) ≡ false → StartsOutside is_slash (c ∷ s)
unfolding is_absolute_path starts_with
StartsOutside-relative c s h = ground arith

-- A path below a location is resolved to the location and the path, with a slash between.
resolve_path-relative :
    (base : Text) (c : ℕ) (s : Text)
    → IsLocation base
    → IsRelative (c ∷ s)
    → resolve_path base (c ∷ s) ≡ base ++ (b'/' ∷ c ∷ s)
unfolding resolve_trimmed
resolve_path-relative base c s b p =
    resolve_path_lem base c s p.trimmed
    ∙ rw
        (
          p.no_file_uri,
          p.no_scheme,
          p.not_absolute,
          resolve_trimmed,
          trim_end_matches_fixed is_slash base b.no_slash,
          trim_start_matches_fixed is_slash (c ∷ s) (StartsOutside-relative c s p.not_absolute),
        )
        (rw (forward_fixed base b.no_backslash, forward_fixed (c ∷ s) p.no_backslash) refl)

module _ (K : Kinds) (location : K.Metadata → Text) (build : Table K → Outcome (Table K)) where
  -- The calls that yield a table.
  pub data TableCall : Type 0 where
    creates : K.NamespaceIdent → K.TableCreation → TableCall
    loads : K.TableIdent → TableCall
    registers : K.TableIdent → Text → TableCall
    updates : K.TableCommit → TableCall

  abbrev pub made : {W : Type 0} → Catalog K W → TableCall → Io W (Table K)
  made catalog (creates namespace creation) = catalog.create_table namespace creation
  made catalog (loads table) = catalog.load_table table
  made catalog (registers table at) = catalog.register_table table at
  made catalog (updates commit) = catalog.update_table commit

  -- When the builder builds what it is given: for each table that the wrapped catalog creates,
  -- loads, registers or updates, the wrapper yields, with the same state, a table of the same
  -- identifier, metadata and metadata location, whose file at a path that is relative in the way
  -- of a manifest is the local one below the table's location.
  pub resolved_path_catalog-read_file :
      {W : Type 0} (inner : Catalog K W) (local : Text → Outcome Bytes) (call : TableCall) (c : ℕ)
      (s : Text) (w w' : W) (table : Table K)
      → ((t : Table K) → build t ≡ ok t)
      → made inner call w ≡ (ok table, w')
      → IsLocation (location table.metadata)
      → IsRelative (c ∷ s)
      → (t : Table K) × (made (resolved_path_catalog K location build inner) call w ≡ (ok t, w'))
        × (t.identifier ≡ table.identifier)
        × (t.metadata ≡ table.metadata)
        × (t.metadata_location ≡ table.metadata_location)
        × (read_file local t.file_io (c ∷ s) ≡ local (location t.metadata ++ (b'/' ∷ c ∷ s)))
  unfolding resolved_path_catalog read_file
  resolved_path_catalog-read_file inner local call c s w w' table builds found at relative = (
    record table { file_io = table_relative (location table.metadata) },
    same call found,
    refl,
    refl,
    refl,
    ap local (resolve_path-relative (location table.metadata) c s at relative),
  )
    where
      same :
          (k : TableCall)
          → made inner k w ≡ (ok table, w')
          → made (resolved_path_catalog K location build inner) k w
            ≡ (ok (record table { file_io = table_relative (location table.metadata) }), w')
      same (creates namespace creation) e = rw (e, builds _)
      same (loads ident) e = rw (e, builds _)
      same (registers ident at) e = rw (e, builds _)
      same (updates commit) e = rw (e, builds _)

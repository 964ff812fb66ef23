-- ===== src/Session/Lazy/Fresh.antt =====
-- What the lazy catalog holds when it is opened, and that its tables are those of the moment.
use iceberg_db_rs.Base.{
  ◌≡◌, refl, ◌∙◌, ap, subst, sym, Bool, true, false, ◌||◌, Option, none, some, List, [], ◌∷◌,
  if◌then◌else◌, arith,
}
use iceberg_db_rs.Base.Result.{Result, ok, err, Satisfies}
use iceberg_db_rs.Base.Result.Run.{Run, ◌>>=◌, lift, and_then, Satisfies-and_then}
use iceberg_db_rs.Base.Text.{Text, text_eq, text_eq_iff, has_name}
use iceberg_db_rs.Base.Dict
use iceberg_db_rs.Base.Dict.{Dict, get-insert}
use iceberg_db_rs.CaseInsensitive.{is_some, eq_ignore_ascii_case, at_resolved_table}
use iceberg_db_rs.CaseInsensitive.Names.{IsDistinct, at_resolved_table_any_case}
use iceberg_db_rs.Session.Lazy.{
  Client, LazySchema, levels, table_exist, schema_try_new, open_schemas, catalog_try_new,
  load_table_provider, lazy_table,
}

-- Each schema lists the tables of the namespace that has its name.
abbrev pub HaveOwnNames : Dict LazySchema → Type 0
HaveOwnNames schemas =
    (name : Text) (schema : LazySchema)
    → Dict.get schemas name ≡ some schema
    → schema.namespace ≡ name

abbrev NameOf : Option LazySchema → Text → Type 0
NameOf none m = Unit
NameOf (some x) m = x.namespace ≡ m

HaveOwnNames-insert :
    (schemas : Dict LazySchema) (n : Text) (schema : LazySchema)
    → schema.namespace ≡ n
    → HaveOwnNames schemas
    → HaveOwnNames (Dict.insert schemas n schema)
HaveOwnNames-insert schemas n schema own h name found e =
    go (text_eq n name) refl (sym (get-insert schemas n schema name) ∙ e)
  where
    go :
        (b : Bool)
        → text_eq n name ≡ b
        → (if b then some schema else Dict.get schemas name) ≡ some found
        → found.namespace ≡ name
    go true same k =
        subst (λ (o : Option LazySchema). NameOf o name) k (own ∙ (text_eq_iff n name).0 same)
    go false other k = h name found k

-- The schemas of the map, and those of the names.
abbrev Extends : Dict LazySchema → List Text → Dict LazySchema → Type 0
Extends before names after =
    ((name : Text)
      → is_some (Dict.get after name) ≡ (is_some (Dict.get before name) || has_name name names))
    × HaveOwnNames after

inserted :
    (before : Dict LazySchema) (n : Text) (schema : LazySchema) (names : List Text) (name : Text)
    → (is_some (Dict.get (Dict.insert before n schema) name) || has_name name names)
      ≡ (is_some (Dict.get before name) || (text_eq n name || has_name name names))
inserted before n schema names name =
    ap (λ o. is_some o || has_name name names) (get-insert before n schema name)
    ∙ go (text_eq n name) (Dict.get before name) (has_name name names)
  where
    go :
        (b : Bool) (o : Option LazySchema) (h : Bool)
        → (is_some (if b then some schema else o) || h) ≡ (is_some o || (b || h))
    go true none h = refl
    go true (some d) h = refl
    go false none h = refl
    go false (some d) h = refl

module _ {S T : Type 0} (client : Client S T) where
  schema_try_new-namespace :
      (name : Text) (s : S)
      → Satisfies (λ schema. schema.namespace ≡ name) (schema_try_new client name s).0
  unfolding schema_try_new
  schema_try_new-namespace name s =
      Satisfies-and_then (λ schema. schema.namespace ≡ name) (client.list_tables name s).0 _
        (client.list_tables name s).1 (λ tables e. refl)

  open_schemas-Extends :
      (names : List Text) (before : Dict LazySchema) (s : S)
      → HaveOwnNames before
      → Satisfies (Extends before names) (open_schemas client names before s).0
  unfolding open_schemas
  open_schemas-Extends [] before s h = (λ name. ground arith, h)
  open_schemas-Extends (n ∷ names) before s h =
      let first = schema_try_new client n s in
      Satisfies-and_then (Extends before (n ∷ names)) first.0
        (λ schema. open_schemas client names (Dict.insert before n schema)) first.1
        (λ schema e.
          weaken schema (open_schemas client names (Dict.insert before n schema) first.1).0 (
            open_schemas-Extends names (Dict.insert before n schema) first.1 (
              HaveOwnNames-insert before n schema
                (subst (Satisfies (λ (x : LazySchema). x.namespace ≡ n)) e
                  (schema_try_new-namespace n s))
                h)))
    where
      weaken :
          (schema : LazySchema) (r : Result Text (Dict LazySchema))
          → Satisfies (Extends (Dict.insert before n schema) names) r
          → Satisfies (Extends before (n ∷ names)) r
      weaken schema (err e) k = tt
      weaken schema (ok after) k = (λ name. k.0 name ∙ inserted before n schema names name, k.1)

  -- The table of a name that is loaded now.
  abbrev pub loaded_now : Text → Text → Run Text S (Option T)
  loaded_now namespace name = do
    table ← client.load_table (record { namespace = namespace; name = name })
    ready ← client.try_new_from_table table
    lift (ok (some ready))

  -- What a user sees of the catalog, through the wrapper that takes any case.
  abbrev pub table_seen : LazySchema → Text → Run Text S (Option T)
  table_seen schema name s =
      at_resolved_table (table_exist schema) schema.table_names (lift (ok none))
        (lazy_table client schema) name s

  lazy_table-listed :
      (schema : LazySchema) (n : Text)
      → has_name n schema.table_names ≡ true
      → (s : S) → lazy_table client schema n s ≡ loaded_now schema.namespace n s
  unfolding lazy_table table_exist load_table_provider
  lazy_table-listed schema n h s =
      let r = client.load_table (record { namespace = schema.namespace; name = n }) s in
      rw (h) (regroup r.0 r.1)
    where
      regroup :
          (r : Result Text T) (s : S)
          → (let (x, s') = and_then r client.try_new_from_table s in
              and_then x (λ ready. lift (ok (some ready))) s')
            ≡ and_then r
                (λ table. client.try_new_from_table table >>= (λ ready. lift (ok (some ready))))
                s
      regroup (ok table) s = refl
      regroup (err e) s = refl

  catalog_try_new-Extends :
      (s1 s2 : S) (namespaces : List (List Text))
      → client.list_namespaces s1 ≡ (ok namespaces, s2)
      → Satisfies (Extends [] (levels namespaces)) (catalog_try_new client s1).0
  unfolding catalog_try_new Dict.get
  catalog_try_new-Extends s1 s2 namespaces listed =
      subst
        (λ (x : Result Text (Dict LazySchema) × S). Satisfies (Extends [] (levels namespaces)) x.0)
        (sym (
          ap
            (λ (x : Result Text (List (List Text)) × S).
              and_then x.0 (λ ns. open_schemas client (levels ns) []) x.1)
            listed))
        (open_schemas-Extends (levels namespaces) [] s2 (λ name schema e. cc))

  module _ (s1 s2 s3 : S) (namespaces : List (List Text)) (schemas : Dict LazySchema)
      (listed : client.list_namespaces s1 ≡ (ok namespaces, s2))
      (opened : catalog_try_new client s1 ≡ (ok schemas, s3)) where
    opened-Extends : Extends [] (levels namespaces) schemas
    opened-Extends =
        subst
          (λ (x : Result Text (Dict LazySchema) × S).
            Satisfies (Extends [] (levels namespaces)) x.0)
          opened (catalog_try_new-Extends s1 s2 namespaces listed)

    -- A catalog that has been opened has a schema for exactly the levels of the namespaces that
    -- were listed.
    pub has_schemas :
        (name : Text) → is_some (Dict.get schemas name) ≡ has_name name (levels namespaces)
    unfolding Dict.get
    has_schemas name = opened-Extends.0 name

    -- When a catalog has been opened, a table that one of its schemas lists, asked for in any case,
    -- where the tables of the schema differ by more than case, is loaded from the namespace of the
    -- schema's name in the state of the moment, whatever has happened since the opening.
    pub table_seen-loaded_now :
        (schema_name : Text) (schema : LazySchema) (n name : Text)
        → Dict.get schemas schema_name ≡ some schema
        → IsDistinct schema.table_names
        → has_name n schema.table_names ≡ true
        → eq_ignore_ascii_case n name ≡ true
        → (s : S) → table_seen schema name s ≡ loaded_now schema_name n s
    unfolding table_exist
    table_seen-loaded_now schema_name schema n name found distinct in_schema same s =
        ap (λ (f : Run Text S (Option T)). f s)
          (at_resolved_table_any_case (table_exist schema) schema.table_names (λ m. refl) distinct
            (lift (ok none)) (lazy_table client schema) n name in_schema same)
        ∙ lazy_table-listed schema n in_schema s
        ∙ ap (λ m. loaded_now m n s) (opened-Extends.1 schema_name schema found)

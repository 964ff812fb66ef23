-- ===== src/Tests/Loading.antt =====
-- Runs of the loading of a configuration, over a YAML library that knows one text.
use iceberg_db_rs.Base.{
  ◌≡◌, refl, ◌⊎◌, inl, inr, Bool, true, false, Option, none, some, List, [], ◌∷◌, if◌then◌else◌,
}
use iceberg_db_rs.Base.Result.{ok, err}
use iceberg_db_rs.Base.Text.{Text, codes, text_eq}
use iceberg_db_rs.Base.Text.Chars.{is_whitespace, lower_char}
use iceberg_db_rs.Base.Text.Cut.{trim_start_matches, starts_with}
use iceberg_db_rs.Rest.Open.{CatalogSpec}
use iceberg_db_rs.Registry.{AppConfig}
use iceberg_db_rs.Config.Load.{Yaml, looks_like_json, load_str, default_config_path}
use iceberg_db_rs.Config.Load.Loaded.{GetLaws, Holds, IsLoaded, load_str-IsLoaded, Passes, exactly}

-- The values of the one text.
pub data Node : Type 0 where
  text : Text → Node
  root catalogs : Node

abbrev pub as_str : Node → Option Text
as_str (text t) = some t
as_str root = none
as_str catalogs = none

abbrev pub entries : List (Node × Node)
entries =
    (text (codes "Catalogs"), catalogs)
    ∷ (text (codes "default-catalog"), text (codes "local"))
    ∷ []

abbrev pub spelled : Text → Option Text → Bool
spelled name none = false
spelled name (some k) = text_eq k name

abbrev pub get_node : List (Node × Node) → Text → Option Node
get_node [] name = none
get_node ((k, v) ∷ m) name = if spelled name (as_str k) then some v else get_node m name

abbrev pub local : CatalogSpec
local = record { catalog_type = codes "hadoop"; properties = (codes "warehouse", codes "/wh") ∷ [] }

abbrev pub config_text : Text
config_text = codes "Catalogs: ..."

abbrev pub yaml : Yaml Node
yaml = record {
  from_str = λ t. if text_eq t config_text then some root else none;
  as_mapping = λ v. elim v [ text t ↦ none | root ↦ some entries | catalogs ↦ none ];
  as_str = as_str;
  get = get_node;
  to_catalogs =
      λ v. elim v [ text t ↦ none | root ↦ none | catalogs ↦ some ((codes "local", local) ∷ []) ];
}

found :
    (m : List (Node × Node)) (name : Text) (v : Node)
    → get_node m name ≡ some v
    → Holds yaml (exactly yaml name) m v
found [] name v h = absurd (no_value h)
  where
    no_value : ◌≡◌ {A = Option Node} none (some v) → ⊥
    no_value k = cc
found ((k, w) ∷ m) name v h = go (as_str k) h (λ h'. found m name v h')
  where
    split :
        (t : Text) (b : Bool)
        → text_eq t name ≡ b
        → (if b then some w else get_node m name) ≡ some v
        → (get_node m name ≡ some v → Holds yaml (exactly yaml name) m v)
        → (Passes (exactly yaml name) (some t) × (w ≡ v)) ⊎ Holds yaml (exactly yaml name) m v
    split t true e h' ih = inl (e, cc)
    split t false e h' ih = inr (ih h')

    go :
        (o : Option Text)
        → (if spelled name o then some w else get_node m name) ≡ some v
        → (get_node m name ≡ some v → Holds yaml (exactly yaml name) m v)
        → (Passes (exactly yaml name) o × (w ≡ v)) ⊎ Holds yaml (exactly yaml name) m v
    go none h' ih = inr (ih h')
    go (some t) h' ih = split t (text_eq t name) refl h' ih

missing :
    (m : List (Node × Node)) (name : Text)
    → get_node m name ≡ none
    → (v : Node) → ¬ (Holds yaml (exactly yaml name) m v)
missing [] name h v k = k
missing ((k, w) ∷ m) name h v held = go (as_str k) h held (λ h'. missing m name h' v)
  where
    split :
        (t : Text) (b : Bool)
        → text_eq t name ≡ b
        → (if b then some w else get_node m name) ≡ none
        → (Passes (exactly yaml name) (some t) × (w ≡ v)) ⊎ Holds yaml (exactly yaml name) m v
        → (get_node m name ≡ none → ¬ (Holds yaml (exactly yaml name) m v))
        → ⊥
    split t true e h' x ih = cc
    split t false e h' (inl y) ih = cc (y.0)
    split t false e h' (inr y) ih = ih h' y

    go :
        (o : Option Text)
        → (if spelled name o then some w else get_node m name) ≡ none
        → (Passes (exactly yaml name) o × (w ≡ v)) ⊎ Holds yaml (exactly yaml name) m v
        → (get_node m name ≡ none → ¬ (Holds yaml (exactly yaml name) m v))
        → ⊥
    go none h' (inl y) ih = y.0
    go none h' (inr y) ih = ih h' y
    go (some t) h' x ih = split t (text_eq t name) refl h' x ih

laws : GetLaws yaml
laws = record { get_found = found; get_missing = missing }

abbrev pub config : AppConfig
config = record { default_catalog = some (codes "local"); catalogs = (codes "local", local) ∷ [] }

loaded : load_str yaml (0xfeff ∷ config_text) ≡ ok config
unfolding load_str lower_char is_whitespace trim_start_matches starts_with
loaded = refl

load_str-IsLoaded_example : IsLoaded yaml (0xfeff ∷ config_text) config
load_str-IsLoaded_example = load_str-IsLoaded yaml laws (0xfeff ∷ config_text) config loaded

json : load_str yaml (codes " {\"catalogs\": {}}") ≡ err looks_like_json
unfolding load_str lower_char is_whitespace trim_start_matches starts_with
json = refl

home :
    default_config_path
      (λ name. if text_eq name (codes "HOME") then some (codes "h") else none)
      (λ a b. a)
    ≡ codes "h"
unfolding default_config_path
home = refl

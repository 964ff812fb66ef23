-- ===== src/Config/Resolve.antt =====
-- `resolve_value` of idb-config/src/lib.rs: `${NAME}` is replaced by a variable of the environment.
use iceberg_db_rs.Base.{
  ℕ, ◌≡◌, refl, ap, sym, ◌∙◌, true, false, ◌&&◌, Option, none, some, List, [], ◌∷◌, ◌++◌, ◌==◌, All,
}
use iceberg_db_rs.Base.Text.{Text, codes}
use mathlib.Core.List.{append_assoc, append-nil}

-- `std::env::var(name).ok()`.
abbrev pub Env : Type 0
Env = Text → Option Text

-- An unset variable counts as empty.
abbrev pub or_empty : Option Text → Text
or_empty none = []
or_empty (some s) = s

module _ (env : Env) where
  abbrev pub replacement : Text → Text
  replacement name = or_empty (env name)

  -- The two loops over the characters: `outside` a placeholder, and `inside` one with the
  -- characters of the name so far.
  unfoldable mutual
    pub outside : Text → Text
    outside [] = []
    outside (c ∷ []) = c ∷ []
    outside (c ∷ d ∷ s) = elim ((c == b'$') && (d == b'{')) [
      | true ↦ inside s []
      | false ↦ c ∷ outside (d ∷ s)
    ]

    pub inside : Text → Text → Text
    inside [] name = replacement name
    inside (c ∷ s) name = elim (c == b'}') [
      | true ↦ replacement name ++ outside s
      | false ↦ inside s (name ++ (c ∷ []))
    ]

  unfoldable pub resolve_value : Text → Text
  resolve_value value = outside value

-- A value as its author means it: literal text and placeholders.
pub data Part : Type 0 where
  literal : Text → Part
  placeholder : Text → Part

abbrev pub render : List Part → Text
render [] = []
render (literal t ∷ ps) = t ++ render ps
render (placeholder name ∷ ps) = codes "${" ++ (name ++ (b'}' ∷ render ps))

abbrev pub meaning : Env → List Part → Text
meaning env [] = []
meaning env (literal t ∷ ps) = t ++ meaning env ps
meaning env (placeholder name ∷ ps) = replacement env name ++ meaning env ps

-- A placeholder at the end of the value that is not closed, if any.
abbrev pub render_open : Option Text → Text
render_open none = []
render_open (some name) = codes "${" ++ name

abbrev pub meaning_open : Env → Option Text → Text
meaning_open env none = []
meaning_open env (some name) = replacement env name

abbrev pub IsPart : Part → Type 0
IsPart (literal t) = All (λ c. (c == b'$') ≡ false) t
IsPart (placeholder name) = All (λ c. (c == b'}') ≡ false) name

abbrev pub IsOpen : Option Text → Type 0
IsOpen none = Unit
IsOpen (some name) = All (λ c. (c == b'}') ≡ false) name

module _ (env : Env) where
  outside-cons : (c : ℕ) (s : Text) → (c == b'$') ≡ false → outside env (c ∷ s) ≡ c ∷ outside env s
  unfolding outside
  outside-cons c [] h = refl
  outside-cons c (d ∷ s) h = rw (h, outside)

  outside-literal :
      (t s : Text) → All (λ c. (c == b'$') ≡ false) t → outside env (t ++ s) ≡ t ++ outside env s
  outside-literal [] s h = refl
  outside-literal (c ∷ t) s h = outside-cons c (t ++ s) h.0 ∙ ap (◌∷◌ c) (outside-literal t s h.1)

  inside-closed :
      (name s acc : Text)
      → All (λ c. (c == b'}') ≡ false) name
      → inside env (name ++ (b'}' ∷ s)) acc ≡ replacement env (acc ++ name) ++ outside env s
  unfolding inside
  inside-closed [] s acc h = rw append-nil
  inside-closed (c ∷ name) s acc h =
      rw (h.0, inside)
        (inside-closed name s (acc ++ (c ∷ [])) h.1
          ∙ ap (λ n. replacement env n ++ outside env s) (append_assoc acc (c ∷ []) name))

  inside-open :
      (name acc : Text)
      → All (λ c. (c == b'}') ≡ false) name
      → inside env name acc ≡ replacement env (acc ++ name)
  unfolding inside
  inside-open [] acc h = rw append-nil
  inside-open (c ∷ name) acc h =
      rw (h.0, inside)
        (inside-open name (acc ++ (c ∷ [])) h.1
          ∙ ap (replacement env) (append_assoc acc (c ∷ []) name))

  -- A value of literals without `$`, placeholders and perhaps an open placeholder at its end
  -- resolves to the literals with each placeholder's variable in place of it.
  pub resolve_value-render :
      (parts : List Part) (end : Option Text)
      → All IsPart parts
      → IsOpen end
      → resolve_value env (render parts ++ render_open end)
        ≡ meaning env parts ++ meaning_open env end
  unfolding resolve_value outside
  resolve_value-render [] none h k = refl
  resolve_value-render [] (some name) h k = inside-open name [] k
  resolve_value-render (literal t ∷ ps) end h k =
      ap (outside env) (append_assoc t (render ps) (render_open end))
      ∙ outside-literal t (render ps ++ render_open end) h.0
      ∙ ap (◌++◌ t) (resolve_value-render ps end h.1 k)
      ∙ sym (append_assoc t (meaning env ps) (meaning_open env end))
  resolve_value-render (placeholder name ∷ ps) end h k =
      ap (λ r. inside env r []) (append_assoc name (b'}' ∷ render ps) (render_open end))
      ∙ inside-closed name (render ps ++ render_open end) [] h.0
      ∙ ap (◌++◌ (replacement env name)) (resolve_value-render ps end h.1 k)
      ∙ sym (append_assoc (replacement env name) (meaning env ps) (meaning_open env end))

-- ===== src/Rest/Http.antt =====
-- What the REST catalog asks of HTTP and JSON, and calls on the network's state that may fail.
use iceberg_db_rs.Base.{ℕ, Option, none, some, List, Outcome, ok, err, panic}
use iceberg_db_rs.Base.Text.{Text}
use iceberg_db_rs.Config.Profile.{ConfigError}

pub data RestError : Type 0 where
  missing_uri missing_credential not_a_pat missing_scope scope_not_role missing_server_uri :
      RestError
  missing_location namespace_missing transport bad_json bad_header : RestError
  bad_table bad_catalog unsupported no_catalogs unknown_default : RestError
  missing_warehouse relative_warehouse : RestError
  rejected : ℕ → Text → RestError
  bad_config : ConfigError → RestError
  panicked : RestError

pub data Attempt {ℓ} (A : Type ℓ) : Type ℓ where
  done : A → Attempt A
  failed : RestError → Attempt A

-- What the log needs before a call: when it panics the call does not return, and nothing after it is
-- done, as after an error.
abbrev pub shown : Outcome Text → Attempt Text
shown (ok t) = done t
shown (err e) = failed panicked
shown panic = failed panicked

abbrev pub Call {ℓ} : Type ℓ → Type ℓ → Type ℓ
Call S A = S → Attempt A × S

abbrev pub and_then {ℓ} : {S A B : Type ℓ} → Attempt A → (A → Call S B) → Call S B
and_then (done a) f s = f a s
and_then (failed e) f s = (failed e, s)

infixl 5 ◌>>=◌
abbrev pub ◌>>=◌ {ℓ} : {S A B : Type ℓ} → Call S A → (A → Call S B) → Call S B
◌>>=◌ m f s = let (r, s') = m s in and_then r f s'

abbrev pub lift {ℓ} : {S A : Type ℓ} → Attempt A → Call S A
lift r s = (r, s)

abbrev pub required {ℓ} : {A : Type ℓ} → RestError → Option A → Attempt A
required e none = failed e
required e (some a) = done a

-- Of a result that is a value.
abbrev pub Satisfies : {A : Type 0} → (A → Type 0) → Attempt A → Type 0
Satisfies P (failed e) = Unit
Satisfies P (done a) = P a

pub Satisfies-and_then :
    {S A B : Type 0} (P : A → Type 0) (Q : B → Type 0) (r : Attempt A) (f : A → Call S B) (s : S)
    → Satisfies P r
    → ((a : A) → P a → (s' : S) → Satisfies Q (f a s').0)
    → Satisfies Q (and_then r f s).0
Satisfies-and_then P Q (failed e) f s p k = tt
Satisfies-and_then P Q (done a) f s p k = k a p s

pub anything : {A : Type 0} (r : Attempt A) → Satisfies (λ a. Unit {0}) r
anything (failed e) = tt
anything (done a) = tt

pub record Reply : Type 0 where
  pub status : ℕ
  pub body : Text

pub record HttpClient (S : Type 0) : Type 0 where
  pub post_form : Text → List (Text × Text) → Call S Reply
  -- The URL and the bearer.
  pub http_get : Text → Text → Call S Reply

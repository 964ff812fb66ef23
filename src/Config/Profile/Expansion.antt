-- ===== src/Config/Profile/Expansion.antt =====
-- What each property is after the expansion of the snowflake-horizon profile.
use iceberg_db_rs.Base.{
  ◌≡◌, false, Option-cases, none, some, [], ◌∷◌, ◌++◌, if◌then◌else◌, arith, inl, inr,
}
use iceberg_db_rs.Base.Text.{Text, codes, text_eq, text_eq_iff, text_eq_self}
use iceberg_db_rs.Base.Text.Cut.{trim, ends_with_char}
use iceberg_db_rs.Base.Dict
use iceberg_db_rs.Base.Dict.{Dict, get-remove, get-insert, get-or_insert}
use iceberg_db_rs.Config.Profile.{
  enter_all, move_username, account_uri, expand_uri, move_trimmed, add_server_uri,
}

-- Keys that a step does not name keep their values.
pub get-move_username :
    (m : Dict Text) (k : Text)
    → text_eq (codes "username") k ≡ false
    → text_eq (codes "oauth2-client-id") k ≡ false
    → Dict.get (move_username m) k ≡ Dict.get m k
unfolding move_username
get-move_username m k u c = elim (Option-cases (Dict.get m (codes "username"))) [
  | inl missing ↦ rw (missing, move_username)
  | inr (v, present) ↦ rw (
    present,
    move_username,
    get-or_insert (Dict.remove m (codes "username")) (codes "oauth2-client-id") v k,
    get-remove m (codes "username") k,
    u,
    c,
  )
]

pub get-expand_uri :
    (m : Dict Text) (k : Text)
    → text_eq (codes "uri") k ≡ false
    → Dict.get (expand_uri m) k ≡ Dict.get m k
unfolding expand_uri
get-expand_uri m k n = elim (Option-cases (Dict.get m (codes "uri"))) [
  | inl missing ↦ rw (missing, expand_uri)
  | inr (v, present) ↦
      rw (present, expand_uri) (ground (arith, get-insert m (codes "uri") (account_uri v) k))
]

pub get-move_trimmed :
    (from to : Text) (m : Dict Text) (k : Text)
    → text_eq from k ≡ false
    → text_eq to k ≡ false
    → Dict.get (move_trimmed from to m) k ≡ Dict.get m k
unfolding move_trimmed
get-move_trimmed from to m k f t = elim (Option-cases (Dict.get m from)) [
  | inl missing ↦ rw (missing, move_trimmed)
  | inr (v, present) ↦ rw (
    present,
    move_trimmed,
    get-insert (Dict.remove m from) to (trim v) k,
    get-remove m from k,
    f,
    t,
  )
]

pub get-move_trimmed_to :
    (from to : Text) (m : Dict Text) (v : Text)
    → Dict.get m from ≡ some v
    → Dict.get (move_trimmed from to m) to ≡ some (trim v)
unfolding move_trimmed
get-move_trimmed_to from to m v present =
    rw (present, move_trimmed, get-insert (Dict.remove m from) to (trim v) to, text_eq_self to)

pub get-move_trimmed_from :
    (from to : Text) (m : Dict Text)
    → text_eq to from ≡ false
    → Dict.get (move_trimmed from to m) from ≡ none
unfolding move_trimmed
get-move_trimmed_from from to m n = elim (Option-cases (Dict.get m from)) [
  | inl missing ↦ rw (missing, move_trimmed) missing
  | inr (v, present) ↦ rw (
    present,
    move_trimmed,
    get-insert (Dict.remove m from) to (trim v) from,
    get-remove m from from,
    n,
    text_eq_self from,
  )
]

pub get-add_server_uri :
    (m : Dict Text) (k : Text)
    → text_eq (codes "oauth2-server-uri") k ≡ false
    → Dict.get (add_server_uri m) k ≡ Dict.get m k
unfolding add_server_uri
get-add_server_uri m k n = elim (Option-cases (Dict.get m (codes "uri"))) [
  | inl missing ↦ rw (missing, add_server_uri)
  | inr (v, present) ↦
      let server =
        if ends_with_char b'/' v
        then v ++ codes "v1/oauth/tokens"
        else v ++ codes "/v1/oauth/tokens" in
      rw (present, add_server_uri, get-or_insert m (codes "oauth2-server-uri") server k, n)
]

-- A header never takes the place of a key that is present.
pub get-enter_all :
    (h m : Dict Text) (k v : Text) → Dict.get m k ≡ some v → Dict.get (enter_all h m) k ≡ some v
unfolding enter_all
get-enter_all [] m k v present = present
get-enter_all ((j, w) ∷ h) m k v present =
    get-enter_all h (Dict.or_insert m j w) k v
      (ground (arith, get-or_insert m j w k, text_eq_iff j k))

-- ===== src/HttpLog/Redacted.antt =====
-- What the log of a token exchange shows of the secret.
use iceberg_db_rs.Base.{
  ℕ, zero, suc, ◌-◌, ◌≤◌, ◌<◌, ◌≡◌, refl, ◌∙◌, sym, inl, inr, true, Bool-cases, Option, none, some,
  [], ◌∷◌, ◌++◌, leb, length, take, drop, All, if◌then◌else◌, ok, arith,
}
use iceberg_db_rs.Base.Text.{Text, codes}
use iceberg_db_rs.Base.Text.Cut.{byte_length, char_bytes}
use iceberg_db_rs.Rest.Auth.{oauth_form}
use iceberg_db_rs.HttpLog.{byte_prefix, byte_suffix, redacted, redact_secret, join_and, form_body}

abbrev pub IsAscii : Text → Type 0
IsAscii = All (λ c. c < 0x80)

byte_length-ascii : (s : Text) → IsAscii s → byte_length s ≡ length s
unfolding byte_length
byte_length-ascii [] h = refl
byte_length-ascii (c ∷ s) h = ground (arith, byte_length-ascii s h.1)

one_byte : (c : ℕ) → c < 0x80 → char_bytes c ≡ 1
one_byte c h = ground arith

byte_prefix-ascii : (n : ℕ) (s : Text) → IsAscii s → n ≤ length s → byte_prefix n s ≡ ok (take n s)
unfolding byte_prefix
byte_prefix-ascii zero s h b = refl
byte_prefix-ascii (suc n) [] h b = absurd (omega arith)
byte_prefix-ascii (suc n) (c ∷ s) h b =
    let fits : leb (char_bytes c) (suc n) ≡ true = ground (arith, one_byte c h.0) in
    let left : suc n - char_bytes c ≡ n = omega (arith, one_byte c h.0) in
    rw (fits, left, byte_prefix-ascii n s h.1 (omega arith))

byte_suffix-ascii : (n : ℕ) (s : Text) → IsAscii s → n ≤ length s → byte_suffix n s ≡ ok (drop n s)
unfolding byte_suffix
byte_suffix-ascii zero s h b = refl
byte_suffix-ascii (suc n) [] h b = absurd (omega arith)
byte_suffix-ascii (suc n) (c ∷ s) h b =
    let fits : leb (char_bytes c) (suc n) ≡ true = ground (arith, one_byte c h.0) in
    let left : suc n - char_bytes c ≡ n = omega (arith, one_byte c h.0) in
    rw (fits, left) (byte_suffix-ascii n s h.1 (omega arith))

-- The first and the last four characters and the length, or nothing of a short secret.
abbrev pub shown_of : ℕ → Text → Text → Text
shown_of n first last = if leb n 8 then codes "***" else redacted first last n

abbrev pub shown : Text → Text
shown s = shown_of (length s) (take 4 s) (drop (length s - 4) s)

pub redact_secret-shown : (s : Text) → IsAscii s → redact_secret s ≡ ok (shown s)
unfolding redact_secret
redact_secret-shown s h = elim (Bool-cases (leb (length s) 8)) [
  | inl short ↦ rw (byte_length-ascii s h, short)
  | inr long ↦ rw (
    byte_length-ascii s h,
    long,
    byte_prefix-ascii 4 s h (ground arith),
    byte_suffix-ascii (length s - 4) s h (omega arith),
  )
]

-- What the log shows of a form with that much of the secret.
abbrev logged : Text → Option Text → Text → Text
logged scope none secret = join_and (
    codes "grant_type=client_credentials"
    ∷ (codes "scope=" ++ scope)
    ∷ (codes "client_secret=" ++ secret)
    ∷ [])
logged scope (some id) secret = join_and (
    codes "grant_type=client_credentials"
    ∷ (codes "scope=" ++ scope)
    ∷ (codes "client_id=" ++ id)
    ∷ (codes "client_secret=" ++ secret)
    ∷ [])

form_body-logged :
    (scope : Text) (id : Option Text) (s : Text)
    → IsAscii s
    → form_body (oauth_form scope id s) ≡ ok (logged scope id (shown s))
unfolding form_body oauth_form
form_body-logged scope none s h = rw (redact_secret-shown s h)
form_body-logged scope (some id) s h = rw (redact_secret-shown s h)

-- The log of the form of a token exchange with an ASCII secret is made without a panic, and is the
-- same for any two such secrets of the same length with the same first four and last four characters.
pub form_body-oauth_form_same :
    (scope : Text) (id : Option Text) (a b : Text)
    → IsAscii a
    → IsAscii b
    → length a ≡ length b
    → take 4 a ≡ take 4 b
    → drop (length a - 4) a ≡ drop (length b - 4) b
    → (log : Text) × ((form_body (oauth_form scope id a) ≡ ok log)
        × (form_body (oauth_form scope id b) ≡ ok log))
form_body-oauth_form_same scope id a b ha hb l first last = (
  logged scope id (shown a),
  (
    form_body-logged scope id a ha,
    form_body-logged scope id b hb
        ∙ sym (λ i. ok (logged scope id (shown_of (l i) (first i) (last i)))),
  ),
)

-- ===== src/Session/Batches/Plans.antt =====
-- What `EXPLAIN` shows of the plans in its batches.
use iceberg_db_rs.Base.{
  Bool, Bool-cases, ◌≡◌, refl, ◌∙◌, ap, true, false, some, List, [], ◌∷◌, map, if◌then◌else◌, arith,
  ◌⊎◌, inl, inr,
}
use iceberg_db_rs.Base.Text.{Text, codes, has_name, text_eq, text_eq_self}
use iceberg_db_rs.Base.Text.Cut.{contains}
use iceberg_db_rs.Base.Text.Lines.{contains-join_texts}
use iceberg_db_rs.Base.Text.Order.{has_name-append}
use iceberg_db_rs.Config.Profile.{is_empty}
use iceberg_db_rs.Session.Batches.{
  RecordBatch, Arrow, non_null, column_named, push_utf8_column, utf8_column_values, section,
  plan_sections, batch_sections, all_sections, format_explain_batches,
}

-- A row with this kind and this body.
abbrev pub HasRow : Text → Text → List Text → List Text → Type 0
HasRow kind body [] plans = ⊥
HasRow kind body (k ∷ kinds) [] = ⊥
HasRow kind body (k ∷ kinds) (p ∷ plans) = ((k ≡ kind) × (p ≡ body)) ⊎ HasRow kind body kinds plans

abbrev pub HasBatch : {A : Type 0} → RecordBatch A → List (RecordBatch A) → Type 0
HasBatch b [] = ⊥
HasBatch b (c ∷ batches) = (c ≡ b) ⊎ HasBatch b batches

non_null-some : (xs : List Text) → non_null (map some xs) ≡ xs
non_null-some [] = refl
non_null-some (x ∷ xs) = ap (◌∷◌ x) (non_null-some xs)

has_section :
    (kind body : Text) (kinds plans : List Text)
    → is_empty body ≡ false
    → HasRow kind body kinds plans
    → has_name (section kind body) (plan_sections kinds plans) ≡ true
unfolding plan_sections
has_section kind body [] plans h r = absurd r
has_section kind body (k ∷ kinds) [] h r = absurd r
has_section kind body (k ∷ kinds) (p ∷ plans) h (inl (ek, ep)) =
    rw (ep, ek, h, text_eq_self (section kind body)) refl
has_section kind body (k ∷ kinds) (p ∷ plans) h (inr r) =
    keep (is_empty p) (section k p) (plan_sections kinds plans)
      (has_section kind body kinds plans h r)
  where
    keep :
        (b : Bool) (s : Text) (rest : List Text)
        → has_name (section kind body) rest ≡ true
        → has_name (section kind body) (if b then rest else s ∷ rest) ≡ true
    keep true s rest ih = ih
    keep false s rest ih = elim (Bool-cases (text_eq s (section kind body))) [
      | inl e ↦ rw e refl
      | inr e ↦ rw e ih
    ]

module _ {A : Type 0} (arrow : Arrow A) where
  utf8_column_values-texts :
      (column : A) (texts : List Text)
      → arrow.as_string column ≡ some (map some texts)
      → utf8_column_values arrow column ≡ texts
  unfolding utf8_column_values push_utf8_column
  utf8_column_values-texts column texts h = rw (h, push_utf8_column) (non_null-some texts)

  -- A batch of plans: two columns of texts without nulls, the first of their names.
  pub record HoldsPlans (b : RecordBatch A) (kinds plans : List Text) : Type 0 where
    pub kind_column : A
    pub plan_column : A
    pub kind_named : column_named (codes "plan_type") b.fields b.columns ≡ some kind_column
    pub plan_named : column_named (codes "plan") b.fields b.columns ≡ some plan_column
    pub kind_texts : arrow.as_string kind_column ≡ some (map some kinds)
    pub plan_texts : arrow.as_string plan_column ≡ some (map some plans)

  batch_sections-plans :
      (b : RecordBatch A) (kinds plans : List Text)
      → HoldsPlans b kinds plans
      → batch_sections arrow b ≡ plan_sections kinds plans
  unfolding batch_sections
  batch_sections-plans b kinds plans h =
      rw (h.kind_named, h.plan_named)
        (rw
          (
            utf8_column_values-texts h.kind_column kinds h.kind_texts,
            utf8_column_values-texts h.plan_column plans h.plan_texts,
          )
          refl)

  has_batch :
      (x : Text) (b : RecordBatch A) (batches : List (RecordBatch A))
      → HasBatch b batches
      → has_name x (batch_sections arrow b) ≡ true
      → has_name x (all_sections arrow batches) ≡ true
  unfolding all_sections
  has_batch x b [] m h = absurd m
  has_batch x b (c ∷ batches) (inl e) h =
      has_name-append x (batch_sections arrow c) (all_sections arrow batches) ∙ rw (e, h) refl
  has_batch x b (c ∷ batches) (inr m) h =
      has_name-append x (batch_sections arrow c) (all_sections arrow batches)
      ∙ ground (arith, has_batch x b batches m h)

  -- Among the batches of an explained statement, those of plans have a column of kinds and one of
  -- plans, of texts without nulls: every plan of a row of such a batch that is not empty is in the
  -- text that is shown, whole, under a header with its kind.
  pub format_explain_batches-row :
      (b : RecordBatch A) (batches : List (RecordBatch A)) (kinds plans : List Text)
      (kind body : Text)
      → HasBatch b batches
      → HoldsPlans b kinds plans
      → HasRow kind body kinds plans
      → is_empty body ≡ false
      → contains (section kind body) (format_explain_batches arrow batches) ≡ true
  unfolding format_explain_batches
  format_explain_batches-row b batches kinds plans kind body m h r n =
      contains-join_texts (codes "\n\n") (section kind body) (all_sections arrow batches) (
        has_batch (section kind body) b batches m (
          ap (has_name (section kind body)) (batch_sections-plans b kinds plans h)
          ∙ has_section kind body kinds plans n r))

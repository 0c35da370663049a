-- ===== src/Kothak/Sql/Defaulting.antt =====
-- What the defaults of internal/kothak/sql.go come to.
use go_project_example.Base.{
  ◌≡◌, refl, ap, ◌∙◌, Bool, true, false, not, List, [], ◌∷◌, none, some, Bytes, codes, ℤ, pos,
  eqb_ℤ, if◌then◌else◌, inl, inr, Bool-cases, Result, ok, ◌>>=◌,
}
use go_project_example.Text.{bytes_eq}
use go_project_example.Text.Decimal.{parse_int}
use go_project_example.Xerrors.{Error}
use go_project_example.Defaults.{
  Field, Content, text, Readers, set_field, set_fields, by_type, by_kind, wrap, is_zero, int,
  converted,
}
use go_project_example.Kothak.Sql.{
  DbConfig, fields, set_default, int_field, or_int, or_text, lifetime_field, dbs_field,
  parsed_field, SqlDbConfig,
}

tests_tag {ℓ} :
    {R : Type ℓ} (x y : R) (exported empty untagged : Bool)
    → exported ≡ true
    → untagged ≡ false
    → (if not exported then x else if not empty then x else if untagged then x else y)
      ≡ (if empty then y else x)
tests_tag x y true true false e u = refl
tests_tag x y true false false e u = refl
tests_tag x y true empty true e u = cc
tests_tag x y false empty untagged e u = cc

module _ (readers : Readers) where
  -- A field that may be set takes the content for its tag if it holds the zero value.
  set_field-tag :
      (f : Field) (c : Content)
      → f.exported ≡ true
      → bytes_eq f.tag [] ≡ false
      → by_type readers f.type f.tag f.content ≡ ok c
      → set_field readers f ≡ (if is_zero f.content then ok (record f { content = c }) else ok f)
  unfolding set_field
  set_field-tag f c seen tagged h =
      tests_tag (ok f) _ f.exported (is_zero f.content) (bytes_eq f.tag []) seen tagged
      ∙ ap (λ r. if is_zero f.content then r else ok f)
          (ap (λ (r : Result Error Content). r >>= λ c'. ok (record f { content = c' })) h)

  int_field-default :
      (name tag : Bytes) (n d : ℤ)
      → bytes_eq tag [] ≡ false
      → by_type readers (int_field name tag n).type tag (int n) ≡ ok (int d)
      → set_field readers (int_field name tag n) ≡ ok (int_field name tag (or_int readers n d))
  int_field-default name tag n d tagged h =
      set_field-tag (int_field name tag n) (int d) refl tagged h
      ∙ elim (Bool-cases (eqb_ℤ n (pos 0))) [ inl e ↦ rw e refl | inr e ↦ rw e refl ]

  -- A configuration with every default put in.
  abbrev pub completed : DbConfig → DbConfig
  completed c = record c {
    max_retry = or_int readers c.max_retry (pos 1);
    max_open_connections = or_int readers c.max_open_connections (pos 10);
    max_idle_connections = or_int readers c.max_idle_connections (pos 2);
    connection_max_lifetime = or_text readers c.connection_max_lifetime (codes "30s");
  }

  lifetime_field-default :
      (s : Bytes)
      → set_field readers (lifetime_field s) ≡ ok (lifetime_field (or_text readers s (codes "30s")))
  unfolding by_type by_kind
  lifetime_field-default s =
      set_field-tag (lifetime_field s) (text (codes "30s")) refl (unfold bytes_eq in refl)
        (unfold bytes_eq in refl)
      ∙ elim (Bool-cases (bytes_eq s [])) [ inl e ↦ rw e refl | inr e ↦ rw e refl ]

  dbs_field-default :
      (dbs : List SqlDbConfig) → set_field readers (dbs_field dbs) ≡ ok (dbs_field dbs)
  unfolding set_field bytes_eq
  dbs_field-default [] = refl
  dbs_field-default (d ∷ ds) = refl

  parsed_field-default : (n : ℤ) → set_field readers (parsed_field n) ≡ ok (parsed_field n)
  unfolding set_field
  parsed_field-default n = refl

  int_type-by_type :
      (name tag : Bytes) (n d : ℤ)
      → parse_int tag ≡ some d
      → wrap 64 d ≡ d
      → by_type readers (int_field name tag n).type tag (int n) ≡ ok (int d)
  unfolding by_type by_kind bytes_eq converted
  int_type-by_type name tag n d h k = rw (h, k) refl

  -- Every field is set as the other list says.
  abbrev AllSet : List Field → List Field → Type 0
  AllSet [] [] = Unit
  AllSet (f ∷ fs) (g ∷ gs) = (set_field readers f ≡ ok g) × AllSet fs gs
  AllSet _ _ = ⊥

  set_fields-AllSet : (fs gs : List Field) → AllSet fs gs → set_fields readers fs ≡ (gs, none)
  unfolding set_fields
  set_fields-AllSet [] [] h = refl
  set_fields-AllSet (f ∷ fs) (g ∷ gs) (h, hs) = rw (h, set_fields-AllSet fs gs hs) refl
  set_fields-AllSet [] (g ∷ gs) h = absurd h
  set_fields-AllSet (f ∷ fs) [] h = absurd h

  tagged_int :
      (name tag : Bytes) (n d : ℤ)
      → bytes_eq tag [] ≡ false
      → parse_int tag ≡ some d
      → wrap 64 d ≡ d
      → set_field readers (int_field name tag n) ≡ ok (int_field name tag (or_int readers n d))
  tagged_int name tag n d tagged h k =
      int_field-default name tag n d tagged (int_type-by_type name tag n d h k)

  set_fields-fields : (c : DbConfig) → set_fields readers (fields c) ≡ (fields (completed c), none)
  unfolding bytes_eq parse_int wrap
  set_fields-fields c =
      let a = tagged_int (codes "MaxRetry") (codes "1") c.max_retry (pos 1) refl refl refl in
      let b =
        tagged_int (codes "MaxOpenConnections") (codes "10") c.max_open_connections (pos 10) refl
          refl refl in
      let d =
        tagged_int (codes "MaxIdleConnections") (codes "2") c.max_idle_connections (pos 2) refl refl
          refl in
      set_fields-AllSet (fields c) (fields (completed c)) (
        a,
        (
          b,
          (
            d,
            (
              lifetime_field-default c.connection_max_lifetime,
              (dbs_field-default c.sql_dbs, (parsed_field-default c.conn_max_lifetime, tt)),
            ),
          ),
        ),
      )

  lifetime-ne-nil : (s : Bytes) → bytes_eq (or_text readers s (codes "30s")) [] ≡ false
  lifetime-ne-nil s = elim (Bool-cases (bytes_eq s [])) [
    | inl empty ↦ rw empty (unfold bytes_eq in refl)
    | inr filled ↦ rw (filled, filled) refl
  ]

  -- `DBConfig.SetDefault` sets the retries to 1, the open connections to 10, the idle ones to 2 and the
  -- lifetime to "30s" where they are zero or empty, keeps the rest, and stores the duration of the
  -- lifetime that results, if that is read as one.
  pub set_default_lem :
      (c : DbConfig) (d : ℤ)
      → readers.parse_duration (completed c).connection_max_lifetime ≡ some d
      → set_default readers c ≡ (record (completed c) { conn_max_lifetime = d }, none)
  unfolding set_default
  set_default_lem c d h =
      rw (set_fields-fields c, lifetime-ne-nil c.connection_max_lifetime, h) refl

-- ===== src/Defaults/Setting.antt =====
-- What SetDefault of internal/pkg/defaults/defaults.go does when it is called again.
use go_project_example.Base.{
  ◌≡◌, ◌⊎◌, refl, sym, List, [], ◌∷◌, Option, none, Bytes, inl, inr, Bool-cases, Result, ok, err,
  ◌>>=◌,
}
use mathlib.Core.Path.{subst}
use go_project_example.Text.{bytes_eq}
use go_project_example.Xerrors.{Error}
use go_project_example.Defaults.{
  Kind, int_kind, float_kind, string_kind, other_kind, Content, Field, FieldType, Readers, by_kind,
  by_type, set_field, set_fields, and_then, is_zero, time_duration,
}
use go_project_example.Defaults.Types.{skip_or}

module _ (readers : Readers) where
  -- The content that a tag gives does not depend on the old one, but for the kinds without a case.
  by_kind-by_kind :
      (k : Kind) (tag : Bytes) (c d : Content)
      → by_kind readers k tag c ≡ ok d
      → by_kind readers k tag d ≡ ok d
  unfolding by_kind
  by_kind-by_kind (int_kind bits) tag c d h = h
  by_kind-by_kind (float_kind bits) tag c d h = h
  by_kind-by_kind string_kind tag c d h = h
  by_kind-by_kind (other_kind k) tag c d h = refl

  by_type-by_type :
      (t : FieldType) (tag : Bytes) (c d : Content)
      → by_type readers t tag c ≡ ok d
      → by_type readers t tag d ≡ ok d
  unfolding by_type
  by_type-by_type t tag c d h = elim (Bool-cases (bytes_eq t.type_name time_duration)) [
    | inl same ↦ rw same (rw same at h)
    | inr other ↦ rw other (by_kind-by_kind t.kind tag c d (rw other at h))
  ]

  -- What a round leaves, a second round leaves as well.
  abbrev Settled : Result Error Field → Type 0
  Settled (ok f) = set_field readers f ≡ ok f
  Settled (err e) = Unit

  set_field_again :
      (f : Field)
      → by_type readers f.type f.tag f.content ≡ ok f.content
      → set_field readers f ≡ ok f
  unfolding set_field
  set_field_again f again =
      skip_or (λ r. r ≡ ok f) f.exported (is_zero f.content) (bytes_eq f.tag []) refl (simp again)

  put-Settled :
      (f : Field) (r : Result Error Content)
      → by_type readers f.type f.tag f.content ≡ r
      → Settled (r >>= λ c. ok (record f { content = c }))
  put-Settled f (ok c) h =
      set_field_again (record f { content = c }) (by_type-by_type f.type f.tag f.content c h)
  put-Settled f (err e) h = tt

  -- A round leaves the field, or sets it.
  set_field-cases :
      (f : Field)
      → (set_field readers f ≡ ok f)
        ⊎ (set_field readers f
            ≡ (by_type readers f.type f.tag f.content >>= λ c. ok (record f { content = c })))
  unfolding set_field
  set_field-cases f =
      skip_or
        (λ r.
          (r ≡ ok f)
          ⊎ (r ≡ (by_type readers f.type f.tag f.content >>= λ c. ok (record f { content = c }))))
        f.exported (is_zero f.content) (bytes_eq f.tag []) (inl refl) (inr refl)

  set_field-Settled : (f : Field) → Settled (set_field readers f)
  set_field-Settled f = elim (set_field-cases f) [
    | inl left ↦ subst Settled (sym left) left
    | inr put ↦
        subst Settled (sym put) (put-Settled f (by_type readers f.type f.tag f.content) refl)
  ]

  and_then-again :
      (f : Field) (fs : List Field) (rest : List Field × Option Error) (r : Result Error Field)
      → Settled r
      → set_fields readers rest.0 ≡ (rest.0, none)
      → (and_then readers f fs rest r).1 ≡ none
      → set_fields readers (and_then readers f fs rest r).0
        ≡ ((and_then readers f fs rest r).0, none)
  unfolding set_fields
  and_then-again f fs rest (ok f') settled again h = rw (settled, again) refl
  and_then-again f fs rest (err e) settled again h = cc

  rest_ok :
      (f : Field) (fs : List Field) (rest : List Field × Option Error) (r : Result Error Field)
      → (and_then readers f fs rest r).1 ≡ none
      → rest.1 ≡ none
  rest_ok f fs rest (ok f') h = h
  rest_ok f fs rest (err e) h = cc

  -- A `SetDefault` after one that returned no error returns no error, and changes no field.
  set_fields-set_fields :
      (fs : List Field)
      → (set_fields readers fs).1 ≡ none
      → set_fields readers (set_fields readers fs).0 ≡ ((set_fields readers fs).0, none)
  unfolding set_fields
  set_fields-set_fields [] h = refl
  set_fields-set_fields (f ∷ fs) h =
      and_then-again f fs (set_fields readers fs) (set_field readers f) (set_field-Settled f)
        (set_fields-set_fields fs (rest_ok f fs (set_fields readers fs) (set_field readers f) h)) h

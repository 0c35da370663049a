-- ===== src/Defaults/Types.antt =====
-- What SetDefault of internal/pkg/defaults/defaults.go leaves of the types of a struct.
use go_project_example.Base.{
  ℕ, ◌<◌, ◌^◌, ◌≡◌, Bool, true, false, not, List, map, some, Bytes, ℤ, pos, negsuc, if◌then◌else◌,
  All, Result, ok, err,
}
use go_project_example.Text.{bytes_eq}
use go_project_example.Xerrors.{Error}
use go_project_example.Defaults.{
  Kind, int_kind, float_kind, string_kind, other_kind, FieldType, Content, int, float, text, opaque,
  Field, Readers, half_of, time_duration,
}

-- The values of a signed integer type, with `half` of them not negative.
abbrev pub InRange : ℕ → ℤ → Type 0
InRange half (pos n) = n < half
InRange half (negsuc n) = n < half

-- A field of a kind can hold the content.
abbrev pub Fits : Kind → Content → Type 0
Fits (int_kind bits) (int n) = InRange (half_of bits) n
Fits (float_kind bits) (float x) = Unit
Fits string_kind (text s) = Unit
Fits (other_kind k) (opaque x) = Unit
Fits _ _ = ⊥

-- The content fits, and a duration is an int64.
pub record IsWellTyped (f : Field) : Type 0 where
  pub fits : Fits f.type.kind f.content
  pub duration :
      (if bytes_eq f.type.type_name time_duration then f.type.kind else int_kind 64) ≡ int_kind 64

-- What a struct type says of a field.
pub record Declared : Type 0 where
  pub name : Bytes
  pub type : FieldType
  pub tag : Bytes
  pub exported : Bool

abbrev pub declared : Field → Declared
declared f = record { name = f.name; type = f.type; tag = f.tag; exported = f.exported }

-- The tests of a round: a field is left, or it is set.
pub skip_or {ℓ κ} :
    {R : Type ℓ} (P : R → Type κ) (exported empty untagged : Bool) {x y : R}
    → P x
    → P y
    → P (if not exported then x else if not empty then x else if untagged then x else y)
skip_or P false empty untagged hx hy = hx
skip_or P true false untagged hx hy = hx
skip_or P true true true hx hy = hx
skip_or P true true false hx hy = hy

-- What a result holds, if it is one.
abbrev pub Holds {ℓ} : {A : Type 0} → (A → Type ℓ) → Result Error A → Type ℓ
Holds P (ok a) = P a
Holds P (err e) = Unit

module _ (readers : Readers)
    (parse_duration-InRange : (s : Bytes) (n : ℤ)
      → readers.parse_duration s ≡ some n
      → InRange (2 ^ 63) n) where
  -- A round of the loop keeps what the type says of the field.
  abbrev Kept : Field → Field → Type 0
  Kept f f' = IsWellTyped f' × (declared f' ≡ declared f)

  abbrev AllKept : List Field → List Field → Type 0
  AllKept fs fs' = All IsWellTyped fs' × (map declared fs' ≡ map declared fs)

-- ===== src/Defaults.antt =====
-- internal/pkg/defaults/defaults.go: default values of the fields of a struct, by reflection.
--
-- A struct is the list of its fields. The readers of durations and of floats are parameters.
pub mod Types
pub mod Setting
pub mod Replacing
mod Tests
use go_project_example.Base.{
  ℕ, zero, suc, ◌-◌, ◌*◌, ◌%◌, ◌^◌, ◌<◌, ◌≡◌, ◌&&◌, ◌||◌, not, Bool, true, false, List, [], ◌∷◌,
  Option, none, some, Bytes, codes, ℤ, pos, negsuc, eqb_ℤ, ltb, ◌==◌, if◌then◌else◌, Result, ok,
  err, ◌>>=◌,
}
use go_project_example.Text.{bytes_eq}
use go_project_example.Text.Decimal.{parse_int}
use go_project_example.Xerrors.{Error, sentinel, backend}

-- `reflect.Kind`. The kinds without a case in the code are told apart by a number.
pub data Kind : Type 0 where
  int_kind : (bits : ℕ) → Kind
  float_kind : (bits : ℕ) → Kind
  string_kind : Kind
  other_kind : ℕ → Kind

-- `reflect.Type`: the kind, and the name.
pub record FieldType : Type 0 where
  pub kind : Kind
  pub type_name : Bytes

-- What a field holds: a float is known by a number, 0 for the float zero, and a value of another kind as
-- well, with `none` for its zero value.
pub data Content : Type 0 where
  int : ℤ → Content
  float : ℕ → Content
  text : Bytes → Content
  opaque : Option ℕ → Content

pub record Field : Type 0 where
  pub name : Bytes
  pub type : FieldType
  pub tag : Bytes
  pub exported : Bool
  pub content : Content

-- What the functions are passed.
pub data Passed : Type 0 where
  value : Passed
  pointer : Passed
  struct_pointer : List Field → Passed

abbrev pub err_pass_value : Error
err_pass_value = sentinel (codes "must pass a pointer, not a value")

abbrev pub err_not_struct : Error
err_not_struct = sentinel (codes "must pass a pointer of struct")

-- Whether the content is the zero value of its type.
abbrev pub is_zero : Content → Bool
is_zero (int n) = eqb_ℤ n (pos 0)
is_zero (float x) = x == 0
is_zero (text s) = bytes_eq s []
is_zero (opaque none) = true
is_zero (opaque (some x)) = false

-- A conversion to a signed integer of so many bits, where `half` is half of the numbers there are.
abbrev pub wrap_at : ℕ → ℤ → ℤ
wrap_at half (pos n) =
    if ltb (n % (2 * half)) half
    then pos (n % (2 * half))
    else negsuc (2 * half - 1 - n % (2 * half))
wrap_at half (negsuc n) =
    if ltb (n % (2 * half)) half
    then negsuc (n % (2 * half))
    else pos (2 * half - 1 - n % (2 * half))

abbrev pub half_of : ℕ → ℕ
half_of bits = 2 ^ (bits - 1)

-- `reflect.ValueOf(n).Convert(f.Type)` for an int64
unfoldable pub wrap : ℕ → ℤ → ℤ
wrap bits = wrap_at (half_of bits)

abbrev pub time_duration : Bytes
time_duration = codes "time.Duration"

-- `time.ParseDuration`, and `strconv.ParseFloat` with the conversion to so many bits; and the errors
-- of the readers.
pub record Readers : Type 0 where
  pub parse_duration : Bytes → Option ℤ
  pub parse_float : ℕ → Bytes → Option ℕ
  pub duration_error : Bytes → Error
  pub float_error : Bytes → Error
  pub int_error : Bytes → Error

abbrev pub read : Error → Option Content → Result Error Content
read e none = err e
read e (some c) = ok c

unfoldable pub converted : ℕ → Option ℤ → Option Content
unfolding wrap
converted bits none = none
converted bits (some n) = some (int (wrap bits n))

abbrev as_int : Option ℤ → Option Content
as_int none = none
as_int (some n) = some (int n)

abbrev as_float : Option ℕ → Option Content
as_float none = none
as_float (some x) = some (float x)

module _ (readers : Readers) where
  -- The switch on the kind: the content for a tag, or the old one.
  unfoldable pub by_kind : Kind → Bytes → Content → Result Error Content
  unfolding wrap
  by_kind (int_kind bits) tag c = read (readers.int_error tag) (converted bits (parse_int tag))
  by_kind (float_kind bits) tag c =
      read (readers.float_error tag) (as_float (readers.parse_float bits tag))
  by_kind string_kind tag c = ok (text tag)
  by_kind (other_kind k) tag c = ok c

  -- The content for a tag that is not empty.
  unfoldable pub by_type : FieldType → Bytes → Content → Result Error Content
  unfolding by_kind
  by_type t tag c =
      if bytes_eq t.type_name time_duration
      then read (readers.duration_error tag) (as_int (readers.parse_duration tag))
      else by_kind t.kind tag c

  -- A round of the loop of `SetDefault`
  unfoldable pub set_field : Field → Result Error Field
  unfolding by_type
  set_field f =
      if not f.exported
      then ok f
      else if not (is_zero f.content)
      then ok f
      else if bytes_eq f.tag []
      then ok f
      else (by_type f.type f.tag f.content >>= λ c. ok (record f { content = c }))

  -- The fields after a round, with the rest of the loop if it goes on.
  abbrev pub and_then :
      Field
      → List Field
      → List Field × Option Error
      → Result Error Field
      → List Field × Option Error
  and_then f fs rest (err e) = (f ∷ fs, some e)
  and_then f fs rest (ok f') = (f' ∷ rest.0, rest.1)

  -- The loop of `SetDefault`: an error ends it, and the fields before are set already.
  unfoldable pub set_fields : List Field → List Field × Option Error
  unfolding set_field
  set_fields [] = ([], none)
  set_fields (f ∷ fs) = and_then f fs (set_fields fs) (set_field f)

  -- `SetDefault`, with what it leaves behind the pointer
  unfoldable pub set_default : Passed → Passed × Option Error
  unfolding set_fields
  set_default value = (value, some err_pass_value)
  set_default pointer = (pointer, some err_not_struct)
  set_default (struct_pointer fs) = let (fs', e) = set_fields fs in (struct_pointer fs', e)

unfoldable kind_eq : Kind → Kind → Bool
kind_eq (int_kind b) (int_kind c) = b == c
kind_eq (float_kind b) (float_kind c) = b == c
kind_eq string_kind string_kind = true
kind_eq (other_kind k) (other_kind l) = k == l
kind_eq _ _ = false

-- `FieldByName`
unfoldable pub find_field : Bytes → List Field → Option Field
find_field name [] = none
find_field name (f ∷ fs) = if bytes_eq f.name name then some f else find_field name fs

-- `field.Set(replacerfield)` panics for another type.
unfoldable assign : Field → Field → Option Field
assign f r =
    if bytes_eq f.type.type_name r.type.type_name
    then some (record f { content = r.content })
    else none

abbrev pub from_replacer : Field → Option Field → Option Field
unfolding kind_eq assign
from_replacer f none = some f
from_replacer f (some r) =
    if not (kind_eq f.type.kind r.type.kind)
    then some f
    else if not (is_zero f.content)
    then some f
    else assign f r

-- A round of the loop of `ReplaceDefaultFrom`: `none` is a panic.
unfoldable pub replace_field : List Field → Field → Option Field
unfolding kind_eq assign find_field
replace_field replacer f =
    if not f.exported then some f else from_replacer f (find_field f.name replacer)

-- Where the loop of `ReplaceDefaultFrom` ends: with no error, or by a panic.
pub data Ended : Type 0 where
  done : Ended
  panicked : Ended

abbrev pub and_replaced :
    Field → List Field → List Field × Ended → Option Field → List Field × Ended
and_replaced f fs rest none = (f ∷ fs, panicked)
and_replaced f fs rest (some f') = (f' ∷ rest.0, rest.1)

unfoldable pub replace_fields : List Field → List Field → List Field × Ended
unfolding replace_field
replace_fields replacer [] = ([], done)
replace_fields replacer (f ∷ fs) =
    and_replaced f fs (replace_fields replacer fs) (replace_field replacer f)

-- `ReplaceDefaultFrom`: the replacer is given by its fields, if it is a struct or a pointer to one.
unfoldable pub replace_default_from : Passed → Option (List Field) → Passed × Option Error × Ended
unfolding replace_fields
replace_default_from value replacer = (value, some err_pass_value, done)
replace_default_from pointer replacer = (pointer, some err_not_struct, done)
replace_default_from (struct_pointer fs) none = (struct_pointer fs, some err_not_struct, done)
replace_default_from (struct_pointer fs) (some rs) =
    let (fs', e) = replace_fields rs fs in (struct_pointer fs', none, e)

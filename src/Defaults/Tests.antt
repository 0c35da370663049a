-- ===== src/Defaults/Tests.antt =====
-- A struct with an int8, a duration and a text.
use go_project_example.Base.{
  true, List, [], ◌∷◌, ◌≡◌, refl, none, some, Bytes, codes, ℤ, pos, negsuc,
}
use go_project_example.Text.{bytes_eq}
use go_project_example.Text.Decimal.{parse_int}
use go_project_example.Xerrors.{backend}
use go_project_example.Defaults.{
  Field, int_kind, string_kind, int, text, Readers, set_fields, by_type, by_kind, wrap, converted,
  time_duration,
}

-- Every duration reads as one second.
abbrev readers : Readers
readers = record {
  parse_duration = λ s. some (pos 1000000000);
  parse_float = λ bits s. none;
  duration_error = λ s. backend 1;
  float_error = λ s. backend 2;
  int_error = λ s. backend 3;
}

abbrev level : ℤ → Field
level n = record {
  name = codes "Level";
  type = record { kind = int_kind 8; type_name = codes "int8" };
  tag = codes "200";
  exported = true;
  content = int n;
}

abbrev timeout : ℤ → Field
timeout n = record {
  name = codes "Timeout";
  type = record { kind = int_kind 64; type_name = time_duration };
  tag = codes "1s";
  exported = true;
  content = int n;
}

abbrev title : Bytes → Field
title s = record {
  name = codes "Title";
  type = record { kind = string_kind; type_name = codes "string" };
  tag = codes "untitled";
  exported = true;
  content = text s;
}

abbrev fields : List Field
fields = level (pos 0) ∷ timeout (pos 0) ∷ title (codes "a") ∷ []

abbrev set : List Field
set = level (negsuc 55) ∷ timeout (pos 1000000000) ∷ title (codes "a") ∷ []

-- The tag 200 does not fit an int8, and becomes -56.
fields_set : set_fields readers fields ≡ (set, none)
unfolding set_fields by_type by_kind wrap converted bytes_eq parse_int
fields_set = refl

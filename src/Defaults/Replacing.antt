-- ===== src/Defaults/Replacing.antt =====
-- ReplaceDefaultFrom of internal/pkg/defaults/defaults.go, against a struct of the same types.
use go_project_example.Base.{◌≡◌, ◌⊎◌, false, ◌&&◌, List, Option, none, some, if◌then◌else◌}
use go_project_example.Defaults.{Field, is_zero, find_field, kind_eq}

-- A field and the one of the replacer under the same name have one type, or different kinds.
abbrev pub Agrees : Field → Option Field → Type 0
unfolding kind_eq
Agrees f none = Unit
Agrees f (some r) =
    (kind_eq f.type.kind r.type.kind ≡ false) ⊎ (f.type.type_name ≡ r.type.type_name)

-- The field of the replacer that a field takes its content from, if any.
abbrev pub source_of : Field → Option Field → Option Field
unfolding kind_eq
source_of f none = none
source_of f (some r) =
    if f.exported && is_zero f.content && kind_eq f.type.kind r.type.kind then some r else none

abbrev pub with_content : Field → Option Field → Field
with_content f none = f
with_content f (some r) = record f { content = r.content }

abbrev pub replaced : List Field → Field → Field
unfolding find_field kind_eq
replaced replacer f = with_content f (source_of f (find_field f.name replacer))

-- ===== src/Text/Paths.antt =====
-- Go's `path.Join` and `path.Clean`, `strings.TrimLeft` and the part of `strings.SplitAfter` that is
-- used, over byte lists.
use go_project_example.Base.{
  ℕ, Bool, false, List, [], ◌∷◌, ◌++◌, ◌==◌, Option, none, some, Bytes, codes, if◌then◌else◌,
}
use go_project_example.Text.{bytes_eq}
use go_project_example.Text.Parts.{split, join}

abbrev pub slash : ℕ
slash = b'/'

abbrev dot_dot : Bytes
dot_dot = codes ".."

-- One element of a path, on the elements before it, the last one first.
unfoldable clean_element : Bool → Bytes → List Bytes → List Bytes
clean_element rooted e [] =
    if bytes_eq e []
    then []
    else if bytes_eq e (codes ".")
    then []
    else if bytes_eq e dot_dot
    then (if rooted then [] else dot_dot ∷ [])
    else e ∷ []
clean_element rooted e (top ∷ stack) =
    if bytes_eq e []
    then top ∷ stack
    else if bytes_eq e (codes ".")
    then top ∷ stack
    else if bytes_eq e dot_dot
    then (if bytes_eq top dot_dot then dot_dot ∷ top ∷ stack else stack)
    else e ∷ top ∷ stack

unfoldable clean_elements : Bool → List Bytes → List Bytes → List Bytes
unfolding clean_element
clean_elements rooted [] stack = stack
clean_elements rooted (e ∷ es) stack = clean_elements rooted es (clean_element rooted e stack)

abbrev reversed : List Bytes → List Bytes → List Bytes
reversed [] acc = acc
reversed (e ∷ es) acc = reversed es (e ∷ acc)

abbrev is_rooted : Bytes → Bool
is_rooted [] = false
is_rooted (c ∷ s) = c == slash

abbrev or_dot : Bytes → Bytes
or_dot [] = codes "."
or_dot (c ∷ s) = c ∷ s

-- `path.Clean`
unfoldable pub clean : Bytes → Bytes
unfolding clean_elements
clean s =
    let rooted = is_rooted s in
    or_dot (
      (if rooted then slash ∷ [] else [])
      ++ join slash (reversed (clean_elements rooted (split slash s) []) []))

abbrev non_empty : List Bytes → List Bytes
non_empty [] = []
non_empty ([] ∷ es) = non_empty es
non_empty ((c ∷ e) ∷ es) = (c ∷ e) ∷ non_empty es

abbrev cleaned : List Bytes → Bytes
unfolding clean
cleaned [] = []
cleaned (e ∷ es) = clean (join slash (e ∷ es))

-- `path.Join`
unfoldable pub join_path : List Bytes → Bytes
unfolding cleaned
join_path es = cleaned (non_empty es)

-- `strings.TrimLeft(s, "/")`
unfoldable pub trim_left : Bytes → Bytes
trim_left [] = []
trim_left (c ∷ s) = if c == slash then trim_left s else c ∷ s

abbrev pub strip_prefix : Bytes → Bytes → Option Bytes
strip_prefix [] s = some s
strip_prefix (p ∷ ps) [] = none
strip_prefix (p ∷ ps) (c ∷ s) = if p == c then strip_prefix ps s else none

-- What follows the first occurrence of a text that is not empty.
unfoldable pub after_first : Bytes → Bytes → Option Bytes
after_first sep [] = none
after_first sep (c ∷ s) =
    let rest = after_first sep s in
    elim (strip_prefix sep (c ∷ s)) [ some t ↦ some t | none ↦ rest ]

-- What stands before the first occurrence of a text that is not empty, or the whole.
unfoldable pub before_first : Bytes → Bytes → Bytes
before_first sep [] = []
before_first sep (c ∷ s) =
    let rest = before_first sep s in
    elim (strip_prefix sep (c ∷ s)) [ some t ↦ [] | none ↦ c ∷ rest ]

unfoldable pub first_after : Bytes → Bytes → Bytes
unfolding after_first before_first
first_after sep s = elim (after_first sep s) [ none ↦ s | some t ↦ before_first sep s ++ sep ]

-- `strings.SplitAfter(s, sep)[1]`, if there is one: the text after the first separator, up to the end
-- of the next one. An empty separator splits after each character.
unfoldable pub split_after_1 : Bytes → Bytes → Option Bytes
unfolding first_after
split_after_1 [] [] = none
split_after_1 [] (c ∷ []) = none
split_after_1 [] (c ∷ d ∷ s) = some (d ∷ [])
split_after_1 (p ∷ ps) s = elim (after_first (p ∷ ps) s) [
  | none ↦ none
  | some t ↦ some (first_after (p ∷ ps) t)
]

unfoldable up_to_slash : Bytes → Bytes
up_to_slash [] = []
up_to_slash (c ∷ s) = elim (up_to_slash s) [
  | [] ↦ if c == slash then c ∷ [] else []
  | (d ∷ t) ↦ c ∷ d ∷ t
]

-- `filepath.Dir`
unfoldable pub dir : Bytes → Bytes
unfolding up_to_slash clean
dir s = clean (up_to_slash s)

-- ===== src/Log/Std/Fields.antt =====
-- The loop of `formatFields` in internal/pkg/log/logger/std/std.go, and the text that it makes.
use go_project_example.Base.{
  ◌≡◌, sym, ◌∙◌, arith, ℕ, ◌+◌, List, [], ◌∷◌, ◌++◌, Bytes, length, map, ltb, true, false,
  append-nil, append_assoc,
}
use go_project_example.Text.Parts.{join}
use go_project_example.Log.Std.{format_fields, add_fields, pair}

add_fields-join :
    (n : ℕ) (text : Bytes) (counter : ℕ) (fields : List (Bytes × Bytes))
    → counter + length fields ≡ n
    → add_fields n text counter fields ≡ text ++ join b' ' (map pair fields)
unfolding add_fields join
add_fields-join n text counter [] at = sym (append-nil text)
add_fields-join n text counter (f ∷ []) at =
    let last : ltb (counter + 1) n ≡ false = ground arith in rw last (append-nil (text ++ pair f))
add_fields-join n text counter (f ∷ g ∷ fields) at =
    let more : ltb (counter + 1) n ≡ true = ground arith in
    rw more (
      add_fields-join n ((text ++ pair f) ++ b' ' ∷ []) (counter + 1) (g ∷ fields)
        (omega (arith, at))
      ∙ append_assoc (text ++ pair f) (b' ' ∷ []) _
      ∙ append_assoc text (pair f) _)

-- `formatFields` joins the fields by spaces, each written with its key, an equals sign and its value,
-- with no space at the end.
format_fields-join :
    (fields : List (Bytes × Bytes)) → format_fields fields ≡ join b' ' (map pair fields)
unfolding format_fields
format_fields-join fields = add_fields-join (length fields) [] 0 fields (omega arith)

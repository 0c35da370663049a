-- ===== src/Xerrors/Tests.antt =====
-- Runs of `New`, and the theorems of the package at them.
use go_project_example.Base.{[], ◌∷◌, ◌≡◌, refl, none, arith, codes, List}
use go_project_example.Xerrors.{
  kind_not_found, kind_internal_error, nil, sentinel, with_op, Heap, Error, arg_op, arg_kind,
  arg_errors, arg_error, Arg, new, unwrap_errors,
}
use go_project_example.Xerrors.Kinds.{new_frame, new-ref}

abbrev not_found : Error
not_found = sentinel (codes "not found")

-- One error is allocated: a not-found error.
abbrev one : Heap
one = record {
  cell = λ a. record { err = not_found; inner_err = nil; kind = kind_not_found; op = [] };
  next = 1;
}

abbrev call : List Arg
call = arg_op (codes "get") ∷ arg_kind kind_internal_error ∷ arg_error not_found ∷ []

new_run : unwrap_errors (new none call one).1 1 ≡ with_op not_found (codes "get") none
unfolding new
new_run = refl

other_cell_kept : (new none call one).1.cell 0 ≡ one.cell 0
other_cell_kept = new_frame none call one 0 (omega arith) (omega arith)

given_address : (new none (arg_errors 0 ∷ []) one).0 ≡ 0
given_address = new-ref none (arg_errors 0 ∷ []) one

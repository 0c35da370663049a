-- ===== src/Response/Tests.antt =====
-- Responses at concrete errors.
use go_project_example.Base.{ℕ, List, [], ◌∷◌, ◌≡◌, refl, none, Bytes, Result, ok, codes}
use go_project_example.Xerrors.{
  kind_not_found, kind_bad_request, Kind, nil, sentinel, ref, Heap, Error,
}
use go_project_example.Response.{
  JsonResponse, Op, sets_error, writes_header, json, apply_all, write,
}
use go_project_example.Response.Headers.{codes_sent, write-codes}

-- One allocated error of a given kind.
abbrev heap_of : Kind → Heap
heap_of k = record {
  cell = λ a. record { err = sentinel (codes "gone"); inner_err = nil; kind = k; op = [] };
  next = 1;
}

abbrev marshal : JsonResponse ℕ → Result Error Bytes
marshal r = ok (codes "{}")

abbrev missing : List (Op ℕ)
missing = sets_error (ref 0) none ∷ []

abbrev created : List (Op ℕ)
created = writes_header 201 ∷ sets_error (ref 0) none ∷ []

bad_request_twice :
    codes_sent (write marshal (heap_of kind_bad_request) (apply_all (json []) created)).0.writer
    ≡ 201 ∷ 400 ∷ []
unfolding write apply_all
bad_request_twice = refl

write-codes_example :
    codes_sent (write marshal (heap_of kind_not_found) (apply_all (json []) missing)).0.writer
    ≡ 404 ∷ []
unfolding apply_all
write-codes_example = write-codes marshal (heap_of kind_not_found) missing

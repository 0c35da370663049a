-- ===== src/Response.antt =====
-- internal/pkg/http/response/response.go: a JSON response and the status that its error stands for.
pub mod Headers
mod Tests
use go_project_example.Base.{
  ℕ, Bool, true, false, List, [], ◌∷◌, ◌++◌, Option, none, some, if◌then◌else◌, Bytes, Result, ok,
  err, codes,
}
use go_project_example.Xerrors.{
  Kind, kind_ok, kind_not_found, kind_bad_request, kind_unauthorized, kind_internal_error,
  kind_other, Error, ref, Heap, kind_of, xunwrap,
}

-- `Status`; `status_unset` is the empty string.
pub data Status : Type 0 where
  status_unset status_ok status_retry status_bad_request status_not_found : Status
  status_unauthorized status_internal_error : Status

pub record JsonError : Type 0 where
  pub title : Bytes
  pub detail_message : Bytes
  pub detail : Bytes
  pub errors : List Bytes

pub record JsonRetryResponse : Type 0 where
  pub retry_min : ℕ
  pub retry_max : ℕ

-- The calls of the `http.ResponseWriter`, in order.
pub data WriterCall : Type 0 where
  set_header : Bytes → Bytes → WriterCall
  write_header : ℕ → WriterCall
  write_body : Bytes → WriterCall

-- `JSONResponse` over data of type `D`; `xerr` is the address of the `*xerrors.Errors`.
pub record JsonResponse (D : Type 0) : Type 0 where
  pub writer : List WriterCall
  pub xerr : Option ℕ
  pub header_written : Bool
  pub response_status : Status
  pub response_data : Option D
  pub response_retry : Option JsonRetryResponse
  pub response_error : Option JsonError

-- A call of the handle, apart from `Write`.
pub data Op (D : Type 0) : Type 0 where
  sets_header : Bytes → Bytes → Op D
  sets_data : D → Op D
  sets_error : Error → Option JsonError → Op D
  writes_header : ℕ → Op D

abbrev pub content_type : WriterCall
content_type = set_header (codes "Content-Type") (codes "application/json")

module _ {D : Type 0} where
  abbrev pub json : List WriterCall → JsonResponse D
  json w = record {
    writer = w;
    xerr = none;
    header_written = false;
    response_status = status_unset;
    response_data = none;
    response_retry = none;
    response_error = none;
  }

  abbrev pub emit : WriterCall → JsonResponse D → JsonResponse D
  emit c r = record r { writer = r.writer ++ c ∷ [] }

  -- `WriteHeader`
  unfoldable pub write_status : ℕ → JsonResponse D → JsonResponse D
  write_status code r =
      if r.header_written then r else record (emit (write_header code) r) { header_written = true }

  -- `Error`
  unfoldable pub set_error : Error → Option JsonError → JsonResponse D → JsonResponse D
  set_error e details r = elim (xunwrap e) [
    | none ↦ r
    | some a ↦ record r { xerr = some a; response_error = details }
  ]

  -- `SetHeader`, `Data`, `Error` and `WriteHeader`
  unfoldable pub apply : JsonResponse D → Op D → JsonResponse D
  unfolding write_status set_error
  apply r (sets_header k v) = emit (set_header k v) r
  apply r (sets_data d) = record r { response_data = some d }
  apply r (sets_error e details) = set_error e details r
  apply r (writes_header code) = write_status code r

  unfoldable pub apply_all : JsonResponse D → List (Op D) → JsonResponse D
  unfolding apply
  apply_all r [] = r
  apply_all r (o ∷ os) = apply_all (apply r o) os

  -- The `switch` of `Write`. The bad-request case calls the writer itself, past the flag.
  unfoldable pub write_kind : Kind → JsonResponse D → JsonResponse D
  unfolding write_status
  write_kind kind_ok r = write_status 200 (record r { response_status = status_ok })
  write_kind kind_not_found r = write_status 404 (record r { response_status = status_not_found })
  write_kind kind_bad_request r =
      emit (write_header 400) (record r { response_status = status_bad_request })
  write_kind kind_unauthorized r =
      write_status 401 (record r { response_status = status_unauthorized })
  write_kind kind_internal_error r =
      write_status 500 (record r { response_status = status_internal_error })
  write_kind (kind_other n) r = r

  unfoldable pub write_error : Heap → JsonResponse D → JsonResponse D
  unfolding write_kind
  write_error h r = elim r.xerr [ none ↦ r | some a ↦ write_kind (kind_of h a) r ]

  send : JsonResponse D → Result Error Bytes → JsonResponse D × Result Error (Unit {0})
  send r (err e) = (r, err e)
  send r (ok out) = (emit (write_body out) r, ok tt)

  -- `Write`, with `encoding/json` as `marshal`
  unfoldable pub write :
      (JsonResponse D → Result Error Bytes)
      → Heap
      → JsonResponse D
      → JsonResponse D × Result Error (Unit {0})
  unfolding write_error send
  write marshal h r =
      let r' : JsonResponse D = write_error h (emit content_type r) in send r' (marshal r')

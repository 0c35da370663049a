-- ===== src/Response/Headers.antt =====
-- Which status codes a response sends, over all orders of its calls.
use go_project_example.Base.{
  ℕ, Bool, true, false, List, [], ◌∷◌, ◌++◌, ◌≡◌, refl, ◌∙◌, none, some, codes, append-nil,
  Option-cases, inl, inr, arith, Bytes, Result, ok, err,
}
use mathlib.Core.Option
use mathlib.Core.Option.{Option}
use go_project_example.Xerrors.{
  Kind, kind_ok, kind_not_found, kind_bad_request, kind_unauthorized, kind_internal_error,
  kind_other, Error, Heap, kind_of,
}
use go_project_example.Response.{
  WriterCall, set_header, write_header, write_body, JsonResponse, Op, sets_header, sets_data,
  sets_error, writes_header, json, emit, apply, apply_all, write_kind, write_error, write, send,
  content_type,
}

-- The codes that were handed to the writer, in order.
abbrev pub codes_sent : List WriterCall → List ℕ
codes_sent [] = []
codes_sent (write_header c ∷ w) = c ∷ codes_sent w
codes_sent (_ ∷ w) = codes_sent w

pub codes_sent-append : (v w : List WriterCall) → codes_sent (v ++ w) ≡ codes_sent v ++ codes_sent w
codes_sent-append [] w = refl
codes_sent-append (set_header k x ∷ v) w = codes_sent-append v w
codes_sent-append (write_header c ∷ v) w = λ i. c ∷ codes_sent-append v w i
codes_sent-append (write_body b ∷ v) w = codes_sent-append v w

-- The code of a kind.
abbrev pub code_of : Kind → Option ℕ
code_of kind_ok = some 200
code_of kind_not_found = some 404
code_of kind_bad_request = some 400
code_of kind_unauthorized = some 401
code_of kind_internal_error = some 500
code_of (kind_other n) = none

abbrev pub to_list : Option ℕ → List ℕ
to_list none = []
to_list (some c) = c ∷ []

abbrev is_some : Option ℕ → Bool
is_some none = false
is_some (some c) = true

-- The first explicit code of a list of calls.
abbrev pub first_code : {D : Type 0} → List (Op D) → Option ℕ
first_code [] = none
first_code (writes_header c ∷ os) = some c
first_code (_ ∷ os) = first_code os

abbrev pub or_else : Option ℕ → Option ℕ → Option ℕ
or_else none d = d
or_else (some c) d = some c

-- The codes that a response sends when it is written: the first one that was asked for, and else
-- the one of the error's kind; behind it comes 400, if the error is a bad request.
abbrev pub expected : Option ℕ → Option Kind → List ℕ
expected first none = to_list first
expected first (some kind_bad_request) = to_list first ++ 400 ∷ []
expected first (some k) = to_list (or_else first (code_of k))

module _ {D : Type 0} where
  -- What the flag says: nothing was sent, or one code was.
  record Flag (sent : Option ℕ) (r : JsonResponse D) : Type 0 where
    flag : r.header_written ≡ is_some sent
    sent_codes : codes_sent r.writer ≡ to_list sent

  apply-Flag :
      (sent : Option ℕ) (r : JsonResponse D) (o : Op D)
      → Flag sent r
      → Flag (or_else sent (first_code (o ∷ []))) (apply r o)
  unfolding apply
  apply-Flag none r (sets_header k v) f =
      ground (arith, codes_sent-append r.writer (set_header k v ∷ []))
  apply-Flag (some c) r (sets_header k v) f =
      ground (arith, codes_sent-append r.writer (set_header k v ∷ []))
  apply-Flag none r (sets_data d) f = ground arith
  apply-Flag (some c) r (sets_data d) f = ground arith
  apply-Flag none r (sets_error e d) f = ground arith
  apply-Flag (some c) r (sets_error e d) f = ground arith
  apply-Flag none r (writes_header c) f =
      ground (arith, codes_sent-append r.writer (write_header c ∷ []))
  apply-Flag (some d) r (writes_header c) f = ground arith

  first_code-cons :
      (sent : Option ℕ) (o : Op D) (os : List (Op D))
      → or_else (or_else sent (first_code (o ∷ []))) (first_code os)
        ≡ or_else sent (first_code (o ∷ os))
  first_code-cons (some c) o os = refl
  first_code-cons none (sets_header k v) os = refl
  first_code-cons none (sets_data d) os = refl
  first_code-cons none (sets_error e d) os = refl
  first_code-cons none (writes_header c) os = refl

  apply_all-Flag :
      (os : List (Op D)) (sent : Option ℕ) (r : JsonResponse D)
      → Flag sent r
      → Flag (or_else sent (first_code os)) (apply_all r os)
  unfolding apply_all
  apply_all-Flag [] none r f = f
  apply_all-Flag [] (some c) r f = f
  apply_all-Flag (o ∷ os) sent r f =
      rw (← first_code-cons sent o os)
        (apply_all-Flag os (or_else sent (first_code (o ∷ []))) (apply r o) (apply-Flag sent r o f))

  json-Flag : (os : List (Op D)) → Flag (first_code os) (apply_all (json []) os)
  json-Flag os = apply_all-Flag os none (json []) (record { flag = refl; sent_codes = refl })

  abbrev pub error_kind : Heap → JsonResponse D → Option Kind
  error_kind h r = Option.map (kind_of h) r.xerr

  write_kind-codes :
      (k : Kind) (sent : Option ℕ) (r : JsonResponse D)
      → Flag sent r
      → codes_sent (write_kind k r).writer ≡ expected sent (some k)
  unfolding write_kind
  write_kind-codes kind_bad_request sent r f =
      codes_sent-append r.writer (write_header 400 ∷ []) ∙ ground arith
  write_kind-codes (kind_other n) none r f = ground arith
  write_kind-codes (kind_other n) (some c) r f = ground arith
  write_kind-codes kind_ok none r f =
      ground (arith, codes_sent-append r.writer (write_header 200 ∷ []))
  write_kind-codes kind_not_found none r f =
      ground (arith, codes_sent-append r.writer (write_header 404 ∷ []))
  write_kind-codes kind_unauthorized none r f =
      ground (arith, codes_sent-append r.writer (write_header 401 ∷ []))
  write_kind-codes kind_internal_error none r f =
      ground (arith, codes_sent-append r.writer (write_header 500 ∷ []))
  write_kind-codes _ (some c) r f = ground arith

  write_error-codes :
      (h : Heap) (sent : Option ℕ) (r : JsonResponse D)
      → Flag sent r
      → codes_sent (write_error h r).writer ≡ expected sent (error_kind h r)
  unfolding write_error
  write_error-codes h sent r f = elim (Option-cases r.xerr) [
    | inl e ↦ rw (e, write_error) f.sent_codes
    | inr (a, e) ↦ rw (e, write_error) (write_kind-codes (kind_of h a) sent r f)
  ]

  send-codes :
      (r : JsonResponse D) (m : Result Error Bytes)
      → codes_sent (send r m).0.writer ≡ codes_sent r.writer
  unfolding send
  send-codes r (err e) = refl
  send-codes r (ok out) = codes_sent-append r.writer (write_body out ∷ []) ∙ append-nil _

  -- A response writes the code of its error's kind, unless a code was asked for before; only a
  -- bad request sends a second code then. This holds for every order of the calls before `Write`,
  -- whether or not the body can be marshalled.
  pub write-codes :
      (marshal : JsonResponse D → Result Error Bytes) (h : Heap) (os : List (Op D))
      → let r : JsonResponse D = apply_all (json []) os in
        codes_sent (write marshal h r).0.writer ≡ expected (first_code os) (error_kind h r)
  unfolding write apply
  write-codes marshal h os =
      let r : JsonResponse D = apply_all (json []) os in
      send-codes (write_error h (emit content_type r)) _
      ∙ write_error-codes h (first_code os) (emit content_type r)
          (typed r (first_code os) (json-Flag os))
    where
      typed : (r : JsonResponse D) (sent : Option ℕ) → Flag sent r → Flag sent (emit content_type r)
      typed r none f =
          apply-Flag none r (sets_header (codes "Content-Type") (codes "application/json")) f
      typed r (some c) f =
          apply-Flag (some c) r (sets_header (codes "Content-Type") (codes "application/json")) f

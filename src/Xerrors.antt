-- ===== src/Xerrors.antt =====
-- internal/xerrors/xerrors.go: errors that carry a kind and an operation.
--
-- An `*Errors` is an address into a heap, since `New` writes through the `*Errors` among its
-- arguments. A formatted error keeps the parts that its format prints, in place of the text.
pub mod Kinds
pub mod Chains
mod Tests
use go_project_example.Base.{
  ℕ, suc, ◌+◌, Bool, true, false, List, [], ◌∷◌, Option, none, some, ◌==◌, if◌then◌else◌, Bytes,
}

-- `Kind`, an int16: the named constants, and any other value.
pub data Kind : Type 0 where
  kind_ok kind_not_found kind_bad_request kind_unauthorized kind_internal_error : Kind
  kind_other : ℕ → Kind

-- Where `New` was called, if `_caller` is set: the file and the line that `runtime.Caller` gives.
abbrev pub Caller : Type 0
Caller = Option (Bytes × ℕ)

-- A Go `error`.
pub data Error : Type 0 where
  -- the nil interface
  nil : Error
  -- a package variable made by `errors.New`, by its text
  sentinel : Bytes → Error
  -- an error of the standard library or of a backend, by a code
  backend : ℕ → Error
  -- `errors.New` in a function, or `fmt.Errorf` with no `%w`
  message : Bytes → Error
  -- `fmt.Errorf("%s: %s", val, xerr.op)`
  described : Bytes → Bytes → Caller → Error
  -- `fmt.Errorf("%w: %s", val, xerr.op)`
  with_op : Error → Bytes → Caller → Error
  -- `fmt.Errorf("error executing %s: %w", xerr.op, val.Err)`
  executing : Bytes → Error → Caller → Error
  -- an `*Errors`
  ref : ℕ → Error

-- The struct `Errors`. Nothing ever sets `InnerErr`.
pub record Errors : Type 0 where
  pub err : Error
  pub inner_err : Error
  pub kind : Kind
  pub op : Bytes

pub record Heap : Type 0 where
  pub cell : ℕ → Errors
  pub next : ℕ

abbrev pub zero_errors : Errors
zero_errors = record { err = nil; inner_err = nil; kind = kind_ok; op = [] }

-- One argument of `New`, by its dynamic type.
pub data Arg : Type 0 where
  arg_op arg_string : Bytes → Arg
  arg_kind : Kind → Arg
  arg_errors : ℕ → Arg
  arg_error : Error → Arg
  arg_other : Arg

-- How an `error` is seen by the type switch.
abbrev pub arg_of : Error → Arg
arg_of nil = arg_other
arg_of (ref a) = arg_errors a
arg_of e = arg_error e

unfoldable pub write : ℕ → Errors → Heap → Heap
write a e h = record h { cell = λ b. if b == a then e else h.cell b }

-- One round of the loop of `New`: the address in `xerr`, and the heap.
unfoldable pub apply : Caller → Arg → ℕ × Heap → ℕ × Heap
unfolding write
apply c (arg_op o) (x, h) = (x, write x (record (h.cell x) { op = o }) h)
apply c (arg_string s) (x, h) =
    (x, write x (record (h.cell x) { err = described s (h.cell x).op c }) h)
apply c (arg_kind k) (x, h) = (x, write x (record (h.cell x) { kind = k }) h)
apply c (arg_errors a) (x, h) =
    let val : Errors = record (h.cell a) { op = (h.cell x).op } in
    (a, write a (record val { err = executing val.op val.err c }) h)
apply c (arg_error e) (x, h) =
    (x, write x (record (h.cell x) { err = with_op e (h.cell x).op c }) h)
apply c arg_other (x, h) = (x, h)

unfoldable pub apply_all : Caller → List Arg → ℕ × Heap → ℕ × Heap
unfolding apply
apply_all c [] s = s
apply_all c (a ∷ gs) s = apply_all c gs (apply c a s)

unfoldable pub new : Caller → List Arg → Heap → ℕ × Heap
unfolding apply_all write
new c args h = apply_all c args (h.next, write h.next zero_errors (record h { next = suc h.next }))

-- `(*Errors).Kind`, `(*Errors).Unwrap`, `XUnwrap`.
abbrev pub kind_of : Heap → ℕ → Kind
kind_of h a = (h.cell a).kind

abbrev pub unwrap_errors : Heap → ℕ → Error
unwrap_errors h a = (h.cell a).err

abbrev pub xunwrap : Error → Option ℕ
xunwrap (ref a) = some a
xunwrap _ = none

-- ===== src/Xerrors/Kinds.antt =====
-- The kind and the identity of what `New` returns, and what it writes.
use go_project_example.Base.{ℕ, ◌<◌, List, [], ◌∷◌, ◌++◌, ◌≡◌, ◌≢◌, refl, ◌∙◌, ==_self, arith, All}
use go_project_example.Xerrors.{
  Kind, kind_ok, Heap, Arg, arg_op, arg_string, arg_kind, arg_errors, arg_error, arg_other, Caller,
  write, apply, apply_all, new, kind_of,
}

-- The last `Kind` of a list of arguments, or else `k`.
abbrev pub last_kind : Kind → List Arg → Kind
last_kind k [] = k
last_kind k (arg_kind j ∷ gs) = last_kind j gs
last_kind k (_ ∷ gs) = last_kind k gs

-- The address that a list of arguments leaves: the last `*Errors`.
abbrev pub last_ref : ℕ → List Arg → ℕ
last_ref x [] = x
last_ref x (arg_errors a ∷ gs) = last_ref a gs
last_ref x (_ ∷ gs) = last_ref x gs

-- No argument is a `*Errors`.
abbrev pub NoErrors : Arg → Type 0
NoErrors (arg_errors a) = ⊥
NoErrors _ = Unit {0}

-- Every `*Errors` among the arguments is another cell than `a`.
abbrev pub Avoids : ℕ → Arg → Type 0
Avoids a (arg_errors b) = b ≢ a
Avoids a _ = Unit {0}

pub apply_all-ref :
    (c : Caller) (gs : List Arg) (x : ℕ) (h : Heap) → (apply_all c gs (x, h)).0 ≡ last_ref x gs
unfolding apply_all
apply_all-ref c [] x h = refl
apply_all-ref c (arg_op o ∷ gs) x h = apply_all-ref c gs x _
apply_all-ref c (arg_string o ∷ gs) x h = apply_all-ref c gs x _
apply_all-ref c (arg_kind o ∷ gs) x h = apply_all-ref c gs x _
apply_all-ref c (arg_errors a ∷ gs) x h = apply_all-ref c gs a _
apply_all-ref c (arg_error o ∷ gs) x h = apply_all-ref c gs x _
apply_all-ref c (arg_other ∷ gs) x h = apply_all-ref c gs x _

apply_frame :
    (c : Caller) (g : Arg) (x a : ℕ) (h : Heap)
    → a ≢ x
    → Avoids a g
    → ((apply c g (x, h)).1.cell a ≡ h.cell a) × (a ≢ (apply c g (x, h)).0)
unfolding apply
apply_frame c (arg_op o) x a h n v = ground arith
apply_frame c (arg_string o) x a h n v = ground arith
apply_frame c (arg_kind o) x a h n v = ground arith
apply_frame c (arg_errors b) x a h n v = ground arith
apply_frame c (arg_error o) x a h n v = ground arith
apply_frame c arg_other x a h n v = ground arith

pub apply_all_frame :
    (c : Caller) (gs : List Arg) (x a : ℕ) (h : Heap)
    → a ≢ x
    → All (Avoids a) gs
    → (apply_all c gs (x, h)).1.cell a ≡ h.cell a
unfolding apply_all
apply_all_frame c [] x a h n v = refl
apply_all_frame c (g ∷ gs) x a h n v =
    let (same, apart) = apply_frame c g x a h n v.0 in
    apply_all_frame c gs (apply c g (x, h)).0 a (apply c g (x, h)).1 apart v.1 ∙ same

-- A cell keeps its contents over `New`, unless it is one of the `*Errors` arguments.
pub new_frame :
    (c : Caller) (args : List Arg) (h : Heap) (a : ℕ)
    → a < h.next
    → All (Avoids a) args
    → (new c args h).1.cell a ≡ h.cell a
unfolding new
new_frame c args h a lt v = apply_all_frame c args h.next a _ (λ e. omega arith) v ∙ ground arith

-- `New` returns a fresh `*Errors`, or else the last `*Errors` among its arguments itself.
pub new-ref : (c : Caller) (args : List Arg) (h : Heap) → (new c args h).0 ≡ last_ref h.next args
unfolding new
new-ref c args h = apply_all-ref c args h.next _

pub apply_all-append :
    (c : Caller) (gs bs : List Arg) (s : ℕ × Heap)
    → apply_all c (gs ++ bs) s ≡ apply_all c bs (apply_all c gs s)
unfolding apply_all
apply_all-append c [] bs s = refl
apply_all-append c (a ∷ gs) bs s = apply_all-append c gs bs (apply c a s)

kind-apply_all :
    (c : Caller) (gs : List Arg) (x : ℕ) (h : Heap)
    → All NoErrors gs
    → kind_of (apply_all c gs (x, h)).1 x ≡ last_kind (kind_of h x) gs
unfolding apply_all write
kind-apply_all c [] x h n = refl
kind-apply_all c (arg_op o ∷ gs) x h n = kind-apply_all c gs x _ n.1 ∙ ground (arith, ==_self x)
kind-apply_all c (arg_string o ∷ gs) x h n = kind-apply_all c gs x _ n.1 ∙ ground (arith, ==_self x)
kind-apply_all c (arg_kind o ∷ gs) x h n = kind-apply_all c gs x _ n.1 ∙ ground (arith, ==_self x)
kind-apply_all c (arg_errors a ∷ gs) x h n = absurd n.0
kind-apply_all c (arg_error o ∷ gs) x h n = kind-apply_all c gs x _ n.1 ∙ ground (arith, ==_self x)
kind-apply_all c (arg_other ∷ gs) x h n = kind-apply_all c gs x _ n.1

-- With no `*Errors` among its arguments, `New` returns a fresh error with the last `Kind` given,
-- or `KindOK`.
new-kind :
    (c : Caller) (args : List Arg) (h : Heap)
    → All NoErrors args
    → kind_of (new c args h).1 h.next ≡ last_kind kind_ok args
unfolding new
new-kind c args h n = kind-apply_all c args h.next _ n ∙ ground (arith, ==_self h.next)

-- ===== src/Xerrors/Chains.antt =====
-- `errors.Is` over what `New` builds: the chain of wrapped errors.
use go_project_example.Base.{
  ℕ, suc, ◌<◌, List, [], ◌∷◌, ◌++◌, ◌≡◌, ◌≢◌, refl, ◌∙◌, ◌⊎◌, inl, inr, Bool-cases, ◌==◌, arith,
  All, Bytes,
}
use go_project_example.Xerrors.{
  Error, nil, sentinel, backend, message, described, with_op, executing, ref, Heap, Arg, arg_op,
  arg_string, arg_kind, arg_errors, arg_error, arg_other, arg_of, Caller, zero_errors, write, apply,
  apply_all, new, unwrap_errors,
}
use go_project_example.Xerrors.Kinds.{Avoids, apply_all-append}

-- `errors.Is(e, t)`: `t` is in the chain of `e`, whose addresses are allocated.
pub data Wraps (h : Heap) (t : Error) : Error → Type 0 where
  itself : Wraps h t t
  in_with_op : {e : Error} (o : Bytes) (c : Caller) → Wraps h t e → Wraps h t (with_op e o c)
  in_executing : {e : Error} (o : Bytes) (c : Caller) → Wraps h t e → Wraps h t (executing o e c)
  in_ref : (a : ℕ) → a < h.next → Wraps h t (unwrap_errors h a) → Wraps h t (ref a)

-- An argument that sets the operation or the kind, or does nothing.
abbrev pub IsPlain : Arg → Type 0
IsPlain (arg_op o) = Unit {0}
IsPlain (arg_kind k) = Unit {0}
IsPlain arg_other = Unit {0}
IsPlain _ = ⊥

-- Each allocated error of `h` is in `k` what it was, or is wrapped once more.
abbrev Extends : Heap → Heap → Type 0
Extends h k =
    (a : ℕ)
    → a < h.next
    → (a < k.next)
      × ((unwrap_errors k a ≡ unwrap_errors h a)
          ⊎ ((o : Bytes) × (c : Caller) × (unwrap_errors k a ≡ executing o (unwrap_errors h a) c)))

Wraps-Extends : (h k : Heap) (t : Error) → Extends h k → {e : Error} → Wraps h t e → Wraps k t e
Wraps-Extends h k t x itself = itself
Wraps-Extends h k t x (in_with_op o c w) = in_with_op o c (Wraps-Extends h k t x w)
Wraps-Extends h k t x (in_executing o c w) = in_executing o c (Wraps-Extends h k t x w)
Wraps-Extends h k t x (in_ref a lt w) =
    let v : Wraps k t (unwrap_errors h a) = Wraps-Extends h k t x w in
    elim (x a lt).1 [
      | inl same ↦ in_ref a (x a lt).0 (rw same v)
      | inr (o, c, more) ↦ in_ref a (x a lt).0 (rw more (in_executing o c v))
    ]

plain-Avoids : (a : ℕ) (gs : List Arg) → All IsPlain gs → All (Avoids a) gs
plain-Avoids a [] p = tt
plain-Avoids a (arg_op o ∷ gs) p = (tt, plain-Avoids a gs p.1)
plain-Avoids a (arg_string o ∷ gs) p = absurd p.0
plain-Avoids a (arg_kind o ∷ gs) p = (tt, plain-Avoids a gs p.1)
plain-Avoids a (arg_errors o ∷ gs) p = absurd p.0
plain-Avoids a (arg_error o ∷ gs) p = absurd p.0
plain-Avoids a (arg_other ∷ gs) p = (tt, plain-Avoids a gs p.1)

-- Plain arguments change no wrapped error.
apply_all_plain :
    (c : Caller) (gs : List Arg) (x : ℕ) (h : Heap)
    → All IsPlain gs
    → ((apply_all c gs (x, h)).0 ≡ x)
      × ((apply_all c gs (x, h)).1.next ≡ h.next)
      × ((a : ℕ) → unwrap_errors (apply_all c gs (x, h)).1 a ≡ unwrap_errors h a)
unfolding apply_all write
apply_all_plain c [] x h p = (refl, refl, λ a. refl)
apply_all_plain c (arg_op o ∷ gs) x h p =
    let (same, next, err) = apply_all_plain c gs x (apply c (arg_op o) (x, h)).1 p.1 in
    (same, next, λ a. err a ∙ ground arith)
apply_all_plain c (arg_string o ∷ gs) x h p = absurd p.0
apply_all_plain c (arg_kind o ∷ gs) x h p =
    let (same, next, err) = apply_all_plain c gs x (apply c (arg_kind o) (x, h)).1 p.1 in
    (same, next, λ a. err a ∙ ground arith)
apply_all_plain c (arg_errors o ∷ gs) x h p = absurd p.0
apply_all_plain c (arg_error o ∷ gs) x h p = absurd p.0
apply_all_plain c (arg_other ∷ gs) x h p = apply_all_plain c gs x h p.1

-- `New` over plain arguments and one other is the round of that other argument.
record Round (c : Caller) (g : Arg) (h : Heap) (s : ℕ × Heap) : Type 0 where
  x : ℕ
  heap : Heap
  fresh : x ≡ h.next
  next : heap.next ≡ suc h.next
  err : (a : ℕ) → a < h.next → unwrap_errors heap a ≡ unwrap_errors h a
  same_ref : s.0 ≡ (apply c g (x, heap)).0
  same_next : s.1.next ≡ (apply c g (x, heap)).1.next
  same_err : (a : ℕ) → unwrap_errors s.1 a ≡ unwrap_errors (apply c g (x, heap)).1 a

new-Round :
    (c : Caller) (before after : List Arg) (g : Arg) (h : Heap)
    → All IsPlain before
    → All IsPlain after
    → Round c g h (new c (before ++ g ∷ after) h)
unfolding new apply_all
new-Round c before after g h pb pa =
    let start : Heap = write h.next zero_errors (record h { next = suc h.next }) in
    let s : ℕ × Heap = apply_all c before (h.next, start) in
    let b = apply_all_plain c before h.next start pb in
    let t : ℕ × Heap = apply c g s in
    let f = apply_all_plain c after t.0 t.1 pa in
    record {
      x = s.0;
      heap = s.1;
      fresh = b.0;
      next = b.1 ∙ (unfold write in refl);
      err = λ a lt. b.2 a ∙ (unfold write in ground arith);
      same_ref = rw apply_all-append f.0;
      same_next = rw apply_all-append f.1;
      same_err = λ a. rw apply_all-append (f.2 a);
    }

-- What one round leaves of the errors that were allocated, and of the one that it returns.
record Keeps (h : Heap) (e : Error) (s : ℕ × Heap) : Type 0 where
  extends : Extends h s.1
  wraps : (t : Error) → Wraps s.1 t e → Wraps s.1 t (ref s.0)

error-Keeps :
    (c : Caller) (h : Heap) (e : Error) (s : ℕ × Heap) → Round c (arg_error e) h s → Keeps h e s
unfolding apply write
error-Keeps c h e s r =
    let allocated : s.0 < s.1.next = ground (arith, r.fresh, r.next, r.same_next, r.same_ref) in
    let wrapped : unwrap_errors s.1 s.0 ≡ with_op e (r.heap.cell r.x).op c =
      ground (arith, r.same_ref, r.same_err s.0) in
    record {
      extends = λ a lt. (
        ground (arith, r.fresh, r.next, r.same_next),
        inl (ground (arith, r.err a lt, r.fresh, r.same_err a)),
      );
      wraps = λ t w. in_ref s.0 allocated (rw wrapped (in_with_op _ _ w));
    }

ref-Keeps :
    (c : Caller) (h : Heap) (b : ℕ) (s : ℕ × Heap)
    → b < h.next
    → Round c (arg_errors b) h s
    → Keeps h (ref b) s
unfolding apply write
ref-Keeps c h b s old r = record {
  extends = λ a lt. (ground (arith, r.fresh, r.next, r.same_next), cases a lt);
  wraps = λ t w. rw r.same_ref w;
}
  where
    cases :
        (a : ℕ)
        → a < h.next
        → (unwrap_errors s.1 a ≡ unwrap_errors h a)
          ⊎ ((o : Bytes) × (d : Caller) × (unwrap_errors s.1 a ≡ executing o (unwrap_errors h a) d))
    cases a lt = elim (Bool-cases (a == b)) [
      | inl e ↦ inr ((r.heap.cell r.x).op, c, ground (arith, r.err a lt, r.same_err a))
      | inr e ↦ inl (ground (arith, r.err a lt, r.same_err a))
    ]

arg_of-Keeps :
    (c : Caller) (h : Heap) (e : Error) (s : ℕ × Heap)
    → ((b : ℕ) → e ≡ ref b → b < h.next)
    → e ≢ nil
    → Round c (arg_of e) h s
    → Keeps h e s
arg_of-Keeps c h nil s old n r = absurd (n refl)
arg_of-Keeps c h (ref b) s old n r = ref-Keeps c h b s (old b refl) r
arg_of-Keeps c h (sentinel m) s old n r = error-Keeps c h _ s r
arg_of-Keeps c h (backend m) s old n r = error-Keeps c h _ s r
arg_of-Keeps c h (message m) s old n r = error-Keeps c h _ s r
arg_of-Keeps c h (described m o d) s old n r = error-Keeps c h _ s r
arg_of-Keeps c h (with_op m o d) s old n r = error-Keeps c h _ s r
arg_of-Keeps c h (executing m o d) s old n r = error-Keeps c h _ s r

-- Whatever `errors.Is` finds in a non-nil error, it finds in what `New` makes of the error and of
-- any operations and kinds around it.
new-Wraps :
    (c : Caller) (before after : List Arg) (e t : Error) (h : Heap)
    → All IsPlain before
    → All IsPlain after
    → ((b : ℕ) → e ≡ ref b → b < h.next)
    → e ≢ nil
    → Wraps h t e
    → let s = new c (before ++ arg_of e ∷ after) h in Wraps s.1 t (ref s.0)
new-Wraps c before after e t h pb pa old n w =
    let s : ℕ × Heap = new c (before ++ arg_of e ∷ after) h in
    let k = arg_of-Keeps c h e s old n (new-Round c before after (arg_of e) h pb pa) in
    k.wraps t (Wraps-Extends h s.1 t k.extends w)

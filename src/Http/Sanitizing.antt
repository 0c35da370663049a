-- ===== src/Http/Sanitizing.antt =====
-- The switches of internal/pkg/http/misc/misc.go against what they abbreviate.
use go_project_example.Base.{
  ℕ, ◌==◌, List, [], ◌∷◌, ◌≡◌, refl, sym, arith, inl, inr, All, Bytes, codes, ℤ, pos, negsuc,
  if◌then◌else◌, Bool-cases, ==_iff,
}
use go_project_example.Text.{bytes_eq, eq_of_bytes_eq}
use go_project_example.Text.Decimal.{format_int}
use go_project_example.Http.{
  to_lower, method_cases, switch_method, sanitize_method, code_cases, switch_code, sanitize_code,
}

switch_method-to_lower :
    (cases : List (Bytes × Bytes × Bytes)) (m : Bytes)
    → All (λ c. (to_lower c.0 ≡ c.2) × (to_lower c.1 ≡ c.2)) cases
    → switch_method cases m ≡ to_lower m
unfolding switch_method
switch_method-to_lower [] m h = refl
switch_method-to_lower ((a, b, result) ∷ cases) m ((ha, hb), h) = elim (Bool-cases (bytes_eq m a)) [
  | inl e ↦ rw (e, eq_of_bytes_eq m a e) (sym ha)
  | inr e ↦ elim (Bool-cases (bytes_eq m b)) [
    | inl f ↦ rw (e, f, eq_of_bytes_eq m b f) (sym hb)
    | inr f ↦ rw (e, f) (switch_method-to_lower cases m h)
  ]
]

-- `SanitizeMethod` is the method in lower case.
pub sanitize_method-to_lower : (m : Bytes) → sanitize_method m ≡ to_lower m
unfolding sanitize_method
sanitize_method-to_lower m = switch_method-to_lower method_cases m (ground arith)

switch_code-format_int :
    (cases : List (ℕ × Bytes)) (n : ℕ)
    → All (λ c. c.1 ≡ format_int (pos c.0)) cases
    → switch_code cases n ≡ format_int (pos n)
unfolding switch_code
switch_code-format_int [] n h = refl
switch_code-format_int ((code, text) ∷ cases) n (ht, h) = elim (Bool-cases (n == code)) [
  | inl e ↦ rw (e, (==_iff n code).0 e) ht
  | inr e ↦ rw e (switch_code-format_int cases n h)
]

code_cases_decimal : All (λ (c : ℕ × Bytes). c.1 ≡ format_int (pos c.0)) code_cases
unfolding format_int
code_cases_decimal = ground arith

-- The code 0 stands for 200.
abbrev pub shown : ℤ → ℤ
shown (pos n) = pos (if n == 0 then 200 else n)
shown (negsuc n) = negsuc n

ok_decimal : codes "200" ≡ format_int (pos 200)
unfolding format_int
ok_decimal = refl

-- `SanitizeCode` is the code in decimal, and "200" for the code 0.
sanitize_code-format_int : (s : ℤ) → sanitize_code s ≡ format_int (shown s)
unfolding sanitize_code
sanitize_code-format_int (negsuc n) = refl
sanitize_code-format_int (pos n) = elim (Bool-cases (n == 0)) [
  | inl e ↦ rw e ok_decimal
  | inr e ↦ rw e (switch_code-format_int code_cases n code_cases_decimal)
]

-- ===== src/Otp/Generator.antt =====
-- internal/usecase/otp/otp.go: the range and the length of the drawn codes.
use Prim.Native.Nat.{ℕ, ◌≤◌, ◌<◌}
use go_project_example.Base.{◌≡◌, ◌≢◌, refl, ◌⊎◌, inl, inr, none, some, arith, length, Bytes, pos}
use go_project_example.Text.Decimal.{format_int, length-format_int}
use go_project_example.Otp.{generate, generate_code}

-- A draw lies in the range; the upper end is never drawn.
pub generate_bounds :
    (low high draw : ℕ)
    → low < high
    → (low ≤ generate low high draw) × (generate low high draw < high)
unfolding generate
generate_bounds low high draw h = grind arith

-- A code of 4 or of 6 characters is drawn for the lengths 4 and 6, whatever the random number; for
-- every other length there is no generator.
pub generate_code-length :
    (code_length draw : ℕ)
    → ((code_length ≡ 4) ⊎ (code_length ≡ 6)
        → (code : Bytes) × (generate_code code_length draw ≡ some code)
          × (length code ≡ code_length))
      × (code_length ≢ 4 → code_length ≢ 6 → generate_code code_length draw ≡ none)
unfolding generate_code
generate_code-length code_length draw = (drawn, λ n₄ n₆. ground arith)
  where
    four : (n : ℕ) → (1000 ≤ n) × (n < 9999) → length (format_int (pos n)) ≡ 4
    four n b = length-format_int 3 n b.0 (omega arith)

    six : (n : ℕ) → (100000 ≤ n) × (n < 999999) → length (format_int (pos n)) ≡ 6
    six n b = length-format_int 5 n b.0 (omega arith)

    drawn :
        (code_length ≡ 4) ⊎ (code_length ≡ 6)
        → (code : Bytes) × (generate_code code_length draw ≡ some code)
          × (length code ≡ code_length)
    drawn (inl e) =
        rw e
          (_, refl, four (generate 1000 9999 draw) (generate_bounds 1000 9999 draw (omega arith)))
    drawn (inr e) = rw e (
      _,
      refl,
      six (generate 100000 999999 draw) (generate_bounds 100000 999999 draw (omega arith)),
    )

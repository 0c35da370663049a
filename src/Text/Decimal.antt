-- ===== src/Text/Decimal.antt =====
-- `strconv.FormatInt` and `strconv.ParseInt` in base 10 for 64 bits.
use go_project_example.Base.{
  ℕ, zero, suc, ◌+◌, ◌-◌, ◌*◌, ◌/◌, ◌%◌, ◌^◌, ◌≤◌, ◌<◌, Bool, ◌&&◌, [], ◌∷◌, ◌≡◌, ◌≢◌, refl, ◌∙◌,
  arith, ltb, leb, ◌==◌, Bytes, All, length, if◌then◌else◌, Option, none, some, ℤ, pos, negsuc,
  Bool-cases, inl, inr,
}

-- Writes the digits of a number, the last one first; a number below the fuel is written whole.
emit : ℕ → ℕ → Bytes → Bytes
emit zero n out = out
emit (suc fuel) n out =
    let rest = emit fuel (n / 10) ((b'0' + n % 10) ∷ out) in if n == 0 then out else rest

format_nat : ℕ → Bytes
unfolding emit
format_nat n = if n == 0 then b'0' ∷ [] else emit (suc n) n []

unfoldable pub format_int : ℤ → Bytes
unfolding format_nat
format_int (pos n) = format_nat n
format_int (negsuc n) = b'-' ∷ format_nat (suc n)

abbrev is_digit : ℕ → Bool
is_digit c = leb b'0' c && leb c b'9'

scan : Bytes → ℕ → Option ℕ
scan [] n = some n
scan (c ∷ s) n = let rest = scan s (n * 10 + (c - b'0')) in if is_digit c then rest else none

parse_nat : Bytes → Option ℕ
unfolding scan
parse_nat [] = none
parse_nat (c ∷ s) = scan (c ∷ s) 0

in_range : Option ℕ → Option ℤ
in_range none = none
in_range (some n) = if ltb n (2 ^ 63) then some (pos n) else none

minus : Option ℕ → Option ℤ
minus none = none
minus (some n) =
    if n == 0 then some (pos 0) else if leb n (2 ^ 63) then some (negsuc (n - 1)) else none

unfoldable pub parse_int : Bytes → Option ℤ
unfolding parse_nat in_range minus
parse_int [] = none
parse_int (c ∷ s) =
    if c == b'-'
    then minus (parse_nat s)
    else if c == b'+'
    then in_range (parse_nat s)
    else in_range (parse_nat (c ∷ s))

-- The values of `int64`.
abbrev pub IsInt64 : ℤ → Type 0
IsInt64 (pos n) = n < 2 ^ 63
IsInt64 (negsuc n) = n < 2 ^ 63

abbrev IsDigit : ℕ → Type 0
IsDigit c = (b'0' ≤ c) × (c ≤ b'9')

scan-emit : (f n : ℕ) (out : Bytes) → n < f → scan (emit f n out) 0 ≡ scan out n
unfolding scan emit
scan-emit zero n out h = elim h [ ]
scan-emit (suc f) n out h = elim (Bool-cases (n == 0)) [
  | inl e ↦ ground arith
  | inr e ↦ rw e (scan-emit f (n / 10) ((b'0' + n % 10) ∷ out) (ground arith) ∙ ground arith)
]

emit-digits : (f n : ℕ) (out : Bytes) → All IsDigit out → All IsDigit (emit f n out)
unfolding emit
emit-digits zero n out h = h
emit-digits (suc f) n out h = ground (arith, emit-digits f (n / 10) ((b'0' + n % 10) ∷ out))

emit-ne-nil : (f n : ℕ) (out : Bytes) → out ≢ [] → emit f n out ≢ []
unfolding emit
emit-ne-nil zero n out h = h
emit-ne-nil (suc f) n out h = ground (arith, emit-ne-nil f (n / 10) ((b'0' + n % 10) ∷ out))

format_nat-digits : (n : ℕ) → All IsDigit (format_nat n)
unfolding format_nat
format_nat-digits n = ground (arith, emit-digits n (n / 10) ((b'0' + n % 10) ∷ []))

format_nat-ne-nil : (n : ℕ) → format_nat n ≢ []
unfolding format_nat
format_nat-ne-nil n = ground (arith, emit-ne-nil n (n / 10) ((b'0' + n % 10) ∷ []))

parse_nat-scan : (s : Bytes) → s ≢ [] → parse_nat s ≡ scan s 0
unfolding parse_nat
parse_nat-scan [] h = absurd (h refl)
parse_nat-scan (c ∷ s) h = refl

scan-format_nat : (n : ℕ) → scan (format_nat n) 0 ≡ some n
unfolding format_nat scan
scan-format_nat n = ground (arith, scan-emit n (n / 10) ((b'0' + n % 10) ∷ []))

parse_nat-format_nat : (n : ℕ) → parse_nat (format_nat n) ≡ some n
parse_nat-format_nat n = parse_nat-scan (format_nat n) (format_nat-ne-nil n) ∙ scan-format_nat n

parse_unsigned : (s : Bytes) → s ≢ [] → All IsDigit s → parse_int s ≡ in_range (parse_nat s)
unfolding parse_int
parse_unsigned [] h d = absurd (h refl)
parse_unsigned (c ∷ s) h d = ground arith

-- Every `int64` is read back from its decimal print.
pub parse_int-format_int : (n : ℤ) → IsInt64 n → parse_int (format_int n) ≡ some n
unfolding format_int parse_int
parse_int-format_int (pos n) h =
    parse_unsigned (format_nat n) (format_nat-ne-nil n) (format_nat-digits n)
    ∙ rw (parse_nat-format_nat n) (unfold in_range in ground arith)
parse_int-format_int (negsuc n) h = rw (parse_nat-format_nat (suc n)) (ground arith)

format_nat-ge : (s : Bytes) → All IsDigit s → All (λ c. c ≢ b':') s
format_nat-ge [] h = tt
format_nat-ge (c ∷ s) h = (omega arith, format_nat-ge s h.1)

-- A printed number holds no colon.
pub format_int-Lacks : (n : ℤ) → All (λ c. c ≢ b':') (format_int n)
unfolding format_int
format_int-Lacks (pos n) = format_nat-ge _ (format_nat-digits n)
format_int-Lacks (negsuc n) = (omega arith, format_nat-ge _ (format_nat-digits (suc n)))

-- The least number of k + 1 digits.
abbrev pub least : ℕ → ℕ
least zero = 1
least (suc k) = 10 * least k

emit-zero : (f : ℕ) (out : Bytes) → emit f 0 out ≡ out
unfolding emit
emit-zero zero out = refl
emit-zero (suc f) out = refl

length-emit :
    (k f n : ℕ) (out : Bytes)
    → least k ≤ n
    → n < least (suc k)
    → n < f
    → length (emit f n out) ≡ suc k + length out
unfolding emit
length-emit k zero n out lo hi h = elim h [ ]
length-emit zero (suc f) n out lo hi h =
    let e : n / 10 ≡ 0 = omega arith in ground (arith, emit-zero f ((b'0' + n % 10) ∷ out))
length-emit (suc k) (suc f) n out lo hi h =
    let rest =
      length-emit k f (n / 10) ((b'0' + n % 10) ∷ out) (omega arith) (omega arith) (omega arith) in
    ground arith

least_pos : (k : ℕ) → 1 ≤ least k
least_pos zero = omega arith
least_pos (suc k) = omega (arith, least_pos k)

format_nat-emit : (n : ℕ) → 0 < n → format_nat n ≡ emit (suc n) n []
unfolding format_nat
format_nat-emit n h = ground arith

-- A number of k + 1 digits is printed as k + 1 characters.
pub length-format_int :
    (k n : ℕ) → least k ≤ n → n < least (suc k) → length (format_int (pos n)) ≡ suc k
unfolding format_int
length-format_int k n lo hi =
    rw (format_nat-emit n (omega (arith, least_pos k)))
      (omega (arith, length-emit k (suc n) n [] lo hi))

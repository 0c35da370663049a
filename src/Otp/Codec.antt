-- ===== src/Otp/Codec.antt =====
-- internal/repository/otp/otp.go: an OTP as one line of text, and back.
use Prim.Native.Nat.{ℕ, ◌+◌, ◌-◌, ◌*◌, ◌<◌}
use go_project_example.Base.{
  List, [], ◌∷◌, ◌++◌, ◌≡◌, ◌≢◌, refl, none, some, Bytes, codes, ℤ, pos, negsuc, ◌*ℤ◌, floor_div,
  arith, length, Result, ok, err, ◌>>=◌,
}
use go_project_example.Text.{Lacks}
use go_project_example.Text.Parts.{
  split, split_whole, split-append, occurrences, occurrences-append, occurrences_of_lacks,
  length-split,
}
use go_project_example.Text.Decimal.{
  format_int, parse_int, IsInt64, parse_int-format_int, format_int-Lacks,
}
use go_project_example.Xerrors.{Error, message, backend}
use go_project_example.Otp.{Otp, second}

abbrev pub colon : ℕ
colon = b':'

-- `time.Time.Unix`, and `time.Unix(sec, 0)`
abbrev pub unix : ℤ → ℤ
unix t = floor_div t second

unfoldable pub from_unix : ℤ → ℤ
from_unix sec = sec *ℤ pos second

-- The zero `time.Time`, in year 1.
abbrev pub zero_time : ℤ
zero_time = negsuc (62135596800 * second - 1)

abbrev pub zero_otp : Otp
zero_otp = record {
  unique_id = [];
  action = pos 0;
  code = [];
  created_at = zero_time;
  expiry_time = pos 0;
  expired_at = zero_time;
  resend_time = pos 0;
  resendable_at = zero_time;
}

-- `conv.StringToInt64`; the error of `strconv.ParseInt` is a code.
abbrev pub num_error : Error
num_error = backend 1

unfoldable pub string_to_int64 : Bytes → Result Error ℤ
string_to_int64 s = elim (parse_int s) [ none ↦ err num_error | some n ↦ ok n ]

-- `flattenOTP`: the format "%s:%s:%d:%d:%d:%d"
unfoldable pub flatten_otp : Otp → Bytes
flatten_otp otp =
    otp.unique_id
    ++ colon
      ∷ (otp.code
          ++ colon
            ∷ (format_int otp.expiry_time
                ++ colon
                  ∷ (format_int (unix otp.expired_at)
                      ++ colon
                        ∷ (format_int otp.resend_time
                            ++ colon ∷ format_int (unix otp.resendable_at)))))

abbrev pub not_valid_format : Error
not_valid_format = message (codes "not a valid otp format")

unfoldable pub deflate_parts : List Bytes → Result Error Otp
unfolding from_unix
deflate_parts (unique_id ∷ code ∷ v₂ ∷ v₃ ∷ v₄ ∷ v₅ ∷ []) = do
  exp_time ← string_to_int64 v₂
  time_expire ← string_to_int64 v₃
  resend_time ← string_to_int64 v₄
  time_resend ← string_to_int64 v₅
  ok (record zero_otp {
    unique_id = unique_id;
    code = code;
    expiry_time = exp_time;
    expired_at = from_unix time_expire;
    resend_time = resend_time;
    resendable_at = from_unix time_resend;
  })
deflate_parts _ = err not_valid_format

-- `deflateOTP`
unfoldable pub deflate_otp : Bytes → Result Error Otp
unfolding deflate_parts
deflate_otp s = deflate_parts (split colon s)

-- The numbers of an OTP fit into an int64.
pub record IsPrintable (otp : Otp) : Type 0 where
  pub id_lacks : Lacks colon otp.unique_id
  pub code_lacks : Lacks colon otp.code
  pub expiry_fits : IsInt64 otp.expiry_time
  pub expired_fits : IsInt64 (unix otp.expired_at)
  pub resend_fits : IsInt64 otp.resend_time
  pub resendable_fits : IsInt64 (unix otp.resendable_at)

-- What is kept of an OTP: the times to the second, and neither the action nor the creation time.
abbrev pub kept : Otp → Otp
kept otp = record otp {
  action = pos 0;
  created_at = zero_time;
  expired_at = from_unix (unix otp.expired_at);
  resendable_at = from_unix (unix otp.resendable_at);
}

string_to_int64-format_int : (n : ℤ) → IsInt64 n → string_to_int64 (format_int n) ≡ ok n
unfolding string_to_int64
string_to_int64-format_int n h = rw (parse_int-format_int n h, string_to_int64)

split-flatten_otp :
    (otp : Otp)
    → IsPrintable otp
    → split colon (flatten_otp otp)
      ≡ otp.unique_id
        ∷ otp.code
        ∷ format_int otp.expiry_time
        ∷ format_int (unix otp.expired_at)
        ∷ format_int otp.resend_time
        ∷ format_int (unix otp.resendable_at)
        ∷ []
unfolding flatten_otp
split-flatten_otp otp p = rw (
  split-append colon otp.unique_id _ p.id_lacks,
  split-append colon otp.code _ p.code_lacks,
  split-append colon (format_int otp.expiry_time) _ (format_int-Lacks otp.expiry_time),
  split-append colon (format_int (unix otp.expired_at)) _ (format_int-Lacks (unix otp.expired_at)),
  split-append colon (format_int otp.resend_time) _ (format_int-Lacks otp.resend_time),
  split_whole colon (format_int (unix otp.resendable_at))
      (format_int-Lacks (unix otp.resendable_at)),
)

-- An OTP whose identifier and code hold no colon, and whose numbers are int64 values, is read back
-- from its line, apart from the action, the creation time and the fractions of a second.
pub deflate_otp-flatten_otp :
    (otp : Otp) → IsPrintable otp → deflate_otp (flatten_otp otp) ≡ ok (kept otp)
unfolding deflate_otp
deflate_otp-flatten_otp otp p = rw (
  split-flatten_otp otp p,
  string_to_int64-format_int otp.expiry_time p.expiry_fits,
  string_to_int64-format_int (unix otp.expired_at) p.expired_fits,
  string_to_int64-format_int otp.resend_time p.resend_fits,
  string_to_int64-format_int (unix otp.resendable_at) p.resendable_fits,
)

-- The length of the parts decides.
deflate_parts-length : (ps : List Bytes) → length ps ≢ 6 → deflate_parts ps ≡ err not_valid_format
unfolding deflate_parts
deflate_parts-length [] h = refl
deflate_parts-length (a ∷ []) h = refl
deflate_parts-length (a ∷ b ∷ []) h = refl
deflate_parts-length (a ∷ b ∷ c ∷ []) h = refl
deflate_parts-length (a ∷ b ∷ c ∷ d ∷ []) h = refl
deflate_parts-length (a ∷ b ∷ c ∷ d ∷ e ∷ []) h = refl
deflate_parts-length (a ∷ b ∷ c ∷ d ∷ e ∷ f ∷ []) h = absurd (h refl)
deflate_parts-length (a ∷ b ∷ c ∷ d ∷ e ∷ f ∷ g ∷ ps) h = refl

colons-format_int : (n : ℤ) → occurrences colon (format_int n) ≡ 0
colons-format_int n = occurrences_of_lacks colon (format_int n) (format_int-Lacks n)

colons-flatten_otp :
    (otp : Otp)
    → occurrences colon (flatten_otp otp)
      ≡ occurrences colon otp.unique_id + occurrences colon otp.code + 5
unfolding flatten_otp
colons-flatten_otp otp = omega (
  arith,
  occurrences-append colon otp.unique_id _,
  occurrences-append colon otp.code _,
  occurrences-append colon (format_int otp.expiry_time) _,
  occurrences-append colon (format_int (unix otp.expired_at)) _,
  occurrences-append colon (format_int otp.resend_time) _,
  colons-format_int otp.expiry_time,
  colons-format_int (unix otp.expired_at),
  colons-format_int otp.resend_time,
  colons-format_int (unix otp.resendable_at),
)

-- An OTP with a colon in its identifier or its code is stored as a line that is never read back.
pub deflate_otp-colon :
    (otp : Otp)
    → 0 < occurrences colon otp.unique_id + occurrences colon otp.code
    → deflate_otp (flatten_otp otp) ≡ err not_valid_format
unfolding deflate_otp
deflate_otp-colon otp h =
    deflate_parts-length (split colon (flatten_otp otp))
      (omega (arith, length-split colon (flatten_otp otp), colons-flatten_otp otp))

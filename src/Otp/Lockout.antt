-- ===== src/Otp/Lockout.antt =====
-- `Validate` of internal/usecase/otp/otp.go, called again and again with wrong codes.
use go_project_example.Base.{ℕ, ◌<◌, List, [], ◌∷◌, ◌≡◌, ◌≢◌, ◌⊎◌, Bytes, ℤ, ◌≤ℤ◌, ◌<ℤ◌}
use go_project_example.Otp.{OtpRepo, validate, threshold_otp_validate}
use go_project_example.Otp.Validating.{Account, judge, account_after}

-- Codes, each with the time it is sent at.
abbrev pub Tries : Type 0
Tries = List (Bytes × ℤ)

-- The clock goes on between two tries.
abbrev pub Ascending : ℤ → Tries → ℤ → Type 0
Ascending start [] now = start <ℤ now
Ascending start ((code, time) ∷ tries) now = (start <ℤ time) × Ascending time tries now

abbrev pub AllWrong : Bytes → Tries → Type 0
AllWrong right [] = Unit
AllWrong right ((code, time) ∷ tries) = (right ≢ code) × AllWrong right tries

-- Either the OTP is expired, or `k` wrong codes are counted and fewer than 10.
Counted : ℕ → ℤ → Account → Type 0
Counted k t a = (a.last.expired_at ≤ℤ t) ⊎ ((a.attempts ≡ k) × (k < threshold_otp_validate))

try : Bytes → ℤ → Account → Account
try code now a = account_after (judge code now a) now a

tries_after : Tries → Account → Account
tries_after [] a = a
tries_after ((code, time) ∷ tries) a = tries_after tries (try code time a)

module _ {S : Type 0} (repo : OtpRepo S) (unique_id : Bytes) (view : S → Account) where
  -- `Validate`, once for each try.
  unfoldable pub validate_all : Tries → S → S
  validate_all [] s = s
  validate_all ((code, time) ∷ tries) s = validate_all tries (validate repo unique_id code time s).0

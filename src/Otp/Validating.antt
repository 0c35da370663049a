-- ===== src/Otp/Validating.antt =====
-- `Validate` of internal/usecase/otp/otp.go, over a repository that keeps what `otpRepo` promises.
use go_project_example.Base.{ℕ, suc, ◌≡◌, if◌then◌else◌, Bytes, ℤ, pos, ltb_ℤ}
use go_project_example.Text.{bytes_eq}
use go_project_example.Effects.{Outcome, ok, err}
use go_project_example.Otp.{
  Otp, OtpRepo, expire_now, new_error, err_otp_invalid, err_otp_expired, threshold_otp_validate,
  divides,
}

-- What is stored for one user: the last OTP and the number of wrong codes.
pub record Account : Type 0 where
  pub last : Otp
  pub attempts : ℕ

-- A repository that stores an account for the user.
pub record IsLawful {S : Type 0} (repo : OtpRepo S) (unique_id : Bytes) (view : S → Account)
    : Type 0 where
  pub gets : (s : S) → repo.get_last unique_id s ≡ (s, ok (view s).last)
  pub increases :
      (s : S)
      → (s' : S) × (repo.increase_validate_attempt unique_id (pos 1) s
          ≡ (s', ok (pos (suc (view s).attempts))))
        × (view s' ≡ record { last = (view s).last; attempts = suc (view s).attempts })
  pub sets :
      (s : S) (otp : Otp)
      → (s' : S) × (repo.set_last otp s ≡ (s', ok tt))
        × (view s' ≡ record { last = otp; attempts = (view s).attempts })
  pub resets :
      (s : S)
      → (s' : S) × (repo.delete_validate_attempt unique_id s ≡ (s', ok tt))
        × (view s' ≡ record { last = (view s).last; attempts = 0 })

-- What one try does to an account.
pub data Verdict : Type 0 where
  granted : Verdict
  expired : Verdict
  wrong : Verdict

unfoldable pub judge : Bytes → ℤ → Account → Verdict
judge code now a =
    if ltb_ℤ a.last.expired_at now
    then expired
    else if bytes_eq a.last.code code
    then granted
    else wrong

unfoldable pub account_after : Verdict → ℤ → Account → Account
account_after granted now a = record { last = a.last; attempts = 0 }
account_after expired now a = a
account_after wrong now a = record {
  last =
      if divides threshold_otp_validate (pos (suc a.attempts))
      then expire_now now a.last
      else a.last;
  attempts = suc a.attempts;
}

abbrev pub reply : Verdict → Outcome (Unit {0})
reply granted = ok tt
reply expired = err (new_error err_otp_expired)
reply wrong = err (new_error err_otp_invalid)

-- ===== src/Otp/Repository.antt =====
-- internal/repository/otp/otp.go: the OTPs of a user and an action as a list of lines in Redis, the
-- last one first.
--
-- The constants `keyOTP`, `keyValidateAttempt` and `durationExpireVAlidateAttempt` are declared
-- nowhere in the repository: the keys and the duration are parameters.
use go_project_example.Base.{[], ◌∷◌, Bytes, ℤ, pos, Result}
use go_project_example.Xerrors.{Error}
use go_project_example.Effects.{M, return, throw, ◌>>=◌}
use go_project_example.Redis.{text, Client}
use go_project_example.Redis.Keys.{expire, increment_by, delete}
use go_project_example.Redis.Lists.{lpush, lset, lindex, llen}
use go_project_example.Otp.{Otp, otp_key_expiry}
use go_project_example.Otp.Codec.{flatten_otp, deflate_otp}

-- `generateOtpKey`, `generateOtpValidateAttemptKey` and the duration of the second key.
pub record Names : Type 0 where
  pub otp_key : Bytes → ℤ → Bytes
  pub attempt_key : Bytes → Bytes
  pub attempt_expiry : ℤ

abbrev pub of_result {ℓ} : {S : Type 0} {A : Type ℓ} → Result Error A → M S A
of_result (Result.ok a) = return a
of_result (Result.err e) = throw e

module _ {S : Type 0} (client : Client S) (names : Names) where
  -- `Save`; the duration of 24 hours is passed as nanoseconds to a command that reads seconds.
  unfoldable pub save : Otp → M S (Unit {0})
  save otp = do
    pushed ← lpush client (names.otp_key otp.unique_id otp.action) (text (flatten_otp otp) ∷ [])
    expired ← expire client (names.otp_key otp.unique_id otp.action) otp_key_expiry
    return tt

  unfoldable pub set_last : Otp → M S (Unit {0})
  set_last otp = do
    replied ← lset client (names.otp_key otp.unique_id otp.action) (flatten_otp otp) (pos 0)
    return tt

  unfoldable pub get_last : Bytes → ℤ → M S Otp
  get_last unique_id action = do
    result ← lindex client (names.otp_key unique_id action) (pos 0)
    of_result (deflate_otp result)

  unfoldable pub len : Bytes → ℤ → M S ℤ
  len unique_id action = llen client (names.otp_key unique_id action)

  unfoldable pub increase_validate_attempt : Bytes → ℤ → M S ℤ
  increase_validate_attempt unique_id amount = do
    result ← increment_by client (names.attempt_key unique_id) amount
    expired ← expire client (names.attempt_key unique_id) names.attempt_expiry
    return result

  unfoldable pub delete_validate_attempt : Bytes → M S (Unit {0})
  delete_validate_attempt unique_id = do
    deleted ← delete client (names.attempt_key unique_id)
    return tt

  unfoldable pub delete_all : Bytes → ℤ → M S (Unit {0})
  delete_all unique_id action = do
    deleted ← delete client (names.otp_key unique_id action)
    return tt

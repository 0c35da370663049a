-- ===== src/Otp.antt =====
-- internal/entity/otp and internal/usecase/otp/otp.go: one-time passwords.
--
-- Times are nanoseconds since the Unix epoch, durations are nanoseconds; the clock's value and the
-- random number are arguments. `xerrors.New(e)` is known by the error that it wraps.
pub mod Codec
pub mod Generator
pub mod Creating
pub mod Usage
pub mod Validating
pub mod Lockout
pub mod Repository
pub mod Stored
mod Tests
use Prim.Native.Nat.{ℕ, zero, suc, ◌+◌, ◌*◌, ◌-◌, ◌%◌}
use go_project_example.Base.{
  Bool, true, false, ◌||◌, List, [], ◌∷◌, none, Option, some, ltb, ◌==◌, if◌then◌else◌, Bytes,
  codes, ℤ, pos, ◌+ℤ◌, ltb_ℤ, eqb_ℤ, pos_part, neg_part,
}
use go_project_example.Text.{bytes_eq}
use go_project_example.Text.Decimal.{format_int}
use go_project_example.Xerrors.{Error, sentinel, with_op}
use go_project_example.Effects.{
  Outcome, ok, err, panic, M, return, throw, crash, ◌>>=◌, ◌>>◌, continue,
}

pub record Otp : Type 0 where
  pub unique_id : Bytes
  pub action : ℤ
  pub code : Bytes
  pub created_at : ℤ
  pub expiry_time : ℤ
  pub expired_at : ℤ
  pub resend_time : ℤ
  pub resendable_at : ℤ

abbrev pub second : ℕ
second = 1000000000

abbrev pub minute : ℕ
minute = 60 * second

abbrev pub hour : ℕ
hour = 60 * minute

abbrev pub threshold_otp_resend : ℕ
threshold_otp_resend = 3

abbrev pub threshold_otp_validate : ℕ
threshold_otp_validate = 10

abbrev pub otp_key_expiry : ℤ
otp_key_expiry = pos (hour * 24)

abbrev pub expiry_time_default : ℤ
expiry_time_default = pos (minute * 4)

abbrev pub resend_time_default : ℤ
resend_time_default = pos (second * 90)

abbrev pub resend_time_after_threshold : ℤ
resend_time_after_threshold = pos (minute * 30)

abbrev pub resend_time_max : ℤ
resend_time_max = pos (hour * 24)

abbrev pub err_code_length_invalid : Error
err_code_length_invalid = sentinel (codes "otp: code length is invalid")

abbrev pub err_otp_invalid : Error
err_otp_invalid = sentinel (codes "otp: password invalid")

abbrev pub err_otp_expired : Error
err_otp_expired = sentinel (codes "otp: otp already expired")

abbrev pub err_otp_not_resendable : Error
err_otp_not_resendable = sentinel (codes "otp: not resendable")

-- What `xerrors.New(e)` holds, with no operation.
abbrev pub new_error : Error → Error
new_error e = with_op e [] none

-- `CodeLength.Validate`
unfoldable pub validate_length : ℕ → Option Error
validate_length n = if ltb n 4 || ltb 6 n then some err_code_length_invalid else none

-- `IsResendable`
unfoldable pub is_resendable : ℤ → Otp → Bool
is_resendable now otp =
    if bytes_eq otp.code [] then true else if ltb_ℤ now otp.resendable_at then false else true

-- `n % d == 0`
abbrev pub divides : ℕ → ℤ → Bool
divides d n = (pos_part n + neg_part n) % d == 0

-- `otpRepo`
pub record OtpRepo (S : Type 0) : Type 0 where
  pub save : Otp → M S (Unit {0})
  pub set_last : Otp → M S (Unit {0})
  pub get_last : Bytes → M S Otp
  pub len : Bytes → M S ℤ
  pub increase_validate_attempt : Bytes → ℤ → M S ℤ
  pub delete_validate_attempt : Bytes → M S (Unit {0})
  pub delete_all : Bytes → M S (Unit {0})

-- `rw.min + rw.randgen.Intn(rw.max - rw.min)`, of a number that `Intn` draws from.
unfoldable pub generate : ℕ → ℕ → ℕ → ℕ
generate low high draw = low + draw % (high - low)

-- `u.rgen[codeLength].Generate()`: the map has a generator for the lengths 4 and 6; at another key
-- it gives a nil pointer, which `Generate` reads.
unfoldable pub generate_code : ℕ → ℕ → Option Bytes
unfolding generate
generate_code code_length draw =
    if code_length == 4
    then some (format_int (pos (generate 1000 9999 draw)))
    else if code_length == 6
    then some (format_int (pos (generate 100000 999999 draw)))
    else none

abbrev pub new_otp : Bytes → Bytes → ℤ → ℤ → ℤ → Otp
new_otp unique_id code now expire duration = record {
  unique_id = unique_id;
  action = pos 0;
  code = code;
  created_at = now;
  expiry_time = expire;
  expired_at = now +ℤ expire;
  resend_time = resend_time_default;
  resendable_at = now +ℤ duration;
}

abbrev pub or_default : ℤ → ℤ
or_default expire = if eqb_ℤ expire (pos 0) then expiry_time_default else expire

abbrev pub expire_now : ℤ → Otp → Otp
expire_now now otp = record otp {
  expiry_time = pos 0;
  expired_at = now;
  resend_time = resend_time_max;
  resendable_at = now +ℤ resend_time_max;
}

module _ {S : Type 0} (repo : OtpRepo S) where
  fail_if : Option Error → M S (Unit {0})
  fail_if none = return tt
  fail_if (some e) = throw e

  or_crash : Option Bytes → M S Bytes
  or_crash none = crash
  or_crash (some code) = return code

  -- The part of `Create` for a last OTP that exists: how long the next one is not resendable.
  unfoldable pub resend_duration : Bytes → ℤ → Otp → M S ℤ
  resend_duration unique_id now last =
      if bytes_eq last.code []
      then return resend_time_default
      else if ltb_ℤ now last.resendable_at
      then throw (new_error err_otp_not_resendable)
      else (repo.len unique_id >>= λ otp_len. return (
          if divides threshold_otp_resend otp_len
          then resend_time_after_threshold
          else resend_time_default))

  -- `Create`, of the random number and the time of the clock
  unfoldable pub create : Bytes → ℕ → ℤ → ℕ → ℤ → M S Otp
  unfolding fail_if or_crash resend_duration generate_code validate_length
  create unique_id code_length expire draw now = do
    fail_if (validate_length code_length)
    code ← or_crash (generate_code code_length draw)
    last ← repo.get_last unique_id
    duration ← resend_duration unique_id now last
    let otp = new_otp unique_id code now (or_default expire) duration
    repo.save otp
    return otp

  -- The part of `Validate` for a wrong code.
  unfoldable pub refuse : Bytes → ℤ → Otp → M S (Unit {0})
  refuse unique_id now otp = do
    attempt ← repo.increase_validate_attempt unique_id (pos 1)
    repo.set_last (if divides threshold_otp_validate attempt then expire_now now otp else otp)
    throw (new_error err_otp_invalid)

  unfoldable pub check_code : Bytes → Bytes → ℤ → Otp → M S (Unit {0})
  unfolding refuse
  check_code unique_id otp_code now otp =
      if ltb_ℤ otp.expired_at now
      then throw (new_error err_otp_expired)
      else if bytes_eq otp.code otp_code
      then repo.delete_validate_attempt unique_id
      else refuse unique_id now otp

  -- `Validate`
  unfoldable pub validate : Bytes → Bytes → ℤ → M S (Unit {0})
  unfolding check_code
  validate unique_id otp_code now = do
    otp ← repo.get_last unique_id
    check_code unique_id otp_code now otp

  -- `Delete`
  unfoldable pub delete : Bytes → M S (Unit {0})
  delete unique_id = repo.delete_all unique_id

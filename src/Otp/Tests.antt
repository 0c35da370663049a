-- ===== src/Otp/Tests.antt =====
-- One-time passwords of one user, with a repository in memory and with a Redis server that has one
-- list and one counter.
use go_project_example.Base.{
  ℕ, suc, ◌*◌, Result, false, List, [], ◌∷◌, ◌++◌, ◌≡◌, ◌⊎◌, inr, refl, arith, Bytes, codes, ℤ, pos,
  ◌*ℤ◌, floor_div, ◌==◌, Option, none, some, ◌≢◌, length, if◌then◌else◌,
}
use go_project_example.Text.{bytes_eq}
use go_project_example.Xerrors.{Error, backend}
use go_project_example.Effects.{ok, err, M, return}
use go_project_example.Redis.{Arg, text, int, Command, Client}
use go_project_example.Otp.{Otp, OtpRepo, create, validate, generate_code, second}
use go_project_example.Otp.Codec.{
  zero_otp, from_unix, flatten_otp, deflate_otp, IsPrintable, kept, not_valid_format,
  deflate_otp-flatten_otp, deflate_otp-colon,
}
use go_project_example.Otp.Generator.{generate_code-length}
use go_project_example.Otp.Validating.{Account}
use go_project_example.Otp.Lockout.{Tries}
use go_project_example.Otp.Creating.{Answers}
use go_project_example.Otp.Repository.{Names}
use go_project_example.Otp.Stored.{at_action, create_first, validate_lset}

abbrev user : Bytes
user = codes "u1"

abbrev otp : Otp
otp = record zero_otp {
  unique_id = user;
  code = codes "4711";
  expiry_time = pos (240 * second);
  expired_at = pos (1240 * second);
  resend_time = pos (90 * second);
  resendable_at = pos (1090 * second);
}

otp-IsPrintable : IsPrintable otp
unfolding floor_div
otp-IsPrintable = record {
  id_lacks = ground arith;
  code_lacks = ground arith;
  expiry_fits = ground arith;
  expired_fits = ground (arith, floor_div);
  resend_fits = ground arith;
  resendable_fits = ground (arith, floor_div);
}

-- The repository keeps one account.
abbrev memory : OtpRepo Account
memory = record {
  save = λ o a. (record { last = o; attempts = a.attempts }, ok tt);
  set_last = λ o a. (record { last = o; attempts = a.attempts }, ok tt);
  get_last = λ id a. (a, ok a.last);
  len = λ id a. (a, ok (pos 3));
  increase_validate_attempt =
      λ id n a. (record { last = a.last; attempts = suc a.attempts }, ok (pos (suc a.attempts)));
  delete_validate_attempt = λ id a. (record { last = a.last; attempts = 0 }, ok tt);
  delete_all = λ id a. (a, ok tt);
}

abbrev account : Account
account = record { last = otp; attempts = 0 }

deflate_otp-flatten_otp_example : deflate_otp (flatten_otp otp) ≡ Result.ok (kept otp)
deflate_otp-flatten_otp_example = deflate_otp-flatten_otp otp otp-IsPrintable

abbrev colon_otp : Otp
colon_otp = record otp { unique_id = codes "u:1" }

colon_otp_refused : deflate_otp (flatten_otp colon_otp) ≡ Result.err not_valid_format
colon_otp_refused = deflate_otp-colon colon_otp (ground arith)

abbrev four : ℕ
four = 4

drawn_code :
    ((four ≡ 4) ⊎ (four ≡ 6)
      → (code : Bytes) × (generate_code four 8998 ≡ some code) × (length code ≡ 4))
    × (four ≢ 4 → four ≢ 6 → generate_code four 8998 ≡ none)
drawn_code = generate_code-length four 8998

abbrev guesses : Tries
guesses =
    (codes "0000", pos 1)
    ∷ (codes "0001", pos 2)
    ∷ (codes "0002", pos 3)
    ∷ (codes "0003", pos 4)
    ∷ (codes "0004", pos 5)
    ∷ (codes "0005", pos 6)
    ∷ (codes "0006", pos 7)
    ∷ (codes "0007", pos 8)
    ∷ (codes "0008", pos 9)
    ∷ (codes "0009", pos 10)
    ∷ []

answers : Answers memory user account
answers = record {
  last = otp;
  count = pos 3;
  saved = λ o. record { last = o; attempts = 0 };
  gets = refl;
  counts = refl;
  saves = λ o. refl;
}

-- A server with one list of at most one line and one counter.
pub record Server : Type 0 where
  pub line : Option Bytes
  pub counter : ℕ

abbrev no_reply : Error
no_reply = backend 1

abbrev wrong_number : Error
wrong_number = backend 2

abbrev push : List Arg → M Server ℤ
push (text key ∷ text value ∷ []) s =
    (record { line = some value; counter = s.counter }, ok (pos 1))
push _ s = (s, err wrong_number)

abbrev put : List Arg → M Server ℤ
put (text key ∷ int index ∷ text value ∷ []) s =
    (record { line = some value; counter = s.counter }, ok (pos 0))
put _ s = (s, err wrong_number)

abbrev count_up : M Server ℤ
count_up s = (record { line = s.line; counter = suc s.counter }, ok (pos (suc s.counter)))

abbrev first_line : M Server Bytes
first_line s = elim s.line [ none ↦ (s, err no_reply) | some l ↦ (s, ok l) ]

unfoldable answer : Command → M Server ℤ
unfolding bytes_eq
answer c =
    if bytes_eq c.name (codes "LPUSH")
    then push c.args
    else if bytes_eq c.name (codes "LSET")
    then put c.args
    else if bytes_eq c.name (codes "INCRBY")
    then count_up
    else return (pos 1)

abbrev server : Client Server
unfolding answer
server = record {
  do_string = λ c. first_line;
  do_strings = λ c. return [];
  do_int = answer;
  is_err_nil = λ e. elim e [ backend n ↦ n == 1 | _ ↦ false ];
}

abbrev names : Names
names = record {
  otp_key = λ id action. codes "otp:" ++ id;
  attempt_key = λ id. codes "otp_attempt:" ++ id;
  attempt_expiry = pos 60;
}

abbrev empty_server : Server
empty_server = record { line = none; counter = 0 }

create_first_example :
    create (at_action server names (pos 0)) user 6 (pos 0) 5 (pos 7) empty_server
    ≡ (empty_server, err no_reply)
unfolding server
create_first_example =
    create_first server names (pos 0) user 6 5 (pos 0) (pos 7) empty_server no_reply (inr refl) refl

abbrev otp_server : Server
otp_server = record { line = some (flatten_otp otp); counter = 0 }

abbrev counted_server : Server
counted_server = record { line = some (flatten_otp otp); counter = 1 }

validate_lset_example :
    validate (at_action server names (pos 0)) user (codes "0000") (pos 7) otp_server
    ≡ (counted_server, err wrong_number)
unfolding answer from_unix ◌*ℤ◌ floor_div
validate_lset_example =
    validate_lset server names (pos 0) otp user (codes "0000") (pos 7) otp_server counted_server
      counted_server (pos 1) (pos 1) wrong_number otp-IsPrintable refl refl (ground arith) refl refl
      (λ line. refl)

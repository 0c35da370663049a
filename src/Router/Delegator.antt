-- ===== src/Router/Delegator.antt =====
-- internal/pkg/http/monitoring/monitoring.go: the response writer that counts.
--
-- The writer below is known by the calls that it gets, the last one first, and by how many bytes of a
-- body it takes. The count `written` is an int64, kept by its 64 bits.
use go_project_example.Base.{
  ℕ, ◌+◌, ◌%◌, ◌^◌, Bool, true, false, List, [], ◌∷◌, ◌≡◌, refl, arith, if◌then◌else◌,
}

pub data Call : Type 0 where
  header : ℕ → Call
  body : ℕ → Call

pub record Delegator : Type 0 where
  pub status : ℕ
  pub written : ℕ
  pub wrote_header : Bool
  pub calls : List Call

-- `NewResponseWriterDelegator`
abbrev pub new_delegator : Delegator
new_delegator = record { status = 0; written = 0; wrote_header = false; calls = [] }

-- `WriteHeader`
unfoldable pub write_header : ℕ → Delegator → Delegator
write_header code d = if d.wrote_header then d else record {
  status = code;
  written = d.written;
  wrote_header = true;
  calls = header code ∷ d.calls;
}

-- `Write`, of a body of which the writer below takes `taken` bytes.
unfoldable pub write : ℕ → Delegator → Delegator
unfolding write_header
write taken d =
    let d₁ = if d.wrote_header then d else write_header 200 d in
    record d₁ { written = (d₁.written + taken) % 2 ^ 64; calls = body taken ∷ d₁.calls }

pub data Use : Type 0 where
  use_header : ℕ → Use
  use_write : ℕ → Use

unfoldable pub step : Delegator → Use → Delegator
unfolding write
step d (use_header code) = write_header code d
step d (use_write taken) = write taken d

unfoldable pub run : Delegator → List Use → Delegator
unfolding step
run d [] = d
run d (u ∷ us) = run (step d u) us

-- The bytes that the calls took.
abbrev pub taken_by : List Call → ℕ
taken_by [] = 0
taken_by (header code ∷ cs) = taken_by cs
taken_by (body n ∷ cs) = taken_by cs + n

-- One header, before every body: the calls, the last one first, are bodies and then the header.
abbrev pub StartsWith : ℕ → List Call → Type 0
StartsWith code [] = ⊥
StartsWith code (header c ∷ []) = c ≡ code
StartsWith code (header c ∷ _ ∷ cs) = ⊥
StartsWith code (body n ∷ cs) = StartsWith code cs

abbrev pub IsFaithful : Delegator → Type 0
IsFaithful d =
    (d.written ≡ taken_by d.calls % 2 ^ 64)
    × (if d.wrote_header then StartsWith d.status d.calls else (d.status ≡ 0) × (d.calls ≡ []))

-- The same, by whether a header was written.
step-IsFaithful :
    (status written : ℕ) (wrote : Bool) (calls : List Call) (u : Use)
    → let d : Delegator = record {
      status = status;
      written = written;
      wrote_header = wrote;
      calls = calls;
    } in
      IsFaithful d → IsFaithful (step d u)
unfolding step write write_header
step-IsFaithful status written true calls (use_header code) f = f
step-IsFaithful status written true calls (use_write taken) f = (omega (arith, f.0), f.1)
step-IsFaithful status written false calls (use_header code) (w, (z, c)) = (w, rw c refl)
step-IsFaithful status written false calls (use_write taken) (w, (z, c)) =
    (omega (arith, w), rw c refl)

run-IsFaithful_from : (d : Delegator) (us : List Use) → IsFaithful d → IsFaithful (run d us)
unfolding run
run-IsFaithful_from d [] f = f
run-IsFaithful_from d (u ∷ us) f =
    run-IsFaithful_from (step d u) us
      (step-IsFaithful d.status d.written d.wrote_header d.calls u f)

-- After any sequence of calls the writer below has got nothing, or one header, before every body,
-- with the status that `Status` gives, and `Written` is the number of bytes that it took, in 64
-- bits.
pub run-IsFaithful : (us : List Use) → IsFaithful (run new_delegator us)
run-IsFaithful us = run-IsFaithful_from new_delegator us (refl, (refl, refl))

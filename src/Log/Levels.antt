-- ===== src/Log/Levels.antt =====
-- internal/pkg/log/logger/logger.go: the texts of the levels against the numbers that the backends
-- read.
use go_project_example.Base.{
  ◌≡◌, refl, arith, true, inl, inr, ℤ, pos, negsuc, eqb_ℤ, ℕ, zero, suc, List, [], ◌∷◌, eq_of_parts,
  inl, inr, Bool-cases,
}
use go_project_example.Text.{bytes_eq}
use go_project_example.Text.Case.{to_lower}
use go_project_example.Log.{
  Level, Config, with_time_format, string_to_level, level_to_string, severity_of, in_range,
  Severity,
}

-- A level is one of the five, or above all of them, or below.
data Seen : Level → Type 0 where
  is_debug : Seen (pos 0)
  is_info : Seen (pos 1)
  is_warn : Seen (pos 2)
  is_error : Seen (pos 3)
  is_fatal : Seen (pos 4)
  is_over : (n : ℕ) → Seen (pos (suc (suc (suc (suc (suc n))))))
  is_under : (n : ℕ) → Seen (negsuc n)

seen : (l : Level) → Seen l
seen (pos zero) = is_debug
seen (pos (suc zero)) = is_info
seen (pos (suc (suc zero))) = is_warn
seen (pos (suc (suc (suc zero)))) = is_error
seen (pos (suc (suc (suc (suc zero))))) = is_fatal
seen (pos (suc (suc (suc (suc (suc n)))))) = is_over n
seen (negsuc n) = is_under n

string_to_level-Seen : {l : Level} → Seen l → string_to_level (level_to_string l) ≡ in_range l
unfolding string_to_level level_to_string in_range bytes_eq to_lower
string_to_level-Seen is_debug = refl
string_to_level-Seen is_info = refl
string_to_level-Seen is_warn = refl
string_to_level-Seen is_error = refl
string_to_level-Seen is_fatal = refl
string_to_level-Seen (is_over n) = ground arith
string_to_level-Seen (is_under n) = ground arith

-- Printing a level and reading it back gives the level that `SetLevel` makes of it: the level itself
-- if it is one of the five constants, and the info level otherwise.
string_to_level-level_to_string : (l : Level) → string_to_level (level_to_string l) ≡ in_range l
string_to_level-level_to_string l = string_to_level-Seen (seen l)

severity_of-Seen : {l : Level} → Seen l → severity_of (in_range l) ≡ severity_of l
unfolding severity_of in_range
severity_of-Seen is_debug = refl
severity_of-Seen is_info = refl
severity_of-Seen is_warn = refl
severity_of-Seen is_error = refl
severity_of-Seen is_fatal = refl
severity_of-Seen (is_over n) = ground arith
severity_of-Seen (is_under n) = ground arith

pub severity_of-in_range : (l : Level) → severity_of (in_range l) ≡ severity_of l
severity_of-in_range l = severity_of-Seen (seen l)

-- `SetLevel` called with one level after the other.
abbrev pub set_all {ℓ} : {L : Type ℓ} → (Level → L → L) → List Level → L → L
set_all set [] l = l
set_all set (v ∷ vs) l = set_all set vs (set v l)

-- The level that was set last, or the one at the start.
abbrev pub last_level : Level → List Level → Level
last_level v [] = v
last_level v (u ∷ us) = last_level u us

-- Where the level of a backend's native logger is read from.
pub record Leveled {ℓ} (L : Type ℓ) : Type ℓ where
  pub set : Level → L → L
  pub threshold : L → Severity
  pub level : L → Level

-- The native logger has the level of the configuration.
abbrev pub IsInStep {ℓ} : {L : Type ℓ} → Leveled L → L → Type 0
IsInStep b l = b.threshold l ≡ severity_of (b.level l)

module _ {ℓ} {L : Type ℓ} (b : Leveled L)
    (step : (v : Level) (l : L) → IsInStep b l → b.threshold (b.set v l) ≡ severity_of v)
    (stay : (v : Level) (l : L) → IsInStep b l → IsInStep b (b.set v l)) where
  pub set_all-threshold :
      (vs : List Level) (l : L)
      → IsInStep b l
      → b.threshold (set_all b.set vs l) ≡ severity_of (last_level (b.level l) vs)
  set_all-threshold [] l h = h
  set_all-threshold (v ∷ []) l h = step v l h
  set_all-threshold (v ∷ u ∷ us) l h = set_all-threshold (u ∷ us) (b.set v l) (stay v l h)

pub eq_of_eqb : (a b : ℤ) → eqb_ℤ a b ≡ true → a ≡ b
eq_of_eqb a b h = eq_of_parts a b (ground arith)

pub level-with_time_format : (c : Config) → (with_time_format c).level ≡ c.level
level-with_time_format c = elim (Bool-cases (bytes_eq c.time_format [])) [
  | inl e ↦ rw e refl
  | inr e ↦ rw e refl
]

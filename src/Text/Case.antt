-- ===== src/Text/Case.antt =====
-- Go's `strings.ToLower` and `strings.ToUpper`, over the ASCII letters.
use go_project_example.Base.{
  ℕ, ◌+◌, ◌-◌, ◌≡◌, refl, ◌&&◌, [], ◌∷◌, arith, leb, Bytes, if◌then◌else◌, map,
}

unfoldable lower_byte : ℕ → ℕ
lower_byte c = if leb b'A' c && leb c b'Z' then c + 32 else c

unfoldable upper_byte : ℕ → ℕ
upper_byte c = if leb b'a' c && leb c b'z' then c - 32 else c

unfoldable pub to_lower : Bytes → Bytes
unfolding lower_byte
to_lower s = map lower_byte s

unfoldable pub to_upper : Bytes → Bytes
unfolding upper_byte
to_upper s = map upper_byte s

pub to_lower-to_lower : (s : Bytes) → to_lower (to_lower s) ≡ to_lower s
unfolding to_lower lower_byte
to_lower-to_lower [] = refl
to_lower-to_lower (c ∷ s) = ground (arith, to_lower-to_lower s)

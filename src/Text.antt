-- ===== src/Text.antt =====
-- Go's `strings` and `strconv`, as far as the program calls them, over byte lists.
pub mod Parts
pub mod Decimal
pub mod Paths
pub mod Case
pub mod Maps
use go_project_example.Base.{
  ℕ, Bool, true, false, ◌&&◌, List, [], ◌∷◌, ◌≡◌, ◌≢◌, refl, ap, ◌↔◌, arith, ◌==◌, ==_iff, Bytes,
  All, if◌then◌else◌,
}

-- `a == b` on strings.
unfoldable pub bytes_eq : Bytes → Bytes → Bool
bytes_eq [] [] = true
bytes_eq (a ∷ s) (b ∷ t) = if a == b then bytes_eq s t else false
bytes_eq _ _ = false

pub bytes_eq_self : (s : Bytes) → bytes_eq s s ≡ true
unfolding bytes_eq
bytes_eq_self [] = refl
bytes_eq_self (a ∷ s) = ground (arith, bytes_eq_self s)

pub eq_of_bytes_eq : (s t : Bytes) → bytes_eq s t ≡ true → s ≡ t
unfolding bytes_eq
eq_of_bytes_eq [] [] h = refl
eq_of_bytes_eq [] (b ∷ t) h = cc
eq_of_bytes_eq (a ∷ s) [] h = cc
eq_of_bytes_eq (a ∷ s) (b ∷ t) h = ground (arith, eq_of_bytes_eq s t)

pub bytes_eq_iff : (s t : Bytes) → (bytes_eq s t ≡ true) ↔ (s ≡ t)
bytes_eq_iff s t = (eq_of_bytes_eq s t, λ e. rw e (bytes_eq_self t))

pub bytes_eq_ne : (s t : Bytes) → s ≢ t → bytes_eq s t ≡ false
bytes_eq_ne s t h = ground (arith, eq_of_bytes_eq s t)

abbrev pub Lacks : ℕ → Bytes → Type 0
Lacks b = All (λ c. c ≢ b)

-- ===== src/Text/Parts.antt =====
-- `strings.Split` and `strings.Join` with a separator of one byte.
use go_project_example.Base.{
  ℕ, suc, ◌+◌, List, [], ◌∷◌, ◌++◌, ◌≡◌, ◌≢◌, refl, arith, ◌==◌, Bytes, All, if◌then◌else◌, length,
}

push : ℕ → List Bytes → List Bytes
push c [] = (c ∷ []) ∷ []
push c (p ∷ ps) = (c ∷ p) ∷ ps

unfoldable pub split : ℕ → Bytes → List Bytes
unfolding push
split sep [] = [] ∷ []
split sep (c ∷ s) = let rest = split sep s in if c == sep then [] ∷ rest else push c rest

unfoldable pub join : ℕ → List Bytes → Bytes
join sep [] = []
join sep (p ∷ []) = p
join sep (p ∷ q ∷ ps) = p ++ sep ∷ join sep (q ∷ ps)

-- A text without the separator is one part.
pub split_whole : (sep : ℕ) (p : Bytes) → All (λ c. c ≢ sep) p → split sep p ≡ p ∷ []
unfolding split
split_whole sep [] h = refl
split_whole sep (c ∷ p) h = ground (arith, split_whole sep p h.1)

-- The first part ends at the first separator.
pub split-append :
    (sep : ℕ) (p s : Bytes) → All (λ c. c ≢ sep) p → split sep (p ++ sep ∷ s) ≡ p ∷ split sep s
unfolding split
split-append sep [] s h = ground arith
split-append sep (c ∷ p) s h = ground (arith, split-append sep p s h.1)

pub split-ne-nil : (sep : ℕ) (s : Bytes) → split sep s ≢ []
unfolding split
split-ne-nil sep [] h = cc
split-ne-nil sep (c ∷ s) h = ground (arith, split-ne-nil sep s)

-- How often a byte stands in a text.
abbrev pub occurrences : ℕ → Bytes → ℕ
occurrences b [] = 0
occurrences b (c ∷ s) = let n = occurrences b s in if c == b then suc n else n

length-push : (c : ℕ) (ps : List Bytes) → ps ≢ [] → length (push c ps) ≡ length ps
unfolding push
length-push c [] h = absurd (h refl)
length-push c (p ∷ ps) h = refl

-- There is one part more than there are separators.
pub length-split : (sep : ℕ) (s : Bytes) → length (split sep s) ≡ suc (occurrences sep s)
unfolding split
length-split sep [] = refl
length-split sep (c ∷ s) =
    ground (arith, length-split sep s, length-push c (split sep s) (split-ne-nil sep s))

pub occurrences-append :
    (b : ℕ) (s t : Bytes) → occurrences b (s ++ t) ≡ occurrences b s + occurrences b t
occurrences-append b [] t = omega arith
occurrences-append b (c ∷ s) t = ground (arith, occurrences-append b s t)

pub occurrences_of_lacks : (b : ℕ) (s : Bytes) → All (λ c. c ≢ b) s → occurrences b s ≡ 0
occurrences_of_lacks b [] h = refl
occurrences_of_lacks b (c ∷ s) h = ground (arith, occurrences_of_lacks b s h.1)

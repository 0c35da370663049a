-- ===== src/Effects.antt =====
-- A Go method over the state of the outside: it returns a value or an error, or panics. A `return`
-- of an error or a panic keeps what was done before.
use go_project_example.Xerrors.{Error}

pub data Outcome {ℓ} (A : Type ℓ) : Type ℓ where
  ok : A → Outcome A
  err : Error → Outcome A
  panic : Outcome A

abbrev pub M {ℓ} : Type 0 → Type ℓ → Type ℓ
M S A = S → S × Outcome A

module _ {ℓ κ} {S : Type 0} {A : Type ℓ} {B : Type κ} where
  abbrev pub continue : (A → M S B) → S × Outcome A → S × Outcome B
  continue f (s, ok a) = f a s
  continue f (s, err e) = (s, err e)
  continue f (s, panic) = (s, panic)

  infixl 5 ◌>>=◌
  abbrev pub ◌>>=◌ : M S A → (A → M S B) → M S B
  ◌>>=◌ m f s = continue f (m s)

module _ {ℓ} {S : Type 0} {B : Type ℓ} where
  infixl 5 ◌>>◌
  abbrev pub ◌>>◌ : M S (Unit {0}) → M S B → M S B
  ◌>>◌ m k = m >>= λ _. k

module _ {ℓ} {S : Type 0} {A : Type ℓ} where
  abbrev pub return : A → M S A
  return a s = (s, ok a)

  abbrev pub throw : Error → M S A
  throw e s = (s, err e)

  abbrev pub crash : M S A
  crash s = (s, panic)

module _ {ℓ κ} {S : Type 0} {A : Type ℓ} (P : A → Type κ) where
  -- What is returned without an error has `P`.
  abbrev pub Gives : S × Outcome A → Type κ
  Gives (s, ok a) = P a
  Gives (s, err e) = Unit
  Gives (s, panic) = Unit

module _ {ℓ κ ι ν} {S : Type 0} {A : Type ℓ} {B : Type κ} (P : A → Type ι) (Q : B → Type ν) where
  pub continue-Gives :
      (f : A → M S B) (r : S × Outcome A)
      → Gives P r
      → ((a : A) (s : S) → P a → Gives Q (f a s))
      → Gives Q (continue f r)
  continue-Gives f (s, ok a) h k = k a s h
  continue-Gives f (s, err e) h k = tt
  continue-Gives f (s, panic) h k = tt

module _ {ℓ κ ν} {S : Type 0} {A : Type ℓ} {B : Type κ} (Q : B → Type ν) where
  pub continue-Gives_all :
      (f : A → M S B) (r : S × Outcome A)
      → ((a : A) (s : S) → Gives Q (f a s))
      → Gives Q (continue f r)
  continue-Gives_all f (s, ok a) k = k a s
  continue-Gives_all f (s, err e) k = tt
  continue-Gives_all f (s, panic) k = tt

-- ===== src/Text/Maps.antt =====
-- Go's `map[string]V`, as a list of pairs with a key once.
use go_project_example.Base.{
  List, [], ◌∷◌, ◌≡◌, ◌≢◌, refl, arith, Option, none, some, Bytes, if◌then◌else◌, true, inl, inr,
  Bool-cases, ◌∙◌, sym,
}
use go_project_example.Text.{bytes_eq, bytes_eq_iff, bytes_eq_self}

module _ {ℓ} {V : Type ℓ} where
  -- `v, ok := m[key]`
  unfoldable pub lookup : Bytes → List (Bytes × V) → Option V
  lookup key [] = none
  lookup key ((k, v) ∷ m) = if bytes_eq k key then some v else lookup key m

  -- `m[key] = v`
  unfoldable pub insert : Bytes → V → List (Bytes × V) → List (Bytes × V)
  insert key v [] = (key, v) ∷ []
  insert key v ((k, w) ∷ m) = if bytes_eq k key then (key, v) ∷ m else (k, w) ∷ insert key v m

  pub lookup-insert :
      (key k : Bytes) (v : V) (m : List (Bytes × V))
      → lookup k (insert key v m) ≡ (if bytes_eq key k then some v else lookup k m)
  unfolding lookup insert
  lookup-insert key k v [] = refl
  lookup-insert key k v ((j, w) ∷ m) =
      ground
        (arith, bytes_eq_iff key k, bytes_eq_iff j key, bytes_eq_iff j k, lookup-insert key k v m)

  pub insert-kept :
      (key k : Bytes) (v : V) (m : List (Bytes × V))
      → lookup k m ≢ none
      → lookup k (insert key v m) ≢ none
  insert-kept key k v m h e = elim (Bool-cases (bytes_eq key k)) [
    | inl same ↦
        let here : lookup k (insert key v m) ≡ some v = lookup-insert key k v m ∙ rw same refl in cc
    | inr other ↦
        let there : lookup k (insert key v m) ≡ lookup k m =
          lookup-insert key k v m ∙ rw other refl in
        h (sym there ∙ e)
  ]

  pub insert-found :
      (key k : Bytes) (v : V) (m : List (Bytes × V)) → k ≡ key → lookup k (insert key v m) ≢ none
  insert-found key k v m same e =
      let test : bytes_eq key k ≡ true = rw same (bytes_eq_self key) in
      let here : lookup k (insert key v m) ≡ some v = lookup-insert key k v m ∙ rw test refl in cc

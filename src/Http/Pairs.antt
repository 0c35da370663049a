-- ===== src/Http/Pairs.antt =====
-- What `Query` and `PostForm` of internal/pkg/http/request/request.go add.
use go_project_example.Base.{
  ℕ, suc, ◌-◌, ◌==◌, false, List, [], ◌∷◌, ◌++◌, ◌≡◌, refl, ap, sym, append-nil, ◌∙◌, arith, none,
  some, Bytes, get_elem?, length, length-append, append_assoc,
}
use go_project_example.Http.{add_value, add_pairs, query_values}

-- Each text with the one after it.
abbrev pub neighbours : List Bytes → List (Bytes × Bytes)
neighbours [] = []
neighbours (k ∷ []) = []
neighbours (k ∷ v ∷ kv) = (k, v) ∷ neighbours (v ∷ kv)

get_elem?-append :
    {A : Type 0} (xs : List A) (y : A) (ys : List A) → get_elem? (xs ++ y ∷ ys) (length xs) ≡ some y
get_elem?-append [] y ys = refl
get_elem?-append (x ∷ xs) y ys = get_elem?-append xs y ys

length-snoc : (xs : List Bytes) (x : Bytes) → length (xs ++ x ∷ []) ≡ suc (length xs)
length-snoc xs x = omega (arith, length-append xs (x ∷ []))

is_last-append :
    (i : ℕ) (pre : List Bytes) (x : Bytes) (r : List Bytes)
    → length pre ≡ i
    → (i == length (pre ++ x ∷ r) - 1) ≡ (0 == length r)
is_last-append i pre x r h = ground (arith, length-append pre (x ∷ r))

-- The rounds from the third element on, which stands after `pre`.
add_pairs-neighbours :
    (k : ℕ) (pre : List Bytes) (x : Bytes) (r : List Bytes) (acc : List (Bytes × Bytes))
    → length pre ≡ suc (suc k)
    → add_pairs (suc (suc (length r))) (suc k) (pre ++ x ∷ r) acc ≡ some (acc ++ neighbours (x ∷ r))
unfolding add_pairs add_value
add_pairs-neighbours k pre x [] acc h =
    rw (is_last-append (suc (suc k)) pre x [] h, add_pairs) (ap some (sym (append-nil acc)))
add_pairs-neighbours k pre x (y ∷ r) acc h =
    let at_x : get_elem? (pre ++ x ∷ y ∷ r) (suc (suc k)) ≡ some x =
      rw (sym h) (get_elem?-append pre x (y ∷ r)) in
    let at_y : get_elem? (pre ++ x ∷ y ∷ r) (suc (suc (suc k))) ≡ some y =
      rw⁻¹ (h, length-snoc pre x, append_assoc pre (x ∷ []) (y ∷ r))
        (get_elem?-append (pre ++ x ∷ []) y r) in
    let not_last : (suc (suc k) == length (pre ++ x ∷ y ∷ r) - 1) ≡ false =
      is_last-append (suc (suc k)) pre x (y ∷ r) h ∙ ground arith in
    let round : add_pairs (suc (suc (length (y ∷ r)))) (suc k) (pre ++ x ∷ y ∷ r) acc
        ≡ add_pairs (suc (suc (length r))) (suc (suc k)) (pre ++ x ∷ y ∷ r) (acc ++ (x, y) ∷ []) =
      rw (not_last, at_x, at_y, add_pairs) refl in
    round
    ∙ (rw (append_assoc pre (x ∷ []) (y ∷ r), append_assoc acc ((x, y) ∷ []) (neighbours (y ∷ r)))
        at
        (add_pairs-neighbours (suc k) (pre ++ x ∷ []) y r (acc ++ (x, y) ∷ [])
          (length-snoc pre x ∙ ap suc h)))

-- For one or two texts `Query` panics. For more it adds the first two as a pair, and then each text
-- from the third on with the one after it.
query_values-neighbours :
    (a b x : Bytes) (r : List Bytes)
    → (query_values (a ∷ []) ≡ none)
      × (query_values (a ∷ b ∷ []) ≡ none)
      × (query_values (a ∷ b ∷ x ∷ r) ≡ some ((a, b) ∷ neighbours (x ∷ r)))
unfolding query_values add_pairs add_value
query_values-neighbours a b x r =
    (refl, refl, add_pairs-neighbours 0 (a ∷ b ∷ []) x r ((a, b) ∷ []) refl)

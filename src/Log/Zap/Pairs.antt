-- ===== src/Log/Zap/Pairs.antt =====
-- The loop of `fieldsToKV` in internal/pkg/log/logger/zap/zap.go, and the list that it fills.
use go_project_example.Base.{
  ◌≡◌, refl, ap, ◌∙◌, arith, ℕ, suc, ◌+◌, ◌*◌, List, [], ◌∷◌, ◌++◌, Bytes, length, set,
  append_assoc, length-append,
}
use go_project_example.Log.Zap.{fields_to_kv, fill, make}

-- The keys and values in turn.
abbrev pub in_turn : List (Bytes × Bytes) → List Bytes
in_turn [] = []
in_turn ((k, v) ∷ fields) = k ∷ v ∷ in_turn fields

set-append :
    (done rest : List Bytes) (x v : Bytes)
    → set (done ++ x ∷ rest) (length done) v ≡ done ++ v ∷ rest
set-append [] rest x v = refl
set-append (d ∷ done) rest x v = ap (λ t. d ∷ t) (set-append done rest x v)

-- A round of the loop, on a slice whose first part is filled.
round :
    (done rest : List Bytes) (k v x y : Bytes)
    → set (set (done ++ x ∷ y ∷ rest) (length done) k) (length done + 1) v
      ≡ (done ++ k ∷ v ∷ []) ++ rest
round [] rest k v x y = refl
round (d ∷ done) rest k v x y =
    let next : length (d ∷ done) + 1 ≡ suc (length done + 1) = omega arith in
    rw next (ap (λ t. d ∷ t) (round done rest k v x y))

fill-append :
    (done : List Bytes) (fields : List (Bytes × Bytes)) (i : ℕ) (n : ℕ)
    → i ≡ length done
    → n ≡ length fields * 2
    → fill (done ++ make n) i fields ≡ done ++ in_turn fields
unfolding fill
fill-append done [] i n at size = let none_left : n ≡ 0 = omega arith in rw none_left refl
fill-append done ((k, v) ∷ fields) i n at size =
    let two_more : n ≡ suc (suc (length fields * 2)) = omega (arith, size) in
    rw (two_more, at)
      (ap (λ kv. fill kv (length done + 2) fields) (round done (make (length fields * 2)) k v [] [])
        ∙ fill-append (done ++ k ∷ v ∷ []) fields (length done + 2) (length fields * 2)
            (omega (arith, length-append done (k ∷ v ∷ []))) refl
        ∙ append_assoc done (k ∷ v ∷ []) (in_turn fields))

-- `fieldsToKV` fills the whole slice, which has two places for each field: it holds the key and the
-- value of every field, in the order in which the map is gone through.
pub fields_to_kv-in_turn : (fields : List (Bytes × Bytes)) → fields_to_kv fields ≡ in_turn fields
unfolding fields_to_kv
fields_to_kv-in_turn fields = fill-append [] fields 0 (length fields * 2) refl refl

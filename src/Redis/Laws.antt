-- ===== src/Redis/Laws.antt =====
-- internal/pkg/redis/redigo: what the methods make of the server's replies.
use go_project_example.Base.{
  List, [], ◌∷◌, ◌++◌, ◌≡◌, ◌⊎◌, inl, inr, refl, ap, Bytes, codes, Bool-cases,
}
use go_project_example.Text.{bytes_eq, eq_of_bytes_eq}
use go_project_example.Effects.{Outcome, ok, err, panic}
use go_project_example.Redis.{
  Arg, text, Client, checked, must_be_ok, is_response_ok, err_response_not_ok,
}
use go_project_example.Redis.Keys.{command, Strings, set, mset, hget_all, pair_up}

abbrev flat : Strings → List Bytes
flat [] = []
flat ((k, v) ∷ kv) = k ∷ v ∷ flat kv

-- The pairs, the last one first, before others.
abbrev pub written : Strings → Strings → Strings
written [] kv = kv
written (p ∷ ps) kv = written ps (p ∷ kv)

-- What a method that wants the reply `OK` can give.
abbrev pub IsOkOrNot : Outcome Bytes → Type 0
IsOkOrNot r = (r ≡ ok (codes "OK")) ⊎ (r ≡ err err_response_not_ok) ⊎ (r ≡ panic)

must_be_ok-IsOkOrNot :
    {S : Type 0} (client : Client S) (r : S × Outcome Bytes) → IsOkOrNot (must_be_ok client r).1
unfolding must_be_ok is_response_ok
must_be_ok-IsOkOrNot client (s, ok a) = elim (Bool-cases (bytes_eq a (codes "OK"))) [
  | inl e ↦ inl (rw e (ap ok (eq_of_bytes_eq a (codes "OK") e)))
  | inr e ↦ inr (inl (rw e refl))
]
must_be_ok-IsOkOrNot client (s, err e) = inr (inl refl)
must_be_ok-IsOkOrNot client (s, panic) = inr (inr refl)

module _ {S : Type 0} (client : Client S) where
  -- `Set` and `MSet` give the reply `OK` or the error that it was not: no error of the server is
  -- passed on.
  pub set-IsOkOrNot :
      (key : Bytes) (value : Arg) (pairs : List Arg) (s : S)
      → IsOkOrNot (set client key value s).1 × IsOkOrNot (mset client pairs s).1
  unfolding set mset
  set-IsOkOrNot key value pairs s = (
    must_be_ok-IsOkOrNot client
        (client.do_string (command (codes "SET") (text key ∷ value ∷ [])) s),
    must_be_ok-IsOkOrNot client (client.do_string (command (codes "MSET") pairs) s),
  )

  pair_up-flat :
      (kv acc : Strings) (s : S) → pair_up client (flat kv) acc s ≡ (s, ok (written kv acc))
  unfolding pair_up
  pair_up-flat [] acc s = refl
  pair_up-flat ((k, v) ∷ kv) acc s = pair_up-flat kv ((k, v) ∷ acc) s

  pair_up-odd :
      (kv : Strings) (k : Bytes) (acc : Strings) (s : S)
      → pair_up client (flat kv ++ k ∷ []) acc s ≡ (s, panic)
  unfolding pair_up
  pair_up-odd [] k acc s = refl
  pair_up-odd ((k', v) ∷ kv) k acc s = pair_up-odd kv k ((k', v) ∷ acc) s

  -- `HGetAll` gives the pairs of a reply that lists keys and values in turn, and panics on a reply
  -- that ends with a key.
  pub hget_all_lem :
      (key : Bytes) (kv : Strings) (k : Bytes) (s s₁ s₂ : S)
      → let reply = client.do_strings (command (codes "HGETALL") (text key ∷ [])) in
        (reply s ≡ (s₁, ok (flat kv)) → hget_all client key s ≡ (s₁, ok (written kv [])))
        × (reply s ≡ (s₂, ok (flat kv ++ k ∷ [])) → hget_all client key s ≡ (s₂, panic))
  unfolding hget_all checked
  hget_all_lem key kv k s s₁ s₂ =
      (λ h. rw h (pair_up-flat kv [] s₁), λ h. rw h (pair_up-odd kv k [] s₂))

-- ===== src/Redis/Tests.antt =====
-- A server with one hash, and one that refuses to write.
use go_project_example.Base.{List, [], ◌∷◌, ◌≡◌, refl, Bytes, codes, pos, false}
use go_project_example.Xerrors.{backend}
use go_project_example.Effects.{ok, panic, return, throw}
use go_project_example.Redis.{text, Client}
use go_project_example.Redis.Keys.{set, mset, hget_all}
use go_project_example.Redis.Laws.{IsOkOrNot, set-IsOkOrNot, hget_all_lem}

-- The state is the reply to `HGETALL`.
abbrev server : Client (List Bytes)
server = record {
  do_string = λ c. throw (backend 3);
  do_strings = λ c s. (s, ok s);
  do_int = λ c. return (pos 0);
  is_err_nil = λ e. false;
}

abbrev colours : List Bytes
colours = codes "a" ∷ codes "red" ∷ codes "b" ∷ codes "blue" ∷ []

refusing_server :
    IsOkOrNot (set server (codes "k") (text (codes "v")) []).1
    × IsOkOrNot (mset server (text (codes "k") ∷ text (codes "v") ∷ []) []).1
refusing_server =
    set-IsOkOrNot server (codes "k") (text (codes "v")) (text (codes "k") ∷ text (codes "v") ∷ [])
      []

hash_pairs :
    (hget_all server (codes "h") colours
      ≡ (colours, ok ((codes "b", codes "blue") ∷ (codes "a", codes "red") ∷ [])))
    × (hget_all server (codes "h") (codes "k" ∷ []) ≡ (codes "k" ∷ [], panic))
hash_pairs = (
  (hget_all_lem server (codes "h") ((codes "a", codes "red") ∷ (codes "b", codes "blue") ∷ [])
        (codes "k") colours colours colours).0
      refl,
  (hget_all_lem server (codes "h") [] (codes "k") (codes "k" ∷ []) (codes "k" ∷ [])
        (codes "k" ∷ [])).1
      refl,
)

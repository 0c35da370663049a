-- ===== src/Redis/Lists.antt =====
-- internal/pkg/redis/redigo/list.go: the commands on lists.
use go_project_example.Base.{List, [], ◌∷◌, Bytes, codes, ℤ}
use go_project_example.Effects.{M}
use go_project_example.Redis.{Arg, text, int, Client, checked}
use go_project_example.Redis.Keys.{command}

module _ {S : Type 0} (client : Client S) where
  unfoldable pub llen : Bytes → M S ℤ
  unfolding checked
  llen key s = checked client (client.do_int (command (codes "LLEN") (text key ∷ [])) s)

  unfoldable pub lindex : Bytes → ℤ → M S Bytes
  unfolding checked
  lindex key index s =
      checked client (client.do_string (command (codes "LINDEX") (text key ∷ int index ∷ [])) s)

  -- The key is no argument of the command.
  unfoldable pub lset : Bytes → Bytes → ℤ → M S ℤ
  unfolding checked
  lset key value index s =
      checked client (client.do_int (command (codes "LSET") (int index ∷ text value ∷ [])) s)

  unfoldable pub lpush : Bytes → List Arg → M S ℤ
  unfolding checked
  lpush key values s =
      checked client (client.do_int (command (codes "LPUSH") (text key ∷ values)) s)

  unfoldable pub lpushx : Bytes → List Arg → M S ℤ
  unfolding checked
  lpushx key values s =
      checked client (client.do_int (command (codes "LPUSHX") (text key ∷ values)) s)

  unfoldable pub lpop : Bytes → M S Bytes
  unfolding checked
  lpop key s = checked client (client.do_string (command (codes "LPOP") (text key ∷ [])) s)

  unfoldable pub lrem : Bytes → Bytes → ℤ → M S ℤ
  unfolding checked
  lrem key value count s =
      checked client
        (client.do_int (command (codes "LREM") (text key ∷ int count ∷ text value ∷ [])) s)

  unfoldable pub ltrim : Bytes → ℤ → ℤ → M S Bytes
  unfolding checked
  ltrim key start stop s =
      checked client
        (client.do_string (command (codes "LTRIM") (text key ∷ int start ∷ int stop ∷ [])) s)

-- ===== src/Redis/Keys.antt =====
-- internal/pkg/redis/redigo/key.go: the commands on keys and hashes.
use go_project_example.Base.{List, [], ◌∷◌, map, Bytes, codes, ℤ, if◌then◌else◌}
use go_project_example.Effects.{Outcome, ok, err, panic, M, return, crash, ◌>>=◌}
use go_project_example.Redis.{Arg, text, int, Command, Client, checked, must_be_ok}

abbrev pub command : Bytes → List Arg → Command
command name args = record { name = name; args = args }

-- `map[string]string`, the last write first.
abbrev pub Strings : Type 0
Strings = List (Bytes × Bytes)

module _ {S : Type 0} (client : Client S) where
  unfoldable pub set : Bytes → Arg → M S Bytes
  unfolding must_be_ok
  set key value s =
      must_be_ok client (client.do_string (command (codes "SET") (text key ∷ value ∷ [])) s)

  -- The command word is given twice, and so is `EXPIRE` as an argument.
  unfoldable pub set_nx : Bytes → Arg → ℤ → M S ℤ
  unfolding checked
  set_nx key value expire s = checked client (
      client.do_int
        (command (codes "SETNX")
          (text key ∷ value ∷ text (codes "SETNX") ∷ text (codes "EXPIRE") ∷ int expire ∷ []))
        s)

  unfoldable pub set_ex : Bytes → Arg → ℤ → M S Bytes
  unfolding checked
  set_ex key value expire s =
      checked client
        (client.do_string (command (codes "SETEX") (text key ∷ int expire ∷ value ∷ [])) s)

  unfoldable pub get : Bytes → M S Bytes
  unfolding checked
  get key s = checked client (client.do_string (command (codes "GET") (text key ∷ [])) s)

  unfoldable pub delete : Bytes → M S ℤ
  unfolding checked
  delete key s = checked client (client.do_int (command (codes "DEL") (text key ∷ [])) s)

  unfoldable pub increment : Bytes → M S ℤ
  unfolding checked
  increment key s = checked client (client.do_int (command (codes "INCR") (text key ∷ [])) s)

  unfoldable pub increment_by : Bytes → ℤ → M S ℤ
  unfolding checked
  increment_by key amount s =
      checked client (client.do_int (command (codes "INCRBY") (text key ∷ int amount ∷ [])) s)

  unfoldable pub expire : Bytes → ℤ → M S ℤ
  unfolding checked
  expire key duration s =
      checked client (client.do_int (command (codes "EXPIRE") (text key ∷ int duration ∷ [])) s)

  unfoldable pub mset : List Arg → M S Bytes
  unfolding must_be_ok
  mset pairs s = must_be_ok client (client.do_string (command (codes "MSET") pairs) s)

  unfoldable pub mget : List Bytes → M S (List Bytes)
  unfolding checked
  mget keys s = checked client (client.do_strings (command (codes "MGET") (map text keys)) s)

  unfoldable pub hset : Bytes → Bytes → Arg → M S ℤ
  unfolding checked
  hset key field value s =
      checked client (client.do_int (command (codes "HSET") (text key ∷ text field ∷ value ∷ [])) s)

  -- After `HSET`: the nil reply is no reason to stop.
  unfoldable pub then_expire : Bytes → ℤ → S × Outcome ℤ → S × Outcome ℤ
  unfolding expire
  then_expire key duration (s, ok n) = expire key duration s
  then_expire key duration (s, err e) =
      if client.is_err_nil e then expire key duration s else (s, err e)
  then_expire key duration (s, panic) = (s, panic)

  unfoldable pub hset_ex : Bytes → Bytes → Arg → ℤ → M S ℤ
  unfolding then_expire
  hset_ex key field value duration s =
      then_expire key duration
        (client.do_int (command (codes "HSET") (text key ∷ text field ∷ value ∷ [])) s)

  unfoldable pub hget : Bytes → Bytes → M S Bytes
  unfolding checked
  hget key field s =
      checked client (client.do_string (command (codes "HGET") (text key ∷ text field ∷ [])) s)

  -- The loop of `HGetAll` takes two replies at a time; an odd one out panics.
  unfoldable pub pair_up : List Bytes → Strings → M S Strings
  pair_up [] kv = return kv
  pair_up (k ∷ []) kv = crash
  pair_up (k ∷ v ∷ resp) kv = pair_up resp ((k, v) ∷ kv)

  unfoldable pub hget_all : Bytes → M S Strings
  unfolding checked pair_up
  hget_all key = do
    resp ← λ s. checked client (client.do_strings (command (codes "HGETALL") (text key ∷ [])) s)
    pair_up resp []

  abbrev flat_args : List (Bytes × Arg) → List Arg
  flat_args [] = []
  flat_args ((k, v) ∷ kv) = text k ∷ v ∷ flat_args kv

  unfoldable pub hmset : Bytes → List (Bytes × Arg) → M S Bytes
  unfolding checked
  hmset key kv s =
      checked client (client.do_string (command (codes "HMSET") (text key ∷ flat_args kv)) s)

  unfoldable pub hmget : Bytes → List Bytes → M S (List Bytes)
  unfolding checked
  hmget key fields s =
      checked client (client.do_strings (command (codes "HMGET") (text key ∷ map text fields)) s)

  unfoldable pub hdel : Bytes → List Bytes → M S ℤ
  unfolding checked
  hdel key fields s =
      checked client (client.do_int (command (codes "HDEL") (text key ∷ map text fields)) s)

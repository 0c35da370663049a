-- ===== src/Http.antt =====
-- internal/pkg/http/misc/misc.go and the pairs of internal/pkg/http/request/request.go.
pub mod Sanitizing
pub mod Pairs
pub mod Versions
pub mod Routing
mod Tests
use go_project_example.Base.{
  ℕ, suc, zero, ltb, ◌+◌, ◌-◌, ◌==◌, ◌&&◌, Bool, true, false, List, [], ◌∷◌, ◌++◌, map, get_elem?,
  length, Option, none, some, Bytes, codes, ℤ, pos, negsuc, if◌then◌else◌,
}
use go_project_example.Text.{bytes_eq}
use go_project_example.Text.Decimal.{format_int}

-- `strings.ToLower` on ASCII letters.
abbrev lower_code : ℕ → ℕ
lower_code c = if ltb 64 c && ltb c 91 then c + 32 else c

abbrev pub to_lower : Bytes → Bytes
to_lower s = map lower_code s

-- The cases of `SanitizeMethod`: two spellings and the result.
abbrev pub method_cases : List (Bytes × Bytes × Bytes)
method_cases =
    (codes "GET", codes "get", codes "get")
    ∷ (codes "PUT", codes "put", codes "put")
    ∷ (codes "HEAD", codes "head", codes "head")
    ∷ (codes "POST", codes "post", codes "post")
    ∷ (codes "DELETE", codes "delete", codes "delete")
    ∷ (codes "CONNECT", codes "connect", codes "connect")
    ∷ (codes "OPTIONS", codes "options", codes "options")
    ∷ (codes "NOTIFY", codes "notify", codes "notify")
    ∷ []

unfoldable pub switch_method : List (Bytes × Bytes × Bytes) → Bytes → Bytes
switch_method [] m = to_lower m
switch_method ((a, b, result) ∷ cases) m =
    if bytes_eq m a then result else if bytes_eq m b then result else switch_method cases m

-- `SanitizeMethod`
unfoldable pub sanitize_method : Bytes → Bytes
unfolding switch_method
sanitize_method m = switch_method method_cases m

-- The cases of `SanitizeCode`, without the 0, which stands with 200.
abbrev pub code_cases : List (ℕ × Bytes)
code_cases =
    (100, codes "100")
    ∷ (101, codes "101")
    ∷ (200, codes "200")
    ∷ (201, codes "201")
    ∷ (202, codes "202")
    ∷ (203, codes "203")
    ∷ (204, codes "204")
    ∷ (205, codes "205")
    ∷ (206, codes "206")
    ∷ (300, codes "300")
    ∷ (301, codes "301")
    ∷ (302, codes "302")
    ∷ (304, codes "304")
    ∷ (305, codes "305")
    ∷ (307, codes "307")
    ∷ (400, codes "400")
    ∷ (401, codes "401")
    ∷ (402, codes "402")
    ∷ (403, codes "403")
    ∷ (404, codes "404")
    ∷ (405, codes "405")
    ∷ (406, codes "406")
    ∷ (407, codes "407")
    ∷ (408, codes "408")
    ∷ (409, codes "409")
    ∷ (410, codes "410")
    ∷ (411, codes "411")
    ∷ (412, codes "412")
    ∷ (413, codes "413")
    ∷ (414, codes "414")
    ∷ (415, codes "415")
    ∷ (416, codes "416")
    ∷ (417, codes "417")
    ∷ (418, codes "418")
    ∷ (500, codes "500")
    ∷ (501, codes "501")
    ∷ (502, codes "502")
    ∷ (503, codes "503")
    ∷ (504, codes "504")
    ∷ (505, codes "505")
    ∷ (428, codes "428")
    ∷ (429, codes "429")
    ∷ (431, codes "431")
    ∷ (511, codes "511")
    ∷ []

unfoldable pub switch_code : List (ℕ × Bytes) → ℕ → Bytes
switch_code [] n = format_int (pos n)
switch_code ((code, text) ∷ cases) n = if n == code then text else switch_code cases n

-- `SanitizeCode`
unfoldable pub sanitize_code : ℤ → Bytes
unfolding switch_code
sanitize_code (pos n) = if n == 0 then codes "200" else switch_code code_cases n
sanitize_code (negsuc n) = format_int (negsuc n)

-- The values that are added, in order; `none` is an index out of range, which panics.
abbrev pub Values : Type 0
Values = Option (List (Bytes × Bytes))

-- `if idx > 0 { idx++ }`
abbrev pub index_of : ℕ → ℕ
index_of zero = 0
index_of (suc k) = suc (suc k)

-- The test for the break, which is made if `idx > 0`.
abbrev pub is_last : ℕ → ℕ → Bool
is_last zero len = false
is_last (suc k) len = suc (suc k) == len - 1

-- The rest of a round: the break, or the value that is added.
unfoldable pub add_value :
    Bool
    → Option Bytes
    → Option Bytes
    → List (Bytes × Bytes)
    → (List (Bytes × Bytes) → Values)
    → Values
add_value true k v acc rest = some acc
add_value false (some k) (some v) acc rest = rest (acc ++ (k, v) ∷ [])
add_value false _ _ acc rest = none

-- The loop of `Query` and `PostForm` at `idx`, with `left` rounds to go. The increment of `idx` in the
-- body is lost with the next round.
unfoldable pub add_pairs : ℕ → ℕ → List Bytes → List (Bytes × Bytes) → Values
unfolding add_value
add_pairs zero idx kv acc = some acc
add_pairs (suc left) idx kv acc =
    add_value (is_last idx (length kv)) (get_elem? kv (index_of idx))
      (get_elem? kv (suc (index_of idx))) acc (λ acc₁. add_pairs left (suc idx) kv acc₁)

-- The values of `Query` and of `PostForm`.
unfoldable pub query_values : List Bytes → Values
unfolding add_pairs
query_values kv = add_pairs (length kv) 0 kv []

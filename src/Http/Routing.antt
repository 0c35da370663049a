-- ===== src/Http/Routing.antt =====
-- `getRoutingHeader` of internal/pkg/http/request/request.go: the routes that a header names.
--
-- Of the characters that `strings.TrimSpace` cuts those of ASCII are taken.
use go_project_example.Base.{
  ℕ, ◌==◌, ◌&&◌, ◌||◌, leb, Bool, true, false, List, [], ◌∷◌, ◌++◌, ◌≡◌, ◌≢◌, refl, arith, Option,
  none, some, Bytes, All, map, if◌then◌else◌,
}
use go_project_example.Text.{bytes_eq}
use go_project_example.Text.Maps.{insert}
use go_project_example.Text.Parts.{split, join, split_whole, split-append}
use go_project_example.Http.Versions.{Routes}

abbrev is_space : ℕ → Bool
is_space c = c == 32 || leb 9 c && leb c 13

abbrev trim_left : Bytes → Bytes
trim_left [] = []
trim_left (c ∷ s) = let rest = trim_left s in if is_space c then rest else c ∷ s

abbrev without : Bool → ℕ → Bytes → Bytes
without true c [] = []
without true c (d ∷ s) = c ∷ d ∷ s
without false c s = c ∷ s

abbrev trim_right : Bytes → Bytes
trim_right [] = []
trim_right (c ∷ s) = without (is_space c) c (trim_right s)

-- `strings.TrimSpace`
abbrev trim_space : Bytes → Bytes
trim_space s = trim_right (trim_left s)

-- A round of the loop, on the parts of one routing.
abbrev add_selection : List Bytes → Routes → Routes
add_selection (host ∷ version ∷ others) routes =
    insert (trim_space host) (trim_space version) routes
add_selection _ routes = routes

-- The loop over the routings
unfoldable pub add_selections : List Bytes → Routes → Routes
add_selections [] routes = routes
add_selections (r ∷ routings) routes = add_selections routings (add_selection (split b'|' r) routes)

-- `getRoutingHeader`, of the value of the context, if it is a string
unfoldable pub get_routing_header : Option Bytes → Bytes × Routes
unfolding add_selections
get_routing_header none = ([], [])
get_routing_header (some header) =
    if bytes_eq header [] then ([], []) else (header, add_selections (split b',' header) [])

-- No separator and no space.
abbrev pub IsPlain : Bytes → Type 0
IsPlain s = All (λ c. (c ≢ b',') × (c ≢ b'|') × (is_space c ≡ false)) s

abbrev entry : Bytes × Bytes → Bytes
entry (host, version) = host ++ b'|' ∷ version

-- The map that the entries make when they are put in one after the other.
abbrev put_all : Routes → Routes → Routes
put_all [] routes = routes
put_all ((host, version) ∷ entries) routes = put_all entries (insert host version routes)

lacks_bar : (s : Bytes) → IsPlain s → All (λ c. c ≢ b'|') s
lacks_bar [] h = tt
lacks_bar (c ∷ s) ((comma, bar, space), h) = (bar, lacks_bar s h)

lacks_comma-append : (s t : Bytes) → IsPlain s → IsPlain t → All (λ c. c ≢ b',') (s ++ b'|' ∷ t)
lacks_comma-append [] [] h k = (ground arith, tt)
lacks_comma-append [] (c ∷ t) h ((comma, bar, space), k) =
    (ground arith, (comma, (lacks_comma-append [] t tt k).1))
lacks_comma-append (c ∷ s) t ((comma, bar, space), h) k = (comma, lacks_comma-append s t h k)

trim_left-plain : (s : Bytes) → IsPlain s → trim_left s ≡ s
trim_left-plain [] h = refl
trim_left-plain (c ∷ s) ((comma, bar, space), h) = rw space refl

trim_right-plain : (s : Bytes) → IsPlain s → trim_right s ≡ s
trim_right-plain [] h = refl
trim_right-plain (c ∷ s) ((comma, bar, space), h) = rw (space, trim_right-plain s h) refl

trim_space-plain : (s : Bytes) → IsPlain s → trim_space s ≡ s
trim_space-plain s h = rw (trim_left-plain s h) (trim_right-plain s h)

add_selection-entry :
    (host version : Bytes) (routes : Routes)
    → IsPlain host
    → IsPlain version
    → add_selection (split b'|' (entry (host, version))) routes ≡ insert host version routes
add_selection-entry host version routes h v =
    rw
      (
        split-append b'|' host version (lacks_bar host h),
        split_whole b'|' version (lacks_bar version v),
        trim_space-plain host h,
        trim_space-plain version v,
      )
      refl

add_selections-entries :
    (e : Bytes × Bytes) (entries routes : Routes)
    → All (λ e. IsPlain e.0 × IsPlain e.1) (e ∷ entries)
    → add_selections (split b',' (join b',' (map entry (e ∷ entries)))) routes
      ≡ put_all (e ∷ entries) routes
unfolding add_selections join split insert
add_selections-entries (host, version) [] routes ((h, v), plain) =
    rw (split_whole b',' (entry (host, version)) (lacks_comma-append host version h v))
      (add_selection-entry host version routes h v)
add_selections-entries (host, version) (e ∷ entries) routes ((h, v), plain) =
    rw
      (
        split-append b',' (entry (host, version)) (join b',' (map entry (e ∷ entries)))
            (lacks_comma-append host version h v),
        add_selection-entry host version routes h v,
      )
      (add_selections-entries e entries (insert host version routes) plain)

join_filled :
    (host version : Bytes) (entries : Routes)
    → bytes_eq (join b',' (map entry ((host, version) ∷ entries))) [] ≡ false
unfolding join bytes_eq
join_filled [] version [] = refl
join_filled (c ∷ host) version [] = refl
join_filled [] version (e ∷ entries) = refl
join_filled (c ∷ host) version (e ∷ entries) = refl

-- A header of one or more entries "host|version" with commas between them, where hosts and versions
-- have no comma, bar or space, is read as the map of these entries, where a later entry for a host
-- replaces an earlier one; the header itself is returned as it is.
pub get_routing_header-join :
    (e : Bytes × Bytes) (entries : Routes)
    → All (λ e. IsPlain e.0 × IsPlain e.1) (e ∷ entries)
    → let header = join b',' (map entry (e ∷ entries)) in
      get_routing_header (some header) ≡ (header, put_all (e ∷ entries) [])
unfolding get_routing_header
get_routing_header-join (host, version) entries plain =
    rw (join_filled host version entries, add_selections-entries (host, version) entries [] plain)
      refl

-- ===== src/Http/Versions.antt =====
-- The header "route-version-select" that `Compile` of internal/pkg/http/request/request.go makes of the
-- routes, in the order in which the map is run through.
use go_project_example.Base.{
  List, [], ◌∷◌, ◌++◌, ◌≡◌, refl, sym, ap, ◌∙◌, append-nil, Option, none, some, Bytes, append_assoc,
  if◌then◌else◌, Bool-cases, inl, inr,
}
use go_project_example.Text.{bytes_eq}
use go_project_example.Text.Parts.{join}

abbrev pub Routes : Type 0
Routes = List (Bytes × Bytes)

-- `rvcHeader[:len(rvcHeader)-1]`, which panics for the empty text.
unfoldable pub trim_last : Bytes → Option Bytes
trim_last [] = none
trim_last (c ∷ []) = some []
trim_last (c ∷ d ∷ s) = elim (trim_last (d ∷ s)) [ none ↦ none | some t ↦ some (c ∷ t) ]

-- The loop over the routes, of the header so far, and the cut; `none` is the panic.
unfoldable pub version_header : Bytes → Routes → Bytes → Option Bytes
unfolding trim_last
version_header host [] rvc_header = trim_last rvc_header
version_header host ((k, v) ∷ routes) rvc_header =
    version_header host routes
      (if bytes_eq k host then rvc_header else rvc_header ++ (k ++ b'|' ∷ (v ++ b',' ∷ [])))

-- The routes to other hosts, each as "host|version".
abbrev pub others : Bytes → Routes → List Bytes
others host [] = []
others host ((k, v) ∷ routes) =
    let rest = others host routes in if bytes_eq k host then rest else (k ++ b'|' ∷ v) ∷ rest

abbrev pub joined : List Bytes → Option Bytes
joined [] = none
joined (e ∷ es) = some (join b',' (e ∷ es))

with_commas : List Bytes → Bytes
with_commas [] = []
with_commas (e ∷ es) = e ++ b',' ∷ with_commas es

trim_last-append : (p s t : Bytes) → trim_last s ≡ some t → trim_last (p ++ s) ≡ some (p ++ t)
unfolding trim_last
trim_last-append [] s t h = h
trim_last-append (c ∷ []) [] t h = cc
trim_last-append (c ∷ []) (d ∷ s) t h = rw h refl
trim_last-append (c ∷ c' ∷ p) s t h = rw (trim_last-append (c' ∷ p) s t h) refl

trim_last-with_commas : (es : List Bytes) → trim_last (with_commas es) ≡ joined es
unfolding trim_last with_commas join
trim_last-with_commas [] = refl
trim_last-with_commas (e ∷ []) = trim_last-append e (b',' ∷ []) [] refl ∙ ap some (append-nil e)
trim_last-with_commas (e ∷ f ∷ es) =
    trim_last-append e (b',' ∷ with_commas (f ∷ es)) (b',' ∷ join b',' (f ∷ es)) (
      trim_last-append (b',' ∷ []) (with_commas (f ∷ es)) (join b',' (f ∷ es))
        (trim_last-with_commas (f ∷ es)))

entry-append : (k v s : Bytes) → (k ++ b'|' ∷ (v ++ b',' ∷ [])) ++ s ≡ (k ++ b'|' ∷ v) ++ b',' ∷ s
entry-append k v s =
    rw
      (
        append_assoc k (b'|' ∷ (v ++ b',' ∷ [])) s,
        append_assoc v (b',' ∷ []) s,
        append_assoc k (b'|' ∷ v) (b',' ∷ s),
      )
      refl

version_header_lem :
    (host : Bytes) (routes : Routes) (rvc_header : Bytes)
    → version_header host routes rvc_header
      ≡ trim_last (rvc_header ++ with_commas (others host routes))
unfolding version_header with_commas
version_header_lem host [] rvc_header = ap trim_last (sym (append-nil rvc_header))
version_header_lem host ((k, v) ∷ routes) rvc_header = elim (Bool-cases (bytes_eq k host)) [
  | inl e ↦ rw e (version_header_lem host routes rvc_header)
  | inr e ↦ rw e (
      version_header_lem host routes (rvc_header ++ (k ++ b'|' ∷ (v ++ b',' ∷ [])))
      ∙ ap trim_last (
          append_assoc rvc_header (k ++ b'|' ∷ (v ++ b',' ∷ [])) (with_commas (others host routes))
          ∙ ap (λ s. rvc_header ++ s) (entry-append k v (with_commas (others host routes)))))
]

-- The header lists the routes to other hosts than the one of the request, with commas between them;
-- without such a route, and so without any routing header, `Compile` panics.
version_header-join :
    (host : Bytes) (routes : Routes) → version_header host routes [] ≡ joined (others host routes)
version_header-join host routes =
    version_header_lem host routes [] ∙ trim_last-with_commas (others host routes)

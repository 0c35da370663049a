-- ===== src/Http/Tests.antt =====
-- Methods, codes and queries.
use go_project_example.Base.{◌≡◌, codes, [], ◌∷◌, some, arith}
use go_project_example.Text.{bytes_eq}
use go_project_example.Text.Maps.{insert}
use go_project_example.Text.Parts.{join}
use go_project_example.Http.Versions.{Routes}
use go_project_example.Http.Routing.{get_routing_header, get_routing_header-join}
use go_project_example.Http.{sanitize_method}
use go_project_example.Http.Sanitizing.{sanitize_method-to_lower}

mixed_case : sanitize_method (codes "Get") ≡ codes "get"
mixed_case = sanitize_method-to_lower (codes "Get")

abbrev two_routes : Routes
two_routes = (codes "a.local", codes "2.0") ∷ (codes "a.local", codes "2.1") ∷ []

get_routing_header-join_example :
    get_routing_header (some (codes "b.local|1.0,a.local|2.0,a.local|2.1")) ≡ (
      codes "b.local|1.0,a.local|2.0,a.local|2.1",
      (codes "b.local", codes "1.0") ∷ (codes "a.local", codes "2.1") ∷ [],
    )
unfolding join insert bytes_eq
get_routing_header-join_example =
    get_routing_header-join (codes "b.local", codes "1.0") two_routes (ground arith)

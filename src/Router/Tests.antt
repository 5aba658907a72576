-- ===== src/Router/Tests.antt =====
-- A router of numbered handlers, with the white space of ASCII trimmed as far as the tests need.
use ginject.Prelude.{ℕ, ◌≡◌, refl, ◌&&◌, some, List, [], ◌∷◌, if◌then◌else◌}
use ginject.Text.{Bytes, codes, str_eq}
use ginject.Str.{enclose}
use ginject.Router.{
  Router, RouterItem, slash, new_router, add_caller, add_route, use_middlewares, find_router_item,
  items_of, pushed_item, push, method_route_version_to_pattern,
}
use ginject.Router.Params.{parse_to_param_key}
use ginject.Router.Items.{find-push}
use ginject.Router.Placing.{AreIndexed, PointsAt}
use ginject.Trie.Paths.{is_plain}
use ginject.Router.Matching.{clean, matched, not_found, match_route}
use ginject.Router.Serving.{match_route-add_route}
use ginject.Router.Reachable.{Reach, start, added, used, Reach-AreIndexed, find-add_route}

-- No string here has white space around it.
abbrev as_it_is : Bytes → Bytes
as_it_is s = s

abbrev get : Bytes
get = codes "GET"

abbrev users : Bytes
users = codes "/users/{id}"

abbrev one_route : Router ℕ
one_route = add_route as_it_is get users [] 7 (use_middlewares as_it_is (1 ∷ 2 ∷ []) new_router)

one_route-Reach : Reach as_it_is one_route
one_route-Reach = added get users [] 7 (used (1 ∷ 2 ∷ []) start)

pattern_of_route :
    method_route_version_to_pattern as_it_is get users (codes "v1")
    ≡ codes "/users/{id}/|v1|/[GET]/"
unfolding method_route_version_to_pattern
pattern_of_route = refl

params_of_route :
    parse_to_param_key (codes "/a/{x}/{y}/{x}/")
    ≡ (codes "/a/$/$/$/", (codes "x", 0 ∷ 2 ∷ []) ∷ (codes "y", 1 ∷ []) ∷ [])
unfolding parse_to_param_key str_eq
params_of_route = refl

find-push_example :
    find_router_item
      (items_of (codes "/users/{id}/") (push as_it_is get users [] add_caller (8 ∷ []) one_route))
      get
      []
    ≡ (if str_eq (enclose users slash) (codes "/users/{id}/") && (str_eq get get && str_eq [] [])
        then some (pushed_item as_it_is get users [] add_caller (8 ∷ []) one_route)
        else find_router_item (items_of (codes "/users/{id}/") one_route) get [])
find-push_example =
    find-push as_it_is get users [] add_caller (8 ∷ []) one_route (codes "/users/{id}/") get []

find-add_route_example :
    (item : RouterItem ℕ) × (find_router_item
        (items_of (enclose users slash) (add_route as_it_is get users [] 8 one_route))
        get
        []
      ≡ some item)
    × PointsAt 8 item
find-add_route_example = find-add_route as_it_is get users [] 8 one_route-Reach

cleaned_path : clean (codes "/a/./b//../c/") ≡ codes "/a/c"
unfolding clean str_eq
cleaned_path = refl

cleaned_above_root : clean (codes "/../a") ≡ codes "/a"
unfolding clean str_eq
cleaned_above_root = refl

cleaned_relative : clean (codes "../a/..") ≡ codes ".."
unfolding clean str_eq
cleaned_relative = refl

-- Two routes that differ in the name of a parameter share one end of the trie.
abbrev two_names : Router ℕ
two_names =
    add_route as_it_is (codes "POST") (codes "/users/{name}") [] 8
      (add_route as_it_is get (codes "/users/{id}") [] 7 new_router)

first_name_lost : match_route get (codes "/users/5") [] two_names ≡ not_found
unfolding match_route add_route new_router clean str_eq
first_name_lost = refl

-- The root route is never found: `Insert` has no segment to mark.
root_lost :
    match_route {H = ℕ} get (codes "/") [] (add_route as_it_is get (codes "/") [] 7 new_router)
    ≡ not_found
unfolding match_route add_route new_router clean str_eq
root_lost = refl

abbrev users_list : List Bytes
users_list = codes "users" ∷ codes "list" ∷ []

match_route-add_route_example :
    (item : RouterItem ℕ) × (match_route get
        (codes "/users/x/../list")
        []
        (add_route as_it_is get (codes "/users/list") [] 9 one_route)
      ≡ matched item [])
    × PointsAt 9 item
unfolding is_plain enclose clean parse_to_param_key str_eq
match_route-add_route_example =
    match_route-add_route as_it_is get (codes "/users/list") [] (codes "/users/x/../list") 9
      (codes "users") (codes "list" ∷ []) one_route-Reach (refl, (refl, tt)) refl refl

Reach-AreIndexed_example : AreIndexed one_route
Reach-AreIndexed_example = Reach-AreIndexed as_it_is one_route-Reach

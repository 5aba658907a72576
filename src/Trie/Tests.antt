-- ===== src/Trie/Tests.antt =====
-- A trie of three routes, and the theorems at it.
use ginject.Prelude.{◌≡◌, refl, ◌↔◌, ◌≢◌, true, none, some, List, [], ◌∷◌, if◌then◌else◌}
use ginject.Text.{Bytes, codes, str_eq}
use ginject.Trie.{Trie, new_trie, contains_star, insert, remove}
use ginject.Trie.Search.{found, panicked, find, match_wildcard}
use ginject.Trie.Entries.{entry, same_path}
use ginject.Trie.Paths.{is_plain, path_of, names, is_some, entry-insert, entry-remove}
use ginject.Trie.Finding.{find-entry}
use ginject.Trie.Wildcard.{Glob}
use ginject.Trie.Greedy.{match_wildcard_iff}
use ginject.Trie.Reachable.{Reach, start, inserted, find-ne-panicked}

abbrev one_route : Trie
one_route = insert (codes "GET /users/$/") (codes "/users/$/") b'/' new_trie

abbrev routes : Trie
routes =
    insert (codes "GET /files/a*c/") (codes "/files/a*c/") b'/'
      (insert (codes "GET /users/*/") (codes "/users/*/") b'/' one_route)

routes-Reach : Reach routes
routes-Reach = inserted (codes "GET /files/a*c/") (codes "/files/a*c/") b'/' (
    inserted (codes "GET /users/*/") (codes "/users/*/") b'/'
      (inserted (codes "GET /users/$/") (codes "/users/$/") b'/' start))

abbrev users_param : List Bytes
users_param = codes "users" ∷ codes "$" ∷ []

found_param :
    find (codes "/users/7/") b'/' true routes
    ≡ found (codes "GET /users/$/") (codes "GET /users/*/") (codes "7" ∷ [])
unfolding find insert new_trie
found_param = refl

found_glob : find (codes "/files/abbc/") b'/' true routes ≡ found (codes "GET /files/a*c/") [] []
unfolding find insert new_trie contains_star
found_glob = refl

found_nothing : find (codes "/files/abb/") b'/' true routes ≡ found [] [] []
unfolding find insert new_trie contains_star
found_nothing = refl

removed_route : (remove (codes "/users/$/") b'/' one_route) ≡ (true, new_trie)
unfolding remove insert new_trie contains_star str_eq
removed_route = refl

entry-insert_example :
    entry users_param (insert (codes "again") (path_of b'/' users_param) b'/' routes)
    ≡ (if names users_param users_param then some (codes "again") else entry users_param routes)
unfolding is_plain
entry-insert_example =
    entry-insert (codes "again") users_param users_param b'/' routes (refl, (refl, tt))

entry-remove_example :
    ((remove (path_of b'/' users_param) b'/' routes).0 ≡ is_some (entry users_param routes))
    × (entry users_param (remove (path_of b'/' users_param) b'/' routes).1
        ≡ (if same_path users_param users_param then none else entry users_param routes))
unfolding is_plain
entry-remove_example =
    entry-remove (codes "users") (codes "$" ∷ []) users_param b'/' routes (refl, (refl, tt))

users_param-entry : entry users_param routes ≡ some (codes "GET /users/$/")
unfolding entry insert new_trie str_eq
users_param-entry = refl

find-entry_example :
    (wild : Bytes) × (find (path_of b'/' users_param) b'/' true routes
      ≡ found (codes "GET /users/$/") wild [])
unfolding is_plain
find-entry_example =
    find-entry (codes "users") (codes "$" ∷ []) b'/' true routes (codes "GET /users/$/")
      (refl, (refl, tt)) users_param-entry

match_wildcard_example :
    (match_wildcard (codes "abbc") (codes "a*b*c") ≡ true) ↔ Glob (codes "a*b*c") (codes "abbc")
match_wildcard_example = match_wildcard_iff (codes "abbc") (codes "a*b*c")

find-ne-panicked_example : find (codes "/files/abbc/") b'/' true routes ≢ panicked
find-ne-panicked_example = find-ne-panicked (codes "/files/abbc/") b'/' true routes-Reach

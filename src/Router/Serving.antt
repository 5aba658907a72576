-- ===== src/Router/Serving.antt =====
-- routing/router.go: `Add` and then `Match`, through the trie.
use ginject.Prelude.{ℕ, ◌≡◌, refl, ◌∙◌, ap, true, some, List, [], ◌∷◌, arith}
use ginject.Prelude.Members.{All}
use ginject.Text.{Bytes, str_eq_refl}
use ginject.Str.{enclose}
use ginject.Trie
use ginject.Trie.{Trie}
use ginject.Trie.Search
use ginject.Trie.Search.{found}
use ginject.Trie.Entries.{entry, same_path}
use ginject.Trie.Paths.{IsPlain, path_of, entry-insert}
use ginject.Trie.Finding.{find-entry}
use ginject.Router.{RouterItem, Router, slash, find_router_item, items_of, push, add_route}
use ginject.Router.Params.{parse_to_param_key}
use ginject.Router.Placing.{PointsAt}
use ginject.Router.Reachable.{Reach, find-add_route}
use ginject.Router.Matching.{clean, matched, match_found, match_route}

same_path_refl : (p : List Bytes) → same_path p p ≡ true
unfolding same_path
same_path_refl [] = refl
same_path_refl (seg ∷ p) = ground (arith, str_eq_refl seg, same_path_refl p)

entry-insert_self :
    (raw seg : Bytes) (segs : List Bytes) (sep : ℕ) (t : Trie)
    → All (IsPlain sep) (seg ∷ segs)
    → entry (seg ∷ segs) (Trie.insert raw (path_of sep (seg ∷ segs)) sep t) ≡ some raw
entry-insert_self raw seg segs sep t h =
    entry-insert raw (seg ∷ segs) (seg ∷ segs) sep t h ∙ rw (same_path_refl (seg ∷ segs)) refl

module _ {H : Type 0} (trim_space : Bytes → Bytes) where
  match_found_first :
      (method version raw wild : Bytes) (vals : List Bytes) (r : Router H) (item : RouterItem H)
      → find_router_item (items_of raw r) method version ≡ some item
      → match_found method version r (found raw wild vals) ≡ matched item vals
  unfolding match_found
  match_found_first method version raw wild vals r item h = rw h refl

  trie-add_route :
      (method route version : Bytes) (h : H) (r : Router H)
      → (add_route trim_space method route version h r).trie
        ≡ Trie.insert
            (enclose route slash)
            (parse_to_param_key (enclose route slash)).0
            slash
            r.trie
  unfolding add_route push
  trie-add_route method route version h r = refl

  -- After `Add` of a route with one segment or more, a request whose cleaned path is the route with
  -- `$` for each parameter matches, and the matched item's index points at the handler that was added.
  pub match_route-add_route :
      {r : Router H} (method route version request : Bytes) (h : H) (seg : Bytes)
      (segs : List Bytes)
      → Reach trim_space r
      → All (IsPlain slash) (seg ∷ segs)
      → (parse_to_param_key (enclose route slash)).0 ≡ path_of slash (seg ∷ segs)
      → enclose (clean request) slash ≡ path_of slash (seg ∷ segs)
      → (item : RouterItem H) × (match_route method request version
            (add_route trim_space method route version h r)
          ≡ matched item [])
        × PointsAt h item
  unfolding match_route
  match_route-add_route {r = r} method route version request h seg segs k plain parsed cleaned =
      let after = add_route trim_space method route version h r in
      let pattern = enclose route slash in
      let (item, e, at) = find-add_route trim_space method route version h k in
      let stored : entry (seg ∷ segs) after.trie ≡ some pattern =
        ap (entry (seg ∷ segs)) (
          trie-add_route method route version h r
          ∙ ap (λ p. Trie.insert pattern p slash r.trie) parsed)
        ∙ entry-insert_self pattern seg segs slash r.trie plain in
      let (wild, e') = find-entry seg segs slash true after.trie pattern plain stored in
      (
        item,
        ap (match_found method version after)
              (ap (λ p. Search.find p slash true after.trie) cleaned ∙ e')
            ∙ match_found_first method version pattern wild [] after item e,
        at,
      )

-- ===== src/Router/Matching.antt =====
-- `Match` of routing/router.go, with `path.Clean` of Go's library, which it puts a request through.
use ginject.Prelude.{
  Bool, true, false, ◌||◌, Option, none, some, List, [], ◌∷◌, ◌==◌, if◌then◌else◌,
}
use ginject.Text.{Bytes, str_eq}
use ginject.Text.Split.{split, join}
use ginject.Str.{enclose}
use ginject.Trie.Search
use ginject.Trie.Search.{FindResult, found, panicked}
use ginject.Router.{RouterItem, Router, slash, find_router_item, items_of}

abbrev dots : Bytes
dots = b'.' ∷ b'.' ∷ []

-- `..` takes the last element away, unless that is a `..` that was kept.
unfoldable pub up : Bool → List Bytes → List Bytes
unfolding str_eq
up rooted [] = if rooted then [] else dots ∷ []
up rooted (last ∷ kept) = if str_eq last dots then dots ∷ last ∷ kept else kept

-- The elements of the cleaned path, the last one first.
unfoldable pub clean_elements : Bool → List Bytes → List Bytes → List Bytes
unfolding str_eq up
clean_elements rooted kept [] = kept
clean_elements rooted kept (seg ∷ segs) =
    if str_eq seg [] || str_eq seg (b'.' ∷ [])
    then clean_elements rooted kept segs
    else if str_eq seg dots
    then clean_elements rooted (up rooted kept) segs
    else clean_elements rooted (seg ∷ kept) segs

abbrev reverse_onto : List Bytes → List Bytes → List Bytes
reverse_onto done [] = done
reverse_onto done (seg ∷ segs) = reverse_onto (seg ∷ done) segs

abbrev pub is_rooted : Bytes → Bool
is_rooted [] = false
is_rooted (c ∷ s) = c == slash

-- `path.Clean`
unfoldable pub clean : Bytes → Bytes
unfolding clean_elements split join str_eq
clean path =
    let cleaned =
      join slash (reverse_onto [] (clean_elements (is_rooted path) [] (split slash path))) in
    if is_rooted path then slash ∷ cleaned else if str_eq cleaned [] then b'.' ∷ [] else cleaned

pub data MatchResult (H : Type 0) : Type 0 where
  not_found : MatchResult H
  matched : RouterItem H → List Bytes → MatchResult H
  crashed : MatchResult H

module _ {H : Type 0} where
  abbrev pub either_item : Option (RouterItem H) → Option (RouterItem H) → Option (RouterItem H)
  either_item (some item) other = some item
  either_item none other = other

  abbrev pub result_for : Option (RouterItem H) → List Bytes → MatchResult H
  result_for none vals = not_found
  result_for (some item) vals = matched item vals

  -- The two looks at the items, after `Find`.
  unfoldable pub match_found : Bytes → Bytes → Router H → FindResult → MatchResult H
  unfolding find_router_item items_of
  match_found method version r (found raw wild vals) =
      result_for
        (either_item (find_router_item (items_of raw r) method version)
          (find_router_item (items_of wild r) method version))
        vals
  match_found method version r panicked = crashed

  unfoldable pub match_route : Bytes → Bytes → Bytes → Router H → MatchResult H
  unfolding match_found clean enclose Search.find
  match_route method route version r =
      match_found method version r (Search.find (enclose (clean route) slash) slash true r.trie)

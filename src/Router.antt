-- ===== src/Router.antt =====
-- routing/router.go: the router of the HTTP handlers, and of routing/fn.go what it uses.
pub mod Params
pub mod Items
pub mod Placing
pub mod Reachable
pub mod Matching
pub mod Serving
mod Tests
use ginject.Prelude.{
  ℕ, zero, suc, ◌+◌, ◌-◌, Bool, true, false, not, ◌&&◌, ◌||◌, Option, none, some, List, [], ◌∷◌,
  ◌++◌, ltb, length, take, drop, if◌then◌else◌, ◌==◌,
}
use ginject.Text.{Bytes, str_eq, has_prefix}
use ginject.GoMap.{GoMap, lookup}
use ginject.GoMap
use ginject.Str.{enclose}
use ginject.Trie
use ginject.Trie.{Trie, new_trie}
use ginject.Trie.Search.{ends_with}
use ginject.Router.Params.{parse_to_param_key}

pub data Caller : Type 0 where
  add_caller use_caller for_caller group_caller : Caller

-- `handler_index` is `none` for -1.
pub record RouterItem (H : Type 0) : Type 0 where
  pub method : Bytes
  pub version : Bytes
  pub pattern : Bytes
  pub index : ℕ
  pub handler_index : Option ℕ
  pub handlers : List H
  pub param_keys : GoMap (List ℕ)

pub record Router (H : Type 0) : Type 0 where
  pub trie : Trie
  pub router_item_by_pattern : GoMap (List (RouterItem H))
  pub route_patterns : List Bytes
  pub global_middlewares : List H

abbrev pub slash : ℕ
slash = b'/'

abbrev is_nil : List Bytes → Bool
is_nil [] = true
is_nil (x ∷ xs) = false

unfoldable pub new_router : {H : Type 0} → Router H
unfolding new_trie
new_router = record {
  trie = new_trie;
  router_item_by_pattern = [];
  route_patterns = [];
  global_middlewares = [];
}

-- `toPattern`, of the string with the white space around it trimmed.
unfoldable pub to_pattern : Bytes → Bytes → Bytes → Bytes
unfolding str_eq has_prefix ends_with
to_pattern s l r =
    if str_eq s []
    then l ++ r
    else if has_prefix s l && ends_with s r
    then s
    else if not (has_prefix s l) && not (ends_with s r)
    then l ++ (s ++ r)
    else if not (has_prefix s l)
    then l ++ s
    else s ++ r

-- A pattern that is not empty, and a slash.
abbrev pub part : Bytes → Bytes
part s = if str_eq s [] then [] else s ++ slash ∷ []

-- `strings.TrimSpace` is an argument: it knows the white space of Unicode.
unfoldable pub method_route_version_to_pattern : (Bytes → Bytes) → Bytes → Bytes → Bytes → Bytes
unfolding enclose to_pattern str_eq
method_route_version_to_pattern trim_space method route version =
    enclose route slash
    ++ (part (to_pattern (trim_space version) (b'|' ∷ []) (b'|' ∷ []))
        ++ part (to_pattern (trim_space method) (b'[' ∷ []) (b']' ∷ [])))

module _ {H : Type 0} where
  abbrev pub is_for : Bytes → Bytes → RouterItem H → Bool
  is_for method version item = str_eq item.method method && str_eq item.version version

  unfoldable pub find_router_item : List (RouterItem H) → Bytes → Bytes → Option (RouterItem H)
  unfolding str_eq
  find_router_item [] method version = none
  find_router_item (item ∷ items) method version =
      if is_for method version item then some item else find_router_item items method version

  -- `items[itemPos] = item` at the first item for the method and the version, or an append.
  unfoldable pub store_item : RouterItem H → List (RouterItem H) → List (RouterItem H)
  unfolding str_eq
  store_item item [] = item ∷ []
  store_item item (other ∷ items) =
      if is_for item.method item.version other then item ∷ items else other ∷ store_item item items

  -- `r.routerItemByPattern[pattern]`, with the empty slice for nil.
  abbrev pub items_or_nil : Option (List (RouterItem H)) → List (RouterItem H)
  items_or_nil none = []
  items_or_nil (some items) = items

  unfoldable pub items_of : Bytes → Router H → List (RouterItem H)
  unfolding lookup
  items_of pattern r = items_or_nil (lookup pattern r.router_item_by_pattern)

  -- `append(handlers[:i], handlers[i+1:]...)`
  unfoldable pub without : ℕ → List H → List H
  without i hs = take i hs ++ drop (i + 1) hs

  -- `ADD` on an item that has handlers: they take the place of the main one, if there is one.
  unfoldable pub place_over : Option ℕ → List H → RouterItem H → RouterItem H
  unfolding without
  place_over (some i) hs item = record item {
    handlers = without i item.handlers ++ hs;
    handler_index = some (length item.handlers - 1);
  }
  place_over none hs item = record item {
    handlers = item.handlers ++ hs;
    handler_index = some (length item.handlers);
  }

  -- The branch of `ADD`.
  unfoldable pub place_added : List H → List H → RouterItem H → RouterItem H
  unfolding place_over
  place_added globals hs item =
      let total = length item.handlers in
      if (total == 0) && (length globals == 0)
      then record item { handlers = item.handlers ++ hs; handler_index = some 0 }
      else if (total == 0) && ltb 0 (length globals)
      then record item {
        handlers = (item.handlers ++ globals) ++ hs;
        handler_index = some (length globals);
      }
      else place_over item.handler_index hs item

  -- The branches of `push` on the caller.
  unfoldable pub place : Caller → List H → List H → RouterItem H → RouterItem H
  unfolding place_added
  place add_caller globals hs item = place_added globals hs item
  place use_caller globals hs item = record item { handlers = item.handlers ++ hs }
  place group_caller globals hs item = record item { handlers = item.handlers ++ hs }
  place for_caller globals hs item =
      if (length item.handlers == 0) && ltb 0 (length globals)
      then record item { handlers = (item.handlers ++ globals) ++ hs }
      else record item { handlers = item.handlers ++ hs }

  -- `items[0].Index`, or the index of the pattern that is about to be added.
  abbrev pub route_index : List (RouterItem H) → Router H → ℕ
  route_index [] r = length r.route_patterns
  route_index (item ∷ items) r = item.index

  abbrev pub or_created : Option (RouterItem H) → RouterItem H → RouterItem H
  or_created none new = new
  or_created (some item) new = item

  abbrev pub with_keys : GoMap (List ℕ) → RouterItem H → RouterItem H
  with_keys [] item = item
  with_keys (key ∷ keys) item = record item { param_keys = key ∷ keys }

  abbrev pub patterns_after : List (RouterItem H) → Bytes → Router H → List Bytes
  patterns_after [] pattern r = r.route_patterns ++ pattern ∷ []
  patterns_after (item ∷ items) pattern r = r.route_patterns

  module _ (trim_space : Bytes → Bytes) where
    -- The item that `push` finds or makes.
    unfoldable pub item_for : Bytes → Bytes → Bytes → Router H → RouterItem H
    unfolding items_of find_router_item method_route_version_to_pattern enclose
    item_for method route version r =
        let items = items_of (enclose route slash) r in
        or_created (find_router_item items method version) (record {
          method = method;
          version = version;
          pattern = method_route_version_to_pattern trim_space method route version;
          index = route_index items r;
          handler_index = none;
          handlers = [];
          param_keys = [];
        })

    -- The item that `push` stores.
    unfoldable pub pushed_item : Bytes → Bytes → Bytes → Caller → List H → Router H → RouterItem H
    unfolding item_for place parse_to_param_key enclose
    pushed_item method route version caller hs r =
        with_keys (parse_to_param_key (enclose route slash)).1
          (place caller r.global_middlewares hs (item_for method route version r))

    unfoldable pub push : Bytes → Bytes → Bytes → Caller → List H → Router H → Router H
    unfolding items_of store_item pushed_item enclose parse_to_param_key Trie.insert
    push method route version caller hs r =
        let pattern = enclose route slash in
        let items = items_of pattern r in
        record r {
          trie = Trie.insert pattern (parse_to_param_key pattern).0 slash r.trie;
          router_item_by_pattern =
              GoMap.insert pattern (store_item (pushed_item method route version caller hs r) items)
                r.router_item_by_pattern;
          route_patterns = patterns_after items pattern r;
        }

    unfoldable pub add_route : Bytes → Bytes → Bytes → H → Router H → Router H
    unfolding push
    add_route method route version handler r = push method route version add_caller (handler ∷ []) r

    -- `For`, with its function applied to the handlers.
    unfoldable pub for_methods : List Bytes → Bytes → Bytes → List H → Router H → Router H
    unfolding push
    for_methods [] route version hs r = r
    for_methods (method ∷ methods) route version hs r =
        for_methods methods route version hs (push method route version for_caller hs r)

    unfoldable pub use_items : Bytes → List (RouterItem H) → List H → Router H → Router H
    unfolding push
    use_items route [] hs r = r
    use_items route (item ∷ items) hs r =
        use_items route items hs (push item.method route item.version use_caller hs r)

    unfoldable pub use_entries : GoMap (List (RouterItem H)) → List H → Router H → Router H
    unfolding use_items
    use_entries [] hs r = r
    use_entries ((route, items) ∷ m) hs r = use_entries m hs (use_items route items hs r)

    -- `Use`: a push replaces one item and adds no key, so the entries are those at the start.
    unfoldable pub use_middlewares : List H → Router H → Router H
    unfolding use_entries
    use_middlewares hs r =
        use_entries r.router_item_by_pattern hs
          (record r { global_middlewares = r.global_middlewares ++ hs })

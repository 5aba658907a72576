-- ===== src/Trie.antt =====
-- internal/ds/trie.go and internal/ds/fn.go: the segment trie under the routers.
pub mod Search
pub mod Entries
pub mod Removing
pub mod Paths
pub mod Finding
pub mod Wildcard
pub mod Occurrences
pub mod Greedy
pub mod Tidy
pub mod Preserved
pub mod Moves
pub mod Reachable
mod Tests
use ginject.Prelude.{
  ℕ, zero, suc, ◌+◌, Bool, true, false, not, ◌&&◌, ◌||◌, Option, none, some, List, [], ◌∷◌, ◌++◌,
  ltb, length, take, drop, if◌then◌else◌,
}
use ginject.Text.{Bytes, str_eq, has_prefix}
use ginject.Text.Split.{split}
use ginject.Str.{segments_of}

abbrev pub star : Bytes
star = b'*' ∷ []

abbrev pub dollar : Bytes
dollar = b'$' ∷ []

mutual
  -- `Trie`: its `IsEnd`, `Raw`, `Children` and `globChildren`.
  pub data Trie : Type 0 where
    node : Bool → Bytes → Children → List Bytes → Trie

  -- `Node`, the map of the children.
  pub data Children : Type 0 where
    leaf : Children
    child : Bytes → Trie → Children → Children

unfoldable pub new_trie : Trie
new_trie = node false [] leaf []

unfoldable pub is_end : Trie → Bool
is_end (node e raw cs gs) = e

unfoldable pub raw_of : Trie → Bytes
raw_of (node e raw cs gs) = raw

unfoldable pub children : Trie → Children
children (node e raw cs gs) = cs

unfoldable pub glob_children : Trie → List Bytes
glob_children (node e raw cs gs) = gs

-- `Children[seg]`, with `none` for nil.
unfoldable pub get_child : Bytes → Children → Option Trie
get_child seg leaf = none
get_child seg (child key t cs) = if str_eq key seg then some t else get_child seg cs

-- `Children[seg] = t`
unfoldable pub set_child : Bytes → Trie → Children → Children
set_child seg t leaf = child seg t leaf
set_child seg t (child key u cs) =
    if str_eq key seg then child seg t cs else child key u (set_child seg t cs)

-- `delete(Children, seg)`
unfoldable pub delete_child : Bytes → Children → Children
delete_child seg leaf = leaf
delete_child seg (child key u cs) =
    let rest = delete_child seg cs in if str_eq key seg then rest else child key u rest

-- `len(Children) > 0`
unfoldable pub has_children : Children → Bool
has_children leaf = false
has_children (child key u cs) = true

-- `strings.Contains(seg, "*")`
unfoldable pub contains_star : Bytes → Bool
contains_star [] = false
contains_star (c ∷ s) = if str_eq (c ∷ []) star then true else contains_star s

unfoldable pub remove_glob_child : List Bytes → Bytes → List Bytes
remove_glob_child [] key = []
remove_glob_child (k ∷ ks) key =
    let rest = remove_glob_child ks key in if str_eq k key then ks else k ∷ rest

-- `IsEnd = true` and `Raw = raw`
unfoldable pub mark : Bytes → Trie → Trie
mark raw (node e r cs gs) = node true raw cs gs

unfoldable pub glob_after : Option Trie → Bytes → List Bytes → List Bytes
glob_after (some t) seg gs = gs
glob_after none seg gs = if not (str_eq seg star) && contains_star seg then gs ++ seg ∷ [] else gs

abbrev pub or_new : Option Trie → Trie
or_new none = node false [] leaf []
or_new (some t) = t

-- The loop of `Insert`. Its `node` moves down; what it writes below is written back on the way up.
unfoldable pub insert_loop : Bytes → List (Bytes × Bool) → Trie → Trie
unfolding get_child set_child glob_after mark
insert_loop raw [] t = t
insert_loop raw ((seg, last) ∷ segs) (node e r cs gs) =
    let found = get_child seg cs in
    let below = insert_loop raw segs (if last then mark raw (or_new found) else or_new found) in
    node e r (set_child seg below cs) (glob_after found seg gs)

unfoldable pub insert : Bytes → Bytes → ℕ → Trie → Trie
unfolding insert_loop segments_of
insert raw inserted sep t = insert_loop raw (segments_of inserted sep) t

-- `IsEnd = false` and `Raw = ""` at the end of the chain, where it is an end.
unfoldable pub unmark : Trie → Option Trie
unmark (node e r cs gs) = if e then some (node false [] cs gs) else none

-- One step of the loop that goes back up the chain: the child is deleted if nothing is left of it.
-- Where it is kept its parent has a child, and the loop has nothing more to delete.
unfoldable pub prune : Bytes → Trie → Trie → Trie
unfolding is_end has_children children delete_child set_child remove_glob_child
prune seg below (node e r cs gs) =
    if is_end below || has_children (children below)
    then node e r (set_child seg below cs) gs
    else node e r (delete_child seg cs) (remove_glob_child gs seg)

-- `Remove` from a node down, with `none` for false.
unfoldable pub remove_loop : List (Bytes × Bool) → Trie → Option Trie
unfolding unmark prune get_child children
remove_loop [] t = unmark t
remove_loop ((seg, last) ∷ segs) t = elim (get_child seg (children t)) [
  | none ↦ none
  | some c ↦ elim (remove_loop segs c) [ none ↦ none | some below ↦ some (prune seg below t) ]
]

unfoldable pub remove_segments : List (Bytes × Bool) → Trie → Bool × Trie
unfolding remove_loop
remove_segments [] t = (false, t)
remove_segments (seg ∷ segs) t = elim (remove_loop (seg ∷ segs) t) [
  | none ↦ (false, t)
  | some u ↦ (true, u)
]

unfoldable pub remove : Bytes → ℕ → Trie → Bool × Trie
unfolding remove_segments segments_of
remove removed sep t = remove_segments (segments_of removed sep) t

-- ===== src/Trie/Search.antt =====
-- `Find` of internal/ds/trie.go and `matchWildcard` of internal/ds/fn.go.
use ginject.Prelude.{
  ℕ, suc, ◌+◌, ◌-◌, Bool, true, false, ◌&&◌, Option, none, some, List, [], ◌∷◌, ◌++◌, leb, length,
  drop, if◌then◌else◌,
}
use ginject.Text.{Bytes, str_eq, has_prefix}
use ginject.Text.Split.{split}
use ginject.Str.{segments_of}
use ginject.Trie.{Trie, get_child, children, glob_children, is_end, raw_of, star, dollar}

-- `strings.Index`, with `none` for -1.
unfoldable pub index : Bytes → Bytes → Option ℕ
unfolding has_prefix
index [] sub = if has_prefix [] sub then some 0 else none
index (c ∷ s) sub =
    if has_prefix (c ∷ s) sub
    then some 0
    else elim (index s sub) [ none ↦ none | some i ↦ some (suc i) ]

-- `len(str) >= len(mid) && str[len(str)-len(mid):] == mid`
unfoldable pub ends_with : Bytes → Bytes → Bool
unfolding str_eq
ends_with s mid = leb (length mid) (length s) && str_eq (drop (length s - length mid) s) mid

-- The loop of `matchWildcard`, on the pieces that the cuts of `rest` at each `*` give.
unfoldable pub match_rest : Bytes → List Bytes → Bool
unfolding index ends_with str_eq
match_rest s [] = true
match_rest s (mid ∷ []) = if str_eq mid [] then true else ends_with s mid
match_rest s (mid ∷ next ∷ pieces) =
    let skipped = match_rest s (next ∷ pieces) in
    if str_eq mid [] then skipped else elim (index s mid) [
      | none ↦ false
      | some i ↦ match_rest (drop (i + length mid) s) (next ∷ pieces)
    ]

unfoldable pub match_pieces : Bytes → Bytes → List Bytes → Bool
unfolding match_rest has_prefix str_eq
match_pieces s route [] = false
match_pieces s route (prefix ∷ []) = str_eq s route
match_pieces s route (prefix ∷ rest ∷ pieces) =
    if has_prefix s prefix then match_rest (drop (length prefix) s) (rest ∷ pieces) else false

unfoldable pub match_wildcard : Bytes → Bytes → Bool
unfolding match_pieces split
match_wildcard s route = match_pieces s route (split b'*' route)

-- The first of `globChildren` that matches.
unfoldable pub first_glob : Bytes → List Bytes → Option Bytes
unfolding match_wildcard
first_glob seg [] = none
first_glob seg (route ∷ gs) =
    let rest = first_glob seg gs in if match_wildcard seg route then some route else rest

-- `if w := node.Children["*"]; w != nil && w.IsEnd { wildcardNode = w }`
unfoldable pub star_end : Trie → Option Trie → Option Trie
unfolding get_child children is_end
star_end t wild = elim (get_child star (children t)) [
  | none ↦ wild
  | some w ↦ if is_end w then some w else wild
]

-- What one round of the loop does with the node: it moves, finds no way on, or takes a nil child.
pub data Move : Type 0 where
  moved : Trie → Option Trie → List Bytes → Move
  no_match : Move
  nil_child : Move

abbrev pub glob_move : Option Bytes → Trie → Option Trie → List Bytes → Move
glob_move none t wild vals = no_match
glob_move (some route) t wild vals = elim (get_child route (children t)) [
  | none ↦ nil_child
  | some c ↦ moved c wild vals
]

abbrev pub star_move : Option Trie → Bytes → Trie → Option Trie → List Bytes → Move
star_move (some w) seg t wild vals = moved w (star_end t wild) vals
star_move none seg t wild vals = glob_move (first_glob seg (glob_children t)) t wild vals

abbrev pub param_move : Option Trie → Bytes → Trie → Option Trie → List Bytes → Move
param_move (some p) seg t wild vals = moved p (star_end t wild) (vals ++ seg ∷ [])
param_move none seg t wild vals = star_move (get_child star (children t)) seg t wild vals

unfoldable pub move : Bool → Bytes → Trie → Option Trie → List Bytes → Move
unfolding get_child children glob_children first_glob star_end
move supports_params seg t wild vals = elim (get_child seg (children t)) [
  | some c ↦ moved c (star_end t wild) vals
  | none ↦
      param_move (if supports_params then get_child dollar (children t) else none) seg t wild vals
]

-- `matchedNode`, `wildcardNode` and `paramVals` at the end of the loop, unless it went through nil.
pub data Walk : Type 0 where
  walked : Option Trie → Option Trie → List Bytes → Walk
  nil_dereference : Walk

unfoldable pub find_loop : Bool → List (Bytes × Bool) → Trie → Option Trie → List Bytes → Walk
unfolding move star_end
find_loop supports_params [] t wild vals = walked none wild vals
find_loop supports_params ((seg, last) ∷ segs) t wild vals =
    elim (move supports_params seg t wild vals) [
      | no_match ↦ walked none wild vals
      | nil_child ↦ nil_dereference
      | moved c w vs ↦
          let further = find_loop supports_params segs c w vs in
          if last then walked (some c) (star_end c w) vs else further
    ]

unfoldable pub raw_or_empty : Option Trie → Bytes
unfolding raw_of
raw_or_empty none = []
raw_or_empty (some t) = raw_of t

pub data FindResult : Type 0 where
  found : Bytes → Bytes → List Bytes → FindResult
  panicked : FindResult

abbrev pub result_of : Walk → FindResult
result_of (walked matched wild vals) = found (raw_or_empty matched) (raw_or_empty wild) vals
result_of nil_dereference = panicked

unfoldable pub find : Bytes → ℕ → Bool → Trie → FindResult
unfolding find_loop segments_of raw_or_empty
find path sep supports_params t =
    result_of (find_loop supports_params (segments_of path sep) t none [])

-- ===== src/Storage/Index/Search.antt =====
-- modules/storage/index.go: the text index. `strings.ToLower`, the letter and digit tests and the
-- encoding of a rune belong to Go's library.
pub mod Kept
pub mod Terms
pub mod Searching
use ginject.Prelude.{
  ℕ, Bool, true, false, Option, none, some, List, [], ◌∷◌, ◌++◌, leb, length, ◌||◌, if◌then◌else◌,
}
use ginject.Text.{Bytes}
use ginject.GoMap.{GoMap, lookup, insert, erase, is_empty}
use ginject.GoMap.Nested.{inner, put, drop}
use ginject.Storage.Index.{GoSet, keys_of, TableIndex, Any, field_string}

-- What the tokens take of Go's library: the runes of a string in lower case, the test that a rune is
-- a letter or a digit, and its bytes.
pub record Unicode : Type 0 where
  pub lower : Bytes → List ℕ
  pub is_word : ℕ → Bool
  pub utf8 : ℕ → Bytes

abbrev pub is_nil : List Bytes → Bool
is_nil [] = true
is_nil (t ∷ ts) = false

-- A token is kept if it has two bytes or more.
abbrev pub flush : Bytes → List Bytes
flush buf = if leb 2 (length buf) then buf ∷ [] else []

unfoldable pub tokenize_loop : Unicode → List ℕ → Bytes → List Bytes
tokenize_loop u [] buf = flush buf
tokenize_loop u (ch ∷ runes) buf =
    let inside = tokenize_loop u runes (buf ++ u.utf8 ch) in
    let behind = tokenize_loop u runes [] in if u.is_word ch then inside else flush buf ++ behind

unfoldable pub tokenize : Unicode → Bytes → List Bytes
unfolding tokenize_loop
tokenize u s = tokenize_loop u (u.lower s) []

unfoldable pub drop_terms : Bytes → List Bytes → GoMap GoSet → GoMap GoSet
unfolding drop
drop_terms id [] ids = ids
drop_terms id (t ∷ ts) ids = drop_terms id ts (drop t id ids)

-- The first half of `updateText`.
unfoldable pub forget_terms : Bytes → TableIndex → TableIndex
unfolding lookup erase drop_terms
forget_terms id idx = elim (lookup id idx.terms_by_id) [
  | none ↦ idx
  | some terms ↦ record idx {
    ids_by_term = drop_terms id terms idx.ids_by_term;
    terms_by_id = erase id idx.terms_by_id;
  }
]

unfoldable pub add_terms : Bytes → List Bytes → GoMap GoSet → GoMap GoSet
unfolding put
add_terms id [] ids = ids
add_terms id (t ∷ ts) ids = add_terms id ts (put t id tt ids)

module _ {V : Type 0} (u : Unicode) (sprint : V → Bytes) where
  -- The loop over the search fields, with the list `terms`.
  unfoldable pub index_texts :
      Bytes → GoMap (Any V) → List Bytes → GoMap GoSet → List Bytes → GoMap GoSet × List Bytes
  unfolding field_string add_terms tokenize
  index_texts id doc [] ids terms = (ids, terms)
  index_texts id doc (f ∷ fields) ids terms = elim (field_string sprint f doc) [
    | none ↦ index_texts id doc fields ids terms
    | some s ↦ index_texts id doc fields (add_terms id (tokenize u s) ids) (terms ++ tokenize u s)
  ]

  -- The second half of `updateText`.
  unfoldable pub index_terms : Bytes → GoMap (Any V) → TableIndex → TableIndex
  unfolding index_texts keys_of insert
  index_terms id doc idx =
      let (ids, terms) = index_texts id doc (keys_of idx.search_fields) idx.ids_by_term [] in
      record idx {
        ids_by_term = ids;
        terms_by_id = if is_nil terms then idx.terms_by_id else insert id terms idx.terms_by_id;
      }

  unfoldable pub update_text : Bytes → GoMap (Any V) → GoMap (Any V) → TableIndex → TableIndex
  unfolding forget_terms index_terms is_empty
  update_text id old doc idx =
      if is_empty idx.search_fields
      then idx
      else if is_empty doc
      then forget_terms id idx
      else index_terms id doc (forget_terms id idx)

  abbrev pub remove_text : Bytes → TableIndex → TableIndex
  remove_text id idx = update_text id [] [] idx

  -- `updateText` of one id after the other.
  unfoldable pub update_texts : List (Bytes × GoMap (Any V)) → TableIndex → TableIndex
  unfolding update_text
  update_texts [] idx = idx
  update_texts ((id, doc) ∷ ops) idx = update_texts ops (update_text id [] doc idx)

abbrev pub stays : Option (Unit {0}) → Bytes → List Bytes → List Bytes
stays none id rest = rest
stays (some v) id rest = id ∷ rest

-- `if !set[id] { delete(result, id) }`
unfoldable pub keep : GoSet → List Bytes → List Bytes
unfolding lookup
keep set [] = []
keep set (id ∷ ids) = stays (lookup id set) id (keep set ids)

-- The loop over the further terms.
unfoldable pub narrow : List Bytes → GoMap GoSet → List Bytes → List Bytes
unfolding lookup keep
narrow [] ids result = result
narrow (t ∷ ts) ids result =
    let kept = keep (inner t ids) result in
    let rest = narrow ts ids kept in if is_nil kept then [] else rest

abbrev pub search_terms : List Bytes → GoMap GoSet → List Bytes
search_terms [] ids = []
search_terms (t ∷ ts) ids =
    let first = keys_of (inner t ids) in
    let rest = narrow ts ids first in if is_nil first then [] else rest

unfoldable pub search_text : Unicode → Bytes → TableIndex → List Bytes
unfolding tokenize lookup keys_of narrow
search_text u query idx = search_terms (tokenize u query) idx.ids_by_term

-- ===== src/Storage/Index/Search/Kept.antt =====
-- modules/storage/index.go: the sets of the text index, with ids taken out and put in.
use ginject.Prelude.{
  ◌≡◌, refl, inl, inr, Bool, false, not, ◌&&◌, ◌||◌, Option, none, some, List, [], ◌∷◌, ◌++◌, arith,
  if◌then◌else◌, Option-cases,
}
use ginject.Text.{Bytes, str_eq, str_eq_iff}
use ginject.GoMap.{GoMap, lookup, insert, lookup-insert, lookup-erase}
use ginject.GoMap.Nested.{inner, put, drop, inner-put, inner-drop}
use ginject.Storage.Index.{GoSet, TableIndex}
use ginject.Storage.Index.Entries.{is_in}
use ginject.Storage.Index.Search.{Unicode, is_nil, tokenize, drop_terms, forget_terms, add_terms}

abbrev pub listed_term : Bytes → Bytes → GoMap GoSet → Bool
listed_term t id ids = is_in (lookup id (inner t ids))

abbrev pub member : Bytes → List Bytes → Bool
member t [] = false
member t (x ∷ xs) = str_eq x t || member t xs

pub member-append :
    (t : Bytes) (xs ys : List Bytes) → member t (xs ++ ys) ≡ (member t xs || member t ys)
member-append t [] ys = refl
member-append t (x ∷ xs) ys = ground (arith, member-append t xs ys)

abbrev pub or_nil : Option (List Bytes) → List Bytes
or_nil none = []
or_nil (some ts) = ts

listed_term-drop_terms :
    (t id j : Bytes) (ts : List Bytes) (ids : GoMap GoSet)
    → listed_term t id (drop_terms j ts ids)
      ≡ (listed_term t id ids && not (str_eq j id && member t ts))
unfolding drop_terms
listed_term-drop_terms t id j [] ids = ground arith
listed_term-drop_terms t id j (g ∷ ts) ids = ground (
  arith,
  listed_term-drop_terms t id j ts (drop g j ids),
  inner-drop g j ids t,
  lookup-erase j id (inner g ids),
  str_eq_iff g t,
)

pub listed_term-add_terms :
    (t id j : Bytes) (ts : List Bytes) (ids : GoMap GoSet)
    → listed_term t id (add_terms j ts ids) ≡ (listed_term t id ids || (str_eq j id && member t ts))
unfolding add_terms
listed_term-add_terms t id j [] ids = ground arith
listed_term-add_terms t id j (g ∷ ts) ids = ground (
  arith,
  listed_term-add_terms t id j ts (put g j tt ids),
  inner-put g j tt ids t,
  lookup-insert j id tt (inner g ids),
  str_eq_iff g t,
)

-- The index lists an id under the terms that it keeps for it, and under no other.
abbrev pub IsMatched : TableIndex → Type 0
IsMatched idx =
    (t id : Bytes)
    → listed_term t id idx.ids_by_term ≡ member t (or_nil (lookup id idx.terms_by_id))

pub listed_term-forget_terms :
    (t id j : Bytes) (idx : TableIndex)
    → IsMatched idx
    → listed_term t id (forget_terms j idx).ids_by_term
      ≡ (if str_eq j id then false else listed_term t id idx.ids_by_term)
unfolding forget_terms
listed_term-forget_terms t id j idx c = elim (Option-cases (lookup j idx.terms_by_id)) [
  | inl e ↦ ground (arith, c t id, str_eq_iff j id)
  | inr (prev, e) ↦
      ground (arith, c t id, listed_term-drop_terms t id j prev idx.ids_by_term, str_eq_iff j id)
]

pub terms-forget_terms :
    (id j : Bytes) (idx : TableIndex)
    → or_nil (lookup id (forget_terms j idx).terms_by_id)
      ≡ (if str_eq j id then [] else or_nil (lookup id idx.terms_by_id))
unfolding forget_terms
terms-forget_terms id j idx = elim (Option-cases (lookup j idx.terms_by_id)) [
  | inl e ↦ ground (arith, str_eq_iff j id)
  | inr (prev, e) ↦ ground (arith, lookup-erase j id idx.terms_by_id)
]

pub forget_terms-search_fields :
    (j : Bytes) (idx : TableIndex) → (forget_terms j idx).search_fields ≡ idx.search_fields
unfolding forget_terms
forget_terms-search_fields j idx = elim (Option-cases (lookup j idx.terms_by_id)) [
  | inl e ↦ ground arith
  | inr (prev, e) ↦ ground arith
]

pub terms_stored :
    (t id j : Bytes) (terms : List Bytes) (m : GoMap (List Bytes))
    → or_nil (lookup j m) ≡ []
    → member t (or_nil (lookup id (if is_nil terms then m else insert j terms m)))
      ≡ (if str_eq j id then member t terms else member t (or_nil (lookup id m)))
terms_stored t id j [] m h = ground (arith, str_eq_iff j id)
terms_stored t id j (x ∷ terms) m h = ground (arith, lookup-insert j id (x ∷ terms) m)

abbrev pub tokens_of : Unicode → Option Bytes → List Bytes
tokens_of u none = []
tokens_of u (some s) = tokenize u s

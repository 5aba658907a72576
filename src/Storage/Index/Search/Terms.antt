-- ===== src/Storage/Index/Search/Terms.antt =====
-- modules/storage/index.go: which terms the text index keeps of an id.
use ginject.Prelude.{
  ◌≡◌, refl, inl, inr, Bool, true, false, ◌&&◌, ◌||◌, none, List, [], ◌∷◌, ◌++◌, arith,
  if◌then◌else◌, Bool-cases, Option-cases,
}
use ginject.Text.{Bytes, str_eq, str_eq_refl}
use ginject.GoMap.{GoMap, lookup, is_empty, lookup_empty}
use ginject.Storage.Index.{GoSet, keys_of, TableIndex, Any, field_string}
use ginject.Storage.Index.Search.{
  Unicode, tokenize, forget_terms, add_terms, index_texts, index_terms, update_text,
}
use ginject.Storage.Index.Search.Kept.{
  listed_term, member, member-append, or_nil, listed_term-add_terms, IsMatched,
  listed_term-forget_terms, terms-forget_terms, forget_terms-search_fields, terms_stored, tokens_of,
}

module _ {V : Type 0} (u : Unicode) (sprint : V → Bytes) where
  -- The term is a token of one of the fields.
  abbrev pub found : Bytes → List Bytes → GoMap (Any V) → Bool
  found t [] doc = false
  found t (f ∷ fields) doc =
      member t (tokens_of u (field_string sprint f doc)) || found t fields doc

  listed_term-index_texts :
      (t id j : Bytes) (doc : GoMap (Any V)) (fields : List Bytes) (ids : GoMap GoSet)
      (terms : List Bytes)
      → listed_term t id (index_texts u sprint j doc fields ids terms).0
        ≡ (listed_term t id ids || (str_eq j id && found t fields doc))
  unfolding index_texts
  listed_term-index_texts t id j doc [] ids terms = ground arith
  listed_term-index_texts t id j doc (f ∷ fields) ids terms =
      elim (Option-cases (field_string sprint f doc)) [
        | inl e ↦ ground (arith, listed_term-index_texts t id j doc fields ids terms)
        | inr (s, e) ↦ ground (
          arith,
          listed_term-index_texts t id j doc fields (add_terms j (tokenize u s) ids)
              (terms ++ tokenize u s),
          listed_term-add_terms t id j (tokenize u s) ids,
        )
      ]

  member-index_texts :
      (t j : Bytes) (doc : GoMap (Any V)) (fields : List Bytes) (ids : GoMap GoSet)
      (terms : List Bytes)
      → member t (index_texts u sprint j doc fields ids terms).1
        ≡ (member t terms || found t fields doc)
  unfolding index_texts
  member-index_texts t j doc [] ids terms = ground arith
  member-index_texts t j doc (f ∷ fields) ids terms =
      elim (Option-cases (field_string sprint f doc)) [
        | inl e ↦ ground (arith, member-index_texts t j doc fields ids terms)
        | inr (s, e) ↦ ground (
          arith,
          member-index_texts t j doc fields (add_terms j (tokenize u s) ids)
              (terms ++ tokenize u s),
          member-append t terms (tokenize u s),
        )
      ]

  field_string_nothing :
      (f : Bytes) (doc : GoMap (Any V)) → is_empty doc ≡ true → field_string sprint f doc ≡ none
  unfolding field_string
  field_string_nothing f doc h = ground (arith, lookup_empty f doc h)

  pub found_nothing :
      (t : Bytes) (fields : List Bytes) (doc : GoMap (Any V))
      → is_empty doc ≡ true
      → found t fields doc ≡ false
  found_nothing t [] doc h = refl
  found_nothing t (f ∷ fields) doc h =
      ground (arith, field_string_nothing f doc h, found_nothing t fields doc h)

  listed_term-index_terms :
      (t id j : Bytes) (doc : GoMap (Any V)) (idx : TableIndex)
      → listed_term t id (index_terms u sprint j doc idx).ids_by_term ≡ (
          listed_term t id idx.ids_by_term
          || (str_eq j id && found t (keys_of idx.search_fields) doc))
  unfolding index_terms
  listed_term-index_terms t id j doc idx =
      ground
        (arith, listed_term-index_texts t id j doc (keys_of idx.search_fields) idx.ids_by_term [])

  terms-index_terms :
      (t id j : Bytes) (doc : GoMap (Any V)) (idx : TableIndex)
      → or_nil (lookup j idx.terms_by_id) ≡ []
      → member t (or_nil (lookup id (index_terms u sprint j doc idx).terms_by_id)) ≡ (
          if str_eq j id
          then found t (keys_of idx.search_fields) doc
          else member t (or_nil (lookup id idx.terms_by_id)))
  unfolding index_terms
  terms-index_terms t id j doc idx h =
      let fields = keys_of idx.search_fields in
      let terms = (index_texts u sprint j doc fields idx.ids_by_term []).1 in
      ground (
        arith,
        terms_stored t id j terms idx.terms_by_id h,
        member-index_texts t j doc fields idx.ids_by_term [],
      )

  pub listed_term-update_text :
      (t id j : Bytes) (old doc : GoMap (Any V)) (idx : TableIndex)
      → IsMatched idx
      → is_empty idx.search_fields ≡ false
      → listed_term t id (update_text u sprint j old doc idx).ids_by_term ≡ (
          if str_eq j id
          then found t (keys_of idx.search_fields) doc
          else listed_term t id idx.ids_by_term)
  unfolding update_text
  listed_term-update_text t id j old doc idx c h = elim (Bool-cases (is_empty doc)) [
    | inl e ↦ ground (
      arith,
      listed_term-forget_terms t id j idx c,
      found_nothing t (keys_of idx.search_fields) doc e,
    )
    | inr e ↦ ground (
      arith,
      listed_term-index_terms t id j doc (forget_terms j idx),
      listed_term-forget_terms t id j idx c,
      forget_terms-search_fields j idx,
    )
  ]

  terms-update_text :
      (t id j : Bytes) (old doc : GoMap (Any V)) (idx : TableIndex)
      → is_empty idx.search_fields ≡ false
      → member t (or_nil (lookup id (update_text u sprint j old doc idx).terms_by_id)) ≡ (
          if str_eq j id
          then found t (keys_of idx.search_fields) doc
          else member t (or_nil (lookup id idx.terms_by_id)))
  unfolding update_text
  terms-update_text t id j old doc idx h = elim (Bool-cases (is_empty doc)) [
    | inl e ↦
        ground
          (arith, terms-forget_terms id j idx, found_nothing t (keys_of idx.search_fields) doc e)
    | inr e ↦ ground (
      arith,
      terms-index_terms t id j doc (forget_terms j idx),
      terms-forget_terms id j idx,
      terms-forget_terms j j idx,
      str_eq_refl j,
      forget_terms-search_fields j idx,
    )
  ]

  pub update_text_unindexed :
      (j : Bytes) (old doc : GoMap (Any V)) (idx : TableIndex)
      → is_empty idx.search_fields ≡ true
      → update_text u sprint j old doc idx ≡ idx
  unfolding update_text
  update_text_unindexed j old doc idx e = rw e refl

  pub update_text-search_fields :
      (j : Bytes) (old doc : GoMap (Any V)) (idx : TableIndex)
      → (update_text u sprint j old doc idx).search_fields ≡ idx.search_fields
  unfolding update_text index_terms
  update_text-search_fields j old doc idx = ground (arith, forget_terms-search_fields j idx)

  -- An update keeps the two sides of the text index in agreement.
  pub update_text-IsMatched :
      (j : Bytes) (old doc : GoMap (Any V)) (idx : TableIndex)
      → IsMatched idx
      → IsMatched (update_text u sprint j old doc idx)
  update_text-IsMatched j old doc idx c t id = elim (Bool-cases (is_empty idx.search_fields)) [
    | inl e ↦ rw (update_text_unindexed j old doc idx e) (c t id)
    | inr e ↦ ground (
      arith,
      listed_term-update_text t id j old doc idx c e,
      terms-update_text t id j old doc idx e,
      c t id,
    )
  ]

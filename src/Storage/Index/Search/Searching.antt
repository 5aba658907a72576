-- ===== src/Storage/Index/Search/Searching.antt =====
-- modules/storage/index.go: what a search finds after any updates.
use ginject.Prelude.{
  ◌≡◌, ◌≢◌, refl, sym, ◌∙◌, ap, subst, inl, inr, Bool, true, false, List, [], ◌∷◌, arith, ◌↔◌,
  if◌then◌else◌, Bool-cases, Option-cases,
}
use ginject.Prelude.Members.{In, All}
use ginject.Text.{Bytes, str_eq, str_eq_iff}
use ginject.GoMap.{GoMap, lookup, is_empty}
use ginject.GoMap.Nested.{inner}
use ginject.Storage.Index.{
  GoSet, keys_of, TableIndex, new_table_index, set_of, set_schema, Any, field_string,
}
use ginject.Storage.Index.Entries.{is_in}
use ginject.Storage.Index.Listing.{last_of, In-keys_of_iff, lookup-set_of}
use ginject.Storage.Index.Search.{
  Unicode, is_nil, tokenize, update_text, update_texts, keep, narrow, search_terms, search_text,
}
use ginject.Storage.Index.Search.Kept.{listed_term, member, IsMatched, tokens_of}
use ginject.Storage.Index.Search.Terms.{
  found, found_nothing, listed_term-update_text, update_text_unindexed, update_text-search_fields,
  update_text-IsMatched,
}

is_nil→nil : (xs : List Bytes) → is_nil xs ≡ true → xs ≡ []
is_nil→nil [] h = refl
is_nil→nil (x ∷ xs) h = absurd (ground arith)

In-keep_iff :
    (id : Bytes) (set : GoSet) (ids : List Bytes)
    → In id (keep set ids) ↔ (In id ids × (is_in (lookup id set) ≡ true))
unfolding keep
In-keep_iff id set [] = (λ h. absurd h, λ (h, k). absurd h)
In-keep_iff id set (j ∷ ids) = elim (Option-cases (lookup j set)) [
  | inl e ↦ rw e (
    λ h. let (a, b) = (In-keep_iff id set ids).0 h in (inr a, b),
    λ (h, k). elim h [
      | inl q ↦ absurd (ground (arith, ap (λ x. lookup x set) q))
      | inr r ↦ (In-keep_iff id set ids).1 (r, k)
    ],
  )
  | inr (v, e) ↦ rw e (
    λ h. elim h [
      | inl q ↦ (inl q, ground (arith, ap (λ x. lookup x set) q))
      | inr r ↦ let (a, b) = (In-keep_iff id set ids).0 r in (inr a, b)
    ],
    λ (h, k). elim h [ inl q ↦ inl q | inr r ↦ inr ((In-keep_iff id set ids).1 (r, k)) ],
  )
]

In-narrow_iff :
    (id : Bytes) (ts : List Bytes) (ids : GoMap GoSet) (result : List Bytes)
    → In id (narrow ts ids result) ↔ (In id result × All (λ t. listed_term t id ids ≡ true) ts)
unfolding narrow
In-narrow_iff id [] ids result = (λ h. (h, tt), λ (h, k). h)
In-narrow_iff id (t ∷ ts) ids result =
    let kept = keep (inner t ids) result in
    let (kept_there, kept_back) = In-keep_iff id (inner t ids) result in
    let (there, back) = In-narrow_iff id ts ids kept in
    elim (Bool-cases (is_nil kept)) [
      | inl e ↦ rw e (λ h. absurd h, λ (h, (k, ks)). rw (is_nil→nil kept e) at (kept_back (h, k)))
      | inr e ↦ rw e (
        λ h. let (k, ks) = there h in let (l, m) = kept_there k in (l, (m, ks)),
        λ (h, (k, ks)). back (kept_back (h, k), ks),
      )
    ]

In-search_terms_iff :
    (id : Bytes) (ts : List Bytes) (ids : GoMap GoSet)
    → In id (search_terms ts ids) ↔ ((ts ≢ []) × All (λ t. listed_term t id ids ≡ true) ts)
In-search_terms_iff id [] ids = (λ h. absurd h, λ (h, k). absurd (h refl))
In-search_terms_iff id (t ∷ ts) ids =
    let first = keys_of (inner t ids) in
    let (there, back) = In-narrow_iff id ts ids first in
    let (key_there, key_back) = In-keys_of_iff id (inner t ids) in
    elim (Bool-cases (is_nil first)) [
      | inl e ↦ rw e (λ h. absurd h, λ (h, (k, ks)). rw (is_nil→nil first e) at (key_back k))
      | inr e ↦ rw e (
        λ h. let (k, ks) = there h in ((λ q. cc), (key_there k, ks)),
        λ (h, (k, ks)). back (key_back k, ks),
      )
    ]

In-search_text :
    (u : Unicode) (id query : Bytes) (idx : TableIndex)
    → In id (search_text u query idx) ↔ (
        (tokenize u query ≢ [])
        × All (λ t. listed_term t id idx.ids_by_term ≡ true) (tokenize u query))
unfolding search_text
In-search_text u id query idx = In-search_terms_iff id (tokenize u query) idx.ids_by_term

new-IsMatched :
    (indexed search : List Bytes) → IsMatched (set_schema indexed search new_table_index)
unfolding lookup
new-IsMatched indexed search t id = refl

member_iff : (t : Bytes) (xs : List Bytes) → (member t xs ≡ true) ↔ In t xs
member_iff t [] = (λ h. absurd (ground arith), λ h. absurd h)
member_iff t (x ∷ xs) = elim (Bool-cases (str_eq x t)) [
  | inl e ↦ rw e (λ h. inl (sym ((str_eq_iff x t).0 e)), λ h. refl)
  | inr e ↦ rw e (
    λ h. inr ((member_iff t xs).0 h),
    λ h. elim h [ inl q ↦ absurd (ground (arith, str_eq_iff x t)) | inr r ↦ (member_iff t xs).1 r ],
  )
]

All-iff : (P Q : Bytes → Type 0) (xs : List Bytes) → ((x : Bytes) → P x ↔ Q x) → All P xs ↔ All Q xs
All-iff P Q [] f = (λ h. tt, λ h. tt)
All-iff P Q (x ∷ xs) f =
    let (there, back) = f x in
    let (theres, backs) = All-iff P Q xs f in
    (λ (p, ps). (there p, theres ps), λ (q, qs). (back q, backs qs))

module _ {V : Type 0} (u : Unicode) (sprint : V → Bytes) where
  -- The term is a token of a search field of the data.
  abbrev pub IsTermOf : Bytes → List Bytes → GoMap (Any V) → Type 0
  IsTermOf t search doc = (f : Bytes) × In f search × In t (tokens_of u (field_string sprint f doc))

  found_iff :
      (t : Bytes) (fields : List Bytes) (doc : GoMap (Any V))
      → (found u sprint t fields doc ≡ true) ↔ IsTermOf t fields doc
  found_iff t [] doc = (λ h. absurd (ground arith), λ (f, h, k). absurd h)
  found_iff t (f ∷ fields) doc =
      let (there, back) = member_iff t (tokens_of u (field_string sprint f doc)) in
      let (theres, backs) = found_iff t fields doc in
      elim (Bool-cases (member t (tokens_of u (field_string sprint f doc)))) [
        | inl e ↦ rw e (λ h. (f, inl refl, there e), λ h. refl)
        | inr e ↦ rw e (
          λ h. let (g, k, l) = theres h in (g, inr k, l),
          λ (g, k, l). elim k [
            | inl q ↦ absurd (
                ground
                  (arith, back (subst (λ x. In t (tokens_of u (field_string sprint x doc))) q l)))
            | inr r ↦ backs (g, r, l)
          ],
        )
      ]

  found_nowhere :
      (t : Bytes) (fields : GoSet) (doc : GoMap (Any V))
      → is_empty fields ≡ true
      → found u sprint t (keys_of fields) doc ≡ false
  unfolding keys_of is_empty
  found_nowhere t [] doc h = refl
  found_nowhere t (f ∷ fields) doc h = absurd (ground arith)

  nothing_found :
      (t id : Bytes) (fields : GoSet) → listed_term t id [] ≡ found u sprint t (keys_of fields) []
  unfolding lookup is_empty
  nothing_found t id fields = sym (found_nothing u sprint t (keys_of fields) [] refl)

  listed_term-update_texts :
      (t id : Bytes) (ops : List (Bytes × GoMap (Any V))) (start : GoMap (Any V)) (idx : TableIndex)
      → IsMatched idx
      → listed_term t id idx.ids_by_term ≡ found u sprint t (keys_of idx.search_fields) start
      → listed_term t id (update_texts u sprint ops idx).ids_by_term
        ≡ found u sprint t (keys_of idx.search_fields) (last_of id ops start)
  unfolding update_texts
  listed_term-update_texts t id [] start idx c h = h
  listed_term-update_texts t id ((j, doc) ∷ ops) start idx c h =
      let next = update_text u sprint j [] doc idx in
      let same = update_text-search_fields u sprint j [] doc idx in
      let latest = if str_eq j id then doc else start in
      let now : listed_term t id next.ids_by_term
          ≡ found u sprint t (keys_of next.search_fields) latest =
        elim (Bool-cases (is_empty idx.search_fields)) [
          | inl e ↦ ground (
            arith,
            update_text_unindexed u sprint j [] doc idx e,
            found_nowhere t idx.search_fields doc e,
            found_nowhere t idx.search_fields start e,
          )
          | inr e ↦ ground (arith, listed_term-update_text u sprint t id j [] doc idx c e)
        ] in
      listed_term-update_texts t id ops latest next (update_text-IsMatched u sprint j [] doc idx c)
        now
      ∙ ap (λ fields. found u sprint t (keys_of fields) (last_of id ((j, doc) ∷ ops) start)) same

  term_iff :
      (t id : Bytes) (search : List Bytes) (doc : GoMap (Any V)) (b : Bool)
      → b ≡ found u sprint t (keys_of (set_of search)) doc
      → (b ≡ true) ↔ IsTermOf t search doc
  term_iff t id search doc b e =
      let (there, back) = found_iff t (keys_of (set_of search)) doc in
      (
        λ h.
            let (f, k, l) = there (sym e ∙ h) in
            (f, (lookup-set_of f search).0 ((In-keys_of_iff f (set_of search)).0 k), l),
        λ (f, k, l).
            e ∙ back (f, (In-keys_of_iff f (set_of search)).1 ((lookup-set_of f search).1 k), l),
      )

  -- After a schema was set on a new index and any updates, a search finds an id exactly where the
  -- query has a token, and each of its tokens is a token of a search field of the id's last data.
  pub In-search_text_iff :
      (indexed search : List Bytes) (ops : List (Bytes × GoMap (Any V))) (query id : Bytes)
      → In id (
          search_text u query
            (update_texts u sprint ops (set_schema indexed search new_table_index)))
        ↔ ((tokenize u query ≢ [])
            × All (λ t. IsTermOf t search (last_of id ops [])) (tokenize u query))
  In-search_text_iff indexed search ops query id =
      let idx = set_schema indexed search new_table_index in
      let last = last_of id ops [] in
      let all = update_texts u sprint ops idx in
      let (there, back) = In-search_text u id query all in
      let (forth, from) =
        All-iff (λ t. listed_term t id all.ids_by_term ≡ true) (λ t. IsTermOf t search last)
          (tokenize u query)
          (λ t. term_iff t id search last (listed_term t id all.ids_by_term) (
            listed_term-update_texts t id ops [] idx (new-IsMatched indexed search)
              (nothing_found t id (set_of search)))) in
      (λ h. let (k, ks) = there h in (k, forth ks), λ (k, ks). back (k, from ks))

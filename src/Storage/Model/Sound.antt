-- ===== src/Storage/Model/Sound.antt =====
-- modules/storage/model.go: that the index of a table agrees with its segments.
use ginject.Prelude.{
  ℕ, ◌&&◌, ◌≡◌, ◌<◌, ◌^◌, refl, sym, ◌∙◌, ap, subst, inl, inr, true, false, none, some, List, arith,
  if◌then◌else◌, Bool-cases, Option-cases,
}
use ginject.Text.{Bytes, str_eq}
use ginject.GoMap.{GoMap, lookup, is_empty, lookup_empty}
use ginject.Storage.{Record}
use ginject.Storage.Codec.{inner_bytes}
use ginject.Storage.Codec.RoundTrip.{IsEncodable}
use ginject.Storage.Replay.{Location}
use ginject.Storage.Segments.{segs, read, read_at, write_record, empty_engine}
use ginject.Storage.Segments.Numbered.{IsNumbered, empty_engine-IsNumbered}
use ginject.Storage.Segments.Reading.{write_record-IsNumbered, read_at_written, read_at_kept}
use ginject.Storage.Index.{
  GoSet, field_string, TableIndex, Any, new_table_index, set_schema, set_primary, get_primary,
  update_secondary,
}
use ginject.Storage.Index.Entries.{is_in, has, listed, IsConsistent}
use ginject.Storage.Index.Secondary.{
  wanted, update_secondary-IsConsistent, listed-update_secondary, update_secondary_unindexed,
  update_secondary-indexed_fields,
}
use ginject.Storage.Index.Search.{Unicode, forget_terms, index_terms, update_text}
use ginject.Storage.Model.{Payload, Json, Table, store_doc}
use ginject.Storage.Model.Finding.{get_primary-updated, get_primary-set_primary, store_doc_parts}

forget_terms_parts :
    (j : Bytes) (idx : TableIndex)
    → forget_terms j idx ≡ record idx {
      ids_by_term = (forget_terms j idx).ids_by_term;
      terms_by_id = (forget_terms j idx).terms_by_id;
    }
unfolding forget_terms
forget_terms_parts j idx = elim (Option-cases (lookup j idx.terms_by_id)) [
  | inl e ↦ ground arith
  | inr (prev, e) ↦ ground arith
]

module _ {V : Type 0} (crc : Bytes → ℕ) (u : Unicode) (sprint : V → Bytes) (json : Json V) where
  -- The text index is apart from the rest.
  update_text_parts :
      (j : Bytes) (old doc : GoMap (Any V)) (idx : TableIndex)
      → let after = update_text u sprint j old doc idx in
        after ≡ record idx { ids_by_term = after.ids_by_term; terms_by_id = after.terms_by_id }
  unfolding update_text index_terms
  update_text_parts j old doc idx = elim (Bool-cases (is_empty idx.search_fields)) [
    | inl e ↦ rw e refl
    | inr e ↦ elim (Bool-cases (is_empty doc)) [
      | inl k ↦ rw (e, k) (forget_terms_parts j idx)
      | inr k ↦ rw (e, k) (ground (arith, forget_terms_parts j idx))
    ]
  ]

  -- The record at the location of an id has data, and the secondary index lists the id under its
  -- values and no others.
  abbrev pub IsKept : Table → Bytes → Location → Type 0
  IsKept t id loc =
      (r : Record) × (p : Payload V) × (read_at crc (segs t.engine) loc ≡ read r)
      × (json.unmarshal r.payload ≡ some p)
      × ((f v : Bytes)
          → listed f v id t.idx.secondary_by_field ≡ wanted sprint f v t.idx.indexed_fields p.doc)

  pub record IsSound (t : Table) : Type 0 where
    pub numbered : IsNumbered t.engine
    pub consistent : IsConsistent t.idx
    pub kept : (id : Bytes) (loc : Location) → get_primary id t.idx ≡ some loc → IsKept t id loc
    pub unlisted :
        (id f v : Bytes)
        → get_primary id t.idx ≡ none
        → listed f v id t.idx.secondary_by_field ≡ false

  wanted_nowhere :
      (f v : Bytes) (idx : TableIndex) (doc : GoMap (Any V))
      → is_empty idx.indexed_fields ≡ true
      → wanted sprint f v idx.indexed_fields doc ≡ false
  wanted_nowhere f v idx doc e = ground (arith, lookup_empty f idx.indexed_fields e)

  listed_unindexed :
      (t : Table) (id f v : Bytes)
      → IsSound t
      → is_empty t.idx.indexed_fields ≡ true
      → listed f v id t.idx.secondary_by_field ≡ false
  listed_unindexed t id f v s e = elim (Option-cases (get_primary id t.idx)) [
    | inl k ↦ s.unlisted id f v k
    | inr (loc, k) ↦
        let (r, p, l, m, n) = s.kept id loc k in n f v ∙ wanted_nowhere f v t.idx p.doc e
  ]

  listed-stored :
      (t : Table) (j id f v : Bytes) (old doc : GoMap (Any V)) (loc : Location)
      → IsSound t
      → listed f v id
          (update_secondary sprint j old doc (set_primary j loc t.idx)).secondary_by_field
        ≡ (if str_eq j id
            then wanted sprint f v t.idx.indexed_fields doc
            else listed f v id t.idx.secondary_by_field)
  unfolding set_primary
  listed-stored t j id f v old doc loc s = elim (Bool-cases (is_empty t.idx.indexed_fields)) [
    | inl e ↦ ground (
      arith,
      update_secondary_unindexed sprint j old doc (set_primary j loc t.idx) e,
      listed_unindexed t id f v s e,
      wanted_nowhere f v t.idx doc e,
    )
    | inr e ↦
        listed-update_secondary sprint f v id j old doc (set_primary j loc t.idx) (s.consistent) e
  ]

  -- The index of a table after `store_doc`.
  abbrev stored : Record → GoMap (Any V) → GoMap (Any V) → Table → TableIndex
  stored r old doc t = update_text u sprint r.id old doc (
      update_secondary sprint r.id old doc (set_primary r.id (write_record crc r t.engine).0 t.idx))

  secondary_stored :
      (r : Record) (old doc : GoMap (Any V)) (t : Table) (id f v : Bytes)
      → IsSound t
      → listed f v id (stored r old doc t).secondary_by_field ≡ (
          if str_eq r.id id
          then wanted sprint f v t.idx.indexed_fields doc
          else listed f v id t.idx.secondary_by_field)
  secondary_stored r old doc t id f v s =
      let loc = (write_record crc r t.engine).0 in
      ap (λ x. listed f v id x.secondary_by_field)
        (update_text_parts r.id old doc
          (update_secondary sprint r.id old doc (set_primary r.id loc t.idx)))
      ∙ listed-stored t r.id id f v old doc loc s

  set_primary-indexed_fields :
      (id : Bytes) (loc : Location) (idx : TableIndex)
      → (set_primary id loc idx).indexed_fields ≡ idx.indexed_fields
  unfolding set_primary
  set_primary-indexed_fields id loc idx = refl

  set_primary-IsConsistent :
      (id : Bytes) (loc : Location) (idx : TableIndex)
      → IsConsistent idx
      → IsConsistent (set_primary id loc idx)
  unfolding set_primary
  set_primary-IsConsistent id loc idx c = c

  stored-indexed_fields :
      (r : Record) (old doc : GoMap (Any V)) (t : Table)
      → (stored r old doc t).indexed_fields ≡ t.idx.indexed_fields
  stored-indexed_fields r old doc t =
      let loc = (write_record crc r t.engine).0 in
      ap (λ x. x.indexed_fields)
        (update_text_parts r.id old doc
          (update_secondary sprint r.id old doc (set_primary r.id loc t.idx)))
      ∙ update_secondary-indexed_fields sprint r.id old doc (set_primary r.id loc t.idx)
      ∙ set_primary-indexed_fields r.id loc t.idx

  get_primary-stored :
      (r : Record) (old doc : GoMap (Any V)) (t : Table) (id : Bytes)
      → get_primary id (stored r old doc t)
        ≡ (if str_eq r.id id then some (write_record crc r t.engine).0 else get_primary id t.idx)
  get_primary-stored r old doc t id =
      let loc = (write_record crc r t.engine).0 in
      get_primary-updated crc u sprint json r.id id old doc (set_primary r.id loc t.idx)
      ∙ get_primary-set_primary crc u sprint json id r.id loc t.idx

  wanted_same :
      (f v : Bytes) (fields : GoSet) (d e : GoMap (Any V))
      → field_string sprint f d ≡ field_string sprint f e
      → wanted sprint f v fields d ≡ wanted sprint f v fields e
  wanted_same f v fields d e h = ap (λ x. is_in (lookup f fields) && has x v) h

  -- The record of a document, written, and the index told of its data, leave a table whose index agrees
  -- with its segments, where JSON decodes the payload to data with the same strings: that is what the
  -- index is made of.
  pub store_doc-IsSound :
      (r : Record) (old doc : GoMap (Any V)) (p : Payload V) (t : Table)
      → IsSound t
      → IsEncodable r
      → crc (inner_bytes r) < 2 ^ 32
      → json.unmarshal r.payload ≡ some p
      → ((f : Bytes) → field_string sprint f doc ≡ field_string sprint f p.doc)
      → IsSound (store_doc crc u sprint json r old doc t)
  store_doc-IsSound r old doc p t s fits sum from agree =
      let (loc, next) = write_record crc r t.engine in
      let fields = stored-indexed_fields r old doc t in
      let middle = set_primary r.id loc t.idx in
      rw (store_doc_parts crc u sprint json r old doc t) (record {
        numbered = write_record-IsNumbered crc r t.engine s.numbered;
        consistent =
            subst IsConsistent
              (sym (update_text_parts r.id old doc (update_secondary sprint r.id old doc middle)))
              (update_secondary-IsConsistent sprint r.id old doc middle
                (set_primary-IsConsistent r.id loc t.idx s.consistent));
        kept = λ id at_loc h. elim (Bool-cases (str_eq r.id id)) [
          | inl e ↦
              let same : loc ≡ at_loc = ground (arith, get_primary-stored r old doc t id) in
              (
                r,
                p,
                subst (λ l. read_at crc (segs next) l ≡ read r) same
                    (read_at_written crc r t.engine s.numbered fits sum),
                from,
                λ f v.
                    let now : listed f v id (stored r old doc t).secondary_by_field
                        ≡ wanted sprint f v t.idx.indexed_fields p.doc =
                      ground (
                        arith,
                        secondary_stored r old doc t id f v s,
                        wanted_same f v t.idx.indexed_fields doc p.doc (agree f),
                      ) in
                    now ∙ ap (λ x. wanted sprint f v x p.doc) (sym fields),
              )
          | inr e ↦
              let (before, q, l, m, n) =
                s.kept id at_loc (ground (arith, get_primary-stored r old doc t id)) in
              (
                before,
                q,
                read_at_kept crc r t.engine at_loc before l,
                m,
                λ f v.
                    let now : listed f v id (stored r old doc t).secondary_by_field
                        ≡ wanted sprint f v t.idx.indexed_fields q.doc =
                      ground (arith, secondary_stored r old doc t id f v s, n f v) in
                    now ∙ ap (λ x. wanted sprint f v x q.doc) (sym fields),
              )
        ];
        unlisted = λ id f v h.
            let primary = get_primary-stored r old doc t id in
            elim (Bool-cases (str_eq r.id id)) [
              | inl e ↦ absurd (ground arith)
              | inr e ↦ secondary_stored r old doc t id f v s ∙ ground (arith, s.unlisted id f v)
            ];
      })

  -- A new engine with a schema.
  pub empty-IsSound :
      (indexed search : List Bytes)
      → IsSound (record { engine = empty_engine; idx = set_schema indexed search new_table_index })
  unfolding get_primary lookup
  empty-IsSound indexed search = record {
    numbered = empty_engine-IsNumbered;
    consistent = λ f v id. refl;
    kept = λ id loc h. absurd (ground arith);
    unlisted = λ id f v h. refl;
  }

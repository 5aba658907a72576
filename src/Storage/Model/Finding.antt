-- ===== src/Storage/Model/Finding.antt =====
-- modules/storage/model.go: what `FindByID` gives after a write.
use ginject.Prelude.{
  ℕ, ◌≡◌, ◌<◌, ◌^◌, refl, sym, subst, ◌∙◌, ap, inl, inr, true, false, Option, none, some, arith,
  if◌then◌else◌, Bool-cases, Option-cases,
}
use ginject.Text.{Bytes, str_eq, str_eq_iff, str_eq_refl}
use ginject.GoMap.{GoMap, lookup, lookup-insert}
use ginject.Storage.{Record}
use ginject.Storage.Codec.{inner_bytes}
use ginject.Storage.Codec.RoundTrip.{IsEncodable}
use ginject.Storage.Replay.{Location}
use ginject.Storage.Segments.{
  segs, seg_by_id, Read, read, failed, read_out_of_range, read_record_at, read_at, write_record,
}
use ginject.Storage.Segments.Numbered.{IsNumbered}
use ginject.Storage.Segments.Reading.{
  write_record-IsNumbered, read_at_written, read_at_kept, read_at_found, read_at_missing,
}
use ginject.Storage.Index.{
  TableIndex, Any, set_primary, get_primary, forget_values, index_values, update_secondary,
}
use ginject.Storage.Index.Search.{Unicode, forget_terms, index_terms, update_text}
use ginject.Storage.Model.{
  Json, Document, ok, error, not_found, invalid_id, Table, is_blank, doc_of, doc_read, read_doc,
  store_doc, find_at, find_by_id,
}

forget_values-location_by_id :
    (id : Bytes) (idx : TableIndex) → (forget_values id idx).location_by_id ≡ idx.location_by_id
unfolding forget_values
forget_values-location_by_id id idx = elim (Option-cases (lookup id idx.field_values_by_id)) [
  | inl e ↦ ground arith
  | inr (prev, e) ↦ ground arith
]

forget_terms-location_by_id :
    (id : Bytes) (idx : TableIndex) → (forget_terms id idx).location_by_id ≡ idx.location_by_id
unfolding forget_terms
forget_terms-location_by_id id idx = elim (Option-cases (lookup id idx.terms_by_id)) [
  | inl e ↦ ground arith
  | inr (prev, e) ↦ ground arith
]

module _ {V : Type 0} (crc : Bytes → ℕ) (u : Unicode) (sprint : V → Bytes) (json : Json V) where
  update_secondary-location_by_id :
      (id : Bytes) (old doc : GoMap (Any V)) (idx : TableIndex)
      → (update_secondary sprint id old doc idx).location_by_id ≡ idx.location_by_id
  unfolding update_secondary index_values
  update_secondary-location_by_id id old doc idx =
      ground (arith, forget_values-location_by_id id idx)

  update_text-location_by_id :
      (id : Bytes) (old doc : GoMap (Any V)) (idx : TableIndex)
      → (update_text u sprint id old doc idx).location_by_id ≡ idx.location_by_id
  unfolding update_text index_terms
  update_text-location_by_id id old doc idx = ground (arith, forget_terms-location_by_id id idx)

  pub get_primary-updated :
      (id key : Bytes) (old doc : GoMap (Any V)) (idx : TableIndex)
      → get_primary key (update_text u sprint id old doc (update_secondary sprint id old doc idx))
        ≡ get_primary key idx
  unfolding get_primary
  get_primary-updated id key old doc idx = ap (lookup key) (
      update_text-location_by_id id old doc (update_secondary sprint id old doc idx)
      ∙ update_secondary-location_by_id id old doc idx)

  pub read_doc-read :
      (id : Bytes) (loc : Location) (t : Table) (r : Record)
      → read_at crc (segs t.engine) loc ≡ read r
      → read_doc crc u sprint json id loc t ≡ doc_of crc u sprint json id r.payload
  unfolding read_doc
  read_doc-read id loc t r h = elim (Option-cases (seg_by_id loc.seg_id (segs t.engine))) [
    | inl e ↦ absurd (ground (arith, read_at_missing crc (segs t.engine) loc e))
    | inr (s, e) ↦ ground (arith, read_at_found crc (segs t.engine) loc s e)
  ]

  doc_read-ok :
      (id : Bytes) (x : Read) (d : Document V)
      → doc_read crc u sprint json id x ≡ ok d
      → (r : Record) × (x ≡ read r) × (doc_of crc u sprint json id r.payload ≡ ok d)
  doc_read-ok id (read r) d h = (r, refl, h)
  doc_read-ok id failed d h = absurd (ground arith)
  doc_read-ok id read_out_of_range d h = absurd (ground arith)

  -- What `read_doc` gave came from a record.
  read_doc-ok :
      (id : Bytes) (loc : Location) (t : Table) (d : Document V)
      → read_doc crc u sprint json id loc t ≡ ok d
      → (r : Record) × (read_at crc (segs t.engine) loc ≡ read r)
        × (doc_of crc u sprint json id r.payload ≡ ok d)
  unfolding read_doc
  read_doc-ok id loc t d h = elim (Option-cases (seg_by_id loc.seg_id (segs t.engine))) [
    | inl e ↦ absurd (ground arith)
    | inr (s, e) ↦
        let (r, x, y) = doc_read-ok id (read_record_at crc s loc) d (ground arith) in
        (r, read_at_found crc (segs t.engine) loc s e ∙ x, y)
  ]

  pub find_by_id-read :
      (id : Bytes) (loc : Location) (t : Table) (r : Record)
      → is_blank id ≡ false
      → get_primary id t.idx ≡ some loc
      → read_at crc (segs t.engine) loc ≡ read r
      → find_by_id crc u sprint json id t ≡ doc_of crc u sprint json id r.payload
  unfolding find_by_id
  find_by_id-read id loc t r h k l =
      rw h (ap (λ x. find_at crc u sprint json id x t) k ∙ read_doc-read id loc t r l)

  find_at-ok :
      (id : Bytes) (at_loc : Option Location) (t : Table) (d : Document V)
      → find_at crc u sprint json id at_loc t ≡ ok d
      → (loc : Location) × (at_loc ≡ some loc) × (read_doc crc u sprint json id loc t ≡ ok d)
  find_at-ok id none t d h = absurd (ground arith)
  find_at-ok id (some loc) t d h = (loc, refl, h)

  -- A document that is found has a location, where its record is.
  pub find_by_id-ok :
      (id : Bytes) (t : Table) (d : Document V)
      → find_by_id crc u sprint json id t ≡ ok d
      → (is_blank id ≡ false)
        × ((loc : Location) × (get_primary id t.idx ≡ some loc)
            × ((r : Record) × (read_at crc (segs t.engine) loc ≡ read r)
                × (doc_of crc u sprint json id r.payload ≡ ok d)))
  unfolding find_by_id
  find_by_id-ok id t d h = elim (Bool-cases (is_blank id)) [
    | inl e ↦ absurd (ground arith)
    | inr e ↦
        let (loc, k, l) = find_at-ok id (get_primary id t.idx) t d (ground arith) in
        (e, (loc, k, read_doc-ok id loc t d l))
  ]

  -- `store_doc` with its parts shut.
  pub store_doc_parts :
      (r : Record) (old doc : GoMap (Any V)) (t : Table)
      → store_doc crc u sprint json r old doc t ≡ record {
        engine = (write_record crc r t.engine).1;
        idx = update_text u sprint r.id old doc (
            update_secondary sprint r.id old doc
              (set_primary r.id (write_record crc r t.engine).0 t.idx));
      }
  unfolding store_doc
  store_doc_parts r old doc t = refl

  pub get_primary-set_primary :
      (key id : Bytes) (loc : Location) (idx : TableIndex)
      → get_primary key (set_primary id loc idx)
        ≡ (if str_eq id key then some loc else get_primary key idx)
  unfolding get_primary set_primary
  get_primary-set_primary key id loc idx = lookup-insert id key loc idx.location_by_id

  pub find_by_id-store_doc :
      (r : Record) (old doc : GoMap (Any V)) (t : Table)
      → is_blank r.id ≡ false
      → IsNumbered t.engine
      → IsEncodable r
      → crc (inner_bytes r) < 2 ^ 32
      → find_by_id crc u sprint json r.id (store_doc crc u sprint json r old doc t)
        ≡ doc_of crc u sprint json r.id r.payload
  find_by_id-store_doc r old doc t h n fits sum =
      let (loc, next) = write_record crc r t.engine in
      rw (store_doc_parts r old doc t) (
        find_by_id-read r.id loc _ r h
          (get_primary-updated r.id r.id old doc (set_primary r.id loc t.idx)
            ∙ get_primary-set_primary r.id r.id loc t.idx
            ∙ ground (arith, str_eq_refl r.id))
          (read_at_written crc r t.engine n fits sum))

  -- The segments have their numbers, and every location of the index reads a record.
  pub record IsReadable (t : Table) : Type 0 where
    pub numbered : IsNumbered t.engine
    pub readable :
        (id : Bytes) (loc : Location)
        → get_primary id t.idx ≡ some loc
        → (r : Record) × (read_at crc (segs t.engine) loc ≡ read r)

  pub find_by_id_absent :
      (id : Bytes) (t : Table)
      → is_blank id ≡ false
      → get_primary id t.idx ≡ none
      → find_by_id crc u sprint json id t ≡ error not_found
  unfolding find_by_id
  find_by_id_absent id t h k = rw h (ap (λ x. find_at crc u sprint json id x t) k)

  find_by_id_blank :
      (id : Bytes) (t : Table)
      → is_blank id ≡ true
      → find_by_id crc u sprint json id t ≡ error invalid_id
  unfolding find_by_id
  find_by_id_blank id t h = rw h refl

  -- A table whose index has the same location for an id, and reads there what was read, finds the same.
  pub find_by_id_same :
      (id : Bytes) (t s : Table)
      → IsReadable t
      → ((loc : Location) (r : Record)
          → read_at crc (segs t.engine) loc ≡ read r
          → read_at crc (segs s.engine) loc ≡ read r)
      → get_primary id s.idx ≡ get_primary id t.idx
      → find_by_id crc u sprint json id s ≡ find_by_id crc u sprint json id t
  find_by_id_same id t s h keeps same = elim (Bool-cases (is_blank id)) [
    | inl e ↦ find_by_id_blank id s e ∙ sym (find_by_id_blank id t e)
    | inr e ↦ elim (Option-cases (get_primary id t.idx)) [
      | inl k ↦ find_by_id_absent id s e (same ∙ k) ∙ sym (find_by_id_absent id t e k)
      | inr (loc, k) ↦
          let (r, l) = h.readable id loc k in
          find_by_id-read id loc s r e (same ∙ k) (keeps loc r l)
          ∙ sym (find_by_id-read id loc t r e k l)
    ]
  ]

  pub get_primary-stored :
      (r : Record) (old doc : GoMap (Any V)) (t : Table) (id : Bytes)
      → get_primary id (store_doc crc u sprint json r old doc t).idx
        ≡ (if str_eq r.id id then some (write_record crc r t.engine).0 else get_primary id t.idx)
  get_primary-stored r old doc t id =
      let loc = (write_record crc r t.engine).0 in
      rw (store_doc_parts r old doc t) (
        get_primary-updated r.id id old doc (set_primary r.id loc t.idx)
        ∙ get_primary-set_primary id r.id loc t.idx)

  store_doc-engine :
      (r : Record) (old doc : GoMap (Any V)) (t : Table)
      → (store_doc crc u sprint json r old doc t).engine ≡ (write_record crc r t.engine).1
  store_doc-engine r old doc t = ap (λ x. x.engine) (store_doc_parts r old doc t)

  pub store_doc-IsReadable :
      (r : Record) (old doc : GoMap (Any V)) (t : Table)
      → IsReadable t
      → IsEncodable r
      → crc (inner_bytes r) < 2 ^ 32
      → IsReadable (store_doc crc u sprint json r old doc t)
  store_doc-IsReadable r old doc t h fits sum =
      let (new_loc, next) = write_record crc r t.engine in
      let after = store_doc-engine r old doc t in
      record {
        numbered = subst IsNumbered (sym after) (write_record-IsNumbered crc r t.engine h.numbered);
        readable = λ id loc k.
            let primary = get_primary-stored r old doc t id in
            let found : (x : Record) × (read_at crc (segs next) loc ≡ read x) =
              elim (Bool-cases (str_eq r.id id)) [
                | inl e ↦
                    let same : new_loc ≡ loc = ground arith in
                    (
                      r,
                      subst (λ l. read_at crc (segs next) l ≡ read r) same
                          (read_at_written crc r t.engine h.numbered fits sum),
                    )
                | inr e ↦
                    let (x, l) = h.readable id loc (ground arith) in
                    (x, read_at_kept crc r t.engine loc x l)
              ] in
            subst (λ e. (x : Record) × (read_at crc (segs e) loc ≡ read x)) (sym after) found;
      }

  -- What every id finds after a document was stored.
  pub find_by_id-stored :
      (r : Record) (old doc : GoMap (Any V)) (t : Table) (key : Bytes)
      → is_blank r.id ≡ false
      → IsReadable t
      → IsEncodable r
      → crc (inner_bytes r) < 2 ^ 32
      → find_by_id crc u sprint json key (store_doc crc u sprint json r old doc t) ≡ (
          if str_eq r.id key
          then doc_of crc u sprint json r.id r.payload
          else find_by_id crc u sprint json key t)
  find_by_id-stored r old doc t key h k fits sum = elim (Bool-cases (str_eq r.id key)) [
    | inl e ↦ rw e (
        ap (λ x. find_by_id crc u sprint json x (store_doc crc u sprint json r old doc t))
          (sym ((str_eq_iff r.id key).0 e))
        ∙ find_by_id-store_doc r old doc t h k.numbered fits sum)
    | inr e ↦ rw e (
        find_by_id_same key t (store_doc crc u sprint json r old doc t) k
          (λ loc x l.
            subst (λ e'. read_at crc (segs e') loc ≡ read x) (sym (store_doc-engine r old doc t))
              (read_at_kept crc r t.engine loc x l))
          (get_primary-stored r old doc t key ∙ rw e refl))
  ]

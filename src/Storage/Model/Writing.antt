-- ===== src/Storage/Model/Writing.antt =====
-- modules/storage/model.go: `Create`, `UpdateByID` and `DeleteByID` as `FindByID` sees them.
use ginject.Prelude.{
  ℕ, ◌≡◌, ◌<◌, ◌^◌, refl, sym, subst, ◌∙◌, ap, inl, inr, false, none, some, [], arith,
  if◌then◌else◌, Option-cases, Bool-cases,
}
use ginject.Prelude.Int.{ℤ}
use ginject.Text.{Bytes, str_eq, str_eq_iff}
use ginject.GoMap.{GoMap, lookup-erase}
use ginject.Storage.{Record, RecType, rec_insert, rec_update, rec_delete}
use ginject.Storage.Codec.{inner_bytes}
use ginject.Storage.Codec.RoundTrip.{IsEncodable}
use ginject.Storage.Segments.{write_record}
use ginject.Storage.Segments.Reading.{read_at_kept}
use ginject.Storage.Index.{TableIndex, Any, get_primary, delete_primary, update_secondary}
use ginject.Storage.Index.Search.{Unicode, update_text}
use ginject.Storage.Model.{
  Payload, Json, Document, Result, ok, error, panicked, not_found, Table, is_blank, doc_of,
  store_doc, create, find_by_id, update_by_id, delete_by_id,
}
use ginject.Storage.Model.Finding.{
  find_by_id-ok, find_by_id-stored, find_by_id_same, find_by_id_absent, IsReadable,
  store_doc-IsReadable, get_primary-updated,
}

-- The record of a write outside transactions.
abbrev pub write_of : RecType → Bytes → Bytes → ℤ → Bytes → Record
write_of rtype table id now payload = record {
  rtype = rtype;
  tx_id = 0;
  table = table;
  id = id;
  timestamp = now;
  payload = payload;
}

module _ {V : Type 0} (crc : Bytes → ℕ) (u : Unicode) (sprint : V → Bytes) (json : Json V) where
  doc_of-unmarshal :
      (id payload : Bytes) (p : Payload V)
      → json.unmarshal payload ≡ some p
      → doc_of crc u sprint json id payload
        ≡ ok (record { id = id; doc = p.doc; created_at = p.created; updated_at = p.updated })
  doc_of-unmarshal id payload p h = ground arith

  create_encoded :
      (table id payload : Bytes) (now : ℤ) (doc : GoMap (Any V)) (t : Table)
      → json.marshal (record { doc = doc; created = now; updated = now }) ≡ some payload
      → create crc u sprint json table id now doc t ≡ (
        ok (record { id = id; doc = doc; created_at = now; updated_at = now }),
        store_doc crc u sprint json (write_of rec_insert table id now payload) [] doc t,
      )
  unfolding create
  create_encoded table id payload now doc t h = ground arith

  abbrev id_or : Bytes → Result (Document V) → Bytes
  id_or id (ok d) = d.id
  id_or id (error e) = id
  id_or id panicked = id

  doc_of_id :
      (id payload : Bytes) (d : Document V) → doc_of crc u sprint json id payload ≡ ok d → d.id ≡ id
  doc_of_id id payload d h =
      let same : id_or id (doc_of crc u sprint json id payload) ≡ id =
        elim (Option-cases (json.unmarshal payload)) [
          | inl e ↦ ground arith
          | inr (p, e) ↦ ground arith
        ] in
      sym (ap (id_or id) h) ∙ same

  found_id :
      (id : Bytes) (t : Table) (d : Document V)
      → find_by_id crc u sprint json id t ≡ ok d
      → d.id ≡ id
  found_id id t d h =
      let (blank, (loc, k, (r, l, m))) = find_by_id-ok crc u sprint json id t d h in
      doc_of_id id r.payload d m

  update_encoded :
      (table id payload : Bytes) (now : ℤ) (doc : GoMap (Any V)) (t : Table) (old : Document V)
      → find_by_id crc u sprint json id t ≡ ok old
      → json.marshal (record { doc = doc; created = old.created_at; updated = now }) ≡ some payload
      → update_by_id crc u sprint json table id now doc t ≡ (
        ok tt,
        store_doc crc u sprint json (write_of rec_update table old.id now payload) old.doc doc t,
      )
  unfolding update_by_id
  update_encoded table id payload now doc t old h k = rw h (ground arith)

  delete_parts :
      (table id : Bytes) (now : ℤ) (t : Table) (old : Document V)
      → find_by_id crc u sprint json id t ≡ ok old
      → delete_by_id crc u sprint json table id now t ≡ (
        ok tt,
        record {
          engine = (write_record crc (write_of rec_delete table old.id now []) t.engine).1;
          idx =
              update_text u sprint old.id [] []
                (update_secondary sprint old.id [] [] (delete_primary old.id t.idx));
        },
      )
  unfolding delete_by_id
  delete_parts table id now t old h = rw h refl

  get_primary-delete_primary :
      (key id : Bytes) (idx : TableIndex)
      → get_primary key (delete_primary id idx)
        ≡ (if str_eq id key then none else get_primary key idx)
  unfolding get_primary delete_primary
  get_primary-delete_primary key id idx = lookup-erase id key idx.location_by_id

  -- `Create` with an id that is not empty and data that JSON encodes succeeds. After it the id is found
  -- with the data as JSON decodes them and the time of the creation, on an empty table too; every other
  -- id finds what it found before; and every location of the index still reads a record.
  pub find_by_id-create :
      (table id payload : Bytes) (now : ℤ) (doc decoded : GoMap (Any V)) (t : Table)
      → is_blank id ≡ false
      → IsReadable crc u sprint json t
      → IsEncodable (write_of rec_insert table id now payload)
      → crc (inner_bytes (write_of rec_insert table id now payload)) < 2 ^ 32
      → json.marshal (record { doc = doc; created = now; updated = now }) ≡ some payload
      → json.unmarshal payload ≡ some (record { doc = decoded; created = now; updated = now })
      → ((create crc u sprint json table id now doc t).0
          ≡ ok (record { id = id; doc = doc; created_at = now; updated_at = now }))
        × ((key : Bytes)
            → find_by_id crc u sprint json key (create crc u sprint json table id now doc t).1 ≡ (
                if str_eq id key
                then ok (record { id = id; doc = decoded; created_at = now; updated_at = now })
                else find_by_id crc u sprint json key t))
        × IsReadable crc u sprint json (create crc u sprint json table id now doc t).1
  find_by_id-create table id payload now doc decoded t h readable fits sum to from =
      let r = write_of rec_insert table id now payload in
      rw (create_encoded table id payload now doc t to) (
        refl,
        λ key.
            find_by_id-stored crc u sprint json r [] doc t key h readable fits sum
            ∙ ap (λ x. if str_eq id key then x else find_by_id crc u sprint json key t)
                (doc_of-unmarshal id payload _ from),
        store_doc-IsReadable crc u sprint json r [] doc t readable fits sum,
      )

  -- `UpdateByID` of a document that is found, with data that JSON encodes, succeeds. After it the id is
  -- found with the new data as JSON decodes them, the old time of creation and the time of the update;
  -- every other id finds what it found before; and every location of the index still reads a record.
  pub find_by_id-update_by_id :
      (table id payload : Bytes) (now : ℤ) (doc decoded : GoMap (Any V)) (t : Table)
      (old : Document V)
      → find_by_id crc u sprint json id t ≡ ok old
      → IsReadable crc u sprint json t
      → IsEncodable (write_of rec_update table id now payload)
      → crc (inner_bytes (write_of rec_update table id now payload)) < 2 ^ 32
      → json.marshal (record { doc = doc; created = old.created_at; updated = now }) ≡ some payload
      → json.unmarshal payload
        ≡ some (record { doc = decoded; created = old.created_at; updated = now })
      → ((update_by_id crc u sprint json table id now doc t).0 ≡ ok tt)
        × ((key : Bytes)
            → find_by_id crc u sprint json key (update_by_id crc u sprint json table id now doc t).1
              ≡ (if str_eq id key
                  then ok (record {
                    id = id;
                    doc = decoded;
                    created_at = old.created_at;
                    updated_at = now;
                  })
                  else find_by_id crc u sprint json key t))
        × IsReadable crc u sprint json (update_by_id crc u sprint json table id now doc t).1
  find_by_id-update_by_id table id payload now doc decoded t old h readable fits sum to from =
      let r = write_of rec_update table id now payload in
      let blank = (find_by_id-ok crc u sprint json id t old h).0 in
      rw (update_encoded table id payload now doc t old h to) (
        rw (found_id id t old h) (
          refl,
          λ key.
              find_by_id-stored crc u sprint json r old.doc doc t key blank readable fits sum
              ∙ ap (λ x. if str_eq id key then x else find_by_id crc u sprint json key t)
                  (doc_of-unmarshal id payload _ from),
          store_doc-IsReadable crc u sprint json r old.doc doc t readable fits sum,
        ))

  -- What every id finds after `DeleteByID` of a document that is found: that one nothing, and every
  -- other what it found before.
  pub find_by_id-delete_by_id :
      (table id : Bytes) (now : ℤ) (t : Table) (old : Document V)
      → find_by_id crc u sprint json id t ≡ ok old
      → IsReadable crc u sprint json t
      → ((delete_by_id crc u sprint json table id now t).0 ≡ ok tt)
        × ((key : Bytes)
            → find_by_id crc u sprint json key (delete_by_id crc u sprint json table id now t).1
              ≡ (if str_eq id key then error not_found else find_by_id crc u sprint json key t))
  find_by_id-delete_by_id table id now t old h readable =
      let blank = (find_by_id-ok crc u sprint json id t old h).0 in
      let left = delete_primary id t.idx in
      rw (delete_parts table id now t old h) (
        rw (found_id id t old h) (
          refl,
          λ key.
              let primary =
                get_primary-updated crc u sprint json id key [] [] left
                ∙ get_primary-delete_primary key id t.idx in
              elim (Bool-cases (str_eq id key)) [
                | inl e ↦ rw e (
                    find_by_id_absent crc u sprint json key _
                      (subst (λ x. is_blank x ≡ false) ((str_eq_iff id key).0 e) blank)
                      (primary ∙ ground arith))
                | inr e ↦ rw e (
                    find_by_id_same crc u sprint json key t _ readable
                      (λ loc r l.
                        read_at_kept crc (write_of rec_delete table id now []) t.engine loc r l)
                      (primary ∙ ground arith))
              ],
        ))

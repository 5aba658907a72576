-- ===== src/Storage/Model/Tests.antt =====
-- A table of two documents, its queries, and the theorems at it.
use ginject.Prelude.{
  ℕ, ◌≡◌, ◌≢◌, ◌<◌, ◌^◌, ◌%◌, refl, not, ◌↔◌, Option, none, some, List, [], ◌∷◌, arith, length,
  ◌==◌, if◌then◌else◌,
}
use ginject.Prelude.Int.{ℤ, pos}
use ginject.Prelude.Members.{In, All}
use ginject.Text.{Bytes, str_eq, codes}
use ginject.GoMap.{GoMap, lookup}
use ginject.MemoryCache.{bits64, int64}
use ginject.Storage.{RecType, Record, rec_insert, rec_update}
use ginject.Storage.Codec.{rec_type, type_byte}
use ginject.Storage.Codec.RoundTrip.{IsEncodable}
use ginject.Storage.Segments.{empty_engine}
use ginject.Storage.Segments.Numbered.{empty_engine-IsNumbered}
use ginject.Storage.Index.{
  Any, str, field_string, new_table_index, set_of, set_schema, get_primary, lookup_secondary,
  updates,
}
use ginject.Storage.Index.Listing.{last_of, In-lookup_secondary_iff}
use ginject.Storage.Index.Search.{Unicode, tokenize, update_texts, search_text}
use ginject.Storage.Index.Search.Searching.{IsTermOf, In-search_text_iff}
use ginject.Storage.Model.{
  Payload, Json, Document, ok, error, not_found, Table, store_doc, create, find_by_id, update_by_id,
  delete_by_id,
}
use ginject.Storage.Model.Finding.{IsReadable, store_doc-IsReadable}
use ginject.Storage.Model.Writing.{
  write_of, find_by_id-create, find_by_id-update_by_id, find_by_id-delete_by_id,
}
use ginject.Storage.Model.Sound.{IsSound, store_doc-IsSound, empty-IsSound}
use ginject.Storage.Query.{Query, op_eq, new_query, where_field}

-- Stand-ins for the libraries. The bytes of a payload are the number of its fields.
abbrev sum : Bytes → ℕ
sum s = length s % 2 ^ 32

abbrev ascii : Unicode
ascii = record { lower = λ s. s; is_word = λ c. not (c == 32); utf8 = λ c. c ∷ [] }

abbrev sprint : Unit {0} → Bytes
sprint v = []

abbrev Doc : Type 0
Doc = GoMap (Any (Unit {0}))

abbrev first : Doc
first = (codes "f", str (codes "red apple")) ∷ []

abbrev second : Doc
second = (codes "f", str (codes "red")) ∷ (codes "g", str (codes "x")) ∷ []

abbrev third : Doc
third = (codes "f", str (codes "blue")) ∷ second

abbrev payload : Doc → ℤ → ℤ → Payload (Unit {0})
payload doc created updated = record { doc = doc; created = created; updated = updated }

abbrev decode : Bytes → Option (Payload (Unit {0}))
decode [] = none
decode (n ∷ s) =
    if n == 1
    then some (payload first (pos 1) (pos 1))
    else if n == 2
    then some (payload second (pos 2) (pos 2))
    else some (payload third (pos 1) (pos 3))

abbrev json : Json (Unit {0})
json = record { marshal = λ p. some (length p.doc ∷ []); unmarshal = decode }

write_of-IsEncodable :
    (rtype : RecType) (id : ℕ) (n : ℕ) (time : ℤ)
    → rec_type (type_byte rtype) ≡ rtype
    → type_byte rtype < 256
    → int64 (bits64 time) ≡ time
    → bits64 time < 2 ^ 64
    → IsEncodable (write_of rtype (codes "t") (id ∷ []) time (n ∷ []))
write_of-IsEncodable rtype id n time known byte h k = record {
  known_type = known;
  type_fits = byte;
  tx_fits = omega arith;
  table_fits = omega arith;
  id_fits = omega arith;
  time_fits = h;
  bits_fit = k;
  size_fits = omega arith;
}

abbrev empty_table : Table
empty_table = record {
  engine = empty_engine;
  idx = set_schema (codes "f" ∷ []) (codes "f" ∷ []) new_table_index;
}

abbrev first_record : Record
first_record = write_of rec_insert (codes "t") (codes "a") (pos 1) (1 ∷ [])

first_record-IsEncodable : IsEncodable first_record
first_record-IsEncodable =
    write_of-IsEncodable rec_insert b'a' 1 (pos 1) refl (omega arith) refl (omega arith)

-- The table after `Create` of the first document.
abbrev one_doc : Table
one_doc = store_doc sum ascii sprint json first_record [] first empty_table

store_doc-IsSound_example : IsSound sum ascii sprint json one_doc
store_doc-IsSound_example =
    store_doc-IsSound sum ascii sprint json first_record [] first (payload first (pos 1) (pos 1))
      empty_table (empty-IsSound sum ascii sprint json (codes "f" ∷ []) (codes "f" ∷ []))
      first_record-IsEncodable (omega arith) refl (λ f. refl)

abbrev first_doc : Document (Unit {0})
first_doc = record { id = codes "a"; doc = first; created_at = pos 1; updated_at = pos 1 }

found_first : find_by_id sum ascii sprint json (codes "a") one_doc ≡ ok first_doc
unfolding find_by_id store_doc str_eq set_of
found_first = refl

abbrev two_docs : Table
two_docs = (create sum ascii sprint json (codes "t") (codes "b") (pos 2) second one_doc).1

abbrev second_record : Record
second_record = write_of rec_insert (codes "t") (codes "b") (pos 2) (2 ∷ [])

second_record-IsEncodable : IsEncodable second_record
second_record-IsEncodable =
    write_of-IsEncodable rec_insert b'b' 2 (pos 2) refl (omega arith) refl (omega arith)

empty_table-IsReadable : IsReadable sum ascii sprint json empty_table
unfolding get_primary lookup
empty_table-IsReadable = record {
  numbered = empty_engine-IsNumbered;
  readable = λ id loc h. absurd (ground arith);
}

one_doc-IsReadable : IsReadable sum ascii sprint json one_doc
one_doc-IsReadable =
    store_doc-IsReadable sum ascii sprint json first_record [] first empty_table
      empty_table-IsReadable first_record-IsEncodable (omega arith)

-- The first document of an empty table.
find_by_id-create_example :
    ((create sum ascii sprint json (codes "t") (codes "a") (pos 1) first empty_table).0
      ≡ ok first_doc)
    × ((key : Bytes)
        → find_by_id sum ascii sprint json key
            (create sum ascii sprint json (codes "t") (codes "a") (pos 1) first empty_table).1
          ≡ (if str_eq (codes "a") key
              then ok first_doc
              else find_by_id sum ascii sprint json key empty_table))
    × IsReadable sum ascii sprint json
        (create sum ascii sprint json (codes "t") (codes "a") (pos 1) first empty_table).1
find_by_id-create_example =
    find_by_id-create sum ascii sprint json (codes "t") (codes "a") (1 ∷ []) (pos 1) first first
      empty_table refl empty_table-IsReadable first_record-IsEncodable (omega arith) refl refl

two_docs-IsReadable : IsReadable sum ascii sprint json two_docs
unfolding create
two_docs-IsReadable =
    store_doc-IsReadable sum ascii sprint json second_record [] second one_doc one_doc-IsReadable
      second_record-IsEncodable (omega arith)

abbrev second_doc : Document (Unit {0})
second_doc = record { id = codes "b"; doc = second; created_at = pos 2; updated_at = pos 2 }

found_second : find_by_id sum ascii sprint json (codes "b") two_docs ≡ ok second_doc
unfolding find_by_id create store_doc str_eq set_of
found_second = refl

find_by_id-update_by_id_example :
    ((update_by_id sum ascii sprint json (codes "t") (codes "a") (pos 3) third one_doc).0 ≡ ok tt)
    × ((key : Bytes)
        → find_by_id sum ascii sprint json key
            (update_by_id sum ascii sprint json (codes "t") (codes "a") (pos 3) third one_doc).1
          ≡ (if str_eq (codes "a") key
              then ok
                  (record { id = codes "a"; doc = third; created_at = pos 1; updated_at = pos 3 })
              else find_by_id sum ascii sprint json key one_doc))
    × IsReadable sum ascii sprint json
        (update_by_id sum ascii sprint json (codes "t") (codes "a") (pos 3) third one_doc).1
find_by_id-update_by_id_example =
    find_by_id-update_by_id sum ascii sprint json (codes "t") (codes "a") (3 ∷ []) (pos 3) third
      third one_doc first_doc found_first one_doc-IsReadable
      (write_of-IsEncodable rec_update b'a' 3 (pos 3) refl (omega arith) refl (omega arith))
      (omega arith) refl refl

find_by_id-delete_by_id_example :
    ((delete_by_id sum ascii sprint json (codes "t") (codes "b") (pos 3) two_docs).0 ≡ ok tt)
    × ((key : Bytes)
        → find_by_id sum ascii sprint json key
            (delete_by_id sum ascii sprint json (codes "t") (codes "b") (pos 3) two_docs).1
          ≡ (if str_eq (codes "b") key
              then error not_found
              else find_by_id sum ascii sprint json key two_docs))
find_by_id-delete_by_id_example =
    find_by_id-delete_by_id sum ascii sprint json (codes "t") (codes "b") (pos 3) two_docs
      second_doc found_second two_docs-IsReadable

abbrev ops : List (Bytes × Doc)
ops = (codes "a", first) ∷ (codes "b", second) ∷ (codes "a", second) ∷ []

In-lookup_secondary_iff_example :
    In (codes "a") (
      lookup_secondary
        (codes "f")
        (codes "red")
        (updates sprint ops (set_schema (codes "f" ∷ []) [] new_table_index)))
    ↔ (In (codes "f") (codes "f" ∷ [])
        × (field_string sprint (codes "f") (last_of (codes "a") ops []) ≡ some (codes "red")))
In-lookup_secondary_iff_example =
    In-lookup_secondary_iff sprint (codes "f" ∷ []) [] ops (codes "f") (codes "red") (codes "a")

In-search_text_iff_example :
    In (codes "a") (
      search_text ascii
        (codes "red")
        (update_texts ascii sprint ops (set_schema [] (codes "f" ∷ []) new_table_index)))
    ↔ ((tokenize ascii (codes "red") ≢ [])
        × All
            (λ t. IsTermOf ascii sprint t (codes "f" ∷ []) (last_of (codes "a") ops []))
            (tokenize ascii (codes "red")))
In-search_text_iff_example =
    In-search_text_iff ascii sprint [] (codes "f" ∷ []) ops (codes "red") (codes "a")

abbrev red : Query (Unit {0})
red = where_field (codes "f") op_eq (str (codes "red")) new_query

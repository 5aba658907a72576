-- ===== src/Storage/Model.antt =====
-- modules/storage/model.go: the operations of a model on its table. The hooks and the watchers, which
-- are called around them, are left out, and so are failing file system calls.
pub mod Finding
pub mod Writing
pub mod Sound
mod Tests
use ginject.Prelude.{ℕ, Bool, true, false, Option, none, some, List, [], ◌∷◌, if◌then◌else◌}
use ginject.Prelude.Int.{ℤ}
use ginject.Text.{Bytes}
use ginject.GoMap.{GoMap}
use ginject.Storage.{Record, rec_insert, rec_update, rec_delete}
use ginject.Storage.Replay.{Location}
use ginject.Storage.Segments.{
  Engine, segs, seg_by_id, Read, read, failed, read_out_of_range, read_record_at, write_record,
}
use ginject.Storage.Index.{
  TableIndex, Any, set_primary, get_primary, delete_primary, update_secondary, remove_secondary,
}
use ginject.Storage.Index.Search.{Unicode, update_text, remove_text, search_text}

-- `docPayload`, its times in nanoseconds.
pub record Payload (V : Type 0) : Type 0 where
  pub doc : GoMap (Any V)
  pub created : ℤ
  pub updated : ℤ

-- `encoding/json` on payloads. A value that cannot be encoded is `none`.
pub record Json (V : Type 0) : Type 0 where
  pub marshal : Payload V → Option Bytes
  pub unmarshal : Bytes → Option (Payload V)

pub record Document (V : Type 0) : Type 0 where
  pub id : Bytes
  pub doc : GoMap (Any V)
  pub created_at : ℤ
  pub updated_at : ℤ

pub data StoreError : Type 0 where
  not_found corrupt_payload invalid_id not_encoded not_read : StoreError

-- A read past the end of a slice panics.
pub data Result (A : Type 0) : Type 0 where
  ok : A → Result A
  error : StoreError → Result A
  panicked : Result A

-- An `engine` with its `idx`.
pub record Table : Type 0 where
  pub engine : Engine
  pub idx : TableIndex

abbrev pub is_blank : Bytes → Bool
is_blank [] = true
is_blank (b ∷ s) = false

-- The checksum, the runes, `fmt.Sprint` and the JSON of the program's libraries.
module _ {V : Type 0} (crc : Bytes → ℕ) (u : Unicode) (sprint : V → Bytes) (json : Json V) where
  abbrev pub doc_of : Bytes → Bytes → Result (Document V)
  doc_of id payload = elim (json.unmarshal payload) [
    | none ↦ error corrupt_payload
    | some p ↦ ok (record { id = id; doc = p.doc; created_at = p.created; updated_at = p.updated })
  ]

  abbrev pub doc_read : Bytes → Read → Result (Document V)
  doc_read id (read r) = doc_of id r.payload
  doc_read id failed = error not_read
  doc_read id read_out_of_range = panicked

  unfoldable pub read_doc : Bytes → Location → Table → Result (Document V)
  unfolding seg_by_id read_record_at
  read_doc id loc t = elim (seg_by_id loc.seg_id (segs t.engine)) [
    | none ↦ error not_found
    | some s ↦ doc_read id (read_record_at crc s loc)
  ]

  -- A record is written and the index told of its document.
  unfoldable pub store_doc : Record → GoMap (Any V) → GoMap (Any V) → Table → Table
  unfolding write_record set_primary update_secondary update_text
  store_doc r old doc t =
      let (loc, next) = write_record crc r t.engine in
      record {
        engine = next;
        idx =
            update_text u sprint r.id old doc
              (update_secondary sprint r.id old doc (set_primary r.id loc t.idx));
      }

  -- `Create` with the new id and the time.
  unfoldable pub create : Bytes → Bytes → ℤ → GoMap (Any V) → Table → Result (Document V) × Table
  unfolding store_doc
  create table id now doc t =
      elim (json.marshal (record { doc = doc; created = now; updated = now })) [
        | none ↦ (error not_encoded, t)
        | some payload ↦ (
          ok (record { id = id; doc = doc; created_at = now; updated_at = now }),
          store_doc
              (record {
                rtype = rec_insert;
                tx_id = 0;
                table = table;
                id = id;
                timestamp = now;
                payload = payload;
              })
              [] doc t,
        )
      ]

  -- What `FindByID` does with an id that is not empty.
  abbrev pub find_at : Bytes → Option Location → Table → Result (Document V)
  find_at id none t = error not_found
  find_at id (some loc) t = read_doc id loc t

  unfoldable pub find_by_id : Bytes → Table → Result (Document V)
  unfolding get_primary read_doc
  find_by_id id t = if is_blank id then error invalid_id else find_at id (get_primary id t.idx) t

  abbrev pub replaced :
      Bytes → ℤ → GoMap (Any V) → Table → Result (Document V) → Result Unit × Table
  replaced table now doc t (error e) = (error e, t)
  replaced table now doc t panicked = (panicked, t)
  replaced table now doc t (ok old) =
      elim (json.marshal (record { doc = doc; created = old.created_at; updated = now })) [
        | none ↦ (error not_encoded, t)
        | some payload ↦ (
          ok tt,
          store_doc
              (record {
                rtype = rec_update;
                tx_id = 0;
                table = table;
                id = old.id;
                timestamp = now;
                payload = payload;
              })
              old.doc doc t,
        )
      ]

  -- It reads as `FindByID` does, and refuses as that does.
  unfoldable pub update_by_id : Bytes → Bytes → ℤ → GoMap (Any V) → Table → Result Unit × Table
  unfolding find_by_id store_doc
  update_by_id table id now doc t = replaced table now doc t (find_by_id id t)

  abbrev pub removed : Bytes → ℤ → Table → Result (Document V) → Result Unit × Table
  removed table now t (error e) = (error e, t)
  removed table now t panicked = (panicked, t)
  removed table now t (ok old) =
      let (loc, next) =
        write_record crc
          (record {
            rtype = rec_delete;
            tx_id = 0;
            table = table;
            id = old.id;
            timestamp = now;
            payload = [];
          })
          t.engine in
      (
        ok tt,
        record {
          engine = next;
          idx =
              remove_text u sprint old.id
                (remove_secondary sprint old.id (delete_primary old.id t.idx));
        },
      )

  unfoldable pub delete_by_id : Bytes → Bytes → ℤ → Table → Result Unit × Table
  unfolding find_by_id write_record delete_primary update_secondary update_text
  delete_by_id table id now t = removed table now t (find_by_id id t)

  -- The documents of `Search`: an id without a location, or that cannot be read, is passed over.
  abbrev pub onto_docs :
      Result (Document V) → Result (List (Document V)) → Result (List (Document V))
  onto_docs panicked rest = panicked
  onto_docs (error e) rest = rest
  onto_docs (ok d) (ok ds) = ok (d ∷ ds)
  onto_docs (ok d) (error e) = error e
  onto_docs (ok d) panicked = panicked

  unfoldable pub read_docs : List Bytes → Table → Result (List (Document V))
  unfolding get_primary read_doc
  read_docs [] t = ok []
  read_docs (id ∷ ids) t = onto_docs (find_at id (get_primary id t.idx) t) (read_docs ids t)

  unfoldable pub search : Bytes → Table → Result (List (Document V))
  unfolding search_text read_docs
  search query t = read_docs (search_text u query t.idx) t

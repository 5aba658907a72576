-- ===== src/Storage/Opening.antt =====
-- modules/storage/engine.go: `rebuildIndex`, which an engine calls when it is opened.
pub mod Locations
pub mod Rebuilt
use ginject.Prelude.{ℕ, Bool, true, false, Option, none, some, List, [], ◌∷◌, if◌then◌else◌}
use ginject.Text.{Bytes}
use ginject.GoMap.{GoMap}
use ginject.Storage.Replay.{Location}
use ginject.Storage.Segments.{
  SegFile, Read, read, failed, read_out_of_range, seg_by_id, read_record_at, rebuild_primary,
}
use ginject.Storage.Index.{TableIndex, set_primary, update_secondary}
use ginject.Storage.Index.Search.{Unicode, update_text}
use ginject.Storage.Model.{Json, is_blank}

-- A read past the end of a slice, which panics, is `none`.
module _ {V : Type 0} (crc : Bytes → ℕ) (u : Unicode) (sprint : V → Bytes) (json : Json V) where
  -- The index is told of the data of a payload that can be decoded.
  unfoldable pub load_data : Bytes → Bytes → TableIndex → TableIndex
  unfolding update_secondary update_text
  load_data id payload idx = if is_blank payload then idx else elim (json.unmarshal payload) [
    | none ↦ idx
    | some p ↦ update_text u sprint id [] p.doc (update_secondary sprint id [] p.doc idx)
  ]

  abbrev pub load_read : Bytes → Location → Read → TableIndex → Option TableIndex
  load_read id loc (read r) idx = some (load_data id r.payload (set_primary id loc idx))
  load_read id loc failed idx = some idx
  load_read id loc read_out_of_range idx = none

  -- One round of the second loop: an id that cannot be read is passed over.
  unfoldable pub load_entry : List SegFile → Bytes → Location → TableIndex → Option TableIndex
  unfolding seg_by_id read_record_at load_data set_primary
  load_entry ss id loc idx = elim (seg_by_id loc.seg_id ss) [
    | none ↦ some idx
    | some s ↦ load_read id loc (read_record_at crc s loc) idx
  ]

  unfoldable pub load_entries : List SegFile → GoMap Location → TableIndex → Option TableIndex
  unfolding load_entry
  load_entries ss [] idx = some idx
  load_entries ss ((id, loc) ∷ primary) idx = elim (load_entry ss id loc idx) [
    | none ↦ none
    | some next ↦ load_entries ss primary next
  ]

  unfoldable pub rebuild_index : List SegFile → TableIndex → Option TableIndex
  unfolding rebuild_primary load_entries
  rebuild_index ss idx = elim (rebuild_primary crc ss) [
    | none ↦ none
    | some primary ↦ load_entries ss primary idx
  ]

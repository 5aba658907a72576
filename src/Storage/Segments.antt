-- ===== src/Storage/Segments.antt =====
-- modules/storage/engine.go: the segment files of an engine, and records written to them and read
-- back. A file system call that fails is not part of the model.
pub mod Numbered
pub mod Reading
pub mod Placing
pub mod Log
use ginject.Prelude.{
  ℕ, zero, suc, ◌+◌, ◌*◌, ◌^◌, Bool, true, false, ◌&&◌, Option, none, some, List, [], ◌∷◌, ◌++◌,
  ltb, leb, ◌==◌, length, take, drop, map, if◌then◌else◌,
}
use ginject.Text.{Bytes}
use ginject.Storage.{Record}
use ginject.Storage.Codec.{Decoded, decoded, corrupt, out_of_range, encode_record, decode_record}
use ginject.Storage.Scan.{Scanned, Scan, scanned, crashed, scan_seg_file}
use ginject.GoMap.{GoMap}
use ginject.Storage.Replay.{Location, TxEntry, rebuild}

abbrev pub max_seg_size : ℕ
max_seg_size = 64 * 2 ^ 20

-- `segFile`; its `size` is the length of the content.
pub record SegFile : Type 0 where
  pub id : ℕ
  pub content : Bytes

-- `engine`: `older` are the segments but the last, which is `current`.
pub record Engine : Type 0 where
  pub older : List SegFile
  pub current : SegFile
  pub next_seg : ℕ

abbrev pub segs : Engine → List SegFile
segs e = e.older ++ e.current ∷ []

-- The engine of an empty directory.
abbrev pub empty_engine : Engine
empty_engine = record { older = []; current = record { id = 0; content = [] }; next_seg = 1 }

unfoldable pub new_segment : Engine → Engine
new_segment e = record {
  older = segs e;
  current = record { id = e.next_seg; content = [] };
  next_seg = e.next_seg + 1;
}

unfoldable pub seg_by_id : ℕ → List SegFile → Option SegFile
seg_by_id id [] = none
seg_by_id id (s ∷ ss) = if s.id == id then some s else seg_by_id id ss

pub data Read : Type 0 where
  read : Record → Read
  failed : Read
  read_out_of_range : Read

abbrev pub read_of : Decoded → Read
read_of (decoded r n) = read r
read_of corrupt = failed
read_of out_of_range = read_out_of_range

abbrev pub appended : Bytes → Engine → Engine
appended bytes e = record e {
  current = record { id = e.current.id; content = e.current.content ++ bytes };
}

abbrev pub located : ℕ → Scanned → TxEntry
located id x = record {
  rec = x.rec;
  loc = record { seg_id = id; offset = x.offset; size = x.size };
}

abbrev pub onto_log : ℕ → Scan → Option (List TxEntry) → Option (List TxEntry)
onto_log id crashed rest = none
onto_log id (scanned xs) none = none
onto_log id (scanned xs) (some es) = some (map (located id) xs ++ es)

-- The rotation at the head of `writeRecord`.
unfoldable pub rotated : ℕ → Engine → Engine
unfolding new_segment
rotated size e =
    if ltb max_seg_size (length e.current.content + size) && ltb 0 (length e.current.content)
    then new_segment e
    else e

module _ (crc : Bytes → ℕ) where
  unfoldable pub write_record : Record → Engine → Location × Engine
  unfolding rotated encode_record
  write_record r e =
      let bytes = encode_record crc r in
      let ready = rotated (length bytes) e in
      (
        record {
          seg_id = ready.current.id;
          offset = length ready.current.content;
          size = length bytes;
        },
        appended bytes ready,
      )

  -- `ReadAt` fails where the file ends too early.
  unfoldable pub read_record_at : SegFile → Location → Read
  unfolding decode_record
  read_record_at s loc =
      if leb (loc.offset + loc.size) (length s.content)
      then read_of (decode_record crc (take loc.size (drop loc.offset s.content)))
      else failed

  -- `segByID`, and then the read.
  unfoldable pub read_at : List SegFile → Location → Read
  unfolding seg_by_id read_record_at
  read_at ss loc = elim (seg_by_id loc.seg_id ss) [ none ↦ failed | some s ↦ read_record_at s loc ]

  -- The records of all segments in order, as `rebuildIndex` meets them, unless a scan crashes.
  unfoldable pub scan_segs : List SegFile → Option (List TxEntry)
  unfolding scan_seg_file
  scan_segs [] = some []
  scan_segs (s ∷ ss) = onto_log s.id (scan_seg_file crc s.content) (scan_segs ss)

  -- The map `primary` of `rebuildIndex`.
  unfoldable pub rebuild_primary : List SegFile → Option (GoMap Location)
  unfolding scan_segs rebuild
  rebuild_primary ss = elim (scan_segs ss) [ none ↦ none | some log ↦ some (rebuild log) ]

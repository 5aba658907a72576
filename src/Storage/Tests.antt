-- ===== src/Storage/Tests.antt =====
-- The writes of one document, and the theorems at them.
use ginject.Prelude.{
  true, ℕ, ◌<◌, ◌^◌, ◌≡◌, refl, ◌%◌, arith, some, List, [], ◌∷◌, ◌++◌, take, replicate, length,
}
use ginject.Prelude.Int.{pos}
use ginject.Storage.Index.{TableIndex, str, new_table_index, get_primary}
use ginject.Storage.Index.Search.{Unicode}
use ginject.Storage.Model.{Json}
use ginject.Storage.Opening.{rebuild_index}
use ginject.Storage.Opening.Rebuilt.{rebuild_index-write_all}
use ginject.Text.{Bytes, str_eq}
use ginject.GoMap.{lookup}
use ginject.Prelude.Members.{All}
use ginject.Storage.{
  Record, RecType, rec_insert, rec_update, rec_delete, rec_tx_begin, rec_tx_commit,
}
use ginject.Storage.Codec.{type_byte, rec_type, decoded, encode_record, decode_record}
use ginject.Storage.Codec.RoundTrip.{IsEncodable, decode_record-encode_record}
use ginject.Storage.Scan.{scanned, crashed, scan_seg_file, written}
use ginject.Storage.Scan.Whole.{placed, scan_seg_file-torn, scan_seg_file-zeros}
use ginject.Storage.Replay.{Location, TxEntry, rebuild, keep_records}
use ginject.Storage.Replay.Live.{Write, single, committed, cut_short, IsWrite, log_of, live_all}
use ginject.Storage.Replay.Recovery.{lookup-rebuild}
use ginject.Storage.Replay.Compacted.{plain, keep_records-log_of}
use ginject.Storage.Segments.{segs, empty_engine, write_record, read, read_at}
use ginject.Storage.Segments.Numbered.{empty_engine-IsNumbered}
use ginject.Storage.Segments.Reading.{IsKeptAt, read_at-write_record}
use ginject.Storage.Segments.Placing.{write_all}

-- A stand-in for the checksum: the number of bytes.
abbrev sum : Bytes → ℕ
sum s = length s % 2 ^ 32

sums : (s : Bytes) → sum s < 2 ^ 32
sums s = omega arith

abbrev made : RecType → ℕ → Record
made t tx = record {
  rtype = t;
  tx_id = tx;
  table = b'u' ∷ [];
  id = b'a' ∷ [];
  timestamp = pos 7;
  payload = b'x' ∷ [];
}

made-IsEncodable :
    (t : RecType) (tx : ℕ)
    → rec_type (type_byte t) ≡ t
    → type_byte t < 256
    → tx < 2 ^ 64
    → IsEncodable (made t tx)
made-IsEncodable t tx h k l = record {
  known_type = h;
  type_fits = k;
  tx_fits = l;
  table_fits = omega arith;
  id_fits = omega arith;
  time_fits = refl;
  bits_fit = omega arith;
  size_fits = omega arith;
}

insert_fits : IsEncodable (made rec_insert 0)
insert_fits = made-IsEncodable rec_insert 0 refl (omega arith) (omega arith)

decode_record-encode_record_example :
    decode_record sum (encode_record sum (made rec_insert 0) ++ b'?' ∷ [])
    ≡ decoded (made rec_insert 0) 36
decode_record-encode_record_example =
    decode_record-encode_record sum (made rec_insert 0) (b'?' ∷ []) insert_fits (omega arith)

scan_seg_file-torn_example :
    scan_seg_file sum
      (written sum (made rec_insert 0 ∷ []) ++ take 9 (encode_record sum (made rec_delete 0)))
    ≡ scanned (placed 0 (made rec_insert 0 ∷ []))
scan_seg_file-torn_example =
    scan_seg_file-torn sum sums (made rec_insert 0 ∷ []) (made rec_delete 0) 9 (insert_fits, tt)
      (made-IsEncodable rec_delete 0 refl (omega arith) (omega arith)) (omega arith)

scan_seg_file-zeros_example :
    scan_seg_file sum (written sum (made rec_insert 0 ∷ []) ++ replicate 8 0) ≡ crashed
scan_seg_file-zeros_example =
    scan_seg_file-zeros sum sums (made rec_insert 0 ∷ []) 8 (insert_fits, tt) (omega arith)

-- A document that is written, then updated in a transaction, then deleted in one that a crash cuts
-- off.
abbrev records : List Record
records =
    made rec_insert 0
    ∷ made rec_tx_begin 5
    ∷ made rec_update 5
    ∷ made rec_tx_commit 5
    ∷ made rec_tx_begin 6
    ∷ made rec_delete 6
    ∷ []

abbrev entry : ℕ → ℕ → RecType → TxEntry
entry off tx t = record { rec = made t tx; loc = record { seg_id = 0; offset = off; size = 36 } }

abbrev writes : List Write
writes =
    single (entry 0 0 rec_insert)
    ∷ committed (entry 36 5 rec_tx_begin) (entry 72 5 rec_update ∷ []) (entry 108 5 rec_tx_commit)
    ∷ cut_short (entry 144 6 rec_tx_begin) (entry 180 6 rec_delete ∷ [])
    ∷ []

writes-IsWrite : All IsWrite writes
writes-IsWrite = (
  (refl, refl),
  (
    (((λ e. omega arith), refl, ((refl, refl), tt)), (refl, refl)),
    (((λ e. omega arith), refl, ((refl, refl), tt)), tt),
  ),
)

lookup-rebuild_example :
    lookup (b'a' ∷ []) (rebuild (log_of writes)) ≡ lookup (b'a' ∷ []) (live_all writes [])
lookup-rebuild_example = lookup-rebuild writes (b'a' ∷ []) writes-IsWrite

updated :
    lookup (b'a' ∷ []) (live_all writes []) ≡ some (record { seg_id = 0; offset = 72; size = 36 })
unfolding live_all lookup str_eq
updated = refl

keep_records-log_of_example : keep_records (log_of writes) [] ≡ live_all (plain writes) []
keep_records-log_of_example = keep_records-log_of writes writes-IsWrite

-- Compaction keeps the location that the committed update has replaced.
compacted :
    lookup (b'a' ∷ []) (keep_records (log_of writes) [])
    ≡ some (record { seg_id = 0; offset = 0; size = 36 })
unfolding keep_records log_of lookup str_eq
compacted = refl

records-IsEncodable : All IsEncodable records
records-IsEncodable = (
  insert_fits,
  (
    made-IsEncodable rec_tx_begin 5 refl (omega arith) (omega arith),
    (
      made-IsEncodable rec_update 5 refl (omega arith) (omega arith),
      (
        made-IsEncodable rec_tx_commit 5 refl (omega arith) (omega arith),
        (
          made-IsEncodable rec_tx_begin 6 refl (omega arith) (omega arith),
          (made-IsEncodable rec_delete 6 refl (omega arith) (omega arith), tt),
        ),
      ),
    ),
  ),
)

logged : log_of writes ≡ (write_all sum records empty_engine).0
unfolding log_of write_all
logged = refl

read_at-write_record_example :
    (read_at sum
        (segs (write_record sum (made rec_insert 0) empty_engine).1)
        (write_record sum (made rec_insert 0) empty_engine).0
      ≡ read (made rec_insert 0))
    × ((loc : Location)
        → IsKeptAt sum
            (segs empty_engine)
            (segs (write_record sum (made rec_insert 0) empty_engine).1)
            loc)
read_at-write_record_example =
    read_at-write_record sum (made rec_insert 0) empty_engine empty_engine-IsNumbered insert_fits
      (omega arith)

-- Stand-ins for the libraries: every payload decodes to one field.
abbrev ascii : Unicode
ascii = record { lower = λ s. s; is_word = λ c. true; utf8 = λ c. c ∷ [] }

abbrev json : Json (Unit {0})
json = record {
  marshal = λ p. some (b'x' ∷ []);
  unmarshal =
      λ s. some (record { doc = (b'f' ∷ [], str s) ∷ []; created = pos 7; updated = pos 7 });
}

rebuild_index-write_all_example :
    (idx : TableIndex) × (rebuild_index sum ascii
        (λ (v : Unit {0}). [])
        json
        (segs (write_all sum records empty_engine).1)
        new_table_index
      ≡ some idx)
    × ((id : Bytes) → get_primary id idx ≡ lookup id (live_all writes []))
rebuild_index-write_all_example =
    rebuild_index-write_all sum ascii (λ (v : Unit {0}). []) json sums writes records writes-IsWrite
      records-IsEncodable logged

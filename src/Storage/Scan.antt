-- ===== src/Storage/Scan.antt =====
-- modules/storage/engine.go: the scan of the bytes of a segment file.
pub mod Whole
use ginject.Prelude.{ℕ, zero, suc, ◌+◌, Bool, true, false, List, [], ◌∷◌, ◌++◌, length, drop}
use ginject.Text.{Bytes}
use ginject.Storage.{Record}
use ginject.Storage.Codec.{Decoded, decoded, corrupt, out_of_range, decode_record, encode_record}

-- What the scan hands over for a record: its offset, the record and its size.
pub record Scanned : Type 0 where
  pub offset : ℕ
  pub rec : Record
  pub size : ℕ

-- The records up to the first damage, or a slice out of range on the way.
pub data Scan : Type 0 where
  scanned : List Scanned → Scan
  crashed : Scan

abbrev pub onto_scan : Scanned → Scan → Scan
onto_scan x (scanned xs) = scanned (x ∷ xs)
onto_scan x crashed = crashed

module _ (crc : Bytes → ℕ) where
  -- The loop of `scanSegFile` at `off`, on the bytes from there.
  unfoldable pub scan_loop : ℕ → ℕ → Bytes → Scan
  unfolding decode_record
  scan_loop zero off s = scanned []
  scan_loop (suc fuel) off [] = scanned []
  scan_loop (suc fuel) off (b ∷ s) = elim (decode_record crc (b ∷ s)) [
    | decoded r n ↦
        onto_scan (record { offset = off; rec = r; size = n })
          (scan_loop fuel (off + n) (drop n (b ∷ s)))
    | corrupt ↦ scanned []
    | out_of_range ↦ crashed
  ]

  unfoldable pub scan_seg_file : Bytes → Scan
  unfolding scan_loop
  scan_seg_file s = scan_loop (length s) 0 s

  -- The bytes that writing records leaves in a segment.
  unfoldable pub written : List Record → Bytes
  unfolding encode_record
  written [] = []
  written (r ∷ rs) = encode_record crc r ++ written rs

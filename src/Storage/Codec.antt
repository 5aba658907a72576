-- ===== src/Storage/Codec.antt =====
-- modules/storage/record.go: the bytes of a record.
pub mod Fields
pub mod RoundTrip
pub mod Damage
use ginject.Prelude.{
  ℕ, zero, suc, ◌+◌, ◌-◌, ◌*◌, ◌/◌, ◌%◌, ◌^◌, Bool, true, false, List, [], ◌∷◌, ◌++◌, ltb, ◌==◌,
  length, take, drop, if◌then◌else◌,
}
use ginject.Prelude.Int.{ℤ}
use ginject.Text.{Bytes}
use ginject.MemoryCache.{bits64, int64}
use ginject.Storage.{
  Record, RecType, rec_insert, rec_update, rec_delete, rec_tx_begin, rec_tx_commit, rec_tx_rollback,
  unknown,
}

-- The byte of a record's type. A type that the code does not know is its byte.
abbrev pub type_byte : RecType → ℕ
type_byte rec_insert = 1
type_byte rec_update = 2
type_byte rec_delete = 3
type_byte rec_tx_begin = 4
type_byte rec_tx_commit = 5
type_byte rec_tx_rollback = 6
type_byte (unknown b) = b

abbrev pub rec_type : ℕ → RecType
rec_type b =
    if b == 1
    then rec_insert
    else if b == 2
    then rec_update
    else if b == 3
    then rec_delete
    else if b == 4
    then rec_tx_begin
    else if b == 5
    then rec_tx_commit
    else if b == 6
    then rec_tx_rollback
    else unknown b

-- `binary.LittleEndian.PutUint…` on `n` bytes.
unfoldable pub put_uint : ℕ → ℕ → Bytes
put_uint zero v = []
put_uint (suc n) v = v % 256 ∷ put_uint n (v / 256)

-- `binary.LittleEndian.Uint…` of the first `n` bytes.
unfoldable pub uint : ℕ → Bytes → ℕ
uint zero s = 0
uint (suc n) [] = 0
uint (suc n) (b ∷ s) = b + 256 * uint n s

-- The bytes behind the checksum.
unfoldable pub inner_bytes : Record → Bytes
unfolding put_uint
inner_bytes r =
    type_byte r.rtype
    ∷ (put_uint 8 r.tx_id
        ++ (put_uint 2 (length r.table % 2 ^ 16)
            ++ (r.table
                ++ (put_uint 2 (length r.id % 2 ^ 16)
                    ++ (r.id
                        ++ (put_uint 8 (bits64 r.timestamp)
                            ++ (put_uint 4 (length r.payload % 2 ^ 32) ++ r.payload)))))))

abbrev pub inner_size : Record → ℕ
inner_size r = 1 + 8 + 2 + length r.table + 2 + length r.id + 8 + 4 + length r.payload

pub data Decoded : Type 0 where
  decoded : Record → ℕ → Decoded
  corrupt : Decoded
  out_of_range : Decoded

-- `data[a:b]`, for bounds in range.
abbrev pub slice : Bytes → ℕ → ℕ → Bytes
slice s a b = take (b - a) (drop a s)

-- `if off+n > full { return …, ErrCorrupt }`
abbrev pub within : ℕ → ℕ → Decoded → Decoded
within limit full rest = if ltb full limit then corrupt else rest

-- The part of `decodeRecord` from the payload's length.
unfoldable pub decode_payload : Bytes → ℕ → ℕ → (Bytes → Record) → Decoded
unfolding uint
decode_payload s full off finish =
    let plen = uint 4 (drop off s) in
    within (off + 4 + plen) full (decoded (finish (slice s (off + 4) (off + 4 + plen))) full)

-- From the length of the id.
unfoldable pub decode_id : Bytes → ℕ → ℕ → RecType → ℕ → Bytes → Decoded
unfolding uint decode_payload
decode_id s full off rtype tx_id table =
    let ilen = uint 2 (drop off s) in
    let end = off + 2 + ilen in
    within (off + 2) full (
      within end full (
        within (end + 8 + 4) full (
          decode_payload s full (end + 8) (λ payload. record {
            rtype = rtype;
            tx_id = tx_id;
            table = table;
            id = slice s (off + 2) end;
            timestamp = int64 (uint 8 (drop end s));
            payload = payload;
          }))))

-- Behind the checksum.
unfoldable pub decode_fields : Bytes → ℕ → Decoded
unfolding uint decode_id
decode_fields s full =
    let tlen = uint 2 (drop 17 s) in
    within 9 full (
      within 17 full (
        within 19 full (
          within (19 + tlen) full (
            decode_id s full (19 + tlen) (rec_type (uint 1 (drop 8 s))) (uint 8 (drop 9 s))
              (slice s 19 (19 + tlen))))))

-- `crc` is `crc32.ChecksumIEEE`.
module _ (crc : Bytes → ℕ) where
  unfoldable pub encode_record : Record → Bytes
  unfolding inner_bytes put_uint
  encode_record r =
      put_uint 4 ((4 + inner_size r) % 2 ^ 32)
      ++ (put_uint 4 (crc (inner_bytes r)) ++ inner_bytes r)

  -- The slice `data[8:full]` is out of range where `full` is below 8.
  unfoldable pub decode_record : Bytes → Decoded
  unfolding uint decode_fields
  decode_record s =
      let full = 4 + uint 4 s in
      if ltb (length s) 8
      then corrupt
      else if ltb (length s) full
      then corrupt
      else if ltb full 8
      then out_of_range
      else if crc (slice s 8 full) == uint 4 (drop 4 s)
      then decode_fields s full
      else corrupt

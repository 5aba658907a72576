-- ===== src/Storage/Codec/RoundTrip.antt =====
-- modules/storage/record.go: `decodeRecord` after `encodeRecord`.
use ginject.Prelude.{
  ℕ, ◌+◌, ◌%◌, ◌^◌, ◌<◌, ◌≤◌, ◌≡◌, refl, sym, ◌∙◌, ap, [], ◌∷◌, ◌++◌, append_assoc, arith, length,
  length-append, length-drop, drop,
}
use ginject.Text.{Bytes}
use ginject.MemoryCache.{bits64, int64}
use ginject.Storage.{Record}
use ginject.Storage.Codec.{
  type_byte, rec_type, put_uint, uint, slice, inner_bytes, inner_size, Decoded, decoded, within,
  decode_payload, decode_id, decode_fields, encode_record, decode_record,
}
use ginject.Storage.Codec.Fields.{length-put_uint, uint-put_uint, drop-field, slice-field}

-- A record whose fields fit the widths that the code writes.
pub record IsEncodable (r : Record) : Type 0 where
  pub known_type : rec_type (type_byte r.rtype) ≡ r.rtype
  pub type_fits : type_byte r.rtype < 256
  pub tx_fits : r.tx_id < 2 ^ 64
  pub table_fits : length r.table < 2 ^ 16
  pub id_fits : length r.id < 2 ^ 16
  pub time_fits : int64 (bits64 r.timestamp) ≡ r.timestamp
  pub bits_fit : bits64 r.timestamp < 2 ^ 64
  pub size_fits : 4 + inner_size r < 2 ^ 32

-- What `encodeRecord` writes behind the id, and behind the table.
abbrev behind_id : Record → Bytes
behind_id r =
    put_uint 8 (bits64 r.timestamp) ++ (put_uint 4 (length r.payload % 2 ^ 32) ++ r.payload)

abbrev behind_table : Record → Bytes
behind_table r = put_uint 2 (length r.id % 2 ^ 16) ++ (r.id ++ behind_id r)

pub length-inner_bytes : (r : Record) → length (inner_bytes r) ≡ inner_size r
unfolding inner_bytes
length-inner_bytes r =
    omega (arith, length-append r.table (behind_table r), length-append r.id (behind_id r))

within_lem : (limit full : ℕ) (rest : Decoded) → limit ≤ full → within limit full rest ≡ rest
within_lem limit full rest h = ground arith

module _ (s : Bytes) (full : ℕ) where
  decode_payload_lem :
      (off : ℕ) (finish : Bytes → Record) (payload rest : Bytes)
      → drop off s ≡ put_uint 4 (length payload % 2 ^ 32) ++ (payload ++ rest)
      → length payload < 2 ^ 32
      → off + 4 + length payload ≤ full
      → decode_payload s full off finish ≡ decoded (finish payload) full
  unfolding decode_payload
  decode_payload_lem off finish payload rest at fits k =
      let plen : uint 4 (drop off s) ≡ length payload =
        ap (uint 4) at
        ∙ uint-put_uint 4 (length payload % 2 ^ 32) (payload ++ rest) (omega arith)
        ∙ omega arith in
      let behind : drop (off + 4) s ≡ payload ++ rest =
        drop-field s (put_uint 4 (length payload % 2 ^ 32)) (payload ++ rest) off 4 (off + 4) at
          (length-put_uint 4 _) refl in
      let body =
        slice-field s payload rest (off + 4) (length payload) (off + 4 + length payload) behind refl
          refl in
      rw (plen, body) (within_lem (off + 4 + length payload) full (decoded (finish payload) full) k)

module _ (s rest : Bytes) (full : ℕ) (r : Record) (fits : IsEncodable r) where
  decode_id_lem :
      (off : ℕ)
      → drop off s ≡ behind_table r ++ rest
      → off + 2 + length r.id + 8 + 4 + length r.payload ≤ full
      → decode_id s full off r.rtype r.tx_id r.table ≡ decoded r full
  unfolding decode_id
  decode_id_lem off at k =
      let size = put_uint 2 (length r.id % 2 ^ 16) in
      let time = put_uint 8 (bits64 r.timestamp) in
      let tail = put_uint 4 (length r.payload % 2 ^ 32) ++ (r.payload ++ rest) in
      let at_size : drop off s ≡ size ++ (r.id ++ (time ++ tail)) = at ∙ simp append_assoc refl in
      let ilen : uint 2 (drop off s) ≡ length r.id =
        ap (uint 2) at_size
        ∙ uint-put_uint 2 (length r.id % 2 ^ 16) (r.id ++ (time ++ tail)) (omega arith)
        ∙ omega (arith, fits.id_fits) in
      let at_id : drop (off + 2) s ≡ r.id ++ (time ++ tail) =
        drop-field s size (r.id ++ (time ++ tail)) off 2 (off + 2) at_size (length-put_uint 2 _)
          refl in
      let id =
        slice-field s r.id (time ++ tail) (off + 2) (length r.id) (off + 2 + length r.id) at_id refl
          refl in
      let end = off + 2 + length r.id in
      let at_time : drop end s ≡ time ++ tail =
        drop-field s r.id (time ++ tail) (off + 2) (length r.id) end at_id refl refl in
      let stamp : int64 (uint 8 (drop end s)) ≡ r.timestamp =
        ap int64 (
          ap (uint 8) at_time
          ∙ uint-put_uint 8 (bits64 r.timestamp) tail (omega (arith, fits.bits_fit)))
        ∙ fits.time_fits in
      let at_payload : drop (end + 8) s ≡ tail =
        drop-field s time tail end 8 (end + 8) at_time (length-put_uint 8 _) refl in
      rw (ilen, id, stamp)
        (within_lem (off + 2) full _ (omega arith)
          ∙ within_lem end full _ (omega arith)
          ∙ within_lem (end + 8 + 4) full _ (omega arith)
          ∙ decode_payload_lem s full (end + 8) (λ payload. record r { payload = payload })
              r.payload rest at_payload (omega (arith, fits.size_fits)) (omega arith))

  decode_fields_lem :
      drop 8 s ≡ inner_bytes r ++ rest
      → 8 + inner_size r ≤ full
      → decode_fields s full ≡ decoded r full
  unfolding decode_fields
  decode_fields_lem at k =
      let kind = type_byte r.rtype ∷ [] in
      let tx = put_uint 8 r.tx_id in
      let size = put_uint 2 (length r.table % 2 ^ 16) in
      let more = behind_table r ++ rest in
      let at_type : drop 8 s ≡ kind ++ (tx ++ (size ++ (r.table ++ more))) =
        at ∙ unfold inner_bytes in simp append_assoc refl in
      let type_read : rec_type (uint 1 (drop 8 s)) ≡ r.rtype =
        let byte : uint 1 (kind ++ (tx ++ (size ++ (r.table ++ more)))) ≡ type_byte r.rtype =
          unfold uint in omega arith in
        ap rec_type (ap (uint 1) at_type ∙ byte) ∙ fits.known_type in
      let at_tx : drop 9 s ≡ tx ++ (size ++ (r.table ++ more)) =
        drop-field s kind (tx ++ (size ++ (r.table ++ more))) 8 1 9 at_type refl refl in
      let tx_read : uint 8 (drop 9 s) ≡ r.tx_id =
        ap (uint 8) at_tx
        ∙ uint-put_uint 8 r.tx_id (size ++ (r.table ++ more)) (omega (arith, fits.tx_fits)) in
      let at_size : drop 17 s ≡ size ++ (r.table ++ more) =
        drop-field s tx (size ++ (r.table ++ more)) 9 8 17 at_tx (length-put_uint 8 _) refl in
      let tlen : uint 2 (drop 17 s) ≡ length r.table =
        ap (uint 2) at_size
        ∙ uint-put_uint 2 (length r.table % 2 ^ 16) (r.table ++ more) (omega arith)
        ∙ omega (arith, fits.table_fits) in
      let at_table : drop 19 s ≡ r.table ++ more =
        drop-field s size (r.table ++ more) 17 2 19 at_size (length-put_uint 2 _) refl in
      let table =
        slice-field s r.table more 19 (length r.table) (19 + length r.table) at_table refl refl in
      let at_more : drop (19 + length r.table) s ≡ more =
        drop-field s r.table more 19 (length r.table) (19 + length r.table) at_table refl refl in
      rw (tlen, type_read, tx_read, table)
        (within_lem 9 full _ (omega arith)
          ∙ within_lem 17 full _ (omega arith)
          ∙ within_lem 19 full _ (omega arith)
          ∙ within_lem (19 + length r.table) full _ (omega arith)
          ∙ decode_id_lem (19 + length r.table) at_more (omega arith))

checks_pass :
    (crc : Bytes → ℕ) (s : Bytes) (full : ℕ)
    → 4 + uint 4 s ≡ full
    → 8 ≤ full
    → full ≤ length s
    → crc (slice s 8 full) ≡ uint 4 (drop 4 s)
    → decode_record crc s ≡ decode_fields s full
unfolding decode_record
checks_pass crc s full e h k sum = rw e (ground arith)

-- Decoding the bytes of a record, whatever stands behind them, gives that record and its length.
pub decode_record-encode_record :
    (crc : Bytes → ℕ) (r : Record) (rest : Bytes)
    → IsEncodable r
    → crc (inner_bytes r) < 2 ^ 32
    → decode_record crc (encode_record crc r ++ rest) ≡ decoded r (8 + inner_size r)
decode_record-encode_record crc r rest fits sum =
    let s = encode_record crc r ++ rest in
    let size = put_uint 4 ((4 + inner_size r) % 2 ^ 32) in
    let check = put_uint 4 (crc (inner_bytes r)) in
    let body = inner_bytes r ++ rest in
    let full = 8 + inner_size r in
    let at_size : drop 0 s ≡ size ++ (check ++ body) =
      unfold encode_record in simp append_assoc refl in
    let at_check : drop 4 s ≡ check ++ body =
      drop-field s size (check ++ body) 0 4 4 at_size (length-put_uint 4 _) refl in
    let at_body : drop 8 s ≡ body =
      drop-field s check body 4 4 8 at_check (length-put_uint 4 _) refl in
    let head : uint 4 s ≡ 4 + inner_size r =
      ap (uint 4) at_size
      ∙ uint-put_uint 4 ((4 + inner_size r) % 2 ^ 32) (check ++ body) (omega arith)
      ∙ omega (arith, fits.size_fits) in
    let long : full ≤ length s = omega (
      arith,
      ap length at_body,
      length-drop 8 s,
      length-append (inner_bytes r) rest,
      length-inner_bytes r,
    ) in
    let inner =
      slice-field s (inner_bytes r) rest 8 (inner_size r) full at_body (length-inner_bytes r)
        refl in
    let sums : crc (slice s 8 full) ≡ uint 4 (drop 4 s) =
      ap crc inner
      ∙ sym (
          ap (uint 4) at_check ∙ uint-put_uint 4 (crc (inner_bytes r)) body (omega (arith, sum))) in
    checks_pass crc s full (omega (arith, head)) (omega arith) long sums
    ∙ decode_fields_lem s rest full r fits at_body (omega arith)

-- ===== src/Storage/Codec/Damage.antt =====
-- modules/storage/record.go: `decodeRecord` on bytes that are no whole record.
use ginject.Prelude.{
  ℕ, zero, suc, ◌+◌, ◌%◌, ◌^◌, ◌<◌, ◌≤◌, ◌≡◌, refl, ◌∙◌, inl, inr, [], ◌∷◌, ◌++◌, arith, ltb,
  length, length-append, length-take, take, Bool-cases,
}
use ginject.Text.{Bytes}
use ginject.Storage.{Record}
use ginject.Storage.Codec.{
  put_uint, uint, inner_bytes, inner_size, corrupt, out_of_range, encode_record, decode_record,
}
use ginject.Storage.Codec.Fields.{length-put_uint, uint-put_uint}
use ginject.Storage.Codec.RoundTrip.{length-inner_bytes}

pub length-encode_record :
    (crc : Bytes → ℕ) (r : Record) → length (encode_record crc r) ≡ 8 + inner_size r
unfolding encode_record
length-encode_record crc r =
    let check = put_uint 4 (crc (inner_bytes r)) in
    omega (
      arith,
      length-put_uint 4 ((4 + inner_size r) % 2 ^ 32),
      length-put_uint 4 (crc (inner_bytes r)),
      length-inner_bytes r,
      length-append (put_uint 4 ((4 + inner_size r) % 2 ^ 32)) (check ++ inner_bytes r),
      length-append check (inner_bytes r),
    )

-- The first bytes decide a number.
uint-take : (k n : ℕ) (s : Bytes) → k ≤ n → uint k (take n s) ≡ uint k s
unfolding uint
uint-take zero n s h = refl
uint-take (suc k) zero s h = absurd (omega arith)
uint-take (suc k) (suc n) [] h = refl
uint-take (suc k) (suc n) (b ∷ s) h = omega (arith, uint-take k n s (omega arith))

uint-size :
    (crc : Bytes → ℕ) (r : Record)
    → 4 + inner_size r < 2 ^ 32
    → uint 4 (encode_record crc r) ≡ 4 + inner_size r
uint-size crc r h =
    let more = put_uint 4 (crc (inner_bytes r)) ++ inner_bytes r in
    unfold encode_record in
    (uint-put_uint 4 ((4 + inner_size r) % 2 ^ 32) more (omega arith) ∙ omega arith)

too_short : (crc : Bytes → ℕ) (s : Bytes) → length s < 8 → decode_record crc s ≡ corrupt
unfolding decode_record
too_short crc s h = ground arith

cut_off : (crc : Bytes → ℕ) (s : Bytes) → length s < 4 + uint 4 s → decode_record crc s ≡ corrupt
unfolding decode_record
cut_off crc s h = ground arith

-- Bytes that are cut off inside a record are refused.
pub decode_record-torn :
    (crc : Bytes → ℕ) (r : Record) (n : ℕ)
    → 4 + inner_size r < 2 ^ 32
    → n < 8 + inner_size r
    → decode_record crc (take n (encode_record crc r)) ≡ corrupt
decode_record-torn crc r n h k =
    let s = encode_record crc r in
    let size : length (take n s) ≡ n = omega (arith, length-take n s, length-encode_record crc r) in
    elim (Bool-cases (ltb n 8)) [
      | inl e ↦ too_short crc (take n s) (ground arith)
      | inr e ↦
          let long : 4 ≤ n = ground arith in
          cut_off crc (take n s) (omega (arith, size, uint-take 4 n s long, uint-size crc r h))
    ]

-- A size below 4 makes the slice that is checked run backwards.
pub decode_record_backwards :
    (crc : Bytes → ℕ) (s : Bytes) → 8 ≤ length s → uint 4 s < 4 → decode_record crc s ≡ out_of_range
unfolding decode_record
decode_record_backwards crc s h k = ground arith

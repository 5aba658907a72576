-- ===== src/Storage/Scan/Whole.antt =====
-- modules/storage/engine.go: the scan of what whole writes, and a torn one, leave in a segment.
use ginject.Prelude.{
  ℕ, zero, suc, ◌+◌, ◌^◌, ◌<◌, ◌≤◌, ◌≡◌, refl, sym, ◌∙◌, ◌≢◌, ap, List, [], ◌∷◌, ◌++◌, append-nil,
  append_assoc, arith, length, length-append, take, drop, replicate, length-replicate,
}
use ginject.Prelude.Members.{All}
use ginject.Text.{Bytes}
use ginject.Text.Cut.{drop-append}
use ginject.Storage.{Record}
use ginject.Storage.Codec.{
  uint, inner_bytes, inner_size, decoded, corrupt, out_of_range, encode_record, decode_record,
}
use ginject.Storage.Codec.RoundTrip.{IsEncodable, decode_record-encode_record}
use ginject.Storage.Codec.Damage.{length-encode_record, decode_record-torn, decode_record_backwards}
use ginject.Storage.Scan.{
  Scanned, Scan, scanned, crashed, onto_scan, scan_loop, scan_seg_file, written,
}

-- The records of a segment with their offsets, from `off` on.
unfoldable pub placed : ℕ → List Record → List Scanned
placed off [] = []
placed off (r ∷ rs) =
    record { offset = off; rec = r; size = 8 + inner_size r } ∷ placed (off + (8 + inner_size r)) rs

abbrev pub onto_all : List Scanned → Scan → Scan
onto_all [] scan = scan
onto_all (x ∷ xs) scan = onto_scan x (onto_all xs scan)

uint-zeros : (k n : ℕ) → uint k (replicate n 0) ≡ 0
unfolding uint
uint-zeros zero n = refl
uint-zeros (suc k) zero = refl
uint-zeros (suc k) (suc n) = omega (arith, uint-zeros k n)

zero_size : (n : ℕ) → uint 4 (replicate n 0) < 4
zero_size n = omega (arith, uint-zeros 4 n)

module _ (crc : Bytes → ℕ) (sums : (s : Bytes) → crc s < 2 ^ 32) where
  scan_loop-decoded :
      (fuel off : ℕ) (s : Bytes) (r : Record) (n : ℕ)
      → s ≢ []
      → decode_record crc s ≡ decoded r n
      → scan_loop crc (suc fuel) off s
        ≡ onto_scan
            (record { offset = off; rec = r; size = n })
            (scan_loop crc fuel (off + n) (drop n s))
  unfolding scan_loop
  scan_loop-decoded fuel off [] r n h e = absurd (h refl)
  scan_loop-decoded fuel off (b ∷ s) r n h e = ground arith

  ne_nil : (s : Bytes) → 1 ≤ length s → s ≢ []
  ne_nil [] h = absurd (omega arith)
  ne_nil (b ∷ s) h = λ e. cc

  length-written :
      (r : Record) (rest : Bytes)
      → length (encode_record crc r ++ rest) ≡ 8 + inner_size r + length rest
  length-written r rest =
      omega (arith, length-append (encode_record crc r) rest, length-encode_record crc r)

  -- A scan passes over whole records to what stands behind them.
  scan_loop-written :
      (fuel off : ℕ) (rs : List Record) (tail : Bytes) (end : Scan)
      → ((more from : ℕ) → length tail ≤ more → scan_loop crc more from tail ≡ end)
      → All IsEncodable rs
      → length (written crc rs ++ tail) ≤ fuel
      → scan_loop crc fuel off (written crc rs ++ tail) ≡ onto_all (placed off rs) end
  unfolding written placed
  scan_loop-written fuel off [] tail end last h k = last fuel off k
  scan_loop-written zero off (r ∷ rs) tail end last (h, hs) k =
      let rest = written crc rs ++ tail in
      absurd (
        omega (
          arith,
          length-written r rest,
          ap length (append_assoc (encode_record crc r) (written crc rs) tail),
        ))
  scan_loop-written (suc fuel) off (r ∷ rs) tail end last (h, hs) k =
      let rest = written crc rs ++ tail in
      let s = encode_record crc r ++ rest in
      let n = 8 + inner_size r in
      let same = append_assoc (encode_record crc r) (written crc rs) tail in
      let size = length-written r rest in
      let behind : drop n s ≡ rest =
        ap (λ k. drop k s) (sym (length-encode_record crc r))
        ∙ drop-append (encode_record crc r) rest in
      let fits : length rest ≤ fuel = omega (arith, size, ap length same) in
      ap (scan_loop crc (suc fuel) off) same
      ∙ scan_loop-decoded fuel off s r n (ne_nil s (omega (arith, size)))
          (decode_record-encode_record crc r rest h (sums (inner_bytes r)))
      ∙ ap
          (λ t.
            onto_scan (record { offset = off; rec = r; size = n }) (scan_loop crc fuel (off + n) t))
          behind
      ∙ ap (onto_scan (record { offset = off; rec = r; size = n }))
          (scan_loop-written fuel (off + n) rs tail end last hs fits)

  onto_all_scanned : (xs : List Scanned) → onto_all xs (scanned []) ≡ scanned xs
  onto_all_scanned [] = refl
  onto_all_scanned (x ∷ xs) = ap (onto_scan x) (onto_all_scanned xs)

  onto_all_crashed : (xs : List Scanned) → onto_all xs crashed ≡ crashed
  onto_all_crashed [] = refl
  onto_all_crashed (x ∷ xs) = ap (onto_scan x) (onto_all_crashed xs)

  scan_loop-corrupt :
      (fuel off : ℕ) (s : Bytes)
      → decode_record crc s ≡ corrupt
      → scan_loop crc fuel off s ≡ scanned []
  unfolding scan_loop
  scan_loop-corrupt zero off s h = refl
  scan_loop-corrupt (suc fuel) off [] h = refl
  scan_loop-corrupt (suc fuel) off (b ∷ s) h = ground arith

  scan_loop-backwards :
      (fuel off : ℕ) (s : Bytes)
      → 1 ≤ length s
      → length s ≤ fuel
      → decode_record crc s ≡ out_of_range
      → scan_loop crc fuel off s ≡ crashed
  unfolding scan_loop
  scan_loop-backwards zero off s l k h = absurd (omega arith)
  scan_loop-backwards (suc fuel) off [] l k h = absurd (omega arith)
  scan_loop-backwards (suc fuel) off (b ∷ s) l k h = ground arith

  -- The scan of whole records and of the first bytes of one more, which a torn write leaves, finds
  -- the whole records at their offsets and nothing else.
  pub scan_seg_file-torn :
      (rs : List Record) (r : Record) (n : ℕ)
      → All IsEncodable rs
      → IsEncodable r
      → n < 8 + inner_size r
      → scan_seg_file crc (written crc rs ++ take n (encode_record crc r)) ≡ scanned (placed 0 rs)
  unfolding scan_seg_file
  scan_seg_file-torn rs r n hs h k =
      let tail = take n (encode_record crc r) in
      scan_loop-written (length (written crc rs ++ tail)) 0 rs tail (scanned [])
        (λ more from fits.
          scan_loop-corrupt more from tail (decode_record-torn crc r n (h.size_fits) k))
        hs (omega arith)
      ∙ onto_all_scanned (placed 0 rs)

  scan_loop-nil : (fuel off : ℕ) → scan_loop crc fuel off [] ≡ scanned []
  unfolding scan_loop
  scan_loop-nil zero off = refl
  scan_loop-nil (suc fuel) off = refl

  pub scan_seg_file-written :
      (rs : List Record)
      → All IsEncodable rs
      → scan_seg_file crc (written crc rs) ≡ scanned (placed 0 rs)
  unfolding scan_seg_file
  scan_seg_file-written rs hs =
      let s = written crc rs in
      ap (scan_loop crc (length s) 0) (sym (append-nil s))
      ∙ scan_loop-written (length s) 0 rs [] (scanned [])
          (λ more from fits. scan_loop-nil more from) hs (omega (arith, ap length (append-nil s)))
      ∙ onto_all_scanned (placed 0 rs)

  -- Where eight zero bytes or more stand behind the whole records, the scan slices out of range in
  -- place of stopping there.
  pub scan_seg_file-zeros :
      (rs : List Record) (n : ℕ)
      → All IsEncodable rs
      → 8 ≤ n
      → scan_seg_file crc (written crc rs ++ replicate n 0) ≡ crashed
  unfolding scan_seg_file
  scan_seg_file-zeros rs n hs k =
      let tail = replicate n 0 in
      let size = length-replicate {A = ℕ} n 0 in
      scan_loop-written (length (written crc rs ++ tail)) 0 rs tail crashed
        (λ more from fits.
          scan_loop-backwards more from tail (omega (arith, size)) fits
            (decode_record_backwards crc tail (omega (arith, size)) (zero_size n)))
        hs (omega arith)
      ∙ onto_all_crashed (placed 0 rs)

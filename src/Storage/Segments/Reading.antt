-- ===== src/Storage/Segments/Reading.antt =====
-- modules/storage/engine.go: a record that was written, read at its location.
use ginject.Prelude.{
  ℕ, ◌≢◌, ◌⊎◌, ◌+◌, ◌^◌, ◌<◌, ◌≡◌, refl, sym, ◌∙◌, ap, inl, inr, true, false, ◌&&◌, none, some,
  List, [], ◌∷◌, ◌++◌, append-nil, arith, ltb, leb, ◌==◌, length, length-append, length-drop, take,
  drop, Bool-cases, Option-cases,
}
use ginject.Text.{Bytes}
use ginject.Text.Cut.{drop-append, take-append, drop-append_within, take-append_within}
use ginject.Storage.{Record}
use ginject.Storage.Codec.{inner_bytes, inner_size, decoded, encode_record, decode_record}
use ginject.Storage.Codec.RoundTrip.{IsEncodable, decode_record-encode_record}
use ginject.Storage.Replay.{Location}
use ginject.Storage.Segments.{
  max_seg_size, SegFile, Engine, segs, new_segment, seg_by_id, Read, read, failed,
  read_out_of_range, appended, rotated, write_record, read_record_at, read_at,
}
use ginject.Storage.Segments.Numbered.{
  seg_by_id-append, seg_by_id-append_absent, IsNumbered, rotated-IsNumbered, appended-IsNumbered,
}

-- A read that succeeds goes on to succeed when the file grows.
read_record_at-append :
    (crc : Bytes → ℕ) (id : ℕ) (content more : Bytes) (loc : Location) (r : Record)
    → read_record_at crc (record { id = id; content = content }) loc ≡ read r
    → read_record_at crc (record { id = id; content = content ++ more }) loc ≡ read r
unfolding read_record_at
read_record_at-append crc id content more loc r h =
    elim (Bool-cases (leb (loc.offset + loc.size) (length content))) [
      | inl e ↦
          let within : leb (loc.offset + loc.size) (length (content ++ more)) ≡ true =
            ground (arith, length-append content more) in
          let same : take loc.size (drop loc.offset (content ++ more))
              ≡ take loc.size (drop loc.offset content) =
            ap (take loc.size) (drop-append_within loc.offset content more (ground arith))
            ∙ take-append_within loc.size (drop loc.offset content) more
                (ground (arith, length-drop loc.offset content)) in
          rw (within, same) (ground arith)
      | inr e ↦ absurd (ground arith)
    ]

pub read_at_found :
    (crc : Bytes → ℕ) (ss : List SegFile) (loc : Location) (s : SegFile)
    → seg_by_id loc.seg_id ss ≡ some s
    → read_at crc ss loc ≡ read_record_at crc s loc
unfolding read_at
read_at_found crc ss loc s h = ground arith

pub read_at_missing :
    (crc : Bytes → ℕ) (ss : List SegFile) (loc : Location)
    → seg_by_id loc.seg_id ss ≡ none
    → read_at crc ss loc ≡ failed
unfolding read_at
read_at_missing crc ss loc h = ground arith

seg_by_id-same : (id : ℕ) (s : SegFile) → (s.id == id) ≡ true → seg_by_id id (s ∷ []) ≡ some s
unfolding seg_by_id
seg_by_id-same id s h = ground arith

seg_by_id-other : (id : ℕ) (s : SegFile) → (s.id == id) ≡ false → seg_by_id id (s ∷ []) ≡ none
unfolding seg_by_id
seg_by_id-other id s h = ground arith

-- Rotation keeps every read.
rotated-read :
    (crc : Bytes → ℕ) (size : ℕ) (e : Engine) (loc : Location) (r : Record)
    → read_at crc (segs e) loc ≡ read r
    → read_at crc (segs (rotated size e)) loc ≡ read r
unfolding rotated new_segment
rotated-read crc size e loc r h =
    elim (Bool-cases
      (ltb max_seg_size (length e.current.content + size) && ltb 0 (length e.current.content))) [
        | inl k ↦ rw k (elim (Option-cases (seg_by_id loc.seg_id (segs e))) [
          | inl n ↦ absurd (ground (arith, read_at_missing crc (segs e) loc n))
          | inr (s, n) ↦
              read_at_found crc (segs e ++ _) loc s (seg_by_id-append loc.seg_id (segs e) _ s n)
              ∙ sym (read_at_found crc (segs e) loc s n)
              ∙ h
        ])
        | inr k ↦ rw k h
      ]

appended-read :
    (crc : Bytes → ℕ) (bytes : Bytes) (e : Engine) (loc : Location) (r : Record)
    → read_at crc (segs e) loc ≡ read r
    → read_at crc (segs (appended bytes e)) loc ≡ read r
appended-read crc bytes e loc r h = elim (Option-cases (seg_by_id loc.seg_id e.older)) [
  | inr (s, n) ↦
      read_at_found crc (segs (appended bytes e)) loc s (seg_by_id-append loc.seg_id e.older _ s n)
      ∙ sym (read_at_found crc (segs e) loc s (seg_by_id-append loc.seg_id e.older _ s n))
      ∙ h
  | inl n ↦
      let grown : SegFile = record { id = e.current.id; content = e.current.content ++ bytes } in
      elim (Bool-cases (e.current.id == loc.seg_id)) [
        | inl k ↦
            let old =
              seg_by_id-append_absent loc.seg_id e.older (e.current ∷ []) n
              ∙ seg_by_id-same loc.seg_id e.current k in
            let new =
              seg_by_id-append_absent loc.seg_id e.older (grown ∷ []) n
              ∙ seg_by_id-same loc.seg_id grown k in
            read_at_found crc (segs (appended bytes e)) loc grown new
            ∙ read_record_at-append crc e.current.id e.current.content bytes loc r
                (sym (read_at_found crc (segs e) loc e.current old) ∙ h)
        | inr k ↦
            let old =
              seg_by_id-append_absent loc.seg_id e.older (e.current ∷ []) n
              ∙ seg_by_id-other loc.seg_id e.current k in
            absurd (ground (arith, read_at_missing crc (segs e) loc old))
      ]
]

read_record_at_end :
    (crc : Bytes → ℕ) (id : ℕ) (content bytes : Bytes) (r : Record) (k : ℕ)
    → decode_record crc bytes ≡ decoded r k
    → read_record_at crc
        (record { id = id; content = content ++ bytes })
        (record { seg_id = id; offset = length content; size = length bytes })
      ≡ read r
unfolding read_record_at
read_record_at_end crc id content bytes r k h =
    let within : leb (length content + length bytes) (length (content ++ bytes)) ≡ true =
      ground (arith, length-append content bytes) in
    let cut : take (length bytes) (drop (length content) (content ++ bytes)) ≡ bytes =
      ap (take (length bytes)) (drop-append content bytes ∙ sym (append-nil bytes))
      ∙ take-append bytes [] in
    rw (within, cut) (ground arith)

read_back :
    (crc : Bytes → ℕ) (bytes : Bytes) (e : Engine) (r : Record) (k : ℕ)
    → IsNumbered e
    → decode_record crc bytes ≡ decoded r k
    → read_at crc
        (segs (appended bytes e))
        (record { seg_id = e.current.id; offset = length e.current.content; size = length bytes })
      ≡ read r
read_back crc bytes e r k n h =
    let grown : SegFile = record { id = e.current.id; content = e.current.content ++ bytes } in
    let here : seg_by_id e.current.id (segs (appended bytes e)) ≡ some grown =
      seg_by_id-append_absent e.current.id e.older (grown ∷ []) n.own
      ∙ seg_by_id-same e.current.id grown (ground arith) in
    read_at_found crc (segs (appended bytes e)) _ grown here
    ∙ read_record_at_end crc e.current.id e.current.content bytes r k h

-- `write_record` with its bytes shut.
pub write_record_parts :
    (crc : Bytes → ℕ) (r : Record) (e : Engine)
    → let bytes = encode_record crc r in
      let ready = rotated (length bytes) e in
      write_record crc r e ≡ (
        record {
          seg_id = ready.current.id;
          offset = length ready.current.content;
          size = length bytes;
        },
        appended bytes ready,
      )
unfolding write_record
write_record_parts crc r e = refl

pub write_record-IsNumbered :
    (crc : Bytes → ℕ) (r : Record) (e : Engine) → IsNumbered e → IsNumbered (write_record crc r e).1
write_record-IsNumbered crc r e n = rw (write_record_parts crc r e) (
    appended-IsNumbered (encode_record crc r) (rotated (length (encode_record crc r)) e)
      (rotated-IsNumbered (length (encode_record crc r)) e n))

-- The record that was written is at its location.
pub read_at_written :
    (crc : Bytes → ℕ) (r : Record) (e : Engine)
    → IsNumbered e
    → IsEncodable r
    → crc (inner_bytes r) < 2 ^ 32
    → read_at crc (segs (write_record crc r e).1) (write_record crc r e).0 ≡ read r
read_at_written crc r e n fits sum =
    let bytes = encode_record crc r in
    let ready = rotated (length bytes) e in
    let whole : decode_record crc bytes ≡ decoded r (8 + inner_size r) =
      ap (decode_record crc) (sym (append-nil bytes))
      ∙ decode_record-encode_record crc r [] fits sum in
    rw (write_record_parts crc r e)
      (read_back crc bytes ready r (8 + inner_size r) (rotated-IsNumbered (length bytes) e n) whole)

-- What could be read before a write reads the same.
pub read_at_kept :
    (crc : Bytes → ℕ) (r : Record) (e : Engine) (loc : Location) (before : Record)
    → read_at crc (segs e) loc ≡ read before
    → read_at crc (segs (write_record crc r e).1) loc ≡ read before
read_at_kept crc r e loc before h =
    let bytes = encode_record crc r in
    rw (write_record_parts crc r e) (
      appended-read crc bytes (rotated (length bytes) e) loc before
        (rotated-read crc (length bytes) e loc before h))

-- The locations that read a record keep it.
abbrev pub IsKeptAt : (crc : Bytes → ℕ) → List SegFile → List SegFile → Location → Type 0
IsKeptAt crc ss ts loc =
    ((before : Record) × (read_at crc ss loc ≡ read before) × (read_at crc ts loc ≡ read before))
    ⊎ ((before : Record) → read_at crc ss loc ≢ read before)

Read-cases : (x : Read) → ((r : Record) × (x ≡ read r)) ⊎ ((r : Record) → x ≢ read r)
Read-cases (read r) = inl (r, refl)
Read-cases failed = inr (λ r e. cc)
Read-cases read_out_of_range = inr (λ r e. cc)

-- A record that was written, also the first one, reads back at its location, with or without a
-- rotation, and every location that read a record before the write reads the same record.
pub read_at-write_record :
    (crc : Bytes → ℕ) (r : Record) (e : Engine)
    → IsNumbered e
    → IsEncodable r
    → crc (inner_bytes r) < 2 ^ 32
    → (read_at crc (segs (write_record crc r e).1) (write_record crc r e).0 ≡ read r)
      × ((loc : Location) → IsKeptAt crc (segs e) (segs (write_record crc r e).1) loc)
read_at-write_record crc r e n fits sum = (
  read_at_written crc r e n fits sum,
  λ loc. elim (Read-cases (read_at crc (segs e) loc)) [
    | inl (before, h) ↦ inl (before, h, read_at_kept crc r e loc before h)
    | inr h ↦ inr h
  ],
)

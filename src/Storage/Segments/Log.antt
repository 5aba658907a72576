-- ===== src/Storage/Segments/Log.antt =====
-- modules/storage/engine.go: the scan of the segments that a sequence of writes has filled.
use ginject.Prelude.{
  ℕ, ◌+◌, ◌^◌, ◌<◌, ◌≡◌, refl, sym, ◌∙◌, ap, subst, inl, inr, ◌&&◌, some, List, [], ◌∷◌, ◌++◌,
  append-nil, append_assoc, arith, ltb, length, Bool-cases,
}
use ginject.Prelude.Members.{All}
use ginject.Text.{Bytes}
use ginject.Storage.{Record}
use ginject.Storage.Codec.{encode_record}
use ginject.Storage.Codec.RoundTrip.{IsEncodable}
use ginject.Storage.Codec.Damage.{length-encode_record}
use ginject.Storage.Scan.{scanned, scan_seg_file, written}
use ginject.Storage.Scan.Whole.{placed, scan_seg_file-written}
use ginject.Storage.Replay.{TxEntry, rebuild}
use ginject.Storage.Segments.{
  max_seg_size, SegFile, Engine, segs, empty_engine, new_segment, appended, rotated, write_record,
  onto_log, scan_segs, rebuild_primary,
}
use ginject.Storage.Segments.Reading.{write_record_parts}
use ginject.Storage.Segments.Placing.{write_all, SegsLog, SegsLog-append, entry_at, SegLog-append}

module _ (crc : Bytes → ℕ) where
  SegsLog-appended :
      (older : List SegFile) (id : ℕ) (content : Bytes) (log : List TxEntry) (r : Record)
      → IsEncodable r
      → SegsLog crc (older ++ record { id = id; content = content } ∷ []) log
      → SegsLog crc
          (older ++ record { id = id; content = content ++ encode_record crc r } ∷ [])
          (log ++ entry_at crc id (length content) r ∷ [])
  SegsLog-appended [] id content log r k (es, rest, own, h, e) =
      let x = entry_at crc id (length content) r in
      (
        es ++ x ∷ [],
        [],
        SegLog-append crc id content es r k own,
        refl,
        ap (λ t. t ++ x ∷ []) (e ∙ ap (λ t. es ++ t) h ∙ append-nil es)
            ∙ sym (append-nil (es ++ x ∷ [])),
      )
  SegsLog-appended (s ∷ older) id content log r k (es, rest, own, h, e) =
      let x = entry_at crc id (length content) r in
      (
        es,
        rest ++ x ∷ [],
        own,
        SegsLog-appended older id content rest r k h,
        ap (λ t. t ++ x ∷ []) e ∙ append_assoc es rest (x ∷ []),
      )

  SegsLog-empty : (id : ℕ) → SegsLog crc (record { id = id; content = [] } ∷ []) []
  unfolding written placed
  SegsLog-empty id = ([], [], ([], tt, refl, refl), refl, refl)

  SegsLog-rotated :
      (size : ℕ) (e : Engine) (log : List TxEntry)
      → SegsLog crc (segs e) log
      → SegsLog crc (segs (rotated size e)) log
  unfolding rotated new_segment
  SegsLog-rotated size e log h =
      elim (Bool-cases
        (ltb max_seg_size (length e.current.content + size) && ltb 0 (length e.current.content))) [
          | inl k ↦ rw k (
              subst (SegsLog crc (segs e ++ record { id = e.next_seg; content = [] } ∷ []))
                (append-nil log)
                (SegsLog-append crc (segs e) (record { id = e.next_seg; content = [] } ∷ []) log []
                  h (SegsLog-empty e.next_seg)))
          | inr k ↦ rw k h
        ]

  -- A write gives the log its entry.
  SegsLog-write_record :
      (r : Record) (e : Engine) (log : List TxEntry)
      → IsEncodable r
      → SegsLog crc (segs e) log
      → SegsLog crc
          (segs (write_record crc r e).1)
          (log ++ record { rec = r; loc = (write_record crc r e).0 } ∷ [])
  SegsLog-write_record r e log k h =
      let size = length (encode_record crc r) in
      let ready = rotated size e in
      rw (write_record_parts crc r e) (
        subst
          (λ n. SegsLog crc (segs (appended (encode_record crc r) ready)) (
            log
            ++ record {
              rec = r;
              loc = record {
                seg_id = ready.current.id;
                offset = length ready.current.content;
                size = n;
              };
            }
              ∷ []))
          (sym (length-encode_record crc r))
          (SegsLog-appended ready.older ready.current.id ready.current.content log r k
            (SegsLog-rotated size e log h)))

  pub write_all_cons :
      (r : Record) (rs : List Record) (e : Engine)
      → write_all crc (r ∷ rs) e ≡ (
        record { rec = r; loc = (write_record crc r e).0 }
            ∷ (write_all crc rs (write_record crc r e).1).0,
        (write_all crc rs (write_record crc r e).1).1,
      )
  unfolding write_all
  write_all_cons r rs e = refl

  SegsLog-write_all :
      (rs : List Record) (e : Engine) (log : List TxEntry)
      → All IsEncodable rs
      → SegsLog crc (segs e) log
      → SegsLog crc (segs (write_all crc rs e).1) (log ++ (write_all crc rs e).0)
  SegsLog-write_all [] e log k h = unfold write_all in rw (append-nil log) h
  SegsLog-write_all (r ∷ rs) e log (k, ks) h =
      let next = (write_record crc r e).1 in
      let x : TxEntry = record { rec = r; loc = (write_record crc r e).0 } in
      rw (write_all_cons r rs e) (
        subst (SegsLog crc (segs (write_all crc rs next).1))
          (append_assoc log (x ∷ []) (write_all crc rs next).0)
          (SegsLog-write_all rs next (log ++ x ∷ []) ks (SegsLog-write_record r e log k h)))

  scan_segs_cons :
      (s : SegFile) (ss : List SegFile)
      → scan_segs crc (s ∷ ss) ≡ onto_log s.id (scan_seg_file crc s.content) (scan_segs crc ss)
  unfolding scan_segs
  scan_segs_cons s ss = refl

  module _ (sums : (s : Bytes) → crc s < 2 ^ 32) where
    scan_segs-SegsLog :
        (ss : List SegFile) (log : List TxEntry) → SegsLog crc ss log → scan_segs crc ss ≡ some log
    scan_segs-SegsLog [] log h = unfold scan_segs in ap some (sym h)
    scan_segs-SegsLog (s ∷ ss) log (es, rest, (rs, k, c, d), h, e) =
        let found : scan_seg_file crc s.content ≡ scanned (placed 0 rs) =
          ap (scan_seg_file crc) c ∙ scan_seg_file-written crc sums rs k in
        scan_segs_cons s ss
        ∙ ap (λ t. onto_log s.id t (scan_segs crc ss)) found
        ∙ ap (onto_log s.id (scanned (placed 0 rs))) (scan_segs-SegsLog ss rest h)
        ∙ ap (λ t. some (t ++ rest)) (sym d)
        ∙ ap some (sym e)

    rebuild_primary_scanned :
        (ss : List SegFile) (log : List TxEntry)
        → scan_segs crc ss ≡ some log
        → rebuild_primary crc ss ≡ some (rebuild log)
    unfolding rebuild_primary
    rebuild_primary_scanned ss log h = ground arith

    -- Scanning the segments that the records of some writes have filled gives their entries back.
    pub rebuild_primary-write_all :
        (rs : List Record)
        → All IsEncodable rs
        → rebuild_primary crc (segs (write_all crc rs empty_engine).1)
          ≡ some (rebuild (write_all crc rs empty_engine).0)
    rebuild_primary-write_all rs ks =
        let log = (write_all crc rs empty_engine).0 in
        let end = segs (write_all crc rs empty_engine).1 in
        rebuild_primary_scanned end log
          (scan_segs-SegsLog end log (SegsLog-write_all rs empty_engine [] ks (SegsLog-empty 0)))

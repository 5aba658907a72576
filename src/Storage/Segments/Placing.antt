-- ===== src/Storage/Segments/Placing.antt =====
-- modules/storage/engine.go: the records of a segment, and one more behind them.
use ginject.Prelude.{
  ℕ, ◌+◌, ◌≡◌, refl, sym, ◌∙◌, ap, List, [], ◌∷◌, ◌++◌, map, append-nil, append_assoc, arith,
  length, length-append,
}
use ginject.Prelude.Members.{All}
use ginject.Text.{Bytes}
use ginject.Storage.{Record}
use ginject.Storage.Codec.{inner_size, encode_record}
use ginject.Storage.Codec.RoundTrip.{IsEncodable}
use ginject.Storage.Codec.Damage.{length-encode_record}
use ginject.Storage.Scan.{written}
use ginject.Storage.Scan.Whole.{placed}
use ginject.Storage.Replay.{TxEntry}
use ginject.Storage.Segments.{SegFile, Engine, write_record, located}

module _ (crc : Bytes → ℕ) where
  -- Records written one after the other, with what the log gains.
  unfoldable pub write_all : List Record → Engine → List TxEntry × Engine
  unfolding write_record
  write_all [] e = ([], e)
  write_all (r ∷ rs) e =
      let (loc, next) = write_record crc r e in
      let (log, end) = write_all rs next in (record { rec = r; loc = loc } ∷ log, end)

  -- A segment holds records, and they are these entries of the log.
  abbrev SegLog : SegFile → List TxEntry → Type 0
  SegLog s es =
      (rs : List Record) × All IsEncodable rs
      × (s.content ≡ written crc rs)
      × (es ≡ map (located s.id) (placed 0 rs))

  abbrev pub SegsLog : List SegFile → List TxEntry → Type 0
  SegsLog [] log = log ≡ []
  SegsLog (s ∷ ss) log =
      (es : List TxEntry) × (rest : List TxEntry) × SegLog s es
      × SegsLog ss rest
      × (log ≡ es ++ rest)

  pub SegsLog-append :
      (ss ts : List SegFile) (l k : List TxEntry)
      → SegsLog ss l
      → SegsLog ts k
      → SegsLog (ss ++ ts) (l ++ k)
  SegsLog-append [] ts l k h h' = rw h h'
  SegsLog-append (s ∷ ss) ts l k (es, rest, own, h, e) h' = (
    es,
    rest ++ k,
    own,
    SegsLog-append ss ts rest k h h',
    ap (λ x. x ++ k) e ∙ append_assoc es rest k,
  )

  written-append_one :
      (rs : List Record) (r : Record)
      → written crc (rs ++ r ∷ []) ≡ written crc rs ++ encode_record crc r
  unfolding written
  written-append_one [] r = append-nil (encode_record crc r)
  written-append_one (x ∷ rs) r =
      ap (λ t. encode_record crc x ++ t) (written-append_one rs r)
      ∙ sym (append_assoc (encode_record crc x) (written crc rs) (encode_record crc r))

  written_cons :
      (x : Record) (rs : List Record) → written crc (x ∷ rs) ≡ encode_record crc x ++ written crc rs
  unfolding written
  written_cons x rs = refl

  All-append_one :
      (rs : List Record) (r : Record)
      → All IsEncodable rs
      → IsEncodable r
      → All IsEncodable (rs ++ r ∷ [])
  All-append_one [] r h k = (k, tt)
  All-append_one (x ∷ rs) r (p, h) k = (p, All-append_one rs r h k)

  length-written_cons :
      (x : Record) (rs : List Record)
      → length (written crc (x ∷ rs)) ≡ 8 + inner_size x + length (written crc rs)
  length-written_cons x rs =
      ap length (written_cons x rs)
      ∙ length-append (encode_record crc x) (written crc rs)
      ∙ ap (λ n. n + length (written crc rs)) (length-encode_record crc x)

  -- The entry of a record that stands at `off`.
  abbrev pub entry_at : ℕ → ℕ → Record → TxEntry
  entry_at id off r = record {
    rec = r;
    loc = record { seg_id = id; offset = off; size = 8 + inner_size r };
  }

  placed_cons :
      (id off : ℕ) (x : Record) (rs : List Record)
      → map (located id) (placed off (x ∷ rs))
        ≡ entry_at id off x ∷ map (located id) (placed (off + (8 + inner_size x)) rs)
  unfolding placed
  placed_cons id off x rs = refl

  placed_nil : (id off : ℕ) → map (located id) (placed off []) ≡ []
  unfolding placed
  placed_nil id off = refl

  length-written_nil : length (written crc []) ≡ 0
  unfolding written
  length-written_nil = refl

  placed-append_one :
      (id off : ℕ) (rs : List Record) (r : Record)
      → map (located id) (placed off (rs ++ r ∷ []))
        ≡ map (located id) (placed off rs) ++ entry_at id (off + length (written crc rs)) r ∷ []
  placed-append_one id off [] r =
      placed_cons id off r []
      ∙ ap (λ t. entry_at id off r ∷ t) (placed_nil id _)
      ∙ ap (λ k. entry_at id k r ∷ []) (omega (arith, length-written_nil))
      ∙ ap (λ t. t ++ entry_at id (off + length (written crc [])) r ∷ []) (sym (placed_nil id off))
  placed-append_one id off (x ∷ rs) r =
      let next = off + (8 + inner_size x) in
      let here = entry_at id off x in
      placed_cons id off x (rs ++ r ∷ [])
      ∙ ap (λ t. here ∷ t) (placed-append_one id next rs r)
      ∙ ap (λ k. here ∷ (map (located id) (placed next rs) ++ entry_at id k r ∷ []))
          (omega (arith, length-written_cons x rs))
      ∙ ap (λ t. t ++ entry_at id (off + length (written crc (x ∷ rs))) r ∷ [])
          (sym (placed_cons id off x rs))

  pub SegLog-append :
      (id : ℕ) (content : Bytes) (es : List TxEntry) (r : Record)
      → IsEncodable r
      → SegLog (record { id = id; content = content }) es
      → SegLog
          (record { id = id; content = content ++ encode_record crc r })
          (es ++ entry_at id (length content) r ∷ [])
  SegLog-append id content es r k (rs, h, c, e) = (
    rs ++ r ∷ [],
    All-append_one rs r h k,
    ap (λ t. t ++ encode_record crc r) c ∙ sym (written-append_one rs r),
    ap (λ t. t ++ entry_at id (length content) r ∷ []) e
        ∙ ap (λ t. map (located id) (placed 0 rs) ++ entry_at id (length t) r ∷ []) c
        ∙ ap (λ k. map (located id) (placed 0 rs) ++ entry_at id k r ∷ []) (omega arith)
        ∙ sym (placed-append_one id 0 rs r),
  )

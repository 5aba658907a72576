-- ===== src/Storage/Replay/Compacted.antt =====
-- modules/storage/engine.go: what `compact` keeps of a log.
use ginject.Prelude.{ℕ, ◌≡◌, ◌≢◌, refl, ◌∙◌, ap, List, [], ◌∷◌, ◌++◌, arith, true, false, ◌==◌}
use ginject.Prelude.Members.{All}
use ginject.GoMap.{GoMap}
use ginject.Storage.Replay.{Location, TxEntry, apply, keep_record, keep_records}
use ginject.Storage.Replay.Live.{
  Write, single, committed, rolled_back, cut_short, IsOf, IsTx, IsWrite, entries, log_of, live,
  live_all,
}

-- The writes outside transactions.
unfoldable pub plain : List Write → List Write
plain [] = []
plain (single e ∷ ws) = single e ∷ plain ws
plain (committed b es c ∷ ws) = plain ws
plain (rolled_back b es c ∷ ws) = plain ws
plain (cut_short b es ∷ ws) = plain ws

keep_records-append :
    (es fs : List TxEntry) (p : GoMap Location)
    → keep_records (es ++ fs) p ≡ keep_records fs (keep_records es p)
unfolding keep_records
keep_records-append [] fs p = refl
keep_records-append (e ∷ es) fs p = keep_records-append es fs (keep_record e p)

passed_over :
    (e : TxEntry) (p : GoMap Location) (tx : ℕ) → tx ≢ 0 → e.rec.tx_id ≡ tx → keep_record e p ≡ p
unfolding keep_record
passed_over e p tx n t = let other : (e.rec.tx_id == 0) ≡ false = ground arith in rw other refl

passed_over_every :
    (tx : ℕ) (es : List TxEntry) (p : GoMap Location)
    → tx ≢ 0
    → All (IsOf tx) es
    → keep_records es p ≡ p
unfolding keep_records
passed_over_every tx [] p n h = refl
passed_over_every tx (e ∷ es) p n ((d, t), hs) =
    ap (keep_records es) (passed_over e p tx n t) ∙ passed_over_every tx es p n hs

module _ (b : TxEntry) (es : List TxEntry) (p : GoMap Location) (tx : IsTx b es) where
  skips_open : keep_records (b ∷ es) p ≡ p
  unfolding keep_records
  skips_open =
      ap (keep_records es) (passed_over b p b.rec.tx_id (tx.0) refl)
      ∙ passed_over_every b.rec.tx_id es p (tx.0) (tx.2)

  skips_ended : (c : TxEntry) → c.rec.tx_id ≡ b.rec.tx_id → keep_records (b ∷ (es ++ c ∷ [])) p ≡ p
  skips_ended c t =
      keep_records-append (b ∷ es) (c ∷ []) p
      ∙ ap (keep_records (c ∷ [])) skips_open
      ∙ unfold keep_records in (passed_over c p b.rec.tx_id (tx.0) t)

keep_one :
    (e : TxEntry) (p : GoMap Location) → e.rec.tx_id ≡ 0 → keep_records (e ∷ []) p ≡ apply e p
unfolding keep_records keep_record
keep_one e p t = let zero_yes : (e.rec.tx_id == 0) ≡ true = ground arith in rw zero_yes refl

keeps_plain :
    (ws : List Write) (p : GoMap Location)
    → All IsWrite ws
    → keep_records (log_of ws) p ≡ live_all (plain ws) p
unfolding log_of live_all plain live
keeps_plain [] p h = unfold keep_records in refl
keeps_plain (single e ∷ ws) p ((d, t), hs) =
    keep_records-append (e ∷ []) (log_of ws) p
    ∙ ap (keep_records (log_of ws)) (keep_one e p t)
    ∙ keeps_plain ws (apply e p) hs
keeps_plain (committed b es c ∷ ws) p ((tx, (kind, t)), hs) =
    keep_records-append (entries (committed b es c)) (log_of ws) p
    ∙ ap (keep_records (log_of ws)) (skips_ended b es p tx c t)
    ∙ keeps_plain ws p hs
keeps_plain (rolled_back b es c ∷ ws) p ((tx, (kind, t)), hs) =
    keep_records-append (entries (rolled_back b es c)) (log_of ws) p
    ∙ ap (keep_records (log_of ws)) (skips_ended b es p tx c t)
    ∙ keeps_plain ws p hs
keeps_plain (cut_short b es ∷ ws) p (tx, hs) =
    keep_records-append (b ∷ es) (log_of ws) p
    ∙ ap (keep_records (log_of ws)) (skips_open b es p tx)
    ∙ keeps_plain ws p hs

-- The documents that `compact` keeps of the log of any writes are those that the writes outside
-- transactions leave: it drops what every committed transaction did.
pub keep_records-log_of :
    (ws : List Write) → All IsWrite ws → keep_records (log_of ws) [] ≡ live_all (plain ws) []
keep_records-log_of ws h = keeps_plain ws [] h

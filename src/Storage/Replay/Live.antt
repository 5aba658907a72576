-- ===== src/Storage/Replay/Live.antt =====
-- modules/storage/model.go and tx.go: the writes of an engine, with the records that they leave and
-- what they do to the index of the running program.
use ginject.Prelude.{ℕ, ◌≡◌, ◌≢◌, Bool, true, false, List, [], ◌∷◌, ◌++◌}
use ginject.Prelude.Members.{All}
use ginject.GoMap.{GoMap}
use ginject.Storage.{
  RecType, rec_insert, rec_update, rec_delete, rec_tx_begin, rec_tx_commit, rec_tx_rollback,
  unknown,
}
use ginject.Storage.Replay.{Location, TxEntry, apply, apply_all}

-- A write of `Create`, `UpdateByID` or `DeleteByID`; and the ways in which `commit` ends at one
-- table: through, rolled back at an error, or cut off by a crash.
pub data Write : Type 0 where
  single : TxEntry → Write
  committed : TxEntry → List TxEntry → TxEntry → Write
  rolled_back : TxEntry → List TxEntry → TxEntry → Write
  cut_short : TxEntry → List TxEntry → Write

abbrev pub is_data : RecType → Bool
is_data rec_insert = true
is_data rec_update = true
is_data rec_delete = true
is_data rec_tx_begin = false
is_data rec_tx_commit = false
is_data rec_tx_rollback = false
is_data (unknown b) = false

abbrev pub IsSingle : TxEntry → Type 0
IsSingle e = (is_data e.rec.rtype ≡ true) × (e.rec.tx_id ≡ 0)

abbrev pub IsOf : ℕ → TxEntry → Type 0
IsOf tx e = (is_data e.rec.rtype ≡ true) × (e.rec.tx_id ≡ tx)

abbrev pub IsMark : RecType → ℕ → TxEntry → Type 0
IsMark kind tx e = (e.rec.rtype ≡ kind) × (e.rec.tx_id ≡ tx)

-- The begin of a transaction, whose id is not 0, and its records.
abbrev pub IsTx : TxEntry → List TxEntry → Type 0
IsTx b es = (b.rec.tx_id ≢ 0) × (b.rec.rtype ≡ rec_tx_begin) × All (IsOf b.rec.tx_id) es

-- The records of a write are those that the code makes.
abbrev pub IsWrite : Write → Type 0
IsWrite (single e) = IsSingle e
IsWrite (committed b es c) = IsTx b es × IsMark rec_tx_commit b.rec.tx_id c
IsWrite (rolled_back b es c) = IsTx b es × IsMark rec_tx_rollback b.rec.tx_id c
IsWrite (cut_short b es) = IsTx b es

abbrev pub entries : Write → List TxEntry
entries (single e) = e ∷ []
entries (committed b es c) = b ∷ (es ++ c ∷ [])
entries (rolled_back b es c) = b ∷ (es ++ c ∷ [])
entries (cut_short b es) = b ∷ es

unfoldable pub log_of : List Write → List TxEntry
log_of [] = []
log_of (w ∷ ws) = entries w ++ log_of ws

-- The index of the running program: `setPrimary` and `deletePrimary`, record by record.
unfoldable pub live : Write → GoMap Location → GoMap Location
unfolding apply apply_all
live (single e) primary = apply e primary
live (committed b es c) primary = apply_all es primary
live (rolled_back b es c) primary = primary
live (cut_short b es) primary = primary

unfoldable pub live_all : List Write → GoMap Location → GoMap Location
unfolding live
live_all [] primary = primary
live_all (w ∷ ws) primary = live_all ws (live w primary)

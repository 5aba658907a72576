-- ===== src/Storage/Replay.antt =====
-- modules/storage/engine.go: what `rebuildIndex` and `compact` make of the records of the segments.
pub mod Live
pub mod Buffered
pub mod Recovery
pub mod Compacted
use ginject.Prelude.{
  ℕ, zero, suc, ◌+◌, Bool, true, false, Option, none, some, List, [], ◌∷◌, ◌++◌, ◌==◌,
  if◌then◌else◌,
}
use ginject.Text.{Bytes}
use ginject.GoMap.{GoMap, lookup, insert, erase, values}
use ginject.GoMap.Numbered.{NatMap, get, put, remove}
use ginject.Storage.{
  Record, RecType, rec_insert, rec_update, rec_delete, rec_tx_begin, rec_tx_commit, rec_tx_rollback,
  unknown,
}

pub record Location : Type 0 where
  pub seg_id : ℕ
  pub offset : ℕ
  pub size : ℕ

-- `txEntry`: a record and where it stands.
pub record TxEntry : Type 0 where
  pub rec : Record
  pub loc : Location

-- The function `apply` of `rebuildIndex`.
abbrev pub apply_type : RecType → Bytes → Location → GoMap Location → GoMap Location
apply_type rec_insert id loc primary = insert id loc primary
apply_type rec_update id loc primary = insert id loc primary
apply_type rec_delete id loc primary = erase id primary
apply_type rec_tx_begin id loc primary = primary
apply_type rec_tx_commit id loc primary = primary
apply_type rec_tx_rollback id loc primary = primary
apply_type (unknown b) id loc primary = primary

unfoldable pub apply : TxEntry → GoMap Location → GoMap Location
unfolding insert erase
apply e primary = apply_type e.rec.rtype e.rec.id e.loc primary

unfoldable pub apply_all : List TxEntry → GoMap Location → GoMap Location
unfolding apply
apply_all [] primary = primary
apply_all (e ∷ es) primary = apply_all es (apply e primary)

-- `primary` and `txs`; a buffer is its `latestByID`.
pub record Rebuild : Type 0 where
  pub primary : GoMap Location
  pub txs : NatMap (GoMap TxEntry)

abbrev pub commit_buffer : Option (GoMap TxEntry) → ℕ → Rebuild → Rebuild
commit_buffer none tx s = s
commit_buffer (some latest) tx s = record {
  primary = apply_all (values latest) s.primary;
  txs = remove tx s.txs;
}

abbrev pub buffer_entry : Option (GoMap TxEntry) → TxEntry → Rebuild → Rebuild
buffer_entry none e s = s
buffer_entry (some latest) e s = record s { txs = put e.rec.tx_id (insert e.rec.id e latest) s.txs }

-- The `default` of the switch.
abbrev pub replay_data : TxEntry → Rebuild → Rebuild
replay_data e s =
    if e.rec.tx_id == 0
    then record s { primary = apply e s.primary }
    else buffer_entry (get e.rec.tx_id s.txs) e s

abbrev pub replay_type : RecType → TxEntry → Rebuild → Rebuild
replay_type rec_tx_begin e s = record s { txs = put e.rec.tx_id [] s.txs }
replay_type rec_tx_commit e s = commit_buffer (get e.rec.tx_id s.txs) e.rec.tx_id s
replay_type rec_tx_rollback e s = record s { txs = remove e.rec.tx_id s.txs }
replay_type rec_insert e s = replay_data e s
replay_type rec_update e s = replay_data e s
replay_type rec_delete e s = replay_data e s
replay_type (unknown b) e s = replay_data e s

-- The function that `rebuildIndex` hands to the scan.
unfoldable pub replay_record : TxEntry → Rebuild → Rebuild
unfolding apply apply_all insert values get put remove
replay_record e s = replay_type e.rec.rtype e s

unfoldable pub replay : List TxEntry → Rebuild → Rebuild
unfolding replay_record
replay [] s = s
replay (e ∷ es) s = replay es (replay_record e s)

unfoldable pub rebuild : List TxEntry → GoMap Location
unfolding replay
rebuild es = (replay es (record { primary = []; txs = [] })).primary

-- The function that `compact` hands to the scan.
unfoldable pub keep_record : TxEntry → GoMap Location → GoMap Location
unfolding apply
keep_record e primary = if e.rec.tx_id == 0 then apply e primary else primary

unfoldable pub keep_records : List TxEntry → GoMap Location → GoMap Location
unfolding keep_record
keep_records [] primary = primary
keep_records (e ∷ es) primary = keep_records es (keep_record e primary)

-- ===== src/Storage.antt =====
-- modules/storage: the embedded document store.
pub mod Codec
pub mod Scan
pub mod Replay
pub mod Segments
pub mod Index
pub mod Model
pub mod Query
pub mod Opening
mod Tests
use ginject.Prelude.{ℕ, ◌≡◌, refl, Bool, true, false}
use ginject.Prelude.Int.{ℤ}
use ginject.Text.{Bytes}

pub data RecType : Type 0 where
  rec_insert rec_update rec_delete rec_tx_begin rec_tx_commit rec_tx_rollback : RecType
  unknown : ℕ → RecType

-- `record` of record.go. The timestamp is an `int64`.
pub record Record : Type 0 where
  pub rtype : RecType
  pub tx_id : ℕ
  pub table : Bytes
  pub id : Bytes
  pub timestamp : ℤ
  pub payload : Bytes

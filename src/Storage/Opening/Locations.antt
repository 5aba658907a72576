-- ===== src/Storage/Opening/Locations.antt =====
-- modules/storage/engine.go: the ids and the locations of the map `primary`.
use ginject.Prelude.{
  ℕ, ◌≡◌, subst, inl, inr, Option, none, some, List, [], ◌∷◌, ◌++◌, arith, ◌==◌, Bool-cases,
}
use ginject.Prelude.Members.{All}
use ginject.Text.{Bytes, str_eq}
use ginject.GoMap.{GoMap, lookup, insert, erase, values}
use ginject.GoMap.Distinct.{Distinct, insert-Distinct, erase-Distinct}
use ginject.GoMap.Numbered.{get}
use ginject.Storage.{
  RecType, rec_insert, rec_update, rec_delete, rec_tx_begin, rec_tx_commit, rec_tx_rollback,
  unknown,
}
use ginject.Storage.Replay.{
  Location, TxEntry, apply_type, apply, apply_all, Rebuild, commit_buffer, buffer_entry,
  replay_data, replay_type, replay_record, replay, rebuild,
}
use ginject.Storage.Replay.Live.{
  Write, single, committed, rolled_back, cut_short, entries, log_of, live, live_all,
}

apply_type-Distinct :
    (t : RecType) (id : Bytes) (loc : Location) (m : GoMap Location)
    → Distinct m
    → Distinct (apply_type t id loc m)
apply_type-Distinct rec_insert id loc m d = insert-Distinct id loc m d
apply_type-Distinct rec_update id loc m d = insert-Distinct id loc m d
apply_type-Distinct rec_delete id loc m d = erase-Distinct id m d
apply_type-Distinct rec_tx_begin id loc m d = d
apply_type-Distinct rec_tx_commit id loc m d = d
apply_type-Distinct rec_tx_rollback id loc m d = d
apply_type-Distinct (unknown b) id loc m d = d

apply-Distinct : (e : TxEntry) (m : GoMap Location) → Distinct m → Distinct (apply e m)
unfolding apply
apply-Distinct e m d = apply_type-Distinct e.rec.rtype e.rec.id e.loc m d

apply_all-Distinct :
    (es : List TxEntry) (m : GoMap Location) → Distinct m → Distinct (apply_all es m)
unfolding apply_all
apply_all-Distinct [] m d = d
apply_all-Distinct (e ∷ es) m d = apply_all-Distinct es (apply e m) (apply-Distinct e m d)

commit_buffer-Distinct :
    (buffer : Option (GoMap TxEntry)) (tx : ℕ) (s : Rebuild)
    → Distinct s.primary
    → Distinct (commit_buffer buffer tx s).primary
commit_buffer-Distinct none tx s d = d
commit_buffer-Distinct (some latest) tx s d = apply_all-Distinct (values latest) s.primary d

buffer_entry-Distinct :
    (buffer : Option (GoMap TxEntry)) (e : TxEntry) (s : Rebuild)
    → Distinct s.primary
    → Distinct (buffer_entry buffer e s).primary
buffer_entry-Distinct none e s d = d
buffer_entry-Distinct (some latest) e s d = d

replay_data-Distinct :
    (e : TxEntry) (s : Rebuild) → Distinct s.primary → Distinct (replay_data e s).primary
replay_data-Distinct e s d = elim (Bool-cases (e.rec.tx_id == 0)) [
  | inl k ↦ rw k (apply-Distinct e s.primary d)
  | inr k ↦ rw k (buffer_entry-Distinct (get e.rec.tx_id s.txs) e s d)
]

replay_type-Distinct :
    (t : RecType) (e : TxEntry) (s : Rebuild)
    → Distinct s.primary
    → Distinct (replay_type t e s).primary
replay_type-Distinct rec_insert e s d = replay_data-Distinct e s d
replay_type-Distinct rec_update e s d = replay_data-Distinct e s d
replay_type-Distinct rec_delete e s d = replay_data-Distinct e s d
replay_type-Distinct rec_tx_begin e s d = d
replay_type-Distinct rec_tx_commit e s d =
    commit_buffer-Distinct (get e.rec.tx_id s.txs) e.rec.tx_id s d
replay_type-Distinct rec_tx_rollback e s d = d
replay_type-Distinct (unknown b) e s d = replay_data-Distinct e s d

replay-Distinct :
    (es : List TxEntry) (s : Rebuild) → Distinct s.primary → Distinct (replay es s).primary
unfolding replay replay_record
replay-Distinct [] s d = d
replay-Distinct (e ∷ es) s d =
    replay-Distinct es (replay_record e s) (replay_type-Distinct e.rec.rtype e s d)

pub rebuild-Distinct : (es : List TxEntry) → Distinct (rebuild es)
unfolding rebuild
rebuild-Distinct es = replay-Distinct es (record { primary = []; txs = [] }) tt

-- What holds of the locations of the log holds of those of the index.
module _ (P : Location → Type 0) where
  abbrev Locs : GoMap Location → Type 0
  Locs m = All (λ (e : Bytes × Location). P e.1) m

  abbrev pub Logged : List TxEntry → Type 0
  Logged es = All (λ (e : TxEntry). P e.loc) es

  insert-Locs :
      (id : Bytes) (loc : Location) (m : GoMap Location) → P loc → Locs m → Locs (insert id loc m)
  unfolding insert
  insert-Locs id loc [] p h = (p, tt)
  insert-Locs id loc ((k, l) ∷ m) p (q, h) = elim (Bool-cases (str_eq k id)) [
    | inl e ↦ rw e (p, h)
    | inr e ↦ rw e (q, insert-Locs id loc m p h)
  ]

  erase-Locs : (id : Bytes) (m : GoMap Location) → Locs m → Locs (erase id m)
  unfolding erase
  erase-Locs id [] h = tt
  erase-Locs id ((k, l) ∷ m) (q, h) = elim (Bool-cases (str_eq k id)) [
    | inl e ↦ rw e (erase-Locs id m h)
    | inr e ↦ rw e (q, erase-Locs id m h)
  ]

  apply_type-Locs :
      (t : RecType) (id : Bytes) (loc : Location) (m : GoMap Location)
      → P loc
      → Locs m
      → Locs (apply_type t id loc m)
  apply_type-Locs rec_insert id loc m p h = insert-Locs id loc m p h
  apply_type-Locs rec_update id loc m p h = insert-Locs id loc m p h
  apply_type-Locs rec_delete id loc m p h = erase-Locs id m h
  apply_type-Locs rec_tx_begin id loc m p h = h
  apply_type-Locs rec_tx_commit id loc m p h = h
  apply_type-Locs rec_tx_rollback id loc m p h = h
  apply_type-Locs (unknown b) id loc m p h = h

  apply_all-Locs :
      (es : List TxEntry) (m : GoMap Location) → Logged es → Locs m → Locs (apply_all es m)
  unfolding apply_all apply
  apply_all-Locs [] m q h = h
  apply_all-Locs (e ∷ es) m (p, q) h =
      apply_all-Locs es (apply e m) q (apply_type-Locs e.rec.rtype e.rec.id e.loc m p h)

  Logged-first : (es fs : List TxEntry) → Logged (es ++ fs) → Logged es
  Logged-first [] fs h = tt
  Logged-first (e ∷ es) fs (p, h) = (p, Logged-first es fs h)

  Logged-rest : (es fs : List TxEntry) → Logged (es ++ fs) → Logged fs
  Logged-rest [] fs h = h
  Logged-rest (e ∷ es) fs (p, h) = Logged-rest es fs h

  live-Locs : (w : Write) (m : GoMap Location) → Logged (entries w) → Locs m → Locs (live w m)
  unfolding live apply
  live-Locs (single e) m (p, q) h = apply_type-Locs e.rec.rtype e.rec.id e.loc m p h
  live-Locs (committed b es c) m (p, q) h = apply_all-Locs es m (Logged-first es (c ∷ []) q) h
  live-Locs (rolled_back b es c) m q h = h
  live-Locs (cut_short b es) m q h = h

  live_all-Locs :
      (ws : List Write) (m : GoMap Location) → Logged (log_of ws) → Locs m → Locs (live_all ws m)
  unfolding live_all log_of
  live_all-Locs [] m q h = h
  live_all-Locs (w ∷ ws) m q h =
      live_all-Locs ws (live w m) (Logged-rest (entries w) (log_of ws) q)
        (live-Locs w m (Logged-first (entries w) (log_of ws) q) h)

  lookup-Locs :
      (id : Bytes) (loc : Location) (m : GoMap Location) → Locs m → lookup id m ≡ some loc → P loc
  unfolding lookup
  lookup-Locs id loc [] h e = absurd (ground arith)
  lookup-Locs id loc ((k, l) ∷ m) (p, h) e = elim (Bool-cases (str_eq k id)) [
    | inl same ↦ let eq : l ≡ loc = ground arith in subst P eq p
    | inr other ↦ lookup-Locs id loc m h (ground arith)
  ]

  pub lookup-live_all :
      (ws : List Write) (id : Bytes) (loc : Location)
      → Logged (log_of ws)
      → lookup id (live_all ws []) ≡ some loc
      → P loc
  lookup-live_all ws id loc q e = lookup-Locs id loc (live_all ws []) (live_all-Locs ws [] q tt) e

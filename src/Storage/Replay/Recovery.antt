-- ===== src/Storage/Replay/Recovery.antt =====
-- modules/storage/engine.go: the index that `rebuildIndex` makes of a log, next to the index of the
-- program that wrote it.
use ginject.Prelude.{
  ℕ, ◌≡◌, ◌≢◌, refl, sym, ◌∙◌, ap, true, false, some, List, [], ◌∷◌, ◌++◌, arith, ◌==◌,
}
use ginject.Prelude.Members.{All}
use ginject.Text.{Bytes}
use ginject.GoMap.{GoMap, lookup, insert, values}
use ginject.GoMap.Numbered.{get, put, get-put}
use ginject.Storage.{
  RecType, rec_insert, rec_update, rec_delete, rec_tx_begin, rec_tx_commit, rec_tx_rollback,
  unknown,
}
use ginject.Storage.Replay.{
  Location, TxEntry, apply, apply_all, Rebuild, replay_type, replay_data, replay_record, replay,
  rebuild,
}
use ginject.Storage.Replay.Live.{
  Write, single, committed, rolled_back, cut_short, is_data, IsOf, IsTx, IsWrite, entries, log_of,
  live, live_all,
}
use ginject.Storage.Replay.Buffered.{collect, lookup-apply, lookup-commit}

replay-append : (es fs : List TxEntry) (s : Rebuild) → replay (es ++ fs) s ≡ replay fs (replay es s)
unfolding replay
replay-append [] fs s = refl
replay-append (e ∷ es) fs s = replay-append es fs (replay_record e s)

replay-cons :
    (e : TxEntry) (es : List TxEntry) (s : Rebuild)
    → replay (e ∷ es) s ≡ replay es (replay_record e s)
unfolding replay
replay-cons e es s = refl

replay_record_data :
    (e : TxEntry) (s : Rebuild) → is_data e.rec.rtype ≡ true → replay_record e s ≡ replay_data e s
unfolding replay_record
replay_record_data e s h = by_type e.rec.rtype h
  where
    by_type : (t : RecType) → is_data t ≡ true → replay_type t e s ≡ replay_data e s
    by_type rec_insert k = refl
    by_type rec_update k = refl
    by_type rec_delete k = refl
    by_type rec_tx_begin k = cc
    by_type rec_tx_commit k = cc
    by_type rec_tx_rollback k = cc
    by_type (unknown b) k = refl

buffered :
    (tx : ℕ) (e : TxEntry) (s : Rebuild) (latest : GoMap TxEntry)
    → tx ≢ 0
    → IsOf tx e
    → get tx s.txs ≡ some latest
    → replay_record e s ≡ record s { txs = put tx (insert e.rec.id e latest) s.txs }
buffered tx e s latest n (d, t) h =
    let zero_no : (e.rec.tx_id == 0) ≡ false = ground (arith) in
    let found : get e.rec.tx_id s.txs ≡ some latest = rw t h in
    replay_record_data e s d ∙ rw (zero_no, found, t) refl

-- The records of an open transaction go into its buffer.
replay_ops :
    (tx : ℕ) (es : List TxEntry) (s : Rebuild) (latest : GoMap TxEntry)
    → tx ≢ 0
    → All (IsOf tx) es
    → get tx s.txs ≡ some latest
    → ((replay es s).primary ≡ s.primary) × (get tx (replay es s).txs ≡ some (collect es latest))
unfolding collect
replay_ops tx [] s latest n h k = unfold replay in (refl, k)
replay_ops tx (e ∷ es) s latest n (h, hs) k =
    let next : Rebuild = record s { txs = put tx (insert e.rec.id e latest) s.txs } in
    let opened : get tx next.txs ≡ some (insert e.rec.id e latest) =
      get-put tx tx (insert e.rec.id e latest) s.txs ∙ ground arith in
    rw (replay-cons e es s, buffered tx e s latest n h k)
      (replay_ops tx es next (insert e.rec.id e latest) n hs opened)

begun :
    (b : TxEntry) (s : Rebuild)
    → b.rec.rtype ≡ rec_tx_begin
    → replay_record b s ≡ record s { txs = put b.rec.tx_id [] s.txs }
unfolding replay_record
begun b s h = rw h refl

ended :
    (c : TxEntry) (s : Rebuild) (tx : ℕ) (latest : GoMap TxEntry)
    → c.rec.rtype ≡ rec_tx_commit
    → c.rec.tx_id ≡ tx
    → get tx s.txs ≡ some latest
    → (replay_record c s).primary ≡ apply_all (values latest) s.primary
unfolding replay_record
ended c s tx latest h t k = rw (h, t, k) refl

undone :
    (c : TxEntry) (s : Rebuild)
    → c.rec.rtype ≡ rec_tx_rollback
    → (replay_record c s).primary ≡ s.primary
unfolding replay_record
undone c s h = rw h refl

-- The records of a transaction up to its end.
open_tx :
    (b : TxEntry) (es : List TxEntry) (s : Rebuild)
    → IsTx b es
    → ((replay (b ∷ es) s).primary ≡ s.primary)
      × (get b.rec.tx_id (replay (b ∷ es) s).txs ≡ some (collect es []))
open_tx b es s (n, kind, hs) =
    let tx = b.rec.tx_id in
    let next : Rebuild = record s { txs = put tx [] s.txs } in
    let opened : get tx next.txs ≡ some [] = get-put tx tx [] s.txs ∙ ground arith in
    rw (replay-cons b es s, begun b s kind) (replay_ops tx es next [] n hs opened)

-- Two indexes that answer alike.
abbrev pub Agree : GoMap Location → GoMap Location → Type 0
Agree p q = (id : Bytes) → lookup id p ≡ lookup id q

apply-Agree :
    (e : TxEntry) (p q : GoMap Location)
    → is_data e.rec.rtype ≡ true
    → Agree p q
    → Agree (apply e p) (apply e q)
apply-Agree e p q h a id = lookup-apply e id p h ∙ rw (a id) (sym (lookup-apply e id q h))

apply_all-Agree :
    (tx : ℕ) (es : List TxEntry) (p q : GoMap Location)
    → All (IsOf tx) es
    → Agree p q
    → Agree (apply_all es p) (apply_all es q)
unfolding apply_all
apply_all-Agree tx [] p q h a = a
apply_all-Agree tx (e ∷ es) p q ((d, t), hs) a =
    apply_all-Agree tx es (apply e p) (apply e q) hs (apply-Agree e p q d a)

write-Agree :
    (w : Write) (s : Rebuild) (q : GoMap Location)
    → IsWrite w
    → Agree s.primary q
    → Agree (replay (entries w) s).primary (live w q)
unfolding live
write-Agree (single e) s q (d, t) a id =
    let zero_yes : (e.rec.tx_id == 0) ≡ true = ground arith in
    let alone : replay (e ∷ []) s ≡ replay_record e s = unfold replay in refl in
    let done : (replay_record e s).primary ≡ apply e s.primary =
      rw (replay_record_data e s d, zero_yes) refl in
    ap (λ (r : Rebuild). lookup id r.primary) alone
    ∙ ap (lookup id) done
    ∙ apply-Agree e s.primary q d a id
write-Agree (committed b es c) s q (tx, (kind, t)) a id =
    let (kept, buffer) = open_tx b es s tx in
    let middle = replay (b ∷ es) s in
    let primary : (replay (entries (committed b es c)) s).primary
        ≡ apply_all (values (collect es [])) s.primary =
      ap (λ (r : Rebuild). r.primary) (replay-append (b ∷ es) (c ∷ []) s)
      ∙ unfold replay in
        (ended c middle b.rec.tx_id (collect es []) kind t buffer)
        ∙ ap (apply_all (values (collect es []))) kept in
    ap (lookup id) primary
    ∙ lookup-commit b.rec.tx_id es s.primary id (tx.2)
    ∙ apply_all-Agree b.rec.tx_id es s.primary q (tx.2) a id
write-Agree (rolled_back b es c) s q (tx, (kind, t)) a id =
    let (kept, buffer) = open_tx b es s tx in
    let middle = replay (b ∷ es) s in
    let primary : (replay (entries (rolled_back b es c)) s).primary ≡ s.primary =
      ap (λ (r : Rebuild). r.primary) (replay-append (b ∷ es) (c ∷ []) s)
      ∙ unfold replay in (undone c middle kind) ∙ kept in
    ap (lookup id) primary ∙ a id
write-Agree (cut_short b es) s q tx a id =
    let (kept, buffer) = open_tx b es s tx in ap (lookup id) kept ∙ a id

replay-Agree :
    (ws : List Write) (s : Rebuild) (q : GoMap Location)
    → All IsWrite ws
    → Agree s.primary q
    → Agree (replay (log_of ws) s).primary (live_all ws q)
unfolding log_of live_all
replay-Agree [] s q h a = unfold replay in a
replay-Agree (w ∷ ws) s q (h, hs) a =
    rw (replay-append (entries w) (log_of ws) s)
      (replay-Agree ws (replay (entries w) s) (live w q) hs (write-Agree w s q h a))

-- The index rebuilt from the log of any writes answers as the index that the program kept while it
-- wrote them: a committed transaction counts as its records in their order, and one that was rolled
-- back or cut off by a crash counts for nothing.
pub lookup-rebuild :
    (ws : List Write) (id : Bytes)
    → All IsWrite ws
    → lookup id (rebuild (log_of ws)) ≡ lookup id (live_all ws [])
unfolding rebuild
lookup-rebuild ws id h = replay-Agree ws (record { primary = []; txs = [] }) [] h (λ j. refl) id

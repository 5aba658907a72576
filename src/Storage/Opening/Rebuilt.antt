-- ===== src/Storage/Opening/Rebuilt.antt =====
-- modules/storage/engine.go: the index of an engine that is opened again.
use ginject.Prelude.{
  ℕ, ◌≡◌, ◌<◌, ◌^◌, refl, sym, ap, subst, ◌∙◌, inl, inr, Option, none, some, List, [], ◌∷◌, arith,
  Bool-cases, Option-cases,
}
use ginject.Prelude.Members.{All}
use ginject.Text.{Bytes, str_eq_iff, str_eq_refl}
use ginject.GoMap.{GoMap, lookup}
use ginject.GoMap.Distinct.{Distinct}
use ginject.Storage.{Record}
use ginject.Storage.Codec.{inner_bytes}
use ginject.Storage.Codec.RoundTrip.{IsEncodable}
use ginject.Storage.Replay.{Location, rebuild}
use ginject.Storage.Replay.Live.{Write, IsWrite, log_of, live_all}
use ginject.Storage.Replay.Recovery.{lookup-rebuild}
use ginject.Storage.Segments.{
  SegFile, Engine, segs, empty_engine, read, seg_by_id, read_at, write_record, rebuild_primary,
}
use ginject.Storage.Segments.Numbered.{IsNumbered, empty_engine-IsNumbered}
use ginject.Storage.Segments.Reading.{
  write_record-IsNumbered, read_at_written, read_at_kept, read_at_found, read_at_missing,
}
use ginject.Storage.Segments.Placing.{write_all}
use ginject.Storage.Segments.Log.{write_all_cons, rebuild_primary-write_all}
use ginject.Storage.Index.{TableIndex, new_table_index, set_primary, get_primary}
use ginject.Storage.Index.Search.{Unicode}
use ginject.Storage.Model.{Json, is_blank}
use ginject.Storage.Model.Finding.{get_primary-updated, get_primary-set_primary}
use ginject.Storage.Opening.{load_data, load_entry, load_entries, rebuild_index}
use ginject.Storage.Opening.Locations.{rebuild-Distinct, Logged, lookup-live_all}

-- A record can be read at the location.
abbrev Reads : (Bytes → ℕ) → List SegFile → Location → Type 0
Reads crc ss loc = (r : Record) × (read_at crc ss loc ≡ read r)

module _ (crc : Bytes → ℕ) (sums : (s : Bytes) → crc s < 2 ^ 32) where
  write_all-read :
      (rs : List Record) (e : Engine) (loc : Location) (r : Record)
      → read_at crc (segs e) loc ≡ read r
      → read_at crc (segs (write_all crc rs e).1) loc ≡ read r
  write_all-read [] e loc r h = unfold write_all in h
  write_all-read (x ∷ rs) e loc r h =
      rw (write_all_cons crc x rs e)
        (write_all-read rs (write_record crc x e).1 loc r (read_at_kept crc x e loc r h))

  write_all-Logged :
      (rs : List Record) (e : Engine)
      → IsNumbered e
      → All IsEncodable rs
      → Logged (Reads crc (segs (write_all crc rs e).1)) (write_all crc rs e).0
  write_all-Logged [] e n h = unfold write_all in tt
  write_all-Logged (x ∷ rs) e n (h, hs) =
      let (loc, next) = write_record crc x e in
      rw (write_all_cons crc x rs e) (
        (x, write_all-read rs next loc x (read_at_written crc x e n h (sums (inner_bytes x)))),
        write_all-Logged rs next (write_record-IsNumbered crc x e n) hs,
      )

module _ {V : Type 0} (crc : Bytes → ℕ) (u : Unicode) (sprint : V → Bytes) (json : Json V) where
  get_primary-load_data :
      (id key payload : Bytes) (idx : TableIndex)
      → get_primary key (load_data crc u sprint json id payload idx) ≡ get_primary key idx
  unfolding load_data
  get_primary-load_data id key payload idx = elim (Bool-cases (is_blank payload)) [
    | inl e ↦ rw e refl
    | inr e ↦ elim (Option-cases (json.unmarshal payload)) [
      | inl k ↦ ground arith
      | inr (p, k) ↦ ground (arith, get_primary-updated crc u sprint json id key [] p.doc idx)
    ]
  ]

  load_entry-read :
      (ss : List SegFile) (id : Bytes) (loc : Location) (idx : TableIndex) (r : Record)
      → read_at crc ss loc ≡ read r
      → load_entry crc u sprint json ss id loc idx
        ≡ some (load_data crc u sprint json id r.payload (set_primary id loc idx))
  unfolding load_entry
  load_entry-read ss id loc idx r h = elim (Option-cases (seg_by_id loc.seg_id ss)) [
    | inl e ↦ absurd (ground (arith, read_at_missing crc ss loc e))
    | inr (s, e) ↦ ground (arith, read_at_found crc ss loc s e)
  ]

  load_entries-cons :
      (ss : List SegFile) (id : Bytes) (loc : Location) (primary : GoMap Location)
      (idx next : TableIndex)
      → load_entry crc u sprint json ss id loc idx ≡ some next
      → load_entries crc u sprint json ss ((id, loc) ∷ primary) idx
        ≡ load_entries crc u sprint json ss primary next
  unfolding load_entries
  load_entries-cons ss id loc primary idx next h = ground arith

  abbrev either : Option Location → Option Location → Option Location
  either none o = o
  either (some loc) o = some loc

  -- The second loop sets the location of every id of the map.
  load_entries_lem :
      (ss : List SegFile) (primary : GoMap Location) (idx : TableIndex)
      → Distinct primary
      → ((id : Bytes) (loc : Location) → lookup id primary ≡ some loc → Reads crc ss loc)
      → (after : TableIndex) × (load_entries crc u sprint json ss primary idx ≡ some after)
        × ((key : Bytes)
            → get_primary key after ≡ either (lookup key primary) (get_primary key idx))
  unfolding lookup
  load_entries_lem ss [] idx d h = (idx, unfold load_entries in refl, λ key. refl)
  load_entries_lem ss ((id, loc) ∷ primary) idx (fresh, d) h =
      let (r, l) = h id loc (ground (arith, str_eq_refl id)) in
      let next = load_data crc u sprint json id r.payload (set_primary id loc idx) in
      let (after, e, keys) =
        load_entries_lem ss primary next d
          (λ key at_loc k. h key at_loc (ground (arith, str_eq_iff id key))) in
      (
        after,
        load_entries-cons ss id loc primary idx next (load_entry-read ss id loc idx r l) ∙ e,
        λ key.
            let before =
              get_primary-load_data id key r.payload (set_primary id loc idx)
              ∙ get_primary-set_primary crc u sprint json key id loc idx in
            keys key ∙ ap (either (lookup key primary)) before ∙ ground (arith, str_eq_iff id key),
      )

  rebuild_index_primary :
      (ss : List SegFile) (primary : GoMap Location) (idx : TableIndex)
      → rebuild_primary crc ss ≡ some primary
      → rebuild_index crc u sprint json ss idx ≡ load_entries crc u sprint json ss primary idx
  unfolding rebuild_index
  rebuild_index_primary ss primary idx h = ground arith

  get_primary_new : (key : Bytes) → get_primary key new_table_index ≡ none
  unfolding get_primary lookup
  get_primary_new key = refl

  either-none : (o : Option Location) → either o none ≡ o
  either-none none = refl
  either-none (some loc) = refl

  -- `rebuildIndex` of a new engine over the segments that the records of some writes have filled,
  -- rotations included, succeeds, and leaves an index in which every id has the location that the
  -- writes that took effect left it in the running program's index.
  pub rebuild_index-write_all :
      (sums : (s : Bytes) → crc s < 2 ^ 32) (ws : List Write) (rs : List Record)
      → All IsWrite ws
      → All IsEncodable rs
      → log_of ws ≡ (write_all crc rs empty_engine).0
      → (idx : TableIndex) × (rebuild_index crc u sprint json
            (segs (write_all crc rs empty_engine).1)
            new_table_index
          ≡ some idx)
        × ((id : Bytes) → get_primary id idx ≡ lookup id (live_all ws []))
  rebuild_index-write_all sums ws rs hs ks e =
      let log = (write_all crc rs empty_engine).0 in
      let end = segs (write_all crc rs empty_engine).1 in
      let same : (id : Bytes) → lookup id (rebuild log) ≡ lookup id (live_all ws []) =
        λ id. ap (λ l. lookup id (rebuild l)) (sym e) ∙ lookup-rebuild ws id hs in
      let logged : Logged (Reads crc end) (log_of ws) =
        subst (Logged (Reads crc end)) (sym e)
          (write_all-Logged crc sums rs empty_engine empty_engine-IsNumbered ks) in
      let (idx, done, keys) =
        load_entries_lem end (rebuild log) new_table_index (rebuild-Distinct log)
          (λ id loc k. lookup-live_all (Reads crc end) ws id loc logged (sym (same id) ∙ k)) in
      (
        idx,
        rebuild_index_primary end (rebuild log) new_table_index
              (rebuild_primary-write_all crc sums rs ks)
            ∙ done,
        λ id.
            keys id
            ∙ ap (either (lookup id (rebuild log))) (get_primary_new id)
            ∙ either-none (lookup id (rebuild log))
            ∙ same id,
      )

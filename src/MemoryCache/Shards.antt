-- ===== src/MemoryCache/Shards.antt =====
-- The array of shards of memorycache/memory_cache.go, and its invariant.
use ginject.Prelude.{
  ℕ, ◌<◌, ◌≡◌, ap, false, inl, inr, none, some, arith, ◌==◌, if◌then◌else◌, Bool-cases,
}
use ginject.Prelude.Int.{ℤ, ◌≤ℤ◌}
use ginject.Text.{Bytes, str_eq, str_eq_iff}
use ginject.GoMap.{erase, lookup-erase}
use ginject.GoMap.Distinct.{Distinct, erase-Distinct}
use ginject.MemoryCache.{
  Entry, Shard, write, live, cleanup_every, MemoryCache, new_memory_cache, update_shard,
  sweep_shard, shard_of, find,
}
use ginject.MemoryCache.Entries.{
  live-sweep, sweep-Distinct, live-write, write-Distinct, writes-write,
}

pub record IsShard (s : Shard) : Type 0 where
  pub distinct : Distinct s.entries_by_key
  pub counted : s.writes < cleanup_every

abbrev pub IsValid : MemoryCache → Type 0
IsValid c = (i : ℕ) → IsShard (c.shards i)

pub update-IsValid :
    (i : ℕ) (s : Shard) (c : MemoryCache) → IsShard s → IsValid c → IsValid (update_shard i s c)
update-IsValid i s c h v j = elim (Bool-cases (i == j)) [ inl e ↦ rw e h | inr e ↦ rw e (v j) ]

pub new-IsValid : IsValid new_memory_cache
unfolding new_memory_cache
new-IsValid i = record { distinct = tt; counted = omega arith }

pub sweep_shard-IsValid :
    (now : ℤ) (i : ℕ) (c : MemoryCache) → IsValid c → IsValid (sweep_shard now i c)
unfolding sweep_shard
sweep_shard-IsValid now i c v =
    update-IsValid i _ c
      (record {
        distinct = sweep-Distinct now (c.shards i).entries_by_key (v i).distinct;
        counted = (v i).counted;
      })
      v

module _ (hash : Bytes → ℕ) where
  -- The write of `Set` and of a successful `SetNX`.
  abbrev pub put_entry : ℤ → Bytes → Entry → MemoryCache → MemoryCache
  put_entry now key e c =
      update_shard (shard_of hash key) (write now key e (c.shards (shard_of hash key))) c

  pub put_entry-IsValid :
      (now : ℤ) (key : Bytes) (e : Entry) (c : MemoryCache)
      → IsValid c
      → IsValid (put_entry now key e c)
  put_entry-IsValid now key e c v =
      let s = c.shards (shard_of hash key) in
      update-IsValid (shard_of hash key) _ c
        (record {
          distinct = write-Distinct now key e s (v (shard_of hash key)).distinct;
          counted = writes-write now key e s;
        })
        v

  abbrev pub drop_entry : Bytes → MemoryCache → MemoryCache
  drop_entry key c =
      let s = c.shards (shard_of hash key) in
      update_shard (shard_of hash key) (record s { entries_by_key = erase key s.entries_by_key }) c

  pub drop_entry-IsValid : (key : Bytes) (c : MemoryCache) → IsValid c → IsValid (drop_entry key c)
  drop_entry-IsValid key c v =
      let s = c.shards (shard_of hash key) in
      update-IsValid (shard_of hash key) _ c
        (record {
          distinct = erase-Distinct key s.entries_by_key (v (shard_of hash key)).distinct;
          counted = (v (shard_of hash key)).counted;
        })
        v

  other_key :
      (key k : Bytes) → (shard_of hash key == shard_of hash k) ≡ false → str_eq key k ≡ false
  other_key key k differs = elim (Bool-cases (str_eq key k)) [
    | inr e ↦ e
    | inl e ↦
        let same : shard_of hash key ≡ shard_of hash k =
          ap (shard_of hash) ((str_eq_iff key k).0 e) in
        absurd (ground arith)
  ]

  -- What each change shows a later read of a key, whatever the shards of the two keys.
  pub live-put_entry :
      (now later : ℤ) (key k : Bytes) (e : Entry) (c : MemoryCache)
      → now ≤ℤ later
      → IsValid c
      → live later (find hash k (put_entry now key e c))
        ≡ (if str_eq key k then live later (some e) else live later (find hash k c))
  live-put_entry now later key k e c le v =
      elim (Bool-cases (shard_of hash key == shard_of hash k)) [
        | inl same ↦
            let e' : shard_of hash key ≡ shard_of hash k = ground arith in
            rw same (
              rw (← e') (
                live-write now later key k e (c.shards (shard_of hash key)) le
                  (v (shard_of hash key)).distinct))
        | inr differs ↦ rw (differs, other_key key k differs)
      ]

  pub live-drop_entry :
      (later : ℤ) (key k : Bytes) (c : MemoryCache)
      → live later (find hash k (drop_entry key c))
        ≡ (if str_eq key k then none else live later (find hash k c))
  live-drop_entry later key k c = elim (Bool-cases (shard_of hash key == shard_of hash k)) [
    | inl same ↦
        let e' : shard_of hash key ≡ shard_of hash k = ground arith in
        rw same (
          rw (← e')
            (ground (arith, lookup-erase key k (c.shards (shard_of hash key)).entries_by_key)))
    | inr differs ↦ rw (differs, other_key key k differs)
  ]

  -- A sweep of any shard shows a later read nothing.
  pub live-sweep_shard :
      (now later : ℤ) (i : ℕ) (k : Bytes) (c : MemoryCache)
      → now ≤ℤ later
      → IsValid c
      → live later (find hash k (sweep_shard now i c)) ≡ live later (find hash k c)
  unfolding sweep_shard
  live-sweep_shard now later i k c le v = elim (Bool-cases (i == shard_of hash k)) [
    | inl same ↦
        let e' : i ≡ shard_of hash k = ground arith in
        rw same (rw (← e') (live-sweep now later k (c.shards i).entries_by_key le (v i).distinct))
    | inr differs ↦ rw differs
  ]

-- ===== src/MemoryCache/Entries.antt =====
-- One shard of memorycache/memory_cache.go: reads after writes, evictions and sweeps.
use ginject.Prelude.{
  ℕ, ◌+◌, ◌-◌, ◌<◌, ◌≡◌, refl, inl, inr, none, some, [], ◌∷◌, arith, ltb, leb, if◌then◌else◌,
  Bool-cases,
}
use ginject.Prelude.Int.{ℤ, ◌≤ℤ◌}
use ginject.Text.{Bytes, str_eq, str_eq_iff}
use ginject.GoMap.{GoMap, lookup, insert, lookup-insert}
use ginject.GoMap.Distinct.{Distinct, insert-Distinct}
use ginject.MemoryCache.{
  Entry, expired, Shard, evict, sweep_entries, write, live, cleanup_every, cleanup_batch,
}
use ginject.MemoryCache.Expiry.{expired_mono}

module _ (now : ℤ) where
  lookup-evict-none :
      (k : Bytes) (limit : ℕ) (m : GoMap Entry)
      → lookup k m ≡ none
      → lookup k (evict now limit m) ≡ none
  unfolding lookup evict
  lookup-evict-none k limit [] h = refl
  lookup-evict-none k limit ((j, e) ∷ m) h = ground (arith, lookup-evict-none k (limit - 1) m)

  pub evict-Distinct : (limit : ℕ) (m : GoMap Entry) → Distinct m → Distinct (evict now limit m)
  unfolding evict
  evict-Distinct limit [] d = tt
  evict-Distinct limit ((j, e) ∷ m) (fresh, d) = elim (Bool-cases (ltb 1 limit)) [
    | inl more ↦ rw more (elim (Bool-cases (expired e now)) [
      | inl x ↦ rw x (evict-Distinct (limit - 1) m d)
      | inr x ↦ rw x (lookup-evict-none j (limit - 1) m fresh, evict-Distinct (limit - 1) m d)
    ])
    | inr last ↦
        rw last (elim (Bool-cases (expired e now)) [ inl x ↦ rw x d | inr x ↦ rw x (fresh, d) ])
  ]

  pub live-evict :
      (later : ℤ) (k : Bytes) (limit : ℕ) (m : GoMap Entry)
      → now ≤ℤ later
      → Distinct m
      → live later (lookup k (evict now limit m)) ≡ live later (lookup k m)
  unfolding lookup evict
  live-evict later k limit [] le d = refl
  live-evict later k limit ((j, e) ∷ m) le (fresh, d) = ground (
    arith,
    expired_mono e now later,
    str_eq_iff j k,
    lookup-evict-none k (limit - 1) m,
    live-evict later k (limit - 1) m le d,
  )

  lookup-sweep_none :
      (k : Bytes) (m : GoMap Entry) → lookup k m ≡ none → lookup k (sweep_entries now m) ≡ none
  unfolding lookup sweep_entries
  lookup-sweep_none k [] h = refl
  lookup-sweep_none k ((j, e) ∷ m) h = ground (arith, lookup-sweep_none k m)

  pub sweep-Distinct : (m : GoMap Entry) → Distinct m → Distinct (sweep_entries now m)
  unfolding sweep_entries
  sweep-Distinct [] d = tt
  sweep-Distinct ((j, e) ∷ m) (fresh, d) = elim (Bool-cases (expired e now)) [
    | inl x ↦ rw x (sweep-Distinct m d)
    | inr x ↦ rw x (lookup-sweep_none j m fresh, sweep-Distinct m d)
  ]

  pub live-sweep :
      (later : ℤ) (k : Bytes) (m : GoMap Entry)
      → now ≤ℤ later
      → Distinct m
      → live later (lookup k (sweep_entries now m)) ≡ live later (lookup k m)
  unfolding lookup sweep_entries
  live-sweep later k [] le d = refl
  live-sweep later k ((j, e) ∷ m) le (fresh, d) = ground (
    arith,
    expired_mono e now later,
    str_eq_iff j k,
    lookup-sweep_none k m,
    live-sweep later k m le d,
  )

  pub write-Distinct :
      (key : Bytes) (e : Entry) (s : Shard)
      → Distinct s.entries_by_key
      → Distinct (write now key e s).entries_by_key
  unfolding write
  write-Distinct key e s d = elim (Bool-cases (leb cleanup_every (s.writes + 1))) [
    | inl h ↦ rw h (
        evict-Distinct cleanup_batch (insert key e s.entries_by_key)
          (insert-Distinct key e s.entries_by_key d))
    | inr h ↦ rw h (insert-Distinct key e s.entries_by_key d)
  ]

  -- The counter of writes never passes the interval between two evictions.
  pub writes-write :
      (key : Bytes) (e : Entry) (s : Shard) → (write now key e s).writes < cleanup_every
  unfolding write
  writes-write key e s = ground arith

  -- A write, with or without an eviction, shows later reads the new entry and the old others.
  pub live-write :
      (later : ℤ) (key k : Bytes) (e : Entry) (s : Shard)
      → now ≤ℤ later
      → Distinct s.entries_by_key
      → live later (lookup k (write now key e s).entries_by_key)
        ≡ (if str_eq key k then live later (some e) else live later (lookup k s.entries_by_key))
  unfolding write
  live-write later key k e s le d = ground (
    arith,
    lookup-insert key k e s.entries_by_key,
    live-evict later k cleanup_batch (insert key e s.entries_by_key) le
        (insert-Distinct key e s.entries_by_key d),
  )

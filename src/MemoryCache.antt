-- ===== src/MemoryCache.antt =====
-- memorycache: the sharded in-memory cache with expiry (memory_cache.go, fn.go).
-- Times are `int64` nanoseconds and a duration is an `int64`; sums wrap round as in Go.
pub mod Expiry
pub mod Entries
pub mod Shards
pub mod Listing
pub mod Refinement
mod Tests
use ginject.Prelude.{
  ℕ, zero, suc, ◌+◌, ◌-◌, ◌%◌, ◌^◌, Bool, true, false, not, ◌&&◌, Option, none, some, List, [], ◌∷◌,
  ◌++◌, ltb, leb, ◌==◌, if◌then◌else◌,
}
use ginject.Prelude.Int.{ℤ, pos, negsuc, pos_part, neg_part, ◌+ℤ◌, ◌-ℤ◌}
use ginject.Text.{Bytes, str_eq}
use ginject.GoMap.{GoMap, lookup, insert, erase}

abbrev pub num_shards : ℕ
num_shards = 256

abbrev pub cleanup_every : ℕ
cleanup_every = 128

abbrev pub cleanup_batch : ℕ
cleanup_batch = 64

abbrev pub leb_ℤ : ℤ → ℤ → Bool
leb_ℤ a b = leb (pos_part a + neg_part b) (pos_part b + neg_part a)

-- The 64 bits of an integer, and the `int64` that 64 bits stand for.
abbrev pub bits64 : ℤ → ℕ
bits64 (pos n) = n % 2 ^ 64
bits64 (negsuc n) = 2 ^ 64 - 1 - n % 2 ^ 64

abbrev pub int64 : ℕ → ℤ
int64 u = if ltb u (2 ^ 63) then pos u else negsuc (2 ^ 64 - 1 - u)

abbrev pub is_zero : ℤ → Bool
is_zero (pos n) = n == 0
is_zero (negsuc n) = false

pub record Entry : Type 0 where
  pub val : Bytes
  pub expires_at : ℤ

unfoldable pub expired : Entry → ℤ → Bool
expired e now = not (is_zero e.expires_at) && leb_ℤ e.expires_at now

unfoldable pub deadline : ℤ → ℤ → ℤ
unfolding ◌+ℤ◌
deadline now ttl = if leb_ℤ ttl (pos 0) then pos 0 else int64 (bits64 (now +ℤ ttl))

pub record Shard : Type 0 where
  pub entries_by_key : GoMap Entry
  pub writes : ℕ

-- `evictLocked`: the first `limit` entries of the iteration, at least one, lose those that expired.
unfoldable pub evict : ℤ → ℕ → GoMap Entry → GoMap Entry
evict now limit [] = []
evict now limit ((k, e) ∷ m) =
    let rest = if ltb 1 limit then evict now (limit - 1) m else m in
    if expired e now then rest else (k, e) ∷ rest

-- The loop of `sweepShard`.
unfoldable pub sweep_entries : ℤ → GoMap Entry → GoMap Entry
sweep_entries now [] = []
sweep_entries now ((k, e) ∷ m) =
    let rest = sweep_entries now m in if expired e now then rest else (k, e) ∷ rest

-- The write of `Set` and `SetNX` under the lock: every 128th evicts a batch.
unfoldable pub write : ℤ → Bytes → Entry → Shard → Shard
write now key e s =
    let entries = insert key e s.entries_by_key in
    if leb cleanup_every (s.writes + 1)
    then record { entries_by_key = evict now cleanup_batch entries; writes = 0 }
    else record { entries_by_key = entries; writes = s.writes + 1 }

-- The array of shards, as a function of the index.
pub record MemoryCache : Type 0 where
  pub shards : ℕ → Shard

unfoldable pub new_memory_cache : MemoryCache
new_memory_cache = record { shards = λ i. record { entries_by_key = []; writes = 0 } }

pub data CacheError : Type 0 where
  empty_key : CacheError

abbrev pub update_shard : ℕ → Shard → MemoryCache → MemoryCache
update_shard i s c = record { shards = λ j. if i == j then s else c.shards j }

unfoldable pub sweep_shard : ℤ → ℕ → MemoryCache → MemoryCache
sweep_shard now i c =
    let s = c.shards i in
    update_shard i (record s { entries_by_key = sweep_entries now s.entries_by_key }) c

pub data NxResult : Type 0 where
  stored : Bool → NxResult
  refused : CacheError → NxResult

-- What a read does with the entry that it found: `!ok || e.expired(now)`.
abbrev pub live : ℤ → Option Entry → Option Entry
live now none = none
live now (some e) = if expired e now then none else some e

-- `hash` is `maphash.String` under the seed of the process.
module _ (hash : Bytes → ℕ) where
  -- `hashKey(key) & shardMask`, for a mask of 255.
  unfoldable pub shard_of : Bytes → ℕ
  shard_of key = hash key % num_shards

  abbrev pub find : Bytes → MemoryCache → Option Entry
  find key c = lookup key (c.shards (shard_of key)).entries_by_key

  unfoldable pub get : ℤ → Bytes → MemoryCache → Option Bytes
  unfolding str_eq
  get now key c =
      if str_eq key []
      then none
      else elim (live now (find key c)) [ none ↦ none | some e ↦ some e.val ]

  unfoldable pub set : ℤ → Bytes → Bytes → ℤ → MemoryCache → Option CacheError × MemoryCache
  unfolding str_eq write
  set now key val ttl c = if str_eq key [] then (some empty_key, c) else (
    none,
    update_shard (shard_of key)
        (write now key (record { val = val; expires_at = deadline now ttl })
          (c.shards (shard_of key)))
        c,
  )

  unfoldable pub set_nx : ℤ → Bytes → Bytes → ℤ → MemoryCache → NxResult × MemoryCache
  unfolding str_eq write
  set_nx now key val ttl c =
      if str_eq key [] then (refused empty_key, c) else elim (live now (find key c)) [
        | some e ↦ (stored false, c)
        | none ↦ (
          stored true,
          update_shard (shard_of key)
              (write now key (record { val = val; expires_at = deadline now ttl })
                (c.shards (shard_of key)))
              c,
        )
      ]

  unfoldable pub delete : Bytes → MemoryCache → Option CacheError × MemoryCache
  unfolding str_eq
  delete key c = if str_eq key [] then (some empty_key, c) else (
    none,
    let s = c.shards (shard_of key) in
        update_shard (shard_of key) (record s { entries_by_key = erase key s.entries_by_key }) c,
  )

  -- `TTL`: `none` for `(0, false)`, and otherwise the duration.
  unfoldable pub ttl : ℤ → Bytes → MemoryCache → Option ℤ
  unfolding str_eq ◌-ℤ◌
  ttl now key c = if str_eq key [] then none else elim (live now (find key c)) [
    | none ↦ none
    | some e ↦
        if is_zero e.expires_at then some (pos 0) else some (int64 (bits64 (e.expires_at -ℤ now)))
  ]

-- The keys of one shard in `Keys`.
unfoldable pub live_keys : ℤ → GoMap Entry → List Bytes
live_keys now [] = []
live_keys now ((k, e) ∷ m) = let rest = live_keys now m in if expired e now then rest else k ∷ rest

unfoldable pub keys_from : ℤ → ℕ → ℕ → MemoryCache → List Bytes
keys_from now zero i c = []
keys_from now (suc n) i c = live_keys now (c.shards i).entries_by_key ++ keys_from now n (i + 1) c

unfoldable pub keys : ℤ → MemoryCache → List Bytes
unfolding keys_from live_keys
keys now c = keys_from now num_shards 0 c

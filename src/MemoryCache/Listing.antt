-- ===== src/MemoryCache/Listing.antt =====
-- `Keys` of memorycache/memory_cache.go, and the order in which the entries of a shard are met.
use ginject.Prelude.{
  ℕ, zero, suc, ◌+◌, ◌≡◌, refl, sym, ◌∙◌, ap, Bool, true, false, ◌||◌, inl, inr, Option, none, some,
  List, [], ◌∷◌, ◌++◌, arith, ◌==◌, leb, ltb, ◌&&◌, if◌then◌else◌, Bool-cases,
}
use ginject.Prelude.Int.{ℤ, ◌≤ℤ◌}
use ginject.Text.{Bytes, str_eq, str_eq_iff}
use ginject.GoMap.{GoMap, lookup, lookup-erase}
use ginject.GoMap.Distinct.{Distinct}
use ginject.MemoryCache.{
  Entry, live, MemoryCache, update_shard, sweep_shard, num_shards, shard_of, find, live_keys,
  keys_from, keys,
}
use ginject.MemoryCache.Entries.{live-sweep, live-write}
use ginject.MemoryCache.Shards.{IsValid, update-IsValid, put_entry, drop_entry}

abbrev pub member : Bytes → List Bytes → Bool
member k [] = false
member k (j ∷ ks) = str_eq j k || member k ks

abbrev pub is_there : Option Entry → Bool
is_there none = false
is_there (some e) = true

member-append :
    (k : Bytes) (xs ys : List Bytes) → member k (xs ++ ys) ≡ (member k xs || member k ys)
member-append k [] ys = refl
member-append k (x ∷ xs) ys = ground (arith, member-append k xs ys)

member-live_keys :
    (now : ℤ) (k : Bytes) (m : GoMap Entry)
    → Distinct m
    → member k (live_keys now m) ≡ is_there (live now (lookup k m))
unfolding live_keys lookup
member-live_keys now k [] d = refl
member-live_keys now k ((j, e) ∷ m) (fresh, d) = elim (Bool-cases (str_eq j k)) [
  | inl same ↦
      let rest : lookup k m ≡ none = ap (λ i. lookup i m) (sym ((str_eq_iff j k).0 same)) ∙ fresh in
      ground (arith, member-live_keys now k m d)
  | inr differs ↦ ground (arith, member-live_keys now k m d)
]

-- The same entries in another order.
pub record IsReordering (f : GoMap Entry → GoMap Entry) : Type 0 where
  pub keeps : (m : GoMap Entry) → Distinct m → Distinct (f m)
  pub same : (m : GoMap Entry) (k : Bytes) → Distinct m → lookup k (f m) ≡ lookup k m

unfoldable pub reorder_shard : ℕ → (GoMap Entry → GoMap Entry) → MemoryCache → MemoryCache
reorder_shard i f c =
    let s = c.shards i in update_shard i (record s { entries_by_key = f s.entries_by_key }) c

pub reorder_shard-IsValid :
    (i : ℕ) (f : GoMap Entry → GoMap Entry) (c : MemoryCache)
    → IsReordering f
    → IsValid c
    → IsValid (reorder_shard i f c)
unfolding reorder_shard
reorder_shard-IsValid i f c r v =
    update-IsValid i _ c
      (record {
        distinct = r.keeps (c.shards i).entries_by_key (v i).distinct;
        counted = (v i).counted;
      })
      v

module _ (hash : Bytes → ℕ) where
  -- From `now` on no key shows in a shard that is not its own.
  abbrev pub IsPlaced : ℤ → MemoryCache → Type 0
  IsPlaced now c =
      (i : ℕ) (k : Bytes) (later : ℤ)
      → now ≤ℤ later
      → (shard_of hash k == i) ≡ false
      → live later (lookup k (c.shards i).entries_by_key) ≡ none

  pub put_entry-IsPlaced :
      (now : ℤ) (key : Bytes) (e : Entry) (c : MemoryCache)
      → IsValid c
      → IsPlaced now c
      → IsPlaced now (put_entry hash now key e c)
  put_entry-IsPlaced now key e c v p i k later le differs =
      elim (Bool-cases (shard_of hash key == i)) [
        | inl here ↦
            let eq : shard_of hash key ≡ i = ground arith in
            let other : str_eq key k ≡ false = elim (Bool-cases (str_eq key k)) [
              | inr x ↦ x
              | inl x ↦ absurd (ground (arith, ap (shard_of hash) ((str_eq_iff key k).0 x)))
            ] in
            rw here (
              live-write now later key k e (c.shards (shard_of hash key)) le
                (v (shard_of hash key)).distinct
              ∙ rw other (rw eq (p i k later le differs)))
        | inr away ↦ rw away (p i k later le differs)
      ]

  pub drop_entry-IsPlaced :
      (now : ℤ) (key : Bytes) (c : MemoryCache)
      → IsPlaced now c
      → IsPlaced now (drop_entry hash key c)
  drop_entry-IsPlaced now key c p i k later le differs =
      elim (Bool-cases (shard_of hash key == i)) [
        | inl here ↦
            let eq : shard_of hash key ≡ i = ground arith in
            rw here (
              rw eq (
                ground
                  (arith, lookup-erase key k (c.shards i).entries_by_key, p i k later le differs)))
        | inr away ↦ rw away (p i k later le differs)
      ]

  pub sweep_shard-IsPlaced :
      (now : ℤ) (j : ℕ) (c : MemoryCache)
      → IsValid c
      → IsPlaced now c
      → IsPlaced now (sweep_shard now j c)
  unfolding sweep_shard
  sweep_shard-IsPlaced now j c v p i k later le differs = elim (Bool-cases (j == i)) [
    | inl here ↦
        let eq : j ≡ i = ground arith in
        rw here (
          rw eq (
            live-sweep now later k (c.shards i).entries_by_key le (v i).distinct
            ∙ p i k later le differs))
    | inr away ↦ rw away (p i k later le differs)
  ]

  pub reorder_shard-IsPlaced :
      (now : ℤ) (j : ℕ) (f : GoMap Entry → GoMap Entry) (c : MemoryCache)
      → IsReordering f
      → IsValid c
      → IsPlaced now c
      → IsPlaced now (reorder_shard j f c)
  unfolding reorder_shard
  reorder_shard-IsPlaced now j f c r v p i k later le differs = elim (Bool-cases (j == i)) [
    | inl here ↦
        let eq : j ≡ i = ground arith in
        rw here (
          rw eq (
            ap (live later) (r.same (c.shards i).entries_by_key k (v i).distinct)
            ∙ p i k later le differs))
    | inr away ↦ rw away (p i k later le differs)
  ]

  pub live-reorder_shard :
      (later : ℤ) (j : ℕ) (f : GoMap Entry → GoMap Entry) (k : Bytes) (c : MemoryCache)
      → IsReordering f
      → IsValid c
      → live later (find hash k (reorder_shard j f c)) ≡ live later (find hash k c)
  unfolding reorder_shard
  live-reorder_shard later j f k c r v = elim (Bool-cases (j == shard_of hash k)) [
    | inl here ↦
        let eq : j ≡ shard_of hash k = ground arith in
        rw here (
          rw eq (
            ap (live later) (
              r.same (c.shards (shard_of hash k)).entries_by_key k (v (shard_of hash k)).distinct)))
    | inr away ↦ rw away refl
  ]

  -- Whether a shard number is among the next `n`.
  abbrev in_next : ℕ → ℕ → ℕ → Bool
  in_next j i n = leb i j && ltb j (i + n)

  member-keys_from :
      (now : ℤ) (k : Bytes) (n i : ℕ) (c : MemoryCache)
      → IsValid c
      → IsPlaced now c
      → member k (keys_from now n i c)
        ≡ (if in_next (shard_of hash k) i n then is_there (live now (find hash k c)) else false)
  unfolding keys_from
  member-keys_from now k zero i c v p = ground arith
  member-keys_from now k (suc n) i c v p =
      let m = (c.shards i).entries_by_key in
      let rest = member-keys_from now k n (i + 1) c v p in
      let here = member-live_keys now k m (v i).distinct in
      let all = member-append k (live_keys now m) (keys_from now n (i + 1) c) in
      elim (Bool-cases (shard_of hash k == i)) [
        | inl own ↦
            let eq : shard_of hash k ≡ i = ground arith in
            let found : live now (lookup k m) ≡ live now (find hash k c) = rw eq refl in
            ground (arith, all, here, rest)
        | inr away ↦ ground (arith, all, here, rest, p i k now (omega arith) away)
      ]

  -- `Keys` gives exactly the keys that a read finds.
  pub member-keys :
      (now : ℤ) (k : Bytes) (c : MemoryCache)
      → IsValid c
      → IsPlaced now c
      → member k (keys now c) ≡ is_there (live now (find hash k c))
  unfolding keys
  member-keys now k c v p =
      let own : in_next (shard_of hash k) 0 num_shards ≡ true = unfold shard_of in ground arith in
      member-keys_from now k num_shards 0 c v p ∙ rw own refl

-- ===== src/MemoryCache/Refinement.antt =====
-- The sharded cache of memorycache/ next to one plain map that is never cleaned, under a clock that
-- does not run backwards.
use ginject.Prelude.{
  ℕ, ◌≡◌, refl, sym, ◌∙◌, ap, ap₂, Bool, true, false, inl, inr, Option, none, some, List, [], ◌∷◌,
  arith, if◌then◌else◌, Bool-cases, Option-cases,
}
use ginject.Prelude.Int.{ℤ, pos, ◌≤ℤ◌, ◌-ℤ◌}
use ginject.Text.{Bytes, str_eq}
use ginject.GoMap.{lookup}
use ginject.MemoryCache.{
  Entry, deadline, live, MemoryCache, new_memory_cache, CacheError, empty_key, NxResult, stored,
  refused, sweep_shard, keys, find, get, set, set_nx, delete, ttl, is_zero, int64, bits64,
}
use ginject.GoMap.{GoMap}
use ginject.MemoryCache.Listing.{
  member, is_there, IsPlaced, put_entry-IsPlaced, drop_entry-IsPlaced, sweep_shard-IsPlaced,
  IsReordering, reorder_shard, reorder_shard-IsValid, reorder_shard-IsPlaced, live-reorder_shard,
  member-keys,
}
use ginject.MemoryCache.Shards.{
  IsValid, new-IsValid, put_entry, put_entry-IsValid, drop_entry, drop_entry-IsValid,
  sweep_shard-IsValid, live-put_entry, live-drop_entry, live-sweep_shard,
}

-- What happens to a cache: the calls of its methods, with a look for a key in what `Keys` gives, a
-- tick of the sweeper at a shard, and another order in which the entries of a shard are met.
pub data Request : Type 0 where
  gets : Bytes → Request
  sets : Bytes → Bytes → ℤ → Request
  sets_nx : Bytes → Bytes → ℤ → Request
  deletes : Bytes → Request
  asks_ttl : Bytes → Request
  asks_keys : Bytes → Request
  sweeps : ℕ → Request
  reorders : ℕ → (GoMap Entry → GoMap Entry) → Request

pub data Reply : Type 0 where
  value : Option Bytes → Reply
  done : Option CacheError → Reply
  nx : NxResult → Reply
  remaining : Option ℤ → Reply
  listed : Bool → Reply
  silent : Reply

module _ (hash : Bytes → ℕ) where
  unfoldable pub run_request : ℤ → Request → MemoryCache → Reply × MemoryCache
  run_request now (gets k) c = (value (get hash now k c), c)
  run_request now (sets k v d) c = let (e, c') = set hash now k v d c in (done e, c')
  run_request now (sets_nx k v d) c = let (r, c') = set_nx hash now k v d c in (nx r, c')
  run_request now (deletes k) c = let (e, c') = delete hash k c in (done e, c')
  run_request now (asks_ttl k) c = (remaining (ttl hash now k c), c)
  run_request now (asks_keys k) c = (listed (member k (keys now c)), c)
  run_request now (sweeps i) c = (silent, sweep_shard now i c)
  run_request now (reorders i f) c = (silent, reorder_shard i f c)

  unfoldable pub run : MemoryCache → List (ℤ × Request) → List Reply
  run c [] = []
  run c ((now, r) ∷ rs) = let (reply, c') = run_request now r c in reply ∷ run c' rs

-- The plain map: the last entry written under each key.
abbrev pub Plain : Type 0
Plain = Bytes → Option Entry

abbrev update : Bytes → Option Entry → Plain → Plain
update key o a = λ k. if str_eq key k then o else a k

unfoldable pub plain_request : ℤ → Request → Plain → Reply × Plain
plain_request now (gets k) a = (
  value (if str_eq k [] then none else elim (live now (a k)) [ none ↦ none | some e ↦ some e.val ]),
  a,
)
plain_request now (sets k v d) a =
    if str_eq k []
    then (done (some empty_key), a)
    else (done none, update k (some (record { val = v; expires_at = deadline now d })) a)
plain_request now (sets_nx k v d) a =
    if str_eq k [] then (nx (refused empty_key), a) else elim (live now (a k)) [
      | some e ↦ (nx (stored false), a)
      | none ↦
          (nx (stored true), update k (some (record { val = v; expires_at = deadline now d })) a)
    ]
plain_request now (deletes k) a =
    if str_eq k [] then (done (some empty_key), a) else (done none, update k none a)
plain_request now (asks_ttl k) a = (
  remaining (
      if str_eq k [] then none else elim (live now (a k)) [
        | none ↦ none
        | some e ↦
            if is_zero e.expires_at
            then some (pos 0)
            else some (int64 (bits64 (e.expires_at -ℤ now)))
      ]),
  a,
)
plain_request now (asks_keys k) a = (listed (is_there (live now (a k))), a)
plain_request now (sweeps i) a = (silent, a)
plain_request now (reorders i f) a = (silent, a)

-- Another order has the entries that were there.
abbrev pub IsFair : Request → Type 0
IsFair (gets k) = Unit
IsFair (sets k v d) = Unit
IsFair (sets_nx k v d) = Unit
IsFair (deletes k) = Unit
IsFair (asks_ttl k) = Unit
IsFair (asks_keys k) = Unit
IsFair (sweeps i) = Unit
IsFair (reorders i f) = IsReordering f

unfoldable pub plain_run : Plain → List (ℤ × Request) → List Reply
plain_run a [] = []
plain_run a ((now, r) ∷ rs) = let (reply, a') = plain_request now r a in reply ∷ plain_run a' rs

module _ (hash : Bytes → ℕ) where
  -- From `now` on every read of the cache is the same read of the plain map.
  pub record Simulates (now : ℤ) (c : MemoryCache) (a : Plain) : Type 0 where
    pub valid : IsValid c
    pub placed : IsPlaced hash now c
    pub reads :
        (later : ℤ) (k : Bytes) → now ≤ℤ later → live later (find hash k c) ≡ live later (a k)

  Simulates-put :
      (now : ℤ) (key : Bytes) (e : Entry) (c : MemoryCache) (a : Plain)
      → Simulates now c a
      → Simulates now (put_entry hash now key e c) (update key (some e) a)
  Simulates-put now key e c a s = record {
    valid = put_entry-IsValid hash now key e c s.valid;
    placed = put_entry-IsPlaced hash now key e c s.valid s.placed;
    reads = λ later k le.
        ground (arith, live-put_entry hash now later key k e c le s.valid, s.reads later k le);
  }

  Simulates-drop :
      (now : ℤ) (key : Bytes) (c : MemoryCache) (a : Plain)
      → Simulates now c a
      → Simulates now (drop_entry hash key c) (update key none a)
  Simulates-drop now key c a s = record {
    valid = drop_entry-IsValid hash key c s.valid;
    placed = drop_entry-IsPlaced hash now key c s.placed;
    reads = λ later k le. ground (arith, live-drop_entry hash later key k c, s.reads later k le);
  }

  Simulates-sweep :
      (now : ℤ) (i : ℕ) (c : MemoryCache) (a : Plain)
      → Simulates now c a
      → Simulates now (sweep_shard now i c) a
  Simulates-sweep now i c a s = record {
    valid = sweep_shard-IsValid now i c s.valid;
    placed = sweep_shard-IsPlaced hash now i c s.valid s.placed;
    reads = λ later k le. live-sweep_shard hash now later i k c le s.valid ∙ s.reads later k le;
  }

  Simulates-reorder :
      (now : ℤ) (i : ℕ) (f : GoMap Entry → GoMap Entry) (c : MemoryCache) (a : Plain)
      → IsReordering f
      → Simulates now c a
      → Simulates now (reorder_shard i f c) a
  Simulates-reorder now i f c a same s = record {
    valid = reorder_shard-IsValid i f c same s.valid;
    placed = reorder_shard-IsPlaced hash now i f c same s.valid s.placed;
    reads = λ later k le. live-reorder_shard hash later i f k c same s.valid ∙ s.reads later k le;
  }

  -- One request: the replies agree, and the states go on to agree.
  abbrev Agrees : ℤ → Reply × MemoryCache → Reply × Plain → Type 0
  Agrees now p q = (p.0 ≡ q.0) × Simulates now p.1 q.1

  step-Agrees :
      (now : ℤ) (r : Request) (c : MemoryCache) (a : Plain)
      → IsFair r
      → Simulates now c a
      → Agrees now (run_request hash now r c) (plain_request now r a)
  unfolding run_request plain_request
  step-Agrees now (gets k) c a fair s = (unfold get in ground (arith, s.reads now k), s)
  step-Agrees now (sets k v d) c a fair s = elim (Bool-cases (str_eq k [])) [
    | inl e ↦ unfold set in rw e (refl, s)
    | inr e ↦
        unfold set in
        rw e (refl, Simulates-put now k (record { val = v; expires_at = deadline now d }) c a s)
  ]
  step-Agrees now (sets_nx k v d) c a fair s = elim (Bool-cases (str_eq k [])) [
    | inl e ↦ unfold set_nx in rw e (refl, s)
    | inr e ↦ elim (Option-cases (live now (find hash k c))) [
      | inl free ↦
          let free' : live now (a k) ≡ none = sym (s.reads now k (omega arith)) ∙ free in
          unfold set_nx in
          rw (e, free, free')
            (refl, Simulates-put now k (record { val = v; expires_at = deadline now d }) c a s)
      | inr (old, taken) ↦
          let taken' : live now (a k) ≡ some old = sym (s.reads now k (omega arith)) ∙ taken in
          unfold set_nx in rw (e, taken, taken') (refl, s)
    ]
  ]
  step-Agrees now (deletes k) c a fair s = elim (Bool-cases (str_eq k [])) [
    | inl e ↦ unfold delete in rw e (refl, s)
    | inr e ↦ unfold delete in rw e (refl, Simulates-drop now k c a s)
  ]
  step-Agrees now (asks_ttl k) c a fair s = (unfold ttl in ground (arith, s.reads now k), s)
  step-Agrees now (asks_keys k) c a fair s = (
    ap listed
        (member-keys hash now k c s.valid s.placed ∙ ap is_there (s.reads now k (omega arith))),
    s,
  )
  step-Agrees now (sweeps i) c a fair s = (refl, Simulates-sweep now i c a s)
  step-Agrees now (reorders i f) c a fair s = (refl, Simulates-reorder now i f c a fair s)

  Simulates-later :
      (now later : ℤ) (c : MemoryCache) (a : Plain)
      → now ≤ℤ later
      → Simulates now c a
      → Simulates later c a
  Simulates-later now later c a le s = record {
    valid = s.valid;
    placed = λ i k l h differs. s.placed i k l (omega arith) differs;
    reads = λ l k h. s.reads l k (omega arith);
  }

  -- The times that the calls work with do not run backwards, in the order in which the calls hold the
  -- lock, and a shard that is met in another order keeps its entries.
  abbrev pub Timely : ℤ → List (ℤ × Request) → Type 0
  Timely now [] = Unit
  Timely now ((t, r) ∷ rs) = (now ≤ℤ t) × IsFair r × Timely t rs

  run_agrees :
      (now : ℤ) (rs : List (ℤ × Request)) (c : MemoryCache) (a : Plain)
      → Timely now rs
      → Simulates now c a
      → run hash c rs ≡ plain_run a rs
  unfolding run plain_run
  run_agrees now [] c a h s = refl
  run_agrees now ((t, r) ∷ rs) c a (le, fair, h) s =
      let (same, s') = step-Agrees t r c a fair (Simulates-later now t c a le s) in
      ap₂ ◌∷◌ same (run_agrees t rs (run_request hash t r c).1 (plain_request t r a).1 h s')

  -- From an empty cache and for any sequence of calls and sweeps whose times do not run backwards, with
  -- the entries of a shard met in any order, the replies of the sharded cache (for `Keys`, whether a
  -- key is in it) are those of one plain map that keeps every entry ever written.
  pub run-eq-plain_run :
      (now : ℤ) (rs : List (ℤ × Request))
      → Timely now rs
      → run hash new_memory_cache rs ≡ plain_run (λ k. none) rs
  run-eq-plain_run now rs h =
      run_agrees now rs new_memory_cache (λ k. none) h
        (record {
          valid = new-IsValid;
          placed = λ i k later le differs. unfold new_memory_cache lookup in refl;
          reads = λ later k le. unfold new_memory_cache lookup in refl;
        })

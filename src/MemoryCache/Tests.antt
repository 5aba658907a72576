-- ===== src/MemoryCache/Tests.antt =====
-- The cache run on small inputs, and its theorems at them.
use ginject.Prelude.{ℕ, ◌+◌, ◌≡◌, refl, true, false, none, some, List, [], ◌∷◌, arith, leb}
use ginject.Prelude.Int.{ℤ, pos}
use ginject.Text.{Bytes, codes, str_eq, str_eq_iff}
use ginject.GoMap.{GoMap, lookup, insert}
use ginject.GoMap.Distinct.{Distinct}
use ginject.MemoryCache.Listing.{IsReordering, reorder_shard}
use ginject.MemoryCache.{
  Entry, keys, expired, deadline, new_memory_cache, shard_of, get, set, set_nx, delete, ttl,
  sweep_shard, sweep_entries, write, stored,
}
use ginject.MemoryCache.Expiry.{expired-deadline, expired-overflow}
use ginject.MemoryCache.Refinement.{
  Request, gets, sets, sets_nx, asks_ttl, asks_keys, reorders, listed, Timely, sweeps, value, done,
  nx, remaining, silent, run, plain_run, run_request, run-eq-plain_run,
}

-- A hash that puts every key into shard 3.
abbrev collide : Bytes → ℕ
collide k = 3

-- The first two entries change places.
abbrev swap : GoMap Entry → GoMap Entry
swap [] = []
swap (x ∷ []) = x ∷ []
swap (x ∷ y ∷ m) = y ∷ x ∷ m

swap_keeps : (m : GoMap Entry) → Distinct m → Distinct (swap m)
unfolding lookup
swap_keeps [] d = d
swap_keeps (x ∷ []) d = d
swap_keeps ((j, v) ∷ (k, w) ∷ m) (a, (b, d)) =
    (ground (arith, str_eq_iff j k, str_eq_iff k j), (ground arith, d))

swap_same : (m : GoMap Entry) (i : Bytes) → Distinct m → lookup i (swap m) ≡ lookup i m
unfolding lookup
swap_same [] i d = refl
swap_same (x ∷ []) i d = refl
swap_same ((j, v) ∷ (k, w) ∷ m) i (a, (b, d)) =
    ground (arith, str_eq_iff j i, str_eq_iff k i, str_eq_iff k j)

swap-IsReordering : IsReordering swap
swap-IsReordering = record { keeps = swap_keeps; same = swap_same }

abbrev script : List (ℤ × Request)
script =
    (pos 10, sets (codes "a") (codes "x") (pos 5))
    ∷ (pos 11, sets_nx (codes "a") (codes "y") (pos 0))
    ∷ (pos 12, asks_ttl (codes "a"))
    ∷ (pos 13, sets (codes "b") (codes "w") (pos 0))
    ∷ (pos 14, reorders 3 swap)
    ∷ (pos 15, sweeps 3)
    ∷ (pos 15, asks_keys (codes "b"))
    ∷ (pos 15, gets (codes "a"))
    ∷ (pos 16, sets_nx (codes "a") (codes "z") (pos 0))
    ∷ (pos 17, gets (codes "a"))
    ∷ []

script_runs :
    run collide new_memory_cache script
    ≡ done none
      ∷ nx (stored false)
      ∷ remaining (some (pos 3))
      ∷ done none
      ∷ silent
      ∷ silent
      ∷ listed true
      ∷ value none
      ∷ nx (stored true)
      ∷ value (some (codes "z"))
      ∷ []
unfolding run run_request new_memory_cache set set_nx get ttl delete sweep_shard sweep_entries write
    lookup insert expired deadline shard_of keys reorder_shard str_eq
script_runs = refl

script-Timely : Timely collide (pos 0) script
script-Timely = (
  omega arith,
  tt,
  (
    omega arith,
    tt,
    (
      omega arith,
      tt,
      (
        omega arith,
        tt,
        (
          omega arith,
          swap-IsReordering,
          (
            omega arith,
            tt,
            (omega arith, tt, (omega arith, tt, (omega arith, tt, (omega arith, tt, tt)))),
          ),
        ),
      ),
    ),
  ),
)

run-eq-plain_run_example : run collide new_memory_cache script ≡ plain_run (λ k. none) script
run-eq-plain_run_example = run-eq-plain_run collide (pos 0) script script-Timely

expired-deadline_example :
    expired (record { val = codes "x"; expires_at = deadline (pos 10) (pos 5) }) (pos 14)
    ≡ leb (10 + 5) 14
expired-deadline_example = expired-deadline (codes "x") 10 5 14 (omega arith) (omega arith)

expired-overflow_example :
    expired
      (record { val = codes "x"; expires_at = deadline (pos 1) (pos 9223372036854775807) })
      (pos 1)
    ≡ true
expired-overflow_example =
    expired-overflow (codes "x") 1 9223372036854775807 1 (omega arith) (omega arith) (omega arith)

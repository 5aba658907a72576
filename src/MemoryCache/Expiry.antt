-- ===== src/MemoryCache/Expiry.antt =====
-- Deadlines and expiry of memorycache/memory_cache.go.
use ginject.Prelude.{ℕ, ◌+◌, ◌^◌, ◌<◌, ◌≤◌, ◌≡◌, true, false, arith, leb}
use ginject.Prelude.Int.{ℤ, pos, ◌≤ℤ◌}
use ginject.Text.{Bytes}
use ginject.MemoryCache.{Entry, expired, deadline}

-- Time does not undo expiry.
pub expired_mono :
    (e : Entry) (now later : ℤ) → now ≤ℤ later → expired e now ≡ true → expired e later ≡ true
unfolding expired
expired_mono e now later le h = ground arith

-- Where `now + ttl` fits an `int64`, an entry with a positive `ttl` is live exactly before that time.
pub expired-deadline :
    (val : Bytes) (now ttl later : ℕ)
    → 0 < ttl
    → now + ttl < 2 ^ 63
    → expired (record { val = val; expires_at = deadline (pos now) (pos ttl) }) (pos later)
      ≡ leb (now + ttl) later
unfolding expired deadline
expired-deadline val now ttl later positive fits = ground arith

-- Where it does not fit, the sum wraps round to the past and the entry has expired when it is written.
pub expired-overflow :
    (val : Bytes) (now ttl later : ℕ)
    → now < 2 ^ 63
    → ttl < 2 ^ 63
    → 2 ^ 63 ≤ now + ttl
    → expired (record { val = val; expires_at = deadline (pos now) (pos ttl) }) (pos later) ≡ true
unfolding expired deadline
expired-overflow val now ttl later hn ht over = ground arith

-- Without a positive `ttl` an entry never expires.
pub expired-forever :
    (val : Bytes) (now ttl later : ℤ)
    → ttl ≤ℤ pos 0
    → expired (record { val = val; expires_at = deadline now ttl }) later ≡ false
unfolding expired deadline
expired-forever val now ttl later h = ground arith

-- ===== src/L3fwd/Config/Sizes.antt =====
-- l3fwd/main.c: the sizes that parse_queue_size and parse_mbcache_size accept.
use dpdk_practice.Base.{◌||◌, leb, if◌then◌else◌, none, ℕ, ◌≤◌, ◌<◌, some, ◌≡◌, arith}
use dpdk_practice.Clib.{Str, strtoul}
use dpdk_practice.L3fwd.Config.{is_bad, parse_queue_size, parse_mbcache_size}

pub parse_queue_size-bounds :
    (text : Str) (v : ℕ) → parse_queue_size text ≡ some v → (0 < v) × (v ≤ 65535)
unfolding parse_queue_size
parse_queue_size-bounds text v h = (ground (arith, h), ground (arith, h))

pub parse_mbcache_size-le :
    (max_size : ℕ) (text : Str) (old v : ℕ)
    → old ≤ max_size
    → parse_mbcache_size max_size text old ≡ some v
    → v ≤ max_size
unfolding parse_mbcache_size
parse_mbcache_size-le max_size text old v le h = ground (arith, h, le)

-- parse_mbcache_size ends the program for a number that is too large, and for nothing else.
pub parse_mbcache_size-eq :
    (max_size : ℕ) (text : Str) (old : ℕ)
    → let n = strtoul text 10 in
      parse_mbcache_size max_size text old ≡ (
        if is_bad text n.rest || leb n.value max_size
        then some (if is_bad text n.rest then old else n.value)
        else none)
unfolding parse_mbcache_size
parse_mbcache_size-eq max_size text old = ground arith

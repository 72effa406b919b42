-- ===== src/L2fwd/Args/Laws.antt =====
-- What the option parsers make of plain numerals.
use dpdk_practice.Base.{ℕ, ◌≤◌, ◌<◌, false, List, [], ◌∷◌, ltb, if◌then◌else◌, ◌≡◌, arith}
use dpdk_practice.Clib.{ulong_max}
use dpdk_practice.Clib.Numerals.{
  AllBelow, numeral, value_of, digit_char, strtoul-numeral, radix-ten, radix-sixteen,
}
use dpdk_practice.L2fwd.Args.{
  l2fwd_parse_nqueue, l2fwd_parse_portmask, is_bad, max_rx_queue_per_lcore,
}

not_bad : (d : ℕ) (ds : List ℕ) → d < 36 → is_bad (numeral (d ∷ ds)) [] ≡ false
not_bad d ds h = ground arith

-- For a decimal numeral whose value fits an unsigned long, l2fwd_parse_nqueue gives that value if
-- it is from 1 to 15, and 0 otherwise.
pub l2fwd_parse_nqueue-numeral :
    (d : ℕ) (ds : List ℕ)
    → AllBelow 10 (d ∷ ds)
    → value_of 10 0 (d ∷ ds) ≤ ulong_max
    → l2fwd_parse_nqueue (numeral (d ∷ ds))
      ≡ (if ltb (value_of 10 0 (d ∷ ds)) max_rx_queue_per_lcore then value_of 10 0 (d ∷ ds) else 0)
unfolding l2fwd_parse_nqueue
l2fwd_parse_nqueue-numeral d ds h fits =
    rw
      (
        strtoul-numeral 10 d ds (omega arith) h (radix-ten (digit_char d) (numeral ds)) fits,
        not_bad d ds (omega (arith, h.0)),
      )
      (ground arith)

-- For a hexadecimal numeral (lower case, no prefix) whose value fits 32 bits, l2fwd_parse_portmask
-- gives that value.
l2fwd_parse_portmask-numeral :
    (d : ℕ) (ds : List ℕ)
    → AllBelow 16 (d ∷ ds)
    → value_of 16 0 (d ∷ ds) < 4294967296
    → l2fwd_parse_portmask (numeral (d ∷ ds)) ≡ value_of 16 0 (d ∷ ds)
unfolding l2fwd_parse_portmask
l2fwd_parse_portmask-numeral d ds h fits =
    rw
      (
        strtoul-numeral 16 d ds (omega arith) h (radix-sixteen d ds h) (omega arith),
        not_bad d ds (omega (arith, h.0)),
      )
      (omega arith)

-- ===== src/L3fwd/OnePort.antt =====
-- l3fwd/l3fwd_sse.h, process_dst_port: whether all packets of a vector go to one port.
pub mod Laws
use dpdk_practice.Base.{
  ℕ, zero, suc, ◌+◌, ◌*◌, ◌/◌, ◌%◌, Bool, true, false, ◌&&◌, ◌==◌, if◌then◌else◌,
}
use dpdk_practice.L3fwd.Rfc1812.{bad_port}

module _ (dst_ports : ℕ → ℕ) where
  -- The comparison of the `n` ports from index `i` on with the first port of all.
  abbrev pub all_same : ℕ → ℕ → Bool
  all_same i zero = true
  all_same i (suc n) = dst_ports i == dst_ports 0 && all_same (i + 1) n

  -- One of the three loops, which compares `width` ports in a round, by the rounds left; false is
  -- the return of BAD_PORT.
  pub compare_rounds : ℕ → ℕ → ℕ → Bool
  compare_rounds width zero i = true
  compare_rounds width (suc rounds) i =
      let rest = compare_rounds width rounds (i + width) in if all_same i width then rest else false

  -- By eights, then a four, then one by one.
  pub process_dst_port : ℕ → ℕ
  unfolding compare_rounds
  process_dst_port nb_elem =
      if compare_rounds 8 (nb_elem / 8) 0
      then if compare_rounds 4 (nb_elem % 8 / 4) (nb_elem / 8 * 8)
        then if compare_rounds 1 (nb_elem % 4) (nb_elem / 4 * 4) then dst_ports 0 else bad_port
        else bad_port
      else bad_port

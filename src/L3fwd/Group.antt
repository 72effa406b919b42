-- ===== src/L3fwd/Group.antt =====
-- common/pkt_group.h, common/sse/port_group.h and l3fwd/l3fwd_sse.h: the packets of a burst are
-- grouped by destination port, four comparisons at once through a table.
mod Tests
pub mod Table
pub mod Laws
pub mod Steps
pub mod Blocks
pub mod Runs
use dpdk_practice.Base.{
  ℕ, zero, suc, ◌+◌, ◌-◌, ◌*◌, ◌/◌, ◌%◌, ◌^◌, Bool, List, [], ◌∷◌, get_or, update, ◌==◌, ltb, not,
  if◌then◌else◌,
}
use dpdk_practice.L3fwd.Group.Table.{Entry, gptbl, no_entry, u16_at}

-- `pnum[]`, and the index of the entry that `lp` points to.
pub record Groups : Type 0 where
  pub pnum : ℕ → ℕ
  pub lp : ℕ

-- `lp[0] += n` on a uint16_t.
abbrev pub add_last : Groups → ℕ → Groups
add_last g n = record g { pnum = update g.pnum g.lp ((g.pnum g.lp + n) % 65536) }

abbrev pub bit : Bool → ℕ
bit b = if b then 1 else 0

-- The mask that the comparison of the four lanes gives.
abbrev pub lanes : Bool → Bool → Bool → Bool → ℕ
lanes a b c d = bit a + bit b * 2 + bit c * 4 + bit d * 8

-- `pnum->u64 = p; pnum->u16[FWDSTEP] = 1` at index `pn`.
pub store_entry : (ℕ → ℕ) → ℕ → ℕ → ℕ → ℕ
store_entry pnum pn p =
    update
      (update
        (update (update (update pnum pn (u16_at p 0)) (pn + 1) (u16_at p 1)) (pn + 2) (u16_at p 2))
        (pn + 3) (u16_at p 3))
      (pn + 4) 1

-- `v` is the mask, `pn` the index of the block's first packet.
pub port_groupx4 : ℕ → Groups → ℕ → Groups
unfolding store_entry
port_groupx4 pn g v =
    let entry = get_or gptbl v no_entry in
    let counted = add_last g entry.lpv in
    if not (v == 15)
    then record { pnum = store_entry counted.pnum pn entry.pnum; lp = pn + entry.idx }
    else counted

-- GROUP_PORT_STEP, with `dlp`.
pub group_port_step : (ℕ → ℕ) → ℕ → Groups × ℕ → Groups × ℕ
group_port_step dcp idx (g, dlp) =
    if dlp == dcp idx
    then (add_last g 1, dlp)
    else (record { pnum = update g.pnum idx 1; lp = idx }, dcp idx)

-- `dst_port` as the checks of the packets have left it.
module _ (dst_port : ℕ → ℕ) where
  abbrev pub same : ℕ → ℕ → Bool
  same i j = dst_port i == dst_port j

  -- A block from index `pn` on against the ports one further.
  pub full_block : ℕ → Groups → Groups
  full_block pn g = port_groupx4 pn g (
      lanes (same pn (pn + 1)) (same (pn + 1) (pn + 2)) (same (pn + 2) (pn + 3))
        (same (pn + 3) (pn + 4)))

  -- The last block: its last port is compared with itself.
  pub last_block : ℕ → Groups → Groups
  last_block pn g = port_groupx4 pn g (
      lanes (same pn (pn + 1)) (same (pn + 1) (pn + 2)) (same (pn + 2) (pn + 3))
        (same (pn + 3) (pn + 3)))

  -- `for (j = FWDSTEP; j != k; j += FWDSTEP)`, by the rounds left; `pn` is `j - FWDSTEP`.
  pub full_blocks : ℕ → ℕ → Groups → Groups
  full_blocks zero pn g = g
  full_blocks (suc rounds) pn g = full_blocks rounds (pn + 4) (full_block pn g)

  -- All the blocks of the first `4 * suc rounds` packets; `lp[0]--` takes back what the last
  -- comparison added.
  pub vector_part : (ℕ → ℕ) → ℕ → Groups
  vector_part junk rounds =
      let start : Groups = record { pnum = update junk 0 1; lp = 0 } in
      let g = last_block (rounds * 4) (full_blocks rounds 0 start) in
      record g { pnum = update g.pnum g.lp ((g.pnum g.lp + 65535) % 65536) }

  -- The packets behind the blocks, one by one.
  pub tail_steps : ℕ → ℕ → Groups × ℕ → Groups × ℕ
  tail_steps zero j g = g
  tail_steps (suc left) j g = tail_steps left (j + 1) (group_port_step dst_port j g)

  -- `pnum` for `nb_rx` packets; `junk` is what the array holds at first, and BAD_PORT - 1 stands
  -- for no port.
  pub group_ports : (ℕ → ℕ) → ℕ → ℕ → ℕ → ℕ
  group_ports junk max_burst nb_rx =
      let blocks = nb_rx / 4 in
      let k = blocks * 4 in
      let start : Groups × ℕ =
        if not (k == 0)
        then (vector_part junk (blocks - 1), dst_port (k - 1))
        else (record { pnum = junk; lp = max_burst }, 65534) in
      (tail_steps (nb_rx % 4) k start).0.pnum

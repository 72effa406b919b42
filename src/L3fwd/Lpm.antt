-- ===== src/L3fwd/Lpm.antt =====
-- l3fwd/l3fwd_lpm.c and l3fwd_lpm_sse.h: forwarding by longest prefix match.
mod Tests
pub mod Lookup
pub mod MainLoop
pub mod EventLoop
use dpdk_practice.Base.{
  ℕ, zero, suc, ◌+◌, ◌-◌, ◌*◌, ◌/◌, ◌%◌, Bool, ◌&&◌, Option, none, some, ltb, leb, ◌==◌,
  if◌then◌else◌, update, ◌≡◌,
}
use dpdk_practice.L3fwd.Rfc1812.{Frame, step3_lane, process_packet}
use dpdk_practice.L3fwd.Routes.{ntohl}
use dpdk_practice.L3fwd.Tx.Copy.{Table}
use dpdk_practice.L3fwd.Tx.{TxDevice, TxStats, Core}
use dpdk_practice.L3fwd.Multi.{Packets, finish, send_packets_multi}

-- A uint32_t as the host reads it.
abbrev pub load32 : Frame → ℕ → ℕ
load32 f at = f at + f (at + 1) * 256 + f (at + 2) * 65536 + f (at + 3) * 16777216

-- Where the destination stands behind 14 bytes of Ethernet header.
abbrev pub ipv4_dst_at : ℕ
ipv4_dst_at = 30

abbrev pub ipv6_dst_at : ℕ
ipv6_dst_at = 38

-- rte_lpm_lookup and rte_lpm6_lookup on the core's tables, with the next hop where they find one,
-- and rte_lpm_lookupx4 on four addresses and a default, by the lane.
pub record Tables : Type 0 where
  pub lookup4 : ℕ → Option ℕ
  pub lookup6 : (ℕ → ℕ) → Option ℕ
  pub lookupx4 : (ℕ → ℕ) → ℕ → ℕ → ℕ

-- The next hop as a uint16_t.
abbrev pub hop_or : Option ℕ → ℕ → ℕ
hop_or (some next_hop) portid = next_hop % 65536
hop_or none portid = portid

-- _mm_packs_epi32 on one lane: a signed 32-bit word is saturated to 16 bits.
abbrev pub packs : ℕ → ℕ
packs v =
    if ltb v 32768
    then v
    else if ltb v 2147483648
    then 32767
    else if leb 4294934528 v
    then v % 65536
    else 32768

-- A 64-bit store of four ports at index `j`.
abbrev pub store4 : Table → ℕ → (ℕ → ℕ) → Table
store4 t j v i = if leb j i && ltb i (j + 4) then v (i - j) else t i

-- `dip`, by the packet's index, and `ipv4_flag`, by the block.
pub record Step1 : Type 0 where
  pub dip : Table
  pub ipv4_flag : ℕ → Bool

-- The block `b`. The flag is the conjunction of the types' bits for IPv4.
pub processx4_step1 : Packets → Table → ℕ → Step1 → Step1
processx4_step1 p pkts b s =
    let at : ℕ → ℕ = λ i. pkts (b * 4 + i) in
    record {
      dip = store4 s.dip (b * 4) (λ i. load32 (p.frame (at i)) ipv4_dst_at);
      ipv4_flag =
          update s.ipv4_flag b
            (p.is_ipv4 (at 0) && p.is_ipv4 (at 1) && p.is_ipv4 (at 2) && p.is_ipv4 (at 3));
    }

pub step1_blocks : Packets → Table → ℕ → ℕ → Step1 → Step1
step1_blocks p pkts zero b s = s
step1_blocks p pkts (suc rounds) b s =
    step1_blocks p pkts rounds (b + 1) (processx4_step1 p pkts b s)

module _ (tables : Tables) where
  open tables use {lookup4, lookup6, lookupx4}

  abbrev pub lpm_get_ipv4_dst_port : Frame → ℕ → ℕ
  lpm_get_ipv4_dst_port f portid = hop_or (lookup4 (ntohl (load32 f ipv4_dst_at))) portid

  abbrev pub lpm_get_ipv6_dst_port : Frame → ℕ → ℕ
  lpm_get_ipv6_dst_port f portid = hop_or (lookup6 (λ i. f (ipv6_dst_at + i))) portid

  unfoldable pub lpm_get_dst_port : Packets → ℕ → ℕ → ℕ
  lpm_get_dst_port p pkt portid =
      if p.is_ipv4 pkt
      then lpm_get_ipv4_dst_port (p.frame pkt) portid
      else if p.is_ipv6 pkt
      then lpm_get_ipv6_dst_port (p.frame pkt) portid
      else portid

  -- With the address `dst_ipv4` in host order.
  pub lpm_get_dst_port_with_ipv4 : Packets → ℕ → ℕ → ℕ → ℕ
  lpm_get_dst_port_with_ipv4 p pkt dst_ipv4 portid =
      if p.is_ipv4 pkt
      then hop_or (lookup4 dst_ipv4) portid
      else if p.is_ipv6 pkt
      then hop_or (lookup6 (λ i. p.frame pkt (ipv6_dst_at + i))) portid
      else portid

  pub processx4_step2 : Packets → Table → ℕ → Step1 → ℕ → Table → Table
  processx4_step2 p pkts portid s b dst_port =
      let swapped : ℕ → ℕ = λ i. ntohl (s.dip (b * 4 + i)) in
      store4 dst_port (b * 4) (
        if s.ipv4_flag b then (λ i. packs (lookupx4 swapped portid i)) else λ i.
        lpm_get_dst_port_with_ipv4 p (pkts (b * 4 + i)) (swapped i) portid)

  pub step2_blocks : Packets → Table → ℕ → Step1 → ℕ → ℕ → Table → Table
  step2_blocks p pkts portid s zero b dst_port = dst_port
  step2_blocks p pkts portid s (suc rounds) b dst_port =
      step2_blocks p pkts portid s rounds (b + 1) (processx4_step2 p pkts portid s b dst_port)

  -- The packets behind the blocks, one by one.
  pub classify_last : (ℕ → Frame) → Bool → Table → ℕ → ℕ → ℕ → Packets × Table → Packets × Table
  classify_last val_eth do_step3 pkts portid zero j s = s
  classify_last val_eth do_step3 pkts portid (suc left) j (p, dst_port) =
      let found : Packets × Table = (p, update dst_port j (lpm_get_dst_port p (pkts j) portid)) in
      classify_last val_eth do_step3 pkts portid left (j + 1)
        (if do_step3 then finish (process_packet val_eth) pkts 1 j found else found)

  pub l3fwd_lpm_process_packets :
      (ℕ → Frame) → ℕ → Table → ℕ → Step1 → Bool → Packets × Table → Packets × Table
  l3fwd_lpm_process_packets val_eth nb_rx pkts portid fresh do_step3 (p, dst_port) =
      let blocks = nb_rx / 4 in
      let k = blocks * 4 in
      let s = step1_blocks p pkts blocks 0 fresh in
      let found : Packets × Table = (p, step2_blocks p pkts portid s blocks 0 dst_port) in
      classify_last val_eth do_step3 pkts portid (nb_rx % 4) k
        (if do_step3 then finish (step3_lane val_eth) pkts k 0 found else found)

  -- `junk` and `fresh` are what `pnum` and the arrays of the lookup hold at first.
  pub l3fwd_lpm_send_packets :
      (d : TxDevice)
      → ℕ
      → (ℕ → Frame)
      → Table
      → Step1
      → ℕ
      → Table
      → ℕ
      → Packets × Table
      → Core d
      → TxStats × Core d × Packets × Table
  l3fwd_lpm_send_packets d tx_burst_size val_eth junk fresh nb_rx pkts_burst portid s c =
      send_packets_multi d tx_burst_size val_eth junk pkts_burst nb_rx
        (l3fwd_lpm_process_packets val_eth nb_rx pkts_burst portid fresh Bool.false s) c

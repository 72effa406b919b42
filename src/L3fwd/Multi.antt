-- ===== src/L3fwd/Multi.antt =====
-- l3fwd/l3fwd_sse.h: send_packets_multi. The packets are checked, grouped by port and handed on,
-- one call of send_packetsx4 for each group.
mod Tests
pub mod Laws
pub mod Flow
pub mod Balance
use dpdk_practice.Base.{
  ℕ, zero, suc, ◌+◌, ◌*◌, ◌/◌, ◌%◌, Bool, not, ltb, ◌==◌, if◌then◌else◌, update, List, [], ◌++◌,
}
use dpdk_practice.L3fwd.Rfc1812.{Frame, bad_port, step3_lane, process_packet}
use dpdk_practice.L3fwd.Group.{group_ports}
use dpdk_practice.L3fwd.Tx.Copy.{Table, slice}
use dpdk_practice.L3fwd.Tx.{TxDevice, TxStats, max_pkt_burst, Core, send_packetsx4}

-- The frames of the packets, and whether RTE_ETH_IS_IPV4_HDR and RTE_ETH_IS_IPV6_HDR hold of a
-- packet's type.
pub record Packets : Type 0 where
  pub frame : ℕ → Frame
  pub is_ipv4 : ℕ → Bool
  pub is_ipv6 : ℕ → Bool

-- `step` is the treatment of one packet; the packets from index `j` on, and their ports.
module _ (step : Bool → Frame → ℕ → Frame × ℕ) (pkts_burst : Table) where
  pub finish_one : ℕ → Packets × Table → Packets × Table
  finish_one j (p, dst_port) =
      let pkt = pkts_burst j in
      let (f, dp) = step (p.is_ipv4 pkt) (p.frame pkt) (dst_port j) in
      (record p { frame = update p.frame pkt f }, update dst_port j dp)

  pub finish : ℕ → ℕ → Packets × Table → Packets × Table
  finish zero j s = s
  finish (suc n) j s = finish n (j + 1) (finish_one j s)

-- The lanes of the blocks, and then up to three packets one by one.
pub finish_packets : (ℕ → Frame) → Table → ℕ → Packets × Table → Packets × Table
finish_packets val_eth pkts_burst nb_rx s =
    let k = nb_rx / 4 * 4 in
    finish (process_packet val_eth) pkts_burst (nb_rx % 4) k
      (finish (step3_lane val_eth) pkts_burst k 0 s)

abbrev pub add_stats : TxStats → TxStats → TxStats
add_stats a b = record { sent = a.sent + b.sent; dropped = a.dropped + b.dropped }

module _ (d : TxDevice) (tx_burst_size : ℕ) (pkts_burst dst_port pnum : Table) where
  -- rte_pktmbuf_free for `k` packets from index `j` on.
  abbrev pub free_group : ℕ → ℕ → Core d → Core d
  free_group j k c = record c { freed = c.freed ++ slice pkts_burst j k }

  -- The body of the loop: the group that starts at index `j`.
  pub send_group : ℕ → TxStats × Core d → TxStats × Core d
  send_group j (stats, c) =
      let pn = dst_port j in
      let k = pnum j in
      if not (pn == bad_port)
      then (let (ret, c1) = send_packetsx4 d tx_burst_size c pn (λ i. pkts_burst (j + i)) k in
          (add_stats stats ret, c1))
      else (add_stats stats (record { sent = 0; dropped = k }), free_group j k c)

  -- `for (j = 0; j < nb_rx; j += k)`, on fuel.
  pub send_groups : ℕ → ℕ → ℕ → TxStats × Core d → TxStats × Core d
  send_groups zero nb_rx j s = s
  send_groups (suc fuel) nb_rx j s =
      let rest = send_groups fuel nb_rx (j + pnum j) (send_group j s) in
      if ltb j nb_rx then rest else s

-- `junk` is what `pnum` holds at first. Each group has a packet, so `nb_rx` rounds are enough.
pub send_packets_multi :
    (d : TxDevice)
    → ℕ
    → (ℕ → Frame)
    → Table
    → Table
    → ℕ
    → Packets × Table
    → Core d
    → TxStats × Core d × Packets × Table
send_packets_multi d tx_burst_size val_eth junk pkts_burst nb_rx s c =
    let (p, dst_port) = finish_packets val_eth pkts_burst nb_rx s in
    let pnum = group_ports dst_port junk max_pkt_burst nb_rx in
    let nothing : TxStats = record { sent = 0; dropped = 0 } in
    let (stats, c1) =
      send_groups d tx_burst_size pkts_burst dst_port pnum nb_rx nb_rx 0 (nothing, c) in
    (stats, c1, p, dst_port)

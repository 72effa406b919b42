-- ===== src/L3fwd/Polling/Burst.antt =====
-- l3fwd/l3fwd_sse.h: send_packets_multi sends in order.
use dpdk_practice.Base.{ℕ, ◌≤◌, ◌<◌, ◌≢◌}
use dpdk_practice.L3fwd.Rfc1812.{Frame, bad_port}
use dpdk_practice.L3fwd.Tx.Copy.{Table}
use dpdk_practice.L3fwd.Tx.Flows.{Flows}
use dpdk_practice.L3fwd.Tx.{TxDevice, max_pkt_burst, Core}
use dpdk_practice.L3fwd.Multi.Laws.{HasRoom}
use dpdk_practice.L3fwd.Multi.Flow.{to_port, send_packets_multi-Flows}
use dpdk_practice.L3fwd.Multi.Balance.{GoodPorts, finish_packets-first, send_packets_multi-balance}
use dpdk_practice.L3fwd.Multi.{Packets, send_packets_multi}

module _ (d : TxDevice) (tx_burst_size : ℕ) (val_eth : ℕ → Frame) (junk pkts : Table) (nb_rx n : ℕ)
    (s : Packets × Table) (c : Core d) (pos : 0 < nb_rx) (most : nb_rx ≤ max_pkt_burst)
    (few : n ≤ 65534) (room : HasRoom d c) (good : GoodPorts n nb_rx s.1) where
  abbrev behind : Core d
  behind = (send_packets_multi d tx_burst_size val_eth junk pkts nb_rx s c).1

  pub multi-room : HasRoom d behind
  multi-room =
      (send_packets_multi-balance d tx_burst_size val_eth junk pkts nb_rx n s c pos most few room
        good).1

  pub multi-Flows :
      (q : ℕ)
      → q ≢ bad_port
      → let (stats, c1, p, dst_port) =
          send_packets_multi d tx_burst_size val_eth junk pkts nb_rx s c in
        Flows d c c1 q (to_port pkts dst_port q 0 nb_rx)
  multi-Flows q ne =
      send_packets_multi-Flows d tx_burst_size val_eth junk pkts nb_rx s c q ne pos most room
        (finish_packets-first val_eth pkts nb_rx n s pos few good)

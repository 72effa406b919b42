-- ===== src/L3fwd/Em/MainLoop.antt =====
-- l3fwd/l3fwd_em.c: em_main_loop.
use dpdk_practice.Base.{ℕ, ◌≤◌, List, ◌≢◌, arith}
use dpdk_practice.L3fwd.Rfc1812.{Frame, bad_port}
use dpdk_practice.L3fwd.Tx.Copy.{Table}
use dpdk_practice.L3fwd.Tx.{TxDevice, max_pkt_burst}
use dpdk_practice.L3fwd.Multi.Laws.{HasRoom}
use dpdk_practice.L3fwd.Lpm.MainLoop.{RxQueue}
use dpdk_practice.L3fwd.Lpm.MainLoop.Balance.{QueuesBelow}
use dpdk_practice.L3fwd.Polling.{RxDevice, Send, PollLoop, poll_from_now}
use dpdk_practice.L3fwd.Polling.Order.{InOrder, Follows}
use dpdk_practice.L3fwd.Polling.Turns.{poll_from_now-Follows}
use dpdk_practice.L3fwd.Polling.Burst.{multi-room, multi-Flows}
use dpdk_practice.L3fwd.Em.Ports.{process_packets-GoodPorts}
use dpdk_practice.L3fwd.Em.{Hash, EmTables, EmPackets, l3fwd_em_send_packets}

module _ (h : Hash) (shift : ℕ → ℕ) (enabled_port_mask max_ethports : ℕ) (t : EmTables h)
    (d : TxDevice) (tx_burst_size : ℕ) (val_eth : ℕ → Frame) (pnum dst_port : Table) where
  -- `pnum` and `dst_port` are what the arrays on the stack hold at first.
  abbrev pub em_send : Send d EmPackets
  em_send nb_rx pkts_burst portid m c =
      let (stats, c1, p1, ports) =
        l3fwd_em_send_packets h shift enabled_port_mask max_ethports d tx_burst_size val_eth pnum
          nb_rx pkts_burst portid t (m, dst_port) c in
      (record m { packets = p1 }, ports, c1)

  pub em_main_loop :
      (r : RxDevice EmPackets) (rx_burst_size : ℕ)
      → List ℕ
      → List RxQueue
      → ℕ
      → List ℕ
      → PollLoop d EmPackets r em_send rx_burst_size
      → PollLoop d EmPackets r em_send rx_burst_size
  em_main_loop r rx_burst_size = poll_from_now d EmPackets r em_send rx_burst_size

  module _ (n : ℕ) (enough : max_ethports ≤ n) (few : n ≤ 65534) where
    em_send-InOrder : (most : ℕ) → most ≤ max_pkt_burst → InOrder d EmPackets em_send n most
    unfolding l3fwd_em_send_packets
    em_send-InOrder most small = record {
      keeps_room = λ nb_rx pkts portid m c pos le lt room.
          multi-room d tx_burst_size val_eth pnum pkts nb_rx n _ c pos (omega (arith, le, small))
            few room
            (process_packets-GoodPorts h shift enabled_port_mask max_ethports t pkts portid n enough
              lt val_eth m nb_rx dst_port);
      hands = λ nb_rx pkts portid m c q good pos le lt room.
          multi-Flows d tx_burst_size val_eth pnum pkts nb_rx n _ c pos (omega (arith, le, small))
            few room
            (process_packets-GoodPorts h shift enabled_port_mask max_ethports t pkts portid n enough
              lt val_eth m nb_rx dst_port)
            q good;
    }

    -- For at most 65534 ports, max_ethports and the receiving ports among them, rx_burst_size at
    -- most MAX_PKT_BURST and buffers that all have room, after any turns of em_main_loop, whatever
    -- the hash tables hold: the packets that the calls of rte_eth_rx_burst gave on the way are all
    -- appended to those received, each with the destination that the method's array holds for it
    -- when the burst has been sent, no buffer is full, and for every port other than BAD_PORT the
    -- packets that waited for it and then those that came with it as their destination are, in this
    -- order, those offered to the device by the calls of rte_eth_tx_burst on the port and its queue
    -- and those that wait now, while the wire of the port gains the first packets of each such call
    -- that the device took, and the rest of each is freed.
    pub em_main_loop-Follows :
        (r : RxDevice EmPackets) (rx_burst_size : ℕ) (tx_port_id : List ℕ) (queues : List RxQueue)
        (drain_tsc : ℕ) (times : List ℕ) (s : PollLoop d EmPackets r em_send rx_burst_size) (q : ℕ)
        → rx_burst_size ≤ max_pkt_burst
        → QueuesBelow n queues
        → HasRoom d s.core
        → q ≢ bad_port
        → Follows d EmPackets r em_send rx_burst_size q s
            (em_main_loop r rx_burst_size tx_port_id queues drain_tsc times s)
    unfolding em_main_loop
    em_main_loop-Follows r rx_burst_size tx_port_id queues drain_tsc times s q small below room
          good =
        poll_from_now-Follows d EmPackets r em_send rx_burst_size n
          (em_send-InOrder rx_burst_size small) q good tx_port_id queues drain_tsc times s below
          room

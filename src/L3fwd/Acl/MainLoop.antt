-- ===== src/L3fwd/Acl/MainLoop.antt =====
-- l3fwd/l3fwd_acl.c: acl_main_loop.
use dpdk_practice.Base.{ℕ, ◌≤◌, ◌<◌, List, ◌≡◌, ◌≢◌, refl, sym, subst, ◌⊎◌, inl, inr, Bool-cases}
use dpdk_practice.L3fwd.Rfc1812.{Frame, bad_port}
use dpdk_practice.L3fwd.Tx.Copy.{Table}
use dpdk_practice.L3fwd.Tx.{TxDevice, max_pkt_burst}
use dpdk_practice.L3fwd.Multi.Laws.{HasRoom}
use dpdk_practice.L3fwd.Multi.Balance.{GoodPorts}
use dpdk_practice.L3fwd.Multi.{Packets}
use dpdk_practice.L3fwd.Lpm.MainLoop.{RxQueue}
use dpdk_practice.L3fwd.Lpm.MainLoop.Balance.{QueuesBelow}
use dpdk_practice.L3fwd.Polling.{RxDevice, Send, PollLoop, poll_from_zero}
use dpdk_practice.L3fwd.Polling.Order.{InOrder, Follows}
use dpdk_practice.L3fwd.Polling.Turns.{poll_from_zero-Follows}
use dpdk_practice.L3fwd.Acl.Process.{AclSearch, Classify, acl_process_pkts, acl_send_packets}
use dpdk_practice.L3fwd.Acl.Process.Laws.{SearchesEach, hop_of, result_of, acl_process_pkts-lem}
use dpdk_practice.L3fwd.Acl.Process.Single.{acl_send_packets-lem}

-- One of the first `n` ports, or BAD_PORT.
abbrev pub IsHop : ℕ → ℕ → Type 0
IsHop n hop = (hop < n) ⊎ (hop ≡ bad_port)

-- `classify4` and `classify6` are rte_acl_classify on what the packets hold; the last three are what
-- the arrays on the stack hold at first.
module _ (classify4 classify6 : Packets → Classify) (d : TxDevice) (tx_burst_size : ℕ)
    (val_eth dest_eth_addr ports_eth_addr : ℕ → Frame) (pnum : Table) (fresh : AclSearch)
    (hops : Table) where
  abbrev pub acl_send : ℕ → Send d Packets
  acl_send rx_burst_size nb_rx pkts_burst portid p c =
      let (nb_drop, found) =
        acl_process_pkts p.is_ipv4 p.is_ipv6 (classify4 p) (classify6 p) fresh pkts_burst hops
          nb_rx in
      let (p1, hops1, c1) =
        acl_send_packets d rx_burst_size dest_eth_addr ports_eth_addr pkts_burst val_eth
          tx_burst_size pnum nb_rx nb_drop (p, found, c) in
      (p1, hops1, c1)

  pub acl_main_loop :
      (r : RxDevice Packets) (rx_burst_size : ℕ)
      → List ℕ
      → List RxQueue
      → ℕ
      → List ℕ
      → PollLoop d Packets r (acl_send rx_burst_size) rx_burst_size
      → PollLoop d Packets r (acl_send rx_burst_size) rx_burst_size
  acl_main_loop r rx_burst_size = poll_from_zero d Packets r (acl_send rx_burst_size) rx_burst_size

  module _ (match4 match6 : Packets → ℕ → ℕ)
      (each4 : (p : Packets) → SearchesEach (classify4 p) (match4 p))
      (each6 : (p : Packets) → SearchesEach (classify6 p) (match6 p)) (n : ℕ) (few : n ≤ 65534)
      (hops4 : (p : Packets) (pkt : ℕ) → IsHop n (hop_of (match4 p pkt)))
      (hops6 : (p : Packets) (pkt : ℕ) → IsHop n (hop_of (match6 p pkt))) where
    result-IsHop :
        (p : Packets) (pkt : ℕ)
        → IsHop n (hop_of (result_of p.is_ipv4 p.is_ipv6 (match4 p) (match6 p) pkt))
    result-IsHop p pkt = elim (Bool-cases (p.is_ipv4 pkt)) [
      | inl four ↦ rw four (hops4 p pkt)
      | inr other ↦ elim (Bool-cases (p.is_ipv6 pkt)) [
        | inl six ↦ rw (other, six) (hops6 p pkt)
        | inr neither ↦ rw (other, neither) (inr refl)
      ]
    ]

    process-GoodPorts :
        (p : Packets) (pkts : Table) (nb_rx : ℕ)
        → GoodPorts n nb_rx
            (acl_process_pkts p.is_ipv4 p.is_ipv6
              (classify4 p)
              (classify6 p)
              fresh
              pkts
              hops
              nb_rx).1
    process-GoodPorts p pkts nb_rx i less =
        subst (IsHop n)
          (sym (
            (acl_process_pkts-lem p.is_ipv4 p.is_ipv6 (match4 p) (match6 p) (classify4 p)
                (classify6 p) (each4 p) (each6 p) fresh pkts hops nb_rx).1
              i less))
          (result-IsHop p (pkts i))

    acl_send-InOrder : InOrder d Packets (acl_send max_pkt_burst) n max_pkt_burst
    acl_send-InOrder = record {
      keeps_room = λ nb_rx pkts portid p c pos le lt room.
          (acl_send_packets-lem d tx_burst_size val_eth dest_eth_addr ports_eth_addr pnum n few
            nb_rx _ pkts p _ c pos le room (process-GoodPorts p pkts nb_rx)).0;
      hands = λ nb_rx pkts portid p c q good pos le lt room.
          (acl_send_packets-lem d tx_burst_size val_eth dest_eth_addr ports_eth_addr pnum n few
              nb_rx _ pkts p _ c pos le room (process-GoodPorts p pkts nb_rx)).1
            q good;
    }

    -- Let rx_burst_size be MAX_PKT_BURST, rte_acl_classify search for each packet on its own with
    -- results that are denied or stand for one of at most 65534 ports, the receiving ports be among
    -- them, and all buffers have room. After any turns of acl_main_loop, which sends a burst
    -- grouped by port if no packet is denied and packet by packet otherwise: the packets that the
    -- calls of rte_eth_rx_burst gave on the way are all appended to those received, each with the
    -- destination that the method's array holds for it when the burst has been sent, no buffer is
    -- full, and for every port other than BAD_PORT the packets that waited for it and then those
    -- that came with it as their destination are, in this order, those offered to the device by the
    -- calls of rte_eth_tx_burst on the port and its queue and those that wait now, while the wire
    -- of the port gains the first packets of each such call that the device took, and the rest of
    -- each is freed.
    pub acl_main_loop-Follows :
        (r : RxDevice Packets) (tx_port_id : List ℕ) (queues : List RxQueue) (drain_tsc : ℕ)
        (times : List ℕ) (s : PollLoop d Packets r (acl_send max_pkt_burst) max_pkt_burst) (q : ℕ)
        → QueuesBelow n queues
        → HasRoom d s.core
        → q ≢ bad_port
        → Follows d Packets r
            (acl_send max_pkt_burst)
            max_pkt_burst
            q
            s
            (acl_main_loop r max_pkt_burst tx_port_id queues drain_tsc times s)
    unfolding acl_main_loop
    acl_main_loop-Follows r tx_port_id queues drain_tsc times s q below room good =
        poll_from_zero-Follows d Packets r (acl_send max_pkt_burst) max_pkt_burst n acl_send-InOrder
          q good tx_port_id queues drain_tsc times s below room

-- ===== src/L3fwd/Fib/MainLoop.antt =====
-- l3fwd/l3fwd_fib.c: fib_main_loop.
use dpdk_practice.Base.{
  ℕ, ◌≤◌, ◌<◌, ◌%◌, List, ◌==◌, ◌≡◌, ◌≢◌, sym, arith, subst, ◌⊎◌, inl, inr, Bool-cases,
}
use dpdk_practice.L3fwd.Rfc1812.{Frame, bad_port}
use dpdk_practice.L3fwd.Tx.Copy.{Table}
use dpdk_practice.L3fwd.Tx.{TxDevice, max_pkt_burst}
use dpdk_practice.L3fwd.Multi.Laws.{HasRoom}
use dpdk_practice.L3fwd.Multi.Balance.{GoodPorts}
use dpdk_practice.L3fwd.Multi.{Packets}
use dpdk_practice.L3fwd.Lpm.MainLoop.{RxQueue}
use dpdk_practice.L3fwd.Lpm.MainLoop.Balance.{QueuesBelow}
use dpdk_practice.L3fwd.Polling.{RxDevice, Send, PollLoop, poll_from_now}
use dpdk_practice.L3fwd.Polling.Order.{InOrder, Follows}
use dpdk_practice.L3fwd.Polling.Turns.{poll_from_now-Follows}
use dpdk_practice.L3fwd.Polling.Burst.{multi-room, multi-Flows}
use dpdk_practice.L3fwd.Fib.{fib_default_hop, FibSearch, FibTables, fib_hops, fib_send_packets}
use dpdk_practice.L3fwd.Fib.Laws.{LooksUpEach, hop_or_port, fib_port, fib_hops-lem}

-- What the arrays on the stack hold at first.
pub record FibScratch : Type 0 where
  pub pnum : Table
  pub search : FibSearch
  pub hopsv4 : Table
  pub hopsv6 : Table
  pub hops : Table

module _ (tables : FibTables) (d : TxDevice) (tx_burst_size : ℕ) (val_eth : ℕ → Frame)
    (scratch : FibScratch) where
  abbrev pub fib_send : Send d Packets
  fib_send nb_rx pkts_burst portid p c =
      let (stats, c1, p1, hops) =
        fib_send_packets tables d tx_burst_size val_eth scratch.pnum scratch.search scratch.hopsv4
          scratch.hopsv6 scratch.hops nb_rx pkts_burst portid p c in
      (p1, hops, c1)

  pub fib_main_loop :
      (r : RxDevice Packets) (rx_burst_size : ℕ)
      → List ℕ
      → List RxQueue
      → ℕ
      → List ℕ
      → PollLoop d Packets r fib_send rx_burst_size
      → PollLoop d Packets r fib_send rx_burst_size
  fib_main_loop r rx_burst_size = poll_from_now d Packets r fib_send rx_burst_size

  -- A next hop is no port, or one of the first `n` ports.
  abbrev pub IsNextHop : ℕ → ℕ → Type 0
  IsNextHop n nh = (nh % 65536 ≡ fib_default_hop) ⊎ (nh % 65536 < n)

  module _ (next4 : ℕ → ℕ) (next6 : (ℕ → ℕ) → ℕ) (each : LooksUpEach tables next4 next6) (n : ℕ)
      (few : n ≤ 65534) (hops4 : (ip : ℕ) → IsNextHop n (next4 ip))
      (hops6 : (ip : ℕ → ℕ) → IsNextHop n (next6 ip)) where
    hop_or_port-lt : (nh portid : ℕ) → IsNextHop n nh → portid < n → hop_or_port nh portid < n
    hop_or_port-lt nh portid (inl none_found) lt = rw none_found lt
    hop_or_port-lt nh portid (inr hop) lt = elim (Bool-cases (nh % 65536 == fib_default_hop)) [
      | inl none_found ↦ rw none_found lt
      | inr found ↦ rw found hop
    ]

    fib_port-lt :
        (p : Packets) (pkts : Table) (portid i : ℕ)
        → portid < n
        → fib_port next4 next6 p pkts (λ k. portid) i < n
    fib_port-lt p pkts portid i lt = elim (Bool-cases (p.is_ipv4 (pkts i))) [
      | inl four ↦ rw four (hop_or_port-lt _ portid (hops4 _) lt)
      | inr six ↦ rw six (hop_or_port-lt _ portid (hops6 _) lt)
    ]

    fib_hops-GoodPorts :
        (p : Packets) (pkts : Table) (nb_rx portid : ℕ)
        → portid < n
        → GoodPorts n nb_rx (
            fib_hops tables p pkts nb_rx
              (λ i. portid)
              scratch.search
              scratch.hopsv4
              scratch.hopsv6
              scratch.hops)
    fib_hops-GoodPorts p pkts nb_rx portid lt i less = inl (
        subst (λ v. v < n)
          (sym (
            fib_hops-lem tables next4 next6 each p pkts nb_rx (λ k. portid) scratch.search
              scratch.hopsv4 scratch.hopsv6 scratch.hops i less))
          (fib_port-lt p pkts portid i lt))

    pub fib_send-InOrder : (most : ℕ) → most ≤ max_pkt_burst → InOrder d Packets fib_send n most
    unfolding fib_send_packets
    fib_send-InOrder most small = record {
      keeps_room = λ nb_rx pkts portid p c pos le lt room.
          multi-room d tx_burst_size val_eth scratch.pnum pkts nb_rx n _ c pos
            (omega (arith, le, small)) few room (fib_hops-GoodPorts p pkts nb_rx portid lt);
      hands = λ nb_rx pkts portid p c q good pos le lt room.
          multi-Flows d tx_burst_size val_eth scratch.pnum pkts nb_rx n _ c pos
            (omega (arith, le, small)) few room (fib_hops-GoodPorts p pkts nb_rx portid lt) q good;
    }

    -- Packets reach a port in the order in which they came; no buffer overflows.
    fib_main_loop-Follows :
        (r : RxDevice Packets) (rx_burst_size : ℕ) (tx_port_id : List ℕ) (queues : List RxQueue)
        (drain_tsc : ℕ) (times : List ℕ) (s : PollLoop d Packets r fib_send rx_burst_size) (q : ℕ)
        → rx_burst_size ≤ max_pkt_burst
        → QueuesBelow n queues
        → HasRoom d s.core
        → q ≢ bad_port
        → Follows d Packets r fib_send rx_burst_size q s
            (fib_main_loop r rx_burst_size tx_port_id queues drain_tsc times s)
    unfolding fib_main_loop
    fib_main_loop-Follows r rx_burst_size tx_port_id queues drain_tsc times s q small below room
          good =
        poll_from_now-Follows d Packets r fib_send rx_burst_size n
          (fib_send-InOrder rx_burst_size small) q good tx_port_id queues drain_tsc times s below
          room

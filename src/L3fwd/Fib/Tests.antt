-- ===== src/L3fwd/Fib/Tests.antt =====
-- A burst of both families against small tables.
use mathlib.Core.List.{Memᴰ}
use dpdk_practice.Base.{
  ℕ, ◌+◌, ◌*◌, ◌%◌, false, List, [], ◌∷◌, ◌++◌, length, ltb, ◌==◌, if◌then◌else◌, ◌≡◌, ◌≢◌, refl,
  arith, inr,
}
use dpdk_practice.L3fwd.Rfc1812.{Frame, bad_port}
use dpdk_practice.L3fwd.Tx.{TxDevice, Core}
use dpdk_practice.L3fwd.Multi.Laws.{HasRoom}
use dpdk_practice.L3fwd.Lpm.MainLoop.{RxQueue}
use dpdk_practice.L3fwd.Polling.{RxDevice, PollLoop, poll_turns}
use dpdk_practice.L3fwd.Polling.Drain.{Offers, poll_turns-Offers}
use dpdk_practice.L3fwd.Fib.MainLoop.{FibScratch, fib_send, IsNextHop, fib_send-InOrder}
use dpdk_practice.L3fwd.Multi.{Packets}
use dpdk_practice.L3fwd.Fib.{FibSearch, FibTables, fib_hops}
use dpdk_practice.L3fwd.Fib.Laws.{LooksUpEach, fib_port, fib_hops-lem}

abbrev next4 : ℕ → ℕ
next4 ip = if ip % 4 == 0 then 999 else ip % 4

abbrev next6 : (ℕ → ℕ) → ℕ
next6 ip = ip 15 % 8

abbrev tables : FibTables
tables = record {
  lookup_bulk = λ ips hops n i. if ltb i n then next4 (ips i) else hops i;
  lookup_bulk6 = λ ips hops n i. if ltb i n then next6 (ips i) else hops i;
}

tables-law : LooksUpEach tables next4 next6
tables-law = record {
  each4 = λ ips hops n i lt. ground arith;
  each6 = λ ips hops n i lt. ground arith;
}

abbrev packets : Packets
packets = record {
  frame = λ pkt i. (7 * pkt + i) % 256;
  is_ipv4 = λ pkt. pkt % 3 == 0;
  is_ipv6 = λ pkt. false;
}

abbrev sevens : ℕ → ℕ
sevens i = 7

abbrev fresh : FibSearch
fresh = record {
  ipv4_arr = sevens;
  ipv4_cnt = 7;
  ipv6_arr = λ i. sevens;
  ipv6_cnt = 7;
  type_arr = λ i. false;
}

abbrev burst_table : ℕ → ℕ
burst_table i = i + 2

fib_hops-lem_example :
    fib_hops tables packets burst_table 9 sevens fresh sevens sevens sevens 5
    ≡ fib_port next4 next6 packets burst_table sevens 5
fib_hops-lem_example =
    fib_hops-lem tables next4 next6 tables-law packets burst_table 9 sevens fresh sevens sevens
      sevens 5 (omega arith)

-- A device that takes at most two packets of a burst, and one that has two bursts of up to five.
abbrev slow_tx : TxDevice
slow_tx = record {
  State = ℕ;
  tx_burst = λ s port queue pkts. (if ltb 2 (length pkts) then 2 else length pkts, s + 1);
  tx_burst-le = λ s port queue pkts. ground arith;
}

abbrev two_bursts : RxDevice Packets
two_bursts = record {
  State = ℕ;
  rx_burst = λ s portid queueid n p.
      (if ltb s 2 then (if ltb n 5 then n else 5) else 0, λ i. s * 5 + i, p, s + 1);
  rx_burst-le = λ s portid queueid n p. ground arith;
}

-- Packets 40 and 41 wait for port 3.
abbrev busy : Core slow_tx
busy = record {
  tx_queue_id = λ port. 0;
  tx_len = λ port. if port == 3 then 2 else 0;
  m_table = λ port i. 40 + i;
  dev = 0;
  wire = λ port. [];
  freed = [];
}

busy-HasRoom : HasRoom slow_tx busy
busy-HasRoom q = ground arith

abbrev scratch : FibScratch
scratch = record { pnum = sevens; search = fresh; hopsv4 = sevens; hopsv6 = sevens; hops = sevens }

abbrev val_eth : ℕ → Frame
val_eth port i = port + i

abbrev FibLoop : Type 0
FibLoop = PollLoop slow_tx Packets two_bursts (fib_send tables slow_tx 4 val_eth scratch) 32

abbrev start : FibLoop
start = record { core = busy; memory = packets; rx_state = 0; prev_tsc = 0; received = [] }

abbrev queues : List RxQueue
queues = record { port_id = 0; queue_id = 0 } ∷ record { port_id = 3; queue_id = 0 } ∷ []

hops4 : (ip : ℕ) → IsNextHop tables slow_tx 4 val_eth scratch 8 (next4 ip)
hops4 ip = ground arith

hops6 : (ip : ℕ → ℕ) → IsNextHop tables slow_tx 4 val_eth scratch 8 (next6 ip)
hops6 ip = inr (omega arith)

three_good : 3 ≢ bad_port
three_good h = omega arith

poll_turns-Offers_example :
    Offers slow_tx Packets two_bursts (fib_send tables slow_tx 4 val_eth scratch) 32 3 start (
      poll_turns slow_tx Packets two_bursts
        (fib_send tables slow_tx 4 val_eth scratch)
        32
        (0 ∷ 3 ∷ [])
        queues
        100
        ((10 ∷ 50 ∷ []) ++ (400 ∷ 410 ∷ []))
        start)
poll_turns-Offers_example =
    poll_turns-Offers slow_tx Packets two_bursts (fib_send tables slow_tx 4 val_eth scratch) 32 8
      (fib_send-InOrder tables slow_tx 4 val_eth scratch next4 next6 tables-law 8 (omega arith)
        hops4 hops6 32 (omega arith))
      (0 ∷ 3 ∷ []) queues 100 (omega arith, (omega arith, tt)) 3 three_good
      (Memᴰ.tail (Memᴰ.head refl)) (10 ∷ 50 ∷ []) (410 ∷ []) 400 start busy-HasRoom (omega arith)

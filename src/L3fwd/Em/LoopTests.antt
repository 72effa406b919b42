-- ===== src/L3fwd/Em/LoopTests.antt =====
-- Runs of em_main_loop (l3fwd/l3fwd_em.c).
use dpdk_practice.Base.{
  ℕ, ◌+◌, ◌*◌, ◌%◌, ◌^◌, false, List, [], ◌∷◌, length, Option, none, some, ltb, ◌==◌, if◌then◌else◌,
  ◌≢◌, arith,
}
use dpdk_practice.L3fwd.Rfc1812.{Frame, bad_port}
use dpdk_practice.L3fwd.Tx.{TxDevice, Core}
use dpdk_practice.L3fwd.Multi.Laws.{HasRoom}
use dpdk_practice.L3fwd.Lpm.MainLoop.{RxQueue}
use dpdk_practice.L3fwd.Polling.{RxDevice, PollLoop}
use dpdk_practice.L3fwd.Polling.Order.{Follows}
use dpdk_practice.L3fwd.Em.{Key, Hash, EmTables, EmPackets, em_parse_ptype}
use dpdk_practice.L3fwd.Em.MainLoop.{em_send, em_main_loop, em_main_loop-Follows}

-- A device that takes at most two packets of a burst, and one that has two bursts of up to five.
abbrev slow_tx : TxDevice
slow_tx = record {
  State = ℕ;
  tx_burst = λ s port queue pkts. (if ltb 2 (length pkts) then 2 else length pkts, s + 1);
  tx_burst-le = λ s port queue pkts. ground arith;
}

abbrev two_bursts : RxDevice EmPackets
two_bursts = record {
  State = ℕ;
  rx_burst = λ s portid queueid n p.
      (if ltb s 2 then (if ltb n 5 then n else 5) else 0, λ i. s * 5 + i, p, s + 1);
  rx_burst-le = λ s portid queueid n p. ground arith;
}

abbrev idle : Core slow_tx
idle = record {
  tx_queue_id = λ port. 0;
  tx_len = λ port. 0;
  m_table = λ port i. 0;
  dev = 0;
  wire = λ port. [];
  freed = [];
}

idle-HasRoom : HasRoom slow_tx idle
idle-HasRoom q = omega arith

abbrev val_eth : ℕ → Frame
val_eth port i = port + i

abbrev queues : List RxQueue
queues = record { port_id = 0; queue_id = 0 } ∷ record { port_id = 3; queue_id = 0 } ∷ []

three_good : 3 ≢ bad_port
three_good h = omega arith

-- A hash table that knows the keys that begin with an even word.
abbrev even_keys : Key → Option ℕ
even_keys [] = none
even_keys (w ∷ ws) = if w % 2 == 0 then some (w % 7) else none

abbrev hash : Hash
hash = record {
  State = Unit {0};
  add_key = λ s k. none;
  lookup = λ s k. even_keys k;
  lookup_bulk = λ s keys n i. even_keys (keys i);
}

abbrev out_if : ℕ → ℕ
out_if i = i + 1

abbrev tables : EmTables hash
tables = record {
  ipv4_lookup_struct = tt;
  ipv6_lookup_struct = tt;
  ipv4_l3fwd_out_if = out_if;
  ipv6_l3fwd_out_if = out_if;
}

-- UDP over IPv4.
abbrev frame : ℕ → Frame
frame pkt i =
    if i == 12
    then 8
    else if i == 13
    then 0
    else if i == 14
    then 69
    else if i == 23
    then 17
    else pkt

abbrev memory : EmPackets
memory = record {
  packets = record { frame = frame; is_ipv4 = λ pkt. false; is_ipv6 = λ pkt. false };
  packet_type = λ pkt. em_parse_ptype (frame pkt);
  port = λ pkt. 0;
}

abbrev sevens : ℕ → ℕ
sevens i = 7

abbrev start :
    PollLoop slow_tx EmPackets two_bursts
      (em_send hash (λ n. 2 ^ n) 255 32 tables slow_tx 4 val_eth sevens sevens)
      32
start = record { core = idle; memory = memory; rx_state = 0; prev_tsc = 0; received = [] }

em_main_loop-Follows_example :
    Follows slow_tx EmPackets two_bursts
      (em_send hash (λ n. 2 ^ n) 255 32 tables slow_tx 4 val_eth sevens sevens)
      32
      3
      start
      (em_main_loop hash
        (λ n. 2 ^ n)
        255
        32
        tables
        slow_tx
        4
        val_eth
        sevens
        sevens
        two_bursts
        32
        (0 ∷ 3 ∷ [])
        queues
        100
        (10 ∷ 50 ∷ 400 ∷ [])
        start)
em_main_loop-Follows_example =
    em_main_loop-Follows hash (λ n. 2 ^ n) 255 32 tables slow_tx 4 val_eth sevens sevens 32
      (omega arith) (omega arith) two_bursts 32 (0 ∷ 3 ∷ []) queues 100 (10 ∷ 50 ∷ 400 ∷ []) start 3
      (omega arith) (omega arith, (omega arith, tt)) idle-HasRoom three_good

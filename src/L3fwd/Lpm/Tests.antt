-- ===== src/L3fwd/Lpm/Tests.antt =====
-- Longest prefix match on small tables.
use dpdk_practice.Base.{
  ℕ, ◌+◌, ◌*◌, ◌%◌, ◌<◌, true, List, [], ◌∷◌, Option, none, some, length, ltb, ◌==◌, if◌then◌else◌,
  refl, arith,
}
use dpdk_practice.L3fwd.Rfc1812.{Frame}
use dpdk_practice.L3fwd.Tx.{TxDevice, Core}
use dpdk_practice.L3fwd.Multi.{Packets}
use dpdk_practice.L3fwd.Lpm.{Tables, Step1, hop_or}
use dpdk_practice.L3fwd.Lpm.Lookup.{LooksUpEach, HopsBelow4}
use dpdk_practice.L3fwd.Lpm.MainLoop.{RxDevice, RxQueue, Scratch, LpmLoop, no_stat, lpm_main_loop}
use dpdk_practice.L3fwd.Lpm.MainLoop.Balance.{HopsBelow, Balanced, lpm_main_loop-Balanced}

-- Even addresses go to port 2, the others are not found; IPv6 goes to port 1.
abbrev even_table : ℕ → Option ℕ
even_table ip = if ip % 2 == 0 then some 2 else none

abbrev tables : Tables
tables = record {
  lookup4 = even_table;
  lookup6 = λ ip. some 1;
  lookupx4 = λ ips portid i. hop_or (even_table (ips i)) portid;
}

tables-law : LooksUpEach tables
tables-law ips portid i lt = refl

hops4 : (n : ℕ) → 2 < n → HopsBelow4 n tables
hops4 n lt ip hop e = ground arith

hops_below : HopsBelow 4 tables
hops_below = (hops4 4 (omega arith), λ ip hop e. ground arith)

abbrev val_eth : ℕ → Frame
val_eth port i = port + i

abbrev packets : Packets
packets = record {
  frame = λ pkt i. (pkt + i) % 256;
  is_ipv4 = λ pkt. pkt % 3 == 0;
  is_ipv6 = λ pkt. true;
}

abbrev fresh : Step1
fresh = record { dip = λ i. 7; ipv4_flag = λ b. true }

abbrev burst_table : ℕ → ℕ
burst_table i = 3 * i

abbrev sevens : ℕ → ℕ
sevens i = 7

-- A device that takes at most two packets of a burst, and one that has two bursts of up to five.
abbrev slow_tx : TxDevice
slow_tx = record {
  State = ℕ;
  tx_burst = λ s port queue pkts. (if ltb 2 (length pkts) then 2 else length pkts, s + 1);
  tx_burst-le = λ s port queue pkts. ground arith;
}

abbrev two_bursts : RxDevice
two_bursts = record {
  State = ℕ;
  rx_burst = λ s portid queueid n p.
      (if ltb s 2 then (if ltb n 5 then n else 5) else 0, λ i. s * 5 + i, p, s + 1);
  rx_burst-le = λ s portid queueid n p. ground arith;
}

abbrev scratch : Scratch
scratch = record { pnum = sevens; step1 = fresh; dst_port = sevens }

abbrev idle : Core slow_tx
idle = record {
  tx_queue_id = λ port. 0;
  tx_len = λ port. 0;
  m_table = λ port i. 0;
  dev = 0;
  wire = λ port. [];
  freed = [];
}

abbrev start : LpmLoop slow_tx two_bursts tables val_eth scratch 32 4
start = record { core = idle; packets = packets; rx_state = 0; stats = no_stat; prev_tsc = 0 }

abbrev queues : List RxQueue
queues = record { port_id = 0; queue_id = 0 } ∷ record { port_id = 3; queue_id = 0 } ∷ []

lpm_main_loop-Balanced_example : Balanced slow_tx two_bursts tables val_eth scratch 32 4 4 (
    lpm_main_loop slow_tx two_bursts tables val_eth scratch 32 4
      (0 ∷ 2 ∷ 3 ∷ [])
      queues
      100
      (10 ∷ 50 ∷ 400 ∷ [])
      start)
lpm_main_loop-Balanced_example =
    lpm_main_loop-Balanced slow_tx two_bursts tables val_eth scratch 32 4 4 tables-law hops_below
      (omega arith) (omega arith) (0 ∷ 2 ∷ 3 ∷ []) queues 100 (10 ∷ 50 ∷ 400 ∷ []) start
      (omega arith, (omega arith, (omega arith, tt))) (omega arith, (omega arith, tt)) (λ q. refl)

-- ===== src/L3fwd/Acl/LoopTests.antt =====
-- Runs of acl_main_loop (l3fwd/l3fwd_acl.c).
use dpdk_practice.Base.{
  ℕ, ◌+◌, ◌*◌, ◌%◌, ◌≤◌, true, List, [], ◌∷◌, length, ltb, ◌==◌, if◌then◌else◌, ◌≢◌, arith, refl,
  inl, inr, Bool-cases,
}
use dpdk_practice.L3fwd.Rfc1812.{Frame, bad_port}
use dpdk_practice.L3fwd.Tx.{TxDevice, Core}
use dpdk_practice.L3fwd.Multi.Laws.{HasRoom}
use dpdk_practice.L3fwd.Multi.{Packets}
use dpdk_practice.L3fwd.Lpm.MainLoop.{RxQueue}
use dpdk_practice.L3fwd.Polling.{RxDevice, PollLoop}
use dpdk_practice.L3fwd.Polling.Order.{Follows}
use dpdk_practice.L3fwd.Acl.Process.{AclSearch, type_none, Classify}
use dpdk_practice.L3fwd.Acl.Process.Laws.{SearchesEach, is_forward, hop_of}
use dpdk_practice.L3fwd.Acl.MainLoop.{IsHop, acl_send, acl_main_loop, acl_main_loop-Follows}

-- A device that takes at most two packets of a burst, and one that has two bursts of up to five.
abbrev slow_tx : TxDevice
slow_tx = record {
  State = ℕ;
  tx_burst = λ s port queue pkts. (if ltb 2 (length pkts) then 2 else length pkts, s + 1);
  tx_burst-le = λ s port queue pkts. ground arith;
}

abbrev two_bursts : RxDevice Packets
two_bursts = record {
  State = ℕ;
  rx_burst = λ s portid queueid n p.
      (if ltb s 2 then (if ltb n 5 then n else 5) else 0, λ i. s * 5 + i, p, s + 1);
  rx_burst-le = λ s portid queueid n p. ground arith;
}

abbrev idle : Core slow_tx
idle = record {
  tx_queue_id = λ port. 0;
  tx_len = λ port. 0;
  m_table = λ port i. 0;
  dev = 0;
  wire = λ port. [];
  freed = [];
}

idle-HasRoom : HasRoom slow_tx idle
idle-HasRoom q = omega arith

abbrev val_eth : ℕ → Frame
val_eth port i = port + i

abbrev queues : List RxQueue
queues = record { port_id = 0; queue_id = 0 } ∷ record { port_id = 3; queue_id = 0 } ∷ []

three_good : 3 ≢ bad_port
three_good h = omega arith

-- Every fifth packet is denied.
abbrev verdict : Packets → ℕ → ℕ
verdict p pkt = pkt % 5

abbrev classify_each : Packets → Classify
classify_each p pkts num res i = if ltb i num then verdict p (pkts i) else res i

classify_each-law : (p : Packets) → SearchesEach (classify_each p) (verdict p)
classify_each-law p pkts num res i lt = ground arith

small-IsHop : (res : ℕ) → res ≤ 4 → IsHop 4 (hop_of res)
small-IsHop res le = elim (Bool-cases (is_forward res)) [
  | inl forward ↦ rw forward (inl (omega arith))
  | inr denied ↦ rw denied (inr refl)
]

verdict-IsHop : (p : Packets) (pkt : ℕ) → IsHop 4 (hop_of (verdict p pkt))
verdict-IsHop p pkt = small-IsHop (verdict p pkt) (omega arith)

abbrev no_search : AclSearch
no_search = record {
  num_ipv4 = 0;
  num_ipv6 = 0;
  types = λ i. type_none;
  data_ipv4 = λ i. 0;
  res_ipv4 = λ i. 0;
  data_ipv6 = λ i. 0;
  res_ipv6 = λ i. 0;
}

abbrev memory : Packets
memory = record { frame = λ pkt i. pkt + i; is_ipv4 = λ pkt. pkt % 3 == 0; is_ipv6 = λ pkt. true }

abbrev sevens : ℕ → ℕ
sevens i = 7

abbrev start :
    PollLoop slow_tx Packets two_bursts
      (acl_send classify_each classify_each slow_tx 4 val_eth val_eth val_eth sevens no_search
        sevens 512)
      512
start = record { core = idle; memory = memory; rx_state = 0; prev_tsc = 0; received = [] }

acl_main_loop-Follows_example :
    Follows slow_tx Packets two_bursts
      (acl_send classify_each classify_each slow_tx 4 val_eth val_eth val_eth sevens no_search
        sevens 512)
      512
      3
      start
      (acl_main_loop classify_each classify_each slow_tx 4 val_eth val_eth val_eth sevens no_search
        sevens two_bursts 512
        (0 ∷ 3 ∷ [])
        queues
        100
        (10 ∷ 50 ∷ 400 ∷ [])
        start)
acl_main_loop-Follows_example =
    acl_main_loop-Follows classify_each classify_each slow_tx 4 val_eth val_eth val_eth sevens
      no_search sevens verdict verdict classify_each-law classify_each-law 4 (omega arith)
      verdict-IsHop verdict-IsHop two_bursts (0 ∷ 3 ∷ []) queues 100 (10 ∷ 50 ∷ 400 ∷ []) start 3
      (omega arith, (omega arith, tt)) idle-HasRoom three_good

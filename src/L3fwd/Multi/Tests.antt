-- ===== src/L3fwd/Multi/Tests.antt =====
-- The grouping and the sending of a burst of eleven packets.
use dpdk_practice.Base.{
  ℕ, ◌+◌, [], ◌∷◌, length, get_or, ltb, if◌then◌else◌, true, false, ◌≢◌, arith,
}
use dpdk_practice.L3fwd.Rfc1812.{Frame, bad_port, process_packet, step3_lane, rfc1812_process}
use dpdk_practice.L3fwd.Group.{group_ports}
use dpdk_practice.L3fwd.Group.Laws.{Grouped, group_ports-Grouped}
use dpdk_practice.L3fwd.Tx.{TxDevice, Core}
use dpdk_practice.L3fwd.Multi.{Packets, finish_one, finish, finish_packets, send_packets_multi}
use dpdk_practice.L3fwd.Multi.Laws.{HasRoom}
use dpdk_practice.L3fwd.Tx.Flows.{Flows}
use dpdk_practice.L3fwd.Multi.Flow.{to_port, send_packets_multi-Flows}

-- A device that takes at most two packets of a burst.
abbrev two_at_once : TxDevice
two_at_once = record {
  State = ℕ;
  tx_burst = λ s port queue pkts. (if ltb 2 (length pkts) then 2 else length pkts, s + 1);
  tx_burst-le = λ s port queue pkts. ground arith;
}

abbrev quiet : Core two_at_once
quiet = record {
  tx_queue_id = λ port. 0;
  tx_len = λ port. 0;
  m_table = λ port i. 0;
  dev = 0;
  wire = λ port. [];
  freed = [];
}

abbrev hops : ℕ → ℕ
hops i = get_or (1 ∷ 1 ∷ 2 ∷ 2 ∷ 2 ∷ 2 ∷ 2 ∷ 3 ∷ 4 ∷ 4 ∷ 5 ∷ []) i 0

abbrev junk : ℕ → ℕ
junk i = 7

abbrev burst_table : ℕ → ℕ
burst_table i = 500 + i

abbrev val_eth : ℕ → Frame
val_eth port i = port + i

abbrev packets : Packets
packets = record { frame = λ pkt i. i; is_ipv4 = λ pkt. false; is_ipv6 = λ pkt. true }

one_ne : hops 0 ≢ 65534
one_ne h = omega arith

quiet-HasRoom : HasRoom two_at_once quiet
quiet-HasRoom q = omega arith

group_ports-Grouped_example : Grouped hops (group_ports hops junk 512 11) 0 11
group_ports-Grouped_example =
    group_ports-Grouped hops junk 512 11 (omega arith) (omega arith) one_ne

first_port : (finish_packets val_eth burst_table 11 (packets, hops)).1 0 ≢ 65534
unfolding finish_packets finish finish_one process_packet step3_lane rfc1812_process
first_port = one_ne

two_good : hops 2 ≢ bad_port
two_good h = omega arith

send_packets_multi-Flows_example :
    let (stats, c', p, dst_port) =
      send_packets_multi two_at_once 4 val_eth junk burst_table 11 (packets, hops) quiet in
    Flows two_at_once quiet c' 2 (to_port burst_table dst_port 2 0 11)
send_packets_multi-Flows_example =
    send_packets_multi-Flows two_at_once 4 val_eth junk burst_table 11 (packets, hops) quiet 2
      two_good (omega arith) (omega arith) quiet-HasRoom first_port

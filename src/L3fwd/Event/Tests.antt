-- ===== src/L3fwd/Event/Tests.antt =====
-- A worker that gets two bursts, on a device that takes two events at a time.
use dpdk_practice.Base.{
  ℕ, ◌+◌, ◌%◌, [], ◌∷◌, ◌++◌, length, none, some, ltb, true, false, replicate, ◌==◌, if◌then◌else◌,
  ◌≡◌, refl, arith,
}
use dpdk_practice.L3fwd.Rfc1812.{bad_port}
use dpdk_practice.L3fwd.Tx.Copy.{slice}
use dpdk_practice.L3fwd.Event.Vector.{EventVector, process_event_vector}
use dpdk_practice.L3fwd.Event.Vector.Laws.{bad_of, good_of, process_event_vector-lem}
use dpdk_practice.L3fwd.Lpm.{Tables}
use dpdk_practice.L3fwd.Lpm.EventLoop.{lpm_process_events}
use dpdk_practice.L3fwd.Event.{
  RteEvent, op_new, tx_direct, EventDevice, EventMemory, polling, finished, Worker, event_loop,
}
use dpdk_practice.L3fwd.Event.Laws.{event_loop-stops}

abbrev new_event : ℕ → RteEvent
new_event mbuf = record { mbuf = mbuf; queue_id = 0; op = op_new }

abbrev two_bursts : EventDevice
two_bursts = record {
  State = ℕ;
  dequeue_burst = λ s n.
      (if ltb s 4 then new_event s ∷ new_event (s + 10) ∷ new_event (s + 20) ∷ [] else [], s + 1);
  enqueue_burst = λ flag s events. (if ltb 2 (length events) then 2 else length events, s + 1);
  enqueue_burst-le = λ flag s events. ground arith;
}

abbrev tables : Tables
tables = record {
  lookup4 = λ ip. if ip % 2 == 0 then some (ip % 4) else none;
  lookup6 = λ ip. some 1;
  lookupx4 = λ ips portid i. portid;
}

abbrev worker :
    Worker two_bursts EventMemory
      (lpm_process_events tables (λ port i. port + i) tx_direct)
      tx_direct
      7
      32
worker = record {
  device = 0;
  memory = record {
    packets = record {
      frame = λ pkt i. (pkt + i) % 256;
      is_ipv4 = λ pkt. pkt % 3 == 0;
      is_ipv6 = λ pkt. pkt % 3 == 1;
    };
    port = λ pkt. 5;
    txq = λ pkt. 9;
  };
  events = [];
  nb_deq = 0;
  nb_enq = 0;
  phase = polling;
  dequeued = [];
  taken = [];
  freed = [];
}

event_loop-stops_example :
    let w' =
      event_loop two_bursts EventMemory
        (lpm_process_events tables (λ port i. port + i) tx_direct)
        tx_direct
        7
        32
        1
        3
        worker in
    (w'.phase ≡ finished) × (w'.taken ++ w'.freed ≡ w'.dequeued)
event_loop-stops_example =
    event_loop-stops two_bursts EventMemory
      (lpm_process_events tables (λ port i. port + i) tx_direct) tx_direct 7 32 1 3 worker
      (omega arith) refl refl refl refl

-- Of six packets the second and the fourth are bad, and the others go to port 3.
abbrev vector : EventVector
vector = record { mbufs = λ i. 100 + i; nb_elem = 6; attr_valid = false; port = 9; queue = 9 }

abbrev ports : ℕ → ℕ
ports i = if i == 1 then bad_port else if i == 3 then bad_port else 3

process_event_vector-lem_example :
    let (vec', freed, m') = process_event_vector 7 vector ports worker.memory in
    (slice vec'.mbufs 0 vec'.nb_elem ≡ good_of ports vector.mbufs 6)
    × (freed ≡ bad_of ports vector.mbufs 6)
    × (vec'.attr_valid ≡ true → good_of ports ports 6 ≡ replicate vec'.nb_elem vec'.port)
process_event_vector-lem_example = process_event_vector-lem 7 vector ports worker.memory

good_packets : good_of ports vector.mbufs 6 ≡ 100 ∷ 102 ∷ 104 ∷ 105 ∷ []
good_packets = refl

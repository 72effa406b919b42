-- ===== src/L3fwd/Lpm/EventLoop/Tests.antt =====
-- lpm_event_loop_single on a device that gives three packets one by one, the first of them bad.
use dpdk_practice.Base.{
  ℕ, ◌+◌, ◌==◌, [], ◌∷◌, length, not, some, ltb, if◌then◌else◌, ◌≡◌, refl, arith,
}
use dpdk_practice.L3fwd.Rfc1812.{is_bad_header, rfc1812_process, process_packet}
use dpdk_practice.L3fwd.Event.{
  op_new, tx_direct, EventDevice, polling, finished, l3fwd_event_worker_cleanup,
}
use dpdk_practice.L3fwd.Lpm.{Tables}
use dpdk_practice.L3fwd.Lpm.EventLoop.{
  lpm_process_event_pkt, SingleWorker, process_single, dequeue_single, single_step_in, single_steps,
  lpm_event_loop_single,
}
use dpdk_practice.L3fwd.Lpm.EventLoop.Laws.{copies, freed_twice, lpm_event_loop_single-frees}

abbrev one_by_one : EventDevice
one_by_one = record {
  State = ℕ;
  dequeue_burst =
      λ s n. (if ltb s 3 then record { mbuf = s; queue_id = 0; op = op_new } ∷ [] else [], s + 1);
  enqueue_burst = λ flag s events. (length events, s);
  enqueue_burst-le = λ flag s events. omega arith;
}

abbrev tables : Tables
tables = record {
  lookup4 = λ ip. some 1;
  lookup6 = λ ip. some 1;
  lookupx4 = λ ips portid i. portid;
}

-- Packet 0 is taken for IPv4 with a header of zeros, the others are IPv6.
abbrev worker : SingleWorker tables (λ port i. port + i) one_by_one tx_direct 7
worker = record {
  device = 0;
  memory = record {
    packets = record {
      frame = λ pkt i. 0;
      is_ipv4 = λ pkt. pkt == 0;
      is_ipv6 = λ pkt. not (pkt == 0);
    };
    port = λ pkt. 5;
    txq = λ pkt. 9;
  };
  events = [];
  nb_deq = 0;
  nb_enq = 0;
  phase = polling;
  dequeued = [];
  taken = [];
  freed = [];
}

lpm_event_loop_single-frees_example :
    let w' = lpm_event_loop_single tables (λ port i. port + i) one_by_one tx_direct 7 1 2 worker in
    (w'.phase ≡ finished)
    × ((mbuf : ℕ)
        → copies mbuf w'.taken + copies mbuf w'.freed
          ≡ copies mbuf w'.dequeued
            + copies mbuf (freed_twice tables (λ port i. port + i) one_by_one tx_direct 7 w'))
lpm_event_loop_single-frees_example =
    lpm_event_loop_single-frees tables (λ port i. port + i) one_by_one tx_direct 7 1 2 worker
      (omega arith) refl refl refl refl refl refl

-- If the signal comes behind the first packet, it is freed twice.
double_free :
    (lpm_event_loop_single tables (λ port i. port + i) one_by_one tx_direct 7 1 2 worker).freed
    ≡ 0 ∷ 0 ∷ []
unfolding lpm_event_loop_single single_steps single_step_in dequeue_single process_single
    lpm_process_event_pkt process_packet rfc1812_process is_bad_header l3fwd_event_worker_cleanup
double_free = refl

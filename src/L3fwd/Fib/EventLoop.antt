-- ===== src/L3fwd/Fib/EventLoop.antt =====
-- l3fwd/l3fwd_fib.c: fib_event_loop.
use dpdk_practice.Base.{
  ℕ, zero, suc, ◌+◌, not, List, [], ◌∷◌, length, get_or, ◌==◌, if◌then◌else◌, update,
}
use dpdk_practice.L3fwd.Rfc1812.{Frame, bad_port, process_packet}
use dpdk_practice.L3fwd.Tx.Copy.{Table}
use dpdk_practice.L3fwd.Event.{
  RteEvent, event_mbufs, TxFlag, EventDevice, EventMemory, txq_set, Worker, event_loop,
}
use dpdk_practice.L3fwd.Fib.{FibSearch, FibTables, Assembled, fib_parse_burst, assemble_one}
use dpdk_practice.L3fwd.Fib.MainLoop.{FibScratch}

-- The loop before the lookup, for the events that go to the transmitter directly.
pub txq_sets : TxFlag → List RteEvent → EventMemory → EventMemory
txq_sets flag [] m = m
txq_sets flag (ev ∷ events) m = txq_sets flag events (txq_set flag ev.mbuf m)

module _ (val_eth : ℕ → Frame) (pkts : Table) (s : FibSearch) (hopsv4 hopsv6 : Table) where
  -- The event with index `i`: its hop, the checks, and its port, which stays where the checks fail.
  pub fib_finish_event : ℕ → Assembled × EventMemory → Assembled × EventMemory
  fib_finish_event i (a, m) =
      let p = m.packets in
      let mbuf = pkts i in
      let found = assemble_one s hopsv4 hopsv6 (λ k. m.port (pkts k)) i a in
      let (f, hop) = process_packet val_eth (p.is_ipv4 mbuf) (p.frame mbuf) (found.hops i) in
      (
        record found { hops = update found.hops i hop },
        record m {
          packets = record p { frame = update p.frame mbuf f };
          port = update m.port mbuf (if not (hop == bad_port) then hop else m.port mbuf);
        },
      )

  -- `rounds` events from index `i` on.
  pub fib_finish_events : ℕ → ℕ → Assembled × EventMemory → Assembled × EventMemory
  fib_finish_events zero i r = r
  fib_finish_events (suc rounds) i r = fib_finish_events rounds (i + 1) (fib_finish_event i r)

module _ (tables : FibTables) (val_eth : ℕ → Frame) (scratch : FibScratch) where
  pub fib_process_events : TxFlag → List RteEvent → EventMemory → EventMemory
  fib_process_events flag events m =
      let m1 = txq_sets flag events m in
      let pkts : Table = λ i. get_or (event_mbufs events) i 0 in
      let s = fib_parse_burst m1.packets pkts (length events) scratch.search in
      let hopsv4 =
        if s.ipv4_cnt == 0
        then scratch.hopsv4
        else tables.lookup_bulk s.ipv4_arr scratch.hopsv4 s.ipv4_cnt in
      let hopsv6 =
        if s.ipv6_cnt == 0
        then scratch.hopsv6
        else tables.lookup_bulk6 s.ipv6_arr scratch.hopsv6 s.ipv6_cnt in
      (fib_finish_events val_eth pkts s hopsv4 hopsv6 (length events) 0
        (record { ipv4_arr_assem = 0; ipv6_arr_assem = 0; hops = scratch.hops }, m1)).1

  pub fib_event_loop :
      (d : EventDevice) (flag : TxFlag) (tx_q_id deq_len : ℕ)
      → ℕ
      → ℕ
      → Worker d EventMemory (fib_process_events flag) flag tx_q_id deq_len
      → Worker d EventMemory (fib_process_events flag) flag tx_q_id deq_len
  fib_event_loop d flag tx_q_id deq_len =
      event_loop d EventMemory (fib_process_events flag) flag tx_q_id deq_len

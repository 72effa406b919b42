-- ===== src/L3fwd/Event/Vectors.antt =====
-- l3fwd/l3fwd_lpm.c (lpm_event_loop_vector) and l3fwd/l3fwd_fib.c (fib_event_loop_vector): the worker
-- on events that hold a vector of packets each. The number in an event is that of its vector; at
-- the end of a worker the vectors that are left are freed as a whole.
use dpdk_practice.Base.{ℕ, zero, suc, ◌+◌, true, List, [], ◌∷◌, ◌++◌, ◌==◌, if◌then◌else◌, update}
use dpdk_practice.L3fwd.Rfc1812.{Frame}
use dpdk_practice.L3fwd.Tx.Copy.{Table}
use dpdk_practice.L3fwd.Multi.{Packets}
use dpdk_practice.L3fwd.Event.{RteEvent, TxFlag, EventDevice, EventMemory, Worker, event_loop}
use dpdk_practice.L3fwd.Event.Vector.{EventVector, filter_bad_packets, process_event_vector}
use dpdk_practice.L3fwd.Lpm.{Tables, Step1, l3fwd_lpm_process_packets}
use dpdk_practice.L3fwd.Fib.{FibTables, fib_process_event_vector}
use dpdk_practice.L3fwd.Fib.MainLoop.{FibScratch}

-- The packets, the vectors, what the array of destinations holds, and the packets freed.
pub record VectorMemory : Type 0 where
  pub memory : EventMemory
  pub vectors : ℕ → EventVector
  pub dst_port : Table
  pub freed : List ℕ

-- The end of both functions, process_event_vector; `junk` is what its `pos` holds at first.
pub end_vector : ℕ → ℕ → Packets × Table → VectorMemory → VectorMemory
end_vector junk id (p, dst_port) m =
    let old = m.vectors id in
    let (vec, freed, memory) =
      process_event_vector junk old dst_port (record m.memory { packets = p }) in
    record {
      memory = memory;
      vectors = λ k. if k == id then vec else m.vectors k;
      dst_port = (filter_bad_packets junk old.mbufs dst_port old.nb_elem).1.dst_port;
      freed = m.freed ++ freed;
    }

-- The events of a burst, each by `one`.
pub each_vector : (ℕ → VectorMemory → VectorMemory) → List RteEvent → VectorMemory → VectorMemory
each_vector one [] m = m
each_vector one (ev ∷ events) m = each_vector one events (one ev.mbuf m)

module _ (tables : Tables) (val_eth : ℕ → Frame) (step1 : Step1) (junk : ℕ) where
  -- Where the attributes are not valid: `rounds` packets from index `i` on, each with its own port.
  pub lpm_process_each : EventMemory → Table → ℕ → ℕ → Packets × Table → Packets × Table
  lpm_process_each m mbufs zero i s = s
  lpm_process_each m mbufs (suc rounds) i (p, dst_port) =
      let (p1, found) =
        l3fwd_lpm_process_packets tables val_eth 1 (λ k. mbufs (i + k)) (m.port (mbufs i)) step1
          true (p, λ k. dst_port (i + k)) in
      lpm_process_each m mbufs rounds (i + 1) (p1, update dst_port i (found 0))

  pub lpm_process_event_vector : ℕ → VectorMemory → VectorMemory
  lpm_process_event_vector id m =
      let vec = m.vectors id in
      let start : Packets × Table = (m.memory.packets, m.dst_port) in
      let found =
        if vec.attr_valid
        then l3fwd_lpm_process_packets tables val_eth vec.nb_elem vec.mbufs vec.port step1 true
            start
        else lpm_process_each m.memory vec.mbufs vec.nb_elem 0 start in
      end_vector junk id found m

  pub lpm_event_loop_vector :
      (d : EventDevice) (flag : TxFlag) (tx_q_id deq_len : ℕ)
      → ℕ
      → ℕ
      → Worker d VectorMemory (each_vector lpm_process_event_vector) flag tx_q_id deq_len
      → Worker d VectorMemory (each_vector lpm_process_event_vector) flag tx_q_id deq_len
  lpm_event_loop_vector d flag tx_q_id deq_len =
      event_loop d VectorMemory (each_vector lpm_process_event_vector) flag tx_q_id deq_len

module _ (tables : FibTables) (val_eth : ℕ → Frame) (scratch : FibScratch) (junk : ℕ) where
  pub fib_process_vector : ℕ → VectorMemory → VectorMemory
  fib_process_vector id m =
      let vec = m.vectors id in
      end_vector junk id
        (fib_process_event_vector tables val_eth vec.attr_valid vec.port m.memory.port
          scratch.search scratch.hopsv4 scratch.hopsv6 m.dst_port vec.nb_elem vec.mbufs
          m.memory.packets)
        m

  pub fib_event_loop_vector :
      (d : EventDevice) (flag : TxFlag) (tx_q_id deq_len : ℕ)
      → ℕ
      → ℕ
      → Worker d VectorMemory (each_vector fib_process_vector) flag tx_q_id deq_len
      → Worker d VectorMemory (each_vector fib_process_vector) flag tx_q_id deq_len
  fib_event_loop_vector d flag tx_q_id deq_len =
      event_loop d VectorMemory (each_vector fib_process_vector) flag tx_q_id deq_len

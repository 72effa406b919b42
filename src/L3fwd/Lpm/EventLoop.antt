-- ===== src/L3fwd/Lpm/EventLoop.antt =====
-- l3fwd/l3fwd_lpm.c: lpm_event_loop_burst and lpm_event_loop_single.
pub mod Laws
mod Tests
use dpdk_practice.Base.{
  ℕ, zero, suc, ◌+◌, Bool, true, false, List, [], ◌∷◌, ◌++◌, take, ◌==◌, if◌then◌else◌, update,
}
use dpdk_practice.L3fwd.Rfc1812.{Frame, bad_port, process_packet}
use dpdk_practice.L3fwd.Event.{
  RteEvent, event_mbufs, TxFlag, EventDevice, set_tx, EventMemory, txq_set, Phase, polling,
  enqueueing, finished, Worker, l3fwd_event_worker_cleanup, event_loop,
}
use dpdk_practice.L3fwd.Lpm.{Tables, lpm_get_dst_port}

module _ (tables : Tables) (val_eth : ℕ → Frame) where
  -- The port that is returned is the one that is stored.
  pub lpm_process_event_pkt : ℕ → EventMemory → ℕ × EventMemory
  lpm_process_event_pkt mbuf m =
      let p = m.packets in
      let found = lpm_get_dst_port tables p mbuf (m.port mbuf) in
      let (f, port) = process_packet val_eth (p.is_ipv4 mbuf) (p.frame mbuf) found in
      (
        port,
        record m {
          packets = record p { frame = update p.frame mbuf f };
          port = update m.port mbuf port;
        },
      )

  -- The ports that are returned are not looked at.
  pub lpm_process_events : TxFlag → List RteEvent → EventMemory → EventMemory
  lpm_process_events flag [] m = m
  lpm_process_events flag (ev ∷ events) m =
      lpm_process_events flag events (lpm_process_event_pkt ev.mbuf (txq_set flag ev.mbuf m)).1

  pub lpm_event_loop_burst :
      (d : EventDevice) (flag : TxFlag) (tx_q_id deq_len : ℕ)
      → ℕ
      → ℕ
      → Worker d EventMemory (lpm_process_events flag) flag tx_q_id deq_len
      → Worker d EventMemory (lpm_process_events flag) flag tx_q_id deq_len
  lpm_event_loop_burst d flag tx_q_id deq_len =
      event_loop d EventMemory (lpm_process_events flag) flag tx_q_id deq_len

  -- The device gives no more than the one event that it is asked for. `enq` keeps its value from one
  -- event to the next.
  module _ (d : EventDevice) (flag : TxFlag) (tx_q_id : ℕ) where
    abbrev pub SingleWorker : Type 0
    SingleWorker = Worker d EventMemory (lpm_process_events flag) flag tx_q_id 1

    pub enqueue_single : SingleWorker → SingleWorker
    enqueue_single w =
        let (enq, device) = d.enqueue_burst flag w.device w.events in
        record w {
          device = device;
          nb_enq = enq;
          taken = w.taken ++ event_mbufs (take enq w.events);
          phase = enqueueing;
        }

    pub process_single : List RteEvent → d.State → SingleWorker → SingleWorker
    process_single [] device w = record w { device = device; nb_deq = 0 }
    process_single (ev ∷ _) device w =
        let (port, m) = lpm_process_event_pkt ev.mbuf w.memory in
        let dequeued = w.dequeued ++ (ev.mbuf ∷ []) in
        if port == bad_port
        then record w {
          device = device;
          memory = m;
          events = ev ∷ [];
          nb_deq = 1;
          dequeued = dequeued;
          freed = w.freed ++ (ev.mbuf ∷ []);
        }
        else enqueue_single (record w {
          device = device;
          memory = txq_set flag ev.mbuf m;
          events = set_tx flag tx_q_id ev ∷ [];
          nb_deq = 1;
          dequeued = dequeued;
        })

    pub dequeue_single : SingleWorker → SingleWorker
    dequeue_single w =
        let (events, device) = d.dequeue_burst w.device 1 in process_single events device w

    -- `while (!enq && !force_quit)` reads `force_quit` only where `enq` is 0.
    pub single_step_in : Phase → Bool → SingleWorker → SingleWorker
    single_step_in polling true w =
        l3fwd_event_worker_cleanup d EventMemory (lpm_process_events flag) flag tx_q_id 1 w
    single_step_in polling false w = dequeue_single w
    single_step_in enqueueing true w = record w { phase = polling }
    single_step_in enqueueing false w =
        if w.nb_enq == 0 then enqueue_single w else record w { phase = polling }
    single_step_in finished quit w = w

    pub single_steps : Bool → ℕ → SingleWorker → SingleWorker
    single_steps quit zero w = w
    single_steps quit (suc n) w = single_steps quit n (single_step_in w.phase quit w)

    pub lpm_event_loop_single : ℕ → ℕ → SingleWorker → SingleWorker
    lpm_event_loop_single before behind w = single_steps true behind (single_steps false before w)

-- ===== src/L3fwd/Event.antt =====
-- l3fwd/l3fwd_lpm.c (lpm_event_loop_burst), l3fwd/l3fwd_fib.c (fib_event_loop) and l3fwd/l3fwd_event.c
-- (l3fwd_event_worker_cleanup): a worker of the event mode. A worker takes
-- bursts of events, hands each burst on, trying again until all are taken, and cleans up when a
-- signal comes. Each step reads `force_quit` at most once.
pub mod Laws
pub mod Vector
pub mod Vectors
mod Tests
use dpdk_practice.Base.{
  ℕ, zero, suc, ◌+◌, ◌≤◌, Bool, true, false, List, ◌++◌, length, map, take, drop, ltb, ◌==◌,
  if◌then◌else◌, update,
}
use dpdk_practice.L3fwd.Tx.Copy.{Table}
use dpdk_practice.L3fwd.Multi.{Packets}

-- RTE_EVENT_OP_NEW, RTE_EVENT_OP_FORWARD, RTE_EVENT_OP_RELEASE
pub data EventOp : Type 0 where
  op_new op_forward op_release : EventOp

-- `struct rte_event`
pub record RteEvent : Type 0 where
  pub mbuf : ℕ
  pub queue_id : ℕ
  pub op : EventOp

-- L3FWD_EVENT_TX_ENQ and L3FWD_EVENT_TX_DIRECT
pub data TxFlag : Type 0 where
  tx_enq tx_direct : TxFlag

-- The event device: rte_event_dequeue_burst, and rte_event_enqueue_burst or
-- rte_event_eth_tx_adapter_enqueue by the flag, which take so many of the events, from the front.
pub record EventDevice : Type 1 where
  pub State : Type 0
  pub dequeue_burst : State → ℕ → List RteEvent × State
  pub enqueue_burst : TxFlag → State → List RteEvent → ℕ × State
  pub enqueue_burst-le :
      (flag : TxFlag) (s : State) (events : List RteEvent)
      → (enqueue_burst flag s events).0 ≤ length events

abbrev pub event_mbufs : List RteEvent → List ℕ
event_mbufs events = map (λ e. e.mbuf) events

-- Before the lookup: an event that is to be enqueued goes to the queue of the transmitter.
pub set_tx : TxFlag → ℕ → RteEvent → RteEvent
set_tx tx_enq tx_q_id ev = record ev { queue_id = tx_q_id; op = op_forward }
set_tx tx_direct tx_q_id ev = ev

-- The packets, the `port` of each, and the queue that rte_event_eth_tx_adapter_txq_set stores in it.
pub record EventMemory : Type 0 where
  pub packets : Packets
  pub port : Table
  pub txq : Table

pub txq_set : TxFlag → ℕ → EventMemory → EventMemory
txq_set tx_enq mbuf m = m
txq_set tx_direct mbuf m = record m { txq = update m.txq mbuf 0 }

abbrev pub set_release : RteEvent → RteEvent
set_release ev = record ev { op = op_release }

-- At the head of `while (!force_quit)`, at the head of the loop that enqueues, or at the end.
pub data Phase : Type 0 where
  polling enqueueing finished : Phase

module _ (d : EventDevice) (M : Type 0) (process : List RteEvent → M → M) (flag : TxFlag)
    (tx_q_id deq_len : ℕ) where
  -- The local variables, the memory of the packets, and what has become of the packets: those that
  -- the worker was given, those that it handed on, and those that it freed.
  pub record Worker : Type 0 where
    pub device : d.State
    pub memory : M
    pub events : List RteEvent
    pub nb_deq : ℕ
    pub nb_enq : ℕ
    pub phase : Phase
    pub dequeued : List ℕ
    pub taken : List ℕ
    pub freed : List ℕ

  -- One call with `events + nb_enq` and `nb_deq - nb_enq`.
  pub enqueue_more : Worker → Worker
  enqueue_more w =
      let rest = drop w.nb_enq w.events in
      let (n, device) = d.enqueue_burst flag w.device rest in
      record w {
        device = device;
        nb_enq = w.nb_enq + n;
        taken = w.taken ++ event_mbufs (take n rest);
        phase = enqueueing;
      }

  -- l3fwd_event_worker_cleanup
  unfoldable pub l3fwd_event_worker_cleanup : Worker → Worker
  l3fwd_event_worker_cleanup w =
      let (n, device) = d.enqueue_burst tx_enq w.device (map set_release w.events) in
      if w.nb_deq == 0 then record w { phase = finished } else record w {
        device = device;
        freed = w.freed ++ event_mbufs (drop w.nb_enq w.events);
        phase = finished;
      }

  -- A burst that is not empty: its events are processed and enqueued once.
  pub start_burst : List RteEvent → d.State → Worker → Worker
  start_burst events device w =
      let prepared = map (set_tx flag tx_q_id) events in
      enqueue_more (record w {
        device = device;
        memory = process prepared w.memory;
        events = prepared;
        nb_deq = length events;
        nb_enq = 0;
        dequeued = w.dequeued ++ event_mbufs events;
      })

  pub dequeue : Worker → Worker
  dequeue w =
      let (events, device) = d.dequeue_burst w.device deq_len in
      if length events == 0
      then record w { device = device; nb_deq = 0 }
      else start_burst events device w

  -- One step, with the value of `force_quit` that it reads.
  pub step_in : Phase → Bool → Worker → Worker
  step_in polling true w = l3fwd_event_worker_cleanup w
  step_in polling false w = dequeue w
  step_in enqueueing true w = record w { phase = polling }
  step_in enqueueing false w =
      if ltb w.nb_enq w.nb_deq then enqueue_more w else record w { phase = polling }
  step_in finished quit w = w

  pub step : Bool → Worker → Worker
  step quit w = step_in w.phase quit w

  pub steps : Bool → ℕ → Worker → Worker
  steps quit zero w = w
  steps quit (suc n) w = steps quit n (step quit w)

  -- The signal comes behind `before` steps, and `force_quit` stays set.
  pub event_loop : ℕ → ℕ → Worker → Worker
  event_loop before behind w = steps true behind (steps false before w)

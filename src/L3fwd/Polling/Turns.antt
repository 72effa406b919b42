-- ===== src/L3fwd/Polling/Turns.antt =====
-- l3fwd/l3fwd_em.c, l3fwd/l3fwd_fib.c, l3fwd/l3fwd_acl.c: the polling loop keeps the order.
use dpdk_practice.Base.{
  ℕ, ◌≤◌, ◌<◌, false, List, [], ◌∷◌, ◌==◌, ◌≡◌, ◌≢◌, refl, sym, arith, inl, inr, Bool-cases, subst,
  ==_iff, append-nil,
}
use dpdk_practice.L3fwd.Rfc1812.{bad_port}
use dpdk_practice.L3fwd.Tx.Copy.{Table}
use dpdk_practice.L3fwd.Tx.{TxDevice}
use dpdk_practice.L3fwd.Multi.Laws.{HasRoom}
use dpdk_practice.L3fwd.Lpm.MainLoop.{RxQueue}
use dpdk_practice.L3fwd.Lpm.MainLoop.Balance.{QueuesBelow}
use dpdk_practice.L3fwd.Polling.{
  RxDevice, Send, routed, PollLoop, receive_queue, receive_queues, poll_turn, poll_turns,
  poll_from_now, poll_from_zero,
}
use dpdk_practice.L3fwd.Polling.Order.{
  bound_for-routed, InOrder, Arrivals, no_more, burst_in, Follows, Follows-refl, Follows-trans,
}
use dpdk_practice.L3fwd.Tx.Flows.{Flows-refl, Flows-eq}
use dpdk_practice.L3fwd.Polling.Emptied.{drain-Follows}

module _ (d : TxDevice) (M : Type 0) (r : RxDevice M) (send : Send d M) (rx_burst_size : ℕ) where
  abbrev State : Type 0
  State = PollLoop d M r send rx_burst_size

  module _ (n : ℕ) (law : InOrder d M send n rx_burst_size) (q : ℕ) (good : q ≢ bad_port) where
    receive_queue-Follows :
        (queue : RxQueue) (s : State)
        → queue.port_id < n
        → HasRoom d s.core
        → Follows d M r send rx_burst_size q s (receive_queue d M r send rx_burst_size queue s)
    unfolding receive_queue
    receive_queue-Follows queue s lt room = elim (Bool-cases (got.0 == 0)) [
      | inl nothing ↦
          rw (receive_queue, nothing)
            (record {
              fresh = [];
              arrivals =
                  subst
                    (λ n.
                      Arrivals d M r send rx_burst_size s.rx_state got.3 (routed got.1 hops 0 n))
                    ((==_iff _ 0).0 nothing) one_burst;
              come = sym (append-nil s.received);
              flows = Flows-refl d;
              room = room;
            })
      | inr some_packet ↦
          rw (receive_queue, some_packet)
            (record {
              fresh = routed got.1 hops 0 got.0;
              arrivals = one_burst;
              come = refl;
              flows = Flows-eq d (sym (bound_for-routed got.1 hops q 0 got.0)) (
                  law.hands got.0 got.1 queue.port_id got.2 s.core q good (positive some_packet)
                    most lt room);
              room =
                  law.keeps_room got.0 got.1 queue.port_id got.2 s.core (positive some_packet) most
                    lt room;
            })
    ]
      where
        got : ℕ × Table × M × r.State
        got = r.rx_burst s.rx_state queue.port_id queue.queue_id rx_burst_size s.memory

        hops : Table
        hops = (send got.0 got.1 queue.port_id got.2 s.core).1

        one_burst : Arrivals d M r send rx_burst_size s.rx_state got.3 (routed got.1 hops 0 got.0)
        one_burst =
            subst (Arrivals d M r send rx_burst_size s.rx_state got.3) (append-nil _)
              (burst_in queue.port_id queue.queue_id s.memory s.core no_more)

        most : got.0 ≤ rx_burst_size
        most = r.rx_burst-le s.rx_state queue.port_id queue.queue_id rx_burst_size s.memory

        positive : (got.0 == 0) ≡ false → 0 < got.0
        positive e = ground arith

    pub receive_queues-Follows :
        (queues : List RxQueue) (s : State)
        → QueuesBelow n queues
        → HasRoom d s.core
        → Follows d M r send rx_burst_size q s (receive_queues d M r send rx_burst_size queues s)
    unfolding receive_queues
    receive_queues-Follows [] s below room = Follows-refl d M r send rx_burst_size q s room
    receive_queues-Follows (p ∷ queues) s (lt, below) room =
        let one = receive_queue-Follows p s lt room in
        Follows-trans d M r send rx_burst_size one (receive_queues-Follows queues _ below one.room)

    module _ (tx_port_id : List ℕ) (rx_queue_list : List RxQueue) (drain_tsc : ℕ)
        (below : QueuesBelow n rx_queue_list) where
      pub poll_turn-Follows :
          (cur_tsc : ℕ) (s : State)
          → HasRoom d s.core
          → Follows d M r send rx_burst_size q s
              (poll_turn d M r send rx_burst_size tx_port_id rx_queue_list drain_tsc cur_tsc s)
      unfolding poll_turn
      poll_turn-Follows cur_tsc s room =
          let one = drain-Follows d M r send rx_burst_size tx_port_id drain_tsc cur_tsc s q room in
          Follows-trans d M r send rx_burst_size one
            (receive_queues-Follows rx_queue_list _ below one.room)

      pub poll_turns-Follows :
          (times : List ℕ) (s : State)
          → HasRoom d s.core
          → Follows d M r send rx_burst_size q s
              (poll_turns d M r send rx_burst_size tx_port_id rx_queue_list drain_tsc times s)
      unfolding poll_turns
      poll_turns-Follows [] s room = Follows-refl d M r send rx_burst_size q s room
      poll_turns-Follows (t ∷ times) s room =
          let one = poll_turn-Follows t s room in
          Follows-trans d M r send rx_burst_size one (poll_turns-Follows times _ one.room)

    -- The whole loop.
    pub poll_from_now-Follows :
        (tx_port_id : List ℕ) (queues : List RxQueue) (drain_tsc : ℕ) (times : List ℕ) (s : State)
        → QueuesBelow n queues
        → HasRoom d s.core
        → Follows d M r send rx_burst_size q s
            (poll_from_now d M r send rx_burst_size tx_port_id queues drain_tsc times s)
    unfolding poll_from_now
    poll_from_now-Follows tx_port_id [] drain_tsc times s below room =
        Follows-refl d M r send rx_burst_size q s room
    poll_from_now-Follows tx_port_id (p ∷ ps) drain_tsc [] s below room =
        Follows-refl d M r send rx_burst_size q s room
    poll_from_now-Follows tx_port_id (p ∷ ps) drain_tsc (t ∷ times) s below room =
        let f =
          poll_turns-Follows tx_port_id (p ∷ ps) drain_tsc below (t ∷ times)
            (record s { prev_tsc = t }) room in
        record {
          fresh = f.fresh;
          arrivals = f.arrivals;
          come = f.come;
          flows = f.flows;
          room = f.room;
        }

    pub poll_from_zero-Follows :
        (tx_port_id : List ℕ) (queues : List RxQueue) (drain_tsc : ℕ) (times : List ℕ) (s : State)
        → QueuesBelow n queues
        → HasRoom d s.core
        → Follows d M r send rx_burst_size q s
            (poll_from_zero d M r send rx_burst_size tx_port_id queues drain_tsc times s)
    unfolding poll_from_zero
    poll_from_zero-Follows tx_port_id [] drain_tsc times s below room =
        Follows-refl d M r send rx_burst_size q s room
    poll_from_zero-Follows tx_port_id (p ∷ ps) drain_tsc times s below room =
        let f =
          poll_turns-Follows tx_port_id (p ∷ ps) drain_tsc below times (record s { prev_tsc = 0 })
            room in
        record {
          fresh = f.fresh;
          arrivals = f.arrivals;
          come = f.come;
          flows = f.flows;
          room = f.room;
        }

-- ===== src/L3fwd/Polling/Drain.antt =====
-- l3fwd/l3fwd_em.c, l3fwd/l3fwd_fib.c, l3fwd/l3fwd_acl.c: packets do not wait for ever.
use mathlib.Core.List.{Memᴰ}
use dpdk_practice.Base.{
  ℕ, ◌+◌, ◌-◌, ◌≤◌, ◌<◌, ◌%◌, true, false, List, [], ◌∷◌, ◌++◌, ltb, ◌==◌, ◌≡◌, ◌≢◌, refl, sym, ap,
  ◌∙◌, arith, subst, inl, inr, Bool-cases, append-nil, append_assoc,
}
use dpdk_practice.L3fwd.Rfc1812.{bad_port}
use dpdk_practice.L3fwd.Tx.Copy.{slice}
use dpdk_practice.L3fwd.Tx.Laws.{buffered}
use dpdk_practice.L3fwd.Tx.{TxDevice, Core}
use dpdk_practice.L3fwd.Multi.Laws.{HasRoom}
use dpdk_practice.L3fwd.Lpm.MainLoop.{word, RxQueue}
use dpdk_practice.L3fwd.Lpm.MainLoop.Balance.{QueuesBelow}
use dpdk_practice.L3fwd.Polling.{
  RxDevice, Send, PollLoop, drain_tx_port, drain_tx_ports, receive_queue, receive_queues, drain,
  poll_turn, poll_turns,
}
use dpdk_practice.L3fwd.Polling.Order.{bound_for, no_more, InOrder, Follows, Follows-trans}
use dpdk_practice.L3fwd.Polling.Emptied.{
  drain_tx_port-Drained, drain_tx_ports-Flows, drain_tx_ports-room,
}
use dpdk_practice.L3fwd.Polling.Turns.{
  receive_queues-Follows, poll_turn-Follows, poll_turns-Follows,
}

module _ (d : TxDevice) (M : Type 0) (r : RxDevice M) (send : Send d M) (rx_burst_size : ℕ) where
  -- On the way from one state to a later one, all packets that waited for port `q` have been
  -- offered to the device, ahead of those that came.
  pub record Offers (q : ℕ) (s s' : PollLoop d M r send rx_burst_size) : Type 0 where
    pub follows : Follows d M r send rx_burst_size q s s'
    pub behind : List ℕ
    pub ahead : follows.flows.offered ≡ buffered d s.core q ++ behind

  Offers-Follows :
      {q : ℕ} {s s1 s' : PollLoop d M r send rx_burst_size}
      → Offers q s s1
      → Follows d M r send rx_burst_size q s1 s'
      → Offers q s s'
  Offers-Follows {q} {s} f g = record {
    follows = Follows-trans d M r send rx_burst_size f.follows g;
    behind = f.behind ++ g.flows.offered;
    ahead =
        ap (λ xs. xs ++ g.flows.offered) f.ahead
        ∙ append_assoc (buffered d s.core q) f.behind g.flows.offered;
  }

  Follows-Offers :
      {q : ℕ} {s s1 s' : PollLoop d M r send rx_burst_size}
      → Follows d M r send rx_burst_size q s s1
      → Offers q s1 s'
      → Offers q s s'
  Follows-Offers {q} {s} {s1} f g = record {
    follows = Follows-trans d M r send rx_burst_size f g.follows;
    behind = bound_for q f.fresh ++ g.behind;
    ahead =
        (let before = f.flows in
          ap (◌++◌ before.offered) g.ahead
          ∙ sym (append_assoc before.offered (buffered d s1.core q) g.behind)
          ∙ ap (λ xs. xs ++ g.behind) (sym before.in_order)
          ∙ append_assoc (buffered d s.core q) (bound_for q f.fresh) g.behind);
  }

  drain_tx_ports-fewer :
      (ports : List ℕ) (c : Core d) (q : ℕ)
      → (drain_tx_ports d M r send rx_burst_size ports c).tx_len q ≤ c.tx_len q
  unfolding drain_tx_ports
  drain_tx_ports-fewer [] c q = omega arith
  drain_tx_ports-fewer (p ∷ ports) c q = omega (
    arith,
    drain_tx_ports-fewer ports _ q,
    (drain_tx_port-Drained d M r send rx_burst_size p c).fewer q,
  )

  drain_tx_ports-empty :
      (ports : List ℕ) (c : Core d) (q : ℕ)
      → Memᴰ q ports
      → (drain_tx_ports d M r send rx_burst_size ports c).tx_len q ≡ 0
  unfolding drain_tx_ports
  drain_tx_ports-empty [] c q listed = elim listed [ ]
  drain_tx_ports-empty (p ∷ ports) c q (Memᴰ.head e) =
      let first = drain_tx_port-Drained d M r send rx_burst_size p c in
      let left = drain_tx_ports-fewer ports (drain_tx_port d M r send rx_burst_size p c) q in
      omega (arith, left, first.empty, ap (drain_tx_port d M r send rx_burst_size p c).tx_len e)
  drain_tx_ports-empty (p ∷ ports) c q (Memᴰ.tail listed) = drain_tx_ports-empty ports _ q listed

  -- The clock is read by the drain alone.
  receive_queue-prev_tsc :
      (queue : RxQueue) (s : PollLoop d M r send rx_burst_size)
      → (receive_queue d M r send rx_burst_size queue s).prev_tsc ≡ s.prev_tsc
  unfolding receive_queue
  receive_queue-prev_tsc queue s =
      elim (Bool-cases
        ((r.rx_burst s.rx_state queue.port_id queue.queue_id rx_burst_size s.memory).0 == 0)) [
          | inl nothing ↦ rw (receive_queue, nothing) refl
          | inr some_packet ↦ rw (receive_queue, some_packet) refl
        ]

  receive_queues-prev_tsc :
      (queues : List RxQueue) (s : PollLoop d M r send rx_burst_size)
      → (receive_queues d M r send rx_burst_size queues s).prev_tsc ≡ s.prev_tsc
  unfolding receive_queues
  receive_queues-prev_tsc [] s = refl
  receive_queues-prev_tsc (p ∷ queues) s =
      receive_queues-prev_tsc queues _ ∙ receive_queue-prev_tsc p s

  module _ (n : ℕ) (law : InOrder d M send n rx_burst_size) (tx_port_id : List ℕ)
      (rx_queue_list : List RxQueue) (drain_tsc : ℕ) (below : QueuesBelow n rx_queue_list) (q : ℕ)
      (good : q ≢ bad_port) (listed : Memᴰ q tx_port_id) where
    turn_late :
        (cur_tsc : ℕ) (s : PollLoop d M r send rx_burst_size)
        → HasRoom d s.core
        → ltb drain_tsc ((cur_tsc + word - s.prev_tsc) % word) ≡ true
        → Offers q s
            (poll_turn d M r send rx_burst_size tx_port_id rx_queue_list drain_tsc cur_tsc s)
    unfolding poll_turn drain
    turn_late cur_tsc s room late =
        let drained = drain_tx_ports d M r send rx_burst_size tx_port_id s.core in
        let flows = drain_tx_ports-Flows d M r send rx_burst_size tx_port_id s.core q in
        let rest = drain_tx_ports-empty tx_port_id s.core q listed in
        rw (poll_turn, drain, late)
          (Offers-Follows
            (record {
              follows = record {
                fresh = [];
                come = sym (append-nil s.received);
                arrivals = no_more;
                flows = flows;
                room = drain_tx_ports-room d M r send rx_burst_size tx_port_id s.core room;
              };
              behind = [];
              ahead = sym (
                  flows.in_order
                  ∙ ap (λ k. flows.offered ++ slice (drained.m_table q) 0 k) rest
                  ∙ append-nil flows.offered);
            })
            (receive_queues-Follows d M r send rx_burst_size n law q good rx_queue_list _ below
              (drain_tx_ports-room d M r send rx_burst_size tx_port_id s.core room)))

    turn_early :
        (cur_tsc : ℕ) (s : PollLoop d M r send rx_burst_size)
        → ltb drain_tsc ((cur_tsc + word - s.prev_tsc) % word) ≡ false
        → (poll_turn d M r send rx_burst_size tx_port_id rx_queue_list drain_tsc cur_tsc s).prev_tsc
          ≡ s.prev_tsc
    unfolding poll_turn drain
    turn_early cur_tsc s early =
        rw (poll_turn, drain, early) (receive_queues-prev_tsc rx_queue_list s)

    -- Let sending a burst keep room in the buffers and hand each port the packets with this
    -- destination in their order, let the receiving ports be among the first so many for which it
    -- does, let all buffers have room at the start, and let a turn of the polling loop be at a time
    -- more than drain_tsc behind the last drain at the start, as a 64-bit difference. Then,
    -- whatever the turns before it are, when the loop has gone through this turn and any turns
    -- behind it, all packets that waited at the start for a port of the transmit list other than
    -- BAD_PORT have been offered to the device by calls of rte_eth_tx_burst on the port and its
    -- queue, ahead of those that came; what the device took of them is on the wire, and what it
    -- refused is freed.
    pub poll_turns-Offers :
        (before after : List ℕ) (cur_tsc : ℕ) (s : PollLoop d M r send rx_burst_size)
        → HasRoom d s.core
        → drain_tsc < (cur_tsc + word - s.prev_tsc) % word
        → Offers q s (
            poll_turns d M r send rx_burst_size tx_port_id rx_queue_list drain_tsc
              (before ++ (cur_tsc ∷ after))
              s)
    unfolding poll_turns
    poll_turns-Offers [] after cur_tsc s room late =
        let one = turn_late cur_tsc s room (ground arith) in
        Offers-Follows one (
          poll_turns-Follows d M r send rx_burst_size n law q good tx_port_id rx_queue_list
            drain_tsc below after _ one.follows.room)
    poll_turns-Offers (t ∷ before) after cur_tsc s room late =
        elim (Bool-cases (ltb drain_tsc ((t + word - s.prev_tsc) % word))) [
          | inl now ↦
              (let one = turn_late t s room now in
                Offers-Follows one (
                  poll_turns-Follows d M r send rx_burst_size n law q good tx_port_id rx_queue_list
                    drain_tsc below (before ++ (cur_tsc ∷ after)) _ one.follows.room))
          | inr later ↦
              (let one =
                  poll_turn-Follows d M r send rx_burst_size n law q good tx_port_id rx_queue_list
                    drain_tsc below t s room in
                Follows-Offers one (
                  poll_turns-Offers before after cur_tsc _ one.room (
                    subst (λ p. drain_tsc < (cur_tsc + word - p) % word)
                      (sym (turn_early t s later)) late)))
        ]

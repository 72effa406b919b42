-- ===== src/L3fwd/Polling.antt =====
-- The polling loop that l3fwd/l3fwd_em.c, l3fwd/l3fwd_fib.c and l3fwd/l3fwd_acl.c share, for any way
-- of sending a burst.
pub mod Order
pub mod Emptied
pub mod Turns
pub mod Drain
pub mod Burst
use dpdk_practice.Base.{
  ℕ, zero, suc, ◌+◌, ◌-◌, ◌≤◌, ◌%◌, List, [], ◌∷◌, ◌++◌, ltb, ◌==◌, if◌then◌else◌,
}
use dpdk_practice.L3fwd.Tx.Copy.{Table}
use dpdk_practice.L3fwd.Tx.{TxDevice, Core, send_burst, set_len}
use dpdk_practice.L3fwd.Lpm.MainLoop.{word, RxQueue}

-- rte_eth_rx_burst on a port and a queue, for packets in a memory of type `M`: how many packets, at
-- most as many as asked for, which, and the memory, which the device has written.
pub record RxDevice (M : Type 0) : Type 1 where
  pub State : Type 0
  pub rx_burst : State → ℕ → ℕ → ℕ → M → ℕ × Table × M × State
  pub rx_burst-le :
      (s : State) (portid queueid n : ℕ) (m : M) → (rx_burst s portid queueid n m).0 ≤ n

-- What a method does with a burst that is not empty: its length, the packets, and their port. The
-- table is the method's array of destinations when it has sent the burst.
abbrev pub Send : TxDevice → Type 0 → Type 0
Send d M = ℕ → Table → ℕ → M → Core d → M × Table × Core d

-- The `n` packets from index `j` on, each with its destination.
abbrev pub routed : Table → Table → ℕ → ℕ → List (ℕ × ℕ)
routed pkts_burst dst_port j zero = []
routed pkts_burst dst_port j (suc n) =
    (pkts_burst j, dst_port j) ∷ routed pkts_burst dst_port (j + 1) n

module _ (d : TxDevice) (M : Type 0) (r : RxDevice M) (send : Send d M) (rx_burst_size : ℕ) where
  -- A core: its part of `lcore_conf`, and the packets that it has received, oldest first, with the
  -- destination that the method gave each.
  pub record PollLoop : Type 0 where
    pub core : Core d
    pub memory : M
    pub rx_state : r.State
    pub prev_tsc : ℕ
    pub received : List (ℕ × ℕ)

  -- One port of the drain.
  pub drain_tx_port : ℕ → Core d → Core d
  drain_tx_port portid c =
      let len = c.tx_len portid in
      let (sent, c1) = send_burst d c len portid in if len == 0 then c else set_len d c1 portid 0

  pub drain_tx_ports : List ℕ → Core d → Core d
  drain_tx_ports [] c = c
  drain_tx_ports (portid ∷ tx_port_id) c = drain_tx_ports tx_port_id (drain_tx_port portid c)

  pub receive_queue : RxQueue → PollLoop → PollLoop
  receive_queue q s =
      let (nb_rx, pkts_burst, m, rx_state) =
        r.rx_burst s.rx_state q.port_id q.queue_id rx_burst_size s.memory in
      let (m1, dst_port, c1) = send nb_rx pkts_burst q.port_id m s.core in
      if nb_rx == 0 then record s { memory = m; rx_state = rx_state } else record s {
        core = c1;
        memory = m1;
        rx_state = rx_state;
        received = s.received ++ routed pkts_burst dst_port 0 nb_rx;
      }

  pub receive_queues : List RxQueue → PollLoop → PollLoop
  receive_queues [] s = s
  receive_queues (q ∷ rx_queue_list) s = receive_queues rx_queue_list (receive_queue q s)

  -- `if (diff_tsc > drain_tsc)`, at the time `cur_tsc`.
  pub drain : List ℕ → ℕ → ℕ → PollLoop → PollLoop
  drain tx_port_id drain_tsc cur_tsc s =
      let diff_tsc = (cur_tsc + word - s.prev_tsc) % word in
      if ltb drain_tsc diff_tsc
      then record s { core = drain_tx_ports tx_port_id s.core; prev_tsc = cur_tsc }
      else s

  -- One turn of `while (!force_quit)`.
  pub poll_turn : List ℕ → List RxQueue → ℕ → ℕ → PollLoop → PollLoop
  poll_turn tx_port_id rx_queue_list drain_tsc cur_tsc s =
      receive_queues rx_queue_list (drain tx_port_id drain_tsc cur_tsc s)

  pub poll_turns : List ℕ → List RxQueue → ℕ → List ℕ → PollLoop → PollLoop
  poll_turns tx_port_id rx_queue_list drain_tsc [] s = s
  poll_turns tx_port_id rx_queue_list drain_tsc (cur_tsc ∷ times) s =
      poll_turns tx_port_id rx_queue_list drain_tsc times
        (poll_turn tx_port_id rx_queue_list drain_tsc cur_tsc s)

  -- The loop of a method that reads the clock before the first turn: a core without a queue does
  -- nothing; otherwise the turns are at the times that rte_rdtsc gives, the first of which is
  -- `prev_tsc` as well.
  pub poll_from_now : List ℕ → List RxQueue → ℕ → List ℕ → PollLoop → PollLoop
  poll_from_now tx_port_id [] drain_tsc times s = s
  poll_from_now tx_port_id (q ∷ qs) drain_tsc [] s = s
  poll_from_now tx_port_id (q ∷ qs) drain_tsc (t ∷ times) s =
      poll_turns tx_port_id (q ∷ qs) drain_tsc (t ∷ times) (record s { prev_tsc = t })

  -- The loop of a method that sets `prev_tsc` to 0.
  pub poll_from_zero : List ℕ → List RxQueue → ℕ → List ℕ → PollLoop → PollLoop
  poll_from_zero tx_port_id [] drain_tsc times s = s
  poll_from_zero tx_port_id (q ∷ qs) drain_tsc times s =
      poll_turns tx_port_id (q ∷ qs) drain_tsc times (record s { prev_tsc = 0 })

-- ===== src/L3fwd/Lpm/MainLoop.antt =====
-- l3fwd/l3fwd_lpm.c: lpm_main_loop with its statistics.
pub mod Balance
use dpdk_practice.Base.{
  ℕ, zero, suc, ◌+◌, ◌-◌, ◌≤◌, ◌%◌, Bool, ◌&&◌, List, [], ◌∷◌, ltb, ◌==◌, if◌then◌else◌, update,
}
use dpdk_practice.L3fwd.Rfc1812.{Frame}
use dpdk_practice.L3fwd.Tx.Copy.{Table}
use dpdk_practice.L3fwd.Tx.{TxDevice, TxStats, Core, send_burst, set_len}
use dpdk_practice.L3fwd.Multi.{Packets}
use dpdk_practice.L3fwd.Lpm.{Tables, Step1, l3fwd_lpm_send_packets}

-- Counters are 64-bit words.
abbrev pub word : ℕ
word = 18446744073709551616

-- `struct lcore_stat`
pub record LcoreStat : Type 0 where
  pub rx : ℕ
  pub tx : ℕ
  pub dropped : ℕ

abbrev pub no_stat : LcoreStat
no_stat = record { rx = 0; tx = 0; dropped = 0 }

abbrev pub add_word : ℕ → ℕ → ℕ
add_word a b = (a + b) % word

-- The sums that print_lcore_stats prints, over the first `n` cores.
pub total_stats : (ℕ → LcoreStat) → ℕ → LcoreStat
total_stats lcore_stats zero = no_stat
total_stats lcore_stats (suc n) =
    let t = total_stats lcore_stats n in
    let s = lcore_stats n in
    record {
      rx = add_word t.rx s.rx;
      tx = add_word t.tx s.tx;
      dropped = add_word t.dropped s.dropped;
    }

-- rte_eth_rx_burst on a port and a queue: how many packets, at most as many as asked for, which,
-- and the memory of the packets, which the device has written.
pub record RxDevice : Type 1 where
  pub State : Type 0
  pub rx_burst : State → ℕ → ℕ → ℕ → Packets → ℕ × Table × Packets × State
  pub rx_burst-le :
      (s : State) (portid queueid n : ℕ) (p : Packets) → (rx_burst s portid queueid n p).0 ≤ n

-- An entry of `rx_queue_list`.
pub record RxQueue : Type 0 where
  pub port_id : ℕ
  pub queue_id : ℕ

-- What the arrays on the stack hold at first.
pub record Scratch : Type 0 where
  pub pnum : Table
  pub step1 : Step1
  pub dst_port : Table

module _ (d : TxDevice) (r : RxDevice) (tables : Tables) (val_eth : ℕ → Frame) (scratch : Scratch)
    (rx_burst_size tx_burst_size : ℕ) where
  -- A core: its part of `lcore_conf` and of `lcore_stats`.
  pub record LpmLoop : Type 0 where
    pub core : Core d
    pub packets : Packets
    pub rx_state : r.State
    pub stats : LcoreStat
    pub prev_tsc : ℕ

  -- One port of the drain.
  pub lpm_drain_port : ℕ → LpmLoop → LpmLoop
  lpm_drain_port portid s =
      let len = s.core.tx_len portid in
      let (sent, c1) = send_burst d s.core len portid in
      if len == 0 then s else record s {
        core = set_len d c1 portid 0;
        stats = record s.stats {
          tx = add_word s.stats.tx sent;
          dropped = add_word s.stats.dropped (len - sent);
        };
      }

  pub lpm_drain_ports : List ℕ → LpmLoop → LpmLoop
  lpm_drain_ports [] s = s
  lpm_drain_ports (portid ∷ tx_port_id) s = lpm_drain_ports tx_port_id (lpm_drain_port portid s)

  -- One queue: the packets that have come are forwarded and counted.
  pub lpm_receive_queue : RxQueue → LpmLoop → LpmLoop
  lpm_receive_queue q s =
      let (nb_rx, pkts_burst, p, rx_state) =
        r.rx_burst s.rx_state q.port_id q.queue_id rx_burst_size s.packets in
      let (tx_stats, c1, p1, dst_port) =
        l3fwd_lpm_send_packets tables d tx_burst_size val_eth scratch.pnum scratch.step1 nb_rx
          pkts_burst q.port_id (p, scratch.dst_port) s.core in
      if nb_rx == 0 then record s { packets = p; rx_state = rx_state } else record s {
        core = c1;
        packets = p1;
        rx_state = rx_state;
        stats = record {
          rx = add_word s.stats.rx nb_rx;
          tx = add_word s.stats.tx tx_stats.sent;
          dropped = add_word s.stats.dropped tx_stats.dropped;
        };
      }

  pub lpm_receive_queues : List RxQueue → LpmLoop → LpmLoop
  lpm_receive_queues [] s = s
  lpm_receive_queues (q ∷ rx_queue_list) s =
      lpm_receive_queues rx_queue_list (lpm_receive_queue q s)

  -- One turn of `while (!force_quit)` at the time `cur_tsc`.
  pub lpm_turn : List ℕ → List RxQueue → ℕ → ℕ → LpmLoop → LpmLoop
  lpm_turn tx_port_id rx_queue_list drain_tsc cur_tsc s =
      let diff_tsc = (cur_tsc + word - s.prev_tsc) % word in
      lpm_receive_queues rx_queue_list (
        if ltb drain_tsc diff_tsc
        then record (lpm_drain_ports tx_port_id s) { prev_tsc = cur_tsc }
        else s)

  pub lpm_turns : List ℕ → List RxQueue → ℕ → List ℕ → LpmLoop → LpmLoop
  lpm_turns tx_port_id rx_queue_list drain_tsc [] s = s
  lpm_turns tx_port_id rx_queue_list drain_tsc (cur_tsc ∷ times) s =
      lpm_turns tx_port_id rx_queue_list drain_tsc times
        (lpm_turn tx_port_id rx_queue_list drain_tsc cur_tsc s)

  -- The core's statistics start at 0. A core without a queue forwards nothing; otherwise the turns
  -- are at the times that rte_rdtsc gives, the first of which sets `prev_tsc` as well.
  pub lpm_main_loop : List ℕ → List RxQueue → ℕ → List ℕ → LpmLoop → LpmLoop
  lpm_main_loop tx_port_id [] drain_tsc times s = record s { stats = no_stat }
  lpm_main_loop tx_port_id (q ∷ qs) drain_tsc [] s = record s { stats = no_stat }
  lpm_main_loop tx_port_id (q ∷ qs) drain_tsc (t ∷ times) s =
      lpm_turns tx_port_id (q ∷ qs) drain_tsc (t ∷ times)
        (record s { stats = no_stat; prev_tsc = t })

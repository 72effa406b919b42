-- ===== src/L2fwd/Forward.antt =====
-- l2fwd/main.c: the rewriting of the addresses, l2fwd_simple_forward and the main loop. A packet is
-- the number of its buffer, a frame its bytes by index; the host is little-endian.
pub mod Mac
pub mod Delivery
use dpdk_practice.Base.{
  ℕ, zero, suc, ◌+◌, ◌-◌, ◌*◌, ◌/◌, ◌%◌, ◌^◌, ◌≤◌, Bool, true, false, ◌&&◌, not, List, [], ◌∷◌,
  ◌++◌, length, update, ltb, leb, ◌==◌, if◌then◌else◌,
}

abbrev pub Frame : Type 0
Frame = ℕ → ℕ

abbrev pub word : ℕ
word = 18446744073709551616

-- A uint64_t stored at index `at`.
abbrev pub store64 : Frame → ℕ → ℕ → Frame
store64 f at v i = if leb at i && ltb i (at + 8) then v / 256 ^ (i - at) % 256 else f i

-- rte_ether_addr_copy to index `at`.
abbrev pub ether_addr_copy : Frame → ℕ → (ℕ → ℕ) → Frame
ether_addr_copy f at addr i = if leb at i && ltb i (at + 6) then addr (i - at) else f i

-- The address bytes of the ports by port.
pub l2fwd_mac_updating : (ℕ → ℕ → ℕ) → Frame → ℕ → Frame
l2fwd_mac_updating ports_eth_addr f dest_portid =
    ether_addr_copy (store64 f 0 ((2 + dest_portid * 2 ^ 40) % word)) 6 (ports_eth_addr dest_portid)

-- The device library: rte_eth_tx_buffer and rte_eth_tx_buffer_flush give the number of packets
-- that were sent, rte_eth_rx_burst the packets received, at most so many as asked for.
pub record Devices : Type 1 where
  pub State : Type 0
  pub tx_buffer : State → ℕ → ℕ → ℕ × State
  pub tx_buffer_flush : State → ℕ → ℕ × State
  pub rx_burst : State → ℕ → ℕ → List ℕ × State
  pub rx_burst-le : (s : State) (port n : ℕ) → length (rx_burst s port n).0 ≤ n

abbrev pub max_pkt_burst : ℕ
max_pkt_burst = 32

module _ (d : Devices) (dst_ports : ℕ → ℕ) (mac_updating : Bool) (ports_eth_addr : ℕ → ℕ → ℕ) where
  open d use {State, tx_buffer, tx_buffer_flush, rx_burst}

  -- `buffered` lists what each port's rte_eth_tx_buffer was given, `printed` the arguments of
  -- print_stats.
  pub record Loop : Type 0 where
    pub dev : State
    pub frames : ℕ → Frame
    pub tx : ℕ → ℕ
    pub rx : ℕ → ℕ
    pub buffered : ℕ → List ℕ
    pub prev_tsc : ℕ
    pub timer_tsc : ℕ
    pub printed : List ℕ

  -- `port_statistics[port].tx += sent`
  abbrev pub count_sent : Loop → ℕ → ℕ → Loop
  count_sent s port sent =
      if not (sent == 0) then record s { tx = update s.tx port ((s.tx port + sent) % word) } else s

  pub l2fwd_simple_forward : Loop → ℕ → ℕ → Loop
  unfolding l2fwd_mac_updating
  l2fwd_simple_forward s m portid =
      let dst_port = dst_ports portid in
      let frames =
        if mac_updating
        then update s.frames m (l2fwd_mac_updating ports_eth_addr (s.frames m) dst_port)
        else s.frames in
      let (sent, dev) = tx_buffer s.dev dst_port m in
      count_sent
        (record s {
          dev = dev;
          frames = frames;
          buffered = update s.buffered dst_port (s.buffered dst_port ++ (m ∷ []));
        })
        dst_port sent

  pub forward_all : Loop → List ℕ → ℕ → Loop
  unfolding l2fwd_simple_forward
  forward_all s [] portid = s
  forward_all s (m ∷ pkts) portid = forward_all (l2fwd_simple_forward s m portid) pkts portid

  -- The flush of the destination of each port that the core polls.
  pub drain_ports : Loop → List ℕ → Loop
  drain_ports s [] = s
  drain_ports s (rx_port ∷ rx_port_list) =
      let portid = dst_ports rx_port in
      let (sent, dev) = tx_buffer_flush s.dev portid in
      drain_ports (count_sent (record s { dev = dev }) portid sent) rx_port_list

  pub advance_timer : ℕ → Bool → ℕ → Loop → Loop
  advance_timer timer_period is_main diff_tsc s =
      let timer_tsc = (s.timer_tsc + diff_tsc) % word in
      if ltb 0 timer_period
      then if leb timer_period timer_tsc && is_main
        then record s { timer_tsc = 0; printed = s.printed ++ (timer_tsc ∷ []) }
        else record s { timer_tsc = timer_tsc }
      else s

  pub receive_ports : Loop → List ℕ → Loop
  unfolding forward_all
  receive_ports s [] = s
  receive_ports s (portid ∷ rx_port_list) =
      let (pkts, dev) = rx_burst s.dev portid max_pkt_burst in
      let polled = record s { dev = dev } in
      let counted = record polled {
        rx = update s.rx portid ((s.rx portid + length pkts) % word);
      } in
      receive_ports (if length pkts == 0 then polled else forward_all counted pkts portid)
        rx_port_list

  -- One turn of `while (!force_quit)` at the time `cur_tsc`.
  pub loop_turn : List ℕ → ℕ → ℕ → Bool → ℕ → Loop → Loop
  unfolding drain_ports advance_timer receive_ports
  loop_turn rx_port_list drain_tsc timer_period is_main cur_tsc s =
      let diff_tsc = (cur_tsc + word - s.prev_tsc) % word in
      let drained = advance_timer timer_period is_main diff_tsc (drain_ports s rx_port_list) in
      receive_ports (if ltb drain_tsc diff_tsc then record drained { prev_tsc = cur_tsc } else s)
        rx_port_list

  -- The loop at the times that rte_rdtsc gives; with no port the core returns at once.
  pub l2fwd_main_loop : List ℕ → ℕ → ℕ → Bool → List ℕ → Loop → Loop
  unfolding loop_turn
  l2fwd_main_loop [] drain_tsc timer_period is_main times s = s
  l2fwd_main_loop (p ∷ ps) drain_tsc timer_period is_main [] s = s
  l2fwd_main_loop (p ∷ ps) drain_tsc timer_period is_main (t ∷ times) s =
      l2fwd_main_loop (p ∷ ps) drain_tsc timer_period is_main times
        (loop_turn (p ∷ ps) drain_tsc timer_period is_main t s)

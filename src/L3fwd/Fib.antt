-- ===== src/L3fwd/Fib.antt =====
-- l3fwd/l3fwd_fib.c: forwarding by the forwarding information base. The packets of a burst are
-- parsed, looked up in bulk by family, and the hops are put together again.
mod Tests
pub mod Laws
pub mod MainLoop
pub mod EventLoop
use dpdk_practice.Base.{
  ℕ, zero, suc, ◌+◌, ◌-◌, ◌*◌, ◌/◌, ◌%◌, Bool, true, false, not, ◌==◌, if◌then◌else◌, update,
}
use dpdk_practice.L3fwd.Rfc1812.{Frame, step3_lane, process_packet}
use dpdk_practice.L3fwd.Routes.{ntohl}
use dpdk_practice.L3fwd.Tx.Copy.{Table}
use dpdk_practice.L3fwd.Tx.{TxDevice, TxStats, Core}
use dpdk_practice.L3fwd.Multi.{Packets, finish, send_packets_multi}
use dpdk_practice.L3fwd.Lpm.{load32, ipv4_dst_at, ipv6_dst_at}

-- FIB_PREFETCH_OFFSET, FIB_DEFAULT_HOP
abbrev pub fib_prefetch_offset : ℕ
fib_prefetch_offset = 4

abbrev pub fib_default_hop : ℕ
fib_default_hop = 999

-- The local arrays of fib_send_packets. An IPv6 address is its bytes; `type_arr` is true for 1.
pub record FibSearch : Type 0 where
  pub ipv4_arr : Table
  pub ipv4_cnt : ℕ
  pub ipv6_arr : ℕ → ℕ → ℕ
  pub ipv6_cnt : ℕ
  pub type_arr : ℕ → Bool

-- The destinations in a packet's headers.
abbrev pub ipv4_address : Packets → ℕ → ℕ
ipv4_address p pkt = ntohl (load32 (p.frame pkt) ipv4_dst_at)

abbrev pub ipv6_address : Packets → ℕ → ℕ → ℕ
ipv6_address p pkt i = p.frame pkt (ipv6_dst_at + i)

-- The packet with index `i`.
pub fib_parse_packet : Packets → Table → ℕ → FibSearch → FibSearch
fib_parse_packet p pkts_burst i s =
    let mbuf = pkts_burst i in
    if p.is_ipv4 mbuf
    then record s {
      ipv4_arr = update s.ipv4_arr s.ipv4_cnt (ipv4_address p mbuf);
      type_arr = update s.type_arr i true;
      ipv4_cnt = s.ipv4_cnt + 1;
    }
    else record s {
      ipv6_arr = update s.ipv6_arr s.ipv6_cnt (ipv6_address p mbuf);
      type_arr = update s.type_arr i false;
      ipv6_cnt = s.ipv6_cnt + 1;
    }

-- `rounds` packets from index `i` on.
pub fib_parse_packets : Packets → Table → ℕ → ℕ → FibSearch → FibSearch
fib_parse_packets p pkts_burst zero i s = s
fib_parse_packets p pkts_burst (suc rounds) i s =
    fib_parse_packets p pkts_burst rounds (i + 1) (fib_parse_packet p pkts_burst i s)

-- Up to `nb_rx - FIB_PREFETCH_OFFSET`, and then the packets that are left.
pub fib_parse_burst : Packets → Table → ℕ → FibSearch → FibSearch
fib_parse_burst p pkts_burst nb_rx s =
    let first = nb_rx - fib_prefetch_offset in
    fib_parse_packets p pkts_burst (nb_rx - first) first
      (fib_parse_packets p pkts_burst first 0 (record s { ipv4_cnt = 0; ipv6_cnt = 0 }))

-- rte_fib_lookup_bulk and rte_fib6_lookup_bulk on a core's tables: the addresses, the array of
-- hops, and their number; the array is returned written.
pub record FibTables : Type 0 where
  pub lookup_bulk : Table → Table → ℕ → Table
  pub lookup_bulk6 : (ℕ → ℕ → ℕ) → Table → ℕ → Table

-- The counters and the array of the last loop.
pub record Assembled : Type 0 where
  pub ipv4_arr_assem : ℕ
  pub ipv6_arr_assem : ℕ
  pub hops : Table

-- `fallback` is the port for a packet that the tables do not know.
module _ (s : FibSearch) (hopsv4 hopsv6 fallback : Table) where
  pub assemble_one : ℕ → Assembled → Assembled
  assemble_one i a =
      let nh =
        (if s.type_arr i then hopsv4 a.ipv4_arr_assem else hopsv6 a.ipv6_arr_assem) % 65536 in
      record {
        ipv4_arr_assem = if s.type_arr i then a.ipv4_arr_assem + 1 else a.ipv4_arr_assem;
        ipv6_arr_assem = if s.type_arr i then a.ipv6_arr_assem else a.ipv6_arr_assem + 1;
        hops = update a.hops i (if not (nh == fib_default_hop) then nh else fallback i);
      }

  -- `rounds` packets from index `i` on.
  pub assemble : ℕ → ℕ → Assembled → Assembled
  assemble zero i a = a
  assemble (suc rounds) i a = assemble rounds (i + 1) (assemble_one i a)

module _ (tables : FibTables) where
  open tables use {lookup_bulk, lookup_bulk6}

  -- `fresh` and the three arrays are what the memory holds at first.
  pub fib_hops : Packets → Table → ℕ → Table → FibSearch → Table → Table → Table → Table
  fib_hops p pkts_burst nb_rx fallback fresh junk4 junk6 hops =
      let s = fib_parse_burst p pkts_burst nb_rx fresh in
      let hopsv4 = if s.ipv4_cnt == 0 then junk4 else lookup_bulk s.ipv4_arr junk4 s.ipv4_cnt in
      let hopsv6 = if s.ipv6_cnt == 0 then junk6 else lookup_bulk6 s.ipv6_arr junk6 s.ipv6_cnt in
      (assemble s hopsv4 hopsv6 fallback nb_rx 0
        (record { ipv4_arr_assem = 0; ipv6_arr_assem = 0; hops = hops })).hops

  -- `junk` is what `pnum` holds at first; the counters of send_packets_multi are not used.
  pub fib_send_packets :
      (d : TxDevice)
      → ℕ
      → (ℕ → Frame)
      → Table
      → FibSearch
      → Table
      → Table
      → Table
      → ℕ
      → Table
      → ℕ
      → Packets
      → Core d
      → TxStats × Core d × Packets × Table
  fib_send_packets d tx_burst_size val_eth junk fresh junk4 junk6 hops nb_rx pkts_burst portid p c =
      send_packets_multi d tx_burst_size val_eth junk pkts_burst nb_rx
        (p, fib_hops p pkts_burst nb_rx (λ i. portid) fresh junk4 junk6 hops) c

  -- An event vector: `mbuf_port` is the port of each packet, and `attr_port` that of the vector,
  -- which counts where `attr_valid` is set. The hops and the frames as they are left for
  -- process_event_vector.
  pub fib_process_event_vector :
      (ℕ → Frame)
      → Bool
      → ℕ
      → (ℕ → ℕ)
      → FibSearch
      → Table
      → Table
      → Table
      → ℕ
      → Table
      → Packets
      → Packets × Table
  fib_process_event_vector val_eth attr_valid attr_port mbuf_port fresh junk4 junk6 hops nb_elem
        mbufs p =
      let fallback : Table = λ i. if attr_valid then attr_port else mbuf_port (mbufs i) in
      let found = fib_hops p mbufs nb_elem fallback fresh junk4 junk6 hops in
      let k = nb_elem / 4 * 4 in
      finish (process_packet val_eth) mbufs (nb_elem % 4) k
        (finish (step3_lane val_eth) mbufs k 0 (p, found))

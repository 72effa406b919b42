-- ===== src/L3fwd/Event/Vector.antt =====
-- l3fwd/l3fwd_event.h: filter_bad_packets and process_event_vector.
pub mod Laws
use dpdk_practice.Base.{
  ℕ, zero, suc, ◌+◌, ◌-◌, Bool, true, false, List, [], ◌∷◌, ◌++◌, ◌==◌, if◌then◌else◌, update,
}
use dpdk_practice.L3fwd.Rfc1812.{bad_port}
use dpdk_practice.L3fwd.OnePort.{process_dst_port}
use dpdk_practice.L3fwd.Tx.Copy.{Table}
use dpdk_practice.L3fwd.Event.{EventMemory, tx_direct, txq_set}

-- The arrays and the local variables: `pos` and `des_pos` are the same index of both arrays, and
-- `freed` are the packets given to rte_pktmbuf_free.
pub record Filter : Type 0 where
  pub mbufs : Table
  pub dst_port : Table
  pub pos : ℕ
  pub free : ℕ
  pub freed : List ℕ

-- The packet with index `i`.
pub filter_one : ℕ → Filter → Filter
filter_one i s =
    if s.dst_port i == bad_port
    then record s {
      freed = s.freed ++ (s.mbufs i ∷ []);
      pos = if s.free == 0 then i else s.pos;
      free = s.free + 1;
    }
    else if s.free == 0
    then s
    else record s {
      mbufs = update s.mbufs s.pos (s.mbufs i);
      dst_port = update s.dst_port s.pos (s.dst_port i);
      pos = s.pos + 1;
    }

-- `rounds` packets from index `i` on.
pub filter_from : ℕ → ℕ → Filter → Filter
filter_from zero i s = s
filter_from (suc rounds) i s = filter_from rounds (i + 1) (filter_one i s)

-- `junk` is what `pos` holds at first; the number of packets left, and the arrays.
pub filter_bad_packets : ℕ → Table → Table → ℕ → ℕ × Filter
filter_bad_packets junk mbufs dst_port nb_pkts =
    let s =
      filter_from nb_pkts 0
        (record { mbufs = mbufs; dst_port = dst_port; pos = junk; free = 0; freed = [] }) in
    (nb_pkts - s.free, s)

-- `struct rte_event_vector`
pub record EventVector : Type 0 where
  pub mbufs : Table
  pub nb_elem : ℕ
  pub attr_valid : Bool
  pub port : ℕ
  pub queue : ℕ

-- Each packet is given a port and a queue of its own: `rounds` packets from index `i` on.
pub set_ports : Table → Table → ℕ → ℕ → EventMemory → EventMemory
set_ports mbufs dst_port zero i m = m
set_ports mbufs dst_port (suc rounds) i m =
    set_ports mbufs dst_port rounds (i + 1)
      (txq_set tx_direct (mbufs i) (record m { port = update m.port (mbufs i) (dst_port i) }))

-- With what has been freed.
pub process_event_vector :
    ℕ → EventVector → Table → EventMemory → EventVector × List ℕ × EventMemory
process_event_vector junk vec dst_port m =
    let (nb_elem, s) = filter_bad_packets junk vec.mbufs dst_port vec.nb_elem in
    let port = process_dst_port s.dst_port nb_elem in
    if port == bad_port
    then (
      record vec { mbufs = s.mbufs; nb_elem = nb_elem; attr_valid = false },
      s.freed,
      set_ports s.mbufs s.dst_port nb_elem 0 m,
    )
    else (
      record { mbufs = s.mbufs; nb_elem = nb_elem; attr_valid = true; port = port; queue = 0 },
      s.freed,
      m,
    )

-- ===== src/L3fwd/Acl/Process.antt =====
-- l3fwd/l3fwd_acl_scalar.h and l3fwd_acl.c: a burst of packets is split by type, classified in bulk,
-- and the results are put together again.
pub mod Laws
pub mod Single
use dpdk_practice.Base.{
  ℕ, zero, suc, ◌+◌, ◌-◌, ◌%◌, Bool, ◌&&◌, not, List, [], ◌∷◌, ◌++◌, ltb, leb, ◌==◌, if◌then◌else◌,
  update, bit_and,
}
use dpdk_practice.L3fwd.Rfc1812.{Frame, bad_port, rfc1812_process}
use dpdk_practice.L3fwd.Tx.Copy.{Table}
use dpdk_practice.L3fwd.Tx.{TxDevice, Core, send_single_packet}
use dpdk_practice.L3fwd.Multi.{Packets, send_packets_multi}

-- TYPE_NONE, TYPE_IPV4, TYPE_IPV6
pub data PktType : Type 0 where
  type_none type_ipv4 type_ipv6 : PktType

-- ACL_DENY_SIGNATURE, FWD_PORT_SHIFT
abbrev pub acl_deny_signature : ℕ
acl_deny_signature = 0xf0000000

abbrev pub fwd_port_shift : ℕ
fwd_port_shift = 1

-- PREFETCH_OFFSET
abbrev pub prefetch_offset : ℕ
prefetch_offset = 3

-- `struct acl_search_t`; a pointer to the headers of a packet is the packet's number.
pub record AclSearch : Type 0 where
  pub num_ipv4 : ℕ
  pub num_ipv6 : ℕ
  pub types : ℕ → PktType
  pub data_ipv4 : Table
  pub res_ipv4 : Table
  pub data_ipv6 : Table
  pub res_ipv6 : Table

-- `is_ipv4` and `is_ipv6` are RTE_ETH_IS_IPV4_HDR and RTE_ETH_IS_IPV6_HDR of a packet's type.
module _ (is_ipv4 is_ipv6 : ℕ → Bool) (pkts_in : Table) where
  pub l3fwd_acl_prepare_one_packet : ℕ → AclSearch → AclSearch
  l3fwd_acl_prepare_one_packet index acl =
      let pkt = pkts_in index in
      if is_ipv4 pkt
      then record acl {
        data_ipv4 = update acl.data_ipv4 acl.num_ipv4 pkt;
        num_ipv4 = acl.num_ipv4 + 1;
        types = update acl.types index type_ipv4;
      }
      else if is_ipv6 pkt
      then record acl {
        data_ipv6 = update acl.data_ipv6 acl.num_ipv6 pkt;
        num_ipv6 = acl.num_ipv6 + 1;
        types = update acl.types index type_ipv6;
      }
      else record acl { types = update acl.types index type_none }

  -- `rounds` packets from index `i` on.
  pub prepare_packets : ℕ → ℕ → AclSearch → AclSearch
  prepare_packets zero i acl = acl
  prepare_packets (suc rounds) i acl =
      prepare_packets rounds (i + 1) (l3fwd_acl_prepare_one_packet i acl)

  -- The packets up to `nb_rx - PREFETCH_OFFSET`, and then those that are left.
  pub l3fwd_acl_prepare_acl_parameter : ℕ → AclSearch → AclSearch
  l3fwd_acl_prepare_acl_parameter nb_rx acl =
      let first = nb_rx - prefetch_offset in
      prepare_packets (nb_rx - first) first
        (prepare_packets first 0 (record acl { num_ipv4 = 0; num_ipv6 = 0 }))

-- The counters of the last loop of acl_process_pkts, and the array that it fills.
pub record Combined : Type 0 where
  pub n4 : ℕ
  pub n6 : ℕ
  pub k : ℕ
  pub hops : Table

-- What becomes of the result `res` for the packet with index `i`.
pub store_hop : ℕ → ℕ → Combined → Combined
store_hop i res c =
    if bit_and res acl_deny_signature == 0 && not (res == 0)
    then record c { hops = update c.hops i ((res - fwd_port_shift) % 65536) }
    else record c { hops = update c.hops i bad_port; k = c.k + 1 }

pub combine_one : AclSearch → ℕ → Combined → Combined
combine_one acl i c = elim (acl.types i) [
  | type_ipv4 ↦ store_hop i (acl.res_ipv4 c.n4) (record c { n4 = c.n4 + 1 })
  | type_ipv6 ↦ store_hop i (acl.res_ipv6 c.n6) (record c { n6 = c.n6 + 1 })
  | type_none ↦ store_hop i 0 c
]

-- `rounds` packets from index `i` on.
pub combine : AclSearch → ℕ → ℕ → Combined → Combined
combine acl zero i c = c
combine acl (suc rounds) i c = combine acl rounds (i + 1) (combine_one acl i c)

-- rte_acl_classify with the context of one family: the packets, their number, and the array of
-- results, which it returns written.
abbrev pub Classify : Type 0
Classify = Table → ℕ → Table → Table

-- `if (num) rte_acl_classify(..., data, res, num, ...)`
pub classify_any : Classify → Classify
classify_any classify pkts num res = if num == 0 then res else classify pkts num res

module _ (is_ipv4 is_ipv6 : ℕ → Bool) (classify4 classify6 : Classify) where
  -- `fresh` and `hops` are what the arrays hold at first; the number of packets to drop, and `hops`.
  pub acl_process_pkts : AclSearch → Table → Table → ℕ → ℕ × Table
  acl_process_pkts fresh pkts hops num =
      let s = l3fwd_acl_prepare_acl_parameter is_ipv4 is_ipv6 pkts num fresh in
      let found : AclSearch = record s {
        res_ipv4 = classify_any classify4 s.data_ipv4 s.num_ipv4 s.res_ipv4;
        res_ipv6 = classify_any classify6 s.data_ipv6 s.num_ipv6 s.res_ipv6;
      } in
      let c = combine found num 0 (record { n4 = 0; n6 = 0; k = 0; hops = hops }) in (c.k, c.hops)

-- The frame with both addresses: 8 bytes of the destination's at the front, and the 6 bytes of the
-- source's behind the sixth.
abbrev pub set_addresses : Frame → Frame → Frame → Frame
set_addresses dest_eth_addr port_eth_addr f i =
    if leb 6 i && ltb i 12 then port_eth_addr (i - 6) else if ltb i 8 then dest_eth_addr i else f i

module _ (d : TxDevice) (rx_burst_size : ℕ) (dest_eth_addr ports_eth_addr : ℕ → Frame)
    (pkts : Table) where
  -- The packet with index `j`.
  pub send_packet_single : ℕ → Packets × Table × Core d → Packets × Table × Core d
  send_packet_single j (p, hops, c) =
      let pkt = pkts j in
      let (f, hop) = rfc1812_process (p.is_ipv4 pkt) (p.frame pkt) (hops j) in
      let set = set_addresses (dest_eth_addr hop) (ports_eth_addr hop) f in
      if not (hop == bad_port)
      then (
        record p { frame = update p.frame pkt set },
        update hops j hop,
        (send_single_packet d rx_burst_size c pkt hop).1,
      )
      else (
        record p { frame = update p.frame pkt f },
        update hops j hop,
        record c { freed = c.freed ++ (pkt ∷ []) },
      )

  -- `rounds` packets from index `j` on.
  pub send_packets_single : ℕ → ℕ → Packets × Table × Core d → Packets × Table × Core d
  send_packets_single zero j s = s
  send_packets_single (suc rounds) j s = send_packets_single rounds (j + 1) (send_packet_single j s)

  -- With `val_eth` and `tx_burst_size` for send_packets_multi, whose counters are not used.
  pub acl_send_packets :
      (ℕ → Frame) → ℕ → Table → ℕ → ℕ → Packets × Table × Core d → Packets × Table × Core d
  acl_send_packets val_eth tx_burst_size junk num nb_drop (p, hops, c) =
      if nb_drop == 0
      then (let (stats, c1, p1, hops1) =
            send_packets_multi d tx_burst_size val_eth junk pkts num (p, hops) c in
          (p1, hops1, c1))
      else send_packets_single num 0 (p, hops, c)

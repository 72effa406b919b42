-- ===== src/L3fwd/Em.antt =====
-- l3fwd/l3fwd_em.c and l3fwd_em_hlm.h: forwarding by exact match on the five-tuple.
mod Tests
pub mod Populate
pub mod Routing
pub mod Kinds
pub mod Keys
pub mod Lookup
pub mod MainLoop
pub mod Ports
mod LoopTests
use dpdk_practice.Base.{
  ℕ, zero, suc, ◌+◌, ◌-◌, ◌*◌, ◌/◌, ◌%◌, Bool, not, ◌&&◌, ◌||◌, List, [], ◌∷◌, Option, none, some,
  ltb, leb, ◌==◌, if◌then◌else◌, bit_and, bit_or, update,
}
use dpdk_practice.L3fwd.Rfc1812.{Frame, load16, swap16, step3_lane, process_packet}
use dpdk_practice.L3fwd.Tx.Copy.{Table}
use dpdk_practice.L3fwd.Tx.{TxDevice, TxStats, Core}
use dpdk_practice.L3fwd.Multi.{Packets, finish, send_packets_multi}
use dpdk_practice.L3fwd.Lpm.{load32}

-- Packet types as the Ethernet library numbers them.
abbrev pub ptype_l3_mask : ℕ
ptype_l3_mask = 240

abbrev pub ptype_tcp : ℕ
ptype_tcp = 256

abbrev pub ptype_udp : ℕ
ptype_udp = 512

abbrev pub ptype_tcp_or_udp : ℕ
ptype_tcp_or_udp = bit_or ptype_tcp ptype_udp

abbrev pub ptype_ipv4 : ℕ
ptype_ipv4 = 16

abbrev pub ptype_ipv4_ext : ℕ
ptype_ipv4_ext = 48

abbrev pub ptype_ipv6 : ℕ
ptype_ipv6 = 64

abbrev pub ptype_ipv6_ext_unknown : ℕ
ptype_ipv6_ext_unknown = 224

-- What em_parse_ptype stores in `packet_type`: the Ethernet type at byte 12, and for IPv4 the
-- header's length and the protocol at byte 23, for IPv6 the next header at byte 20.
pub em_parse_ptype : Frame → ℕ
em_parse_ptype f =
    if load16 f 12 == swap16 0x0800
    then if f 14 % 16 * 4 == 20
      then if f 23 == 6
        then bit_or ptype_ipv4 ptype_tcp
        else if f 23 == 17
        then bit_or ptype_ipv4 ptype_udp
        else ptype_ipv4
      else ptype_ipv4_ext
    else if load16 f 12 == swap16 0x86dd
    then if f 20 == 6
      then bit_or ptype_ipv6 ptype_tcp
      else if f 20 == 17
      then bit_or ptype_ipv6 ptype_udp
      else ptype_ipv6_ext_unknown
    else 0

-- A key as its 32-bit words.
abbrev pub Key : Type 0
Key = List ℕ

abbrev pub all_32_bits : ℕ
all_32_bits = 4294967295

-- The masks that the population of the tables sets: the protocol, the addresses and the ports.
abbrev pub mask0 : List ℕ
mask0 = 65280 ∷ all_32_bits ∷ all_32_bits ∷ all_32_bits ∷ []

abbrev pub mask1 : List ℕ
mask1 = 16711680 ∷ all_32_bits ∷ all_32_bits ∷ all_32_bits ∷ []

abbrev pub mask2 : List ℕ
mask2 = all_32_bits ∷ all_32_bits ∷ 0 ∷ 0 ∷ []

pub em_mask_key : Frame → ℕ → List ℕ → Key → Key
em_mask_key f at [] rest = rest
em_mask_key f at (m ∷ mask) rest = bit_and (load32 f at) m ∷ em_mask_key f (at + 4) mask rest

-- From the time to live on.
abbrev pub get_ipv4_5tuple : Frame → Key
get_ipv4_5tuple f = em_mask_key f 22 mask0 []

-- From the payload's length on; the second 16 bytes are taken as they are.
abbrev pub get_ipv6_5tuple : Frame → Key
get_ipv6_5tuple f =
    em_mask_key f 18 mask1
      (load32 f 34 ∷ load32 f 38 ∷ load32 f 42 ∷ load32 f 46 ∷ em_mask_key f 50 mask2 [])

-- rte_hash_add_key with the key's position, rte_hash_lookup, and rte_hash_lookup_bulk on a row of
-- keys, by the lane.
pub record Hash : Type 1 where
  pub State : Type 0
  pub add_key : State → Key → Option (ℕ × State)
  pub lookup : State → Key → Option ℕ
  pub lookup_bulk : State → (ℕ → Key) → ℕ → ℕ → Option ℕ

-- The hash tables of a core, and what `out_if` holds at each position.
pub record EmTables (h : Hash) : Type 0 where
  pub ipv4_lookup_struct : h.State
  pub ipv6_lookup_struct : h.State
  pub ipv4_l3fwd_out_if : Table
  pub ipv6_l3fwd_out_if : Table

abbrev pub out_or : Table → Option ℕ → ℕ → ℕ
out_or out_if none portid = portid
out_or out_if (some ret) portid = out_if ret

-- The packets of a burst with their types and their `port`.
pub record EmPackets : Type 0 where
  pub packets : Packets
  pub packet_type : Table
  pub port : Table

-- `EM_HASH_LOOKUP_COUNT` ports are stored from index `j` on.
abbrev pub store8 : Table → ℕ → (ℕ → ℕ) → Table
store8 t j v i = if leb j i && ltb i (j + 8) then v (i - j) else t i

-- The conjunction of the types of `n` packets from index `j` on.
pub and_types : Table → Table → ℕ → ℕ → ℕ → ℕ
and_types packet_type pkts zero j pkt_type = pkt_type
and_types packet_type pkts (suc n) j pkt_type =
    and_types packet_type pkts n (j + 1) (bit_and pkt_type (packet_type (pkts j)))

abbrev pub is_kind : ℕ → ℕ → Bool
is_kind l3 t = not (bit_and t ptype_tcp_or_udp == 0) && bit_and t ptype_l3_mask == l3

-- `shift n` is `1 << n`, which C only says for small `n`.
module _ (h : Hash) (shift : ℕ → ℕ) (enabled_port_mask max_ethports : ℕ) where
  abbrev pub checked_port : ℕ → ℕ → ℕ
  checked_port dst_port portid =
      if leb max_ethports dst_port || bit_and enabled_port_mask (shift dst_port) == 0
      then portid
      else dst_port

  module _ (t : EmTables h) (m : EmPackets) where
    abbrev pub em_get_ipv4_dst_port : Frame → ℕ → ℕ
    em_get_ipv4_dst_port f portid =
        out_or t.ipv4_l3fwd_out_if (h.lookup t.ipv4_lookup_struct (get_ipv4_5tuple f)) portid

    abbrev pub em_get_ipv6_dst_port : Frame → ℕ → ℕ
    em_get_ipv6_dst_port f portid =
        out_or t.ipv6_l3fwd_out_if (h.lookup t.ipv6_lookup_struct (get_ipv6_5tuple f)) portid

    pub em_get_dst_port : ℕ → ℕ → ℕ
    em_get_dst_port pkt portid =
        if is_kind ptype_ipv4 (m.packet_type pkt)
        then checked_port (em_get_ipv4_dst_port (m.packets.frame pkt) portid) portid
        else if is_kind ptype_ipv6 (m.packet_type pkt)
        then checked_port (em_get_ipv6_dst_port (m.packets.frame pkt) portid) portid
        else portid

    -- Eight packets of one version from index `j` on.
    pub em_get_dst_port_ipv4x_n : Table → ℕ → ℕ → Table → Table
    em_get_dst_port_ipv4x_n pkts portid j dst_port =
        let key_array : ℕ → Key = λ i. get_ipv4_5tuple (m.packets.frame (pkts (j + i))) in
        let ret : ℕ → Option ℕ = h.lookup_bulk t.ipv4_lookup_struct key_array 8 in
        store8 dst_port j (λ i. checked_port (out_or t.ipv4_l3fwd_out_if (ret i) portid) portid)

    pub em_get_dst_port_ipv6x_n : Table → ℕ → ℕ → Table → Table
    em_get_dst_port_ipv6x_n pkts portid j dst_port =
        let key_array : ℕ → Key = λ i. get_ipv6_5tuple (m.packets.frame (pkts (j + i))) in
        let ret : ℕ → Option ℕ = h.lookup_bulk t.ipv6_lookup_struct key_array 8 in
        store8 dst_port j (λ i. checked_port (out_or t.ipv6_l3fwd_out_if (ret i) portid) portid)

    -- The lookups of the block of eight that starts at index `j`.
    pub em_block : Table → ℕ → ℕ → Table → Table
    em_block pkts portid j dst_port =
        let pkt_type = and_types m.packet_type pkts 8 j (bit_or ptype_l3_mask ptype_tcp_or_udp) in
        if is_kind ptype_ipv4 pkt_type
        then em_get_dst_port_ipv4x_n pkts portid j dst_port
        else if is_kind ptype_ipv6 pkt_type
        then em_get_dst_port_ipv6x_n pkts portid j dst_port
        else store8 dst_port j (λ i. em_get_dst_port (pkts (j + i)) portid)

  -- The third step changes the frames, so that each block reads the frames of the one before.
  pub em_blocks :
      (ℕ → Frame) → Bool → EmTables h → Table → ℕ → ℕ → ℕ → EmPackets × Table → EmPackets × Table
  em_blocks val_eth do_step3 t pkts portid zero j s = s
  em_blocks val_eth do_step3 t pkts portid (suc blocks) j (m, dst_port) =
      let found = em_block t m pkts portid j dst_port in
      let (p, finished) = finish (step3_lane val_eth) pkts 8 j (m.packets, found) in
      em_blocks val_eth do_step3 t pkts portid blocks (j + 8)
        (if do_step3 then (record m { packets = p }, finished) else (m, found))

  -- One of the packets behind the blocks: process_packet is given the packet's own port in place
  -- of the one that was found.
  pub em_last_step : (ℕ → Frame) → Table → ℕ → EmPackets → EmPackets
  em_last_step val_eth pkts j m =
      let pkt = pkts j in
      let (f, dp) =
        process_packet val_eth (m.packets.is_ipv4 pkt) (m.packets.frame pkt) (m.port pkt) in
      record m {
        packets = record m.packets { frame = update m.packets.frame pkt f };
        port = update m.port pkt dp;
      }

  pub em_last :
      (ℕ → Frame) → Bool → EmTables h → Table → ℕ → ℕ → ℕ → EmPackets × Table → EmPackets × Table
  em_last val_eth do_step3 t pkts portid zero j s = s
  em_last val_eth do_step3 t pkts portid (suc left) j (m, dst_port) =
      em_last val_eth do_step3 t pkts portid left (j + 1) (
        if do_step3 then em_last_step val_eth pkts j m else m,
        update dst_port j (em_get_dst_port t m (pkts j) portid),
      )

  pub l3fwd_em_process_packets :
      (ℕ → Frame) → ℕ → Table → ℕ → EmTables h → Bool → EmPackets × Table → EmPackets × Table
  l3fwd_em_process_packets val_eth nb_rx pkts portid t do_step3 s =
      em_last val_eth do_step3 t pkts portid (nb_rx % 8) (nb_rx / 8 * 8)
        (em_blocks val_eth do_step3 t pkts portid (nb_rx / 8) 0 s)

  -- `junk` is what `pnum` holds at first.
  pub l3fwd_em_send_packets :
      (d : TxDevice)
      → ℕ
      → (ℕ → Frame)
      → Table
      → ℕ
      → Table
      → ℕ
      → EmTables h
      → EmPackets × Table
      → Core d
      → TxStats × Core d × Packets × Table
  l3fwd_em_send_packets d tx_burst_size val_eth junk nb_rx pkts_burst portid t s c =
      let (m, dst_port) = l3fwd_em_process_packets val_eth nb_rx pkts_burst portid t Bool.false s in
      send_packets_multi d tx_burst_size val_eth junk pkts_burst nb_rx (m.packets, dst_port) c

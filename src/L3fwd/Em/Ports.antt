-- ===== src/L3fwd/Em/Ports.antt =====
-- l3fwd/l3fwd_em_hlm.h: the ports of a burst are in range, whatever the tables hold.
use dpdk_practice.Base.{
  ℕ, zero, suc, ◌+◌, ◌-◌, ◌*◌, ◌/◌, ◌%◌, ◌≤◌, ◌<◌, Bool, true, false, Option, leb, ◌==◌, ◌||◌,
  bit_and, bit_or, update, update_self, update_ne, ◌≡◌, refl, ap, arith, inl, inr, Bool-cases,
}
use dpdk_practice.L3fwd.Rfc1812.{Frame}
use dpdk_practice.L3fwd.Tx.Copy.{Table}
use dpdk_practice.L3fwd.Multi.Balance.{GoodPorts}
use dpdk_practice.L3fwd.Em.Lookup.{store8_in, store8_before, before_or_in, last_or_before}
use dpdk_practice.L3fwd.Em.{
  Key, Hash, EmTables, EmPackets, out_or, get_ipv4_5tuple, get_ipv6_5tuple, store8, is_kind,
  and_types, ptype_ipv4, ptype_ipv6, ptype_l3_mask, ptype_tcp_or_udp, checked_port, em_get_dst_port,
  em_get_dst_port_ipv4x_n, em_get_dst_port_ipv6x_n, em_block, em_blocks, em_last,
  l3fwd_em_process_packets,
}

-- The first `j` entries are ports below `n`.
abbrev Below : ℕ → ℕ → Table → Type 0
Below n j dst_port = (i : ℕ) → i < j → dst_port i < n

store8-Below :
    (n j : ℕ) (dst_port : Table) (v : ℕ → ℕ)
    → Below n j dst_port
    → ((i : ℕ) → v i < n)
    → Below n (j + 8) (store8 dst_port j v)
store8-Below n j dst_port v below lanes i lt = elim (before_or_in j i lt) [
  | inl q ↦ omega (arith, store8_before dst_port j i v q, below i q)
  | inr q ↦ omega (arith, store8_in dst_port j i v q lt, lanes (i - j))
]

update-Below :
    (n j v : ℕ) (dst_port : Table)
    → Below n j dst_port
    → v < n
    → Below n (j + 1) (update dst_port j v)
update-Below n j v dst_port below less i lt = elim (last_or_before j i lt) [
  | inl q ↦ omega (arith, ap (update dst_port j v) q, update_self dst_port j v, less)
  | inr q ↦ omega (arith, update_ne dst_port j v i (λ e. omega (arith, e, q)), below i q)
]

module _ (h : Hash) (shift : ℕ → ℕ) (enabled_port_mask max_ethports : ℕ) (t : EmTables h)
    (pkts : Table) (portid n : ℕ) (enough : max_ethports ≤ n) (lt : portid < n) where
  in_range : (found : ℕ) (a b : Bool) → leb max_ethports found ≡ a → (a || b) ≡ false → found < n
  in_range found false b e taken = ground (arith, enough)
  in_range found true b e taken = absurd (cc)

  checked_port-lt :
      (found : ℕ) → checked_port h shift enabled_port_mask max_ethports found portid < n
  checked_port-lt found =
      elim (Bool-cases (leb max_ethports found || bit_and enabled_port_mask (shift found) == 0)) [
        | inl refused ↦ rw refused lt
        | inr taken ↦ rw taken (in_range found (leb max_ethports found) _ refl taken)
      ]

  em_get_dst_port-lt :
      (m : EmPackets) (pkt : ℕ)
      → em_get_dst_port h shift enabled_port_mask max_ethports t m pkt portid < n
  unfolding em_get_dst_port
  em_get_dst_port-lt m pkt = elim (Bool-cases (is_kind ptype_ipv4 (m.packet_type pkt))) [
    | inl four ↦ rw (em_get_dst_port, four) (checked_port-lt _)
    | inr other ↦ elim (Bool-cases (is_kind ptype_ipv6 (m.packet_type pkt))) [
      | inl six ↦ rw (em_get_dst_port, other, six) (checked_port-lt _)
      | inr neither ↦ rw (em_get_dst_port, other, neither) lt
    ]
  ]

  ipv4x_n-Below :
      (m : EmPackets) (j : ℕ) (dst_port : Table)
      → Below n j dst_port
      → Below n (j + 8) (
          em_get_dst_port_ipv4x_n h shift enabled_port_mask max_ethports t m pkts portid j dst_port)
  unfolding em_get_dst_port_ipv4x_n
  ipv4x_n-Below m j dst_port below =
      let keys : ℕ → Key = λ i. get_ipv4_5tuple (m.packets.frame (pkts (j + i))) in
      let ret : ℕ → Option ℕ = h.lookup_bulk t.ipv4_lookup_struct keys 8 in
      let found : ℕ → ℕ = λ i. out_or t.ipv4_l3fwd_out_if (ret i) portid in
      store8-Below n j dst_port
        (λ i. checked_port h shift enabled_port_mask max_ethports (found i) portid) below
        (λ i. checked_port-lt (found i))

  ipv6x_n-Below :
      (m : EmPackets) (j : ℕ) (dst_port : Table)
      → Below n j dst_port
      → Below n (j + 8) (
          em_get_dst_port_ipv6x_n h shift enabled_port_mask max_ethports t m pkts portid j dst_port)
  unfolding em_get_dst_port_ipv6x_n
  ipv6x_n-Below m j dst_port below =
      let keys : ℕ → Key = λ i. get_ipv6_5tuple (m.packets.frame (pkts (j + i))) in
      let ret : ℕ → Option ℕ = h.lookup_bulk t.ipv6_lookup_struct keys 8 in
      let found : ℕ → ℕ = λ i. out_or t.ipv6_l3fwd_out_if (ret i) portid in
      store8-Below n j dst_port
        (λ i. checked_port h shift enabled_port_mask max_ethports (found i) portid) below
        (λ i. checked_port-lt (found i))

  em_block-Below :
      (m : EmPackets) (j : ℕ) (dst_port : Table)
      → Below n j dst_port
      → Below n (j + 8) (em_block h shift enabled_port_mask max_ethports t m pkts portid j dst_port)
  unfolding em_block
  em_block-Below m j dst_port below = elim (Bool-cases (is_kind ptype_ipv4 kind)) [
    | inl four ↦ rw (em_block, four) (ipv4x_n-Below m j dst_port below)
    | inr other ↦ elim (Bool-cases (is_kind ptype_ipv6 kind)) [
      | inl six ↦ rw (em_block, other, six) (ipv6x_n-Below m j dst_port below)
      | inr mixed ↦
          rw (em_block, other, mixed)
            (store8-Below n j dst_port _ below (λ i. em_get_dst_port-lt m (pkts (j + i))))
    ]
  ]
    where
      kind : ℕ
      kind = and_types m.packet_type pkts 8 j (bit_or ptype_l3_mask ptype_tcp_or_udp)

  module _ (val_eth : ℕ → Frame) where
    em_blocks-Below :
        (blocks j : ℕ) (m : EmPackets) (dst_port : Table)
        → Below n j dst_port
        → Below n
            (j + blocks * 8)
            (em_blocks h shift enabled_port_mask max_ethports val_eth false t pkts portid blocks j
              (m, dst_port)).1
    unfolding em_blocks
    em_blocks-Below zero j m dst_port below i less = below i (omega arith)
    em_blocks-Below (suc blocks) j m dst_port below i less =
        em_blocks-Below blocks (j + 8) m _ (em_block-Below m j dst_port below) i (omega arith)

    em_last-Below :
        (left j : ℕ) (m : EmPackets) (dst_port : Table)
        → Below n j dst_port
        → Below n
            (j + left)
            (em_last h shift enabled_port_mask max_ethports val_eth false t pkts portid left j
              (m, dst_port)).1
    unfolding em_last
    em_last-Below zero j m dst_port below i less = below i (omega arith)
    em_last-Below (suc left) j m dst_port below i less =
        em_last-Below left (j + 1) m _
          (update-Below n j _ dst_port below (em_get_dst_port-lt m (pkts j))) i (omega arith)

    pub process_packets-GoodPorts :
        (m : EmPackets) (nb_rx : ℕ) (fresh : Table)
        → GoodPorts n nb_rx
            (l3fwd_em_process_packets h shift enabled_port_mask max_ethports val_eth nb_rx pkts
              portid t false
              (m, fresh)).1
    unfolding l3fwd_em_process_packets
    process_packets-GoodPorts m nb_rx fresh i less =
        let s =
          em_blocks h shift enabled_port_mask max_ethports val_eth false t pkts portid (nb_rx / 8) 0
            (m, fresh) in
        let blocks = em_blocks-Below (nb_rx / 8) 0 m fresh (λ k none. absurd (omega arith)) in
        inl (
          em_last-Below (nb_rx % 8) (nb_rx / 8 * 8) s.0 s.1 (λ k before. blocks k (omega arith)) i
            (omega arith))

-- ===== src/L3fwd/Em/Lookup.antt =====
-- l3fwd/l3fwd_em_hlm.h: the lookup by eights finds the port that em_get_dst_port finds.
use dpdk_practice.Base.{
  ℕ, zero, suc, ◌+◌, ◌-◌, ◌*◌, ◌/◌, ◌%◌, ◌≤◌, ◌<◌, true, false, ◌&&◌, Option, ltb, leb, update,
  update_self, update_ne, ◌≡◌, refl, sym, ap, ◌∙◌, arith, subst, ◌⊎◌, inl, inr, Bool-cases,
}
use dpdk_practice.Base.Bits.{test_bit}
use dpdk_practice.L3fwd.Rfc1812.{Frame}
use dpdk_practice.L3fwd.Tx.Copy.{Table}
use dpdk_practice.L3fwd.Em.Kinds.{
  is_plain, block_type, plain_ipv4, plain_ipv6, block-bits, em_parse_ptype-plain,
}
use dpdk_practice.L3fwd.Em.{
  Key, get_ipv4_5tuple, get_ipv6_5tuple, Hash, EmTables, EmPackets, out_or, store8, is_kind,
  ptype_ipv4, ptype_ipv6, checked_port, em_parse_ptype, em_get_dst_port, em_get_dst_port_ipv4x_n,
  em_get_dst_port_ipv6x_n, em_block, em_blocks, em_last, l3fwd_em_process_packets,
}

pub store8_in : (t : Table) (j i : ℕ) (v : ℕ → ℕ) → j ≤ i → i < j + 8 → store8 t j v i ≡ v (i - j)
store8_in t j i v lo hi =
    (let inside : (leb j i && ltb i (j + 8)) ≡ true = ground arith in rw inside refl)

pub store8_before : (t : Table) (j i : ℕ) (v : ℕ → ℕ) → i < j → store8 t j v i ≡ t i
store8_before t j i v lt =
    (let outside : (leb j i && ltb i (j + 8)) ≡ false = ground arith in rw outside refl)

pub before_or_in : (j i : ℕ) → i < j + 8 → (i < j) ⊎ (j ≤ i)
before_or_in j i lt = ground arith

pub last_or_before : (n i : ℕ) → i < n + 1 → (i ≡ n) ⊎ (i < n)
last_or_before n i lt = ground arith

-- What rte_hash_lookup_bulk is documented to do: each key is looked up on its own.
abbrev pub LooksUpEach : Hash → Type 0
LooksUpEach h =
    (s : h.State) (keys : ℕ → Key) (n i : ℕ)
    → i < n
    → h.lookup_bulk s keys n i ≡ h.lookup s (keys i)

pub not_four : (t : ℕ) → is_kind ptype_ipv6 t ≡ true → is_kind ptype_ipv4 t ≡ false
not_four t h = ground (arith, h)

module _ (h : Hash) (each : LooksUpEach h) (shift : ℕ → ℕ) (enabled_port_mask max_ethports : ℕ)
    (t : EmTables h) (m : EmPackets) (pkts : Table) (portid : ℕ) where
  -- What a lookup for the packet with index `i` gives.
  abbrev port_of : ℕ → ℕ
  port_of i = em_get_dst_port h shift enabled_port_mask max_ethports t m (pkts i) portid

  abbrev checked : ℕ → ℕ
  checked p = checked_port h shift enabled_port_mask max_ethports p portid

  pub ipv4-eq :
      (i : ℕ)
      → is_kind ptype_ipv4 (m.packet_type (pkts i)) ≡ true
      → checked (
          out_or t.ipv4_l3fwd_out_if
            (h.lookup t.ipv4_lookup_struct (get_ipv4_5tuple (m.packets.frame (pkts i))))
            portid)
        ≡ port_of i
  unfolding em_get_dst_port
  ipv4-eq i four = rw (em_get_dst_port, four) refl

  pub ipv6-eq :
      (i : ℕ)
      → is_kind ptype_ipv6 (m.packet_type (pkts i)) ≡ true
      → checked (
          out_or t.ipv6_l3fwd_out_if
            (h.lookup t.ipv6_lookup_struct (get_ipv6_5tuple (m.packets.frame (pkts i))))
            portid)
        ≡ port_of i
  unfolding em_get_dst_port
  ipv6-eq i six = rw (em_get_dst_port, not_four (m.packet_type (pkts i)) six, six) refl

  pub other-eq :
      (i : ℕ)
      → is_kind ptype_ipv4 (m.packet_type (pkts i)) ≡ false
      → is_kind ptype_ipv6 (m.packet_type (pkts i)) ≡ false
      → portid ≡ port_of i
  unfolding em_get_dst_port
  other-eq i not_ipv4 not_ipv6 = rw (em_get_dst_port, not_ipv4, not_ipv6) refl

  -- The first `n` packets have their ports.
  abbrev Found : ℕ → Table → Type 0
  Found n dst_port = (i : ℕ) → i < n → dst_port i ≡ port_of i

  store8-Found :
      (j : ℕ) (dst_port : Table) (v : ℕ → ℕ)
      → Found j dst_port
      → ((i : ℕ) → i < 8 → v i ≡ port_of (j + i))
      → Found (j + 8) (store8 dst_port j v)
  store8-Found j dst_port v found lanes i lt = elim (before_or_in j i lt) [
    | inl q ↦ store8_before dst_port j i v q ∙ found i q
    | inr q ↦
        store8_in dst_port j i v q lt
        ∙ lanes (i - j) (omega arith)
        ∙ ap port_of {x = j + (i - j)} (omega arith)
  ]

  -- The types are those that em_parse_ptype stores.
  module _
      (parsed : (i : ℕ) → m.packet_type (pkts i) ≡ em_parse_ptype (m.packets.frame (pkts i))) where
    plain : (i : ℕ) → is_plain (m.packet_type (pkts i)) ≡ true
    plain i = ap is_plain (parsed i) ∙ em_parse_ptype-plain (m.packets.frame (pkts i))

    lane_ipv4 :
        (j i : ℕ)
        → is_kind ptype_ipv4 (block_type m.packet_type pkts j) ≡ true
        → i < 8
        → is_kind ptype_ipv4 (m.packet_type (pkts (j + i))) ≡ true
    unfolding test_bit
    lane_ipv4 j i four lt =
        (let (b, l4) = block-bits m.packet_type pkts ptype_ipv4 4 j refl four i lt in
          plain_ipv4 (m.packet_type (pkts (j + i))) (plain (j + i)) b l4)

    lane_ipv6 :
        (j i : ℕ)
        → is_kind ptype_ipv6 (block_type m.packet_type pkts j) ≡ true
        → i < 8
        → is_kind ptype_ipv6 (m.packet_type (pkts (j + i))) ≡ true
    unfolding test_bit
    lane_ipv6 j i six lt =
        (let (b, l4) = block-bits m.packet_type pkts ptype_ipv6 6 j refl six i lt in
          plain_ipv6 (m.packet_type (pkts (j + i))) (plain (j + i)) b l4)

    ipv4x_n-Found :
        (j : ℕ) (dst_port : Table)
        → Found j dst_port
        → is_kind ptype_ipv4 (block_type m.packet_type pkts j) ≡ true
        → Found (j + 8) (
            em_get_dst_port_ipv4x_n h shift enabled_port_mask max_ethports t m pkts portid j
              dst_port)
    unfolding em_get_dst_port_ipv4x_n
    ipv4x_n-Found j dst_port found four =
        (let keys : ℕ → Key = λ i. get_ipv4_5tuple (m.packets.frame (pkts (j + i))) in
          let ret : ℕ → Option ℕ = h.lookup_bulk t.ipv4_lookup_struct keys 8 in
          store8-Found j dst_port (λ i. checked (out_or t.ipv4_l3fwd_out_if (ret i) portid)) found
            (λ i lt.
              ap (λ r. checked (out_or t.ipv4_l3fwd_out_if r portid))
                (each t.ipv4_lookup_struct keys 8 i lt)
              ∙ ipv4-eq (j + i) (lane_ipv4 j i four lt)))

    ipv6x_n-Found :
        (j : ℕ) (dst_port : Table)
        → Found j dst_port
        → is_kind ptype_ipv6 (block_type m.packet_type pkts j) ≡ true
        → Found (j + 8) (
            em_get_dst_port_ipv6x_n h shift enabled_port_mask max_ethports t m pkts portid j
              dst_port)
    unfolding em_get_dst_port_ipv6x_n
    ipv6x_n-Found j dst_port found six =
        (let keys : ℕ → Key = λ i. get_ipv6_5tuple (m.packets.frame (pkts (j + i))) in
          let ret : ℕ → Option ℕ = h.lookup_bulk t.ipv6_lookup_struct keys 8 in
          store8-Found j dst_port (λ i. checked (out_or t.ipv6_l3fwd_out_if (ret i) portid)) found
            (λ i lt.
              ap (λ r. checked (out_or t.ipv6_l3fwd_out_if r portid))
                (each t.ipv6_lookup_struct keys 8 i lt)
              ∙ ipv6-eq (j + i) (lane_ipv6 j i six lt)))

    em_block-Found :
        (j : ℕ) (dst_port : Table)
        → Found j dst_port
        → Found (j + 8) (em_block h shift enabled_port_mask max_ethports t m pkts portid j dst_port)
    unfolding em_block
    em_block-Found j dst_port found =
        elim (Bool-cases (is_kind ptype_ipv4 (block_type m.packet_type pkts j))) [
          | inl four ↦ rw (em_block, four) (ipv4x_n-Found j dst_port found four)
          | inr other ↦ elim (Bool-cases (is_kind ptype_ipv6 (block_type m.packet_type pkts j))) [
            | inl six ↦ rw (em_block, other, six) (ipv6x_n-Found j dst_port found six)
            | inr mixed ↦
                rw (em_block, other, mixed)
                  (store8-Found j dst_port (λ i. port_of (j + i)) found (λ i lt. refl))
          ]
        ]

    em_blocks-Found :
        (val_eth : ℕ → Frame) (blocks j : ℕ) (dst_port : Table)
        → Found j dst_port
        → let (m', ports) =
            em_blocks h shift enabled_port_mask max_ethports val_eth false t pkts portid blocks j
              (m, dst_port) in
          Found (j + blocks * 8) ports × (m' ≡ m)
    unfolding em_blocks
    em_blocks-Found val_eth zero j dst_port found = (λ i lt. found i (omega arith), refl)
    em_blocks-Found val_eth (suc blocks) j dst_port found =
        (let (rest, same) =
            em_blocks-Found val_eth blocks (j + 8) _ (em_block-Found j dst_port found) in
          (λ i lt. rest i (omega arith), same))

  em_last-Found :
      (val_eth : ℕ → Frame) (left j : ℕ) (dst_port : Table)
      → Found j dst_port
      → let (m', ports) =
          em_last h shift enabled_port_mask max_ethports val_eth false t pkts portid left j
            (m, dst_port) in
        Found (j + left) ports × (m' ≡ m)
  unfolding em_last
  em_last-Found val_eth zero j dst_port found = (λ i lt. found i (omega arith), refl)
  em_last-Found val_eth (suc left) j dst_port found =
      (let (rest, same) =
          em_last-Found val_eth left (j + 1) (update dst_port j (port_of j)) (λ i lt.
            elim (last_or_before j i lt) [
              | inl q ↦
                  ap (update dst_port j (port_of j)) q
                  ∙ update_self dst_port j _
                  ∙ ap port_of (sym q)
              | inr q ↦ update_ne dst_port j (port_of j) i (λ e. omega (arith, e, q)) ∙ found i q
            ]) in
        (λ i lt. rest i (omega arith), same))

  -- If rte_hash_lookup_bulk looks up each key on its own and the packets have the types that
  -- em_parse_ptype gives their frames, then l3fwd_em_process_packets without its third step, which
  -- tests the conjunction of eight types and looks up eight keys at once, then the rest one by one,
  -- gives each packet of the burst the port that em_get_dst_port gives it, and leaves the packets
  -- alone.
  pub l3fwd_em_process_packets-lem :
      (parsed : (i : ℕ) → m.packet_type (pkts i) ≡ em_parse_ptype (m.packets.frame (pkts i)))
      (val_eth : ℕ → Frame) (nb_rx : ℕ) (fresh : Table)
      → let (m', dst_port) =
          l3fwd_em_process_packets h shift enabled_port_mask max_ethports val_eth nb_rx pkts portid
            t false
            (m, fresh) in
        ((i : ℕ)
          → i < nb_rx
          → dst_port i ≡ em_get_dst_port h shift enabled_port_mask max_ethports t m (pkts i) portid)
        × (m' ≡ m)
  unfolding l3fwd_em_process_packets
  l3fwd_em_process_packets-lem parsed val_eth nb_rx fresh =
      (let s =
          em_blocks h shift enabled_port_mask max_ethports val_eth false t pkts portid (nb_rx / 8) 0
            (m, fresh) in
        let (found, same) =
          em_blocks-Found parsed val_eth (nb_rx / 8) 0 fresh (λ i lt. absurd (omega arith)) in
        let (rest, unchanged) =
          em_last-Found val_eth (nb_rx % 8) (nb_rx / 8 * 8) s.1 (λ i lt. found i (omega arith)) in
        subst
          (λ m0.
            let (m', dst_port) =
              em_last h shift enabled_port_mask max_ethports val_eth false t pkts portid (nb_rx % 8)
                (nb_rx / 8 * 8) (m0, s.1) in
            ((i : ℕ) → i < nb_rx → dst_port i ≡ port_of i) × (m' ≡ m))
          (sym same) (λ i lt. rest i (omega arith), unchanged))

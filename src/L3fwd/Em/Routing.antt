-- ===== src/L3fwd/Em/Routing.antt =====
-- l3fwd/l3fwd_em.c and l3fwd_em_hlm.h together: from the rules to the ports of a burst.
use dpdk_practice.Base.{
  ℕ, ◌<◌, Bool, false, List, none, some, if◌then◌else◌, ◌≡◌, refl, sym, ap, ◌∙◌, subst, inl, inr,
  Bool-cases,
}
use dpdk_practice.L3fwd.Rfc1812.{Frame}
use dpdk_practice.L3fwd.Routes.Em.{FiveTuple, EmRule}
use dpdk_practice.L3fwd.Tx.Copy.{Table}
use dpdk_practice.L3fwd.Em.{
  Key, Hash, EmTables, EmPackets, out_or, is_kind, ptype_ipv4, ptype_ipv6, checked_port,
  em_parse_ptype, get_ipv4_5tuple, get_ipv6_5tuple, em_get_dst_port, l3fwd_em_process_packets,
}
use dpdk_practice.L3fwd.Em.Keys.{
  IsBytes, ipv4_5tuple, ipv6_5tuple, get_ipv4_5tuple-eq, get_ipv6_5tuple-eq,
}
use dpdk_practice.L3fwd.Em.Lookup.{
  LooksUpEach, ipv4-eq, ipv6-eq, other-eq, l3fwd_em_process_packets-lem,
}
use dpdk_practice.L3fwd.Em.Populate.{
  convert_ipv4_5tuple, convert_ipv6_5tuple, populate_flow, populate_ipv4_flow_into_table,
  populate_ipv6_flow_into_table,
}
use dpdk_practice.L3fwd.Em.Populate.Laws.{HashLaws, last_match, Populated, populate_flow-Populated}

abbrev pub IsEmpty : (h : Hash) → h.State → Type 0
IsEmpty h table = (key : Key) → h.lookup table key ≡ none

module _ (h : Hash) (each : LooksUpEach h) (laws : HashLaws h) (shift : ℕ → ℕ)
    (enabled_port_mask max_ethports : ℕ) (has_info : ℕ → Bool) where
  abbrev checked : ℕ → ℕ → ℕ
  checked = checked_port h shift enabled_port_mask max_ethports

  -- The port of the last enabled rule with the packet's five-tuple, if there is one and the port
  -- is enabled, and the incoming port otherwise.
  abbrev pub em_route : List (EmRule ℕ) → List (EmRule Frame) → Frame → ℕ → ℕ
  em_route rules4 rules6 f portid =
      if is_kind ptype_ipv4 (em_parse_ptype f)
      then checked
          (last_match h laws shift enabled_port_mask has_info convert_ipv4_5tuple rules4
            (convert_ipv4_5tuple (ipv4_5tuple f)) portid)
          portid
      else if is_kind ptype_ipv6 (em_parse_ptype f)
      then checked
          (last_match h laws shift enabled_port_mask has_info convert_ipv6_5tuple rules6
            (convert_ipv6_5tuple (ipv6_5tuple f)) portid)
          portid
      else portid

  -- A table that was empty before gives a key the port of its rule.
  populated-port :
      {A : Type 0} (convert : FiveTuple A → Key) (rules : List (EmRule A)) (table added : h.State)
      (fresh out_if : Table)
      → IsEmpty h table
      → populate_flow h shift enabled_port_mask has_info convert rules (table, fresh)
        ≡ some (added, out_if)
      → (key : Key) (portid : ℕ)
      → out_or out_if (h.lookup added key) portid
        ≡ last_match h laws shift enabled_port_mask has_info convert rules key portid
  populated-port convert rules table added fresh out_if empty e key portid =
      subst (Populated h laws shift enabled_port_mask has_info convert rules (table, fresh)) e
        (populate_flow-Populated h laws shift enabled_port_mask has_info convert rules
          (table, fresh))
        key portid
      ∙ ap
          (λ r.
            last_match h laws shift enabled_port_mask has_info convert rules key
              (out_or fresh r portid))
          (empty key)

  -- The tables of a core as the rules have filled them.
  pub record IsFilled (rules4 : List (EmRule ℕ)) (rules6 : List (EmRule Frame)) (t : EmTables h)
      : Type 0 where
    pub empty4 : h.State
    pub empty6 : h.State
    pub fresh4 : Table
    pub fresh6 : Table
    pub nothing4 : IsEmpty h empty4
    pub nothing6 : IsEmpty h empty6
    pub filled4 :
        populate_ipv4_flow_into_table h shift enabled_port_mask has_info rules4 (empty4, fresh4)
        ≡ some (t.ipv4_lookup_struct, t.ipv4_l3fwd_out_if)
    pub filled6 :
        populate_ipv6_flow_into_table h shift enabled_port_mask has_info rules6 (empty6, fresh6)
        ≡ some (t.ipv6_lookup_struct, t.ipv6_l3fwd_out_if)

  module _ (rules4 : List (EmRule ℕ)) (rules6 : List (EmRule Frame)) (t : EmTables h)
      (filled : IsFilled rules4 rules6 t) where
    ipv4-port :
        (f : Frame) (portid : ℕ)
        → IsBytes f
        → out_or t.ipv4_l3fwd_out_if (h.lookup t.ipv4_lookup_struct (get_ipv4_5tuple f)) portid
          ≡ last_match h laws shift enabled_port_mask has_info convert_ipv4_5tuple rules4
              (convert_ipv4_5tuple (ipv4_5tuple f))
              portid
    unfolding populate_ipv4_flow_into_table
    ipv4-port f portid bytes =
        ap (λ k. out_or t.ipv4_l3fwd_out_if (h.lookup t.ipv4_lookup_struct k) portid)
          (get_ipv4_5tuple-eq f bytes)
        ∙ populated-port convert_ipv4_5tuple rules4 filled.empty4 t.ipv4_lookup_struct filled.fresh4
            t.ipv4_l3fwd_out_if filled.nothing4 filled.filled4 (convert_ipv4_5tuple (ipv4_5tuple f))
            portid

    ipv6-port :
        (f : Frame) (portid : ℕ)
        → IsBytes f
        → out_or t.ipv6_l3fwd_out_if (h.lookup t.ipv6_lookup_struct (get_ipv6_5tuple f)) portid
          ≡ last_match h laws shift enabled_port_mask has_info convert_ipv6_5tuple rules6
              (convert_ipv6_5tuple (ipv6_5tuple f))
              portid
    unfolding populate_ipv6_flow_into_table
    ipv6-port f portid bytes =
        ap (λ k. out_or t.ipv6_l3fwd_out_if (h.lookup t.ipv6_lookup_struct k) portid)
          (get_ipv6_5tuple-eq f bytes)
        ∙ populated-port convert_ipv6_5tuple rules6 filled.empty6 t.ipv6_lookup_struct filled.fresh6
            t.ipv6_l3fwd_out_if filled.nothing6 filled.filled6 (convert_ipv6_5tuple (ipv6_5tuple f))
            portid

    module _ (m : EmPackets) (pkts : Table)
        (parsed : (i : ℕ) → m.packet_type (pkts i) ≡ em_parse_ptype (m.packets.frame (pkts i)))
        (bytes : (pkt : ℕ) → IsBytes (m.packets.frame pkt)) (portid : ℕ) where
      abbrev frame : ℕ → Frame
      frame i = m.packets.frame (pkts i)

      abbrev kind : ℕ → ℕ
      kind i = em_parse_ptype (frame i)

      em_get_dst_port-route :
          (i : ℕ)
          → em_get_dst_port h shift enabled_port_mask max_ethports t m (pkts i) portid
            ≡ em_route rules4 rules6 (m.packets.frame (pkts i)) portid
      em_get_dst_port-route i = elim (Bool-cases (is_kind ptype_ipv4 (kind i))) [
        | inl four ↦
            sym (
              ipv4-eq h each shift enabled_port_mask max_ethports t m pkts portid i
                (ap (is_kind ptype_ipv4) (parsed i) ∙ four))
            ∙ rw four (ap (λ p. checked p portid) (ipv4-port (frame i) portid (bytes (pkts i))))
        | inr other ↦ elim (Bool-cases (is_kind ptype_ipv6 (kind i))) [
          | inl six ↦
              sym (
                ipv6-eq h each shift enabled_port_mask max_ethports t m pkts portid i
                  (ap (is_kind ptype_ipv6) (parsed i) ∙ six))
              ∙ rw (other, six)
                  (ap (λ p. checked p portid) (ipv6-port (frame i) portid (bytes (pkts i))))
          | inr neither ↦
              sym (
                other-eq h each shift enabled_port_mask max_ethports t m pkts portid i
                  (ap (is_kind ptype_ipv4) (parsed i) ∙ other)
                  (ap (is_kind ptype_ipv6) (parsed i) ∙ neither))
              ∙ rw (other, neither) refl
        ]
      ]

      -- Let the hash tables keep each key at a position of its own and look up each key of a bulk
      -- on its own, let populate_ipv4_flow_into_table and populate_ipv6_flow_into_table have filled
      -- two empty tables with the rules, let the frames hold bytes and the packets have the types
      -- that em_parse_ptype gives their frames. Then l3fwd_em_process_packets without its third
      -- step, by eights and then one by one, gives each packet of the burst the port of the last
      -- enabled rule with the key of the packet's five-tuple, or its incoming port if there is
      -- none, the port is not enabled or the packet is neither TCP nor UDP over a plain IPv4 or
      -- IPv6 header; and it leaves the packets alone.
      pub l3fwd_em_process_packets-route :
          (val_eth : ℕ → Frame) (nb_rx : ℕ) (fresh : Table)
          → let (m', dst_port) =
              l3fwd_em_process_packets h shift enabled_port_mask max_ethports val_eth nb_rx pkts
                portid t false
                (m, fresh) in
            ((i : ℕ)
              → i < nb_rx
              → dst_port i ≡ em_route rules4 rules6 (m.packets.frame (pkts i)) portid)
            × (m' ≡ m)
      l3fwd_em_process_packets-route val_eth nb_rx fresh =
          (let (found, same) =
              l3fwd_em_process_packets-lem h each shift enabled_port_mask max_ethports t m pkts
                portid parsed val_eth nb_rx fresh in
            (λ i lt. found i lt ∙ em_get_dst_port-route i, same))

-- ===== src/L3fwd/Setup/Routing.antt =====
-- l3fwd/l3fwd_lpm.c: from the routes to the ports of a burst.
use mathlib.Core.List.{Memᴰ}
use mathlib.Core.List.Memᴰ.{append_right}
use dpdk_practice.Base.{
  ℕ, ◌+◌, ◌≤◌, ◌<◌, ◌%◌, Bool, true, false, List, Option, none, some, ◌≡◌, sym, subst, ◌∙◌, arith,
  inl, inr, Bool-cases, some_inj, refl,
}
use dpdk_practice.L3fwd.Rfc1812.{Frame}
use dpdk_practice.L3fwd.Routes.{ntohl}
use dpdk_practice.L3fwd.Routes.Lpm.{LpmRouteRule}
use dpdk_practice.L3fwd.Tx.Copy.{Table}
use dpdk_practice.L3fwd.Multi.{Packets}
use dpdk_practice.L3fwd.Lpm.{
  load32, ipv4_dst_at, ipv6_dst_at, Tables, hop_or, lpm_get_dst_port, Step1,
  l3fwd_lpm_process_packets,
}
use dpdk_practice.L3fwd.Lpm.Lookup.{LooksUpEach, l3fwd_lpm_process_packets-lem}
use dpdk_practice.L3fwd.Setup.{RouteLibrary, ready, lpm_freed4, lpm_freed6, setup_lpm}
use dpdk_practice.L3fwd.Setup.Best.{LongestPrefix, Best, longest, hop_of, Routed}
use dpdk_practice.L3fwd.Setup.Laws.{SetUp, tables_filled, setup_lpm-SetUp}

module _ (shift : ℕ → ℕ) (enabled_port_mask : ℕ) (has_info : ℕ → Bool) {lib4 : RouteLibrary ℕ}
    {lib6 : RouteLibrary (ℕ → ℕ)} (law4 : LongestPrefix lib4) (law6 : LongestPrefix lib6)
    (routes4 : List (LpmRouteRule ℕ)) (routes6 : List (LpmRouteRule (ℕ → ℕ))) where
  -- What lpm_get_dst_port and the lookup by fours read.
  abbrev pub tables_of : lib4.State → lib6.State → ((ℕ → ℕ) → ℕ → ℕ → ℕ) → Tables
  tables_of t4 t6 lookupx4 = record {
    lookup4 = lib4.lookup t4;
    lookup6 = lib6.lookup t6;
    lookupx4 = lookupx4;
  }

  -- The port of the best route to the packet's destination, or the one that it came from.
  pub data RoutesTo (p : Packets) (pkt portid : ℕ) : ℕ → Type 0 where
    by_ipv4 :
        (b : Option (ℕ × ℕ))
        → p.is_ipv4 pkt ≡ true
        → Best shift enabled_port_mask has_info law4
            (ntohl (load32 (p.frame pkt) ipv4_dst_at))
            routes4
            b
        → RoutesTo p pkt portid (hop_or (hop_of b) portid)
    by_ipv6 :
        (b : Option (ℕ × ℕ))
        → p.is_ipv4 pkt ≡ false
        → p.is_ipv6 pkt ≡ true
        → Best shift enabled_port_mask has_info law6 (λ i. p.frame pkt (ipv6_dst_at + i)) routes6 b
        → RoutesTo p pkt portid (hop_or (hop_of b) portid)
    by_neither : p.is_ipv4 pkt ≡ false → p.is_ipv6 pkt ≡ false → RoutesTo p pkt portid portid

  abbrev Filled4 : lib4.State → Type 0
  Filled4 t4 = (x : ℕ) → Routed shift enabled_port_mask has_info law4 x routes4 (lib4.lookup t4 x)

  abbrev Filled6 : lib6.State → Type 0
  Filled6 t6 =
      (x : ℕ → ℕ) → Routed shift enabled_port_mask has_info law6 x routes6 (lib6.lookup t6 x)

  ready-filled :
      (t4 : lib4.State) (t6 : lib6.State)
      → SetUp shift enabled_port_mask has_info law4 law6 routes4 routes6 lpm_freed4 lpm_freed6
          (ready t4 t6)
      → Filled4 t4 × Filled6 t6
  ready-filled t4 t6 (tables_filled _ _ h4 h6) = (h4, h6)

  lpm_get_dst_port-RoutesTo :
      (t4 : lib4.State) (t6 : lib6.State) (lookupx4 : (ℕ → ℕ) → ℕ → ℕ → ℕ) (p : Packets)
      (pkt portid : ℕ)
      → Filled4 t4
      → Filled6 t6
      → RoutesTo p pkt portid (lpm_get_dst_port (tables_of t4 t6 lookupx4) p pkt portid)
  unfolding lpm_get_dst_port Routed
  lpm_get_dst_port-RoutesTo t4 t6 lookupx4 p pkt portid h4 h6 = elim (Bool-cases (p.is_ipv4 pkt)) [
    | inl four ↦
        (let (b, best, e) = h4 (ntohl (load32 (p.frame pkt) ipv4_dst_at)) in
          rw (lpm_get_dst_port, four, e) (by_ipv4 b four best))
    | inr other ↦ elim (Bool-cases (p.is_ipv6 pkt)) [
      | inl six ↦
          (let (b, best, e) = h6 (λ i. p.frame pkt (ipv6_dst_at + i)) in
            rw (lpm_get_dst_port, other, six, e) (by_ipv6 b other six best))
      | inr neither ↦ rw (lpm_get_dst_port, other, neither) (by_neither other neither)
    ]
  ]

  module _ (small4 : (r : LpmRouteRule ℕ) → Memᴰ r routes4 → r.if_out ≤ 255)
      (small6 : (r : LpmRouteRule (ℕ → ℕ)) → Memᴰ r routes6 → r.if_out ≤ 255) where
    Best-small :
        (x depth hop : ℕ)
        → Best shift enabled_port_mask has_info law4 x routes4 (some (depth, hop))
        → hop ≤ 255
    Best-small x depth hop (longest before route after e is front back) =
        small4 route (subst (Memᴰ route) (sym e) (append_right before (Memᴰ.head refl)))

    hop_of-small :
        (x hop : ℕ) (b : Option (ℕ × ℕ))
        → Best shift enabled_port_mask has_info law4 x routes4 b
        → some hop ≡ hop_of b
        → hop ≤ 255
    hop_of-small x hop none best e = absurd (cc e)
    hop_of-small x hop (some (depth, h)) best e =
        let le = Best-small x depth h best in omega (arith, le, some_inj e)

    hops_small :
        (t4 : lib4.State)
        → Filled4 t4
        → (ip hop : ℕ) → lib4.lookup t4 ip ≡ some hop
        → hop % 65536 < 32768
    unfolding Routed
    hops_small t4 h4 ip hop e =
        let (b, best, e') = h4 ip in
        let le = hop_of-small ip hop b best (sym e ∙ e') in omega (arith, le)

    -- Let the libraries keep prefix tables (a new one is empty, and a lookup finds the longest
    -- prefix that covers the address, the last added if there are several), rte_lpm_lookupx4 look
    -- up each lane on its own, the routes name ports up to 255 and the incoming port be below
    -- 32768. If setup_lpm has ended with both tables, then l3fwd_lpm_process_packets without its
    -- third step, by fours and then one by one, gives each IPv4 or IPv6 packet of the burst the
    -- port of the longest enabled route that covers its destination, the last of the array if there
    -- are several, and any other packet, or one without such a route, its incoming port; and it
    -- leaves the packets alone.
    pub l3fwd_lpm_process_packets-RoutesTo :
        (t4 : lib4.State) (t6 : lib6.State)
        → setup_lpm shift enabled_port_mask has_info lib4 lib6 routes4 routes6 ≡ ready t4 t6
        → (lookupx4 : (ℕ → ℕ) → ℕ → ℕ → ℕ) → LooksUpEach (tables_of t4 t6 lookupx4)
        → (p : Packets) (pkts : Table) (portid : ℕ) → portid < 32768
        → (val_eth : ℕ → Frame) (nb_rx : ℕ) (fresh : Step1) (t : Table)
        → let (p', dst_port) =
            l3fwd_lpm_process_packets
              (tables_of t4 t6 lookupx4)
              val_eth
              nb_rx
              pkts
              portid
              fresh
              false
              (p, t) in
          ((i : ℕ) → i < nb_rx → RoutesTo p (pkts i) portid (dst_port i)) × (p' ≡ p)
    l3fwd_lpm_process_packets-RoutesTo t4 t6 set_up lookupx4 each p pkts portid lt val_eth nb_rx
          fresh t =
        let (h4, h6) = ready-filled t4 t6 (
          subst
            (SetUp shift enabled_port_mask has_info law4 law6 routes4 routes6 lpm_freed4 lpm_freed6)
            set_up
            (setup_lpm-SetUp shift enabled_port_mask has_info law4 law6 routes4 routes6 small4
              small6)) in
        let (ports, same) =
          l3fwd_lpm_process_packets-lem (tables_of t4 t6 lookupx4) each (hops_small t4 h4) p pkts
            portid lt val_eth nb_rx fresh t in
        (
          λ i less.
              subst (RoutesTo p (pkts i) portid) (sym (ports i less))
                (lpm_get_dst_port-RoutesTo t4 t6 lookupx4 p (pkts i) portid h4 h6),
          same,
        )

-- ===== src/L3fwd/Acl/Process/Single.antt =====
-- l3fwd/l3fwd.h and l3fwd_acl.c: send_single_packet and send_packets_single send in order.
use dpdk_practice.Base.{
  ℕ, zero, suc, ◌+◌, ◌-◌, ◌≤◌, ◌<◌, false, [], ◌∷◌, ◌++◌, ◌==◌, if◌then◌else◌, ◌≡◌, ◌≢◌, refl, sym,
  ◌∙◌, subst, arith, inl, inr, update, update_self, update_ne, Bool-cases, ==_iff, ==_ne,
}
use dpdk_practice.L3fwd.Rfc1812.{Frame, bad_port, rfc1812_process}
use dpdk_practice.L3fwd.Tx.Copy.{Table}
use dpdk_practice.L3fwd.Tx.Laws.{Delivers, send_single_packet-Delivers, send_single_packet-room}
use dpdk_practice.L3fwd.Tx.Flows.{
  Flows, Flows-none, Flows-refl, Flows-trans, Flows-eq, Delivers-Flows, Delivers-Flows-other,
}
use dpdk_practice.L3fwd.Tx.{TxDevice, max_pkt_burst, Core, send_single_packet}
use dpdk_practice.L3fwd.Multi.Laws.{HasRoom}
use dpdk_practice.L3fwd.Multi.Flow.{to_port}
use dpdk_practice.L3fwd.Multi.Balance.{GoodPorts}
use dpdk_practice.L3fwd.Multi.{Packets}
use dpdk_practice.L3fwd.Polling.Burst.{multi-room, multi-Flows}
use dpdk_practice.L3fwd.Acl.Process.{send_packet_single, send_packets_single, acl_send_packets}

-- The first packet and the rest, with the destination of the first as it was or as it stays.
to_port-first :
    (pkts hops hops' : Table) (q j n : ℕ)
    → hops' j ≡ hops j
    → to_port pkts hops q j 1 ++ to_port pkts hops' q (j + 1) n ≡ to_port pkts hops' q j (suc n)
to_port-first pkts hops hops' q j n e = elim (Bool-cases (hops j == q)) [
  | inl mine ↦ rw (e, mine) refl
  | inr other ↦ rw (e, other) refl
]

module _ (d : TxDevice) where
  -- A packet for `port` as any port sees it.
  Delivers-Flows-to_port :
      {c c' : Core d} {sent dropped : ℕ} (pkts hops : Table) (j q : ℕ)
      → Delivers d c c' (hops j) (pkts j ∷ []) sent dropped
      → Flows d c c' q (to_port pkts hops q j 1)
  Delivers-Flows-to_port {c} {c'} {sent} {dropped} pkts hops j q del =
      elim (Bool-cases (hops j == q)) [
        | inl mine ↦ rw mine (
            Delivers-Flows d
              (subst (λ p. Delivers d c c' p (pkts j ∷ []) sent dropped) ((==_iff _ q).0 mine) del))
        | inr other ↦ rw other (Delivers-Flows-other d q (λ e. ==_ne _ q other (sym e)) del)
      ]

  module _ (dest_eth_addr ports_eth_addr : ℕ → Frame) (pkts : Table) where
    abbrev one : ℕ → Packets × Table × Core d → Packets × Table × Core d
    one = send_packet_single d max_pkt_burst dest_eth_addr ports_eth_addr pkts

    abbrev all : ℕ → ℕ → Packets × Table × Core d → Packets × Table × Core d
    all = send_packets_single d max_pkt_burst dest_eth_addr ports_eth_addr pkts

    -- Each packet's destination is written once.
    send_packet_single-others :
        (j i : ℕ) (s : Packets × Table × Core d) → i < j → (one j s).1 i ≡ s.1 i
    unfolding send_packet_single
    send_packet_single-others j i (p, hops, c) lt = elim (Bool-cases (hop == bad_port)) [
      | inl bad ↦ rw (send_packet_single, bad) (update_ne hops j hop i ne)
      | inr good ↦ rw (send_packet_single, good) (update_ne hops j hop i ne)
    ]
      where
        hop : ℕ
        hop = (rfc1812_process (p.is_ipv4 (pkts j)) (p.frame (pkts j)) (hops j)).1

        ne : i ≢ j
        ne e = omega (arith, lt, e)

    send_packets_single-others :
        (rounds j i : ℕ) (s : Packets × Table × Core d) → i < j → (all rounds j s).1 i ≡ s.1 i
    unfolding send_packets_single
    send_packets_single-others zero j i s lt = refl
    send_packets_single-others (suc rounds) j i s lt =
        send_packets_single-others rounds (j + 1) i (one j s) (omega (arith, lt))
        ∙ send_packet_single-others j i s lt

    send_packet_single-lem :
        (j : ℕ) (s : Packets × Table × Core d)
        → HasRoom d s.2
        → HasRoom d (one j s).2
          × ((q : ℕ) → q ≢ bad_port → Flows d s.2 (one j s).2 q (to_port pkts (one j s).1 q j 1))
    unfolding send_packet_single
    send_packet_single-lem j (p, hops, c) room = elim (Bool-cases (hop == bad_port)) [
      | inl bad ↦
          rw (send_packet_single, bad)
            (
              room,
              λ q ne.
                  let other : (update hops j hop j == q) ≡ false =
                    rw (update_self hops j hop) (ground (arith, bad, ne)) in
                  rw other (Flows-none d (pkts j ∷ []) refl refl refl refl refl),
            )
      | inr good ↦
          rw (send_packet_single, good)
            (
              send_single_packet-room d max_pkt_burst c (pkts j) hop room (omega arith),
              λ q ne. Delivers-Flows-to_port pkts (update hops j hop) j q delivered,
            )
    ]
      where
        hop : ℕ
        hop = (rfc1812_process (p.is_ipv4 (pkts j)) (p.frame (pkts j)) (hops j)).1

        delivered :
            let (sent, c1) = send_single_packet d max_pkt_burst c (pkts j) hop in
            Delivers d c c1
              (update hops j hop j)
              (pkts j ∷ [])
              sent
              (if c.tx_len hop + 1 == max_pkt_burst then max_pkt_burst - sent else 0)
        delivered =
            rw (update_self hops j hop)
              (send_single_packet-Delivers d max_pkt_burst c (pkts j) hop (room hop) (omega arith))

    pub send_packets_single-lem :
        (rounds j : ℕ) (s : Packets × Table × Core d)
        → HasRoom d s.2
        → HasRoom d (all rounds j s).2
          × ((q : ℕ)
              → q ≢ bad_port
              → Flows d s.2 (all rounds j s).2 q (to_port pkts (all rounds j s).1 q j rounds))
    unfolding send_packets_single
    send_packets_single-lem zero j s room = (room, λ q ne. Flows-refl d)
    send_packets_single-lem (suc rounds) j s room =
        let (room1, first) = send_packet_single-lem j s room in
        let (room2, rest) = send_packets_single-lem rounds (j + 1) (one j s) room1 in
        (
          room2,
          λ q ne.
              Flows-eq d
                (to_port-first pkts (one j s).1 (all rounds (j + 1) (one j s)).1 q j rounds
                  (send_packets_single-others rounds (j + 1) j (one j s) (omega arith)))
                (Flows-trans d (first q ne) (rest q ne)),
        )

module _ (d : TxDevice) (tx_burst_size : ℕ) (val_eth dest_eth_addr ports_eth_addr : ℕ → Frame)
    (pnum : Table) (n : ℕ) (few : n ≤ 65534) where
  -- In one burst or one by one.
  pub acl_send_packets-lem :
      (nb_rx nb_drop : ℕ) (pkts : Table) (p : Packets) (found : Table) (c : Core d)
      → 0 < nb_rx
      → nb_rx ≤ max_pkt_burst
      → HasRoom d c
      → GoodPorts n nb_rx found
      → let (p1, hops1, c1) =
          acl_send_packets d max_pkt_burst dest_eth_addr ports_eth_addr pkts val_eth tx_burst_size
            pnum nb_rx nb_drop
            (p, found, c) in
        HasRoom d c1 × ((q : ℕ) → q ≢ bad_port → Flows d c c1 q (to_port pkts hops1 q 0 nb_rx))
  unfolding acl_send_packets
  acl_send_packets-lem nb_rx nb_drop pkts p found c pos le room good =
      elim (Bool-cases (nb_drop == 0)) [
        | inl none_dropped ↦
            rw (acl_send_packets, none_dropped)
              (
                multi-room d tx_burst_size val_eth pnum pkts nb_rx n (p, found) c pos le few room
                    good,
                multi-Flows d tx_burst_size val_eth pnum pkts nb_rx n (p, found) c pos le few room
                    good,
              )
        | inr dropped ↦
            rw (acl_send_packets, dropped)
              (send_packets_single-lem d dest_eth_addr ports_eth_addr pkts nb_rx 0 (p, found, c)
                room)
      ]

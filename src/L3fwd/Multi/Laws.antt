-- ===== src/L3fwd/Multi/Laws.antt =====
-- l3fwd/l3fwd_sse.h: send_packets_multi against the runs that it is to make.
use dpdk_practice.Base.{
  ℕ, zero, suc, ◌+◌, ◌≤◌, ◌<◌, ltb, true, false, ◌==◌, List, ◌∷◌, ◌++◌, ◌≡◌, ◌≢◌, refl, sym, ap,
  ap₂, ◌∙◌, arith, subst, Bool-cases, ==_iff, ==_ne, inl, inr,
}
use dpdk_practice.L3fwd.Rfc1812.{Frame, bad_port}
use dpdk_practice.L3fwd.Group.Laws.{Grouped, group_end, group, group_ports-Grouped}
use dpdk_practice.L3fwd.Tx.Copy.{Table, slice}
use dpdk_practice.L3fwd.Tx.Laws.{Delivers}
use dpdk_practice.L3fwd.Tx.Packetsx4.{send_packetsx4-Sends}
use dpdk_practice.L3fwd.Tx.{TxDevice, TxStats, max_pkt_burst, Core}
use dpdk_practice.L3fwd.Multi.{
  Packets, finish_packets, add_stats, send_group, send_groups, send_packets_multi,
}

-- The buffers of all ports have room.
abbrev pub HasRoom : (d : TxDevice) → Core d → Type 0
HasRoom d c = (q : ℕ) → c.tx_len q < max_pkt_burst

module _ (d : TxDevice) (pkts_burst dst_port : Table) (nb_rx : ℕ) where
  -- Runs that hand on the packets from an index on, a group at a time: the packets of a group have
  -- one port; they are delivered to it, or freed and counted where it is BAD_PORT.
  pub data Sent : ℕ → TxStats × Core d → TxStats × Core d → Type 1 where
    all_sent : {s : TxStats × Core d} → Sent nb_rx s s
    sent_group :
        {j : ℕ} {stats : TxStats} {c c1 : Core d} {s' : TxStats × Core d} (k sent dropped : ℕ)
        → 0 < k
        → ((i : ℕ) → i < k → dst_port (j + i) ≡ dst_port j)
        → dst_port j ≢ bad_port
        → Delivers d c c1 (dst_port j) (slice pkts_burst j k) sent dropped
        → Sent (j + k) (add_stats stats (record { sent = sent; dropped = dropped }), c1) s'
        → Sent j (stats, c) s'
    freed_group :
        {j : ℕ} {stats : TxStats} {c : Core d} {s' : TxStats × Core d} (k : ℕ)
        → 0 < k
        → ((i : ℕ) → i < k → dst_port (j + i) ≡ bad_port)
        → Sent
            (j + k)
            (
              add_stats stats (record { sent = 0; dropped = k }),
              record c { freed = c.freed ++ slice pkts_burst j k },
            )
            s'
        → Sent j (stats, c) s'

slice_from : (m : Table) (j i n : ℕ) → slice (λ k. m (j + k)) i n ≡ slice m (j + i) n
slice_from m j i zero = refl
slice_from m j i (suc n) =
    ap₂ ◌∷◌ refl (slice_from m j (i + 1) n ∙ ap (λ k. slice m k n) (omega arith))

Grouped-le : {dst_port pnum : Table} {a b : ℕ} → Grouped dst_port pnum a b → a ≤ b
Grouped-le group_end = omega arith
Grouped-le (group pos same rest) = omega (arith, Grouped-le rest)

module _ (d : TxDevice) (tx_burst_size : ℕ) (pkts_burst dst_port pnum : Table) (nb_rx : ℕ)
    (most : nb_rx ≤ max_pkt_burst) where
  Delivers-HasRoom :
      {c c' : Core d} {port sent dropped : ℕ} {pkts : List ℕ}
      → Delivers d c c' port pkts sent dropped
      → c'.tx_len port < max_pkt_burst
      → HasRoom d c
      → HasRoom d c'
  Delivers-HasRoom {c} {c'} {port} del lt room q = elim (Bool-cases (q == port)) [
    | inl e ↦ subst (λ r. c'.tx_len r < max_pkt_burst) (sym ((==_iff q port).0 e)) lt
    | inr ne ↦ subst (λ n. n < max_pkt_burst) (sym ((del.others q (==_ne q port ne)).2)) (room q)
  ]

  Delivers-pkts :
      {c c' : Core d} {port sent dropped : ℕ} {xs ys : List ℕ}
      → xs ≡ ys
      → Delivers d c c' port xs sent dropped
      → Delivers d c c' port ys sent dropped
  Delivers-pkts {c} {c'} {port} {sent} {dropped} e del =
      subst (λ zs. Delivers d c c' port zs sent dropped) e del

  -- One round, for a group with a packet.
  send_group-Sent :
      (j : ℕ) (stats : TxStats) (c : Core d)
      → 0 < pnum j
      → j + pnum j ≤ nb_rx
      → ((i : ℕ) → i < pnum j → dst_port (j + i) ≡ dst_port j)
      → HasRoom d c
      → let s1 = send_group d tx_burst_size pkts_burst dst_port pnum j (stats, c) in
        HasRoom d s1.1
        × ((s' : TxStats × Core d)
            → Sent d pkts_burst dst_port nb_rx (j + pnum j) s1 s'
            → Sent d pkts_burst dst_port nb_rx j (stats, c) s')
  unfolding send_group
  send_group-Sent j stats c pos le same room = elim (Bool-cases (dst_port j == bad_port)) [
    | inl bad ↦
        rw bad
          (room, λ s' rest. freed_group (pnum j) pos (λ i lt. same i lt ∙ (==_iff _ _).0 bad) rest)
    | inr good ↦ rw good (
        let (del, lt) =
          send_packetsx4-Sends d tx_burst_size c (dst_port j) (λ i. pkts_burst (j + i)) (pnum j) pos
            (omega (arith, le, most)) (room (dst_port j)) in
        let del' =
          Delivers-pkts
            (slice_from pkts_burst j 0 (pnum j)
              ∙ ap (λ i. slice pkts_burst i (pnum j)) (omega arith))
            del in
        (
          Delivers-HasRoom del lt room,
          λ s' rest. sent_group (pnum j) _ _ pos same (==_ne _ _ good) del' rest,
        ))
  ]

  pub send_groups-Sent :
      (fuel j : ℕ) (stats : TxStats) (c : Core d)
      → Grouped dst_port pnum j nb_rx
      → nb_rx ≤ j + fuel
      → HasRoom d c
      → let s' = send_groups d tx_burst_size pkts_burst dst_port pnum fuel nb_rx j (stats, c) in
        Sent d pkts_burst dst_port nb_rx j (stats, c) s' × HasRoom d s'.1
  unfolding send_groups
  send_groups-Sent zero j stats c group_end enough room = (all_sent, room)
  send_groups-Sent zero j stats c (group pos same rest) enough room =
      absurd (omega (arith, Grouped-le rest))
  send_groups-Sent (suc fuel) j stats c group_end enough room =
      let stop : ltb j j ≡ false = ground arith in rw stop (all_sent, room)
  send_groups-Sent (suc fuel) j stats c (group pos same rest) enough room =
      let go : ltb j nb_rx ≡ true = ground (arith, Grouped-le rest) in
      let (stats1, c1) = send_group d tx_burst_size pkts_burst dst_port pnum j (stats, c) in
      let (room1, extend) = send_group-Sent j stats c pos (Grouped-le rest) same room in
      let (sent, room') =
        send_groups-Sent fuel (j + pnum j) stats1 c1 rest (omega (arith, enough, pos)) room1 in
      rw go (extend _ sent, room')

pub send_packets_multi-Sent :
    (d : TxDevice) (tx_burst_size : ℕ) (val_eth : ℕ → Frame) (junk pkts_burst : Table) (nb_rx : ℕ)
    (s : Packets × Table) (c : Core d)
    → 0 < nb_rx
    → nb_rx ≤ max_pkt_burst
    → HasRoom d c
    → (finish_packets val_eth pkts_burst nb_rx s).1 0 ≢ 65534
    → let (stats, c', p, dst_port) =
        send_packets_multi d tx_burst_size val_eth junk pkts_burst nb_rx s c in
      Sent d pkts_burst dst_port nb_rx 0 (record { sent = 0; dropped = 0 }, c) (stats, c')
      × HasRoom d c'
unfolding send_packets_multi
send_packets_multi-Sent d size val_eth junk pkts_burst nb_rx s c pos most room no_port =
    let dst_port = (finish_packets val_eth pkts_burst nb_rx s).1 in
    send_groups-Sent d size pkts_burst dst_port _ nb_rx most nb_rx 0 _ c
      (group_ports-Grouped dst_port junk max_pkt_burst nb_rx pos (omega (arith, most)) no_port)
      (omega arith) room

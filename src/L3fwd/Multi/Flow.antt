-- ===== src/L3fwd/Multi/Flow.antt =====
-- l3fwd/l3fwd_sse.h, send_packets_multi: what one port sees of a burst.
use dpdk_practice.Base.{
  ℕ, zero, suc, ◌+◌, ◌-◌, ◌≤◌, ◌<◌, false, ◌==◌, if◌then◌else◌, List, [], ◌∷◌, ◌++◌, ◌≡◌, ◌≢◌, refl,
  sym, ap, ap₂, ◌∙◌, arith, subst, Bool-cases, ==_iff, ==_ne, inl, inr, append-nil,
}
use dpdk_practice.L3fwd.Rfc1812.{Frame, bad_port}
use dpdk_practice.L3fwd.Tx.Copy.{Table, slice}
use dpdk_practice.L3fwd.Tx.Laws.{Delivers}
use dpdk_practice.L3fwd.Tx.Flows.{
  Flows, Flows-none, Flows-trans, Delivers-Flows, Delivers-Flows-other,
}
use dpdk_practice.L3fwd.Tx.{TxDevice, TxStats, max_pkt_burst, Core}
use dpdk_practice.L3fwd.Multi.Laws.{
  HasRoom, Sent, all_sent, sent_group, freed_group, send_packets_multi-Sent,
}
use dpdk_practice.L3fwd.Multi.{Packets, finish_packets, send_packets_multi}

-- The packets among the `n` from index `j` on that go to port `q`.
abbrev pub to_port : Table → Table → ℕ → ℕ → ℕ → List ℕ
to_port pkts_burst dst_port q j zero = []
to_port pkts_burst dst_port q j (suc n) =
    let rest = to_port pkts_burst dst_port q (j + 1) n in
    if dst_port j == q then pkts_burst j ∷ rest else rest

module _ (pkts_burst dst_port : Table) (q : ℕ) where
  to_port-add :
      (j a b : ℕ)
      → to_port pkts_burst dst_port q j (a + b)
        ≡ to_port pkts_burst dst_port q j a ++ to_port pkts_burst dst_port q (j + a) b
  to_port-add j zero b = ap₂ (to_port pkts_burst dst_port q) {y = j + 0} (omega arith) (omega arith)
  to_port-add j (suc a) b =
      let more =
        ap (to_port pkts_burst dst_port q j) {x = suc a + b} {y = suc (a + b)} (omega arith) in
      let next =
        to_port-add (j + 1) a b
        ∙ ap (λ k. to_port pkts_burst dst_port q (j + 1) a ++ to_port pkts_burst dst_port q k b)
            {y = j + suc a} (omega arith) in
      elim (Bool-cases (dst_port j == q)) [
        | inl mine ↦ more ∙ rw mine (ap (◌∷◌ (pkts_burst j)) next)
        | inr other ↦ more ∙ rw other next
      ]

  to_port_all :
      (j n : ℕ)
      → ((i : ℕ) → i < n → dst_port (j + i) ≡ q)
      → to_port pkts_burst dst_port q j n ≡ slice pkts_burst j n
  to_port_all j zero h = refl
  to_port_all j (suc n) h =
      let mine =
        (==_iff (dst_port j) q).1 (ap dst_port {y = j + 0} (omega arith) ∙ h 0 (omega arith)) in
      rw mine (
        ap (◌∷◌ (pkts_burst j)) (
          to_port_all (j + 1) n
            (λ i lt. ap dst_port {y = j + (i + 1)} (omega arith) ∙ h (i + 1) (omega arith))))

  to_port_none :
      (j n : ℕ) → ((i : ℕ) → i < n → dst_port (j + i) ≢ q) → to_port pkts_burst dst_port q j n ≡ []
  to_port_none j zero h = refl
  to_port_none j (suc n) h =
      let first : dst_port j ≢ q =
        λ e. h 0 (omega arith) (ap dst_port {x = j + 0} (omega arith) ∙ e) in
      let other : (dst_port j == q) ≡ false = ground (arith, first) in
      rw other (
        to_port_none (j + 1) n
          (λ i lt e. h (i + 1) (omega arith) (ap dst_port {x = j + (i + 1)} (omega arith) ∙ e)))

pub Sent-le :
    {d : TxDevice} {pkts_burst dst_port : Table} {nb_rx j : ℕ} {s s' : TxStats × Core d}
    → Sent d pkts_burst dst_port nb_rx j s s'
    → j ≤ nb_rx
Sent-le all_sent = omega arith
Sent-le (sent_group k _ _ _ _ _ _ rest) = omega (arith, Sent-le rest)
Sent-le (freed_group k _ _ rest) = omega (arith, Sent-le rest)

module _ (d : TxDevice) (pkts_burst dst_port : Table) (nb_rx q : ℕ) (good : q ≢ bad_port) where
  abbrev theirs : ℕ → ℕ → List ℕ
  theirs = to_port pkts_burst dst_port q

  -- The group of the next `k` packets, and the groups behind it.
  join_Flows :
      (j k : ℕ) {c c1 c' : Core d}
      → j + k ≤ nb_rx
      → Flows d c c1 q (theirs j k)
      → Flows d c1 c' q (theirs (j + k) (nb_rx - (j + k)))
      → Flows d c c' q (theirs j (nb_rx - j))
  join_Flows j k {c} {c1} {c'} le f g =
      subst (Flows d c c' q)
        (sym (to_port-add pkts_burst dst_port q j k (nb_rx - (j + k)))
          ∙ ap (theirs j) (omega (arith, le)))
        (Flows-trans d f g)

  group_Flows :
      (j k sent dropped : ℕ) {c c1 : Core d}
      → ((i : ℕ) → i < k → dst_port (j + i) ≡ dst_port j)
      → Delivers d c c1 (dst_port j) (slice pkts_burst j k) sent dropped
      → Flows d c c1 q (theirs j k)
  group_Flows j k sent dropped {c} {c1} same del = elim (Bool-cases (dst_port j == q)) [
    | inl mine ↦
        let e = (==_iff _ _).0 mine in
        subst (Flows d c c1 q) (sym (to_port_all pkts_burst dst_port q j k (λ i lt. same i lt ∙ e)))
          (Delivers-Flows d
            (subst (λ p. Delivers d c c1 p (slice pkts_burst j k) sent dropped) e del))
    | inr other ↦
        let ne = ==_ne _ _ other in
        subst (Flows d c c1 q)
          (sym (to_port_none pkts_burst dst_port q j k (λ i lt e. ne (sym (same i lt) ∙ e))))
          (Delivers-Flows-other d q (λ e. ne (sym e)) del)
  ]

  Sent-Flows :
      {j : ℕ} {s s' : TxStats × Core d}
      → Sent d pkts_burst dst_port nb_rx j s s'
      → Flows d s.1 s'.1 q (theirs j (nb_rx - j))
  Sent-Flows {j} {s} all_sent =
      subst (Flows d s.1 s.1 q) (ap (theirs nb_rx) {x = 0} (omega arith))
        (Flows-none d [] refl refl refl refl (sym (append-nil _)))
  Sent-Flows {j} (sent_group k sent dropped pos same port del rest) =
      join_Flows j k (Sent-le rest) (group_Flows j k sent dropped same del) (Sent-Flows rest)
  Sent-Flows {j} (freed_group k pos same rest) =
      join_Flows j k (Sent-le rest)
        (subst (Flows d _ _ q)
          (sym (to_port_none pkts_burst dst_port q j k (λ i lt e. good (sym e ∙ same i lt))))
          (Flows-none d (slice pkts_burst j k) refl refl refl refl refl))
        (Sent-Flows rest)

-- For a burst of 1 to MAX_PKT_BURST packets whose first destination is not 65534, on a core whose
-- buffers all have room, and a port other than BAD_PORT: the packets that waited for the port and
-- then those of the burst with this destination are, in this order, those offered to the device by
-- the calls of rte_eth_tx_burst on the port and its queue and those that wait now, the wire of the
-- port gains the first packets of each such call that the device took, and the rest of each is
-- freed.
pub send_packets_multi-Flows :
    (d : TxDevice) (tx_burst_size : ℕ) (val_eth : ℕ → Frame) (junk pkts_burst : Table) (nb_rx : ℕ)
    (s : Packets × Table) (c : Core d) (q : ℕ)
    → q ≢ bad_port
    → 0 < nb_rx
    → nb_rx ≤ max_pkt_burst
    → HasRoom d c
    → (finish_packets val_eth pkts_burst nb_rx s).1 0 ≢ 65534
    → let (stats, c', p, dst_port) =
        send_packets_multi d tx_burst_size val_eth junk pkts_burst nb_rx s c in
      Flows d c c' q (to_port pkts_burst dst_port q 0 nb_rx)
send_packets_multi-Flows d size val_eth junk pkts_burst nb_rx s c q good pos most room no_port =
    let r = send_packets_multi d size val_eth junk pkts_burst nb_rx s c in
    subst (λ n. Flows d c r.1 q (to_port pkts_burst r.3 q 0 n)) {x = nb_rx - 0} (omega arith)
      (Sent-Flows d pkts_burst r.3 nb_rx q good
        (send_packets_multi-Sent d size val_eth junk pkts_burst nb_rx s c pos most room no_port).0)

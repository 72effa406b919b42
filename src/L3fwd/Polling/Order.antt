-- ===== src/L3fwd/Polling/Order.antt =====
-- l3fwd/l3fwd_em.c, l3fwd/l3fwd_fib.c, l3fwd/l3fwd_acl.c: what a port sees of the polling loop.
use dpdk_practice.Base.{
  ℕ, zero, suc, ◌+◌, ◌≤◌, ◌<◌, List, [], ◌∷◌, ◌++◌, ◌==◌, if◌then◌else◌, ◌≡◌, ◌≢◌, refl, sym, ap,
  ◌∙◌, subst, Bool-cases, inl, inr, append-nil, append_assoc,
}
use dpdk_practice.L3fwd.Rfc1812.{bad_port}
use dpdk_practice.L3fwd.Tx.Copy.{Table}
use dpdk_practice.L3fwd.Tx.Flows.{Flows, Flows-refl, Flows-trans, Flows-eq}
use dpdk_practice.L3fwd.Tx.{TxDevice, Core}
use dpdk_practice.L3fwd.Multi.Laws.{HasRoom}
use dpdk_practice.L3fwd.Multi.Flow.{to_port}
use dpdk_practice.L3fwd.Polling.{RxDevice, Send, routed, PollLoop}

-- The packets whose destination is `q`.
abbrev pub bound_for : ℕ → List (ℕ × ℕ) → List ℕ
bound_for q [] = []
bound_for q ((pkt, port) ∷ arrived) =
    let rest = bound_for q arrived in if port == q then pkt ∷ rest else rest

pub bound_for-append :
    (q : ℕ) (xs ys : List (ℕ × ℕ)) → bound_for q (xs ++ ys) ≡ bound_for q xs ++ bound_for q ys
bound_for-append q [] ys = refl
bound_for-append q ((pkt, port) ∷ xs) ys = elim (Bool-cases (port == q)) [
  | inl mine ↦ rw mine (ap (◌∷◌ pkt) (bound_for-append q xs ys))
  | inr other ↦ rw other (bound_for-append q xs ys)
]

pub bound_for-routed :
    (pkts dst_port : Table) (q j n : ℕ)
    → bound_for q (routed pkts dst_port j n) ≡ to_port pkts dst_port q j n
bound_for-routed pkts dst_port q j zero = refl
bound_for-routed pkts dst_port q j (suc n) = elim (Bool-cases (dst_port j == q)) [
  | inl mine ↦ rw mine (ap (◌∷◌ (pkts j)) (bound_for-routed pkts dst_port q (j + 1) n))
  | inr other ↦ rw other (bound_for-routed pkts dst_port q (j + 1) n)
]

-- A way of sending that keeps room in the buffers and hands each port exactly the packets of the
-- burst that have it as their destination, in their order, for bursts of up to `most` packets from
-- the first `n` ports.
pub record InOrder (d : TxDevice) (M : Type 0) (send : Send d M) (n most : ℕ) : Type 0 where
  pub keeps_room :
      (nb_rx : ℕ) (pkts : Table) (portid : ℕ) (m : M) (c : Core d)
      → 0 < nb_rx
      → nb_rx ≤ most
      → portid < n
      → HasRoom d c
      → HasRoom d (send nb_rx pkts portid m c).2
  pub hands :
      (nb_rx : ℕ) (pkts : Table) (portid : ℕ) (m : M) (c : Core d) (q : ℕ)
      → q ≢ bad_port
      → 0 < nb_rx
      → nb_rx ≤ most
      → portid < n
      → HasRoom d c
      → let (m1, dst_port, c1) = send nb_rx pkts portid m c in
        Flows d c c1 q (to_port pkts dst_port q 0 nb_rx)

module _ (d : TxDevice) (M : Type 0) (r : RxDevice M) (send : Send d M) (rx_burst_size : ℕ) where
  abbrev State : Type 0
  State = PollLoop d M r send rx_burst_size

  -- One call of rte_eth_rx_burst: all its packets, each with the destination that the method gives it
  -- when it sends the burst.
  abbrev pub fetched : r.State → ℕ → ℕ → M → Core d → List (ℕ × ℕ) × r.State
  fetched rx portid queueid m c =
      let (nb_rx, pkts, m1, rx1) = r.rx_burst rx portid queueid rx_burst_size m in
      let (m2, dst_port, c1) = send nb_rx pkts portid m1 c in (routed pkts dst_port 0 nb_rx, rx1)

  -- A run of calls of rte_eth_rx_burst: `arrived` are the packets of the calls.
  pub data Arrivals : r.State → r.State → List (ℕ × ℕ) → Type 0 where
    no_more : {rx : r.State} → Arrivals rx rx []
    burst_in :
        {rx rx' : r.State} {arrived : List (ℕ × ℕ)} (portid queueid : ℕ) (m : M) (c : Core d)
        → Arrivals (fetched rx portid queueid m c).1 rx' arrived
        → Arrivals rx rx' ((fetched rx portid queueid m c).0 ++ arrived)

  pub Arrivals-trans :
      {rx rx1 rx' : r.State} {xs ys : List (ℕ × ℕ)}
      → Arrivals rx rx1 xs
      → Arrivals rx1 rx' ys
      → Arrivals rx rx' (xs ++ ys)
  Arrivals-trans no_more more = more
  Arrivals-trans {rx} {rx' = rx'} {ys} (burst_in {arrived} portid queueid m c run) more =
      subst (Arrivals rx rx') (sym (append_assoc (fetched rx portid queueid m c).0 arrived ys))
        (burst_in portid queueid m c (Arrivals-trans run more))

  -- From one state to a later one: no buffer is full, the packets `fresh` have come from the
  -- receiving device, and port `q` is handed those of them whose destination it is.
  pub record Follows (q : ℕ) (s s' : State) : Type 0 where
    pub fresh : List (ℕ × ℕ)
    pub arrivals : Arrivals s.rx_state s'.rx_state fresh
    pub come : s'.received ≡ s.received ++ fresh
    pub flows : Flows d s.core s'.core q (bound_for q fresh)
    pub room : HasRoom d s'.core

  pub Follows-refl : (q : ℕ) (s : State) → HasRoom d s.core → Follows q s s
  Follows-refl q s room = record {
    fresh = [];
    arrivals = no_more;
    come = sym (append-nil s.received);
    flows = Flows-refl d;
    room = room;
  }

  abbrev pub Follows-trans :
      {q : ℕ} {s s1 s' : State} → Follows q s s1 → Follows q s1 s' → Follows q s s'
  Follows-trans {q} {s} {s' = s'} f g = record {
    fresh = f.fresh ++ g.fresh;
    arrivals = Arrivals-trans f.arrivals g.arrivals;
    come = g.come ∙ ap (λ xs. xs ++ g.fresh) f.come ∙ append_assoc s.received f.fresh g.fresh;
    flows = Flows-eq d (sym (bound_for-append q f.fresh g.fresh)) (Flows-trans d f.flows g.flows);
    room = g.room;
  }

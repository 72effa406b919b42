-- ===== src/L3fwd/Lpm/MainLoop/Balance.antt =====
-- l3fwd/l3fwd_lpm.c: the statistics of lpm_main_loop account for every packet.
use dpdk_practice.Base.{
  ℕ, zero, suc, ◌+◌, ◌-◌, ◌%◌, ◌≤◌, ◌<◌, true, false, List, [], ◌∷◌, some, ltb, ◌==◌, update,
  update_self, update_ne, ◌≡◌, refl, sym, arith, subst, ◌⊎◌, inl, inr, Bool-cases,
}
use dpdk_practice.L3fwd.Rfc1812.{Frame}
use dpdk_practice.L3fwd.Tx.Copy.{Table}
use dpdk_practice.L3fwd.Tx.Laws.{accepted, accepted-le, send_burst_lem}
use dpdk_practice.L3fwd.Tx.{TxDevice, max_pkt_burst}
use dpdk_practice.L3fwd.Multi.Laws.{HasRoom}
use dpdk_practice.L3fwd.Multi.Balance.{
  sum_below, sum_below-change, waiting, GoodPorts, send_packets_multi-balance,
}
use dpdk_practice.L3fwd.Multi.{Packets}
use dpdk_practice.L3fwd.Lpm.Lookup.{
  LooksUpEach, HopsBelow4, hop_or-lt, l3fwd_lpm_process_packets-lem,
}
use dpdk_practice.L3fwd.Lpm.MainLoop.{
  word, no_stat, RxDevice, RxQueue, Scratch, LpmLoop, lpm_drain_port, lpm_drain_ports,
  lpm_receive_queue, lpm_receive_queues, lpm_turn, lpm_turns, lpm_main_loop,
}
use dpdk_practice.L3fwd.Lpm.{
  Tables, Step1, lpm_get_dst_port, l3fwd_lpm_process_packets, l3fwd_lpm_send_packets,
}

-- The next hops in both tables are below `n`.
abbrev pub HopsBelow : ℕ → Tables → Type 0
HopsBelow n tables =
    HopsBelow4 n tables × ((ip : ℕ → ℕ) (hop : ℕ) → tables.lookup6 ip ≡ some hop → hop % 65536 < n)

abbrev pub AllBelow : ℕ → List ℕ → Type 0
AllBelow n [] = Unit {0}
AllBelow n (p ∷ ps) = (p < n) × AllBelow n ps

abbrev pub QueuesBelow : ℕ → List RxQueue → Type 0
QueuesBelow n [] = Unit {0}
QueuesBelow n (q ∷ qs) = (q.port_id < n) × QueuesBelow n qs

lpm_get_dst_port-lt :
    (n : ℕ) (tables : Tables)
    → HopsBelow n tables
    → (p : Packets) (pkt portid : ℕ) → portid < n
    → lpm_get_dst_port tables p pkt portid < n
unfolding lpm_get_dst_port
lpm_get_dst_port-lt n tables (hops4, hops6) p pkt portid lt = elim (Bool-cases (p.is_ipv4 pkt)) [
  | inl four ↦ rw (lpm_get_dst_port, four) (hop_or-lt _ portid n (hops4 _) lt)
  | inr other ↦ elim (Bool-cases (p.is_ipv6 pkt)) [
    | inl six ↦ rw (lpm_get_dst_port, other, six) (hop_or-lt _ portid n (hops6 _) lt)
    | inr neither ↦ rw (lpm_get_dst_port, other, neither) lt
  ]
]

module _ (d : TxDevice) (r : RxDevice) (tables : Tables) (val_eth : ℕ → Frame) (scratch : Scratch)
    (rx_burst_size tx_burst_size n : ℕ) where
  -- The packets received are those sent, those dropped and those that wait, as 64-bit words; no
  -- buffer is full.
  pub record Balanced (s : LpmLoop d r tables val_eth scratch rx_burst_size tx_burst_size)
      : Type 0 where
    pub counted : (s.stats.tx + s.stats.dropped + waiting d n s.core) % word ≡ s.stats.rx % word
    pub room : HasRoom d s.core

  lpm_drain_port-Balanced :
      (portid : ℕ) (s : LpmLoop d r tables val_eth scratch rx_burst_size tx_burst_size)
      → portid < n
      → Balanced s
      → Balanced (lpm_drain_port d r tables val_eth scratch rx_burst_size tx_burst_size portid s)
  unfolding lpm_drain_port
  lpm_drain_port-Balanced portid s lt h = elim (Bool-cases (s.core.tx_len portid == 0)) [
    | inl nothing ↦ rw (lpm_drain_port, nothing) h
    | inr some_packet ↦
        rw (lpm_drain_port, some_packet, send_burst_lem d s.core (s.core.tx_len portid) portid)
          (record {
            counted =
                (let len = s.core.tx_len portid in
                  let sent = accepted d s.core portid (s.core.m_table portid) len in
                  let emptied = update s.core.tx_len portid 0 in
                  let changed =
                    sum_below-change n portid s.core.tx_len emptied lt
                      (λ q ne. update_ne s.core.tx_len portid 0 q ne) in
                  omega (
                    arith,
                    h.counted,
                    changed,
                    update_self s.core.tx_len portid 0,
                    accepted-le d s.core portid (s.core.m_table portid) len,
                  ));
            room = λ q. emptied_room q (Bool-cases (q == portid));
          })
  ]
    where
      emptied_room :
          (q : ℕ)
          → ((q == portid) ≡ true) ⊎ ((q == portid) ≡ false)
          → update s.core.tx_len portid 0 q < max_pkt_burst
      emptied_room q (inl e) = rw e (omega arith)
      emptied_room q (inr ne) = rw ne (h.room q)

  lpm_drain_ports-Balanced :
      (ports : List ℕ) (s : LpmLoop d r tables val_eth scratch rx_burst_size tx_burst_size)
      → AllBelow n ports
      → Balanced s
      → Balanced (lpm_drain_ports d r tables val_eth scratch rx_burst_size tx_burst_size ports s)
  unfolding lpm_drain_ports
  lpm_drain_ports-Balanced [] s below h = h
  lpm_drain_ports-Balanced (p ∷ ports) s (lt, below) h =
      lpm_drain_ports-Balanced ports _ below (lpm_drain_port-Balanced p s lt h)

  module _ (each : LooksUpEach tables) (hops : HopsBelow n tables) (few : n ≤ 32768)
      (small : rx_burst_size ≤ max_pkt_burst) where
    -- The ports that the lookup finds.
    process_packets-GoodPorts :
        (nb_rx portid : ℕ) (pkts : Table) (fresh : Step1) (p : Packets) (t : Table)
        → portid < n
        → GoodPorts n nb_rx
            (l3fwd_lpm_process_packets tables val_eth nb_rx pkts portid fresh false (p, t)).1
    process_packets-GoodPorts nb_rx portid pkts fresh p t lt i less =
        (let (found, _) =
            l3fwd_lpm_process_packets-lem tables each
              (λ ip hop e. omega (arith, hops.0 ip hop e, few)) p pkts portid
              (omega (arith, lt, few)) val_eth nb_rx fresh t in
          inl (
            subst (λ v. v < n) (sym (found i less))
              (lpm_get_dst_port-lt n tables hops p (pkts i) portid lt)))

    lpm_receive_queue-Balanced :
        (q : RxQueue) (s : LpmLoop d r tables val_eth scratch rx_burst_size tx_burst_size)
        → q.port_id < n
        → Balanced s
        → Balanced (lpm_receive_queue d r tables val_eth scratch rx_burst_size tx_burst_size q s)
    unfolding lpm_receive_queue l3fwd_lpm_send_packets
    lpm_receive_queue-Balanced q s lt h = elim (Bool-cases (got.0 == 0)) [
      | inl nothing ↦
          rw (lpm_receive_queue, nothing) (record { counted = h.counted; room = h.room })
      | inr some_packet ↦
          rw (lpm_receive_queue, some_packet)
            (let (balance, room) =
                send_packets_multi-balance d tx_burst_size val_eth scratch.pnum got.1 got.0 n _
                  s.core (positive some_packet)
                  (omega (
                    arith,
                    small,
                    r.rx_burst-le s.rx_state q.port_id q.queue_id rx_burst_size s.packets,
                  ))
                  (omega (arith, few)) h.room
                  (process_packets-GoodPorts got.0 q.port_id got.1 scratch.step1 got.2
                    scratch.dst_port lt) in
              record { counted = omega (arith, h.counted, balance); room = room })
    ]
      where
        got : ℕ × Table × Packets × r.State
        got = r.rx_burst s.rx_state q.port_id q.queue_id rx_burst_size s.packets

        positive : (got.0 == 0) ≡ false → 0 < got.0
        positive e = ground arith

    lpm_receive_queues-Balanced :
        (queues : List RxQueue) (s : LpmLoop d r tables val_eth scratch rx_burst_size tx_burst_size)
        → QueuesBelow n queues
        → Balanced s
        → Balanced
            (lpm_receive_queues d r tables val_eth scratch rx_burst_size tx_burst_size queues s)
    unfolding lpm_receive_queues
    lpm_receive_queues-Balanced [] s below h = h
    lpm_receive_queues-Balanced (q ∷ queues) s (lt, below) h =
        lpm_receive_queues-Balanced queues _ below (lpm_receive_queue-Balanced q s lt h)

    module _ (tx_port_id : List ℕ) (rx_queue_list : List RxQueue) (drain_tsc : ℕ)
        (tx_below : AllBelow n tx_port_id) (rx_below : QueuesBelow n rx_queue_list) where
      lpm_turn-Balanced :
          (cur_tsc : ℕ) (s : LpmLoop d r tables val_eth scratch rx_burst_size tx_burst_size)
          → Balanced s
          → Balanced (
              lpm_turn d r tables val_eth scratch rx_burst_size tx_burst_size tx_port_id
                rx_queue_list drain_tsc cur_tsc s)
      unfolding lpm_turn
      lpm_turn-Balanced cur_tsc s h =
          (let diff_tsc = (cur_tsc + word - s.prev_tsc) % word in
            elim (Bool-cases (ltb drain_tsc diff_tsc)) [
              | inl drain ↦
                  rw (lpm_turn, drain)
                    (let b = lpm_drain_ports-Balanced tx_port_id s tx_below h in
                      lpm_receive_queues-Balanced rx_queue_list _ rx_below
                        (record { counted = b.counted; room = b.room }))
              | inr wait ↦
                  rw (lpm_turn, wait) (lpm_receive_queues-Balanced rx_queue_list s rx_below h)
            ])

      lpm_turns-Balanced :
          (times : List ℕ) (s : LpmLoop d r tables val_eth scratch rx_burst_size tx_burst_size)
          → Balanced s
          → Balanced (
              lpm_turns d r tables val_eth scratch rx_burst_size tx_burst_size tx_port_id
                rx_queue_list drain_tsc times s)
      unfolding lpm_turns
      lpm_turns-Balanced [] s h = h
      lpm_turns-Balanced (t ∷ times) s h = lpm_turns-Balanced times _ (lpm_turn-Balanced t s h)

    sum_below-zero : (m : ℕ) (f : ℕ → ℕ) → ((q : ℕ) → f q ≡ 0) → sum_below m f ≡ 0
    sum_below-zero zero f h = refl
    sum_below-zero (suc m) f h = omega (arith, sum_below-zero m f h, h m)

    -- Let rte_lpm_lookupx4 look up each lane on its own, the next hops of both tables and the ports
    -- of the transmit and receive lists be below n, n at most 32768, rx_burst_size at most
    -- MAX_PKT_BURST, and all buffers be empty at the start: after any turns of lpm_main_loop the
    -- core's counters account for every packet, as 64-bit words (rx is tx plus dropped plus the
    -- packets that wait in the buffers of the first n ports), and no buffer is full.
    pub lpm_main_loop-Balanced :
        (tx_port_id : List ℕ) (rx_queue_list : List RxQueue) (drain_tsc : ℕ) (times : List ℕ)
        (s : LpmLoop d r tables val_eth scratch rx_burst_size tx_burst_size)
        → AllBelow n tx_port_id
        → QueuesBelow n rx_queue_list
        → ((q : ℕ) → s.core.tx_len q ≡ 0)
        → Balanced (
            lpm_main_loop d r tables val_eth scratch rx_burst_size tx_burst_size tx_port_id
              rx_queue_list drain_tsc times s)
    unfolding lpm_main_loop
    lpm_main_loop-Balanced tx_port_id rx_queue_list drain_tsc times s tx_below rx_below empty =
        run rx_queue_list times rx_below
      where
        counted : (0 + 0 + waiting d n s.core) % word ≡ 0 % word
        counted = omega (arith, sum_below-zero n s.core.tx_len empty)

        room : HasRoom d s.core
        room q = omega (arith, empty q)

        run :
            (queues : List RxQueue) (ts : List ℕ)
            → QueuesBelow n queues
            → Balanced (
                lpm_main_loop d r tables val_eth scratch rx_burst_size tx_burst_size tx_port_id
                  queues drain_tsc ts s)
        run [] ts below = record { counted = counted; room = room }
        run (q ∷ qs) [] below = record { counted = counted; room = room }
        run (q ∷ qs) (t ∷ ts) below =
            lpm_turns-Balanced tx_port_id (q ∷ qs) drain_tsc tx_below below (t ∷ ts)
              (record s { stats = no_stat; prev_tsc = t })
              (record { counted = counted; room = room })

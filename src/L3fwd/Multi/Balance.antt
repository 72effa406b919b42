-- ===== src/L3fwd/Multi/Balance.antt =====
-- l3fwd/l3fwd_sse.h, send_packets_multi: the counters account for every packet.
use dpdk_practice.Base.{
  ℕ, zero, suc, ◌+◌, ◌-◌, ◌*◌, ◌/◌, ◌%◌, ◌≤◌, ◌<◌, Bool, true, false, List, length, length-append,
  ◌==◌, update, update_self, update_ne, ◌≡◌, ◌≢◌, refl, sym, ap, ◌∙◌, arith, subst, ◌⊎◌, inl, inr,
  Bool-cases, ==_iff, ==_ne,
}
use dpdk_practice.L3fwd.Rfc1812.{
  Frame, bad_port, rfc1812_process, is_bad_header, step3_lane, process_packet,
}
use dpdk_practice.L3fwd.Tx.Copy.{Table, length-slice}
use dpdk_practice.L3fwd.Tx.Laws.{buffered, Delivers}
use dpdk_practice.L3fwd.Tx.{TxDevice, TxStats, max_pkt_burst, Core}
use dpdk_practice.L3fwd.Multi.Laws.{
  HasRoom, Sent, all_sent, sent_group, freed_group, send_packets_multi-Sent,
}
use dpdk_practice.L3fwd.Multi.Flow.{Sent-le}
use dpdk_practice.L3fwd.Multi.{Packets, finish_one, finish, finish_packets, send_packets_multi}

abbrev pub sum_below : ℕ → (ℕ → ℕ) → ℕ
sum_below zero f = 0
sum_below (suc n) f = sum_below n f + f n

sum_below-same :
    (n : ℕ) (f g : ℕ → ℕ) → ((q : ℕ) → q < n → g q ≡ f q) → sum_below n g ≡ sum_below n f
sum_below-same zero f g h = refl
sum_below-same (suc n) f g h =
    omega (arith, sum_below-same n f g (λ q lt. h q (omega arith)), h n (omega arith))

-- One term has changed.
pub sum_below-change :
    (n p : ℕ) (f g : ℕ → ℕ)
    → p < n
    → ((q : ℕ) → q ≢ p → g q ≡ f q)
    → sum_below n g + f p ≡ sum_below n f + g p
sum_below-change zero p f g lt h = absurd (omega arith)
sum_below-change (suc n) p f g lt h = elim (last_or_before) [
  | inl e ↦
      (let rest = sum_below-same n f g (λ q less. h q (λ k. omega (arith, k, e, less))) in
        omega (arith, rest, ap f e, ap g e))
  | inr less ↦ omega (arith, sum_below-change n p f g less h, h n (λ k. omega (arith, k, less)))
]
  where
    last_or_before : (p ≡ n) ⊎ (p < n)
    last_or_before = ground arith

-- How many packets wait for the first `n` ports.
abbrev pub waiting : (d : TxDevice) → ℕ → Core d → ℕ
waiting d n c = sum_below n c.tx_len

pub Delivers-balance :
    (d : TxDevice) (n : ℕ) {c c' : Core d} {port sent dropped : ℕ} {pkts : List ℕ}
    → port < n
    → Delivers d c c' port pkts sent dropped
    → waiting d n c + length pkts ≡ sent + dropped + waiting d n c'
Delivers-balance d n {c} {c'} {port} {sent} {dropped} {pkts} lt del =
    let lengths =
      sym (length-append (buffered d c port) pkts)
      ∙ ap length del.in_order
      ∙ length-append del.offered (buffered d c' port) in
    let changed = sum_below-change n port c.tx_len c'.tx_len lt (λ q ne. (del.others q ne).2) in
    omega (
      arith,
      lengths,
      changed,
      del.counted,
      length-slice (c.m_table port) 0 (c.tx_len port),
      length-slice (c'.m_table port) 0 (c'.tx_len port),
    )

-- Each port is one of the first `n`, or BAD_PORT.
abbrev pub GoodPorts : ℕ → ℕ → Table → Type 0
GoodPorts n nb_rx dst_port = (i : ℕ) → i < nb_rx → (dst_port i < n) ⊎ (dst_port i ≡ bad_port)

module _ (d : TxDevice) (n : ℕ) (pkts_burst dst_port : Table) (nb_rx : ℕ)
    (good : GoodPorts n nb_rx dst_port) where
  Sent-balance :
      {j : ℕ} {s s' : TxStats × Core d}
      → Sent d pkts_burst dst_port nb_rx j s s'
      → waiting d n s.1 + (nb_rx - j) + (s.0.sent + s.0.dropped)
        ≡ s'.0.sent + s'.0.dropped + waiting d n s'.1
  Sent-balance all_sent = omega arith
  Sent-balance {j} (sent_group {c = c} {c1 = c1} k sent dropped pos same not_bad del rest) =
      let le = Sent-le rest in
      let one = Delivers-balance d n (in_range (good j (omega (arith, pos, le)))) del in
      omega (arith, one, Sent-balance rest, length-slice pkts_burst j k, le)
    where
      in_range : (dst_port j < n) ⊎ (dst_port j ≡ bad_port) → dst_port j < n
      in_range (inl lt) = lt
      in_range (inr e) = absurd (not_bad e)
  Sent-balance {j} (freed_group k pos same rest) = omega (arith, Sent-balance rest, Sent-le rest)

-- A packet's treatment leaves its port, or makes it BAD_PORT.
abbrev KeepsOrDrops : (Bool → Frame → ℕ → Frame × ℕ) → Type 0
KeepsOrDrops step =
    (is_ipv4 : Bool) (f : Frame) (dp : ℕ)
    → ((step is_ipv4 f dp).1 ≡ dp) ⊎ ((step is_ipv4 f dp).1 ≡ bad_port)

rfc1812-KeepsOrDrops : KeepsOrDrops rfc1812_process
unfolding rfc1812_process
rfc1812-KeepsOrDrops true f dp = elim (Bool-cases (is_bad_header f)) [
  | inl bad ↦ rw bad (inr refl)
  | inr fine ↦ rw fine (inl refl)
]
rfc1812-KeepsOrDrops false f dp = inl refl

step3_lane-KeepsOrDrops : (val_eth : ℕ → Frame) → KeepsOrDrops (step3_lane val_eth)
unfolding step3_lane
step3_lane-KeepsOrDrops val_eth is_ipv4 f dp = rfc1812-KeepsOrDrops is_ipv4 _ dp

process_packet-KeepsOrDrops : (val_eth : ℕ → Frame) → KeepsOrDrops (process_packet val_eth)
unfolding process_packet
process_packet-KeepsOrDrops val_eth is_ipv4 f dp = rfc1812-KeepsOrDrops is_ipv4 f dp

module _ (n nb_rx : ℕ) (pkts_burst : Table) where
  module _ (step : Bool → Frame → ℕ → Frame × ℕ) (keeps : KeepsOrDrops step) where
    finish_one-GoodPorts :
        (j : ℕ) (s : Packets × Table)
        → GoodPorts n nb_rx s.1
        → GoodPorts n nb_rx (finish_one step pkts_burst j s).1
    unfolding finish_one
    finish_one-GoodPorts j (p, t) good i lt = elim (Bool-cases (i == j)) [
      | inl e ↦
          (let at : i ≡ j = (==_iff i j).0 e in
            let new = ap (update t j _) at ∙ update_self t j _ in
            elim (keeps (p.is_ipv4 (pkts_burst j)) (p.frame (pkts_burst j)) (t j)) [
              | inl same ↦ elim (good i lt) [
                | inl less ↦ inl (omega (arith, less, new ∙ same, ap t at))
                | inr bad ↦ inr (new ∙ same ∙ ap t (sym at) ∙ bad)
              ]
              | inr bad ↦ inr (new ∙ bad)
            ])
      | inr ne ↦
          subst (λ v. (v < n) ⊎ (v ≡ bad_port)) (sym (update_ne t j _ i (==_ne i j ne))) (good i lt)
    ]

    finish-GoodPorts :
        (rounds j : ℕ) (s : Packets × Table)
        → GoodPorts n nb_rx s.1
        → GoodPorts n nb_rx (finish step pkts_burst rounds j s).1
    unfolding finish
    finish-GoodPorts zero j s good = good
    finish-GoodPorts (suc rounds) j s good =
        finish-GoodPorts rounds (j + 1) (finish_one step pkts_burst j s)
          (finish_one-GoodPorts j s good)

  finish_packets-GoodPorts :
      (val_eth : ℕ → Frame) (s : Packets × Table)
      → GoodPorts n nb_rx s.1
      → GoodPorts n nb_rx (finish_packets val_eth pkts_burst nb_rx s).1
  unfolding finish_packets
  finish_packets-GoodPorts val_eth s good =
      finish-GoodPorts (process_packet val_eth) (process_packet-KeepsOrDrops val_eth) (nb_rx % 4)
        (nb_rx / 4 * 4) _
        (finish-GoodPorts (step3_lane val_eth) (step3_lane-KeepsOrDrops val_eth) (nb_rx / 4 * 4) 0 s
          good)

-- Behind the checks of the headers the first packet's port is no 65534.
pub finish_packets-first :
    (val_eth : ℕ → Frame) (pkts_burst : Table) (nb_rx n : ℕ) (s : Packets × Table)
    → 0 < nb_rx
    → n ≤ 65534
    → GoodPorts n nb_rx s.1
    → (finish_packets val_eth pkts_burst nb_rx s).1 0 ≢ 65534
finish_packets-first val_eth pkts_burst nb_rx n s pos few good e =
    elim (finish_packets-GoodPorts n nb_rx pkts_burst val_eth s good 0 pos) [
      | inl lt ↦ omega (arith, e, lt, few)
      | inr bad ↦ omega (arith, e, bad)
    ]

-- For a burst for the first `n` ports: what waited and came is what was sent, was dropped, or waits
-- now, and the buffers have room again.
pub send_packets_multi-balance :
    (d : TxDevice) (tx_burst_size : ℕ) (val_eth : ℕ → Frame) (junk pkts_burst : Table) (nb_rx n : ℕ)
    (s : Packets × Table) (c : Core d)
    → 0 < nb_rx
    → nb_rx ≤ max_pkt_burst
    → n ≤ 65534
    → HasRoom d c
    → GoodPorts n nb_rx s.1
    → let (stats, c', p, dst_port) =
        send_packets_multi d tx_burst_size val_eth junk pkts_burst nb_rx s c in
      (waiting d n c + nb_rx ≡ stats.sent + stats.dropped + waiting d n c') × HasRoom d c'
unfolding send_packets_multi
send_packets_multi-balance d size val_eth junk pkts_burst nb_rx n s c pos most few room good =
    let good' = finish_packets-GoodPorts n nb_rx pkts_burst val_eth s good in
    let (sent, room') =
      send_packets_multi-Sent d size val_eth junk pkts_burst nb_rx s c pos most room
        (finish_packets-first val_eth pkts_burst nb_rx n s pos few good) in
    (omega (arith, Sent-balance d n pkts_burst _ nb_rx good' sent), room')

-- ===== src/L3fwd/Tx/Packetsx4.antt =====
-- What send_packetsx4 does with a group of packets for one port.
use dpdk_practice.Base.{
  ℕ, ◌+◌, ◌-◌, ◌≤◌, ◌<◌, ◌&&◌, List, [], ◌++◌, ltb, leb, ◌==◌, if◌then◌else◌, ◌≡◌, refl, sym, ap,
  ap₂, ◌∙◌, arith, update_self, update_ne, Bool-cases, ==_iff, inl, inr, and_right,
}
use mathlib.Core.List.{append-nil, append_assoc}
use dpdk_practice.L3fwd.Tx.Copy.{
  Table, slice, duff_copy, slice-duff_copy, slice-duff_copy_front, slice-add,
}
use dpdk_practice.L3fwd.Tx.Laws.{
  buffered, Delivers, accepted, burst_end, burst_lem, burst-Delivers, waits-Delivers, untouched,
}
use dpdk_practice.L3fwd.Tx.{
  TxDevice, TxStats, max_pkt_burst, Core, send_burst, set_len, set_table, send_full, send_packetsx4,
}

module _ (d : TxDevice) where
  -- A call leaves the buffer of `port` with room for one more packet.
  abbrev pub Sends : Core d → ℕ → List ℕ → TxStats × Core d → Type 0
  Sends c port pkts (stats, c') =
      Delivers d c c' port pkts stats.sent stats.dropped × (c'.tx_len port < max_pkt_burst)

  split_at :
      (m : Table) (n num : ℕ) (xs ys : List ℕ)
      → n ≤ num
      → ys ≡ xs ++ slice m 0 n
      → xs ++ slice m 0 num ≡ ys ++ slice m n (num - n)
  split_at m n num xs ys le e =
      ap (λ k. xs ++ slice m 0 k) {y = n + (num - n)} (omega arith)
      ∙ ap (◌++◌ xs) (slice-add m 0 n (num - n))
      ∙ sym (append_assoc xs (slice m 0 n) _)
      ∙ ap₂ (λ zs i. zs ++ slice m i (num - n)) (sym e) (omega arith)

  -- The buffer `t` has become full with the first `n` packets.
  send_full-Sends :
      (c : Core d) (port : ℕ) (t m : Table) (num n : ℕ)
      → 0 < n
      → n ≤ num
      → num ≤ max_pkt_burst
      → slice t 0 max_pkt_burst ≡ buffered d c port ++ slice m 0 n
      → Sends c port (slice m 0 num) (send_full d (set_table d c port t) port m num n)
  unfolding send_full send_burst
  send_full-Sends c port t m num n pos le most e = elim (Bool-cases (num - n == 0)) [
    | inl z ↦ rw burst_lem (
        rw z (
          burst-Delivers d c b _ port (b.m_table port) max_pkt_burst (slice m 0 num) [] refl refl
              refl refl
              (split
                ∙ ap (λ k. slice (b.m_table port) 0 max_pkt_burst ++ slice m n k)
                    ((==_iff _ _).0 z))
              (ap (slice (b.m_table port) 0) (update_self c.tx_len port 0)) refl refl refl refl
              (untouched d c port _ _),
          rw (update_self c.tx_len port 0) (omega arith),
        ))
    | inr z ↦ rw burst_lem (
        rw z (
          burst-Delivers d c b _ port (b.m_table port) max_pkt_burst (slice m 0 num)
              (slice m n (num - n)) refl refl refl refl split
              (ap₂ (λ u k. slice u 0 k) (update_self b.m_table port _)
                  (update_self c.tx_len port (num - n))
                ∙ slice-duff_copy_front (b.m_table port) m n (num - n) (ground arith))
              refl refl refl refl
              (λ q ne. (
                update_ne b.m_table port _ q ne ∙ update_ne c.m_table port t q ne,
                update_ne c.tx_len port _ q ne,
              )),
          rw (update_self c.tx_len port (num - n)) (omega arith),
        ))
  ]
    where
      b : Core d
      b = set_table d c port t

      split :
          buffered d c port ++ slice m 0 num
          ≡ slice (b.m_table port) 0 max_pkt_burst ++ slice m n (num - n)
      split =
          split_at m n num (buffered d c port) _ le
            (ap (λ u. slice u 0 max_pkt_burst) (update_self c.m_table port t) ∙ e)

  -- The buffer has room for all `num` packets.
  fits-Sends :
      (c : Core d) (port : ℕ) (t m : Table) (num : ℕ)
      → c.tx_len port + num < max_pkt_burst
      → slice t 0 (c.tx_len port + num) ≡ buffered d c port ++ slice m 0 num
      → Sends c port (slice m 0 num) (
        record { sent = 0; dropped = 0 },
        set_len d (set_table d c port t) port (c.tx_len port + num),
      )
  fits-Sends c port t m num room e = (
    waits-Delivers d c _ port (slice m 0 num)
        (ap₂ (λ u k. slice u 0 k) (update_self c.m_table port t) (update_self c.tx_len port _) ∙ e)
        refl refl refl refl (untouched d c port _ _),
    rw (update_self c.tx_len port (c.tx_len port + num)) room,
  )

  -- An empty buffer and enough packets: they are sent at once.
  direct-Sends :
      (c : Core d) (port : ℕ) (m : Table) (num : ℕ)
      → c.tx_len port ≡ 0
      → Sends c port (slice m 0 num) (
          let s = accepted d c port m num in
          (record { sent = s; dropped = num - s }, burst_end d c port m num))
  direct-Sends c port m num e = (
    burst-Delivers d c c _ port m num (slice m 0 num) [] refl refl refl refl
        (ap (λ k. slice (c.m_table port) 0 k ++ slice m 0 num) e ∙ sym (append-nil _))
        (ap (slice (c.m_table port) 0) e) refl refl refl refl (λ q ne. (refl, refl)),
    rw e (omega arith),
  )

  -- send_packetsx4 with 1 to MAX_PKT_BURST packets for a port whose buffer is not full: each packet
  -- that waited or came is sent, freed or waits, in this order and without loss; `sent` and
  -- `dropped` count those that left, and the buffer is not full afterwards.
  pub send_packetsx4-Sends :
      (size : ℕ) (c : Core d) (port : ℕ) (m : Table) (num : ℕ)
      → 0 < num
      → num ≤ max_pkt_burst
      → c.tx_len port < max_pkt_burst
      → Sends c port (slice m 0 num) (send_packetsx4 d size c port m num)
  unfolding send_packetsx4
  send_packetsx4-Sends size c port m num pos most room =
      elim (Bool-cases (leb size num && c.tx_len port == 0)) [
        | inl now ↦ rw now (
            rw burst_lem
              (direct-Sends c port m num ((==_iff _ 0).0 (and_right (leb size num) _ now))))
        | inr later ↦ rw later (elim (Bool-cases (ltb max_pkt_burst (c.tx_len port + num))) [
          | inl over ↦
              rw over
                (filled (max_pkt_burst - c.tx_len port) (omega arith) (ground arith) (omega arith))
          | inr within ↦ rw within (elim (Bool-cases (c.tx_len port + num == max_pkt_burst)) [
            | inl full ↦ filled num pos (omega arith) (ground arith)
            | inr more ↦ rw more (
                fits-Sends c port _ m num (ground arith)
                  (slice-duff_copy (c.m_table port) (c.tx_len port) m 0 num pos))
          ])
        ])
      ]
    where
      filled :
          (n : ℕ)
          → 0 < n
          → n ≤ num
          → c.tx_len port + n ≡ max_pkt_burst
          → Sends c port (slice m 0 num) (
              let c1 = set_table d c port (duff_copy (c.m_table port) (c.tx_len port) m 0 n) in
              if c.tx_len port + n == max_pkt_burst
              then send_full d c1 port m num n
              else (record { sent = 0; dropped = 0 }, set_len d c1 port (c.tx_len port + n)))
      filled n pos' le e = rw ((==_iff _ _).1 e) (
          send_full-Sends c port _ m num n pos' le most (
            ap (slice (duff_copy (c.m_table port) (c.tx_len port) m 0 n) 0) (sym e)
            ∙ slice-duff_copy (c.m_table port) (c.tx_len port) m 0 n pos'))

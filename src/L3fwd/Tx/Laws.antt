-- ===== src/L3fwd/Tx/Laws.antt =====
-- What a call of the transmit functions does with the packets: none is lost, made up or reordered.
use dpdk_practice.Base.{
  ℕ, zero, suc, ◌+◌, ◌-◌, ◌≤◌, ◌<◌, ◌%◌, List, [], ◌∷◌, ◌++◌, length, update, ltb, ◌==◌,
  if◌then◌else◌, ◌≡◌, ◌≢◌, refl, sym, ap, ap₂, ◌∙◌, arith, take, drop, update_self, update_ne,
  Bool-cases, ==_iff, inl, inr,
}
use mathlib.Core.List.{append-nil, append_assoc}
use dpdk_practice.L3fwd.Tx.Copy.{Table, slice, length-slice, slice-write}
use dpdk_practice.L3fwd.Tx.{
  TxDevice, max_pkt_burst, Core, free_rest, burst, send_burst, set_table, send_single_packet,
}

take-slice : (m : Table) (i s n : ℕ) → s ≤ n → take s (slice m i n) ≡ slice m i s
take-slice m i zero n h = refl
take-slice m i (suc s) zero h = absurd (omega arith)
take-slice m i (suc s) (suc n) h = ap (◌∷◌ (m i)) (take-slice m (i + 1) s n (omega arith))

drop-slice : (m : Table) (i s n : ℕ) → s ≤ n → drop s (slice m i n) ≡ slice m (i + s) (n - s)
drop-slice m i zero n h = ap₂ (slice m) (omega arith) (omega arith)
drop-slice m i (suc s) zero h = absurd (omega arith)
drop-slice m i (suc s) (suc n) h =
    drop-slice m (i + 1) s n (omega arith) ∙ ap₂ (slice m) (omega arith) (omega arith)

nothing_left : (xs : List ℕ) (m : Table) (s n : ℕ) → n ≤ s → xs ++ slice m s (n - s) ≡ xs
nothing_left xs m s n h =
    let e : n - s ≡ 0 = omega arith in ap (λ k. xs ++ slice m s k) e ∙ append-nil xs

-- At most one call of rte_eth_tx_burst between two states of the device: on a port and a queue, with
-- the packets `offered`, of which the device took the first `sent`.
pub data Call (d : TxDevice) (s s' : d.State) (port queue sent : ℕ) (offered : List ℕ)
    : Type 0 where
  no_call : s' ≡ s → offered ≡ [] → Call d s s' port queue sent offered
  one_call :
      s' ≡ (d.tx_burst s port queue offered).1
      → sent ≡ (d.tx_burst s port queue offered).0
      → Call d s s' port queue sent offered

module _ (d : TxDevice) where
  open d use {State, tx_burst, tx_burst-le}

  -- The packets that wait for `port`, oldest first.
  abbrev pub buffered : Core d → ℕ → List ℕ
  buffered c port = slice (c.m_table port) 0 (c.tx_len port)

  -- A call with the packets `pkts` for `port`: the packets that waited and the new ones are, in
  -- this order, those offered to the device by a call of rte_eth_tx_burst on the port's queue, if any,
  -- and those that wait now. The device took the first `sent` of the offered packets, and the other
  -- `dropped` were freed. Other ports see nothing.
  pub record Delivers (c c' : Core d) (port : ℕ) (pkts : List ℕ) (sent dropped : ℕ) : Type 0 where
    pub offered : List ℕ
    pub called : Call d c.dev c'.dev port (c.tx_queue_id port) sent offered
    pub same_queues : c'.tx_queue_id ≡ c.tx_queue_id
    pub counted : sent + dropped ≡ length offered
    pub in_order : buffered c port ++ pkts ≡ offered ++ buffered c' port
    pub on_wire : c'.wire port ≡ c.wire port ++ take sent offered
    pub freed : c'.freed ≡ c.freed ++ drop sent offered
    pub others :
        (q : ℕ)
        → q ≢ port
        → (c'.wire q ≡ c.wire q) × (buffered c' q ≡ buffered c q) × (c'.tx_len q ≡ c.tx_len q)

  abbrev with_freed : Core d → List ℕ → Core d
  with_freed c xs = record c { freed = xs }

  free_rest_lem :
      (m : Table) (n k : ℕ) (c : Core d)
      → free_rest d m n k c ≡ with_freed c (c.freed ++ slice m n k)
  unfolding free_rest
  free_rest_lem m n zero c = ap (with_freed c) (sym (append-nil c.freed))
  free_rest_lem m n (suc k) c =
      free_rest_lem m (n + 1) k (with_freed c (c.freed ++ (m n ∷ [])))
      ∙ ap (with_freed c) (append_assoc c.freed (m n ∷ []) (slice m (n + 1) k))

  abbrev pub accepted : Core d → ℕ → Table → ℕ → ℕ
  accepted c port m n = (tx_burst c.dev port (c.tx_queue_id port) (slice m 0 n)).0

  -- The state behind a burst.
  abbrev pub burst_end : Core d → ℕ → Table → ℕ → Core d
  burst_end c port m n =
      let s = accepted c port m n in
      record c {
        dev = (tx_burst c.dev port (c.tx_queue_id port) (slice m 0 n)).1;
        wire = update c.wire port (c.wire port ++ slice m 0 s);
        freed = c.freed ++ slice m s (n - s);
      }

  pub accepted-le : (c : Core d) (port : ℕ) (m : Table) (n : ℕ) → accepted c port m n ≤ n
  accepted-le c port m n =
      omega (arith, tx_burst-le c.dev port (c.tx_queue_id port) (slice m 0 n), length-slice m 0 n)

  pub burst_lem :
      (c : Core d) (port : ℕ) (m : Table) (n : ℕ)
      → burst d c port m n ≡ (accepted c port m n, burst_end c port m n)
  unfolding burst
  burst_lem c port m n = elim (Bool-cases (ltb (accepted c port m n) n)) [
    | inl more ↦ rw more (ap (λ x. (accepted c port m n, x)) (free_rest_lem m _ _ _))
    | inr all ↦ rw all (
        ap (λ k. (accepted c port m n, with_freed (burst_end c port m n) k))
          (sym (nothing_left c.freed m (accepted c port m n) n (ground arith))))
  ]

  pub send_burst_lem :
      (c : Core d) (n port : ℕ)
      → send_burst d c n port
        ≡ (accepted c port (c.m_table port) n, burst_end c port (c.m_table port) n)
  unfolding send_burst
  send_burst_lem c n port = burst_lem c port (c.m_table port) n

  -- `c` is the state at the call, `b` the one at the burst and `c'` the one at the end.
  pub burst-Delivers :
      (c b c' : Core d) (port : ℕ) (m : Table) (n : ℕ) (pkts waiting : List ℕ)
      → b.wire ≡ c.wire
      → b.freed ≡ c.freed
      → b.dev ≡ c.dev
      → b.tx_queue_id ≡ c.tx_queue_id
      → buffered c port ++ pkts ≡ slice m 0 n ++ waiting
      → buffered c' port ≡ waiting
      → c'.wire ≡ (burst_end b port m n).wire
      → c'.freed ≡ (burst_end b port m n).freed
      → c'.dev ≡ (burst_end b port m n).dev
      → c'.tx_queue_id ≡ b.tx_queue_id
      → ((q : ℕ) → q ≢ port → (c'.m_table q ≡ c.m_table q) × (c'.tx_len q ≡ c.tx_len q))
      → Delivers c c' port pkts (accepted b port m n) (n - accepted b port m n)
  burst-Delivers c b c' port m n pkts waiting bw bf bd bq split now w f dev queues rest =
      let s = accepted b port m n in
      let le = accepted-le b port m n in
      record {
        offered = slice m 0 n;
        called =
            one_call (dev ∙ ap₂ (λ s g. (tx_burst s port (g port) (slice m 0 n)).1) bd bq)
              (ap₂ (λ s g. (tx_burst s port (g port) (slice m 0 n)).0) bd bq);
        same_queues = queues ∙ bq;
        counted = omega (arith, length-slice m 0 n, le);
        in_order = split ∙ ap (◌++◌ (slice m 0 n)) (sym now);
        on_wire =
            ap (λ g. g port) w
            ∙ update_self b.wire port _
            ∙ ap₂ (λ g xs. g port ++ xs) bw (sym (take-slice m 0 s n le));
        freed =
            f
            ∙ ap₂ ◌++◌ bf (sym (drop-slice m 0 s n le ∙ ap (λ i. slice m i (n - s)) (omega arith)));
        others = λ q ne. (
          ap (λ g. g q) w ∙ update_ne b.wire port _ q ne ∙ ap (λ g. g q) bw,
          ap₂ (λ t k. slice t 0 k) (rest q ne).0 (rest q ne).1,
          (rest q ne).1,
        );
      }

  -- No burst: the packets only wait.
  pub waits-Delivers :
      (c c' : Core d) (port : ℕ) (pkts : List ℕ)
      → buffered c' port ≡ buffered c port ++ pkts
      → c'.wire ≡ c.wire
      → c'.freed ≡ c.freed
      → c'.dev ≡ c.dev
      → c'.tx_queue_id ≡ c.tx_queue_id
      → ((q : ℕ) → q ≢ port → (c'.m_table q ≡ c.m_table q) × (c'.tx_len q ≡ c.tx_len q))
      → Delivers c c' port pkts 0 0
  waits-Delivers c c' port pkts now w f dev queues rest = record {
    offered = [];
    called = no_call dev refl;
    same_queues = queues;
    counted = refl;
    in_order = sym now;
    on_wire = ap (λ g. g port) w ∙ sym (append-nil _);
    freed = f ∙ sym (append-nil _);
    others = λ q ne.
        (ap (λ g. g q) w, ap₂ (λ t k. slice t 0 k) (rest q ne).0 (rest q ne).1, (rest q ne).1);
  }

  -- Writes for one port leave the others' queues alone.
  pub untouched :
      (c : Core d) (port : ℕ) (t : Table) (len q : ℕ)
      → q ≢ port
      → (update c.m_table port t q ≡ c.m_table q) × (update c.tx_len port len q ≡ c.tx_len q)
  untouched c port t len q ne = (update_ne c.m_table port t q ne, update_ne c.tx_len port len q ne)

  no_wrap : (len size : ℕ) → len < size → size ≤ max_pkt_burst → (len + 1) % 65536 ≡ len + 1
  no_wrap len size lt most = omega arith

  -- If the buffer of the port holds fewer than rx_burst_size packets, and that is at most
  -- MAX_PKT_BURST, send_single_packet keeps the order and loses nothing: the packets that waited
  -- for the port and the new one are, in this order, those offered to the device by a call of
  -- rte_eth_tx_burst on the port and its queue, if there is one, and those that wait now; of the
  -- offered ones the device took the first and the others are freed and counted, which happens when
  -- the buffer has come to rx_burst_size; other ports see nothing.
  pub send_single_packet-Delivers :
      (size : ℕ) (c : Core d) (m port : ℕ)
      → c.tx_len port < size
      → size ≤ max_pkt_burst
      → let (sent, c') = send_single_packet d size c m port in
        Delivers c c' port (m ∷ []) sent (if c.tx_len port + 1 == size then size - sent else 0)
  unfolding send_single_packet send_burst
  send_single_packet-Delivers size c m port lt most =
      rw (no_wrap (c.tx_len port) size lt most) (elim (Bool-cases (c.tx_len port + 1 == size)) [
        | inl full ↦ rw (full) (
            rw burst_lem (
              burst-Delivers c b _ port (b.m_table port) size (m ∷ []) [] refl refl refl refl
                (sym (append-nil _ ∙ queued size (sym ((==_iff _ size).0 full))))
                (ap (slice (b.m_table port) 0) (update_self c.tx_len port 0)) refl refl refl refl
                (untouched c port _ _)))
        | inr more ↦ rw more (
            waits-Delivers c _ port (m ∷ [])
              (ap (slice (b.m_table port) 0) (update_self c.tx_len port _)
                ∙ queued (c.tx_len port + 1) refl)
              refl refl refl refl (untouched c port _ _))
      ])
    where
      b : Core d
      b = set_table d c port (update (c.m_table port) (c.tx_len port) m)

      queued :
          (n : ℕ) → n ≡ c.tx_len port + 1 → slice (b.m_table port) 0 n ≡ buffered c port ++ (m ∷ [])
      queued n e =
          ap (λ t. slice t 0 n) (update_self c.m_table port _)
          ∙ slice-write (c.m_table port) (c.tx_len port) m (omega arith)

  update-lt : (f : ℕ → ℕ) (port v q size : ℕ) → f q < size → v < size → update f port v q < size
  update-lt f port v q size old new = elim (Bool-cases (q == port)) [
    | inl e ↦ rw e new
    | inr ne ↦ rw ne old
  ]

  -- A buffer that holds less than a burst does so behind the call.
  pub send_single_packet-room :
      (size : ℕ) (c : Core d) (m port : ℕ)
      → ((q : ℕ) → c.tx_len q < size)
      → size ≤ max_pkt_burst
      → (q : ℕ) → (send_single_packet d size c m port).1.tx_len q < size
  unfolding send_single_packet send_burst
  send_single_packet-room size c m port room most q =
      rw (no_wrap (c.tx_len port) size (room port) most)
        (elim (Bool-cases (c.tx_len port + 1 == size)) [
          | inl full ↦
              rw full
                (rw burst_lem (update-lt c.tx_len port 0 q size (room q) (omega (arith, room q))))
          | inr more ↦ rw more (
              update-lt c.tx_len port (c.tx_len port + 1) q size (room q)
                (ground (arith, room port)))
        ])

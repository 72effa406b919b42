-- ===== src/L3fwd/Polling/Emptied.antt =====
-- l3fwd/l3fwd_em.c, l3fwd/l3fwd_fib.c, l3fwd/l3fwd_acl.c: what the drain of the buffers does.
use dpdk_practice.Base.{
  ℕ, ◌+◌, ◌-◌, ◌≤◌, ◌%◌, true, false, List, [], ◌∷◌, ltb, ◌==◌, update, update_self, update_ne, ◌≡◌,
  refl, sym, ap, arith, ◌⊎◌, inl, inr, Bool-cases, ==_iff, append-nil,
}
use dpdk_practice.L3fwd.Tx.Copy.{slice}
use dpdk_practice.L3fwd.Tx.Laws.{burst-Delivers, send_burst_lem}
use dpdk_practice.L3fwd.Tx.{TxDevice, Core}
use dpdk_practice.L3fwd.Multi.Laws.{HasRoom}
use dpdk_practice.L3fwd.Tx.Flows.{Flows, Flows-refl, Flows-trans, Delivers-Flows-all}
use dpdk_practice.L3fwd.Lpm.MainLoop.{word}
use dpdk_practice.L3fwd.Polling.{RxDevice, Send, PollLoop, drain_tx_port, drain_tx_ports, drain}
use dpdk_practice.L3fwd.Polling.Order.{no_more, Follows, Follows-refl}

module _ (d : TxDevice) (M : Type 0) (r : RxDevice M) (send : Send d M) (rx_burst_size : ℕ) where
  abbrev State : Type 0
  State = PollLoop d M r send rx_burst_size

  -- Behind the drain of a port its buffer is empty; no buffer has grown; and what waited has been
  -- offered to the device in its order.
  pub record Drained (portid : ℕ) (c c' : Core d) : Type 0 where
    pub empty : c'.tx_len portid ≡ 0
    pub fewer : (q : ℕ) → c'.tx_len q ≤ c.tx_len q
    pub flows : (q : ℕ) → Flows d c c' q []

  fewer_at :
      (portid : ℕ) (f : ℕ → ℕ) (q : ℕ)
      → ((q == portid) ≡ true) ⊎ ((q == portid) ≡ false)
      → update f portid 0 q ≤ f q
  fewer_at portid f q (inl e) = rw e (omega arith)
  fewer_at portid f q (inr ne) = rw ne (omega arith)

  pub drain_tx_port-Drained :
      (portid : ℕ) (c : Core d) → Drained portid c (drain_tx_port d M r send rx_burst_size portid c)
  unfolding drain_tx_port
  drain_tx_port-Drained portid c = elim (Bool-cases (c.tx_len portid == 0)) [
    | inl nothing ↦
        rw (drain_tx_port, nothing)
          (record {
            empty = (==_iff _ 0).0 nothing;
            fewer = λ q. omega arith;
            flows = λ q. Flows-refl d;
          })
    | inr some_packet ↦
        rw (drain_tx_port, some_packet, send_burst_lem d c (c.tx_len portid) portid)
          (record {
            empty = update_self c.tx_len portid 0;
            fewer = λ q. fewer_at portid c.tx_len q (Bool-cases (q == portid));
            flows = Delivers-Flows-all d (
                burst-Delivers d c c _ portid (c.m_table portid) (c.tx_len portid) [] [] refl refl
                  refl refl refl (ap (slice (c.m_table portid) 0) (update_self c.tx_len portid 0))
                  refl refl refl refl (λ q ne. (refl, update_ne c.tx_len portid 0 q ne)));
          })
  ]

  pub drain_tx_ports-room :
      (ports : List ℕ) (c : Core d)
      → HasRoom d c
      → HasRoom d (drain_tx_ports d M r send rx_burst_size ports c)
  unfolding drain_tx_ports
  drain_tx_ports-room [] c room = room
  drain_tx_ports-room (p ∷ ports) c room =
      drain_tx_ports-room ports _ (λ q. omega (arith, (drain_tx_port-Drained p c).fewer q, room q))

  pub drain_tx_ports-Flows :
      (ports : List ℕ) (c : Core d) (q : ℕ)
      → Flows d c (drain_tx_ports d M r send rx_burst_size ports c) q []
  unfolding drain_tx_ports
  drain_tx_ports-Flows [] c q = Flows-refl d
  drain_tx_ports-Flows (p ∷ ports) c q =
      Flows-trans d ((drain_tx_port-Drained p c).flows q) (drain_tx_ports-Flows ports _ q)

  pub drain-Follows :
      (tx_port_id : List ℕ) (drain_tsc cur_tsc : ℕ) (s : State) (q : ℕ)
      → HasRoom d s.core
      → Follows d M r send rx_burst_size q s
          (drain d M r send rx_burst_size tx_port_id drain_tsc cur_tsc s)
  unfolding drain
  drain-Follows tx_port_id drain_tsc cur_tsc s q room =
      elim (Bool-cases (ltb drain_tsc ((cur_tsc + word - s.prev_tsc) % word))) [
        | inl late ↦
            rw (drain, late)
              (record {
                fresh = [];
                come = sym (append-nil s.received);
                arrivals = no_more;
                flows = drain_tx_ports-Flows tx_port_id s.core q;
                room = drain_tx_ports-room tx_port_id s.core room;
              })
        | inr early ↦ rw (drain, early) (Follows-refl d M r send rx_burst_size q s room)
      ]

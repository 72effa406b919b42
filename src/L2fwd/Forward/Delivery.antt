-- ===== src/L2fwd/Forward/Delivery.antt =====
-- Where the packets of a burst go.
use dpdk_practice.Base.{
  ℕ, Bool, List, [], ◌∷◌, ◌++◌, append-nil, snoc_append, ◌==◌, if◌then◌else◌, ◌≡◌, refl, sym, ap,
  ◌∙◌, inl, inr, Bool-cases, ==_iff,
}
use dpdk_practice.L2fwd.Forward.{Devices, Loop, l2fwd_simple_forward, forward_all}

module _ (d : Devices) (dst_ports : ℕ → ℕ) (mac_updating : Bool) (ports_eth_addr : ℕ → ℕ → ℕ) where
  simple_forward-buffered :
      (s : Loop d dst_ports mac_updating ports_eth_addr) (m portid q : ℕ)
      → (l2fwd_simple_forward d dst_ports mac_updating ports_eth_addr s m portid).buffered q ≡ (
          if q == dst_ports portid then s.buffered (dst_ports portid) ++ (m ∷ []) else s.buffered q)
  unfolding l2fwd_simple_forward
  simple_forward-buffered s m portid q =
      elim (Bool-cases ((d.tx_buffer s.dev (dst_ports portid) m).0 == 0)) [
        | inl e ↦ rw e refl
        | inr e ↦ rw e refl
      ]

  -- forward_all hands every packet of the burst, in order, to the buffer of the destination of the
  -- port it came from, and none to another port.
  pub forward_all-buffered :
      (s : Loop d dst_ports mac_updating ports_eth_addr) (pkts : List ℕ) (portid q : ℕ)
      → (forward_all d dst_ports mac_updating ports_eth_addr s pkts portid).buffered q
        ≡ (if q == dst_ports portid then s.buffered q ++ pkts else s.buffered q)
  unfolding forward_all l2fwd_simple_forward
  forward_all-buffered s [] portid q = elim (Bool-cases (q == dst_ports portid)) [
    | inl e ↦ rw e (sym (append-nil (s.buffered q)))
    | inr e ↦ rw e refl
  ]
  forward_all-buffered s (m ∷ pkts) portid q =
      forward_all-buffered (l2fwd_simple_forward d dst_ports mac_updating ports_eth_addr s m portid)
        pkts portid q
      ∙ elim (Bool-cases (q == dst_ports portid)) [
        | inl e ↦
            rw (simple_forward-buffered s m portid q, e)
              (snoc_append (s.buffered (dst_ports portid)) pkts m
                ∙ ap (λ p. s.buffered p ++ (m ∷ pkts)) (sym ((==_iff q (dst_ports portid)).0 e)))
        | inr e ↦ rw (simple_forward-buffered s m portid q, e) refl
      ]

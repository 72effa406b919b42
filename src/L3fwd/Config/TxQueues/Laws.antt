-- ===== src/L3fwd/Config/TxQueues/Laws.antt =====
-- l3fwd/main.c: no two cores share a transmit queue.
use dpdk_practice.Base.{
  ℕ, ◌≤◌, ◌<◌, Bool, true, [], ◌∷◌, ◌++◌, some, ◌≡◌, ◌≢◌, refl, sym, ◌∙◌, arith, ◌⊎◌, inl, inr,
  rank, rank_lt,
}
use dpdk_practice.L3fwd.Config.TxQueues.{TxQueues, add_tx_queues}
use dpdk_practice.L3fwd.Config.TxQueues.Cores.{Given, add_tx_queues-Given}

module _ (lcore_enabled : ℕ → Bool) (tx_queue_setup : ℕ → ℕ → ℕ → Bool) (max_lcore : ℕ) where
  ranks_differ :
      (a b : ℕ)
      → lcore_enabled a ≡ true
      → lcore_enabled b ≡ true
      → a ≢ b
      → rank lcore_enabled a ≢ rank lcore_enabled b
  ranks_differ a b on_a on_b ne same = elim apart [
    | inl less ↦ (let lt = rank_lt lcore_enabled a b less on_a in omega (arith, lt, same))
    | inr less ↦ (let lt = rank_lt lcore_enabled b a less on_b in omega (arith, lt, same))
  ]
    where
      apart : (a < b) ⊎ (b < a)
      apart = ground (arith, ne)

  -- From `s` to `t`, the port is added to the ports that each core sends to, by a queue that the port
  -- has and that is the core's own; the queues on other ports stay.
  pub record Private (portid n_tx_queue : ℕ) (s t : TxQueues) : Type 0 where
    pub sends_to :
        (lcore : ℕ)
        → lcore < max_lcore
        → lcore_enabled lcore ≡ true
        → t.tx_port_id lcore ≡ s.tx_port_id lcore ++ (portid ∷ [])
    pub below :
        (lcore : ℕ)
        → lcore < max_lcore
        → lcore_enabled lcore ≡ true
        → t.tx_queue_id lcore portid < n_tx_queue
    pub alone :
        (a b : ℕ)
        → a < max_lcore
        → b < max_lcore
        → lcore_enabled a ≡ true
        → lcore_enabled b ≡ true
        → a ≢ b
        → t.tx_queue_id a portid ≢ t.tx_queue_id b portid
    pub others : (lcore q : ℕ) → q ≢ portid → t.tx_queue_id lcore q ≡ s.tx_queue_id lcore q

  -- If a port has been given at least as many transmit queues as there are enabled cores, and
  -- rte_eth_tx_queue_setup takes every queue below that number, then the loop over the cores of
  -- l3fwd_poll_resource_setup does not exit and sets up as many queues as there are enabled cores;
  -- afterwards the port is the last in each enabled core's list of ports to send to, by a queue
  -- that the port has and no other enabled core uses there, and the queues on the other ports are
  -- unchanged.
  pub add_tx_queues-Private :
      (portid n_tx_queue : ℕ) (s : TxQueues)
      → rank lcore_enabled max_lcore ≤ n_tx_queue
      → ((q : ℕ) → q < n_tx_queue → tx_queue_setup portid n_tx_queue q ≡ true)
      → (t : TxQueues) × (add_tx_queues lcore_enabled tx_queue_setup portid n_tx_queue max_lcore 0
            (0, s)
          ≡ some (rank lcore_enabled max_lcore, t))
        × Private portid n_tx_queue s t
  add_tx_queues-Private portid n_tx_queue s enough takes =
      let (t, e, g) =
        add_tx_queues-Given lcore_enabled tx_queue_setup portid n_tx_queue takes max_lcore 0
          max_lcore 0 s s (omega arith) enough refl none_given in
      (
        t,
        e,
        record {
          sends_to = g.ports;
          below = λ lcore lt on.
              omega
                (arith, g.queue lcore lt on, enough, rank_lt lcore_enabled lcore max_lcore lt on);
          alone = λ a b lt_a lt_b on_a on_b ne same.
              ranks_differ a b on_a on_b ne
                (sym (g.queue a lt_a on_a) ∙ same ∙ g.queue b lt_b on_b);
          others = g.others;
        },
      )
    where
      none_given : Given lcore_enabled tx_queue_setup portid 0 s s
      none_given = record {
        ports = λ lcore lt _. absurd (omega (arith, lt));
        queue = λ lcore lt _. absurd (omega (arith, lt));
        others = λ lcore q _. refl;
        later = λ lcore _. refl;
      }

-- ===== src/L3fwd/Config/TxQueues/Tests.antt =====
-- Cores 0 and 2 of three get a queue on port 3.
use dpdk_practice.Base.{ℕ, ◌/◌, Bool, not, [], ◌∷◌, some, ltb, ◌==◌, ◌≡◌, arith, rank}
use dpdk_practice.L3fwd.Config.TxQueues.{TxQueues, add_tx_queues}
use dpdk_practice.L3fwd.Config.TxQueues.Laws.{Private, add_tx_queues-Private}

abbrev lcore_enabled : ℕ → Bool
lcore_enabled lcore = not (lcore == 1)

abbrev tx_queue_setup : ℕ → ℕ → ℕ → Bool
tx_queue_setup portid n_tx_queue queueid = ltb queueid n_tx_queue

-- Port 1 has been set up.
abbrev one_port : TxQueues
one_port = record { tx_port_id = λ lcore. 1 ∷ []; tx_queue_id = λ lcore portid. lcore / 2 }

add_tx_queues-Private_example :
    (t : TxQueues) × (add_tx_queues lcore_enabled tx_queue_setup 3 2 3 0 (0, one_port)
      ≡ some (rank lcore_enabled 3, t))
    × Private lcore_enabled tx_queue_setup 3 3 2 one_port t
add_tx_queues-Private_example =
    add_tx_queues-Private lcore_enabled tx_queue_setup 3 3 2 one_port (omega arith)
      (λ q lt. ground (arith, lt))

-- ===== src/L3fwd/Config/TxQueues.antt =====
-- l3fwd/main.c: the loop of l3fwd_poll_resource_setup that gives each core a transmit queue on a port.
pub mod Cores
pub mod Laws
mod Tests
use dpdk_practice.Base.{
  ◌>>=◌, ℕ, zero, suc, ◌+◌, Bool, List, [], ◌∷◌, ◌++◌, Option, none, some, if◌then◌else◌, update,
}

-- `tx_port_id`, with `n_tx_port` as its length, and `tx_queue_id` by the port, of each core.
pub record TxQueues : Type 0 where
  pub tx_port_id : ℕ → List ℕ
  pub tx_queue_id : ℕ → ℕ → ℕ

-- rte_lcore_is_enabled; and whether rte_eth_tx_queue_setup succeeds on a port of so many queues, and
-- for which queue.
module _ (lcore_enabled : ℕ → Bool) (tx_queue_setup : ℕ → ℕ → ℕ → Bool) where
  -- One core, with `queueid`. none is the end of the program.
  pub add_tx_queue : ℕ → ℕ → ℕ → ℕ × TxQueues → Option (ℕ × TxQueues)
  add_tx_queue portid n_tx_queue lcore (queueid, s) =
      if lcore_enabled lcore
      then if tx_queue_setup portid n_tx_queue queueid
        then some (
          queueid + 1,
          record {
            tx_port_id = update s.tx_port_id lcore (s.tx_port_id lcore ++ (portid ∷ []));
            tx_queue_id = update s.tx_queue_id lcore (update (s.tx_queue_id lcore) portid queueid);
          },
        )
        else none
      else some (queueid, s)

  -- The loop over the cores from `lcore`, with the rounds left; the
  -- code starts it at core 0 with RTE_MAX_LCORE rounds and queue 0.
  pub add_tx_queues : ℕ → ℕ → ℕ → ℕ → ℕ × TxQueues → Option (ℕ × TxQueues)
  add_tx_queues portid n_tx_queue zero lcore s = some s
  add_tx_queues portid n_tx_queue (suc rounds) lcore s =
      add_tx_queue portid n_tx_queue lcore s >>= add_tx_queues portid n_tx_queue rounds (lcore + 1)

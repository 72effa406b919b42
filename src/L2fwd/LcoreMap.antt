-- ===== src/L2fwd/LcoreMap.antt =====
-- l2fwd/main.c, main: which logical core polls which port.
pub mod Polled
pub mod Laws
use dpdk_practice.Base.{
  ℕ, zero, suc, ◌+◌, ◌-◌, Bool, true, false, ◌||◌, not, List, [], ◌∷◌, ◌++◌, length, update, ◌==◌,
  leb, if◌then◌else◌,
}
use dpdk_practice.Base.Bits.{has_bit}

-- `lcore_queue_conf`: `rx_port_list[0 .. n_rx_port)` of each core.
abbrev pub LcoreConf : Type 0
LcoreConf = ℕ → List ℕ

abbrev pub idle : LcoreConf
idle lcore = []

-- `stuck` is no outcome of the code: it stands for a search that its rounds did not suffice for.
pub data Found : Type 0 where
  lcore : ℕ → Found
  not_enough_cores stuck : Found

pub data Assigned : Type 0 where
  assigned : ℕ → LcoreConf → Assigned
  failed : Found → Assigned

-- `qconf->rx_port_list[qconf->n_rx_port] = portid; qconf->n_rx_port++`
unfoldable pub add_port : LcoreConf → ℕ → ℕ → LcoreConf
add_port conf rx_lcore_id portid = update conf rx_lcore_id (conf rx_lcore_id ++ (portid ∷ []))

-- The test of the inner loop: `enabled` is rte_lcore_is_enabled.
unfoldable pub is_busy : (ℕ → Bool) → ℕ → LcoreConf → ℕ → Bool
is_busy enabled per_lcore conf rx_lcore_id =
    not (enabled rx_lcore_id) || length (conf rx_lcore_id) == per_lcore

-- `enabled` is rte_lcore_is_enabled, `max_lcore` RTE_MAX_LCORE, `per_lcore`
-- l2fwd_rx_queue_per_lcore, `mask` l2fwd_enabled_port_mask.
module _ (enabled : ℕ → Bool) (max_lcore per_lcore mask : ℕ) where
  -- The inner loop, by the rounds left.
  unfoldable pub find_lcore : ℕ → LcoreConf → ℕ → Found
  find_lcore zero conf rx_lcore_id = stuck
  find_lcore (suc rounds) conf rx_lcore_id =
      let rest = find_lcore rounds conf (rx_lcore_id + 1) in
      if is_busy enabled per_lcore conf rx_lcore_id
      then if leb max_lcore (rx_lcore_id + 1) then not_enough_cores else rest
      else lcore rx_lcore_id

  unfoldable pub assign_port : LcoreConf → ℕ → ℕ → Assigned
  assign_port conf rx_lcore_id portid =
      elim (find_lcore (max_lcore - rx_lcore_id) conf rx_lcore_id) [
        | lcore id ↦ assigned id (add_port conf id portid)
        | not_enough_cores ↦ failed not_enough_cores
        | stuck ↦ failed stuck
      ]

  -- The loop over the ports.
  unfoldable pub assign_ports : List ℕ → ℕ → LcoreConf → Assigned
  assign_ports [] rx_lcore_id conf = assigned rx_lcore_id conf
  assign_ports (portid ∷ devs) rx_lcore_id conf = elim (has_bit mask portid) [
    | false ↦ assign_ports devs rx_lcore_id conf
    | true ↦ elim (assign_port conf rx_lcore_id portid) [
      | assigned id next ↦ assign_ports devs id next
      | failed why ↦ failed why
    ]
  ]

  unfoldable pub assign_all : List ℕ → Assigned
  assign_all devs = assign_ports devs 0 idle

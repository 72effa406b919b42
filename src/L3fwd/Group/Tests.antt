-- ===== src/L3fwd/Group/Tests.antt =====
-- The grouping of small bursts.
use dpdk_practice.Base.{ℕ, List, [], ◌∷◌, get_or, ◌≡◌, refl}
use dpdk_practice.L3fwd.Group.{
  store_entry, port_groupx4, group_port_step, full_block, last_block, full_blocks, vector_part,
  tail_steps, group_ports,
}

-- Eleven packets for the ports 1, 1, 2, 2, 2, 2, 2, 3, 4, 4 and 5; the array is full of sevens.
abbrev ports : ℕ → ℕ
ports i = get_or (1 ∷ 1 ∷ 2 ∷ 2 ∷ 2 ∷ 2 ∷ 2 ∷ 3 ∷ 4 ∷ 4 ∷ 5 ∷ []) i 0

abbrev sevens : ℕ → ℕ
sevens i = 7

abbrev sizes : ℕ → List ℕ
sizes nb_rx =
    let pnum = group_ports ports sevens 512 nb_rx in
    pnum 0 ∷ pnum 2 ∷ pnum 7 ∷ pnum 8 ∷ pnum 10 ∷ []

sizes_of_eleven : sizes 11 ≡ 2 ∷ 5 ∷ 1 ∷ 2 ∷ 1 ∷ []
unfolding group_ports tail_steps vector_part full_blocks last_block full_block group_port_step
    port_groupx4 store_entry
sizes_of_eleven = refl

-- Three packets: no block of four.
sizes_of_three : sizes 3 ≡ 2 ∷ 1 ∷ 7 ∷ 7 ∷ 7 ∷ []
unfolding group_ports tail_steps vector_part full_blocks last_block full_block group_port_step
    port_groupx4 store_entry
sizes_of_three = refl

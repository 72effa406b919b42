-- ===== src/L2fwd/Tests.antt =====
-- The theorems about l2fwd at concrete inputs.
use dpdk_practice.Base.{
  ℕ, ◌+◌, ◌*◌, ◌≤◌, ◌<◌, Bool, true, false, ◌&&◌, ◌||◌, none, List, [], ◌∷◌, length, ◌==◌,
  if◌then◌else◌, ◌≡◌, refl, arith, mem, ◌⊎◌,
}
use dpdk_practice.Base.Bits.{has_bit}
use dpdk_practice.L2fwd.PairCheck.{
  PortPair, ok, check_port, check_pair, check_pairs, check_port_pair_config,
}
use dpdk_practice.L2fwd.PairCheck.Laws.{
  in_pairs, ArePaired, check_port_pair_config-ok, check_port_pair_config_accepts,
}
use dpdk_practice.L2fwd.DstPorts.{dst_from_pairs, dst_from_neighbours}
use dpdk_practice.L2fwd.DstPorts.Laws.{
  IsPaired, dst_from_pairs-IsPaired, dst_from_neighbours-IsPaired,
}
use dpdk_practice.L2fwd.LcoreMap.{
  LcoreConf, idle, add_port, is_busy, find_lcore, assign_port, assign_ports, assign_all, assigned,
  failed, not_enough_cores,
}
use dpdk_practice.L2fwd.LcoreMap.Polled.{polled, enabled_ports}
use dpdk_practice.L2fwd.LcoreMap.Laws.{cores, assign_all-ok, assign_all-failed}
use dpdk_practice.L2fwd.Args.{Settings, l2fwd_parse_nqueue, l2fwd_parse_port_pair_config}
use dpdk_practice.L2fwd.Args.Laws.{l2fwd_parse_nqueue-numeral}
use dpdk_practice.L2fwd.Args.PortPairs.{Fits, l2fwd_parse_port_pair_config-Fits}
use dpdk_practice.Clib.{Str}
use dpdk_practice.Clib.Numerals.{numeral}
use dpdk_practice.L2fwd.Forward.{Frame, Devices, Loop, forward_all}
use dpdk_practice.L2fwd.Forward.Delivery.{forward_all-buffered}

abbrev all_present : ℕ → Bool
all_present port = true

abbrev crossed : List PortPair
crossed = record { port0 = 0; port1 = 2 } ∷ record { port0 = 1; port1 = 3 } ∷ []

crossed_accepted : check_port_pair_config all_present 31 crossed ≡ ok 15
unfolding check_port_pair_config check_pairs check_pair check_port has_bit
crossed_accepted = refl

check_port_pair_config-ok_example :
    ArePaired all_present 31 crossed × ((p : ℕ) → has_bit 15 p ≡ in_pairs p crossed)
check_port_pair_config-ok_example =
    check_port_pair_config-ok all_present 31 crossed 15 crossed_accepted

crossed-ArePaired : ArePaired all_present 31 crossed
crossed-ArePaired = (check_port_pair_config-ok all_present 31 crossed 15 crossed_accepted).0

check_port_pair_config_accepts_example :
    (new : ℕ) × (check_port_pair_config all_present 31 crossed ≡ ok new)
check_port_pair_config_accepts_example =
    check_port_pair_config_accepts all_present 31 crossed crossed-ArePaired

dst_from_pairs-IsPaired_example : IsPaired (dst_from_pairs crossed) (has_bit 15)
dst_from_pairs-IsPaired_example = dst_from_pairs-IsPaired all_present 31 15 crossed crossed_accepted

abbrev devices : List ℕ
devices = 0 ∷ 1 ∷ 2 ∷ 3 ∷ 4 ∷ 5 ∷ []

dst_from_neighbours-IsPaired_example :
    IsPaired (dst_from_neighbours 22 devices) (λ q. has_bit 22 q && mem q devices)
dst_from_neighbours-IsPaired_example =
    dst_from_neighbours-IsPaired 22 devices (refl, (refl, (refl, (refl, (refl, (refl, tt))))))

-- Cores 0 and 2 are enabled.
abbrev two_cores : ℕ → Bool
two_cores l = l == 0 || l == 2

abbrev filled : LcoreConf
filled = add_port (add_port (add_port idle 0 0) 0 1) 2 2

filled_assigned : assign_all two_cores 4 2 7 devices ≡ assigned 2 filled
unfolding assign_all assign_ports assign_port find_lcore is_busy add_port has_bit
filled_assigned = refl

assign_all-ok_example :
    (polled 4 filled ≡ enabled_ports 7 devices)
    × ((l : ℕ) → length (filled l) ≤ 2)
    × ((l : ℕ) → (filled l ≡ []) ⊎ (two_cores l ≡ true))
assign_all-ok_example = assign_all-ok two_cores 4 2 7 devices 2 filled (omega arith) filled_assigned

too_many : assign_all two_cores 4 2 63 devices ≡ failed not_enough_cores
unfolding assign_all assign_ports assign_port find_lcore is_busy add_port has_bit
too_many = refl

assign_all-failed_example :
    (not_enough_cores ≡ not_enough_cores)
    × (cores two_cores 4 2 63 4 * 2 < length (enabled_ports 63 devices))
assign_all-failed_example =
    assign_all-failed two_cores 4 2 63 devices not_enough_cores (omega arith) too_many

-- The decimal numeral 12 and the hexadecimal numeral 1f.
l2fwd_parse_nqueue-numeral_example : l2fwd_parse_nqueue (numeral (1 ∷ 2 ∷ [])) ≡ 12
l2fwd_parse_nqueue-numeral_example =
    l2fwd_parse_nqueue-numeral 1 (2 ∷ []) (omega arith, (omega arith, tt)) (omega arith)

abbrev defaults : Settings
defaults = record {
  enabled_port_mask = 0;
  promiscuous_on = false;
  rx_queue_per_lcore = 1;
  timer_period = 10;
  mac_updating = true;
  nb_port_pair_params = 0;
  port_pair_params_array = [];
  port_pair_params = none;
}

-- A splitter for the one string "0,1".
abbrev split_pair : Str → ℕ → ℕ → List Str
split_pair (a ∷ comma ∷ b ∷ []) n c = (a ∷ []) ∷ (b ∷ []) ∷ []
split_pair s n c = s ∷ []

-- "(0,1)"
abbrev portmap_text : Str
portmap_text = 40 ∷ 48 ∷ 44 ∷ 49 ∷ 41 ∷ []

l2fwd_parse_port_pair_config-Fits_example :
    let r = (l2fwd_parse_port_pair_config 32 split_pair portmap_text defaults).1 in
    Fits 32 split_pair r.port_pair_params_array
    × (r.nb_port_pair_params ≡ length r.port_pair_params_array)
l2fwd_parse_port_pair_config-Fits_example =
    l2fwd_parse_port_pair_config-Fits 32 split_pair portmap_text defaults

abbrev addresses : ℕ → ℕ → ℕ
addresses port i = port * 16 + i

abbrev nines : Frame
nines i = 9

-- A device that sends each buffered packet at once and receives nothing.
abbrev quiet : Devices
quiet = record {
  State = ℕ;
  tx_buffer = λ s port m. (1, s + 1);
  tx_buffer_flush = λ s port. (0, s);
  rx_burst = λ s port n. ([], s);
  rx_burst-le = λ s port n. omega arith;
}

abbrev swap_ports : ℕ → ℕ
swap_ports port = if port == 0 then 1 else 0

abbrev started : Loop quiet swap_ports true addresses
started = record {
  dev = 0;
  frames = λ m. nines;
  tx = λ port. 0;
  rx = λ port. 0;
  buffered = λ port. [];
  prev_tsc = 0;
  timer_tsc = 0;
  printed = [];
}

forward_all-buffered_example :
    (forward_all quiet swap_ports true addresses started (4 ∷ 5 ∷ 6 ∷ []) 0).buffered 1
    ≡ 4 ∷ 5 ∷ 6 ∷ []
forward_all-buffered_example =
    forward_all-buffered quiet swap_ports true addresses started (4 ∷ 5 ∷ 6 ∷ []) 0 1

-- ===== src/L2fwd/DstPorts.antt =====
-- l2fwd/main.c, main: l2fwd_dst_ports, filled from the port pairs or from neighbouring enabled
-- ports.
pub mod Laws
use dpdk_practice.Base.{
  ℕ, zero, suc, ◌+◌, ◌-◌, ◌*◌, ◌/◌, ◌%◌, Bool, List, [], ◌∷◌, length, get_or, update, not, ◌==◌,
  if◌then◌else◌,
}
use dpdk_practice.Base.Bits.{has_bit}
use dpdk_practice.L2fwd.PairCheck.{PortPair}

-- `l2fwd_dst_ports`, indexed by port; `reset` is its state before it is filled.
abbrev pub DstPorts : Type 0
DstPorts = ℕ → ℕ

abbrev pub reset : DstPorts
reset portid = 0

-- `pair.port[p]`
abbrev port_of : PortPair → ℕ → ℕ
port_of pair p = if p == 0 then pair.port0 else pair.port1

abbrev no_pair : PortPair
no_pair = record { port0 = 0; port1 = 0 }

-- The loop body at `idx`: `p` is `idx & 1`, and `p ^ 1` is `1 - p`.
pub set_from_pair : List PortPair → ℕ → DstPorts → DstPorts
set_from_pair pairs idx dst =
    let pair = get_or pairs (idx / 2) no_pair in
    let p = idx % 2 in update dst (port_of pair p) (port_of pair (1 - p))

-- `for (idx = ...; idx < (nb_port_pair_params << 1); idx++)`, by the rounds left.
pub fill_from_pairs : List PortPair → ℕ → ℕ → DstPorts → DstPorts
fill_from_pairs pairs zero idx dst = dst
fill_from_pairs pairs (suc rounds) idx dst =
    fill_from_pairs pairs rounds (idx + 1) (set_from_pair pairs idx dst)

pub dst_from_pairs : List PortPair → DstPorts
dst_from_pairs pairs = fill_from_pairs pairs (length pairs * 2) 0 reset

-- The locals of the other loop.
pub record Walk : Type 0 where
  pub dst : DstPorts
  pub last_port : ℕ
  pub nb_ports_in_mask : ℕ

-- One round of RTE_ETH_FOREACH_DEV.
pub visit : ℕ → Walk → ℕ → Walk
visit mask w portid =
    if not (has_bit mask portid)
    then w
    else if w.nb_ports_in_mask % 2 == 1
    then record w {
      dst = update (update w.dst portid w.last_port) w.last_port portid;
      nb_ports_in_mask = w.nb_ports_in_mask + 1;
    }
    else record w { last_port = portid; nb_ports_in_mask = w.nb_ports_in_mask + 1 }

pub visit_all : ℕ → Walk → List ℕ → Walk
visit_all mask w [] = w
visit_all mask w (portid ∷ devs) = visit_all mask (visit mask w portid) devs

abbrev pub walk_start : Walk
walk_start = record { dst = reset; last_port = 0; nb_ports_in_mask = 0 }

-- An odd port out sends to itself.
pub close_odd : Walk → DstPorts
close_odd w = if w.nb_ports_in_mask % 2 == 1 then update w.dst w.last_port w.last_port else w.dst

pub dst_from_neighbours : ℕ → List ℕ → DstPorts
dst_from_neighbours mask devs = close_odd (visit_all mask walk_start devs)

-- ===== src/L3fwd/Options/Args/Tests.antt =====
-- l3fwd/main.c: parse_args on concrete command lines.
use dpdk_practice.Base.{ℕ, ◌≤◌, true, false, List, [], ◌∷◌, none, some, ◌≡◌, refl, arith}
use dpdk_practice.Clib.{Str, strtoul}
use dpdk_practice.L3fwd.Config.{parse_portmask}
use dpdk_practice.L3fwd.Config.Triples.{IsTriple}
use dpdk_practice.L3fwd.Acl.Alg.{default_alg}
use dpdk_practice.L3fwd.Options.{
  lookup_default, lookup_acl, EventResources, atomic, Options, eventdev_name, parse_lookup,
  parse_mode, parse_pkt_burst, parse_eth_dest,
}
use dpdk_practice.L3fwd.Options.Args.{
  Opt, portmask, lookup, pkt_rx_burst, eth_dest, mode, enable_vector, Dpdk, apply_opt, apply_opts,
  vector_defaults, finish_args, parse_args,
}
use dpdk_practice.L3fwd.Options.Args.Bounds.{Bounded, Ready, parse_args-Ready}
use dpdk_practice.L3fwd.Options.Args.Modes.{mode_result}

abbrev dpdk : Dpdk
dpdk = record {
  rte_max_ethports = 32;
  rte_max_queues_per_port = 1024;
  rte_max_lcore = 128;
  rte_mempool_cache_max_size = 512;
  rss_udp_tcp_sctp = 7;
  rte_strsplit = λ s n c. [];
  etheraddr = λ s. some (λ i. 17);
  recommended_burst = some 48;
}

abbrev polling : EventResources
polling = record {
  enabled = false;
  sched_type = atomic;
  eth_rx_queues = 1;
  vector_enabled = false;
  vector_size = 0;
  vector_tmo_ns = 0;
}

abbrev defaults : Options
defaults = record {
  enabled_port_mask = 0;
  promiscuous_on = false;
  lookup_mode = lookup_default;
  lcore_params =
      record { port_id = 0; queue_id = 0; lcore_id = 2 }
      ∷ record { port_id = 0; queue_id = 1; lcore_id = 2 }
      ∷ [];
  nb_rxd = 1024;
  nb_txd = 1024;
  rx_burst_size = 32;
  tx_burst_size = 32;
  mb_mempool_cache_size = 512;
  dest_eth_addr = λ port i. 2;
  val_eth = λ port i. 2;
  numa_on = true;
  ipv6 = false;
  max_pkt_len = 0;
  parse_ptype = false;
  relax_rx_offload = false;
  disable_rss = false;
  per_port_pool = false;
  rule_ipv4_name = none;
  rule_ipv6_name = none;
  alg = default_alg;
  rss_hf = 8;
  evt_rsrc = polling;
}

abbrev acl_name : Str
acl_name = b'a' ∷ b'c' ∷ b'l' ∷ []

-- -p f --lookup acl --rx-burst 64 --eth-dest 1,z --mode eventdev --event-vector
abbrev opts : List Opt
opts =
    portmask (b'f' ∷ [])
    ∷ lookup acl_name
    ∷ pkt_rx_burst (b'6' ∷ b'4' ∷ [])
    ∷ eth_dest (b'1' ∷ b',' ∷ b'z' ∷ [])
    ∷ mode eventdev_name
    ∷ enable_vector
    ∷ []

triple :
    (queue : ℕ)
    → queue ≤ 1024
    → IsTriple 32 1024 128 dpdk.rte_strsplit
        (record { port_id = 0; queue_id = queue; lcore_id = 2 })
triple queue h = record { port_id-le = omega arith; queue_id-le = h; lcore_id-le = omega arith }

defaults-Bounded : Bounded dpdk defaults
defaults-Bounded = record {
  rxd = omega arith;
  txd = omega arith;
  rx = omega arith;
  tx = omega arith;
  cache-le = omega arith;
  triples = (omega arith, (triple 0 (omega arith), (triple 1 (omega arith), tt)));
}

parse_args-Ready_example : Ready dpdk (parse_args dpdk opts defaults)
parse_args-Ready_example = parse_args-Ready dpdk opts defaults defaults-Bounded

opts_taken : mode_result (parse_args dpdk opts defaults) ≡ some lookup_acl
unfolding parse_args apply_opts apply_opt parse_portmask parse_lookup parse_pkt_burst parse_eth_dest
    parse_mode finish_args vector_defaults strtoul
opts_taken = refl

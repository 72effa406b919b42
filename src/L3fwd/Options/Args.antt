-- ===== src/L3fwd/Options/Args.antt =====
-- l3fwd/main.c: parse_args.
mod Tests
pub mod Bounds
pub mod Spec
pub mod Tracking
pub mod Modes
use dpdk_practice.Base.{
  ℕ, ◌%◌, Bool, true, false, ◌&&◌, not, List, [], ◌∷◌, Option, none, some, ◌==◌, if◌then◌else◌,
  bit_or,
}
use dpdk_practice.Clib.{Str, strtoul, strtol}
use dpdk_practice.L3fwd.Rfc1812.{Frame}
use dpdk_practice.L3fwd.Tx.{max_pkt_burst}
use dpdk_practice.L3fwd.Config.{
  parse_max_pkt_len, parse_portmask, parse_queue_size, parse_mbcache_size, parse_config,
}
use dpdk_practice.L3fwd.Acl.Alg.{parse_acl_alg}
use dpdk_practice.L3fwd.Options.{
  LookupMode, lookup_default, lookup_lpm, lookup_em, lookup_fib, lookup_acl, EventResources,
  Options, parse_eth_dest, parse_mode, parse_eventq_sched, parse_event_eth_rx_queues, parse_lookup,
  parse_pkt_burst,
}

-- What getopt_long gives, with `optarg`; `other` is the default case.
pub data Opt : Type 0 where
  portmask config rx_queue_size tx_queue_size pkt_rx_burst pkt_tx_burst mb_cache_size eth_dest
        max_pkt_len mode eventq_sync event_eth_rx_queues vector_size vector_tmo_ns lookup rule_ipv4
        rule_ipv6 alg_name :
      Str → Opt
  promiscuous exact_match longest_prefix no_numa use_ipv6 hash_entry_num parse_ptype
        relax_rx_offload disable_rss per_port_pool enable_vector other :
      Opt

-- The options and the local variables of parse_args.
pub record ParseState : Type 0 where
  pub options : Options
  pub lcore_params : Bool
  pub eventq_sched : Bool
  pub eth_rx_q : Bool

-- The program exits, parse_args returns -1, or it goes on.
pub data Step : Type 0 where
  exited refused : Step
  going : ParseState → Step

-- What parse_args does in the end.
pub data Parsed : Type 0 where
  quit failed : Parsed
  parsed : Options → Parsed

abbrev pub set : ParseState → Options → Step
set s c = going (record s { options = c })

abbrev pub set_event : ParseState → EventResources → Step
set_event s e = set s (record s.options { evt_rsrc = e })

abbrev pub or_exit : ParseState → Option Options → Step
or_exit s none = exited
or_exit s (some c) = set s c

-- A lookup mode, if none has been selected.
abbrev pub select : ParseState → Option LookupMode → Step
select s none = refused
select s (some m) = elim s.options.lookup_mode [
  | lookup_default ↦ set s (record s.options { lookup_mode = m })
  | _ ↦ refused
]

-- The constants and the calls of the DPDK library.
pub record Dpdk : Type 0 where
  pub rte_max_ethports : ℕ
  pub rte_max_queues_per_port : ℕ
  pub rte_max_lcore : ℕ
  pub rte_mempool_cache_max_size : ℕ
  pub rss_udp_tcp_sctp : ℕ
  pub rte_strsplit : Str → ℕ → ℕ → List Str
  pub etheraddr : Str → Option Frame
  pub recommended_burst : Option ℕ

module _ (d : Dpdk) where
  -- `case` by `case` of the switch.
  pub apply_opt : Opt → ParseState → Step
  apply_opt (portmask optarg) s =
      let mask = parse_portmask optarg in
      if mask == 0 then refused else set s (record s.options { enabled_port_mask = mask })
  apply_opt promiscuous s = set s (record s.options { promiscuous_on = true })
  apply_opt exact_match s = select s (some lookup_em)
  apply_opt longest_prefix s = select s (some lookup_lpm)
  apply_opt (config optarg) s =
      let (ok, stored) =
        parse_config d.rte_max_ethports d.rte_max_queues_per_port d.rte_max_lcore d.rte_strsplit
          optarg in
      if ok
      then going
          (record s { options = record s.options { lcore_params = stored }; lcore_params = true })
      else refused
  apply_opt (rx_queue_size optarg) s = elim (parse_queue_size optarg) [
    | none ↦ exited
    | some size ↦ set s (record s.options { nb_rxd = size })
  ]
  apply_opt (tx_queue_size optarg) s = elim (parse_queue_size optarg) [
    | none ↦ exited
    | some size ↦ set s (record s.options { nb_txd = size })
  ]
  apply_opt (pkt_rx_burst optarg) s = set s (record s.options {
    rx_burst_size = parse_pkt_burst d.recommended_burst optarg true s.options.rx_burst_size;
  })
  apply_opt (pkt_tx_burst optarg) s = set s (record s.options {
    tx_burst_size = parse_pkt_burst d.recommended_burst optarg false s.options.tx_burst_size;
  })
  apply_opt (mb_cache_size optarg) s =
      elim (parse_mbcache_size d.rte_mempool_cache_max_size optarg
        s.options.mb_mempool_cache_size) [
          | none ↦ exited
          | some size ↦ set s (record s.options { mb_mempool_cache_size = size })
        ]
  apply_opt (eth_dest optarg) s =
      or_exit s (parse_eth_dest d.etheraddr d.rte_max_ethports optarg s.options)
  apply_opt no_numa s = set s (record s.options { numa_on = false })
  apply_opt use_ipv6 s = set s (record s.options { ipv6 = true })
  apply_opt (max_pkt_len optarg) s =
      set s (record s.options { max_pkt_len = parse_max_pkt_len optarg })
  apply_opt hash_entry_num s = going s
  apply_opt parse_ptype s = set s (record s.options { parse_ptype = true })
  apply_opt relax_rx_offload s = set s (record s.options { relax_rx_offload = true })
  apply_opt disable_rss s = set s (record s.options { disable_rss = true })
  apply_opt per_port_pool s = set s (record s.options { per_port_pool = true })
  apply_opt (mode optarg) s =
      let e = s.options.evt_rsrc in set_event s (record e { enabled = parse_mode optarg e.enabled })
  apply_opt (eventq_sync optarg) s =
      let e = s.options.evt_rsrc in
      let synced = record e { sched_type = parse_eventq_sched optarg e.sched_type } in
      going (record s { options = record s.options { evt_rsrc = synced }; eventq_sched = true })
  apply_opt (event_eth_rx_queues optarg) s =
      let e = s.options.evt_rsrc in
      let counted = record e { eth_rx_queues = parse_event_eth_rx_queues optarg e.eth_rx_queues } in
      going (record s { options = record s.options { evt_rsrc = counted }; eth_rx_q = true })
  apply_opt enable_vector s = set_event s (record s.options.evt_rsrc { vector_enabled = true })
  apply_opt (vector_size optarg) s =
      set_event s (record s.options.evt_rsrc { vector_size = (strtol optarg 10).value % 65536 })
  apply_opt (vector_tmo_ns optarg) s =
      set_event s (record s.options.evt_rsrc { vector_tmo_ns = (strtoul optarg 10).value })
  apply_opt (lookup optarg) s = select s (parse_lookup optarg)
  apply_opt (rule_ipv4 optarg) s = set s (record s.options { rule_ipv4_name = some optarg })
  apply_opt (rule_ipv6 optarg) s = set s (record s.options { rule_ipv6_name = some optarg })
  apply_opt (alg_name optarg) s = set s (record s.options { alg = parse_acl_alg optarg })
  apply_opt other s = refused

  abbrev pub and_then : Step → (ParseState → Step) → Step
  and_then exited k = exited
  and_then refused k = refused
  and_then (going s) k = k s

  -- The loop, option by option.
  pub apply_opts : List Opt → ParseState → Step
  apply_opts [] s = going s
  apply_opts (o ∷ opts) s = and_then (apply_opt o s) (apply_opts opts)

  -- The sizes of an event vector that the user has not given: VECTOR_SIZE_DEFAULT and
  -- VECTOR_TMO_NS_DEFAULT.
  pub vector_defaults : EventResources → EventResources
  vector_defaults e =
      let sized : EventResources =
        if e.vector_enabled && e.vector_size == 0
        then record e { vector_size = max_pkt_burst }
        else e in
      if sized.vector_enabled && sized.vector_tmo_ns == 0
      then record sized { vector_tmo_ns = 1000000 }
      else sized

  abbrev pub selected : LookupMode → LookupMode
  selected lookup_default = lookup_lpm
  selected m = m

  abbrev pub rss_for : LookupMode → ℕ → ℕ
  rss_for lookup_acl rss_hf = bit_or rss_hf d.rss_udp_tcp_sctp
  rss_for m rss_hf = rss_hf

  -- The options with the defaults that depend on the others.
  abbrev pub finished_options : Options → Options
  finished_options c =
      let lookup_mode = selected c.lookup_mode in
      record c {
        evt_rsrc = vector_defaults c.evt_rsrc;
        lookup_mode = lookup_mode;
        rss_hf = rss_for lookup_mode c.rss_hf;
      }

  -- What stands behind the loop.
  pub finish_args : ParseState → Parsed
  finish_args s =
      let enabled = s.options.evt_rsrc.enabled in
      if enabled && s.lcore_params
      then failed
      else if not enabled && s.eth_rx_q
      then failed
      else if not enabled && s.eventq_sched
      then failed
      else parsed (finished_options s.options)

  abbrev pub outcome : Step → Parsed
  outcome exited = quit
  outcome refused = failed
  outcome (going s) = finish_args s

  pub parse_args : List Opt → Options → Parsed
  parse_args opts c = outcome (
      apply_opts opts
        (record { options = c; lcore_params = false; eventq_sched = false; eth_rx_q = false }))

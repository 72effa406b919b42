-- ===== src/L3fwd/Options/Args/Bounds.antt =====
-- l3fwd/main.c: the options that parse_args accepts are within their bounds.
use dpdk_practice.Base.{
  ℕ, ◌%◌, ◌≤◌, ◌<◌, Bool, true, false, ◌&&◌, ◌||◌, not, List, [], ◌∷◌, Option, none, some, leb,
  ◌==◌, if◌then◌else◌, ◌≡◌, ◌≢◌, arith, inl, inr, Bool-cases, Option-cases, drop,
}
use dpdk_practice.Clib.{Str, char_at, strtoul}
use dpdk_practice.L3fwd.Tx.{max_pkt_burst}
use dpdk_practice.L3fwd.Config.{
  parse_portmask, parse_queue_size, parse_mbcache_size, parse_config, LcoreParams,
}
use dpdk_practice.L3fwd.Config.Sizes.{parse_queue_size-bounds, parse_mbcache_size-le}
use dpdk_practice.L3fwd.Config.Triples.{Fits, parse_config-Fits}
use dpdk_practice.L3fwd.Options.{
  LookupMode, lookup_default, lookup_lpm, lookup_em, lookup_fib, lookup_acl, EventResources,
  Options, parse_eth_dest, parse_lookup, parse_pkt_burst,
}
use dpdk_practice.L3fwd.Options.Args.{
  Opt, ParseState, Step, exited, refused, going, Parsed, quit, failed, parsed, Dpdk, select,
  or_exit, mode, config, portmask, rx_queue_size, tx_queue_size, pkt_rx_burst, pkt_tx_burst,
  mb_cache_size, eth_dest, max_pkt_len, eventq_sync, event_eth_rx_queues, vector_size,
  vector_tmo_ns, lookup, rule_ipv4, rule_ipv6, alg_name, promiscuous, exact_match, longest_prefix,
  no_numa, use_ipv6, hash_entry_num, parse_ptype, relax_rx_offload, disable_rss, per_port_pool,
  enable_vector, other, selected, apply_opt, and_then, apply_opts, vector_defaults, finish_args,
  finished_options, outcome, parse_args,
}

-- A size of a burst that the buffers can hold.
abbrev pub IsBurst : ℕ → Type 0
IsBurst n = (0 < n) × (n ≤ max_pkt_burst)

parse_pkt_burst-IsBurst :
    (recommended : Option ℕ) (text : Str) (is_rx_burst : Bool) (old : ℕ)
    → IsBurst old
    → IsBurst (parse_pkt_burst recommended text is_rx_burst old)
unfolding parse_pkt_burst
parse_pkt_burst-IsBurst recommended text is_rx_burst old h = (ground (arith, h), ground (arith, h))

module _ (d : Dpdk) where
  -- Ring sizes that fit 16 bits, bursts that the buffers hold, a cache that the pool allows, and
  -- triples within the limits of parse_config.
  pub record InBounds (nb_rxd nb_txd rx_burst tx_burst cache : ℕ) (params : List LcoreParams)
      : Type 0 where
    pub rxd : (0 < nb_rxd) × (nb_rxd ≤ 65535)
    pub txd : (0 < nb_txd) × (nb_txd ≤ 65535)
    pub rx : IsBurst rx_burst
    pub tx : IsBurst tx_burst
    pub cache-le : cache ≤ d.rte_mempool_cache_max_size
    pub triples :
        Fits d.rte_max_ethports d.rte_max_queues_per_port d.rte_max_lcore d.rte_strsplit params

  abbrev pub Bounded : Options → Type 0
  Bounded c =
      InBounds c.nb_rxd c.nb_txd c.rx_burst_size c.tx_burst_size c.mb_mempool_cache_size
        c.lcore_params

  abbrev StepBounded : Step → Type 0
  StepBounded exited = Unit {0}
  StepBounded refused = Unit {0}
  StepBounded (going s) = Bounded s.options

  abbrev OptionBounded : Option Options → Type 0
  OptionBounded none = Unit {0}
  OptionBounded (some c) = Bounded c

  select-Bounded :
      (s : ParseState) (m : Option LookupMode) → Bounded s.options → StepBounded (select s m)
  select-Bounded s none h = tt
  select-Bounded s (some m) h = by_mode s.options.lookup_mode
    where
      by_mode :
          (old : LookupMode)
          → StepBounded (elim old [
            | lookup_default ↦ going (record s { options = record s.options { lookup_mode = m } })
            | _ ↦ refused
          ])
      by_mode lookup_default = h
      by_mode lookup_lpm = tt
      by_mode lookup_em = tt
      by_mode lookup_fib = tt
      by_mode lookup_acl = tt

  unless-Bounded :
      (b : Bool) (o : Option Options) → OptionBounded o → OptionBounded (if b then none else o)
  unless-Bounded true o h = tt
  unless-Bounded false o h = h

  parse_eth_dest-Bounded :
      (optarg : Str) (c : Options)
      → Bounded c
      → OptionBounded (parse_eth_dest d.etheraddr d.rte_max_ethports optarg c)
  unfolding parse_eth_dest
  parse_eth_dest-Bounded optarg c h =
      (let n = strtoul optarg 10 in
        unless-Bounded (n.range || not n.converted || not (char_at n.rest == b',')) _ (
          unless-Bounded (leb d.rte_max_ethports (n.value % 65536)) _
            (elim (Option-cases (d.etheraddr (drop 1 n.rest))) [
              | inl unknown ↦ rw unknown tt
              | inr (peer_addr, e) ↦ rw e h
            ])))

  or_exit-Bounded :
      (s : ParseState) (o : Option Options) → OptionBounded o → StepBounded (or_exit s o)
  or_exit-Bounded s none h = tt
  or_exit-Bounded s (some c) h = h

  apply_opt-Bounded : (o : Opt) (s : ParseState) → Bounded s.options → StepBounded (apply_opt d o s)
  unfolding apply_opt
  apply_opt-Bounded (portmask optarg) s h = elim (Bool-cases (parse_portmask optarg == 0)) [
    | inl e ↦ rw (apply_opt, e) tt
    | inr e ↦ rw (apply_opt, e) h
  ]
  apply_opt-Bounded promiscuous s h = h
  apply_opt-Bounded exact_match s h = select-Bounded s (some lookup_em) h
  apply_opt-Bounded longest_prefix s h = select-Bounded s (some lookup_lpm) h
  apply_opt-Bounded (config optarg) s h = elim (Bool-cases (stored optarg).0) [
    | inl e ↦
        rw (apply_opt, e)
          (record {
            rxd = h.rxd;
            txd = h.txd;
            rx = h.rx;
            tx = h.tx;
            cache-le = h.cache-le;
            triples =
                parse_config-Fits d.rte_max_ethports d.rte_max_queues_per_port d.rte_max_lcore
                  d.rte_strsplit optarg;
          })
    | inr e ↦ rw (apply_opt, e) tt
  ]
    where
      stored : Str → Bool × List LcoreParams
      stored =
          parse_config d.rte_max_ethports d.rte_max_queues_per_port d.rte_max_lcore d.rte_strsplit
  apply_opt-Bounded (rx_queue_size optarg) s h = elim (Option-cases (parse_queue_size optarg)) [
    | inl e ↦ rw (apply_opt, e) tt
    | inr (v, e) ↦
        rw (apply_opt, e)
          (record {
            rxd = parse_queue_size-bounds optarg v e;
            txd = h.txd;
            rx = h.rx;
            tx = h.tx;
            cache-le = h.cache-le;
            triples = h.triples;
          })
  ]
  apply_opt-Bounded (tx_queue_size optarg) s h = elim (Option-cases (parse_queue_size optarg)) [
    | inl e ↦ rw (apply_opt, e) tt
    | inr (v, e) ↦
        rw (apply_opt, e)
          (record {
            rxd = h.rxd;
            txd = parse_queue_size-bounds optarg v e;
            rx = h.rx;
            tx = h.tx;
            cache-le = h.cache-le;
            triples = h.triples;
          })
  ]
  apply_opt-Bounded (pkt_rx_burst optarg) s h = record {
    rxd = h.rxd;
    txd = h.txd;
    rx = parse_pkt_burst-IsBurst d.recommended_burst optarg true s.options.rx_burst_size h.rx;
    tx = h.tx;
    cache-le = h.cache-le;
    triples = h.triples;
  }
  apply_opt-Bounded (pkt_tx_burst optarg) s h = record {
    rxd = h.rxd;
    txd = h.txd;
    rx = h.rx;
    tx = parse_pkt_burst-IsBurst d.recommended_burst optarg false s.options.tx_burst_size h.tx;
    cache-le = h.cache-le;
    triples = h.triples;
  }
  apply_opt-Bounded (mb_cache_size optarg) s h =
      elim (Option-cases (parse_mbcache_size most optarg s.options.mb_mempool_cache_size)) [
        | inl e ↦ rw (apply_opt, e) tt
        | inr (v, e) ↦
            rw (apply_opt, e)
              (record {
                rxd = h.rxd;
                txd = h.txd;
                rx = h.rx;
                tx = h.tx;
                cache-le =
                    parse_mbcache_size-le most optarg s.options.mb_mempool_cache_size v h.cache-le
                      e;
                triples = h.triples;
              })
      ]
    where
      most : ℕ
      most = d.rte_mempool_cache_max_size
  apply_opt-Bounded (eth_dest optarg) s h =
      or_exit-Bounded s (parse_eth_dest d.etheraddr d.rte_max_ethports optarg s.options)
        (parse_eth_dest-Bounded optarg s.options h)
  apply_opt-Bounded no_numa s h = h
  apply_opt-Bounded use_ipv6 s h = h
  apply_opt-Bounded (max_pkt_len optarg) s h = h
  apply_opt-Bounded hash_entry_num s h = h
  apply_opt-Bounded parse_ptype s h = h
  apply_opt-Bounded relax_rx_offload s h = h
  apply_opt-Bounded disable_rss s h = h
  apply_opt-Bounded per_port_pool s h = h
  apply_opt-Bounded (mode optarg) s h = h
  apply_opt-Bounded (eventq_sync optarg) s h = h
  apply_opt-Bounded (event_eth_rx_queues optarg) s h = h
  apply_opt-Bounded enable_vector s h = h
  apply_opt-Bounded (vector_size optarg) s h = h
  apply_opt-Bounded (vector_tmo_ns optarg) s h = h
  apply_opt-Bounded (lookup optarg) s h = select-Bounded s (parse_lookup optarg) h
  apply_opt-Bounded (rule_ipv4 optarg) s h = h
  apply_opt-Bounded (rule_ipv6 optarg) s h = h
  apply_opt-Bounded (alg_name optarg) s h = h
  apply_opt-Bounded other s h = tt

  and_then-Bounded :
      (t : Step) (k : ParseState → Step)
      → StepBounded t
      → ((s : ParseState) → Bounded s.options → StepBounded (k s))
      → StepBounded (and_then d t k)
  and_then-Bounded exited k h rest = tt
  and_then-Bounded refused k h rest = tt
  and_then-Bounded (going s) k h rest = rest s h

  apply_opts-Bounded :
      (opts : List Opt) (s : ParseState) → Bounded s.options → StepBounded (apply_opts d opts s)
  unfolding apply_opts
  apply_opts-Bounded [] s h = h
  apply_opts-Bounded (o ∷ opts) s h =
      and_then-Bounded (apply_opt d o s) (apply_opts d opts) (apply_opt-Bounded o s h)
        (apply_opts-Bounded opts)

  vector_defaults-positive :
      (e : EventResources)
      → (vector_defaults d e).vector_enabled ≡ true
      → (0 < (vector_defaults d e).vector_size) × (0 < (vector_defaults d e).vector_tmo_ns)
  unfolding vector_defaults
  vector_defaults-positive e h = (ground (arith, h), ground (arith, h))

  selected-ne : (m : LookupMode) → selected d m ≢ lookup_default
  selected-ne lookup_default e = cc
  selected-ne lookup_lpm e = cc
  selected-ne lookup_em e = cc
  selected-ne lookup_fib e = cc
  selected-ne lookup_acl e = cc

  -- What the rest of the program relies on.
  pub record IsReady (c : Options) : Type 0 where
    pub bounded : Bounded c
    pub has_mode : c.lookup_mode ≢ lookup_default
    pub vectors :
        c.evt_rsrc.vector_enabled ≡ true
        → (0 < c.evt_rsrc.vector_size) × (0 < c.evt_rsrc.vector_tmo_ns)

  abbrev pub Ready : Parsed → Type 0
  Ready quit = Unit {0}
  Ready failed = Unit {0}
  Ready (parsed c) = IsReady c

  unless-Ready :
      (a b c : Bool) (p : Parsed)
      → Ready p
      → Ready (if a then failed else if b then failed else if c then failed else p)
  unless-Ready true b c p h = tt
  unless-Ready false true c p h = tt
  unless-Ready false false true p h = tt
  unless-Ready false false false p h = h

  finish_args-Ready : (s : ParseState) → Bounded s.options → Ready (finish_args d s)
  unfolding finish_args
  finish_args-Ready s h =
      (let ready : IsReady (finished_options d s.options) = record {
        bounded = h;
        has_mode = selected-ne s.options.lookup_mode;
        vectors = vector_defaults-positive s.options.evt_rsrc;
      } in
        let enabled = s.options.evt_rsrc.enabled in
        unless-Ready (enabled && s.lcore_params) (not enabled && s.eth_rx_q)
          (not enabled && s.eventq_sched) (parsed (finished_options d s.options)) ready)

  outcome-Ready : (t : Step) → StepBounded t → Ready (outcome d t)
  outcome-Ready exited h = tt
  outcome-Ready refused h = tt
  outcome-Ready (going s) h = finish_args-Ready s h

  -- If the variables are within their bounds before, then for every command line that parse_args
  -- accepts they are within them afterwards (ring sizes from 1 to 65535, burst sizes from 1 to
  -- MAX_PKT_BURST, the cache at most RTE_MEMPOOL_CACHE_MAX_SIZE, the triples as parse_config limits
  -- them), a lookup is selected, and an event vector that is enabled has a size and a timeout other
  -- than 0.
  pub parse_args-Ready : (opts : List Opt) (c : Options) → Bounded c → Ready (parse_args d opts c)
  unfolding parse_args
  parse_args-Ready opts c h = outcome-Ready _ (apply_opts-Bounded opts _ h)

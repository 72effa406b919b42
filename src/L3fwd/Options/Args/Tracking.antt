-- ===== src/L3fwd/Options/Args/Tracking.antt =====
-- l3fwd/main.c: parse_args does to its state what the options say.
use dpdk_practice.Base.{
  ℕ, ◌>>=◌, ◌%◌, Bool, ◌||◌, not, List, [], ◌∷◌, Option, none, some, drop, leb, ◌==◌, if◌then◌else◌,
  ◌≡◌, refl, ap, ◌∙◌, inl, inr, Bool-cases, Option-cases,
}
use dpdk_practice.Clib.{Str, char_at, strtoul}
use dpdk_practice.L3fwd.Config.{is_bad, parse_portmask, parse_queue_size, parse_config, LcoreParams}
use dpdk_practice.L3fwd.Config.Sizes.{parse_mbcache_size-eq}
use dpdk_practice.L3fwd.Options.{
  LookupMode, lookup_default, lookup_lpm, lookup_em, lookup_fib, lookup_acl, parse_eth_dest,
  parse_lookup,
}
use dpdk_practice.L3fwd.Options.Args.{
  Opt, mode, config, portmask, rx_queue_size, tx_queue_size, pkt_rx_burst, pkt_tx_burst,
  mb_cache_size, eth_dest, max_pkt_len, eventq_sync, event_eth_rx_queues, vector_size,
  vector_tmo_ns, lookup, rule_ipv4, rule_ipv6, alg_name, promiscuous, exact_match, longest_prefix,
  no_numa, use_ipv6, hash_entry_num, parse_ptype, relax_rx_offload, disable_rss, per_port_pool,
  enable_vector, other, ParseState, Step, exited, refused, going, Dpdk, select, or_exit, apply_opt,
  and_then, apply_opts,
}
use dpdk_practice.L3fwd.Options.Args.Spec.{View, choose, view, view_of, is_eth_dest, track}

module _ (d : Dpdk) where
  select-track :
      (s : ParseState) (m : LookupMode) → view_of (select s (some m)) ≡ choose (some m) (view s)
  select-track s m = by_mode s.options.lookup_mode
    where
      by_mode :
          (old : LookupMode)
          → view_of (elim old [
            | lookup_default ↦ going (record s { options = record s.options { lookup_mode = m } })
            | _ ↦ refused
          ])
            ≡ elim old [ lookup_default ↦ some (record (view s) { lookup_mode = m }) | _ ↦ none ]
      by_mode lookup_default = refl
      by_mode lookup_lpm = refl
      by_mode lookup_em = refl
      by_mode lookup_fib = refl
      by_mode lookup_acl = refl

  eth_dest-track :
      (optarg : Str) (s : ParseState)
      → view_of (or_exit s (parse_eth_dest d.etheraddr d.rte_max_ethports optarg s.options))
        ≡ (if is_eth_dest d optarg then some (view s) else none)
  unfolding parse_eth_dest
  eth_dest-track optarg s = elim (Bool-cases (bad optarg)) [
    | inl e ↦ rw (parse_eth_dest, e) refl
    | inr good ↦ elim (Bool-cases (high optarg)) [
      | inl e ↦ rw (parse_eth_dest, good, e) refl
      | inr low ↦ elim (Option-cases (d.etheraddr (drop 1 (strtoul optarg 10).rest))) [
        | inl e ↦ rw (parse_eth_dest, good, low, e) refl
        | inr (peer_addr, e) ↦ rw (parse_eth_dest, good, low, e) refl
      ]
    ]
  ]
    where
      bad : Str → Bool
      bad text =
          (strtoul text 10).range
          || not (strtoul text 10).converted
          || not (char_at (strtoul text 10).rest == b',')

      high : Str → Bool
      high text = leb d.rte_max_ethports ((strtoul text 10).value % 65536)

  apply_opt-track : (o : Opt) (s : ParseState) → view_of (apply_opt d o s) ≡ track d o (view s)
  unfolding apply_opt
  apply_opt-track (portmask optarg) s = elim (Bool-cases (parse_portmask optarg == 0)) [
    | inl e ↦ rw (apply_opt, e) refl
    | inr e ↦ rw (apply_opt, e) refl
  ]
  apply_opt-track promiscuous s = refl
  apply_opt-track exact_match s = select-track s lookup_em
  apply_opt-track longest_prefix s = select-track s lookup_lpm
  apply_opt-track (config optarg) s = elim (Bool-cases (stored optarg).0) [
    | inl e ↦ rw (apply_opt, e) refl
    | inr e ↦ rw (apply_opt, e) refl
  ]
    where
      stored : Str → Bool × List LcoreParams
      stored =
          parse_config d.rte_max_ethports d.rte_max_queues_per_port d.rte_max_lcore d.rte_strsplit
  apply_opt-track (rx_queue_size optarg) s = elim (Option-cases (parse_queue_size optarg)) [
    | inl e ↦ rw (apply_opt, e) refl
    | inr (v, e) ↦ rw (apply_opt, e) refl
  ]
  apply_opt-track (tx_queue_size optarg) s = elim (Option-cases (parse_queue_size optarg)) [
    | inl e ↦ rw (apply_opt, e) refl
    | inr (v, e) ↦ rw (apply_opt, e) refl
  ]
  apply_opt-track (pkt_rx_burst optarg) s = refl
  apply_opt-track (pkt_tx_burst optarg) s = refl
  apply_opt-track (mb_cache_size optarg) s = elim (Bool-cases (fine optarg)) [
    | inl e ↦
        rw (apply_opt, parse_mbcache_size-eq most optarg s.options.mb_mempool_cache_size, e) refl
    | inr e ↦
        rw (apply_opt, parse_mbcache_size-eq most optarg s.options.mb_mempool_cache_size, e) refl
  ]
    where
      most : ℕ
      most = d.rte_mempool_cache_max_size

      fine : Str → Bool
      fine text = is_bad text (strtoul text 10).rest || leb (strtoul text 10).value most
  apply_opt-track (eth_dest optarg) s = eth_dest-track optarg s
  apply_opt-track no_numa s = refl
  apply_opt-track use_ipv6 s = refl
  apply_opt-track (max_pkt_len optarg) s = refl
  apply_opt-track hash_entry_num s = refl
  apply_opt-track parse_ptype s = refl
  apply_opt-track relax_rx_offload s = refl
  apply_opt-track disable_rss s = refl
  apply_opt-track per_port_pool s = refl
  apply_opt-track (mode optarg) s = refl
  apply_opt-track (eventq_sync optarg) s = refl
  apply_opt-track (event_eth_rx_queues optarg) s = refl
  apply_opt-track enable_vector s = refl
  apply_opt-track (vector_size optarg) s = refl
  apply_opt-track (vector_tmo_ns optarg) s = refl
  apply_opt-track (lookup optarg) s = elim (Option-cases (parse_lookup optarg)) [
    | inl e ↦ rw (apply_opt, e) refl
    | inr (m, e) ↦ rw (apply_opt, e) (select-track s m)
  ]
  apply_opt-track (rule_ipv4 optarg) s = refl
  apply_opt-track (rule_ipv6 optarg) s = refl
  apply_opt-track (alg_name optarg) s = refl
  apply_opt-track other s = refl

  and_then-track :
      (t : Step) (k : ParseState → Step) (r : View → Option View)
      → ((s : ParseState) → view_of (k s) ≡ r (view s))
      → view_of (and_then d t k) ≡ (view_of t >>= r)
  and_then-track exited k r h = refl
  and_then-track refused k r h = refl
  and_then-track (going s) k r h = h s

  unfoldable pub track_all : List Opt → View → Option View
  track_all [] v = some v
  track_all (o ∷ opts) v = track d o v >>= track_all opts

  pub apply_opts-track :
      (opts : List Opt) (s : ParseState) → view_of (apply_opts d opts s) ≡ track_all opts (view s)
  unfolding apply_opts track_all
  apply_opts-track [] s = refl
  apply_opts-track (o ∷ opts) s =
      and_then-track (apply_opt d o s) (apply_opts d opts) (track_all opts) (apply_opts-track opts)
      ∙ ap (λ v. v >>= track_all opts) (apply_opt-track o s)

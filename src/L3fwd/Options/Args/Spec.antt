-- ===== src/L3fwd/Options/Args/Spec.antt =====
-- l3fwd/main.c: what a command line of l3fwd says, option by option.
use dpdk_practice.Base.{
  ◌%◌, Bool, true, false, ◌&&◌, ◌||◌, not, List, [], ◌∷◌, Option, none, some, drop, leb, ◌==◌,
  if◌then◌else◌,
}
use dpdk_practice.Clib.{Str, char_at, strtoul}
use dpdk_practice.L3fwd.Config.{is_bad, parse_portmask, parse_queue_size, parse_config}
use dpdk_practice.L3fwd.Options.{
  LookupMode, lookup_default, lookup_lpm, lookup_em, parse_mode, parse_lookup,
}
use dpdk_practice.L3fwd.Options.Args.{
  Opt, mode, config, portmask, rx_queue_size, tx_queue_size, mb_cache_size, eth_dest, eventq_sync,
  event_eth_rx_queues, lookup, exact_match, longest_prefix, other, ParseState, Step, exited,
  refused, going, Dpdk,
}

abbrev pub is_some : {A : Type 0} → Option A → Bool
is_some none = false
is_some (some a) = true

-- What acceptance depends on.
pub record View : Type 0 where
  pub lookup_mode : LookupMode
  pub enabled : Bool
  pub configured : Bool
  pub synced : Bool
  pub counted : Bool

abbrev pub is_config : Opt → Bool
is_config (config optarg) = true
is_config o = false

abbrev pub is_eventq_sync : Opt → Bool
is_eventq_sync (eventq_sync optarg) = true
is_eventq_sync o = false

abbrev pub is_event_eth_rx_queues : Opt → Bool
is_event_eth_rx_queues (event_eth_rx_queues optarg) = true
is_event_eth_rx_queues o = false

-- The lookup that an option selects.
abbrev pub mode_of : Opt → Option LookupMode
mode_of exact_match = some lookup_em
mode_of longest_prefix = some lookup_lpm
mode_of (lookup optarg) = parse_lookup optarg
mode_of o = none

-- Whether eventdev is enabled behind an option.
abbrev pub enabled_by : Opt → Bool → Bool
enabled_by (mode optarg) old = parse_mode optarg old
enabled_by o old = old

abbrev pub prepend : Option LookupMode → List LookupMode → List LookupMode
prepend none ms = ms
prepend (some m) ms = m ∷ ms

-- The lookups that the options select, in their order.
abbrev pub modes : List Opt → List LookupMode
modes [] = []
modes (o ∷ opts) = prepend (mode_of o) (modes opts)

abbrev pub enabled_after : List Opt → Bool → Bool
enabled_after [] old = old
enabled_after (o ∷ opts) old = enabled_after opts (enabled_by o old)

-- Whether an option passes the test, or `old`.
abbrev pub given : (Opt → Bool) → List Opt → Bool → Bool
given p [] old = old
given p (o ∷ opts) old = given p opts (p o || old)

abbrev pub choose : Option LookupMode → View → Option View
choose none v = some v
choose (some m) v = elim v.lookup_mode [
  | lookup_default ↦ some (record v { lookup_mode = m })
  | _ ↦ none
]

abbrev pub seen : Opt → View → View
seen o v = record v {
  enabled = enabled_by o v.enabled;
  configured = is_config o || v.configured;
  synced = is_eventq_sync o || v.synced;
  counted = is_event_eth_rx_queues o || v.counted;
}

abbrev pub view : ParseState → View
view s = record {
  lookup_mode = s.options.lookup_mode;
  enabled = s.options.evt_rsrc.enabled;
  configured = s.lcore_params;
  synced = s.eventq_sched;
  counted = s.eth_rx_q;
}

abbrev pub view_of : Step → Option View
view_of exited = none
view_of refused = none
view_of (going s) = some (view s)

module _ (d : Dpdk) where
  abbrev pub is_eth_dest : Str → Bool
  is_eth_dest optarg =
      let n = strtoul optarg 10 in
      not (n.range || not n.converted || not (char_at n.rest == b','))
      && not (leb d.rte_max_ethports (n.value % 65536))
      && is_some (d.etheraddr (drop 1 n.rest))

  -- Whether an option is well-formed.
  abbrev pub is_valid : Opt → Bool
  is_valid (portmask optarg) = not (parse_portmask optarg == 0)
  is_valid (config optarg) =
      (parse_config d.rte_max_ethports d.rte_max_queues_per_port d.rte_max_lcore d.rte_strsplit
        optarg).0
  is_valid (rx_queue_size optarg) = is_some (parse_queue_size optarg)
  is_valid (tx_queue_size optarg) = is_some (parse_queue_size optarg)
  is_valid (mb_cache_size optarg) =
      is_bad optarg (strtoul optarg 10).rest
      || leb (strtoul optarg 10).value d.rte_mempool_cache_max_size
  is_valid (eth_dest optarg) = is_eth_dest optarg
  is_valid (lookup optarg) = is_some (parse_lookup optarg)
  is_valid other = false
  is_valid o = true

  -- What an option does to the view.
  abbrev pub track : Opt → View → Option View
  track o v = if is_valid o then choose (mode_of o) (seen o v) else none

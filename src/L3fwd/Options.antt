-- ===== src/L3fwd/Options.antt =====
-- l3fwd/main.c: the variables that the options set, and the parsers of single options that are not
-- plain numbers. L3fwd/Config has the others.
pub mod Args
use dpdk_practice.Base.{
  ℕ, ◌*◌, ◌%◌, Bool, true, false, ◌||◌, not, List, [], ◌∷◌, Option, none, some, drop, ltb, leb,
  ◌==◌, if◌then◌else◌, update,
}
use dpdk_practice.Clib.{Str, char_at, strtoul, streq}
use dpdk_practice.L3fwd.Rfc1812.{Frame}
use dpdk_practice.L3fwd.Tx.{max_pkt_burst}
use dpdk_practice.L3fwd.Config.{is_bad, LcoreParams}
use dpdk_practice.L3fwd.Acl.Alg.{AclAlg}

-- `enum L3FWD_LOOKUP_MODE`
pub data LookupMode : Type 0 where
  lookup_default lookup_lpm lookup_em lookup_fib lookup_acl : LookupMode

pub data SchedType : Type 0 where
  ordered atomic parallel : SchedType

-- The fields of `struct l3fwd_event_resources` that options set.
pub record EventResources : Type 0 where
  pub enabled : Bool
  pub sched_type : SchedType
  pub eth_rx_queues : ℕ
  pub vector_enabled : Bool
  pub vector_size : ℕ
  pub vector_tmo_ns : ℕ

-- The variables of the file; a `dest_eth_addr` is its 8 bytes.
pub record Options : Type 0 where
  pub enabled_port_mask : ℕ
  pub promiscuous_on : Bool
  pub lookup_mode : LookupMode
  pub lcore_params : List LcoreParams
  pub nb_rxd : ℕ
  pub nb_txd : ℕ
  pub rx_burst_size : ℕ
  pub tx_burst_size : ℕ
  pub mb_mempool_cache_size : ℕ
  pub dest_eth_addr : ℕ → Frame
  pub val_eth : ℕ → Frame
  pub numa_on : Bool
  pub ipv6 : Bool
  pub max_pkt_len : ℕ
  pub parse_ptype : Bool
  pub relax_rx_offload : Bool
  pub disable_rss : Bool
  pub per_port_pool : Bool
  pub rule_ipv4_name : Option Str
  pub rule_ipv6_name : Option Str
  pub alg : AclAlg
  pub rss_hf : ℕ
  pub evt_rsrc : EventResources

-- None where the program exits. The port is cut to 16 bits before it is compared; `etheraddr` is
-- cmdline_parse_etheraddr, `max_ethports` RTE_MAX_ETHPORTS.
pub parse_eth_dest : (Str → Option Frame) → ℕ → Str → Options → Option Options
parse_eth_dest etheraddr max_ethports optarg c =
    let n = strtoul optarg 10 in
    let portid = n.value % 65536 in
    if n.range || not n.converted || not (char_at n.rest == b',')
    then none
    else if leb max_ethports portid
    then none
    else elim (etheraddr (drop 1 n.rest)) [
      | none ↦ none
      | some peer_addr ↦
          (let dest : Frame = λ i. if ltb i 6 then peer_addr i else c.dest_eth_addr portid i in
            some (record c {
              dest_eth_addr = update c.dest_eth_addr portid dest;
              val_eth =
                  update c.val_eth portid (λ i. if ltb i 8 then dest i else c.val_eth portid i);
            }))
    ]

abbrev pub poll_name : Str
poll_name = b'p' ∷ b'o' ∷ b'l' ∷ b'l' ∷ []

abbrev pub eventdev_name : Str
eventdev_name = b'e' ∷ b'v' ∷ b'e' ∷ b'n' ∷ b't' ∷ b'd' ∷ b'e' ∷ b'v' ∷ []

-- The new `enabled`; another text changes nothing.
pub parse_mode : Str → Bool → Bool
parse_mode optarg old =
    if streq optarg poll_name then false else if streq optarg eventdev_name then true else old

pub parse_eventq_sched : Str → SchedType → SchedType
parse_eventq_sched optarg old =
    if streq optarg (b'p' ∷ b'a' ∷ b'r' ∷ b'a' ∷ b'l' ∷ b'l' ∷ b'e' ∷ b'l' ∷ [])
    then parallel
    else if streq optarg (b'a' ∷ b't' ∷ b'o' ∷ b'm' ∷ b'i' ∷ b'c' ∷ [])
    then atomic
    else if streq optarg (b'o' ∷ b'r' ∷ b'd' ∷ b'e' ∷ b'r' ∷ b'e' ∷ b'd' ∷ [])
    then ordered
    else old

-- Cut to 16 bits before the test for 0.
pub parse_event_eth_rx_queues : Str → ℕ → ℕ
parse_event_eth_rx_queues text old =
    let n = strtoul text 10 in
    let num_eth_rx_queues = n.value % 65536 in
    if is_bad text n.rest then old else if num_eth_rx_queues == 0 then old else num_eth_rx_queues

-- None is -1.
pub parse_lookup : Str → Option LookupMode
parse_lookup optarg =
    if streq optarg (b'e' ∷ b'm' ∷ [])
    then some lookup_em
    else if streq optarg (b'l' ∷ b'p' ∷ b'm' ∷ [])
    then some lookup_lpm
    else if streq optarg (b'f' ∷ b'i' ∷ b'b' ∷ [])
    then some lookup_fib
    else if streq optarg (b'a' ∷ b'c' ∷ b'l' ∷ [])
    then some lookup_acl
    else none

-- The new `*burst_sz`. `recommended` is `default_rxportconf.burst_size` of port 0, none where
-- rte_eth_dev_info_get fails.
pub parse_pkt_burst : Option ℕ → Str → Bool → ℕ → ℕ
parse_pkt_burst recommended optarg is_rx_burst burst_sz =
    let pkt_burst = strtoul optarg 10 in
    if is_bad optarg pkt_burst.rest
    then burst_sz
    else if ltb max_pkt_burst pkt_burst.value
    then burst_sz
    else if ltb 0 pkt_burst.value
    then pkt_burst.value
    else if is_rx_burst
    then elim recommended [
      | none ↦ burst_sz
      | some burst_size ↦
          if burst_size == 0
          then burst_sz
          else if ltb max_pkt_burst burst_size
          then burst_sz
          else burst_size
    ]
    else burst_sz

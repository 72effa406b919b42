-- ===== src/L3fwd/Config.antt =====
-- l3fwd/main.c: the options that are numbers, the (port, queue, lcore) triples of --config, and what
-- main makes of them. An int is its 32-bit word in two's complement.
pub mod Queues
pub mod Sizes
pub mod Triples
pub mod TxQueues
use dpdk_practice.Base.{
  ◌>>=◌, ℕ, zero, suc, ◌+◌, ◌*◌, ◌/◌, ◌%◌, Bool, true, false, ◌&&◌, ◌||◌, not, List, [], ◌∷◌, ◌++◌,
  Option, none, some, length, drop, ltb, leb, ◌==◌, if◌then◌else◌, update,
}
use dpdk_practice.Base.Bits.{has_bit}
use dpdk_practice.Clib.{Str, char_at, strtoul, strchr, before}

abbrev pub minus_one : ℕ
minus_one = 4294967295

-- `(arg[0] == '\0') || (end == NULL) || (*end != '\0')`; `end` is never NULL.
abbrev pub is_bad : Str → Str → Bool
is_bad arg end = char_at arg == 0 || not (char_at end == 0)

pub parse_max_pkt_len : Str → ℕ
parse_max_pkt_len pktlen =
    let len = strtoul pktlen 10 in
    if is_bad pktlen len.rest
    then minus_one
    else if len.value == 0
    then minus_one
    else len.value % 4294967296

unfoldable pub parse_portmask : Str → ℕ
parse_portmask portmask =
    let pm = strtoul portmask 16 in if is_bad portmask pm.rest then 0 else pm.value % 4294967296

-- The new `*queue_size`; none where the program exits.
pub parse_queue_size : Str → Option ℕ
parse_queue_size queue_size_arg =
    let value = strtoul queue_size_arg 10 in
    if is_bad queue_size_arg value.rest || value.value == 0
    then none
    else if ltb 65535 value.value
    then none
    else some value.value

-- `mb_mempool_cache_size` as it was and as it is then; none where the program exits. `max_size`
-- is RTE_MEMPOOL_CACHE_MAX_SIZE.
pub parse_mbcache_size : ℕ → Str → ℕ → Option ℕ
parse_mbcache_size max_size optarg old =
    let mb_cache_size = strtoul optarg 10 in
    if is_bad optarg mb_cache_size.rest
    then some old
    else if leb mb_cache_size.value max_size
    then some mb_cache_size.value
    else none

-- `struct lcore_params`
pub record LcoreParams : Type 0 where
  pub port_id : ℕ
  pub queue_id : ℕ
  pub lcore_id : ℕ

-- MAX_LCORE_PARAMS, MAX_RX_QUEUE_PER_PORT, MAX_RX_QUEUE_PER_LCORE
abbrev pub max_lcore_params : ℕ
max_lcore_params = 1024

abbrev pub max_rx_queue_per_port : ℕ
max_rx_queue_per_port = 128

abbrev pub max_rx_queue_per_lcore : ℕ
max_rx_queue_per_lcore = 16

-- One field of a triple.
abbrev pub parse_field : Str → ℕ → Option ℕ
parse_field s max_fld =
    let n = strtoul s 0 in
    if n.range || not n.converted || ltb max_fld n.value then none else some n.value

-- RTE_MAX_ETHPORTS, RTE_MAX_QUEUES_PER_PORT and RTE_MAX_LCORE of the DPDK configuration, and
-- rte_strsplit with its NUL-terminated result strings: at most so many tokens, by the character.
module _ (rte_max_ethports rte_max_queues_per_port rte_max_lcore : ℕ)
    (rte_strsplit : Str → ℕ → ℕ → List Str) where
  pub parse_triple : Str → Option LcoreParams
  parse_triple s = elim (rte_strsplit s 3 44) [
    | (f0 ∷ f1 ∷ f2 ∷ []) ↦ (do
      port ← parse_field f0 rte_max_ethports
      queue ← parse_field f1 rte_max_queues_per_port
      lcore ← parse_field f2 rte_max_lcore
      some (record { port_id = port; queue_id = queue; lcore_id = lcore }))
    | _ ↦ none
  ]

  -- The loop of parse_config from `p0` on, by the bytes left; false is -1.
  pub parse_triples : ℕ → Str → List LcoreParams → Bool × List LcoreParams
  unfolding parse_triple
  parse_triples zero p0 stored = (true, stored)
  parse_triples (suc left) p0 stored = elim (strchr p0 40) [
    | none ↦ (true, stored)
    | some p ↦
        (let body = drop 1 p in
          elim (strchr body 41) [
            | none ↦ (false, stored)
            | some p0' ↦
                (let s = before body 41 in
                  if leb 256 (length s) then (false, stored) else elim (parse_triple s) [
                    | none ↦ (false, stored)
                    | some triple ↦
                        (let next = parse_triples left p0' (stored ++ (triple ∷ [])) in
                          if leb max_lcore_params (length stored) then (false, stored) else next)
                  ])
          ])
  ]

  -- `lcore_params_array` with its count.
  pub parse_config : Str → Bool × List LcoreParams
  unfolding parse_triples
  parse_config q_arg = parse_triples (suc (length q_arg)) q_arg []

-- `enabled` is rte_lcore_is_enabled.
pub check_lcore_params : (ℕ → Bool) → List LcoreParams → Bool
check_lcore_params enabled [] = true
check_lcore_params enabled (p ∷ params) =
    let rest = check_lcore_params enabled params in
    if leb max_rx_queue_per_port p.queue_id
    then false
    else if not (enabled p.lcore_id)
    then false
    else rest

-- `valid` is rte_eth_dev_is_valid_port. C leaves `1 << portid` open from 32 on; here such a bit is
-- never in the mask.
pub check_port_config : (ℕ → Bool) → ℕ → List LcoreParams → Bool
check_port_config valid mask [] = true
check_port_config valid mask (p ∷ params) =
    let rest = check_port_config valid mask params in
    if not (has_bit mask p.port_id) then false else if not (valid p.port_id) then false else rest

-- The loop of get_port_n_rx_queues; `next` is `queue + 1`. None is the exit.
unfoldable pub count_rx_queues : ℕ → ℕ → List LcoreParams → Option ℕ
count_rx_queues port next [] = some next
count_rx_queues port next (p ∷ params) =
    let counted = count_rx_queues port (next + 1) params in
    let skipped = count_rx_queues port next params in
    if p.port_id == port then if p.queue_id == next then counted else none else skipped

unfoldable pub get_port_n_rx_queues : ℕ → List LcoreParams → Option ℕ
unfolding count_rx_queues
get_port_n_rx_queues port params = count_rx_queues port 0 params

-- `rx_queue_list` of a core, with its length as `n_rx_queue`.
abbrev pub RxQueues : Type 0
RxQueues = ℕ → List (ℕ × ℕ)

-- False is -1, with the lists as they are then.
unfoldable pub init_lcore_rx_queues : List LcoreParams → RxQueues → Bool × RxQueues
init_lcore_rx_queues [] conf = (true, conf)
init_lcore_rx_queues (p ∷ params) conf =
    let old = conf p.lcore_id in
    let next =
      init_lcore_rx_queues params
        (update conf p.lcore_id (old ++ ((p.port_id, p.queue_id) ∷ []))) in
    if leb max_rx_queue_per_lcore (length old) then (false, conf) else next

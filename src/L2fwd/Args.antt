-- ===== src/L2fwd/Args.antt =====
-- l2fwd/main.c: the command line, l2fwd_parse_portmask to l2fwd_parse_args. An int is its 32-bit
-- word in two's complement.
pub mod Laws
pub mod PortPairs
use dpdk_practice.Base.{
  ℕ, zero, suc, ◌+◌, ◌/◌, ◌%◌, Bool, true, false, ◌&&◌, ◌||◌, not, List, [], ◌∷◌, ◌++◌, Option,
  none, some, length, drop, take, ltb, leb, ◌==◌, if◌then◌else◌,
}
use dpdk_practice.Clib.{Str, char_at, strtoul, strtol, strchr, before}
use dpdk_practice.L2fwd.PairCheck.{PortPair}

abbrev pub minus_one : ℕ
minus_one = 4294967295

abbrev pub is_negative : ℕ → Bool
is_negative n = leb 2147483648 n

-- `(arg[0] == '\0') || (end == NULL) || (*end != '\0')`; `end` is never NULL.
abbrev pub is_bad : Str → Str → Bool
is_bad arg end = char_at arg == 0 || not (char_at end == 0)

pub l2fwd_parse_portmask : Str → ℕ
l2fwd_parse_portmask portmask =
    let pm = strtoul portmask 16 in if is_bad portmask pm.rest then 0 else pm.value % 4294967296

-- MAX_RX_QUEUE_PER_LCORE, MAX_TIMER_PERIOD
abbrev pub max_rx_queue_per_lcore : ℕ
max_rx_queue_per_lcore = 16

abbrev pub max_timer_period : ℕ
max_timer_period = 86400

pub l2fwd_parse_nqueue : Str → ℕ
l2fwd_parse_nqueue q_arg =
    let n = strtoul q_arg 10 in
    if is_bad q_arg n.rest
    then 0
    else if n.value == 0
    then 0
    else if leb max_rx_queue_per_lcore n.value
    then 0
    else n.value

-- The long of strtol is cut to an int.
pub l2fwd_parse_timer_period : Str → ℕ
l2fwd_parse_timer_period q_arg =
    let l = strtol q_arg 10 in
    let n = l.value % 4294967296 in
    if is_bad q_arg l.rest
    then minus_one
    else if not (is_negative n) && leb max_timer_period n
    then minus_one
    else n

-- The variables that the options set. `port_pair_params` is none for NULL.
pub record Settings : Type 0 where
  pub enabled_port_mask : ℕ
  pub promiscuous_on : Bool
  pub rx_queue_per_lcore : ℕ
  pub timer_period : ℕ
  pub mac_updating : Bool
  pub nb_port_pair_params : ℕ
  pub port_pair_params_array : List PortPair
  pub port_pair_params : Option (List PortPair)

-- What getopt_long gives, with `optarg`; `other` is the default case.
pub data Opt : Type 0 where
  portmask nqueue timer portmap : Str → Opt
  promiscuous no_mac_updating other : Opt

-- RTE_MAX_ETHPORTS of the DPDK configuration, and rte_strsplit with its NUL-terminated result strings: at most so many tokens, by the character.
module _ (rte_max_ethports : ℕ) (rte_strsplit : Str → ℕ → ℕ → List Str) where
  -- Both fields of a pair, each below RTE_MAX_ETHPORTS.
  pub parse_pair : Str → Option PortPair
  parse_pair s = elim (rte_strsplit s 2 44) [
    | (f0 ∷ f1 ∷ []) ↦
        (let a = strtoul f0 0 in
          let b = strtoul f1 0 in
          if a.range || not a.converted || leb rte_max_ethports a.value
          then none
          else if b.range || not b.converted || leb rte_max_ethports b.value
          then none
          else some (record { port0 = a.value; port1 = b.value }))
    | _ ↦ none
  ]

  -- The loop from `p0` on, by the bytes left; the pairs are those stored so far. False is -1.
  pub parse_pairs : ℕ → Str → List PortPair → Bool × List PortPair
  unfolding parse_pair
  parse_pairs zero p0 stored = (true, stored)
  parse_pairs (suc left) p0 stored = elim (strchr p0 40) [
    | none ↦ (true, stored)
    | some p ↦
        (let body = drop 1 p in
          elim (strchr body 41) [
            | none ↦ (false, stored)
            | some p0' ↦
                (let s = before body 41 in
                  if leb 256 (length s) then (false, stored) else elim (parse_pair s) [
                    | none ↦ (false, stored)
                    | some pair ↦
                        (let next = parse_pairs left p0' (stored ++ (pair ∷ [])) in
                          if leb (rte_max_ethports / 2) (length stored)
                          then (false, stored)
                          else next)
                  ])
          ])
  ]

  -- The array and its count start over; on -1 the pointer keeps its value.
  pub l2fwd_parse_port_pair_config : Str → Settings → Bool × Settings
  unfolding parse_pairs
  l2fwd_parse_port_pair_config q_arg c =
      let (ok, stored) = parse_pairs (suc (length q_arg)) q_arg [] in
      let filled = record c {
        nb_port_pair_params = length stored;
        port_pair_params_array = stored;
      } in
      if ok then (true, record filled { port_pair_params = some stored }) else (false, filled)

  -- One turn of the switch in l2fwd_parse_args; false is `return -1`.
  pub apply_opt : Opt → Settings → Bool × Settings
  unfolding l2fwd_parse_portmask l2fwd_parse_nqueue l2fwd_parse_timer_period
      l2fwd_parse_port_pair_config
  apply_opt (portmask optarg) c =
      let mask = l2fwd_parse_portmask optarg in
      (not (mask == 0), record c { enabled_port_mask = mask })
  apply_opt promiscuous c = (true, record c { promiscuous_on = true })
  apply_opt (nqueue optarg) c =
      let n = l2fwd_parse_nqueue optarg in (not (n == 0), record c { rx_queue_per_lcore = n })
  apply_opt (timer optarg) c =
      let timer_secs = l2fwd_parse_timer_period optarg in
      if is_negative timer_secs then (false, c) else (true, record c { timer_period = timer_secs })
  apply_opt (portmap optarg) c = l2fwd_parse_port_pair_config optarg c
  apply_opt no_mac_updating c = (true, record c { mac_updating = false })
  apply_opt other c = (false, c)

  -- The options from the first on, until one fails.
  pub apply_opts : List Opt → Settings → Bool × Settings
  unfolding apply_opt
  apply_opts [] c = (true, c)
  apply_opts (o ∷ opts) c =
      let (ok, c') = apply_opt o c in
      let rest = apply_opts opts c' in if ok then rest else (false, c')

  -- l2fwd_parse_args clears the pointer first.
  pub l2fwd_parse_args : List Opt → Settings → Bool × Settings
  unfolding apply_opts
  l2fwd_parse_args opts c = apply_opts opts (record c { port_pair_params = none })
